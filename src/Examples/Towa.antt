-- ===== src/Examples/Towa.antt =====
-- The Java classes' messages and the scan of a class path, at concrete inputs.
use sa_wa.Towa.WebXml.{Xml, TowaServlet, Unpacking, read_web_xml, uncompress_war}
use sa_wa.Base.{
  none, false, map, suc, pos, ◌≡◌, ◌↔◌, refl, true, some, List, [], ◌∷◌, ◌++◌, Text, codes, arith,
  c_string,
}
use sa_wa.Towa.{message, request_text}
use sa_wa.Towa.AppPool.{Answer, output, respond, process_towa_request}
use sa_wa.Towa.RoundTrip.{NoBar}
use sa_wa.Towa.Sending.{pipe, Upkeep, outcome, replied, mgr_send_msg, mgr_send_msg-respond}
use sa_wa.Towa.Manager.{Entry, directory, regular, TowaMgr, scan_classpath, count}
use sa_wa.Towa.Scan.{HasFile, LongNames}
use sa_wa.Towa.Scanning.{has_directory, scan_classpath-archives}

abbrev hello : Text → Text → Text → Answer
hello verb classname query = output (codes "<p>" ++ query ++ (0 ∷ []))

abbrev classpath : List Entry
classpath =
    directory (codes "shop") ∷ regular (codes "shop.war") ∷ regular (codes "servlet-api.jar") ∷ []

-- Documents with one mapping.
abbrev pub one_servlet : Xml
one_servlet = record {
  load_file = λ path. 0;
  first_child_element = λ node name. some (suc node);
  get_text = λ node. some (codes "/");
}

-- The process has ended, and runs again.
abbrev relaunched : Upkeep
relaunched = record {
  waited = pos 9;
  xml = one_servlet;
  entries = classpath;
  forked = pos 10;
  waited_again = pos 0;
}

abbrev manager : TowaMgr
manager = record { pid = pos 9; unpacked = [] }

scanned :
    scan_classpath one_servlet relaunched.entries
    ≡ some ([], record { name = codes "/"; path = codes "/" } ∷ [])
unfolding scan_classpath sa_wa.Base.text_eq
scanned = refl

mgr_send_msg-respond_example :
    mgr_send_msg pipe
      (λ i. 7)
      0
      (process_towa_request 0 hello)
      relaunched
      manager
      (codes "GET")
      (codes "Hello")
      (codes "a=1")
    ≡ some (outcome relaunched [] manager (record { header = 1; content = codes "<p>a=1" }))
unfolding NoBar request_text respond message c_string
mgr_send_msg-respond_example =
    mgr_send_msg-respond (λ i. 7) 0 hello (codes "GET") (codes "Hello") (codes "a=1")
      (message 0 (1 ∷ codes "<p>a=1")) 1 (codes "<p>a=1") manager relaunched []
      (record { name = codes "/"; path = codes "/" } ∷ [])
      (omega arith, (omega arith, (omega arith, tt)))
      (omega arith, (omega arith, (omega arith, (omega arith, (omega arith, tt)))))
      (omega arith, (omega arith, (omega arith, tt))) (omega arith) refl refl (omega arith) scanned

test-outcome :
    outcome relaunched [] manager (record { header = 1; content = [] })
    ≡ replied (record { header = 1; content = [] }) (record { pid = pos 10; unpacked = [] })
test-outcome = refl

-- Documents without elements, such as those of an archive that is not unpacked yet.
abbrev no_servlet : Xml
no_servlet = record {
  load_file = λ path. 0;
  first_child_element = λ node name. none;
  get_text = λ node. none;
}

scan_classpath-archives_example :
    ((scan_classpath no_servlet classpath ≡ none) ↔ (
      (name : Text) × HasFile (name ++ codes ".war") classpath
      × (read_web_xml no_servlet name ≡ none)))
    × ((us : List Unpacking) (ss : List TowaServlet) (name : Text)
        → scan_classpath no_servlet classpath ≡ some (us, ss)
        → (count (codes "./classpath/" ++ name) (map (λ u. u.folder) us) ≡ true)
          ↔ (HasFile (name ++ codes ".war") classpath × (has_directory name classpath ≡ false)))
unfolding LongNames
scan_classpath-archives_example =
    scan_classpath-archives no_servlet classpath (omega arith, (omega arith, tt))

-- A folder is made for the archive that has none.
test-scan_classpath :
    scan_classpath one_servlet (regular (codes "new.war") ∷ classpath)
    ≡ some (
      uncompress_war (codes "./classpath/new") ∷ [],
      record { name = codes "/"; path = codes "/" }
          ∷ record { name = codes "/"; path = codes "/" }
          ∷ [],
    )
unfolding scan_classpath sa_wa.Base.text_eq
test-scan_classpath = refl
