-- ===== src/Towa/Manager.antt =====
-- server/towa_mgr.cpp: the manager of the process that runs the Java classes. What the system calls
-- answer are arguments; `none` is an exception that nothing catches.
use sa_wa.Towa.WebXml.{TowaServlet, Xml, read_web_xml, Unpacking, uncompress_war}
use sa_wa.Base.{
  ℕ, ℤ, pos, negsuc, zero, suc, Bool, true, false, Option, none, some, List, [], ◌∷◌, ◌++◌, ◌-◌,
  ltb, length, take, drop, Text, text_eq, codes, if◌then◌else◌, ◌>>=◌,
}

-- An entry of the class path's directory.
pub data Entry : Type 0 where
  directory : Text → Entry
  regular : Text → Entry
  other : Text → Entry

-- The two sets of scanClasspath; their order is the library's.
pub record Classpath : Type 0 where
  pub wars : List Text
  pub dirs : List Text

unfoldable pub count : Text → List Text → Bool
count t [] = false
count t (u ∷ us) = if text_eq t u then true else count t us

unfoldable pub insert : Text → List Text → List Text
unfolding count
insert t set = if count t set then set else t ∷ set

-- The test of a regular file's name. Its last four characters cannot be taken of a shorter one.
unfoldable pub is_war : Text → Option Bool
is_war name =
    if ltb (length name) 4
    then none
    else some (text_eq (drop (length name - 4) name) (codes ".war"))

-- The loop of scanClasspath over the directory.
unfoldable pub scan_entries : List Entry → Classpath → Option Classpath
unfolding is_war insert
scan_entries [] c = some c
scan_entries (directory name ∷ rest) c = scan_entries rest (record c { dirs = insert name c.dirs })
scan_entries (other name ∷ rest) c = scan_entries rest c
scan_entries (regular name ∷ rest) c = elim (is_war name) [
  | none ↦ none
  | some false ↦ scan_entries rest c
  | some true ↦ scan_entries rest (record c { wars = insert (take (length name - 4) name) c.wars })
]

-- The second loop of scanClasspath: an archive without a directory of its name is unpacked, and the
-- servlet of each archive is read.
unfoldable pub read_wars : Xml → List Text → List Text → Option (List Unpacking × List TowaServlet)
unfolding count uncompress_war read_web_xml
read_wars xml dirs [] = some ([], [])
read_wars xml dirs (war ∷ wars) = do
  servlet ← read_web_xml xml war
  (unpackings, servlets) ← read_wars xml dirs wars
  some (
    (if count war dirs
        then unpackings
        else uncompress_war (codes "./classpath/" ++ war) ∷ unpackings),
    servlet ∷ servlets,
  )

unfoldable pub scan_classpath : Xml → List Entry → Option (List Unpacking × List TowaServlet)
unfolding scan_entries read_wars
scan_classpath xml entries = do
  c ← scan_entries entries (record { wars = []; dirs = [] })
  read_wars xml c.dirs c.wars

abbrev pub failure_towa_cannot_spawn : ℕ
failure_towa_cannot_spawn = 0x61

-- The manager: the process that runs the Java classes, and the archives unpacked so far.
pub record TowaMgr : Type 0 where
  pub pid : ℤ
  pub unpacked : List Unpacking

-- The manager as it is, or with a code that is thrown.
pub data Managed : Type 0 where
  managed : TowaMgr → Managed
  thrown : ℕ → TowaMgr → Managed

-- launchAppPool in the parent, on what fork and waitpid answer.
unfoldable pub launch_app_pool : TowaMgr → ℤ → ℤ → Managed
launch_app_pool mgr forked (pos zero) = managed (record mgr { pid = forked })
launch_app_pool mgr forked (pos (suc n)) =
    thrown failure_towa_cannot_spawn (record mgr { pid = forked })
launch_app_pool mgr forked (negsuc n) =
    thrown failure_towa_cannot_spawn (record mgr { pid = forked })

-- TowaMgr::start, on the entries of the class path.
unfoldable pub start : TowaMgr → Xml → List Entry → ℤ → ℤ → Option Managed
unfolding scan_classpath launch_app_pool
start mgr xml entries forked waited = do
  (archives, servlets) ← scan_classpath xml entries
  some (launch_app_pool (record mgr { unpacked = mgr.unpacked ++ archives }) forked waited)

-- The process is started again where waitpid does not answer that it still runs.
unfoldable pub check : TowaMgr → ℤ → Xml → List Entry → ℤ → ℤ → Option Managed
unfolding start
check mgr (pos zero) xml entries forked waited = some (managed mgr)
check mgr (pos (suc n)) xml entries forked waited = start mgr xml entries forked waited
check mgr (negsuc n) xml entries forked waited = start mgr xml entries forked waited
