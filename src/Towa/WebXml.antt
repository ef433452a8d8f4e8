-- ===== src/Towa/WebXml.antt =====
-- readWebXML and uncompressWar of server/towa_mgr.cpp. The XML library (tinyxml2) is an interface;
-- a node is a number. `none` is an access through a null pointer.
use sa_wa.Base.{ℕ, Option, some, Text, codes, ◌++◌, ◌>>=◌}

pub record TowaServlet : Type 0 where
  pub name : Text
  pub path : Text

-- A document that could not be loaded has no elements.
pub record Xml : Type 0 where
  pub load_file : Text → ℕ
  pub first_child_element : ℕ → Text → Option ℕ
  pub get_text : ℕ → Option Text

unfoldable pub read_web_xml : Xml → Text → Option TowaServlet
read_web_xml xml war = do
  let doc = xml.load_file (codes "./classpath/" ++ war ++ codes "/WEB-INF/web.xml")
  web_app ← xml.first_child_element doc (codes "web-app")
  elt ← xml.first_child_element web_app (codes "servlet-mapping")
  name_elt ← xml.first_child_element elt (codes "servlet-name")
  servlet_name ← xml.get_text name_elt
  pattern_elt ← xml.first_child_element elt (codes "url-pattern")
  url_pattern ← xml.get_text pattern_elt
  some (record { name = servlet_name; path = url_pattern })

-- The folder that is made and the command that is started; nothing waits for its end.
pub record Unpacking : Type 0 where
  pub folder : Text
  pub command : Text

unfoldable pub uncompress_war : Text → Unpacking
uncompress_war war_name = record {
  folder = war_name;
  command = codes "unzip " ++ war_name ++ codes ".war -d " ++ war_name;
}
