-- ===== src/Html/TextType.antt =====
-- src/html/namespace.rs and src/html/text_type.rs.
use lol_html.Prelude.{Bool, true, false}

pub data Namespace : Type 0 where
  html svg_ns math_ml : Namespace

pub data TextType : Type 0 where
  plain_text rc_data raw_text script_data data_ cdata_section : TextType

abbrev pub ns_eq : Namespace → Namespace → Bool
ns_eq html html = true
ns_eq svg_ns svg_ns = true
ns_eq math_ml math_ml = true
ns_eq _ _ = false

unfoldable pub allows_html_entities : TextType → Bool
allows_html_entities data_ = true
allows_html_entities rc_data = true
allows_html_entities _ = false
