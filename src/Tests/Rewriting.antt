-- ===== src/Tests/Rewriting.antt =====
-- Mutations and attributes, with an encoding that has the bytes below 128.
use lol_html.Base.Bytes.Replacing.{concat, substitute, first_position, replace_byte3-substitute}
use lol_html.Base.Bytes.{replace_byte3}
use lol_html.Html.TextType.{TextType}
use lol_html.Parser.Machine.{Core}
use lol_html.Parser.Syntax.{attribute_name_state}
use lol_html.Prelude.{
  false, ℕ, ◌≡◌, refl, Bool, true, ◌&&◌, ◌||◌, List, [], ◌∷◌, Option, none, some, ltb, ◌==◌,
  if◌then◌else◌, arith,
}
use lol_html.RewritableUnits.Attributes.Names.{
  Checked, leaves_name, Settled, name_from_str-Checked, set_attribute-get_attribute,
}
use lol_html.RewritableUnits.Attributes.{Attribute, Codec, name_from_str, set_attribute}
use lol_html.RewritableUnits.Mutations.Escaping.{inserted, NoMarkup, decode_from}
use lol_html.RewritableUnits.Mutations.Serialising.{
  Mutation, before_, after_, replace_, mutate_all, promised, mutate_all-promised,
  content_to_bytes-decode_from,
}
use lol_html.RewritableUnits.Mutations.{
  Mutations, content_to_bytes, html_, text_, new_mutations, to_bytes,
}

abbrev find3 : ℕ → ℕ → ℕ → List ℕ → Option ℕ
find3 a b c = first_position (λ x. x == a || (x == b || x == c))

replace_byte3-substitute_example :
    (chunks : List (List ℕ)) × (replace_byte3 find3
        (1, b'&' ∷ [])
        (2, [])
        (3, 3 ∷ 3 ∷ [])
        (7 ∷ 1 ∷ 2 ∷ 3 ∷ 8 ∷ [])
      ≡ some chunks)
    × (concat chunks ≡ 7 ∷ b'&' ∷ 3 ∷ 3 ∷ 8 ∷ [])
unfolding substitute
replace_byte3-substitute_example =
    replace_byte3-substitute find3 (λ a b c bs. refl) (1, b'&' ∷ []) (2, []) (3, 3 ∷ 3 ∷ [])
      (7 ∷ 1 ∷ 2 ∷ 3 ∷ 8 ∷ [])

abbrev same : List ℕ → List ℕ
same s = s

-- Text before, a replacement, HTML after twice.
abbrev changes : List Mutation
changes =
    before_ (b'<' ∷ []) text_
    ∷ replace_ (5 ∷ []) html_
    ∷ after_ (6 ∷ []) html_
    ∷ after_ (b'<' ∷ 7 ∷ []) html_
    ∷ []

mutate_all-promised_example :
    (m : Mutations) × (mutate_all same find3 changes new_mutations ≡ some m)
    × (concat (to_bytes m ((9 ∷ []) ∷ [])) ≡ b'&' ∷ b'l' ∷ b't' ∷ b';' ∷ 5 ∷ b'<' ∷ 7 ∷ 6 ∷ [])
unfolding promised inserted substitute
mutate_all-promised_example =
    mutate_all-promised same find3 (λ a b c bs. refl) changes ((9 ∷ []) ∷ [])

-- The bytes below 128.
abbrev all_ascii : List ℕ → Bool
all_ascii [] = true
all_ascii (ch ∷ chs) = ltb ch 128 && all_ascii chs

abbrev exact_ascii : List ℕ → Option (List ℕ)
exact_ascii s = if all_ascii s then some s else none

abbrev ascii : Codec
ascii = record { encode = same; encode_exact = exact_ascii; decode = same }

-- In the name of an attribute.
abbrev core : Core
core = record {
  next_pos = 4;
  is_last_input = false;
  is_state_enter = false;
  cdata_allowed = false;
  state = attribute_name_state;
  last_start_tag_name_hash = none;
  closing_quote = b'"';
  last_text_type = TextType.data_;
}

name_from_str-Checked_example :
    Checked ascii
      (leaves_name core)
      (b'a' ∷ b'>' ∷ b'=' ∷ [])
      (name_from_str ascii (b'a' ∷ b'>' ∷ b'=' ∷ []))
name_from_str-Checked_example = name_from_str-Checked ascii core (b'a' ∷ b'>' ∷ b'=' ∷ [])

content_to_bytes-decode_from_example :
    (chunks : List (List ℕ)) × (content_to_bytes same find3 (b'<' ∷ b'&' ∷ b'g' ∷ []) text_
      ≡ some chunks)
    × NoMarkup (concat chunks)
    × (decode_from 0 (concat chunks) ≡ b'<' ∷ b'&' ∷ b'g' ∷ [])
content_to_bytes-decode_from_example =
    content_to_bytes-decode_from same find3 (λ a b c bs. refl) (b'<' ∷ b'&' ∷ b'g' ∷ [])

exact_ascii-some : (s bytes : List ℕ) → exact_ascii s ≡ some bytes → bytes ≡ s
exact_ascii-some s bytes e = ground arith

abbrev items : List Attribute
items = record { name = b'a' ∷ []; value = 1 ∷ []; raw = none } ∷ []

-- `B` is set beside `a`.
set_attribute-get_attribute_example :
    Settled ascii (b'B' ∷ []) (2 ∷ []) items (set_attribute ascii (b'B' ∷ []) (2 ∷ []) items)
set_attribute-get_attribute_example =
    set_attribute-get_attribute ascii (b'B' ∷ []) (2 ∷ []) items (exact_ascii-some (b'b' ∷ []))
