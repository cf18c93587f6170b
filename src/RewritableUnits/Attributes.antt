-- ===== src/RewritableUnits/Attributes.antt =====
-- src/rewritable_units/tokens/attributes.rs: the attributes of a start tag. `Codec` stands for the
-- document's encoding of the crate encoding_rs: `encode` with replacements, `encode_exact` without
-- (`none` where a character has no code), and `decode`. `memchr` stands for the crate's function. The
-- items, made from the lexer's outlines at the first use, are a list from the start.
pub mod Names
use mathlib.Core.Option
use lol_html.Base.Bytes.{replace_byte}
use lol_html.Base.Outcome.{Outcome, ok, err, panic, ◌>>=◌, expect}
use lol_html.Base.Range.{slice}
use lol_html.Html.LocalName.{lower}
use lol_html.Parser.Outline.{AttributeOutline}
use lol_html.Prelude.{
  ℕ, Bool, true, false, ◌&&◌, ◌||◌, List, [], ◌∷◌, ◌++◌, map, Option, none, some, ◌==◌,
  if◌then◌else◌,
}

pub record Codec : Type 0 where
  pub encode : List ℕ → List ℕ
  pub encode_exact : List ℕ → Option (List ℕ)
  pub decode : List ℕ → List ℕ

pub data AttributeNameError : Type 0 where
  empty : AttributeNameError
  forbidden_character : ℕ → AttributeNameError
  unencodable_character : AttributeNameError

pub record Attribute : Type 0 where
  pub name : List ℕ
  pub value : List ℕ
  pub raw : Option (List ℕ)

abbrev pub text_eq : List ℕ → List ℕ → Bool
text_eq [] [] = true
text_eq (a ∷ s) (b ∷ t) = a == b && text_eq s t
text_eq _ _ = false

abbrev pub find_char : (ℕ → Bool) → List ℕ → Option ℕ
find_char p [] = none
find_char p (ch ∷ chs) = let rest = find_char p chs in if p ch then some ch else rest

-- ' ' | '\n' | '\r' | '\t' | '\x0C' | '/' | '>'
abbrev pub ends_tag_name : ℕ → Bool
ends_tag_name ch =
    ch == 32 || (ch == 10 || (ch == 13 || (ch == 9 || (ch == 12 || (ch == b'/' || ch == b'>')))))

abbrev pub ends_attribute_name : ℕ → Bool
ends_attribute_name ch = ends_tag_name ch || ch == b'='

-- The name without replacements, or the error of a character that has no code.
abbrev pub encoded_or {ℓ} : {E : Type ℓ} → Option (List ℕ) → E → Outcome E (List ℕ)
encoded_or none e = err e
encoded_or (some bytes) e = ok bytes

abbrev pub unless_found {ℓ} :
    {E : Type ℓ} {A : Type 0} → Option ℕ → (ℕ → E) → Outcome E A → Outcome E A
unless_found none e r = r
unless_found (some ch) e r = err (e ch)

module _ (codec : Codec) where
  unfoldable pub name_from_str : List ℕ → Outcome AttributeNameError (List ℕ)
  name_from_str [] = err empty
  name_from_str (ch ∷ chs) =
      unless_found (find_char ends_attribute_name (ch ∷ chs)) forbidden_character
        (encoded_or (codec.encode_exact (ch ∷ chs)) unencodable_character)

  unfoldable pub try_from : List ℕ → List ℕ → Outcome AttributeNameError Attribute
  unfolding name_from_str
  try_from name value = name_from_str name >>= λ name'.
      ok (record { name = name'; value = codec.encode value; raw = none })

  -- `to_ascii_lowercase` of what the name decodes to.
  unfoldable pub attribute_name : Attribute → List ℕ
  attribute_name a = map lower (codec.decode a.name)

  unfoldable pub set_value : List ℕ → Attribute → Attribute
  set_value value a = record a { value = codec.encode value; raw = none }

  -- The first attribute of the name with the value set, where there is one.
  unfoldable pub set_found : List ℕ → List ℕ → List Attribute → Option (List Attribute)
  unfolding attribute_name set_value
  set_found name value [] = none
  set_found name value (a ∷ items) =
      let rest = set_found name value items in
      if text_eq (attribute_name a) name
      then some (set_value value a ∷ items)
      else Option.map (λ items'. a ∷ items') rest

  abbrev pub or_push :
      Option (List Attribute)
      → List Attribute
      → Outcome AttributeNameError Attribute
      → Outcome AttributeNameError (List Attribute)
  or_push (some items') items new = ok items'
  or_push none items (ok a) = ok (items ++ a ∷ [])
  or_push none items (err e) = err e
  or_push none items panic = panic

  unfoldable pub set_attribute :
      List ℕ → List ℕ → List Attribute → Outcome AttributeNameError (List Attribute)
  unfolding set_found try_from
  set_attribute name value items =
      let name' = map lower name in
      or_push (set_found name' value items) items (try_from name' value)

  -- What is left, and whether there was one of the name.
  unfoldable pub remove_attribute : List ℕ → List Attribute → List Attribute × Bool
  unfolding attribute_name
  remove_attribute name [] = ([], false)
  remove_attribute name (a ∷ items) =
      let (items', found) = remove_attribute name items in
      if text_eq (attribute_name a) (map lower name) then (items, true) else (a ∷ items', found)

  unfoldable pub get_attribute : List ℕ → List Attribute → Option (List ℕ)
  unfolding attribute_name
  get_attribute name [] = none
  get_attribute name (a ∷ items) =
      let rest = get_attribute name items in
      if text_eq (attribute_name a) (map lower name) then some (codec.decode a.value) else rest

-- `init_items`; a panic where a range is out of the input.
unfoldable pub init_items {ℓ} :
    {E : Type ℓ} → List ℕ → List AttributeOutline → Outcome E (List Attribute)
init_items input [] = ok []
init_items input (a ∷ outlines) = expect (slice input a.name) >>= λ name.
    expect (slice input a.value) >>= λ value. expect (slice input a.raw_range) >>= λ raw.
    init_items input outlines >>= λ items.
    ok (record { name = name; value = value; raw = some raw } ∷ items)

abbrev pub join_spaced : Option (List (List ℕ)) → Option (List (List ℕ)) → Option (List (List ℕ))
join_spaced (some x) (some y) = some (x ++ (32 ∷ []) ∷ y)
join_spaced _ _ = none

module _ (memchr : ℕ → List ℕ → Option ℕ) where
  -- `to_bytes` of an attribute: what the output handler gets.
  unfoldable pub attribute_to_bytes : Attribute → Option (List (List ℕ))
  attribute_to_bytes a = elim a.raw [
    | some raw ↦ some (raw ∷ [])
    | none ↦
        Option.map (λ chunks. a.name ∷ (b'=' ∷ b'"' ∷ []) ∷ (chunks ++ (b'"' ∷ []) ∷ []))
          (replace_byte memchr b'"' (b'&' ∷ b'q' ∷ b'u' ∷ b'o' ∷ b't' ∷ b';' ∷ []) a.value)
  ]

  -- `to_bytes` of the attributes, with a space between two of them.
  unfoldable pub attributes_to_bytes : List Attribute → Option (List (List ℕ))
  unfolding attribute_to_bytes
  attributes_to_bytes [] = some []
  attributes_to_bytes (a ∷ []) = attribute_to_bytes a
  attributes_to_bytes (a ∷ b ∷ items) =
      join_spaced (attribute_to_bytes a) (attributes_to_bytes (b ∷ items))
