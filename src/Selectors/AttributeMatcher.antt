-- ===== src/Selectors/AttributeMatcher.antt =====
-- src/selectors_vm/attribute_matcher.rs: the tests of attributes. `CaseSensitivity` is the crate
-- selectors' choice of a comparison: `to_unconditional` and `case_eq` stand for its methods
-- `to_unconditional` and `eq`, and `memchr` and `memchr2` for the crate's functions. A panic where a
-- range of an attribute is out of the input, or ends before it begins.
use lol_html.Base.Checked.{checked_sub}
use lol_html.Base.Outcome.{ok, ◌>>=◌, expect}
use lol_html.Base.Range.{slice}
use lol_html.Html.LocalName.{lower}
use lol_html.Memory.Limiter.{Limited}
use lol_html.Parser.Outline.{AttributeOutline}
use lol_html.Prelude.{
  ℕ, zero, suc, ◌+◌, ◌-◌, Bool, true, false, not, ◌&&◌, ◌||◌, List, [], ◌∷◌, ◌++◌, Option, none,
  some, length, take, drop, get_elem?, leb, ltb, ◌==◌, if◌then◌else◌,
}
use lol_html.Selectors.Ast.{ParsedCaseSensitivity}
use lol_html.Selectors.Program.{AttributeMatcher}

pub data CaseSensitivity : Type 0 where
  case_sensitive ascii_case_insensitive : CaseSensitivity

pub record AttrExprOperands : Type 0 where
  pub name : List ℕ
  pub value : List ℕ
  pub case_sensitivity : ParsedCaseSensitivity

abbrev pub is_attr_whitespace : ℕ → Bool
is_attr_whitespace b = b == 32 || (b == 10 || (b == 13 || (b == 9 || b == 12)))

-- `==` of byte strings.
abbrev pub bytes_eq : List ℕ → List ℕ → Bool
bytes_eq [] [] = true
bytes_eq (a ∷ s) (b ∷ t) = a == b && bytes_eq s t
bytes_eq _ _ = false

-- The loop of `find` over two names of the same length.
abbrev pub lower_eq : List ℕ → List ℕ → Bool
lower_eq [] lowercased_name = true
lower_eq (b ∷ bs) [] = false
lower_eq (b ∷ bs) (n ∷ ns) = lower b == n && lower_eq bs ns

unfoldable pub name_matches : List ℕ → List ℕ → AttributeOutline → Limited Bool
name_matches input lowercased_name a = checked_sub a.name.end a.name.start >>= λ len.
    if not (length lowercased_name == len)
    then ok false
    else (expect (slice input a.name) >>= λ attr_name. ok (lower_eq attr_name lowercased_name))

-- `split` at every byte that passes the test: `acc` is the part so far.
unfoldable pub split_at : (ℕ → Bool) → List ℕ → List ℕ → List (List ℕ)
split_at p acc [] = acc ∷ []
split_at p acc (b ∷ bs) =
    let here = split_at p [] bs in
    let on = split_at p (acc ++ b ∷ []) bs in if p b then acc ∷ here else on

abbrev pub any_part : (List ℕ → Bool) → List (List ℕ) → Bool
any_part f [] = false
any_part f (p ∷ ps) = f p || any_part f ps

abbrev pub find_from : List ℕ → List ℕ → List AttributeOutline → Limited (Option AttributeOutline)
find_from input name [] = ok none
find_from input name (a ∷ attributes) =
    let rest = find_from input name attributes in
    name_matches input name a >>= λ found. if found then ok (some a) else rest

abbrev pub test_value : Option (List ℕ) → (List ℕ → Bool) → Bool
test_value none matcher = false
test_value (some value) matcher = matcher value

module _ (m : AttributeMatcher) where
  unfoldable pub find : List ℕ → Limited (Option AttributeOutline)
  unfolding name_matches
  find lowercased_name = find_from m.input lowercased_name m.attributes

  unfoldable pub get_value : List ℕ → Limited (Option (List ℕ))
  unfolding find
  get_value lowercased_name = find lowercased_name >>= λ found. elim found [
    | none ↦ ok none
    | some a ↦ expect (slice m.input a.value) >>= λ value. ok (some value)
  ]

  unfoldable pub has_attribute : List ℕ → Limited Bool
  unfolding find
  has_attribute lowercased_name =
      find lowercased_name >>= λ found. ok (elim found [ none ↦ false | some _ ↦ true ])

  unfoldable pub value_matches : List ℕ → (List ℕ → Bool) → Limited Bool
  unfolding get_value
  value_matches name matcher = get_value name >>= λ value. ok (test_value value matcher)

  -- b"id" and b"class"
  unfoldable pub has_id : List ℕ → Limited Bool
  unfolding value_matches
  has_id id = value_matches (b'i' ∷ b'd' ∷ []) (λ actual_id. bytes_eq actual_id id)

  unfoldable pub has_class : List ℕ → Limited Bool
  unfolding value_matches split_at
  has_class class_name =
      value_matches (b'c' ∷ b'l' ∷ b'a' ∷ b's' ∷ b's' ∷ [])
        (λ class. any_part (λ p. bytes_eq p class_name) (split_at is_attr_whitespace [] class))

module _ (to_unconditional : ParsedCaseSensitivity → Bool → CaseSensitivity)
    (case_eq : CaseSensitivity → List ℕ → List ℕ → Bool) (memchr : ℕ → List ℕ → Option ℕ)
    (memchr2 : ℕ → ℕ → List ℕ → Option ℕ) where
  abbrev pub comparison : AttributeMatcher → AttrExprOperands → List ℕ → List ℕ → Bool
  comparison m operand = case_eq (to_unconditional operand.case_sensitivity m.is_html_element)

  unfoldable pub attr_eq : AttributeMatcher → AttrExprOperands → Limited Bool
  unfolding value_matches
  attr_eq m operand =
      value_matches m operand.name (λ value. comparison m operand value operand.value)

  unfoldable pub matches_splitted_by_whitespace : AttributeMatcher → AttrExprOperands → Limited Bool
  unfolding value_matches split_at
  matches_splitted_by_whitespace m operand = value_matches m operand.name (λ value.
      any_part (λ part. comparison m operand part operand.value)
        (split_at is_attr_whitespace [] value))

  unfoldable pub has_attr_with_prefix : AttributeMatcher → AttrExprOperands → Limited Bool
  unfolding value_matches
  has_attr_with_prefix m operand = value_matches m operand.name (λ value.
      let prefix_len = length operand.value in
      leb prefix_len (length value) && comparison m operand (take prefix_len value) operand.value)

  abbrev pub is_dash : Option ℕ → Bool
  is_dash none = false
  is_dash (some b) = b == b'-'

  unfoldable pub has_dash_matching_attr : AttributeMatcher → AttrExprOperands → Limited Bool
  unfolding value_matches
  has_dash_matching_attr m operand = value_matches m operand.name (λ value.
      let prefix_len = length operand.value in
      if comparison m operand value operand.value
      then true
      else is_dash (get_elem? value prefix_len)
        && comparison m operand (take prefix_len value) operand.value)

  unfoldable pub has_attr_with_suffix : AttributeMatcher → AttrExprOperands → Limited Bool
  unfolding value_matches
  has_attr_with_suffix m operand = value_matches m operand.name (λ value.
      let suffix_len = length operand.value in
      let value_len = length value in
      leb suffix_len value_len
      && comparison m operand (drop (value_len - suffix_len) value) operand.value)

  -- `u8::to_ascii_uppercase`
  abbrev pub upper : ℕ → ℕ
  upper b = if leb b'a' b && leb b b'z' then b - 32 else b

  abbrev pub first_byte_searcher : CaseSensitivity → ℕ → List ℕ → Option ℕ
  first_byte_searcher case_sensitive first_byte = memchr first_byte
  first_byte_searcher ascii_case_insensitive first_byte =
      memchr2 (lower first_byte) (upper first_byte)

  -- A round of the loop, after the first byte was searched for; `go` is the rest of the loop.
  abbrev pub substring_round : CaseSensitivity → List ℕ → List ℕ → (List ℕ → Bool) → Option ℕ → Bool
  substring_round sensitivity rest haystack go none = false
  substring_round sensitivity rest haystack go (some pos) =
      let haystack' = drop (pos + 1) haystack in
      let again = go haystack' in
      if ltb (length haystack') (length rest)
      then false
      else if case_eq sensitivity (take (length rest) haystack') rest
      then true
      else again

  -- Each round shortens the haystack, so that as many rounds as it has bytes, and one, are enough.
  unfoldable pub substring_loop : ℕ → CaseSensitivity → ℕ → List ℕ → List ℕ → Bool
  substring_loop zero sensitivity first_byte rest haystack = false
  substring_loop (suc fuel) sensitivity first_byte rest haystack =
      substring_round sensitivity rest haystack (substring_loop fuel sensitivity first_byte rest)
        (first_byte_searcher sensitivity first_byte haystack)

  abbrev pub contains : CaseSensitivity → List ℕ → List ℕ → Bool
  contains sensitivity [] value = false
  contains sensitivity (first_byte ∷ rest) value =
      substring_loop (suc (length value)) sensitivity first_byte rest value

  unfoldable pub has_attr_with_substring : AttributeMatcher → AttrExprOperands → Limited Bool
  unfolding value_matches substring_loop
  has_attr_with_substring m operand =
      value_matches m operand.name
        (contains (to_unconditional operand.case_sensitivity m.is_html_element) operand.value)
