-- ===== src/RewritableUnits/Attributes/Names.antt =====
-- Which names are refused, and what is found after an attribute is set.
use mathlib.Core.Option
use mathlib.Core.Path.{fun_ext, subst}
use lol_html.Base.Outcome.{Outcome, ok, err, panic, ◌>>=◌, ok-injective}
use lol_html.Html.LocalName.{lower}
use lol_html.Parser.Machine.{Core, matches_char}
use lol_html.Parser.Syntax.Table.{body}
use lol_html.Parser.Syntax.{ActionList, Arm, attribute_name_state}
use lol_html.Prelude.{
  not, ℕ, ◌≡◌, refl, ap, ◌∙◌, ◌⊎◌, inl, inr, Bool, true, false, List, [], ◌∷◌, ◌++◌, map, Option,
  none, some, ◌==◌, ==_iff, and-true, if◌then◌else◌, arith, Bool-cases, Option-cases,
}
use lol_html.RewritableUnits.Attributes.{
  Codec, AttributeNameError, empty, forbidden_character, unencodable_character, Attribute, text_eq,
  find_char, ends_attribute_name, name_from_str, try_from, attribute_name, set_value, set_found,
  or_push, set_attribute, get_attribute,
}

-- No character of the text passes the test.
abbrev pub Without : (ℕ → Bool) → List ℕ → Type 0
Without p [] = Unit
Without p (ch ∷ chs) = (p ch ≡ false) × Without p chs

-- The first character that passes the test.
abbrev pub First : (ℕ → Bool) → List ℕ → ℕ → Type 0
First p chs ch =
    (before : List ℕ) × (after : List ℕ) × (chs ≡ before ++ ch ∷ after)
    × Without p before
    × (p ch ≡ true)

pub find_char-First :
    (p : ℕ → Bool) (chs : List ℕ)
    → ((find_char p chs ≡ none) × Without p chs)
      ⊎ ((ch : ℕ) × (find_char p chs ≡ some ch) × First p chs ch)
find_char-First p [] = inl (refl, tt)
find_char-First p (ch ∷ chs) = elim (Bool-cases (p ch)) [
  | inl t ↦ inr (ch, rw t refl, ([], chs, refl, tt, t))
  | inr f ↦ elim (find_char-First p chs) [
    | inl (e, w) ↦ inl (rw f e, (f, w))
    | inr (c, e, (before, after, split, w, t)) ↦
        inr (c, rw f e, (ch ∷ before, after, ap (λ l. ch ∷ l) split, (f, w), t))
  ]
]

-- Whether the list of actions does nothing but stay.
abbrev pub is_stay : ActionList → Bool
is_stay ActionList.stay = true
is_stay _ = false

-- The actions of the first arm that a character matches stay in the state.
abbrev pub stays_in : Core → List Arm → ℕ → Bool
stays_in core [] ch = false
stays_in core (arm ∷ arms) ch =
    let rest = stays_in core arms ch in
    if matches_char core arm.pattern ch then is_stay arm.actions else rest

-- In the tokenizer's state for an attribute's name, the character ends the name.
abbrev pub leaves_name : Core → ℕ → Bool
leaves_name core ch = not (stays_in core (body attribute_name_state).arms ch)

pub ends_attribute_name-leaves_name :
    (core : Core) (ch : ℕ) → ends_attribute_name ch ≡ leaves_name core ch
unfolding matches_char body
ends_attribute_name-leaves_name core ch = ground arith

module _ (codec : Codec) where
  -- The four ends of the check of a name, where the test tells the forbidden characters.
  abbrev pub Checked : (ℕ → Bool) → List ℕ → Outcome AttributeNameError (List ℕ) → Type 0
  Checked forbidden name r =
      ((name ≡ []) × (r ≡ err empty))
      ⊎ (((ch : ℕ) × First forbidden name ch × (r ≡ err (forbidden_character ch)))
          ⊎ ((Without forbidden name
                × (codec.encode_exact name ≡ none)
                × (r ≡ err unencodable_character))
              ⊎ ((bytes : List ℕ) × Without forbidden name
                  × (codec.encode_exact name ≡ some bytes)
                  × (r ≡ ok bytes))))

  check_name : (name : List ℕ) → Checked ends_attribute_name name (name_from_str codec name)
  unfolding name_from_str
  check_name [] = inl (refl, refl)
  check_name (ch ∷ chs) = elim (find_char-First ends_attribute_name (ch ∷ chs)) [
    | inr (c, e, first) ↦ inr (inl (c, first, rw e refl))
    | inl (e, w) ↦ elim (Option-cases (codec.encode_exact (ch ∷ chs))) [
      | inl n ↦ inr (inr (inl (w, n, rw (e, n) refl)))
      | inr (bytes, n) ↦ inr (inr (inr (bytes, w, n, rw (e, n) refl)))
    ]
  ]

  -- The check of a name has four ends. The empty name is refused; else a name with a character at
  -- which the tokenizer, in its state for the name of an attribute, would not stay in that state, for
  -- the first of them; else one that the encoding cannot express; else it is accepted, and what comes
  -- out are its bytes, encoded without replacements.
  pub name_from_str-Checked :
      (core : Core) (name : List ℕ) → Checked (leaves_name core) name (name_from_str codec name)
  name_from_str-Checked core name =
      subst (λ forbidden. Checked forbidden name (name_from_str codec name))
        (fun_ext (ends_attribute_name-leaves_name core)) (check_name name)

  text_eq-same : (a b : List ℕ) → text_eq a b ≡ true → a ≡ b
  text_eq-same [] [] e = refl
  text_eq-same [] (y ∷ b) e = absurd cc
  text_eq-same (x ∷ a) [] e = absurd cc
  text_eq-same (x ∷ a) (y ∷ b) e =
      let (head, tail) = and-true (x == y) (text_eq a b) e in
      let same : x ≡ y = (==_iff x y).0 head in cc (text_eq-same a b tail)

  text_eq_refl : (a : List ℕ) → text_eq a a ≡ true
  text_eq_refl [] = refl
  text_eq_refl (x ∷ a) = ground (arith, text_eq_refl a)

  -- What setting an attribute in place comes to, for its name and for every other.
  abbrev Placed : List ℕ → List ℕ → List Attribute → Option (List Attribute) → Type 0
  Placed name value items none = get_attribute codec name items ≡ none
  Placed name value items (some items') =
      (get_attribute codec name items' ≡ some (codec.decode (codec.encode value)))
      × ((other : List ℕ)
          → text_eq (map lower name) (map lower other) ≡ false
          → get_attribute codec other items' ≡ get_attribute codec other items)

  Placed-cons :
      (name value : List ℕ) (a : Attribute) (items : List Attribute) (o : Option (List Attribute))
      → text_eq (attribute_name codec a) (map lower name) ≡ false
      → Placed name value items o
      → Placed name value (a ∷ items) (Option.map (λ items'. a ∷ items') o)
  unfolding get_attribute
  Placed-cons name value a items none f p = rw f p
  Placed-cons name value a items (some items') f (here, others) = (
    rw f here,
    λ other apart.
        ap
          (λ r.
            if text_eq (attribute_name codec a) (map lower other)
            then some (codec.decode a.value)
            else r)
          (others other apart),
  )

  set_found-Placed :
      (name value : List ℕ) (items : List Attribute)
      → Placed name value items (set_found codec (map lower name) value items)
  unfolding set_found get_attribute set_value attribute_name
  set_found-Placed name value [] = refl
  set_found-Placed name value (a ∷ items) =
      elim (Bool-cases (text_eq (attribute_name codec a) (map lower name))) [
        | inl t ↦ rw t (
          rw t refl,
          λ other apart.
              let differs : text_eq (attribute_name codec a) (map lower other) ≡ false =
                rw (text_eq-same (attribute_name codec a) (map lower name) t) apart in
              rw differs refl,
        )
        | inr f ↦ rw f (Placed-cons name value a items _ f (set_found-Placed name value items))
      ]

  get_attribute-push :
      (name : List ℕ) (items : List Attribute) (a : Attribute)
      → get_attribute codec name items ≡ none
      → get_attribute codec name (items ++ a ∷ []) ≡ get_attribute codec name (a ∷ [])
  unfolding get_attribute
  get_attribute-push name [] a e = refl
  get_attribute-push name (x ∷ items) a e =
      elim (Bool-cases (text_eq (attribute_name codec x) (map lower name))) [
        | inl t ↦ absurd cc
        | inr f ↦ rw f (get_attribute-push name items a (rw (f, get_attribute) at e))
      ]

  get_attribute-one :
      (name : List ℕ) (a : Attribute)
      → attribute_name codec a ≡ map lower name
      → get_attribute codec name (a ∷ []) ≡ some (codec.decode a.value)
  unfolding get_attribute
  get_attribute-one name a e =
      let found : text_eq (attribute_name codec a) (map lower name) ≡ true =
        rw e (text_eq_refl (map lower name)) in
      rw found refl

  get_attribute-other :
      (name : List ℕ) (items : List Attribute) (a : Attribute)
      → text_eq (attribute_name codec a) (map lower name) ≡ false
      → get_attribute codec name (items ++ a ∷ []) ≡ get_attribute codec name items
  unfolding get_attribute
  get_attribute-other name [] a f = rw f refl
  get_attribute-other name (x ∷ items) a f =
      ap
        (λ r.
          if text_eq (attribute_name codec x) (map lower name)
          then some (codec.decode x.value)
          else r)
        (get_attribute-other name items a f)

  abbrev pub Settled :
      List ℕ → List ℕ → List Attribute → Outcome AttributeNameError (List Attribute) → Type 0
  Settled name value items (ok items') =
      (get_attribute codec name items' ≡ some (codec.decode (codec.encode value)))
      × ((other : List ℕ)
          → text_eq (map lower name) (map lower other) ≡ false
          → get_attribute codec other items' ≡ get_attribute codec other items)
  Settled name value items (err e) = name_from_str codec (map lower name) ≡ err e
  Settled name value items panic = ⊥

  Checked-ok :
      (name bytes : List ℕ)
      → Checked ends_attribute_name name (ok bytes)
      → codec.encode_exact name ≡ some bytes
  Checked-ok name bytes (inl (_, e)) = absurd cc
  Checked-ok name bytes (inr (inl (ch, _, e))) = absurd cc
  Checked-ok name bytes (inr (inr (inl (_, _, e)))) = absurd cc
  Checked-ok name bytes (inr (inr (inr (b, _, e, same)))) =
      let same' : bytes ≡ b = ok-injective same in rw same' e

  Checked-panic : (name : List ℕ) → Checked ends_attribute_name name panic → ⊥
  Checked-panic name (inl (_, e)) = cc
  Checked-panic name (inr (inl (ch, _, e))) = cc
  Checked-panic name (inr (inr (inl (_, _, e)))) = cc
  Checked-panic name (inr (inr (inr (b, _, _, e)))) = cc

  lower_idem : (chs : List ℕ) → map lower (map lower chs) ≡ map lower chs
  lower_idem [] = refl
  lower_idem (ch ∷ chs) =
      let head : lower (lower ch) ≡ lower ch = ground arith in cc (head, lower_idem chs)

  pushed :
      (name value : List ℕ) (items : List Attribute)
      (exact : (bytes : List ℕ)
        → codec.encode_exact (map lower name) ≡ some bytes
        → codec.decode bytes ≡ map lower name)
      → get_attribute codec name items ≡ none
      → (r : Outcome AttributeNameError (List ℕ)) → name_from_str codec (map lower name) ≡ r
      → Checked ends_attribute_name (map lower name) r
      → Settled name value items (or_push codec none items (try_from codec (map lower name) value))
  unfolding try_from ◌>>=◌
  pushed name value items exact absent (err x) e c = rw e e
  pushed name value items exact absent panic e c = absurd (Checked-panic (map lower name) c)
  pushed name value items exact absent (ok bytes) e c =
      let a : Attribute = record { name = bytes; value = codec.encode value; raw = none } in
      let named : attribute_name codec a ≡ map lower name =
        unfold attribute_name in
        ap (map lower) (exact bytes (Checked-ok (map lower name) bytes c)) ∙ lower_idem name in
      rw e (
        get_attribute-push name items a absent ∙ get_attribute-one name a named,
        λ other apart. get_attribute-other other items a (rw named apart),
      )

  -- Setting an attribute ends with the items changed, or with the error of the check of its name in
  -- small letters, never otherwise. Where it is set, reading it gives the value, as the encoding can
  -- tell it, and reading any other name gives what it gave before. The name, in small letters, is to
  -- be one that the encoding gives back: if it encodes it without replacements, it decodes the bytes
  -- to the same name.
  pub set_attribute-get_attribute :
      (name value : List ℕ) (items : List Attribute)
      (exact : (bytes : List ℕ)
        → codec.encode_exact (map lower name) ≡ some bytes
        → codec.decode bytes ≡ map lower name)
      → Settled name value items (set_attribute codec name value items)
  unfolding set_attribute
  set_attribute-get_attribute name value items exact =
      placed (set_found codec (map lower name) value items) (set_found-Placed name value items)
    where
      placed :
          (o : Option (List Attribute))
          → Placed name value items o
          → Settled name value items (or_push codec o items (try_from codec (map lower name) value))
      placed (some items') p = p
      placed none p =
          pushed name value items exact p (name_from_str codec (map lower name)) refl
            (check_name (map lower name))
