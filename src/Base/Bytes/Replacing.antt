-- ===== src/Base/Bytes/Replacing.antt =====
-- The chunks put together are the text with its bytes replaced one by one.
use lol_html.Base.Bytes.{
  non_empty, emit, replace_round, replace_loop, replace_byte3, Replacement, get_replacement,
}
use lol_html.Prelude.{
  ℕ, zero, suc, ◌+◌, ◌<◌, ◌≡◌, refl, sym, ap, ◌∙◌, Bool, false, ◌||◌, List, [], ◌∷◌, ◌++◌, Option,
  none, some, take, drop, length, length-drop, get_elem?, get_elem?-lt, ◌==◌, if◌then◌else◌, arith,
  Bool-cases, inl, inr,
}
use mathlib.Core.List.{append-nil}
use mathlib.Core.Path.{subst}

unfoldable pub concat : List (List ℕ) → List ℕ
concat [] = []
concat (c ∷ cs) = c ++ concat cs

-- Every byte that passes the test is replaced.
unfoldable pub substitute : (ℕ → Bool) → (ℕ → List ℕ) → List ℕ → List ℕ
substitute needle replacement [] = []
substitute needle replacement (b ∷ bs) =
    let rest = substitute needle replacement bs in
    if needle b then replacement b ++ rest else b ∷ rest

-- The first position of a byte that passes the test.
unfoldable pub first_position : (ℕ → Bool) → List ℕ → Option ℕ
first_position needle [] = none
first_position needle (b ∷ bs) =
    let rest = first_position needle bs in
    if needle b then some 0 else elim rest [ none ↦ none | some n ↦ some (suc n) ]

concat-non_empty :
    (bs : List ℕ) (cs : List (List ℕ)) → concat (non_empty bs ++ cs) ≡ bs ++ concat cs
unfolding concat
concat-non_empty [] cs = refl
concat-non_empty (b ∷ bs) cs = refl

-- Where the first needle stands, the text before it is unchanged.
pub data Split (needle : ℕ → Bool) (replacement : ℕ → List ℕ) (bs : List ℕ)
    : Option ℕ → Type 0 where
  absent : substitute needle replacement bs ≡ bs → Split needle replacement bs none
  at :
      (n matched : ℕ)
      → get_elem? bs n ≡ some matched
      → substitute needle replacement bs
        ≡ take n bs ++ (replacement matched ++ substitute needle replacement (drop (n + 1) bs))
      → Split needle replacement bs (some n)

Split-cons :
    (needle : ℕ → Bool) (replacement : ℕ → List ℕ) (b : ℕ) (bs : List ℕ) {o : Option ℕ}
    → needle b ≡ false
    → Split needle replacement bs o
    → Split needle replacement (b ∷ bs) (elim o [ none ↦ none | some n ↦ some (suc n) ])
unfolding substitute
Split-cons needle replacement b bs f (absent e) = absent (rw (f, e) refl)
Split-cons needle replacement b bs f (at n matched g e) =
    let next : suc n + 1 ≡ suc (n + 1) = omega arith in at (suc n) matched g (rw (f, e, next) refl)

first_position-Split :
    (needle : ℕ → Bool) (replacement : ℕ → List ℕ) (bs : List ℕ)
    → Split needle replacement bs (first_position needle bs)
unfolding first_position substitute
first_position-Split needle replacement [] = absent refl
first_position-Split needle replacement (b ∷ bs) = elim (Bool-cases (needle b)) [
  | inl t ↦ rw t (at 0 b refl (rw t refl))
  | inr f ↦ rw f (Split-cons needle replacement b bs f (first_position-Split needle replacement bs))
]

module _ (needle : ℕ → Bool) (replacement : ℕ → List ℕ) (find : List ℕ → Option ℕ)
    (finds : (bs : List ℕ) → find bs ≡ first_position needle bs) where
  abbrev Replaces : Option (List (List ℕ)) → List ℕ → Type 0
  Replaces none bs = ⊥
  Replaces (some chunks) bs = concat chunks ≡ substitute needle replacement bs

  replace_round-substitute :
      (bs : List ℕ) (go : ℕ → Option (List (List ℕ))) {found : Option ℕ}
      → Split needle replacement bs found
      → ((n : ℕ) → n < length bs → Replaces (go (n + 1)) (drop (n + 1) bs))
      → Replaces (replace_round replacement bs go found) bs
  unfolding concat
  replace_round-substitute bs go (absent e) rest = rw e (whole bs)
    where
      whole : (bs : List ℕ) → concat (non_empty bs) ≡ bs
      whole [] = refl
      whole (b ∷ bs) = append-nil (b ∷ bs)
  replace_round-substitute bs go (at n matched g e) rest =
      rw g (emitted (go (n + 1)) (rest n (get_elem?-lt bs n g)))
    where
      emitted :
          (r : Option (List (List ℕ)))
          → Replaces r (drop (n + 1) bs)
          → Replaces (emit replacement (take n bs) (some matched) r) bs
      emitted none h = h
      emitted (some chunks) h =
          concat-non_empty (take n bs) (replacement matched ∷ chunks)
          ∙ ap (λ t. take n bs ++ (replacement matched ++ t)) h
          ∙ sym e

  -- With more fuel than bytes the loop ends, and its chunks make up the replaced text.
  pub replace_loop-substitute :
      (fuel : ℕ) (bs : List ℕ)
      → length bs < fuel
      → Replaces (replace_loop fuel find replacement bs) bs
  unfolding replace_loop
  replace_loop-substitute zero bs lt = absurd (omega arith)
  replace_loop-substitute (suc fuel) bs lt =
      subst
        (λ found.
          Replaces
            (replace_round replacement bs (λ n. replace_loop fuel find replacement (drop n bs))
              found)
            bs)
        (sym (finds bs))
        (replace_round-substitute bs (λ n. replace_loop fuel find replacement (drop n bs))
          (first_position-Split needle replacement bs)
          (λ n le.
            replace_loop-substitute fuel (drop (n + 1) bs) (omega (arith, length-drop (n + 1) bs))))

-- The three needles.
abbrev pub is_needle : Replacement → Replacement → Replacement → ℕ → Bool
is_needle (a, _) (b, _) (c, _) x = x == a || (x == b || x == c)

-- Replacing three bytes ends, on every text: the chunks put together are the text in which each of
-- the three bytes stands replaced, whatever the replacements hold, and every other byte as it was.
-- `memchr3` is to find the first of its three bytes.
pub replace_byte3-substitute :
    (memchr3 : ℕ → ℕ → ℕ → List ℕ → Option ℕ)
    (finds : (a b c : ℕ) (bs : List ℕ)
      → memchr3 a b c bs ≡ first_position (λ x. x == a || (x == b || x == c)) bs)
    (a b c : Replacement) (bs : List ℕ)
    → (chunks : List (List ℕ)) × (replace_byte3 memchr3 a b c bs ≡ some chunks)
      × (concat chunks ≡ substitute (is_needle a b c) (get_replacement a b c) bs)
unfolding replace_byte3
replace_byte3-substitute memchr3 finds (a, ra) (b, rb) (c, rc) bs =
    found
      (replace_loop (suc (length bs)) (memchr3 a b c) (get_replacement (a, ra) (b, rb) (c, rc)) bs)
      (replace_loop-substitute (is_needle (a, ra) (b, rb) (c, rc))
        (get_replacement (a, ra) (b, rb) (c, rc)) (memchr3 a b c) (finds a b c) (suc (length bs)) bs
        (omega arith))
  where
    found :
        (r : Option (List (List ℕ)))
        → Replaces
            (is_needle (a, ra) (b, rb) (c, rc))
            (get_replacement (a, ra) (b, rb) (c, rc))
            (memchr3 a b c)
            (finds a b c)
            r
            bs
        → (chunks : List (List ℕ)) × (r ≡ some chunks)
          × (concat chunks
              ≡ substitute
                  (is_needle (a, ra) (b, rb) (c, rc))
                  (get_replacement (a, ra) (b, rb) (c, rc))
                  bs)
    found none h = elim h [ ]
    found (some chunks) h = (chunks, refl, h)
