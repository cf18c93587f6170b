-- ===== src/Html/LocalName/Equality.antt =====
-- Comparing names by their hashes is comparing them as texts, up to the case of letters.
use mathlib.Core.List.{reverse, reverse-cons, reverse-reverse, map-append}
use lol_html.Html.LocalName.Injective.{
  StartsWithLetter, EndsInLetter, hash_back, hash_back-reverse, hash_back-injective,
  update_all-lower, eq_ignore_ascii_case_of,
}
use lol_html.Html.LocalName.{
  new_hash, is_alpha, hash_from, lower, eq_ignore_ascii_case, LocalName, name_eq, LocalNameHash,
  hash, bytes, new_name,
}
use lol_html.Base.Range.{Range, slice}
use mathlib.Core.Option
use lol_html.Prelude.{ℕ, ◌≡◌, refl, sym, ap, ◌∙◌, true, List, [], ◌∷◌, ◌++◌, map, some, none, arith}

EndsInLetter-append : (xs : List ℕ) (ch : ℕ) → is_alpha ch ≡ true → EndsInLetter (xs ++ ch ∷ [])
EndsInLetter-append [] ch h = h
EndsInLetter-append (x ∷ []) ch h = h
EndsInLetter-append (x ∷ y ∷ xs) ch h = EndsInLetter-append (y ∷ xs) ch h

EndsInLetter-reverse : (xs : List ℕ) → StartsWithLetter xs → EndsInLetter (reverse xs)
EndsInLetter-reverse [] h = elim h [ ]
EndsInLetter-reverse (x ∷ xs) h = rw reverse-cons (EndsInLetter-append (reverse xs) x h)

map-reverse : (xs : List ℕ) → map lower (reverse xs) ≡ reverse (map lower xs)
map-reverse [] = refl
map-reverse (x ∷ xs) = simp (reverse-cons, map-append, map-reverse xs)

hash_from-back : (a : List ℕ) → hash_from a ≡ hash_back (reverse a)
unfolding hash_from
hash_from-back a = rw (← hash_back-reverse (reverse a), reverse-reverse)

-- Two names that begin with a letter and have the same hash differ in the case of letters at most.
pub hash_from-injective :
    (a b : List ℕ) {k : ℕ}
    → StartsWithLetter a
    → StartsWithLetter b
    → hash_from a ≡ some k
    → hash_from b ≡ some k
    → eq_ignore_ascii_case a b ≡ true
hash_from-injective a b {k} la lb p q =
    let back =
      hash_back-injective (reverse a) (reverse b) (EndsInLetter-reverse a la)
        (EndsInLetter-reverse b lb) (sym (hash_from-back a) ∙ p) (sym (hash_from-back b) ∙ q) in
    let flipped = ap reverse (sym (map-reverse a) ∙ back ∙ map-reverse b) in
    eq_ignore_ascii_case_of a b (rw (reverse-reverse, reverse-reverse) at flipped)

pub hash_from-lower : (a b : List ℕ) → eq_ignore_ascii_case a b ≡ true → hash_from a ≡ hash_from b
unfolding hash_from
hash_from-lower a b e = update_all-lower new_hash a b e

-- The name that a text with this hash gets.
name_of_hash : List ℕ → LocalNameHash → LocalName
name_of_hash a none = bytes a
name_of_hash a (some h) = hash (some h)

new_name-name_of_hash :
    (input : List ℕ) (r : Range) (a : List ℕ) (h : LocalNameHash)
    → slice input r ≡ some a
    → new_name input r h ≡ some (name_of_hash a h)
unfolding new_name name_of_hash
new_name-name_of_hash input r a none e = ap (Option.map bytes) e
new_name-name_of_hash input r a (some h) e = refl

name_eq-name_of_hash :
    (a b : List ℕ) (h i : LocalNameHash)
    → ((k : ℕ) → h ≡ some k → i ≡ some k → eq_ignore_ascii_case a b ≡ true)
    → (eq_ignore_ascii_case a b ≡ true → h ≡ i)
    → name_eq (name_of_hash a h) (name_of_hash b i) ≡ eq_ignore_ascii_case a b
unfolding name_eq name_of_hash
name_eq-name_of_hash a b none none f g = refl
name_eq-name_of_hash a b (some h) none f g = ground arith
name_eq-name_of_hash a b none (some i) f g = ground arith
name_eq-name_of_hash a b (some h) (some i) f g = ground (arith, f h)

-- Take two tag names, each a slice of an input that begins with a letter. The names that the
-- parser builds from the slices and their hashes exist, and they compare equal exactly when the
-- two slices are equal up to the case of their ASCII letters.
pub new_name-name_eq :
    (input input' : List ℕ) (r r' : Range) (a b : List ℕ)
    → slice input r ≡ some a
    → slice input' r' ≡ some b
    → StartsWithLetter a
    → StartsWithLetter b
    → (n : LocalName) × (m : LocalName) × (new_name input r (hash_from a) ≡ some n)
      × (new_name input' r' (hash_from b) ≡ some m)
      × (name_eq n m ≡ eq_ignore_ascii_case a b)
new_name-name_eq input input' r r' a b sa sb la lb = (
  name_of_hash a (hash_from a),
  name_of_hash b (hash_from b),
  new_name-name_of_hash input r a (hash_from a) sa,
  new_name-name_of_hash input' r' b (hash_from b) sb,
  name_eq-name_of_hash a b (hash_from a) (hash_from b) (λ k p q. hash_from-injective a b la lb p q)
      (hash_from-lower a b),
)
