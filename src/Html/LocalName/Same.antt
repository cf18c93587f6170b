-- ===== src/Html/LocalName/Same.antt =====
-- The equality of names is an equivalence.
use lol_html.Html.LocalName.Injective.{eq_ignore_ascii_case_of}
use lol_html.Html.LocalName.{
  LocalName, LocalNameHash, hash, bytes, name_eq, hash_eq, eq_ignore_ascii_case, lower,
}
use lol_html.Prelude.{
  ℕ, ◌≡◌, refl, sym, ap, ◌∙◌, true, List, [], ◌∷◌, map, none, some, ==_iff, and-true, arith, ◌==◌,
}

-- Names are equal as their canonical forms are.
abbrev canonical : LocalName → LocalName
canonical (hash h) = hash h
canonical (bytes s) = bytes (map lower s)

lower_of-eq_ignore_ascii_case :
    (a b : List ℕ) → eq_ignore_ascii_case a b ≡ true → map lower a ≡ map lower b
unfolding eq_ignore_ascii_case
lower_of-eq_ignore_ascii_case [] [] e = refl
lower_of-eq_ignore_ascii_case [] (y ∷ b) e = absurd cc
lower_of-eq_ignore_ascii_case (x ∷ a) [] e = absurd cc
lower_of-eq_ignore_ascii_case (x ∷ a) (y ∷ b) e =
    let (head, tail) = and-true (lower x == lower y) (eq_ignore_ascii_case a b) e in
    let same : lower x ≡ lower y = (==_iff (lower x) (lower y)).0 head in
    cc (lower_of-eq_ignore_ascii_case a b tail)

hash_eq-same : (a b : LocalNameHash) → hash_eq a b ≡ true → a ≡ b
hash_eq-same none none e = refl
hash_eq-same none (some y) e = absurd cc
hash_eq-same (some x) none e = absurd cc
hash_eq-same (some x) (some y) e = ap some ((==_iff x y).0 e)

hash_eq_refl : (a : LocalNameHash) → hash_eq a a ≡ true
hash_eq_refl none = refl
hash_eq_refl (some x) = ground arith

name_eq-canonical : (a b : LocalName) → name_eq a b ≡ true → canonical a ≡ canonical b
unfolding name_eq
name_eq-canonical (hash a) (hash b) e = ap hash (hash_eq-same a b e)
name_eq-canonical (bytes a) (bytes b) e = ap bytes (lower_of-eq_ignore_ascii_case a b e)
name_eq-canonical (hash a) (bytes b) e = absurd cc
name_eq-canonical (bytes a) (hash b) e = absurd cc

canonical-name_eq : (a b : LocalName) → canonical a ≡ canonical b → name_eq a b ≡ true
unfolding name_eq
canonical-name_eq (hash a) (hash b) e = let same : a ≡ b = cc in rw same (hash_eq_refl b)
canonical-name_eq (bytes a) (bytes b) e = eq_ignore_ascii_case_of a b cc
canonical-name_eq (hash a) (bytes b) e = absurd cc
canonical-name_eq (bytes a) (hash b) e = absurd cc

pub name_eq_refl : (a : LocalName) → name_eq a a ≡ true
name_eq_refl a = canonical-name_eq a a refl

pub name_eq_sym : (a b : LocalName) → name_eq a b ≡ true → name_eq b a ≡ true
name_eq_sym a b e = canonical-name_eq b a (sym (name_eq-canonical a b e))

pub name_eq_trans :
    (a b c : LocalName) → name_eq a b ≡ true → name_eq b c ≡ true → name_eq a c ≡ true
name_eq_trans a b c e f = canonical-name_eq a c (name_eq-canonical a b e ∙ name_eq-canonical b c f)
