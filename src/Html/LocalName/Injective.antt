-- ===== src/Html/LocalName/Injective.antt =====
-- Two names with the same hash are the same name, up to the case of its letters.

use mathlib.Core.List.{reverse, reverse-cons}
use lol_html.Html.LocalName.{
  LocalNameHash, new_hash, is_alpha, is_digit, shift_left_5, update_some, update, update_all, lower,
  eq_ignore_ascii_case,
}
use lol_html.Prelude.Bits.{bit_or-add_5}
use lol_html.Prelude.{
  ℕ, ◌+◌, ◌-◌, ◌*◌, ◌/◌, ◌%◌, ◌^◌, ◌<◌, ◌≡◌, refl, sym, ◌∙◌, true, List, [], ◌∷◌, map, ◌++◌, Option,
  none, some, arith, ◌==◌, if◌then◌else◌, ap,
}

-- The five bits of a character.
abbrev code_of : ℕ → Option ℕ
code_of ch =
    if is_alpha ch then some (ch % 32 + 5) else if is_digit ch then some (ch % 16 - 1) else none

code_of_lt : (ch : ℕ) {c : ℕ} → code_of ch ≡ some c → c < 32
code_of_lt ch h = ground arith

shift_exact : (h : ℕ) → ((h / 2 ^ (64 - 5)) == 0) ≡ true → shift_left_5 h ≡ h * 32
shift_exact h e = ground arith

-- An update that succeeds appends five bits, with no bit lost.
update_some_lem :
    (h ch : ℕ) {k : ℕ} → update_some h ch ≡ some k → (code_of ch ≡ some (k % 32)) × (k / 32 ≡ h)
unfolding update_some
update_some_lem h ch e =
    ground (arith, shift_exact h, bit_or-add_5 h (ch % 32 + 5), bit_or-add_5 h (ch % 16 - 1))

code_of-lower : (a b : ℕ) {c : ℕ} → code_of a ≡ some c → code_of b ≡ some c → lower a ≡ lower b
code_of-lower a b p q = ground arith

-- A name read from its end: the last character comes first.
pub hash_back : List ℕ → LocalNameHash
hash_back [] = new_hash
hash_back (ch ∷ chs) = update (hash_back chs) ch

update_all-snoc :
    (hash : LocalNameHash) (xs : List ℕ) (ch : ℕ)
    → update_all hash (xs ++ ch ∷ []) ≡ update (update_all hash xs) ch
unfolding update_all
update_all-snoc hash [] ch = refl
update_all-snoc hash (x ∷ xs) ch = update_all-snoc (update hash x) xs ch

pub hash_back-reverse : (chs : List ℕ) → update_all new_hash (reverse chs) ≡ hash_back chs
unfolding hash_back update_all
hash_back-reverse [] = refl
hash_back-reverse (ch ∷ chs) =
    rw (reverse-cons, update_all-snoc) (ap (λ h. update h ch) (hash_back-reverse chs))

update_lem :
    (hash : LocalNameHash) (ch : ℕ) {k : ℕ}
    → update hash ch ≡ some k
    → (h : ℕ) × (hash ≡ some h) × (code_of ch ≡ some (k % 32)) × (k / 32 ≡ h)
unfolding update
update_lem none ch e = cc
update_lem (some h) ch e = let r = update_some_lem h ch e in (h, refl, r.0, r.1)

-- The first character of a reversed name is a letter.
abbrev pub EndsInLetter : List ℕ → Type 0
EndsInLetter [] = ⊥
EndsInLetter (ch ∷ []) = is_alpha ch ≡ true
EndsInLetter (ch ∷ chs) = EndsInLetter chs

hash_back_pos : (chs : List ℕ) {k : ℕ} → EndsInLetter chs → hash_back chs ≡ some k → 0 < k
unfolding hash_back
hash_back_pos [] l e = elim l [ ]
hash_back_pos (ch ∷ []) l e = let (h, eq, c, d) = update_lem new_hash ch e in ground arith
hash_back_pos (ch ∷ x ∷ chs) l e =
    let (h, eq, c, d) = update_lem (hash_back (x ∷ chs)) ch e in
    omega (arith, hash_back_pos (x ∷ chs) l eq)

pub hash_back-injective :
    (a b : List ℕ) {k : ℕ}
    → EndsInLetter a
    → EndsInLetter b
    → hash_back a ≡ some k
    → hash_back b ≡ some k
    → map lower a ≡ map lower b
unfolding hash_back
hash_back-injective [] b la lb p q = elim la [ ]
hash_back-injective (x ∷ xs) [] la lb p q = elim lb [ ]
hash_back-injective (x ∷ []) (y ∷ []) la lb p q =
    let (h, e, c, d) = update_lem new_hash x p in
    let (i, f, g, j) = update_lem new_hash y q in ap (λ t. t ∷ []) (code_of-lower x y c g)
hash_back-injective (x ∷ []) (y ∷ z ∷ ys) la lb p q =
    let (h, e, c, d) = update_lem new_hash x p in
    let (i, f, g, j) = update_lem (hash_back (z ∷ ys)) y q in
    let grown = hash_back_pos (z ∷ ys) lb f in ground arith
hash_back-injective (x ∷ z ∷ xs) (y ∷ []) la lb p q =
    let (h, e, c, d) = update_lem (hash_back (z ∷ xs)) x p in
    let (i, f, g, j) = update_lem new_hash y q in
    let grown = hash_back_pos (z ∷ xs) la e in ground arith
hash_back-injective (x ∷ z ∷ xs) (y ∷ w ∷ ys) la lb p q =
    let (h, e, c, d) = update_lem (hash_back (z ∷ xs)) x p in
    let (i, f, g, j) = update_lem (hash_back (w ∷ ys)) y q in
    let rest = hash_back-injective (z ∷ xs) (w ∷ ys) la lb e (f ∙ ap some (sym j ∙ d)) in
    cc (code_of-lower x y c g)

-- The case of a letter does not change the hash.
update-lower : (hash : LocalNameHash) (a b : ℕ) → lower a ≡ lower b → update hash a ≡ update hash b
unfolding update
update-lower none a b e = refl
update-lower (some h) a b e = ground arith

pub update_all-lower :
    (hash : LocalNameHash) (a b : List ℕ)
    → eq_ignore_ascii_case a b ≡ true
    → update_all hash a ≡ update_all hash b
unfolding update_all eq_ignore_ascii_case
update_all-lower hash [] [] e = refl
update_all-lower hash (x ∷ a) (y ∷ b) e =
    let step : update hash x ≡ update hash y = update-lower hash x y (ground arith) in
    rw step (update_all-lower (update hash y) a b (ground arith))
update_all-lower hash [] (y ∷ b) e = cc
update_all-lower hash (x ∷ a) [] e = cc

pub eq_ignore_ascii_case_of :
    (a b : List ℕ) → map lower a ≡ map lower b → eq_ignore_ascii_case a b ≡ true
unfolding eq_ignore_ascii_case
eq_ignore_ascii_case_of [] [] e = refl
eq_ignore_ascii_case_of (x ∷ a) (y ∷ b) e = ground (arith, eq_ignore_ascii_case_of a b)
eq_ignore_ascii_case_of [] (y ∷ b) e = cc
eq_ignore_ascii_case_of (x ∷ a) [] e = cc

abbrev pub StartsWithLetter : List ℕ → Type 0
StartsWithLetter [] = ⊥
StartsWithLetter (ch ∷ _) = is_alpha ch ≡ true
