-- ===== src/Selectors/NthChild.antt =====
-- src/selectors_vm/ast.rs: `NthChild`, the test of `:nth-child(An+B)`. An i32 is kept as the number
-- below 2 ^ 32 with the same bits.
pub mod Signs
pub mod Formula
use lol_html.Prelude.{
  ℕ, ◌+◌, ◌-◌, ◌%◌, ◌^◌, Bool, true, false, not, ◌&&◌, ◌||◌, leb, ltb, ◌==◌, if◌then◌else◌,
}

abbrev pub is_negative : ℕ → Bool
is_negative a = leb (2 ^ 31) a

abbrev pub is_positive : ℕ → Bool
is_positive a = not (a == 0) && ltb a (2 ^ 31)

-- The absolute value.
abbrev pub magnitude : ℕ → ℕ
magnitude a = if leb (2 ^ 31) a then 2 ^ 32 - a else a

unfoldable pub wrapping_sub : ℕ → ℕ → ℕ
wrapping_sub a b = (a + 2 ^ 32 - b) % 2 ^ 32

-- The sign of a remainder is that of the dividend.
unfoldable pub wrapping_rem : ℕ → ℕ → ℕ
wrapping_rem a b =
    if leb (2 ^ 31) a
    then (2 ^ 32 - magnitude a % magnitude b) % 2 ^ 32
    else magnitude a % magnitude b

pub record NthChild : Type 0 where
  pub step : ℕ
  pub offset : ℕ

unfoldable pub new_nth_child : ℕ → ℕ → NthChild
new_nth_child step offset = record { step = step; offset = offset }

unfoldable pub first : NthChild
unfolding new_nth_child
first = new_nth_child 0 1

-- `has_index`, on `index.wrapping_sub(offset)`.
unfoldable pub has_offsetted : ℕ → ℕ → Bool
unfolding wrapping_rem
has_offsetted step offsetted =
    if step == 0
    then offsetted == 0
    else if (is_negative offsetted && is_positive step)
        || (is_positive offsetted && is_negative step)
    then false
    else wrapping_rem offsetted step == 0

unfoldable pub has_index : NthChild → ℕ → Bool
unfolding wrapping_sub has_offsetted
has_index nth index = has_offsetted nth.step (wrapping_sub index nth.offset)
