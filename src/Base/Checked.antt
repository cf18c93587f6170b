-- ===== src/Base/Checked.antt =====
-- Arithmetic on usize, 64 bits wide, with the panics of a build that checks for overflow.
use lol_html.Base.Outcome.{Outcome, ok, panic}
use lol_html.Prelude.{ℕ, ◌+◌, ◌-◌, ◌^◌, ◌≤◌, ◌<◌, ltb, leb, if◌then◌else◌, ◌≡◌, arith}

unfoldable pub checked_add {ℓ} : {E : Type ℓ} → ℕ → ℕ → Outcome E ℕ
checked_add a b = if ltb (a + b) (2 ^ 64) then ok (a + b) else panic

unfoldable pub checked_sub {ℓ} : {E : Type ℓ} → ℕ → ℕ → Outcome E ℕ
checked_sub a b = if leb b a then ok (a - b) else panic

pub checked_add-fits {ℓ} :
    {E : Type ℓ} (a b : ℕ) → a + b < 2 ^ 64 → checked_add {E = E} a b ≡ ok (a + b)
unfolding checked_add
checked_add-fits a b lt = ground arith

pub checked_sub-fits {ℓ} : {E : Type ℓ} (a b : ℕ) → b ≤ a → checked_sub {E = E} a b ≡ ok (a - b)
unfolding checked_sub
checked_sub-fits a b le = ground arith

pub checked_add-eq {ℓ} : {E : Type ℓ} (a b : ℕ) {n : ℕ} → checked_add {E = E} a b ≡ ok n → n ≡ a + b
unfolding checked_add
checked_add-eq a b e = ground arith

pub checked_sub-undo {ℓ} : {E : Type ℓ} (a b : ℕ) → checked_sub {E = E} (a + b) b ≡ ok a
unfolding checked_sub
checked_sub-undo a b = ground arith

pub checked_sub-eq {ℓ} : {E : Type ℓ} (a b : ℕ) {n : ℕ} → checked_sub {E = E} a b ≡ ok n → a ≡ n + b
unfolding checked_sub
checked_sub-eq a b e = ground arith
