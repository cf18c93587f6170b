-- ===== src/Selectors/NthChild/Signs.antt =====
-- The test by the signs of the step and of the difference between the index and the offset.
use native.Mathlib.Omega.{div_any}
use native.Mathlib.Nat.{mul-mod_right}
use lol_html.Prelude.{
  ℕ, ◌+◌, ◌-◌, ◌*◌, ◌/◌, ◌%◌, ◌^◌, ◌<◌, ◌≤◌, true, false, ◌==◌, Bool-cases, ltb, ltb→lt, ltb→le,
  if◌then◌else◌, leb, ◌≡◌, ◌↔◌, inl, inr, refl, sym, ◌∙◌, ap, arith,
}
use lol_html.Selectors.NthChild.{NthChild, wrapping_sub, wrapping_rem, has_offsetted}

-- An i32 is the difference of its parts.
abbrev pub positive_part : ℕ → ℕ
positive_part a = if leb (2 ^ 31) a then 0 else a

abbrev pub negative_part : ℕ → ℕ
negative_part a = if leb (2 ^ 31) a then 2 ^ 32 - a else 0

-- For some n the index is `step * n + offset`, with the negative terms on the other side.
abbrev pub IsNth : NthChild → ℕ → Type 0
IsNth nth index =
    (n : ℕ) × (index + negative_part nth.offset + negative_part nth.step * n
      ≡ positive_part nth.offset + positive_part nth.step * n)

divides : (a b : ℕ) → a % b ≡ 0 → a ≡ b * (a / b)
divides a b h = let e = div_any a b in omega (arith, e, h)

multiple : (a b n : ℕ) → a ≡ b * n → a % b ≡ 0
multiple a b n e = rw e (mul-mod_right b n)

-- `offsetted`, where the difference fits an i32.
module _ (index offset : ℕ) (above : 0 < index)
    (below : index + negative_part offset < 2 ^ 31) where
  pub offsetted-positive :
      positive_part offset ≤ index + negative_part offset
      → offset < 2 ^ 32
      → wrapping_sub index offset ≡ index + negative_part offset - positive_part offset
  unfolding wrapping_sub
  offsetted-positive le fits = ground arith

  pub offsetted-negative :
      index + negative_part offset < positive_part offset
      → offset < 2 ^ 32
      → wrapping_sub index offset ≡ 2 ^ 32 - (positive_part offset - (index + negative_part offset))
  unfolding wrapping_sub
  offsetted-negative lt fits = ground arith

-- The tests, by the signs of the step and of the difference `d`.
pub zero-step : (w : ℕ) → has_offsetted 0 w ≡ (w == 0)
unfolding has_offsetted
zero-step w = refl

up-up : (s d : ℕ) → 0 < s → s < 2 ^ 31 → d < 2 ^ 31 → has_offsetted s d ≡ (d % s == 0)
unfolding has_offsetted wrapping_rem
up-up s d pos lt small = ground arith

up-down : (s d : ℕ) → 0 < s → s < 2 ^ 31 → 0 < d → d < 2 ^ 31 → has_offsetted s (2 ^ 32 - d) ≡ false
unfolding has_offsetted wrapping_rem
up-down s d pos lt dpos small = ground arith

down-up : (s d : ℕ) → 2 ^ 31 ≤ s → s < 2 ^ 32 → 0 < d → d < 2 ^ 31 → has_offsetted s d ≡ false
unfolding has_offsetted wrapping_rem
down-up s d le lt dpos small = ground arith

negated-zero : (r : ℕ) → r < 2 ^ 31 → ((2 ^ 32 - r) % 2 ^ 32 == 0) ≡ (r == 0)
negated-zero r lt = ground arith

mod-small : (d m : ℕ) → d < 2 ^ 31 → d % m < 2 ^ 31
mod-small d m lt = let e = div_any d m in omega (arith, e)

-- Where the signs agree the remainder decides.
same-signs :
    (s w : ℕ) → 2 ^ 31 ≤ s → s < 2 ^ 32 → 2 ^ 31 ≤ w → has_offsetted s w ≡ (wrapping_rem w s == 0)
unfolding has_offsetted
same-signs s w le lt neg = ground arith

down-rem :
    (s d : ℕ)
    → 2 ^ 31 ≤ s
    → 0 < d
    → d < 2 ^ 31
    → wrapping_rem (2 ^ 32 - d) s ≡ (2 ^ 32 - d % (2 ^ 32 - s)) % 2 ^ 32
unfolding wrapping_rem
down-rem s d le dpos small =
    let t : leb (2 ^ 31) (2 ^ 32 - d) ≡ true = ground arith in
    let u : leb (2 ^ 31) s ≡ true = ground arith in
    let back : 2 ^ 32 - (2 ^ 32 - d) ≡ d = omega arith in rw (t, u, back)

down-down :
    (s d : ℕ)
    → 2 ^ 31 ≤ s
    → s < 2 ^ 32
    → 0 < d
    → d < 2 ^ 31
    → has_offsetted s (2 ^ 32 - d) ≡ (d % (2 ^ 32 - s) == 0)
down-down s d le lt dpos small =
    same-signs s (2 ^ 32 - d) le lt (omega arith)
    ∙ ap (λ r. r == 0) (down-rem s d le dpos small)
    ∙ negated-zero (d % (2 ^ 32 - s)) (mod-small d (2 ^ 32 - s) small)

down-none : (s : ℕ) → 2 ^ 31 ≤ s → s < 2 ^ 32 → has_offsetted s 0 ≡ true
unfolding has_offsetted wrapping_rem
down-none s le lt = ground arith

pub eq-zero : (a b : ℕ) → (a == b) ≡ true → a ≡ b
eq-zero a b h = ground arith

pub zero-eq : (a b : ℕ) → a ≡ b → (a == b) ≡ true
zero-eq a b h = ground arith

-- The formula where `a` is the index and `b` the offset, each with what comes from the other side.
abbrev pub Solves : ℕ → ℕ → ℕ → Type 0
Solves s a b = (n : ℕ) × (a + negative_part s * n ≡ b + positive_part s * n)

module _ (s a b : ℕ) (a_fits : a < 2 ^ 31) (b_fits : b < 2 ^ 31) where
  module _ (up : 0 < s) (up_fits : s < 2 ^ 31) where
    no_negative : negative_part s ≡ 0
    no_negative = ground arith

    all_positive : positive_part s ≡ s
    all_positive = ground arith

    pub up-above : b ≤ a → (has_offsetted s (a - b) ≡ true) ↔ Solves s a b
    up-above le =
        let test = up-up s (a - b) up up_fits (omega arith) in
        (
          (λ h.
              let e = divides (a - b) s (eq-zero ((a - b) % s) 0 (sym test ∙ h)) in
              ((a - b) / s, rw (no_negative, all_positive) (omega (arith, e)))),
          (λ (n, e).
              let f : a + 0 * n ≡ b + s * n = rw (no_negative, all_positive) at e in
              test ∙ zero-eq ((a - b) % s) 0 (multiple (a - b) s n (omega (arith, f)))),
        )

    pub up-below : a < b → (has_offsetted s (2 ^ 32 - (b - a)) ≡ true) ↔ Solves s a b
    up-below lt =
        let test = up-down s (b - a) up up_fits (omega arith) (omega arith) in
        (
          (λ h. absurd (cc)),
          (λ (n, e).
              let f : a + 0 * n ≡ b + s * n = rw (no_negative, all_positive) at e in
              absurd (omega (arith, f))),
        )

  module _ (down : 2 ^ 31 ≤ s) (down_fits : s < 2 ^ 32) where
    all_negative : negative_part s ≡ 2 ^ 32 - s
    all_negative = ground arith

    no_positive : positive_part s ≡ 0
    no_positive = ground arith

    pub down-above : b ≤ a → (has_offsetted s (a - b) ≡ true) ↔ Solves s a b
    down-above le = elim (Bool-cases (ltb b a)) [
      | inl t ↦
          let test = down-up s (a - b) down down_fits (ground arith) (omega arith) in
          (
            (λ h. absurd (cc)),
            (λ (n, e).
                let f : a + (2 ^ 32 - s) * n ≡ b + 0 * n = rw (all_negative, no_positive) at e in
                absurd (omega (arith, f, ltb→lt b a t))),
          )
      | inr t ↦
          let same : a ≡ b = omega (arith, ltb→le b a t) in
          let none_left : a - b ≡ 0 = omega (arith, same) in
          ((λ h. (0, omega (arith, same))), (λ _. rw none_left (down-none s down down_fits)))
    ]

    pub down-below : a < b → (has_offsetted s (2 ^ 32 - (b - a)) ≡ true) ↔ Solves s a b
    down-below lt =
        let test = down-down s (b - a) down down_fits (omega arith) (omega arith) in
        (
          (λ h.
              let e =
                divides (b - a) (2 ^ 32 - s) (eq-zero ((b - a) % (2 ^ 32 - s)) 0 (sym test ∙ h)) in
              ((b - a) / (2 ^ 32 - s), rw (all_negative, no_positive) (omega (arith, e)))),
          (λ (n, e).
              let f : a + (2 ^ 32 - s) * n ≡ b + 0 * n = rw (all_negative, no_positive) at e in
              test
              ∙ zero-eq ((b - a) % (2 ^ 32 - s)) 0
                  (multiple (b - a) (2 ^ 32 - s) n (omega (arith, f)))),
        )
