-- ===== src/Selectors/NthChild/Formula.antt =====
-- The test of an index against the formula An+B of CSS.
use lol_html.Selectors.NthChild.Signs.{
  offsetted-positive, offsetted-negative, zero-step, eq-zero, zero-eq, up-above, up-below,
  down-above, down-below, IsNth, Solves, positive_part, negative_part,
}
use lol_html.Prelude.{
  ℕ, zero, suc, ◌+◌, ◌-◌, ◌^◌, ◌<◌, ◌≤◌, true, Bool-cases, ltb, ltb→lt, ltb→le, ◌≡◌, ◌↔◌, inl, inr,
  sym, ◌∙◌, arith,
}
use lol_html.Selectors.NthChild.{NthChild, has_offsetted, has_index}

all-above :
    (s a b : ℕ)
    → a < 2 ^ 31
    → b < 2 ^ 31
    → s < 2 ^ 32
    → b ≤ a
    → (has_offsetted s (a - b) ≡ true) ↔ Solves s a b
all-above zero a b a_fits b_fits s_fits le = (
  (λ h. let e = eq-zero (a - b) 0 (sym (zero-step (a - b)) ∙ h) in (0, omega (arith, e))),
  (λ (n, e). zero-step (a - b) ∙ zero-eq (a - b) 0 (omega (arith, e))),
)
all-above (suc s) a b a_fits b_fits s_fits le = elim (Bool-cases (ltb (suc s) (2 ^ 31))) [
  | inl t ↦ up-above (suc s) a b a_fits b_fits (omega arith) (ltb→lt (suc s) (2 ^ 31) t) le
  | inr t ↦ down-above (suc s) a b a_fits b_fits (ltb→le (suc s) (2 ^ 31) t) s_fits le
]

all-below :
    (s a b : ℕ)
    → a < 2 ^ 31
    → b < 2 ^ 31
    → s < 2 ^ 32
    → a < b
    → (has_offsetted s (2 ^ 32 - (b - a)) ≡ true) ↔ Solves s a b
all-below zero a b a_fits b_fits s_fits lt = (
  (λ h.
      let e = eq-zero (2 ^ 32 - (b - a)) 0 (sym (zero-step (2 ^ 32 - (b - a))) ∙ h) in
      absurd (omega (arith, e))),
  (λ (n, e). absurd (omega (arith, e))),
)
all-below (suc s) a b a_fits b_fits s_fits lt = elim (Bool-cases (ltb (suc s) (2 ^ 31))) [
  | inl t ↦ up-below (suc s) a b a_fits b_fits (omega arith) (ltb→lt (suc s) (2 ^ 31) t) lt
  | inr t ↦ down-below (suc s) a b a_fits b_fits (ltb→le (suc s) (2 ^ 31) t) s_fits lt
]

-- For an i32 index above 0 and an offset whose difference to it fits an i32 (which any offset of 0 or
-- more does), `has_index` holds exactly if the index is `step * n + offset` for some n of 0 or more.
pub has_index-IsNth :
    (nth : NthChild) (index : ℕ)
    → 0 < index
    → index + negative_part nth.offset < 2 ^ 31
    → nth.step < 2 ^ 32
    → nth.offset < 2 ^ 32
    → (has_index nth index ≡ true) ↔ IsNth nth index
unfolding has_index
has_index-IsNth nth index above below step_fits offset_fits =
    let a = index + negative_part nth.offset in
    let b = positive_part nth.offset in
    let b_fits : positive_part nth.offset < 2 ^ 31 = ground arith in
    elim (Bool-cases (ltb a b)) [
      | inl t ↦
          let lt = ltb→lt a b t in
          rw (offsetted-negative index nth.offset above below lt offset_fits)
            (all-below nth.step a b below b_fits step_fits lt)
      | inr t ↦
          let le = ltb→le a b t in
          rw (offsetted-positive index nth.offset above below le offset_fits)
            (all-above nth.step a b below b_fits step_fits le)
    ]
