-- ===== src/Rewriter/HandlerVec/Calls.antt =====
-- The loops over the active handlers: which are called, in which order, and what is left.
use mathlib.Core.List.{reverse, reverse-cons}
use lol_html.Base.Checked.{checked_sub-undo}
use lol_html.Base.Outcome.{Outcome, ok, ◌>>=◌, Outcome-cases, bind_assoc, bind_congr}
use lol_html.Rewriter.HandlerVec.Counts.{total, IsCounted}
use lol_html.Rewriter.HandlerVec.{
  HandlerVec, HandlerVecItem, for_each, for_each_active, deactivate, remove,
  do_for_each_active_and_deactivate, do_for_each_active_and_remove,
}
use lol_html.Prelude.{
  ℕ, ◌+◌, false, List, [], ◌∷◌, ◌++◌, map, ltb, if◌then◌else◌, ◌≡◌, refl, sym, ◌∙◌, ap, arith,
  Bool-cases, inl, inr,
}

module _ {ℓ} {H : Type ℓ} where
  abbrev pub set_idle : HandlerVecItem H → HandlerVecItem H
  set_idle item = record item { user_count = 0 }

  -- The items without a user.
  abbrev pub idle : List (HandlerVecItem H) → List (HandlerVecItem H)
  idle [] = []
  idle (item ∷ items) = if ltb 0 item.user_count then idle items else item ∷ idle items

  idle-item : (item : HandlerVecItem H) → ltb 0 item.user_count ≡ false → item ≡ set_idle item
  idle-item item e = let z : item.user_count ≡ 0 = ground arith in rw z

module _ {ℓ} {H : Type ℓ} {E X : Type 0} (cb : H → X → Outcome E X) where
  deactivate-for_each :
      (items : List (HandlerVecItem H)) (n k : ℕ) (x : X)
      → n ≡ k + total items
      → deactivate cb items n x ≡ (for_each cb items x >>= λ x'. ok (map set_idle items, k, x'))
  unfolding deactivate for_each ◌>>=◌
  deactivate-for_each [] n k x c = let same : n ≡ k = omega arith in rw same
  deactivate-for_each (item ∷ items) n k x c = elim (Bool-cases (ltb 0 item.user_count)) [
    | inl e ↦ elim (Outcome-cases (cb item.handler x)) [
      | inl o ↦
          let (x1, called) = o in
          let split : n ≡ k + total items + item.user_count = omega arith in
          let ih = deactivate-for_each items (k + total items) k x1 refl in
          rw (e, called, split, checked_sub-undo {E = E} (k + total items) item.user_count, ih)
            (bind_assoc (for_each cb items x1) _ _)
      | inr o ↦ elim o [
        | inl o' ↦ let (_, failed) = o' in rw (e, failed)
        | inr failed ↦ rw (e, failed)
      ]
    ]
    | inr e ↦
        let ih = deactivate-for_each items n k x (ground arith) in
        rw (e, ih)
          ((bind_assoc (for_each cb items x) _ _)
            ∙ ap (λ i. for_each cb items x >>= λ x'. ok (i ∷ map set_idle items, k, x'))
                (idle-item item e))
  ]

  -- Where the vector's count is the sum of its items' counts, the handlers of a start tag are called
  -- as `for_each_active` would, with the same state and the same error, and where none fails every
  -- count is then zero.
  pub do_for_each_active_and_deactivate-for_each_active :
      (v : HandlerVec H) (x : X)
      → IsCounted v
      → do_for_each_active_and_deactivate cb v x ≡ (
          for_each_active cb v x >>= λ x'.
          ok (record { items = map set_idle v.items; user_count = 0 }, x'))
  unfolding do_for_each_active_and_deactivate for_each_active ◌>>=◌
  do_for_each_active_and_deactivate-for_each_active v x c =
      rw (deactivate-for_each v.items v.user_count 0 x (omega arith))
        (bind_assoc (for_each cb v.items x) _ _)

  for_each-append :
      (xs ys : List (HandlerVecItem H)) (x : X)
      → for_each cb (xs ++ ys) x ≡ (for_each cb xs x >>= for_each cb ys)
  unfolding for_each ◌>>=◌
  for_each-append [] ys x = refl
  for_each-append (item ∷ xs) ys x =
      bind_congr _ _ _ (for_each-append xs ys)
      ∙ sym (bind_assoc _ (for_each cb xs) (for_each cb ys))

  remove-for_each :
      (items : List (HandlerVecItem H)) (n k : ℕ) (x : X)
      → n ≡ k + total items
      → remove cb items n x ≡ (for_each cb (reverse items) x >>= λ x'. ok (idle items, k, x'))
  unfolding remove for_each ◌>>=◌
  remove-for_each [] n k x c = let same : n ≡ k = omega arith in rw same
  remove-for_each (item ∷ items) n k x c =
      let split : n ≡ k + item.user_count + total items = omega arith in
      let ih = remove-for_each items n (k + item.user_count) x split in
      rw (ih, reverse-cons item items, for_each-append (reverse items) (item ∷ []) x)
        (elim (Outcome-cases (for_each cb (reverse items) x)) [
          | inl o ↦
              let (x1, called) = o in
              rw called (elim (Bool-cases (ltb 0 item.user_count)) [
                | inl e ↦
                    rw (e, checked_sub-undo {E = E} k item.user_count)
                      (sym (bind_assoc (cb item.handler x1) _ _))
                | inr e ↦ let same : k + item.user_count ≡ k = ground arith in rw (e, same)
              ])
          | inr o ↦ elim o [ inl o' ↦ let (_, failed) = o' in rw failed | inr failed ↦ rw failed ]
        ])

  -- Where the vector's count is the sum of its items' counts, the active handlers of an end tag are
  -- called from the last to the first, up to one that fails. Where none fails exactly the handlers
  -- without a user are left, in their order, and the count is zero.
  pub do_for_each_active_and_remove-for_each_active :
      (v : HandlerVec H) (x : X)
      → IsCounted v
      → do_for_each_active_and_remove cb v x ≡ (
          for_each_active cb (record v { items = reverse v.items }) x >>= λ x'.
          ok (record { items = idle v.items; user_count = 0 }, x'))
  unfolding do_for_each_active_and_remove for_each_active ◌>>=◌
  do_for_each_active_and_remove-for_each_active v x c =
      rw (remove-for_each v.items v.user_count 0 x (omega arith))
        (bind_assoc (for_each cb (reverse v.items) x) _ _)
