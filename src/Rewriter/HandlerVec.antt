-- ===== src/Rewriter/HandlerVec.antt =====
-- src/rewriter/handlers_dispatcher.rs: `HandlerVec`, handlers with counts of the matched elements
-- that use them. A closure's own state is part of the state `X` that a callback takes and gives
-- back. After an error the rewriter is not used again, so an error keeps no state.
pub mod Counts
pub mod Calls
pub mod Users
use lol_html.Base.Checked.{checked_add, checked_sub}
use lol_html.Base.Outcome.{Outcome, ok, err, panic, ◌>>=◌}
use lol_html.Prelude.{
  ℕ, zero, suc, ◌+◌, Bool, true, false, List, [], ◌∷◌, ◌++◌, ltb, length, if◌then◌else◌,
}

pub record HandlerVecItem {ℓ} (H : Type ℓ) : Type ℓ where
  pub handler : H
  pub user_count : ℕ

pub record HandlerVec {ℓ} (H : Type ℓ) : Type ℓ where
  pub items : List (HandlerVecItem H)
  pub user_count : ℕ

module _ {ℓ} {H : Type ℓ} where
  unfoldable pub default_handler_vec : HandlerVec H
  default_handler_vec = record { items = []; user_count = 0 }

  unfoldable pub push : {E : Type 0} → H → Bool → HandlerVec H → Outcome E (HandlerVec H)
  push handler always_active v =
      let item : HandlerVecItem H = record {
        handler = handler;
        user_count = if always_active then 1 else 0;
      } in
      checked_add v.user_count item.user_count >>= λ count.
      ok (record v { items = v.items ++ item ∷ []; user_count = count })

  unfoldable pub len : HandlerVec H → ℕ
  len v = length v.items

  -- `self.items[idx].user_count += 1`.
  inc_at : {E : Type 0} → List (HandlerVecItem H) → ℕ → Outcome E (List (HandlerVecItem H))
  inc_at [] idx = panic
  inc_at (item ∷ items) zero =
      checked_add item.user_count 1 >>= λ count. ok (record item { user_count = count } ∷ items)
  inc_at (item ∷ items) (suc idx) = inc_at items idx >>= λ items'. ok (item ∷ items')

  -- `self.items[idx].user_count -= 1`.
  dec_at : {E : Type 0} → List (HandlerVecItem H) → ℕ → Outcome E (List (HandlerVecItem H))
  dec_at [] idx = panic
  dec_at (item ∷ items) zero =
      checked_sub item.user_count 1 >>= λ count. ok (record item { user_count = count } ∷ items)
  dec_at (item ∷ items) (suc idx) = dec_at items idx >>= λ items'. ok (item ∷ items')

  unfoldable pub inc_user_count : {E : Type 0} → ℕ → HandlerVec H → Outcome E (HandlerVec H)
  unfolding inc_at
  inc_user_count idx v = inc_at v.items idx >>= λ items.
      checked_add v.user_count 1 >>= λ count. ok (record v { items = items; user_count = count })

  unfoldable pub dec_user_count : {E : Type 0} → ℕ → HandlerVec H → Outcome E (HandlerVec H)
  unfolding dec_at
  dec_user_count idx v = dec_at v.items idx >>= λ items.
      checked_sub v.user_count 1 >>= λ count. ok (record v { items = items; user_count = count })

  unfoldable pub has_active : HandlerVec H → Bool
  has_active v = ltb 0 v.user_count

module _ {ℓ} {H : Type ℓ} {E X : Type 0} (cb : H → X → Outcome E X) where
  for_each : List (HandlerVecItem H) → X → Outcome E X
  for_each [] x = ok x
  for_each (item ∷ items) x =
      (if ltb 0 item.user_count then cb item.handler x else ok x) >>= λ x'. for_each items x'

  unfoldable pub for_each_active : HandlerVec H → X → Outcome E X
  unfolding for_each
  for_each_active v x = for_each v.items x

  -- The loop, with the vector's count.
  deactivate : List (HandlerVecItem H) → ℕ → X → Outcome E (List (HandlerVecItem H) × ℕ × X)
  deactivate [] user_count x = ok ([], user_count, x)
  deactivate (item ∷ items) user_count x =
      (if ltb 0 item.user_count
        then (cb item.handler x >>= λ x'. checked_sub user_count item.user_count >>= λ count.
            ok (record item { user_count = 0 }, count, x'))
        else ok (item, user_count, x))
      >>= λ (item', count, x').
          deactivate items count x' >>= λ (items', count', x''). ok (item' ∷ items', count', x'')

  unfoldable pub do_for_each_active_and_deactivate : HandlerVec H → X → Outcome E (HandlerVec H × X)
  unfolding deactivate
  do_for_each_active_and_deactivate v x =
      deactivate v.items v.user_count x >>= λ (items, count, x').
      ok (record v { items = items; user_count = count }, x')

  -- The loop from the last item to the first: the items that follow are done first.
  remove : List (HandlerVecItem H) → ℕ → X → Outcome E (List (HandlerVecItem H) × ℕ × X)
  remove [] user_count x = ok ([], user_count, x)
  remove (item ∷ items) user_count x = remove items user_count x >>= λ (items', count, x').
      if ltb 0 item.user_count
      then (checked_sub count item.user_count >>= λ count'.
          cb item.handler x' >>= λ x''. ok (items', count', x''))
      else ok (item ∷ items', count, x')

  unfoldable pub do_for_each_active_and_remove : HandlerVec H → X → Outcome E (HandlerVec H × X)
  unfolding remove
  do_for_each_active_and_remove v x = remove v.items v.user_count x >>= λ (items, count, x').
      ok (record v { items = items; user_count = count }, x')
