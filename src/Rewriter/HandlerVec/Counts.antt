-- ===== src/Rewriter/HandlerVec/Counts.antt =====
-- The vector's own count is the sum of its items' counts, so `has_active` answers for all of them.
use lol_html.Base.Checked.{checked_add, checked_add-fits, checked_sub-undo, checked_add-eq}
use lol_html.Base.Outcome.{ok, ◌>>=◌, bind-eq-ok, ok-injective}
use lol_html.Rewriter.HandlerVec.{
  HandlerVec, HandlerVecItem, push, inc_at, dec_at, inc_user_count, dec_user_count, has_active,
}
use lol_html.Prelude.{
  ℕ, zero, suc, ◌+◌, ◌^◌, ◌<◌, ◌≤◌, Bool, false, ◌||◌, List, [], ◌∷◌, ◌++◌, ltb, length,
  length-append, if◌then◌else◌, ◌≡◌, refl, sym, ◌∙◌, ap, arith,
}

module _ {ℓ} {H : Type ℓ} where
  abbrev pub total : List (HandlerVecItem H) → ℕ
  total [] = 0
  total (item ∷ items) = item.user_count + total items

  abbrev pub any_active : List (HandlerVecItem H) → Bool
  any_active [] = false
  any_active (item ∷ items) = ltb 0 item.user_count || any_active items

  abbrev pub IsCounted : HandlerVec H → Type 0
  IsCounted v = v.user_count ≡ total v.items

  active-total : (items : List (HandlerVecItem H)) → any_active items ≡ ltb 0 (total items)
  active-total [] = refl
  active-total (item ∷ items) = let ih = active-total items in ground arith

  -- Where the vector's count is the sum of its items' counts, `has_active` holds exactly if some
  -- handler of the vector has a user.
  pub has_active-any_active : (v : HandlerVec H) → IsCounted v → has_active v ≡ any_active v.items
  unfolding has_active
  has_active-any_active v c = ap (ltb 0) c ∙ sym (active-total v.items)

  total-append : (xs ys : List (HandlerVecItem H)) → total (xs ++ ys) ≡ total xs + total ys
  total-append [] ys = omega arith
  total-append (x ∷ xs) ys = omega (arith, total-append xs ys)

  -- What `inc_user_count` leaves in the items.
  abbrev pub HasMore : ℕ → List (HandlerVecItem H) → List (HandlerVecItem H) → Type 0
  HasMore n items items' = (total items' ≡ total items + n) × (length items' ≡ length items)

module _ {ℓ} {H : Type ℓ} {E : Type 0} where
  inc_at-ok :
      (items : List (HandlerVecItem H)) (idx : ℕ)
      → idx < length items
      → total items + 1 < 2 ^ 64
      → (items' : List (HandlerVecItem H)) × (inc_at {E = E} items idx ≡ ok items')
        × HasMore 1 items items'
  unfolding inc_at ◌>>=◌
  inc_at-ok [] idx lt fits = absurd (omega arith)
  inc_at-ok (item ∷ items) zero lt fits = (
    record item { user_count = item.user_count + 1 } ∷ items,
    (rw (checked_add-fits {E = E} item.user_count 1 (omega arith))),
    ((omega arith), refl),
  )
  inc_at-ok (item ∷ items) (suc idx) lt fits =
      let (items', e, (t, l)) = inc_at-ok items idx (omega arith) (omega arith) in
      (item ∷ items', (rw e), ((omega arith), (omega arith)))

  dec_at-inc_at :
      (items : List (HandlerVecItem H)) (idx : ℕ) {items' : List (HandlerVecItem H)}
      → inc_at {E = E} items idx ≡ ok items'
      → dec_at {E = E} items' idx ≡ ok items
  unfolding inc_at dec_at ◌>>=◌
  dec_at-inc_at [] idx e = absurd cc
  dec_at-inc_at (item ∷ items) zero e =
      let (count, e1, e2) = bind-eq-ok (checked_add {E = E} item.user_count 1) _ e in
      let same = checked_add-eq item.user_count 1 e1 in
      rw (← ok-injective e2, same, checked_sub-undo {E = E} item.user_count 1)
  dec_at-inc_at (item ∷ items) (suc idx) e =
      let (items1, e1, e2) = bind-eq-ok (inc_at {E = E} items idx) _ e in
      rw (← ok-injective e2, dec_at-inc_at items idx e1)

  -- With the vector's count the sum of its items' counts, `inc_user_count` at an index in range, and
  -- with room for one more, does not panic: it adds one to the vector's count, which is again the
  -- sum, and keeps the number of handlers.
  pub inc_user_count-Counted :
      (v : HandlerVec H) (idx : ℕ)
      → IsCounted v
      → idx < length v.items
      → v.user_count + 1 < 2 ^ 64
      → (v' : HandlerVec H) × (inc_user_count {E = E} idx v ≡ ok v')
        × IsCounted v'
        × (v'.user_count ≡ v.user_count + 1)
        × (length v'.items ≡ length v.items)
  unfolding inc_user_count ◌>>=◌
  inc_user_count-Counted v idx c lt fits =
      let (items, e, (t, l)) = inc_at-ok v.items idx lt (omega arith) in
      (
        record { items = items; user_count = v.user_count + 1 },
        (rw (e, checked_add-fits {E = E} v.user_count 1 fits)),
        (omega arith),
        refl,
        l,
      )

  -- `dec_user_count` undoes `inc_user_count`, whatever the counts.
  pub dec_user_count-inc_user_count :
      (v : HandlerVec H) (idx : ℕ) {v' : HandlerVec H}
      → inc_user_count {E = E} idx v ≡ ok v'
      → dec_user_count {E = E} idx v' ≡ ok v
  unfolding inc_user_count dec_user_count ◌>>=◌
  dec_user_count-inc_user_count v idx e =
      let (items, e1, e2) = bind-eq-ok (inc_at {E = E} v.items idx) _ e in
      let (count, e3, e4) = bind-eq-ok (checked_add {E = E} v.user_count 1) _ e2 in
      let same = checked_add-eq v.user_count 1 e3 in
      rw (
        ← ok-injective e4,
        dec_at-inc_at v.items idx e1,
        same,
        checked_sub-undo {E = E} v.user_count 1,
      )

  -- Adding a handler keeps the vector's count the sum of its items' counts, and it panics only if
  -- an always active handler meets a full count.
  pub push-Counted :
      (handler : H) (always_active : Bool) (v : HandlerVec H)
      → IsCounted v
      → v.user_count + 1 < 2 ^ 64
      → (v' : HandlerVec H) × (push {E = E} handler always_active v ≡ ok v')
        × IsCounted v'
        × (length v'.items ≡ length v.items + 1)
  unfolding push ◌>>=◌
  push-Counted handler always_active v c fits =
      let n : ℕ = if always_active then 1 else 0 in
      let le : n ≤ 1 = ground arith in
      let item : HandlerVecItem H = record { handler = handler; user_count = n } in
      (
        record { items = v.items ++ item ∷ []; user_count = v.user_count + n },
        (rw (checked_add-fits {E = E} v.user_count n (omega arith))),
        (omega (arith, total-append v.items (item ∷ []))),
        (omega (arith, length-append v.items (item ∷ []))),
      )
