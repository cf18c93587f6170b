-- ===== src/Rewriter/HandlerVec/Users.antt =====
-- Which handlers `inc_user_count` and `dec_user_count` count users of.
use lol_html.Base.Checked.{checked_add, checked_sub, checked_add-eq, checked_sub-eq}
use lol_html.Base.Outcome.{ok, bind-eq-ok, ok-injective}
use lol_html.Prelude.{
  ℕ, zero, suc, ◌+◌, List, [], ◌∷◌, map, Option, none, some, ◌==◌, if◌then◌else◌, ◌≡◌, refl, ◌∙◌,
  arith,
}
use lol_html.Rewriter.HandlerVec.{
  HandlerVec, HandlerVecItem, inc_at, dec_at, inc_user_count, dec_user_count,
}

module _ {H : Type 0} where
  -- The count of the handler at an index; out of range there is none.
  abbrev pub users_at : ℕ → List (HandlerVecItem H) → ℕ
  users_at i [] = 0
  users_at zero (item ∷ items) = item.user_count
  users_at (suc i) (item ∷ items) = users_at i items

  abbrev pub handlers_of : List (HandlerVecItem H) → List H
  handlers_of items = map (λ item. item.handler) items

-- Whether this is the index, and whether there is an index, as a number.
abbrev pub hit : ℕ → Option ℕ → ℕ
hit i none = 0
hit i (some j) = if i == j then 1 else 0

abbrev pub one_if_some : Option ℕ → ℕ
one_if_some none = 0
one_if_some (some j) = 1

-- How often an index is among these, and how many there are.
abbrev pub hits : ℕ → List (Option ℕ) → ℕ
hits i [] = 0
hits i (idx ∷ idxs) = hit i idx + hits i idxs

abbrev pub count_some : List (Option ℕ) → ℕ
count_some [] = 0
count_some (idx ∷ idxs) = one_if_some idx + count_some idxs

-- With the same handlers, each has one user more for each time that its index is among these.
pub record Gained {H : Type 0} (idxs : List (Option ℕ)) (v v' : HandlerVec H) : Type 0 where
  pub handlers : handlers_of v'.items ≡ handlers_of v.items
  pub users : (i : ℕ) → users_at i v'.items ≡ users_at i v.items + hits i idxs
  pub count : v'.user_count ≡ v.user_count + count_some idxs

module _ {H : Type 0} where
  pub Gained-refl : (v : HandlerVec H) → Gained [] v v
  Gained-refl v = record { handlers = refl; users = λ i. omega arith; count = omega arith }

  pub Gained-none : (v : HandlerVec H) → Gained (none ∷ []) v v
  Gained-none v = record { handlers = refl; users = λ i. omega arith; count = omega arith }

  pub Gained-cons :
      (idx : Option ℕ) (idxs : List (Option ℕ)) (v v1 v2 : HandlerVec H)
      → Gained (idx ∷ []) v1 v2
      → Gained idxs v v1
      → Gained (idx ∷ idxs) v v2
  Gained-cons idx idxs v v1 v2 g h = record {
    handlers = g.handlers ∙ h.handlers;
    users = λ i. omega (arith, g.users i, h.users i);
    count = omega (arith, g.count, h.count);
  }

module _ {H E : Type 0} where
  inc_at-handlers :
      (items : List (HandlerVecItem H)) (idx : ℕ) {items' : List (HandlerVecItem H)}
      → inc_at {E = E} items idx ≡ ok items'
      → handlers_of items' ≡ handlers_of items
  unfolding inc_at
  inc_at-handlers [] idx e = absurd cc
  inc_at-handlers (item ∷ items) zero e =
      let (count, e1, e2) = bind-eq-ok (checked_add {E = E} item.user_count 1) _ e in
      rw (← ok-injective e2)
  inc_at-handlers (item ∷ items) (suc idx) e =
      let (items1, e1, e2) = bind-eq-ok (inc_at {E = E} items idx) _ e in
      rw (← ok-injective e2, inc_at-handlers items idx e1)

  inc_at-users :
      (items : List (HandlerVecItem H)) (idx i : ℕ) {items' : List (HandlerVecItem H)}
      → inc_at {E = E} items idx ≡ ok items'
      → users_at i items' ≡ users_at i items + hit i (some idx)
  unfolding inc_at
  inc_at-users [] idx i e = absurd cc
  inc_at-users (item ∷ items) zero zero e =
      let (count, e1, e2) = bind-eq-ok (checked_add {E = E} item.user_count 1) _ e in
      rw (← ok-injective e2, checked_add-eq item.user_count 1 e1)
  inc_at-users (item ∷ items) zero (suc i) e =
      let (count, e1, e2) = bind-eq-ok (checked_add {E = E} item.user_count 1) _ e in
      rw (← ok-injective e2) (ground arith)
  inc_at-users (item ∷ items) (suc idx) zero e =
      let (items1, e1, e2) = bind-eq-ok (inc_at {E = E} items idx) _ e in
      rw (← ok-injective e2) (ground arith)
  inc_at-users (item ∷ items) (suc idx) (suc i) e =
      let (items1, e1, e2) = bind-eq-ok (inc_at {E = E} items idx) _ e in
      rw (← ok-injective e2) (ground (arith, inc_at-users items idx i e1))

  dec_at-handlers :
      (items : List (HandlerVecItem H)) (idx : ℕ) {items' : List (HandlerVecItem H)}
      → dec_at {E = E} items idx ≡ ok items'
      → handlers_of items ≡ handlers_of items'
  unfolding dec_at
  dec_at-handlers [] idx e = absurd cc
  dec_at-handlers (item ∷ items) zero e =
      let (count, e1, e2) = bind-eq-ok (checked_sub {E = E} item.user_count 1) _ e in
      rw (← ok-injective e2)
  dec_at-handlers (item ∷ items) (suc idx) e =
      let (items1, e1, e2) = bind-eq-ok (dec_at {E = E} items idx) _ e in
      rw (← ok-injective e2, dec_at-handlers items idx e1)

  dec_at-users :
      (items : List (HandlerVecItem H)) (idx i : ℕ) {items' : List (HandlerVecItem H)}
      → dec_at {E = E} items idx ≡ ok items'
      → users_at i items ≡ users_at i items' + hit i (some idx)
  unfolding dec_at
  dec_at-users [] idx i e = absurd cc
  dec_at-users (item ∷ items) zero zero e =
      let (count, e1, e2) = bind-eq-ok (checked_sub {E = E} item.user_count 1) _ e in
      rw (← ok-injective e2) (checked_sub-eq item.user_count 1 e1)
  dec_at-users (item ∷ items) zero (suc i) e =
      let (count, e1, e2) = bind-eq-ok (checked_sub {E = E} item.user_count 1) _ e in
      rw (← ok-injective e2) (ground arith)
  dec_at-users (item ∷ items) (suc idx) zero e =
      let (items1, e1, e2) = bind-eq-ok (dec_at {E = E} items idx) _ e in
      rw (← ok-injective e2) (ground arith)
  dec_at-users (item ∷ items) (suc idx) (suc i) e =
      let (items1, e1, e2) = bind-eq-ok (dec_at {E = E} items idx) _ e in
      rw (← ok-injective e2) (ground (arith, dec_at-users items idx i e1))

  pub inc_user_count-Gained :
      (idx : ℕ) (v : HandlerVec H) {v' : HandlerVec H}
      → inc_user_count {E = E} idx v ≡ ok v'
      → Gained (some idx ∷ []) v v'
  unfolding inc_user_count
  inc_user_count-Gained idx v e =
      let (items, e1, e2) = bind-eq-ok (inc_at {E = E} v.items idx) _ e in
      let (count, e3, e4) = bind-eq-ok (checked_add {E = E} v.user_count 1) _ e2 in
      rw (← ok-injective e4) (record {
        handlers = inc_at-handlers v.items idx e1;
        users = λ i. omega (arith, inc_at-users v.items idx i e1);
        count = omega (arith, checked_add-eq v.user_count 1 e3);
      })

  pub dec_user_count-Gained :
      (idx : ℕ) (v : HandlerVec H) {v' : HandlerVec H}
      → dec_user_count {E = E} idx v ≡ ok v'
      → Gained (some idx ∷ []) v' v
  unfolding dec_user_count
  dec_user_count-Gained idx v e =
      let (items, e1, e2) = bind-eq-ok (dec_at {E = E} v.items idx) _ e in
      let (count, e3, e4) = bind-eq-ok (checked_sub {E = E} v.user_count 1) _ e2 in
      rw (← ok-injective e4) (record {
        handlers = dec_at-handlers v.items idx e1;
        users = λ i. omega (arith, dec_at-users v.items idx i e1);
        count = omega (arith, checked_sub-eq v.user_count 1 e3);
      })
