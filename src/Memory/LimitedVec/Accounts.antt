-- ===== src/Memory/LimitedVec/Accounts.antt =====
-- The limiter is charged for just the items that are in the vector.
use native.Mathlib.Nat.{mul-add}
use lol_html.Base.Checked.{checked_sub, checked_sub-eq, checked_sub-undo}
use lol_html.Base.Outcome.{ok, ◌>>=◌, bind-eq-ok, ok-injective}
use lol_html.Memory.LimitedVec.{vec_push, vec_drain, vec_drop}
use lol_html.Memory.Limiter.{MemoryLimiter, increase_usage, increase_usage-le, decrease_usage}
use lol_html.Prelude.{
  ℕ, ◌+◌, ◌-◌, ◌*◌, ◌≤◌, List, [], ◌∷◌, ◌++◌, length, length-append, length-take, length-drop, take,
  drop, drop-drop, take-append-drop, leb, leb→le, if-cases, ◌≡◌, refl, ap, arith,
}

-- The usage is that of others and that of the items.
abbrev pub IsAccounted : {T : Type 0} → ℕ → ℕ → List T → MemoryLimiter → Type 0
IsAccounted size others vec limiter = limiter.current_usage ≡ others + size * length vec

module _ {T : Type 0} (size others : ℕ) where
  -- A push that succeeds keeps the limiter charged for just the items in the vector, and the usage of
  -- others.
  pub vec_push-Accounted :
      (element : T) (vec : List T) (limiter : MemoryLimiter) {vec' : List T}
      {limiter' : MemoryLimiter}
      → IsAccounted size others vec limiter
      → vec_push size element vec limiter ≡ ok (vec', limiter')
      → IsAccounted size others vec' limiter'
  unfolding vec_push
  vec_push-Accounted element vec limiter a e =
      let (l, e1, e2) = bind-eq-ok (increase_usage size limiter) _ e in
      let (same, _) = increase_usage-le size limiter e1 in
      let at = ok-injective e2 in
      let grown = length-append vec (element ∷ []) in
      let spread = mul-add size (length vec) 1 in
      rw (← ap (λ x. x.0) at, ← ap (λ x. x.1) at, same, grown) (omega (arith, spread, a))

  drained :
      (start end count usage current : ℕ) (vec : List T)
      → end ≡ count + start
      → end ≤ length vec
      → current ≡ usage + size * count
      → current ≡ others + size * length vec
      → usage ≡ others + size * length (take start vec ++ drop end vec)
  drained start end count usage current vec ends le less a =
      let k : ℕ = length (take start vec ++ drop end vec) in
      let len : length vec ≡ k + count = omega (
        arith,
        length-append (take start vec) (drop end vec),
        length-take start vec,
        length-drop end vec,
        ends,
        le,
      ) in
      let spread = mul-add size k count in
      let whole = ap (λ n. size * n) len in omega (arith, spread, whole, less, a)

  pieces :
      (start end : ℕ) (vec : List T)
      → start ≤ end
      → take start vec ++ (take (end - start) (drop start vec) ++ drop end vec) ≡ vec
  pieces start end vec le =
      let tail = drop-drop start (end - start) end vec (omega arith) in
      rw (← tail, take-append-drop (end - start) (drop start vec), take-append-drop start vec)

  -- A drain that succeeds removes a run of items and gives it back: what stood before it, the run and
  -- what stood behind it are the vector, and without the run they are what is left. The limiter stays
  -- charged for just the items in the vector, and the usage of others.
  pub vec_drain-Accounted :
      {E : Type 0} (start end : ℕ) (vec : List T) (limiter : MemoryLimiter) {vec' items : List T}
      {limiter' : MemoryLimiter}
      → IsAccounted size others vec limiter
      → vec_drain size {E = E} start end vec limiter ≡ ok (vec', items, limiter')
      → IsAccounted size others vec' limiter'
        × (take start vec ++ (items ++ drop end vec) ≡ vec)
        × (vec' ≡ take start vec ++ drop end vec)
  unfolding vec_drain decrease_usage
  vec_drain-Accounted {E = E} start end vec limiter a e =
      let (count, e1, e2) = bind-eq-ok (checked_sub {E = E} end start) _ e in
      let (l, e3, e4) = bind-eq-ok (decrease_usage (size * count) limiter) _ e2 in
      let (usage, e5, e6) =
        bind-eq-ok (checked_sub {E = E} limiter.current_usage (size * count)) _ e3 in
      let ends = checked_sub-eq end start e1 in
      let less = checked_sub-eq limiter.current_usage (size * count) e5 in
      if-cases (leb end (length vec)) e4
        (λ t e7.
          let le = leb→le end (length vec) t in
          let at = ok-injective e7 in
          let charged = ok-injective e6 in
          rw (← ap (λ x. x.0) at, ← ap (λ x. x.1) at, ← ap (λ x. x.2) at, ← charged)
            (
              drained start end count usage limiter.current_usage vec ends le less a,
              pieces start end vec (omega (arith, ends)),
              refl,
            ))
        (λ t e7. absurd (cc))

  -- When the vector is dropped, just the usage of the others is left, and there is no panic.
  pub vec_drop-Accounted :
      {E : Type 0} (vec : List T) (limiter : MemoryLimiter)
      → IsAccounted size others vec limiter
      → vec_drop size {E = E} vec limiter ≡ ok (record limiter { current_usage = others })
  unfolding vec_drop decrease_usage ◌>>=◌
  vec_drop-Accounted {E = E} vec limiter a =
      let granted : checked_sub {E = E} limiter.current_usage (size * length vec) ≡ ok others =
        rw a (checked_sub-undo {E = E} others (size * length vec)) in
      rw granted
