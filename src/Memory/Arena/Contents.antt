-- ===== src/Memory/Arena/Contents.antt =====
-- What the arena holds after each operation, and that its capacity is paid for.
use lol_html.Base.Checked.{checked_sub-fits}
use lol_html.Base.Outcome.{ok, ◌>>=◌, bind-eq-ok, ok-injective}
use lol_html.Memory.Arena.{
  Arena, reserve_exact, extend_from_slice, append, CopyOver, IsCopyOver, shift,
}
use lol_html.Memory.Limiter.{MemoryLimiter, increase_usage, increase_usage-le, increase_usage-fits}
use lol_html.Prelude.{
  ℕ, ◌+◌, ◌-◌, ◌^◌, ◌≤◌, ◌<◌, true, List, ◌++◌, ltb, ltb→lt, ltb→le, length, length-append,
  length-drop, drop, if-cases, ◌≡◌, refl, sym, ◌∙◌, ap, arith, Bool-cases, inl, inr, take_all,
  take-append,
}

-- The bytes fit the capacity, and the limiter has been charged for the capacity.
pub record IsPaid (a : Arena) (limiter : MemoryLimiter) : Type 0 where
  pub fits : length a.data_ ≤ a.capacity
  pub charged : a.capacity ≤ limiter.current_usage
  pub within : limiter.current_usage ≤ limiter.max

-- The state in which `append` ends.
pub record Appended (slice : List ℕ) (a : Arena) (limiter : MemoryLimiter) (a' : Arena)
    (limiter' : MemoryLimiter) : Type 0 where
  pub contents : a'.data_ ≡ a.data_ ++ slice
  pub paid : IsPaid a' limiter'
  pub same_max : limiter'.max ≡ limiter.max
  pub charge : limiter'.current_usage + a.capacity ≡ limiter.current_usage + a'.capacity

reserve_exact-grows :
    (slice : List ℕ) (a : Arena)
    → a.capacity < length a.data_ + length slice
    → length a.data_ ≤ a.capacity
    → reserve_exact (length slice) a ≡ record a { capacity = length a.data_ + length slice }
reserve_exact-grows slice a lt le =
    let t : ltb (a.capacity - length a.data_) (length slice) ≡ true = ground arith in rw t

-- An arena whose capacity is paid for stays so when `append` succeeds. It then holds its bytes and
-- those of the slice, the limiter is charged just for what the capacity has grown, and the usage is
-- within the limit, which does not change.
pub append-Appended :
    (slice : List ℕ) (a : Arena) (limiter : MemoryLimiter) {a' : Arena} {limiter' : MemoryLimiter}
    → IsPaid a limiter
    → append slice a limiter ≡ ok (a', limiter')
    → Appended slice a limiter a' limiter'
unfolding append
append-Appended slice a limiter p e =
    let sum = length-append a.data_ slice in
    if-cases (ltb a.capacity (length a.data_ + length slice)) e
      (λ t e1.
        let (m, e2, e3) =
          bind-eq-ok (increase_usage (length a.data_ + length slice - a.capacity) limiter) _ e1 in
        let (same, le) = increase_usage-le _ limiter e2 in
        let grown = reserve_exact-grows slice a (ltb→lt _ _ t) p.fits in
        let at = ok-injective e3 in
        rw (← ap (λ x. x.0) at, ← ap (λ x. x.1) at, grown, same)
          (record {
            contents = refl;
            paid = record {
              fits = ground (arith, sum);
              charged = ground (arith, ltb→lt _ _ t);
              within = le;
            };
            same_max = refl;
            charge = ground (arith, ltb→lt _ _ t);
          }))
      (λ t e1.
        let at = ok-injective e1 in
        rw (← ap (λ x. x.0) at, ← ap (λ x. x.1) at)
          (record {
            contents = refl;
            paid = record { fits = ground (arith, sum); charged = p.charged; within = p.within };
            same_max = refl;
            charge = refl;
          }))

-- The limiter after an `append`: charged for what the bytes need beyond the capacity.
abbrev pub charged_for : ℕ → Arena → MemoryLimiter → MemoryLimiter
charged_for new_len a limiter = record limiter {
  current_usage = limiter.current_usage + (new_len - a.capacity);
}

pub append-charged_for :
    (slice : List ℕ) (a : Arena) (limiter : MemoryLimiter) {a' : Arena} {limiter' : MemoryLimiter}
    → append slice a limiter ≡ ok (a', limiter')
    → limiter' ≡ charged_for (length a.data_ + length slice) a limiter
unfolding append
append-charged_for slice a limiter e =
    if-cases (ltb a.capacity (length a.data_ + length slice)) e
      (λ t e1.
        let (m, e2, e3) =
          bind-eq-ok (increase_usage (length a.data_ + length slice - a.capacity) limiter) _ e1 in
        let (same, le) = increase_usage-le _ limiter e2 in
        sym (ap (λ x. x.1) (ok-injective e3)) ∙ same)
      (λ t e1.
        let le = ltb→le a.capacity (length a.data_ + length slice) t in
        let none_more : limiter.current_usage
            ≡ limiter.current_usage + (length a.data_ + length slice - a.capacity) =
          omega arith in
        sym (ap (λ x. x.1) (ok-injective e1))
        ∙ ap (λ n. record limiter { current_usage = n }) none_more)

-- Where the limit leaves room for all the bytes, `append` succeeds.
pub append-fits :
    (slice : List ℕ) (a : Arena) (limiter : MemoryLimiter)
    → limiter.current_usage + (length a.data_ + length slice) ≤ limiter.max
    → limiter.max < 2 ^ 64
    → (a' : Arena) × (limiter' : MemoryLimiter) × (append slice a limiter ≡ ok (a', limiter'))
unfolding append ◌>>=◌
append-fits slice a limiter room bound =
    elim (Bool-cases (ltb a.capacity (length a.data_ + length slice))) [
      | inl t ↦
          let granted =
            increase_usage-fits (length a.data_ + length slice - a.capacity) limiter (omega arith)
              bound in
          (
            extend_from_slice slice (reserve_exact (length slice) a),
            record limiter {
              current_usage = limiter.current_usage + (length a.data_ + length slice - a.capacity);
            },
            rw (t, granted),
          )
      | inr t ↦ (extend_from_slice slice a, limiter, rw t)
    ]

module _ {E : Type 0} (copy_over : CopyOver) (copies : IsCopyOver copy_over) where
  -- With `copy_over` as documented, `shift` of no more bytes than there are drops them from the
  -- front, keeps the capacity and does not panic.
  pub shift-drop :
      (n : ℕ) (a : Arena)
      → n ≤ length a.data_
      → shift copy_over {E = E} n a ≡ ok (record a { data_ = drop n a.data_ })
  unfolding shift ◌>>=◌
  shift-drop n a le =
      let rest = drop n a.data_ in
      let len : length rest ≡ length a.data_ - n = length-drop n a.data_ in
      rw (
        checked_sub-fits {E = E} (length a.data_) n le,
        copies a.data_ n 0 (length a.data_ - n) (omega arith) (omega arith),
        ← len,
        take_all rest,
        take-append rest (drop (0 + length rest) a.data_),
      )
