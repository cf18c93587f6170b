-- ===== src/Memory/LimitedVec.antt =====
-- src/memory/limited_vec.rs: `LimitedVec`, a vector whose items count against the limit. `size` is
-- `size_of::<T>()`. A range is its two ends, as the bounds of `drain` give them.
pub mod Accounts
use lol_html.Base.Checked.{checked_sub}
use lol_html.Base.Outcome.{Outcome, ok, panic, ◌>>=◌}
use lol_html.Memory.Limiter.{MemoryLimiter, Limited, increase_usage, decrease_usage}
use lol_html.Prelude.{ℕ, ◌-◌, ◌*◌, List, [], ◌∷◌, ◌++◌, leb, length, take, drop, if◌then◌else◌}

module _ {T : Type 0} (size : ℕ) where
  unfoldable pub vec_push : T → List T → MemoryLimiter → Limited (List T × MemoryLimiter)
  vec_push element vec limiter =
      increase_usage size limiter >>= λ limiter'. ok (vec ++ element ∷ [], limiter')

  -- The vector that is left, the items removed, and the limiter.
  unfoldable pub vec_drain :
      {E : Type 0} → ℕ → ℕ → List T → MemoryLimiter → Outcome E (List T × List T × MemoryLimiter)
  vec_drain start end vec limiter = checked_sub end start >>= λ count.
      decrease_usage (size * count) limiter >>= λ limiter'.
      if leb end (length vec)
      then ok (take start vec ++ drop end vec, take (end - start) (drop start vec), limiter')
      else panic

  -- `Drop`.
  unfoldable pub vec_drop : {E : Type 0} → List T → MemoryLimiter → Outcome E MemoryLimiter
  vec_drop vec limiter = decrease_usage (size * length vec) limiter
