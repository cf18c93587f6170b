-- ===== src/Memory/Limiter.antt =====
-- src/memory/limiter.rs: `MemoryLimiter`.
use lol_html.Base.Checked.{checked_add, checked_sub}
use lol_html.Base.Outcome.{Outcome, ok, err, panic, ◌>>=◌}
use lol_html.Prelude.{ℕ, ◌+◌, ◌^◌, ◌≤◌, ◌<◌, ltb, if◌then◌else◌, ◌≡◌, arith}

pub data MemoryLimitExceededError : Type 0 where
  memory_limit_exceeded_error : MemoryLimitExceededError

pub record MemoryLimiter : Type 0 where
  pub current_usage : ℕ
  pub max : ℕ

abbrev pub Limited : Type 0 → Type 0
Limited A = Outcome MemoryLimitExceededError A

unfoldable pub new_shared : ℕ → MemoryLimiter
new_shared max = record { current_usage = 0; max = max }

unfoldable pub increase_usage : ℕ → MemoryLimiter → Limited MemoryLimiter
increase_usage byte_count m = checked_add m.current_usage byte_count >>= λ usage.
    if ltb m.max usage
    then err memory_limit_exceeded_error
    else ok (record m { current_usage = usage })

-- `preallocate` expects the increase to be granted.
unfoldable pub preallocate {ℓ} : {E : Type ℓ} → ℕ → MemoryLimiter → Outcome E MemoryLimiter
unfolding increase_usage
preallocate byte_count m = elim (increase_usage byte_count m) [ ok m' ↦ ok m' | _ ↦ panic ]

unfoldable pub decrease_usage {ℓ} : {E : Type ℓ} → ℕ → MemoryLimiter → Outcome E MemoryLimiter
decrease_usage byte_count m =
    checked_sub m.current_usage byte_count >>= λ usage. ok (record m { current_usage = usage })

-- A granted increase is within the limit.
pub increase_usage-le :
    (byte_count : ℕ) (m : MemoryLimiter) {m' : MemoryLimiter}
    → increase_usage byte_count m ≡ ok m'
    → (m' ≡ record m { current_usage = m.current_usage + byte_count })
      × (m.current_usage + byte_count ≤ m.max)
unfolding increase_usage ◌>>=◌ checked_add
increase_usage-le byte_count m e = ground arith

pub increase_usage-fits :
    (byte_count : ℕ) (m : MemoryLimiter)
    → m.current_usage + byte_count ≤ m.max
    → m.max < 2 ^ 64
    → increase_usage byte_count m ≡ ok (record m { current_usage = m.current_usage + byte_count })
unfolding increase_usage ◌>>=◌ checked_add
increase_usage-fits byte_count m le lt = ground arith
