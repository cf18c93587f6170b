-- ===== src/Memory/Arena.antt =====
-- src/memory/arena.rs: `Arena`, the buffer of the input that is not consumed. A `Vec` is its bytes
-- and its capacity: `with_capacity` and `reserve_exact` are taken to reserve just what is asked for.
-- `copy_over` of the crate safemem is a parameter.
pub mod Contents
use lol_html.Base.Checked.{checked_sub}
use lol_html.Base.Outcome.{Outcome, ok, ◌>>=◌}
use lol_html.Memory.Limiter.{MemoryLimiter, Limited, increase_usage, preallocate}
use lol_html.Prelude.{ℕ, ◌+◌, ◌-◌, ◌≤◌, List, [], ◌++◌, ltb, length, take, drop, if◌then◌else◌, ◌≡◌}

pub record Arena : Type 0 where
  pub data_ : List ℕ
  pub capacity : ℕ

unfoldable pub new_arena {ℓ} : {E : Type ℓ} → MemoryLimiter → ℕ → Outcome E (Arena × MemoryLimiter)
unfolding preallocate
new_arena limiter preallocated_size = preallocate preallocated_size limiter >>= λ limiter'.
    ok (record { data_ = []; capacity = preallocated_size }, limiter')

-- `Vec::reserve_exact`.
abbrev pub reserve_exact : ℕ → Arena → Arena
reserve_exact additional a =
    if ltb (a.capacity - length a.data_) additional
    then record a { capacity = length a.data_ + additional }
    else a

-- `extend_from_slice`, after the room for it has been reserved.
abbrev pub extend_from_slice : List ℕ → Arena → Arena
extend_from_slice slice a = record a { data_ = a.data_ ++ slice }

unfoldable pub append : List ℕ → Arena → MemoryLimiter → Limited (Arena × MemoryLimiter)
append slice a limiter =
    let new_len = length a.data_ + length slice in
    if ltb a.capacity new_len
    then (increase_usage (new_len - a.capacity) limiter >>= λ limiter'.
        ok (extend_from_slice slice (reserve_exact (length slice) a), limiter'))
    else ok (extend_from_slice slice a, limiter)

unfoldable pub init_with : List ℕ → Arena → MemoryLimiter → Limited (Arena × MemoryLimiter)
unfolding append
init_with slice a limiter = append slice (record a { data_ = [] }) limiter

-- `safemem::copy_over(data, src_idx, dest_idx, len)`.
abbrev pub CopyOver : Type 0
CopyOver = List ℕ → ℕ → ℕ → ℕ → List ℕ

-- What its documentation says: inside the slice, `len` bytes from `src_idx` replace those from
-- `dest_idx`, and the rest is kept.
abbrev pub IsCopyOver : CopyOver → Type 0
IsCopyOver copy_over =
    (bytes : List ℕ) (src_idx dest_idx len : ℕ)
    → src_idx + len ≤ length bytes
    → dest_idx + len ≤ length bytes
    → copy_over bytes src_idx dest_idx len
      ≡ take dest_idx bytes ++ take len (drop src_idx bytes) ++ drop (dest_idx + len) bytes

unfoldable pub shift {ℓ} : CopyOver → {E : Type ℓ} → ℕ → Arena → Outcome E Arena
shift copy_over byte_count a = checked_sub (length a.data_) byte_count >>= λ remainder_len.
    ok (record a { data_ = take remainder_len (copy_over a.data_ byte_count 0 remainder_len) })
