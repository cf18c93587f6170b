-- ===== src/Base/Range.antt =====
-- src/base/range.rs and src/base/align.rs, and `Bytes::slice` of src/base/bytes.rs.
use lol_html.Prelude.{
  ℕ, ◌-◌, ◌≤◌, ◌&&◌, true, List, Option, none, some, leb, if◌then◌else◌, length, take, drop, ◌≡◌,
  arith, length-drop, take_all,
}

pub record Range : Type 0 where
  pub start : ℕ
  pub end : ℕ

-- `Align for usize`.
unfoldable pub align : ℕ → ℕ → ℕ
align offset n = if leb offset n then n - offset else n

-- `Align for Range`.
unfoldable pub align_range : ℕ → Range → Range
unfolding align
align_range offset r = record { start = align offset r.start; end = align offset r.end }

-- `Align for Option<T>` and `Align for Vec<T>`.
abbrev pub align_option : (ℕ → Range → Range) → ℕ → Option Range → Option Range
align_option f offset none = none
align_option f offset (some r) = some (f offset r)

abbrev pub default_range : Range
default_range = record { start = 0; end = 0 }

-- `&bytes[start..end]`; `none` where the indexing panics.
unfoldable pub slice : List ℕ → Range → Option (List ℕ)
slice bytes r =
    if leb r.start r.end && leb r.end (length bytes)
    then some (take (r.end - r.start) (drop r.start bytes))
    else none

-- `&bytes[start..]`.
pub slice-drop :
    (bytes : List ℕ) (start : ℕ)
    → start ≤ length bytes
    → slice bytes (record { start = start; end = length bytes }) ≡ some (drop start bytes)
unfolding slice
slice-drop bytes start le =
    let t : leb start (length bytes) ≡ true = ground arith in
    let u : leb (length bytes) (length bytes) ≡ true = ground arith in
    rw (t, u, ← length-drop start bytes, take_all (drop start bytes))
