-- ===== src/TransformStream/Sharing.antt =====
-- The memory limiter that the stream shares with its parser: what each of them has charged.
use lol_html.Base.Outcome.{ok}
use lol_html.Memory.Arena.Contents.{IsPaid, Appended}
use lol_html.Memory.Limiter.{MemoryLimiter}
use lol_html.Memory.Arena.{Arena}
use lol_html.Prelude.{ℕ, ◌+◌, ◌≤◌, Bool, false, List, length, ◌≡◌, ap, arith}
use lol_html.TransformStream.{ChunkParser, TransformStream}

module _ {P : Type 0} where
  -- What the parser and the dispatcher charge for themselves: from one state to the next the limiter
  -- changes by what they hold, and is within the limit if it was before.
  abbrev pub ChargesOwn : (P → ℕ) → P → MemoryLimiter → P → MemoryLimiter → Type 0
  ChargesOwn own p limiter p' limiter' =
      (limiter'.max ≡ limiter.max)
      × (limiter'.current_usage + own p ≡ limiter.current_usage + own p')
      × (limiter.current_usage ≤ limiter.max → limiter'.current_usage ≤ limiter'.max)

  -- A parser that charges the limiter that it shares just for what it holds itself, as the vector of
  -- the stack of open elements does (Memory/LimitedVec).
  pub record SharesLimiter (own : P → ℕ) (parser : ChunkParser P) : Type 0 where
    pub parse_charges :
        (chunk : List ℕ) (last : Bool) (p : P) (limiter : MemoryLimiter) {n : ℕ} {p' : P}
        {limiter' : MemoryLimiter}
        → parser.parse chunk last p limiter ≡ ok (n, p', limiter')
        → ChargesOwn own p limiter p' limiter'
    pub flush_charges :
        (chunk : List ℕ) (n : ℕ) (p : P) (limiter : MemoryLimiter) {p' : P}
        {limiter' : MemoryLimiter}
        → parser.flush_remaining_input chunk n p limiter ≡ ok (p', limiter')
        → ChargesOwn own p limiter p' limiter'

  -- The bytes fit the arena, and the limiter is charged for the arena and for what the parser holds,
  -- for nothing else, within the limit.
  pub record IsSound (own : P → ℕ) (s : TransformStream P) : Type 0 where
    pub fits : length s.buffer.data_ ≤ s.buffer.capacity
    pub charged : s.memory_limiter.current_usage ≡ s.buffer.capacity + own s.parser
    pub within : s.memory_limiter.current_usage ≤ s.memory_limiter.max

  pub paid :
      (own : P → ℕ) (s : TransformStream P) → IsSound own s → IsPaid s.buffer s.memory_limiter
  paid own s h = record { fits = h.fits; charged = omega (arith, h.charged); within = h.within }

  -- After an `append` or an `init_with`.
  pub Appended-IsSound :
      (own : P → ℕ) (slice : List ℕ) (a : Arena) (s s' : TransformStream P)
      → a.capacity ≡ s.buffer.capacity
      → IsSound own s
      → Appended slice a s.memory_limiter s'.buffer s'.memory_limiter
      → s'.parser ≡ s.parser
      → IsSound own s'
  Appended-IsSound own slice a s s' same h w q = record {
    fits = w.paid.fits;
    charged = omega (arith, w.charge, h.charged, same, ap own q);
    within = w.paid.within;
  }

  -- The parser and the dispatcher have had the chunk.
  pub parsed-IsSound :
      (own : P → ℕ) (parser : ChunkParser P) (shares : SharesLimiter own parser)
      (s1 : TransformStream P) (chunk : List ℕ) (n : ℕ) (p1 p2 : P) (l1 l2 : MemoryLimiter)
      → IsSound own s1
      → parser.parse chunk false s1.parser s1.memory_limiter ≡ ok (n, p1, l1)
      → parser.flush_remaining_input chunk n p1 l1 ≡ ok (p2, l2)
      → IsSound own (record s1 { parser = p2; memory_limiter = l2 })
  parsed-IsSound own parser shares s1 chunk n p1 p2 l1 l2 h e f =
      let (m1, u1, w1) = shares.parse_charges chunk false s1.parser s1.memory_limiter e in
      let (m2, u2, w2) = shares.flush_charges chunk n p1 l1 f in
      record {
        fits = h.fits;
        charged = omega (arith, h.charged, u1, u2);
        within = w2 (w1 h.within);
      }
