-- ===== src/TransformStream/Progress.antt =====
-- With room within the limit, the stream fails only where its parser or its sink does.
use lol_html.Base.Outcome.{ok, ◌>>=◌, bind-eq-ok, ok-injective}
use lol_html.Base.Range.{slice-drop}
use lol_html.Memory.Arena.Contents.{append-fits, shift-drop}
use lol_html.Memory.Arena.{Arena, append, init_with, CopyOver, IsCopyOver}
use lol_html.Memory.Limiter.{MemoryLimiter}
use lol_html.Parser.Directive.{RewritingError}
use lol_html.Prelude.{
  ℕ, ◌+◌, ◌^◌, ◌≤◌, ◌<◌, true, false, List, [], ◌++◌, ltb, ltb→lt, length, drop, length-append,
  if◌then◌else◌, Bool-cases, ◌≡◌, sym, ◌∙◌, ap, arith, inl, inr,
}
use lol_html.TransformStream.Buffering.{pending, write_pending, limiter_at_parse, Chunked, chunked}
use lol_html.TransformStream.Sharing.{IsSound}
use lol_html.TransformStream.{ChunkParser, TransformStream, buffer_blocked_bytes, next_chunk, write}

-- The limit leaves room for the bytes.
abbrev pub HasRoom : List ℕ → MemoryLimiter → Type 0
HasRoom bytes limiter =
    (limiter.current_usage + length bytes ≤ limiter.max) × (limiter.max < 2 ^ 64)

module _ {P : Type 0} where
  grown :
      (data_ : List ℕ) (s : TransformStream P) (a : Arena) (l : MemoryLimiter)
      → s.has_buffered_data ≡ true
      → append data_ s.buffer s.memory_limiter ≡ ok (a, l)
      → next_chunk data_ s ≡ ok (a.data_, record s { buffer = a; memory_limiter = l })
  unfolding next_chunk ◌>>=◌
  grown data_ s a l t e = rw (t, e)

  next_chunk-fits :
      (data_ : List ℕ) (s : TransformStream P)
      → (s.has_buffered_data ≡ true → HasRoom (pending s ++ data_) s.memory_limiter)
      → (chunk : List ℕ) × (s1 : TransformStream P) × (next_chunk data_ s ≡ ok (chunk, s1))
  unfolding next_chunk ◌>>=◌
  next_chunk-fits data_ s fits = elim (Bool-cases s.has_buffered_data) [
    | inl t ↦
        let (room, bound) = fits t in
        let sum = length-append s.buffer.data_ data_ in
        let room' = rw t at room in
        let (a, l, e) =
          append-fits data_ s.buffer s.memory_limiter (omega (arith, sum, room')) bound in
        (a.data_, record s { buffer = a; memory_limiter = l }, grown data_ s a l t e)
    | inr t ↦ (data_, s, (rw t))
  ]

module _ {P : Type 0} (copy_over : CopyOver) (copies : IsCopyOver copy_over) where
  kept-fits :
      (s : TransformStream P) (data_ chunk : List ℕ) (s1 : TransformStream P) (consumed : ℕ)
      → Chunked s data_ chunk s1
      → consumed < length chunk
      → (s1.has_buffered_data ≡ false → HasRoom (drop consumed chunk) s1.memory_limiter)
      → (s' : TransformStream P) × (buffer_blocked_bytes copy_over data_ consumed s1 ≡ ok s')
  unfolding buffer_blocked_bytes ◌>>=◌ init_with
  kept-fits s data_ chunk s1 consumed c lt room = elim (Bool-cases s1.has_buffered_data) [
    | inl t ↦
        let full = c.buffered (sym c.flag_is ∙ t) in
        let le : consumed ≤ length s1.buffer.data_ = rw full (omega arith) in
        let moved = shift-drop {E = RewritingError} copy_over copies consumed s1.buffer le in
        (
          record s1 { buffer = record s1.buffer { data_ = drop consumed s1.buffer.data_ } },
          rw (t, moved),
        )
    | inr t ↦
        let same = c.fresh (sym c.flag_is ∙ t) in
        let le : consumed ≤ length data_ = rw⁻¹ same (omega arith) in
        let rest = slice-drop data_ consumed le in
        let (fits, bound) = room t in
        let kept = ap (λ bytes. length (drop consumed bytes)) same in
        let (a, l, e) =
          append-fits (drop consumed data_) (record s1.buffer { data_ = [] }) s1.memory_limiter
            (omega (arith, kept, fits)) bound in
        (record s1 { buffer = a; memory_limiter = l; has_buffered_data = true }, rw (t, rest, e))
  ]

  finished-fits :
      (s : TransformStream P) (data_ chunk : List ℕ) (s1 : TransformStream P) (n : ℕ)
      → Chunked s data_ chunk s1
      → (s1.has_buffered_data ≡ false → HasRoom (drop n chunk) s1.memory_limiter)
      → (s' : TransformStream P) × ((if ltb n (length chunk)
            then buffer_blocked_bytes copy_over data_ n s1
            else ok (record s1 { has_buffered_data = false }))
          ≡ ok s')
  finished-fits s data_ chunk s1 n c room = elim (Bool-cases (ltb n (length chunk))) [
    | inl t ↦
        let (s', e) = kept-fits s data_ chunk s1 n c (ltb→lt n (length chunk) t) room in
        (s', rw t e)
    | inr t ↦ (record s1 { has_buffered_data = false }, rw t)
  ]

  stepped :
      (parser : ChunkParser P) (data_ : List ℕ) (s : TransformStream P) (chunk : List ℕ)
      (s1 : TransformStream P) (n : ℕ) (p1 p2 : P) (l1 l2 : MemoryLimiter) (s' : TransformStream P)
      → next_chunk data_ s ≡ ok (chunk, s1)
      → parser.parse chunk false s1.parser s1.memory_limiter ≡ ok (n, p1, l1)
      → parser.flush_remaining_input chunk n p1 l1 ≡ ok (p2, l2)
      → (if ltb n (length chunk)
          then buffer_blocked_bytes copy_over data_ n
              (record s1 { parser = p2; memory_limiter = l2 })
          else ok (record s1 { parser = p2; memory_limiter = l2; has_buffered_data = false }))
        ≡ ok s'
      → write copy_over parser data_ s ≡ ok s'
  unfolding write ◌>>=◌
  stepped parser data_ s chunk s1 n p1 p2 l1 l2 s' e1 e2 e3 e4 = rw (e1, e2, e3) e4

  -- A `write` whose parser and sink succeed succeeds too, if `copy_over` is as documented, the arena
  -- and what the parser holds are paid for, the limit leaves room for the waiting bytes together with
  -- the new ones if there are waiting ones, and the limit leaves room for the bytes not consumed when
  -- the parser has charged the limiter that they share, if there are no waiting ones.
  pub write-fits :
      (own : P → ℕ) (parser : ChunkParser P) (data_ : List ℕ) (s : TransformStream P)
      {rest : List ℕ} {p' : P} {limiter' : MemoryLimiter}
      → IsSound own s
      → (s.has_buffered_data ≡ true → HasRoom (pending s ++ data_) s.memory_limiter)
      → write_pending parser data_ (pending s) s.parser (limiter_at_parse data_ s)
        ≡ ok (rest, p', limiter')
      → (s.has_buffered_data ≡ false → HasRoom rest limiter')
      → (s' : TransformStream P) × (write copy_over parser data_ s ≡ ok s')
  write-fits own parser data_ s h room w room' =
      let (chunk, s1, e1) = next_chunk-fits data_ s room in
      let (c, q, h1, m) = chunked own data_ s h e1 in
      let ((n, p1, l1), e3, e4) =
        bind-eq-ok (parser.parse (pending s ++ data_) false s.parser (limiter_at_parse data_ s)) _
          w in
      let ((p2, l2), e5, e6) =
        bind-eq-ok (parser.flush_remaining_input (pending s ++ data_) n p1 l1) _ e4 in
      let parsed : parser.parse chunk false s1.parser s1.memory_limiter ≡ ok (n, p1, l1) =
        rw (c.chunk_is, q, m) e3 in
      let flushed : parser.flush_remaining_input chunk n p1 l1 ≡ ok (p2, l2) = rw c.chunk_is e5 in
      let c2 : Chunked s data_ chunk (record s1 { parser = p2; memory_limiter = l2 }) = record {
        chunk_is = c.chunk_is;
        flag_is = c.flag_is;
        buffered = c.buffered;
        fresh = c.fresh;
      } in
      let at = ok-injective e6 in
      let left : s1.has_buffered_data ≡ false → HasRoom (drop n chunk) l2 =
        λ f. rw (c.chunk_is, ap (λ x. x.0) at, ap (λ x. x.2) at) (room' (sym c.flag_is ∙ f)) in
      let (s', e7) =
        finished-fits s data_ chunk (record s1 { parser = p2; memory_limiter = l2 }) n c2 left in
      (s', stepped parser data_ s chunk s1 n p1 p2 l1 l2 s' e1 parsed flushed e7)
