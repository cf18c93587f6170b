-- ===== src/TransformStream/Buffering.antt =====
-- The stream with its arena does what a stream does that just keeps the bytes not consumed.
use lol_html.Base.Outcome.{Outcome, ok, ◌>>=◌, map_err, map_err-ok, bind-eq-ok, ok-injective}
use lol_html.Base.Range.{slice-drop}
use lol_html.Memory.Arena.Contents.{
  IsPaid, append-Appended, charged_for, append-charged_for, shift-drop,
}
use lol_html.Memory.Limiter.{MemoryLimiter}
use lol_html.Memory.Arena.{Arena, append, init_with, CopyOver, IsCopyOver}
use lol_html.Parser.Directive.{RewritingError}
use lol_html.Prelude.{
  ℕ, ◌+◌, ◌≤◌, ◌<◌, true, false, List, [], ◌++◌, ltb, ltb→lt, ltb→le, length, drop, drop_all,
  length-drop, if◌then◌else◌, if-cases, ◌≡◌, refl, sym, ◌∙◌, ap, arith,
}
use lol_html.TransformStream.Sharing.{
  SharesLimiter, IsSound, paid, Appended-IsSound, parsed-IsSound,
}
use lol_html.TransformStream.{
  ChunkParser, TransformStream, out_of_memory, buffer_blocked_bytes, next_chunk, write,
}

module _ {P : Type 0} where
  abbrev pub pending : TransformStream P → List ℕ
  pending s = if s.has_buffered_data then s.buffer.data_ else []

  -- What the parser finds the limiter at: charged for the new bytes, where they join waiting ones.
  abbrev pub limiter_at_parse : List ℕ → TransformStream P → MemoryLimiter
  limiter_at_parse data_ s =
      if s.has_buffered_data
      then charged_for (length s.buffer.data_ + length data_) s.buffer s.memory_limiter
      else s.memory_limiter

  -- A stream without an arena: the bytes not consumed, the parser and the limiter.
  abbrev pub write_pending :
      ChunkParser P
      → List ℕ
      → List ℕ
      → P
      → MemoryLimiter
      → Outcome RewritingError (List ℕ × P × MemoryLimiter)
  write_pending parser data_ kept p limiter =
      parser.parse (kept ++ data_) false p limiter >>= λ (consumed, p1, limiter1).
      parser.flush_remaining_input (kept ++ data_) consumed p1 limiter1 >>= λ (p2, limiter2).
      ok (drop consumed (kept ++ data_), p2, limiter2)

  -- What `next_chunk` hands on.
  pub record Chunked (s : TransformStream P) (data_ chunk : List ℕ) (s1 : TransformStream P)
      : Type 0 where
    pub chunk_is : chunk ≡ pending s ++ data_
    pub flag_is : s1.has_buffered_data ≡ s.has_buffered_data
    pub buffered : s.has_buffered_data ≡ true → s1.buffer.data_ ≡ chunk
    pub fresh : s.has_buffered_data ≡ false → chunk ≡ data_

  pub chunked :
      (own : P → ℕ) (data_ : List ℕ) (s : TransformStream P) {chunk : List ℕ}
      {s1 : TransformStream P}
      → IsSound own s
      → next_chunk data_ s ≡ ok (chunk, s1)
      → Chunked s data_ chunk s1
        × (s1.parser ≡ s.parser)
        × IsSound own s1
        × (s1.memory_limiter ≡ limiter_at_parse data_ s)
  unfolding next_chunk
  chunked own data_ s h e =
      if-cases s.has_buffered_data e
        (λ t e1.
          let ((a, l), e2, e3) =
            bind-eq-ok (map_err out_of_memory (append data_ s.buffer s.memory_limiter)) _ e1 in
          let runs = map_err-ok out_of_memory (append data_ s.buffer s.memory_limiter) e2 in
          let w = append-Appended data_ s.buffer s.memory_limiter (paid own s h) runs in
          let at = ok-injective e3 in
          rw (← ap (λ x. x.0) at, ← ap (λ x. x.1) at)
            (
              (record {
                chunk_is = rw (w.contents, t);
                flag_is = refl;
                buffered = λ _. refl;
                fresh = λ f. absurd (cc);
              }),
              refl,
              Appended-IsSound own data_ s.buffer s (record s { buffer = a; memory_limiter = l })
                  refl h w refl,
              rw t (append-charged_for data_ s.buffer s.memory_limiter runs),
            ))
        (λ t e1.
          let at = ok-injective e1 in
          rw (← ap (λ x. x.0) at, ← ap (λ x. x.1) at)
            (
              (record {
                chunk_is = rw t;
                flag_is = refl;
                buffered = λ f. absurd (cc);
                fresh = λ _. refl;
              }),
              refl,
              h,
              rw t refl,
            ))

module _ {P : Type 0} (copy_over : CopyOver) (copies : IsCopyOver copy_over) (own : P → ℕ) where
  -- What is kept of the chunk.
  record Kept (chunk : List ℕ) (consumed : ℕ) (s1 s' : TransformStream P) : Type 0 where
    pending_is : pending s' ≡ drop consumed chunk
    sound : IsSound own s'
    parser_is : s'.parser ≡ s1.parser

  kept :
      (s : TransformStream P) (data_ chunk : List ℕ) (s1 s' : TransformStream P) (consumed : ℕ)
      → Chunked s data_ chunk s1
      → IsSound own s1
      → consumed < length chunk
      → buffer_blocked_bytes copy_over data_ consumed s1 ≡ ok s'
      → Kept chunk consumed s1 s'
  unfolding buffer_blocked_bytes ◌>>=◌ init_with
  kept s data_ chunk s1 s' consumed c h lt e =
      if-cases s1.has_buffered_data e
        (λ t e1.
          let full = c.buffered (sym c.flag_is ∙ t) in
          let le : consumed ≤ length s1.buffer.data_ = rw full (omega arith) in
          let moved = shift-drop {E = RewritingError} copy_over copies consumed s1.buffer le in
          let at = ok-injective (rw moved at e1) in
          rw (← at) (record {
            pending_is = rw (t, full);
            sound = record {
              fits = omega (arith, length-drop consumed s1.buffer.data_, h.fits);
              charged = h.charged;
              within = h.within;
            };
            parser_is = refl;
          }))
        (λ t e1.
          let same = c.fresh (sym c.flag_is ∙ t) in
          let le : consumed ≤ length data_ = rw⁻¹ same (omega arith) in
          let rest = slice-drop data_ consumed le in
          let ((a, l), e2, e3) =
            bind-eq-ok
              (map_err out_of_memory (init_with (drop consumed data_) s1.buffer s1.memory_limiter))
              _ (rw rest at e1) in
          let cleared : Arena = record s1.buffer { data_ = [] } in
          let free : IsPaid cleared s1.memory_limiter = record {
            fits = omega arith;
            charged = omega (arith, h.charged);
            within = h.within;
          } in
          let w =
            append-Appended (drop consumed data_) cleared s1.memory_limiter free
              (map_err-ok out_of_memory _ e2) in
          let at = ok-injective e3 in
          rw (← at) (record {
            pending_is = w.contents ∙ ap (drop consumed) (sym same);
            sound =
                Appended-IsSound own (drop consumed data_) cleared s1
                  (record s1 { buffer = a; memory_limiter = l; has_buffered_data = true }) refl h w
                  refl;
            parser_is = refl;
          }))

  finished :
      (s : TransformStream P) (data_ chunk : List ℕ) (s1 s' : TransformStream P) (n : ℕ)
      → Chunked s data_ chunk s1
      → IsSound own s1
      → (if ltb n (length chunk)
          then buffer_blocked_bytes copy_over data_ n s1
          else ok (record s1 { has_buffered_data = false }))
        ≡ ok s'
      → Kept chunk n s1 s'
  finished s data_ chunk s1 s' n c h e =
      if-cases (ltb n (length chunk)) e
        (λ t e1. kept s data_ chunk s1 s' n c h (ltb→lt n (length chunk) t) e1)
        (λ t e1. rw (← ok-injective e1) (record {
          pending_is = sym (drop_all n chunk (ltb→le n (length chunk) t));
          sound = record { fits = h.fits; charged = h.charged; within = h.within };
          parser_is = refl;
        }))

  module _ (parser : ChunkParser P) (shares : SharesLimiter own parser) where
    parsed :
        (data_ : List ℕ) (s s1 s' : TransformStream P) (p1 p2 : P) (l1 l2 : MemoryLimiter) (n : ℕ)
        (chunk : List ℕ)
        → chunk ≡ pending s ++ data_
        → s1.parser ≡ s.parser
        → s1.memory_limiter ≡ limiter_at_parse data_ s
        → parser.parse chunk false s1.parser s1.memory_limiter ≡ ok (n, p1, l1)
        → parser.flush_remaining_input chunk n p1 l1 ≡ ok (p2, l2)
        → Kept chunk n (record s1 { parser = p2; memory_limiter = l2 }) s'
        → (limiter : MemoryLimiter) × (write_pending parser data_
              (pending s)
              s.parser
              (limiter_at_parse data_ s)
            ≡ ok (pending s', s'.parser, limiter))
          × IsSound own s'
    unfolding ◌>>=◌
    parsed data_ s s1 s' p1 p2 l1 l2 n chunk c q m e f k =
        (l2, rw (k.pending_is, k.parser_is, ← c, ← q, ← m, e, f) refl, k.sound)

    -- With `copy_over` as documented and a parser that charges the limiter, which they share, just
    -- for what it holds itself: a `write` that succeeds gives the parser the bytes that it had not
    -- consumed and then the new ones, with the limiter charged for them, and keeps of these just
    -- what it does not consume now. Where the limiter was charged for the arena and for what the
    -- parser holds, for nothing else and within the limit, it is so after the write.
    pub write-write_pending :
        (data_ : List ℕ) (s : TransformStream P) {s' : TransformStream P}
        → IsSound own s
        → write copy_over parser data_ s ≡ ok s'
        → (limiter : MemoryLimiter) × (write_pending parser data_
              (pending s)
              s.parser
              (limiter_at_parse data_ s)
            ≡ ok (pending s', s'.parser, limiter))
          × IsSound own s'
    unfolding write
    write-write_pending data_ s h e =
        let ((chunk, s1), e1, e2) = bind-eq-ok (next_chunk data_ s) _ e in
        let (c, q, h1, m) = chunked own data_ s h e1 in
        let ((n, p1, l1), e3, e4) =
          bind-eq-ok (parser.parse chunk false s1.parser s1.memory_limiter) _ e2 in
        let ((p2, l2), e5, e6) = bind-eq-ok (parser.flush_remaining_input chunk n p1 l1) _ e4 in
        let c2 : Chunked s data_ chunk (record s1 { parser = p2; memory_limiter = l2 }) = record {
          chunk_is = c.chunk_is;
          flag_is = c.flag_is;
          buffered = c.buffered;
          fresh = c.fresh;
        } in
        parsed data_ s s1 _ p1 p2 l1 l2 n chunk c.chunk_is q m e3 e5 (
          finished s data_ chunk (record s1 { parser = p2; memory_limiter = l2 }) _ n c2
            (parsed-IsSound own parser shares s1 chunk n p1 p2 l1 l2 h1 e3 e5) e6)
