-- ===== src/TransformStream.antt =====
-- src/transform_stream/mod.rs: the input that the parser has not consumed waits in an arena for the
-- next chunk. `ChunkParser` is what the stream asks of its parser and dispatcher, which share their
-- state `P`.
pub mod Sharing
pub mod Buffering
pub mod Progress
pub mod Dispatcher
use lol_html.Base.Outcome.{Outcome, ok, err, ◌>>=◌, expect, map_err}
use lol_html.Base.Range.{slice}
use lol_html.Memory.Arena.{Arena, new_arena, append, init_with, shift, CopyOver}
use lol_html.Memory.Limiter.{MemoryLimiter}
use lol_html.Parser.Directive.{RewritingError, memory_limit_exceeded}
use lol_html.Prelude.{ℕ, Bool, true, false, List, [], ltb, length, if◌then◌else◌}

-- `Parser::parse`, and `Dispatcher::flush_remaining_input` and `finish`. The limiter is shared with
-- the stack of open elements that the controller behind the dispatcher has, so that they are given the
-- limiter and give it back.
pub record ChunkParser (P : Type 0) : Type 0 where
  pub parse : List ℕ → Bool → P → MemoryLimiter → Outcome RewritingError (ℕ × P × MemoryLimiter)
  pub flush_remaining_input :
      List ℕ → ℕ → P → MemoryLimiter → Outcome RewritingError (P × MemoryLimiter)
  pub finish : List ℕ → P → MemoryLimiter → Outcome RewritingError (P × MemoryLimiter)

pub record TransformStream (P : Type 0) : Type 0 where
  pub parser : P
  pub buffer : Arena
  pub has_buffered_data : Bool
  pub memory_limiter : MemoryLimiter

abbrev pub out_of_memory : {E : Type 0} → E → RewritingError
out_of_memory _ = memory_limit_exceeded

module _ {P : Type 0} where
  unfoldable pub new_stream : P → ℕ → MemoryLimiter → Outcome RewritingError (TransformStream P)
  new_stream parser preallocated_parsing_buffer_size memory_limiter =
      new_arena memory_limiter preallocated_parsing_buffer_size >>= λ (buffer, memory_limiter').
      ok (record {
        parser = parser;
        buffer = buffer;
        has_buffered_data = false;
        memory_limiter = memory_limiter';
      })

  -- The chunk that `write` hands to the parser, and the stream whose buffer holds it if it is
  -- buffered.
  unfoldable pub next_chunk :
      List ℕ → TransformStream P → Outcome RewritingError (List ℕ × TransformStream P)
  next_chunk data_ s =
      if s.has_buffered_data
      then (map_err out_of_memory (append data_ s.buffer s.memory_limiter)
          >>= λ (buffer, memory_limiter).
              ok (buffer.data_, record s { buffer = buffer; memory_limiter = memory_limiter }))
      else ok (data_, s)

module _ {P : Type 0} (copy_over : CopyOver) where
  unfoldable pub buffer_blocked_bytes :
      List ℕ → ℕ → TransformStream P → Outcome RewritingError (TransformStream P)
  buffer_blocked_bytes data_ consumed_byte_count s =
      if s.has_buffered_data
      then (shift copy_over consumed_byte_count s.buffer >>= λ buffer.
          ok (record s { buffer = buffer }))
      else (expect (slice data_ (record { start = consumed_byte_count; end = length data_ }))
          >>= λ rest.
              map_err out_of_memory (init_with rest s.buffer s.memory_limiter)
              >>= λ (buffer, memory_limiter). ok (record s {
                buffer = buffer;
                memory_limiter = memory_limiter;
                has_buffered_data = true;
              }))

module _ {P : Type 0} (copy_over : CopyOver) (parser : ChunkParser P) where
  unfoldable pub write : List ℕ → TransformStream P → Outcome RewritingError (TransformStream P)
  unfolding next_chunk buffer_blocked_bytes
  write data_ s = next_chunk data_ s >>= λ (chunk, s1).
      parser.parse chunk false s1.parser s1.memory_limiter >>= λ (consumed_byte_count, p, limiter).
      parser.flush_remaining_input chunk consumed_byte_count p limiter >>= λ (p', limiter').
      let s2 : TransformStream P = record s1 { parser = p'; memory_limiter = limiter' } in
      if ltb consumed_byte_count (length chunk)
      then buffer_blocked_bytes copy_over data_ consumed_byte_count s2
      else ok (record s2 { has_buffered_data = false })

  unfoldable pub end : TransformStream P → Outcome RewritingError (TransformStream P)
  end s =
      let chunk = if s.has_buffered_data then s.buffer.data_ else [] in
      parser.parse chunk true s.parser s.memory_limiter >>= λ (_, p, limiter).
      parser.finish chunk p limiter >>= λ (p', limiter').
      ok (record s { parser = p'; memory_limiter = limiter' })
