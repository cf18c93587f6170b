-- ===== src/Tests/Streaming.antt =====
-- A stream whose parser leaves the last byte of each chunk, and its arena.
use lol_html.Base.Checked.{checked_add, checked_sub}
use lol_html.Base.Outcome.{ok, ◌>>=◌, map_err, map_err-ok, bind-eq-ok, ok-injective}
use lol_html.Memory.Arena.Contents.{IsPaid, Appended, append-Appended, shift-drop}
use lol_html.Memory.Arena.{Arena, append, shift, CopyOver, IsCopyOver}
use lol_html.Memory.LimitedVec.Accounts.{
  IsAccounted, vec_push-Accounted, vec_drain-Accounted, vec_drop-Accounted,
}
use lol_html.Memory.LimitedVec.{vec_push, vec_drain, vec_drop}
use lol_html.Memory.Limiter.{decrease_usage, MemoryLimiter, increase_usage, increase_usage-le}
use lol_html.Parser.Directive.{RewritingError}
use lol_html.Prelude.{
  ℕ, List, ◌+◌, ◌-◌, ◌*◌, true, false, [], ap, ◌∷◌, ◌++◌, length, take, drop, ◌≡◌, refl, arith,
}
use lol_html.TransformStream.Buffering.{
  write_pending, write-write_pending, pending, limiter_at_parse,
}
use lol_html.TransformStream.Sharing.{IsSound, SharesLimiter}
use lol_html.TransformStream.Progress.{write-fits}
use lol_html.TransformStream.{ChunkParser, TransformStream, write, out_of_memory}

abbrev move_bytes : CopyOver
move_bytes bytes src_idx dest_idx len =
    take dest_idx bytes ++ take len (drop src_idx bytes) ++ drop (dest_idx + len) bytes

move_bytes-IsCopyOver : IsCopyOver move_bytes
move_bytes-IsCopyOver bytes src_idx dest_idx len le le' = refl

abbrev arena : Arena
arena = record { data_ = 1 ∷ 2 ∷ []; capacity = 3 }

abbrev limiter : MemoryLimiter
limiter = record { current_usage = 5; max = 100 }

arena-IsPaid : IsPaid arena limiter
arena-IsPaid = record { fits = omega arith; charged = omega arith; within = omega arith }

append-Appended_example :
    Appended
      (3 ∷ 4 ∷ [])
      arena
      limiter
      (record { data_ = 1 ∷ 2 ∷ 3 ∷ 4 ∷ []; capacity = 4 })
      (record { current_usage = 6; max = 100 })
unfolding append increase_usage checked_add ◌>>=◌
append-Appended_example = append-Appended (3 ∷ 4 ∷ []) arena limiter arena-IsPaid refl

shift-drop_example :
    shift move_bytes {E = RewritingError} 1 arena ≡ ok (record { data_ = 2 ∷ []; capacity = 3 })
shift-drop_example = shift-drop move_bytes move_bytes-IsCopyOver 1 arena (omega arith)

-- The parser's state counts the chunks, for each of which it charges four bytes.
abbrev leave_one : ChunkParser ℕ
leave_one = record {
  parse = λ chunk _ p l.
      map_err out_of_memory (increase_usage 4 l) >>= λ l'. ok (length chunk - 1, p + 1, l');
  flush_remaining_input = λ _ _ p l. ok (p, l);
  finish = λ _ p l. ok (p, l);
}

abbrev four_each : ℕ → ℕ
four_each p = 4 * p

leave_one-SharesLimiter : SharesLimiter four_each leave_one
unfolding ◌>>=◌
leave_one-SharesLimiter = record {
  parse_charges = λ chunk last p l e.
      let (l1, e1, e2) = bind-eq-ok (map_err out_of_memory (increase_usage 4 l)) _ e in
      let (same, le) = increase_usage-le 4 l (map_err-ok out_of_memory (increase_usage 4 l) e1) in
      let at = ok-injective e2 in
      rw (← ap (λ x. x.1) at, ← ap (λ x. x.2) at, same) (refl, (omega arith), (λ _. le));
  flush_charges = λ chunk n p l e.
      let at = ok-injective e in
      rw (← ap (λ x. x.0) at, ← ap (λ x. x.1) at) (refl, refl, (λ le. le));
}

-- One chunk was parsed, and two of its bytes wait.
abbrev waiting : TransformStream ℕ
waiting = record {
  parser = 1;
  buffer = arena;
  has_buffered_data = true;
  memory_limiter = record { current_usage = 7; max = 100 };
}

waiting-IsSound : IsSound four_each waiting
waiting-IsSound = record { fits = omega arith; charged = refl; within = omega arith }

-- `waiting` after two more bytes.
abbrev later : TransformStream ℕ
later = record {
  parser = 2;
  buffer = record { data_ = 4 ∷ []; capacity = 4 };
  has_buffered_data = true;
  memory_limiter = record { current_usage = 12; max = 100 };
}

write-write_pending_example :
    (limiter' : MemoryLimiter) × (write_pending leave_one
        (3 ∷ 4 ∷ [])
        (pending waiting)
        1
        (limiter_at_parse (3 ∷ 4 ∷ []) waiting)
      ≡ ok (4 ∷ [], 2, limiter'))
    × IsSound four_each later
unfolding write append increase_usage shift checked_add checked_sub ◌>>=◌
write-write_pending_example =
    write-write_pending move_bytes move_bytes-IsCopyOver four_each leave_one leave_one-SharesLimiter
      (3 ∷ 4 ∷ []) waiting waiting-IsSound refl

-- A stream of which nothing waits.
abbrev fresh : TransformStream ℕ
fresh = record waiting { has_buffered_data = false }

write-fits_example :
    (s' : TransformStream ℕ) × (write move_bytes leave_one (3 ∷ 4 ∷ []) fresh ≡ ok s')
unfolding increase_usage checked_add ◌>>=◌
write-fits_example =
    write-fits move_bytes move_bytes-IsCopyOver four_each leave_one (3 ∷ 4 ∷ []) fresh
      (record { fits = omega arith; charged = refl; within = omega arith }) (λ t. absurd cc) refl
      (λ _. ((omega arith), (omega arith)))

-- Three items of four bytes each beside 5 bytes of others.
abbrev items : List ℕ
items = 1 ∷ 2 ∷ 3 ∷ []

abbrev charged : MemoryLimiter
charged = record { current_usage = 17; max = 100 }

vec_push-Accounted_example :
    IsAccounted 4 5 (items ++ 9 ∷ []) (record { current_usage = 21; max = 100 })
unfolding vec_push increase_usage checked_add ◌>>=◌
vec_push-Accounted_example = vec_push-Accounted 4 5 9 items charged refl refl

vec_drain-Accounted_example :
    IsAccounted 4 5 (take 1 items) (record { current_usage = 9; max = 100 })
    × (take 1 items ++ ((2 ∷ 3 ∷ []) ++ drop 3 items) ≡ items)
    × (take 1 items ≡ take 1 items ++ drop 3 items)
unfolding vec_drain decrease_usage checked_sub ◌>>=◌
vec_drain-Accounted_example =
    vec_drain-Accounted 4 5 {E = RewritingError} 1 3 items charged refl refl

vec_drop-Accounted_example :
    vec_drop 4 {E = RewritingError} items charged ≡ ok (record { current_usage = 5; max = 100 })
vec_drop-Accounted_example = vec_drop-Accounted 4 5 items charged refl
