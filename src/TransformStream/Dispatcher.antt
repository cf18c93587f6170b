-- ===== src/TransformStream/Dispatcher.antt =====
-- src/transform_stream/dispatcher.rs: which bytes of a chunk go to the output unchanged, which as
-- tokens that the controller has seen, and which are removed. `C` is the controller's state, `D` that
-- of a streaming decoder; the output sink is the list of the chunks that it got.
pub mod PassingThrough
pub mod Transparent
pub mod Tiling
pub mod Chunks
use lol_html.Base.Outcome.{Outcome, ok, err, panic, ◌>>=◌, expect}
use lol_html.Base.Range.{Range, slice}
use lol_html.Html.LocalName.{LocalName, new_name}
use lol_html.Html.TextType.{Namespace}
use lol_html.Parser.Directive.{
  RewritingError, ParserDirective, where_possible_scan_for_tags_only, lex,
}
use lol_html.Parser.Outline.{
  Lexeme, TagLexeme, NonTagContentLexeme, TagTokenOutline, start_tag, end_tag,
}
use lol_html.Prelude.{
  ℕ, Bool, true, false, not, ◌&&◌, List, [], ◌∷◌, ◌++◌, Option, none, some, length, if◌then◌else◌,
}
use lol_html.RewritableUnits.Attributes.{Codec}
use lol_html.RewritableUnits.Tokens.Capturer.{
  Decoding, TokenCapturer, TokenCapturerEvent, lexeme_consumed, token_produced, ToTokenResult,
  Fallible, raw, tag_to_token, non_tag_to_token, has_captures, new_capturer, flush_pending_text,
  feed,
}
use lol_html.RewritableUnits.Tokens.{Token, token_to_bytes}
use lol_html.Rewriter.HandlersDispatcher.{TokenCaptureFlags}
use lol_html.Selectors.Machine.{AuxStartTagInfo}

abbrev pub AuxStartTagInfoRequest : Type 0 → Type 0
AuxStartTagInfoRequest C = C → AuxStartTagInfo → Fallible (C × TokenCaptureFlags)

-- `StartTagHandlingResult`, with the controller after the call.
pub data StartTagHandlingResult (C : Type 0) : Type 0 where
  flags_ : C → TokenCaptureFlags → StartTagHandlingResult C
  info_request : C → AuxStartTagInfoRequest C → StartTagHandlingResult C
  rewriting_error : RewritingError → StartTagHandlingResult C

-- `handle_end` gives the chunks that it appends to the document.
pub record TransformController (C : Type 0) : Type 0 where
  pub initial_capture_flags : C → TokenCaptureFlags
  pub handle_start_tag : LocalName → Namespace → C → StartTagHandlingResult C
  pub handle_end_tag : LocalName → C → C × TokenCaptureFlags
  pub handle_token : Token → C → Fallible (C × Token)
  pub handle_end : C → Fallible (C × List (List ℕ))
  pub should_emit_content : C → Bool

pub record Dispatcher (C D : Type 0) : Type 0 where
  pub transform_controller : C
  pub output_sink : List (List ℕ)
  pub remaining_content_start : ℕ
  pub token_capturer : TokenCapturer D
  pub got_flags_from_hint : Bool
  pub pending_element_aux_info_req : Option (AuxStartTagInfoRequest C)
  pub emission_enabled : Bool

-- What the handlers of the capturer's events change: the controller, the output, and whether the
-- lexeme was consumed.
pub record Handling (C : Type 0) : Type 0 where
  pub transform_controller : C
  pub output_sink : List (List ℕ)
  pub lexeme_consumed : Bool

-- A chunk for the output, if it is not empty.
abbrev pub emit_chunk : Bool → List ℕ → List (List ℕ) → List (List ℕ)
emit_chunk false chunk output = output
emit_chunk true [] output = output
emit_chunk true (b ∷ bs) output = output ++ (b ∷ bs) ∷ []

unfoldable pub flush_remaining_input :
    {C D : Type 0} → List ℕ → ℕ → Dispatcher C D → Fallible (Dispatcher C D)
flush_remaining_input input consumed_byte_count d =
    expect (slice input (record { start = d.remaining_content_start; end = consumed_byte_count }))
    >>= λ chunk. ok (record d {
      output_sink = emit_chunk d.emission_enabled chunk d.output_sink;
      remaining_content_start = 0;
    })

abbrev pub set_capture_flags : {C D : Type 0} → TokenCaptureFlags → Dispatcher C D → Dispatcher C D
set_capture_flags flags d = record d {
  token_capturer = record d.token_capturer { capture_flags = flags };
}

abbrev pub get_next_parser_directive : {C D : Type 0} → Dispatcher C D → ParserDirective
get_next_parser_directive d =
    if has_captures d.token_capturer.capture_flags then lex else where_possible_scan_for_tags_only

-- A hint's flags.
unfoldable pub apply_capture_flags_from_hint_and_get_next_parser_directive :
    {C D : Type 0} → TokenCaptureFlags → Dispatcher C D → Dispatcher C D × ParserDirective
unfolding has_captures
apply_capture_flags_from_hint_and_get_next_parser_directive flags d =
    let d' = record (set_capture_flags flags d) { got_flags_from_hint = true } in
    (d', get_next_parser_directive d')

module _ {C D : Type 0} (controller : TransformController C) (decoding : Decoding D) (codec : Codec)
    (memchr : ℕ → List ℕ → Option ℕ) where
  unfoldable pub new_dispatcher : C → Dispatcher C D
  unfolding new_capturer
  new_dispatcher c = record {
    transform_controller = c;
    output_sink = [];
    remaining_content_start = 0;
    token_capturer = new_capturer (controller.initial_capture_flags c);
    got_flags_from_hint = false;
    pending_element_aux_info_req = none;
    emission_enabled = true;
  }

  unfoldable pub finish : List ℕ → Dispatcher C D → Fallible (Dispatcher C D)
  unfolding flush_remaining_input
  finish input d = flush_remaining_input input (length input) d >>= λ d'.
      controller.handle_end d'.transform_controller >>= λ (c, appended). ok (record d' {
        transform_controller = c;
        output_sink = d'.output_sink ++ (appended ++ [] ∷ []);
      })

  -- A token for the controller, and then for the output.
  unfoldable pub output_token : Bool → Token → Handling C → Fallible (Handling C)
  output_token emission_enabled t w =
      controller.handle_token t w.transform_controller >>= λ (c, t').
      (if emission_enabled
        then (expect (token_to_bytes codec memchr t') >>= λ chunks. ok (w.output_sink ++ chunks))
        else ok w.output_sink)
      >>= λ output. ok (record w { transform_controller = c; output_sink = output })

  -- The handler of `try_produce_token_from_lexeme`. `before` is the slice of the input from the
  -- remaining content to the lexeme.
  unfoldable pub on_event :
      Bool → Fallible (List ℕ) → TokenCapturerEvent → Handling C → Fallible (Handling C)
  unfolding output_token
  on_event emission_enabled before lexeme_consumed w = before >>= λ chunk. ok (record w {
    output_sink = emit_chunk emission_enabled chunk w.output_sink;
    lexeme_consumed = true;
  })
  on_event emission_enabled before (token_produced t) w = output_token emission_enabled t w

  -- The handler of `flush_pending_captured_text`.
  unfoldable pub on_text : Bool → TokenCapturerEvent → Handling C → Fallible (Handling C)
  unfolding output_token
  on_text emission_enabled lexeme_consumed w = ok w
  on_text emission_enabled (token_produced t) w = output_token emission_enabled t w

  abbrev pub handling_of : Dispatcher C D → Handling C
  handling_of d = record {
    transform_controller = d.transform_controller;
    output_sink = d.output_sink;
    lexeme_consumed = false;
  }

  abbrev pub handled : ℕ → TokenCapturer D → Handling C → Dispatcher C D → Dispatcher C D
  handled end capturer w d = record d {
    transform_controller = w.transform_controller;
    output_sink = w.output_sink;
    token_capturer = capturer;
    remaining_content_start = if w.lexeme_consumed then end else d.remaining_content_start;
  }

  -- `try_produce_token_from_lexeme`, for a lexeme and what `to_token` makes of it with the flags.
  unfoldable pub try_produce_token_from_lexeme :
      {T : Type 0}
      → Lexeme T
      → (TokenCaptureFlags → Fallible (ToTokenResult × TokenCaptureFlags))
      → Dispatcher C D
      → Fallible (Dispatcher C D)
  unfolding on_event feed raw
  try_produce_token_from_lexeme lexeme to_token d =
      to_token d.token_capturer.capture_flags >>= λ (result, flags).
      feed decoding
        (on_event d.emission_enabled (
          expect (
            slice lexeme.input
              (record { start = d.remaining_content_start; end = lexeme.raw_range.start }))))
        (raw lexeme) result (record d.token_capturer { capture_flags = flags }) (handling_of d)
      >>= λ (capturer, w). ok (handled lexeme.raw_range.end capturer w d)

  unfoldable pub flush_pending_captured_text : Dispatcher C D → Fallible (Dispatcher C D)
  unfolding on_text flush_pending_text
  flush_pending_captured_text d =
      flush_pending_text decoding (on_text d.emission_enabled) d.token_capturer (handling_of d)
      >>= λ (capturer, w). ok (record d {
        transform_controller = w.transform_controller;
        output_sink = w.output_sink;
        token_capturer = capturer;
      })

  abbrev pub aux_info : TagLexeme → Bool → AuxStartTagInfo
  aux_info lexeme self_closing = record {
    input = lexeme.input;
    attr_buffer = lexeme.attributes;
    self_closing = self_closing;
  }

  -- The flags for a start tag, where the answer to a call may be a request.
  abbrev pub answer_request :
      StartTagHandlingResult C → AuxStartTagInfo → Fallible (C × TokenCaptureFlags)
  answer_request (flags_ c flags) info = ok (c, flags)
  answer_request (info_request c request) info = request c info
  answer_request (rewriting_error e) info = err e

  abbrev pub flags_of_tag :
      TagLexeme
      → TagTokenOutline
      → Option (AuxStartTagInfoRequest C)
      → C
      → Fallible (C × TokenCaptureFlags)
  flags_of_tag lexeme (start_tag t) (some request) c = request c (aux_info lexeme t.self_closing)
  flags_of_tag lexeme (end_tag t) (some request) c = panic
  flags_of_tag lexeme (start_tag t) none c =
      expect (new_name lexeme.input t.name t.name_hash) >>= λ name.
      answer_request (controller.handle_start_tag name t.ns c) (aux_info lexeme t.self_closing)
  flags_of_tag lexeme (end_tag t) none c =
      expect (new_name lexeme.input t.name t.name_hash) >>= λ name.
      ok (controller.handle_end_tag name c)

  unfoldable pub adjust_capture_flags_for_tag_lexeme :
      TagLexeme → Dispatcher C D → Fallible (Dispatcher C D)
  adjust_capture_flags_for_tag_lexeme lexeme d =
      flags_of_tag lexeme lexeme.token_outline d.pending_element_aux_info_req d.transform_controller
      >>= λ (c, flags). ok (
          set_capture_flags flags
            (record d { transform_controller = c; pending_element_aux_info_req = none }))

  abbrev pub should_stop_removing_element_content : Dispatcher C D → Bool
  should_stop_removing_element_content d =
      not d.emission_enabled && controller.should_emit_content d.transform_controller

  abbrev pub stop_removing : TagLexeme → TagTokenOutline → Dispatcher C D → Dispatcher C D
  stop_removing lexeme (start_tag t) d = d
  stop_removing lexeme (end_tag t) d =
      if should_stop_removing_element_content d
      then record d { emission_enabled = true; remaining_content_start = lexeme.raw_range.start }
      else d

  unfoldable pub handle_tag :
      TagLexeme → Dispatcher C D → Fallible (Dispatcher C D × ParserDirective)
  unfolding flush_pending_captured_text adjust_capture_flags_for_tag_lexeme
      try_produce_token_from_lexeme has_captures
  handle_tag lexeme d = flush_pending_captured_text d >>= λ d₁.
      (if d₁.got_flags_from_hint
        then ok (record d₁ { got_flags_from_hint = false })
        else adjust_capture_flags_for_tag_lexeme lexeme d₁)
      >>= λ d₂.
          try_produce_token_from_lexeme lexeme (tag_to_token lexeme lexeme.token_outline)
            (stop_removing lexeme lexeme.token_outline d₂)
          >>= λ d₃.
              let d₄ = record d₃ {
                emission_enabled = controller.should_emit_content d₃.transform_controller;
              } in
              ok (d₄, get_next_parser_directive d₄)

  unfoldable pub handle_non_tag_content :
      NonTagContentLexeme → Dispatcher C D → Fallible (Dispatcher C D)
  unfolding try_produce_token_from_lexeme
  handle_non_tag_content lexeme d =
      try_produce_token_from_lexeme lexeme (non_tag_to_token lexeme lexeme.token_outline) d

  unfoldable pub handle_start_tag_hint :
      LocalName → Namespace → Dispatcher C D → Fallible (Dispatcher C D × ParserDirective)
  unfolding apply_capture_flags_from_hint_and_get_next_parser_directive
  handle_start_tag_hint name ns d =
      elim (controller.handle_start_tag name ns d.transform_controller) [
        | flags_ c flags ↦ ok (
            apply_capture_flags_from_hint_and_get_next_parser_directive flags
              (record d { transform_controller = c }))
        | info_request c request ↦ ok (
          record d {
            transform_controller = c;
            got_flags_from_hint = false;
            pending_element_aux_info_req = some request;
          },
          lex,
        )
        | rewriting_error e ↦ err e
      ]

  unfoldable pub handle_end_tag_hint :
      LocalName → Dispatcher C D → Fallible (Dispatcher C D × ParserDirective)
  unfolding flush_pending_captured_text apply_capture_flags_from_hint_and_get_next_parser_directive
  handle_end_tag_hint name d = flush_pending_captured_text d >>= λ d₁.
      let (c, flags) = controller.handle_end_tag name d₁.transform_controller in
      let d₂ = record d₁ { transform_controller = c } in
      ok (
        apply_capture_flags_from_hint_and_get_next_parser_directive
          (if should_stop_removing_element_content d₂
            then record flags { next_end_tag = true }
            else flags)
          d₂)
