-- ===== src/TransformStream/Dispatcher/Tiling.antt =====
-- The handlers of the dispatcher one after the other: what they leave out of the output.

use lol_html.Base.Outcome.{ok, ◌>>=◌, Safely-bind, Safely-if}
use lol_html.Base.Range.{Range}
use lol_html.Html.LocalName.{LocalName, LocalNameHash, new_name, hash, bytes}
use lol_html.Html.TextType.{Namespace}
use lol_html.Parser.Directive.{ParserDirective}
use lol_html.Parser.Outline.{TagLexeme, NonTagContentLexeme, TagTokenOutline, start_tag, end_tag}
use lol_html.Prelude.{
  ℕ, ◌≤◌, ◌≡◌, refl, true, false, List, Option, none, some, if◌then◌else◌, arith,
}
use lol_html.RewritableUnits.Attributes.{Codec}
use lol_html.RewritableUnits.Tokens.Capturer.{Decoding, Fallible, tag_to_token, non_tag_to_token}
use lol_html.RewritableUnits.Tokens.{Token}
use lol_html.Rewriter.HandlersDispatcher.{TokenCaptureFlags}
use lol_html.Selectors.Machine.{AuxStartTagInfo}
use lol_html.TransformStream.Dispatcher.PassingThrough.{
  Goes, Through, QuietRequest, QuietIfAny, produce-Through, flush_pending_text-none,
}
use lol_html.TransformStream.Dispatcher.Transparent.{
  Lies, TagLies, ContentLies, From, tag_to_token-Made, non_tag_to_token-Made,
}
use lol_html.TransformStream.Dispatcher.{
  AuxStartTagInfoRequest, StartTagHandlingResult, flags_, info_request, rewriting_error,
  TransformController, Dispatcher, answer_request, flags_of_tag,
  adjust_capture_flags_for_tag_lexeme, stop_removing, try_produce_token_from_lexeme,
  flush_pending_captured_text, handle_tag, handle_non_tag_content, get_next_parser_directive,
}

module _ {C : Type 0} where
  abbrev pub Quiet : StartTagHandlingResult C → Type 0
  Quiet (flags_ c flags) = flags.text ≡ false
  Quiet (info_request c request) = QuietRequest request
  Quiet (rewriting_error e) = Unit

  -- A controller whose handlers leave every token as it is, that never asks for text, and that
  -- removes no content. Its handlers may fail.
  pub record IsTransparent (controller : TransformController C) : Type 0 where
    pub leaves :
        (t : Token) (c : C) → Goes (λ (r : C × Token). r.1 ≡ t) (controller.handle_token t c)
    pub emits : (c : C) → controller.should_emit_content c ≡ true
    pub starts :
        (name : LocalName) (ns : Namespace) (c : C) → Quiet (controller.handle_start_tag name ns c)
    pub ends : (name : LocalName) (c : C) → (controller.handle_end_tag name c).1.text ≡ false

  -- A request waits for a start tag.
  abbrev pub Awaited : Option (AuxStartTagInfoRequest C) → TagTokenOutline → Type 0
  Awaited none outline = Unit
  Awaited (some request) (start_tag t) = Unit
  Awaited (some request) (end_tag t) = ⊥

new_name-some :
    (input : List ℕ) (range : Range) (h : LocalNameHash)
    → Lies input range
    → (name : LocalName) × (new_name input range h ≡ some name)
unfolding new_name
new_name-some input range none (part, e) = (bytes part, rw e refl)
new_name-some input range (some h) lies = (hash (some h), refl)

module _ {C D : Type 0} (controller : TransformController C) (decoding : Decoding D) (codec : Codec)
    (memchr : ℕ → List ℕ → Option ℕ) (transparent : IsTransparent controller) where
  answer_request-Quiet :
      (r : StartTagHandlingResult C) (info : AuxStartTagInfo)
      → Quiet r
      → Goes (λ r. r.1.text ≡ false) (answer_request controller decoding codec memchr r info)
  answer_request-Quiet (flags_ c flags) info q = q
  answer_request-Quiet (info_request c request) info q = q c info
  answer_request-Quiet (rewriting_error e) info q = tt

  flags_of_tag-Quiet :
      (lexeme : TagLexeme) (outline : TagTokenOutline) (pending : Option (AuxStartTagInfoRequest C))
      (c : C)
      → TagLies lexeme outline
      → Awaited pending outline
      → QuietIfAny pending
      → Goes
          (λ r. r.1.text ≡ false)
          (flags_of_tag controller decoding codec memchr lexeme outline pending c)
  unfolding ◌>>=◌
  flags_of_tag-Quiet lexeme (start_tag t) (some request) c lies awaited q = q c _
  flags_of_tag-Quiet lexeme (end_tag t) (some request) c lies awaited q = awaited
  flags_of_tag-Quiet lexeme (start_tag t) none c (lies, _) awaited q =
      let (name, e) = new_name-some lexeme.input t.name t.name_hash lies in
      rw e (
        answer_request-Quiet (controller.handle_start_tag name t.ns c) _
          (transparent.starts name t.ns c))
  flags_of_tag-Quiet lexeme (end_tag t) none c lies awaited q =
      let (name, e) = new_name-some lexeme.input t.name t.name_hash lies in
      rw e (transparent.ends name c)

  pub flush_captured-none :
      (d : Dispatcher C D)
      → d.token_capturer.text_decoder.pending_text_streaming_decoder ≡ none
      → flush_pending_captured_text controller decoding codec memchr d ≡ ok d
  unfolding flush_pending_captured_text ◌>>=◌
  flush_captured-none d e = rw (flush_pending_text-none decoding _ d.token_capturer _ e) refl

  stop_removing-enabled :
      (lexeme : TagLexeme) (outline : TagTokenOutline) (d : Dispatcher C D)
      → d.emission_enabled ≡ true
      → stop_removing controller decoding codec memchr lexeme outline d ≡ d
  stop_removing-enabled lexeme (start_tag t) d e = refl
  stop_removing-enabled lexeme (end_tag t) d e = rw e refl

  -- The flags of a tag are fetched.
  abbrev Adjusted : List ℕ → List ℕ → Dispatcher C D → Dispatcher C D → Type 0
  Adjusted before input d d' =
      Through before input d' × (d'.remaining_content_start ≡ d.remaining_content_start)

  adjust-Adjusted :
      (before : List ℕ) (lexeme : TagLexeme) (d : Dispatcher C D)
      → Through before lexeme.input d
      → TagLies lexeme lexeme.token_outline
      → Awaited d.pending_element_aux_info_req lexeme.token_outline
      → Goes
          (Adjusted before lexeme.input d)
          (adjust_capture_flags_for_tag_lexeme controller decoding codec memchr lexeme d)
  unfolding adjust_capture_flags_for_tag_lexeme
  adjust-Adjusted before lexeme d h lies awaited =
      Safely-bind (λ (r : C × TokenCaptureFlags). r.1.text ≡ false) _ _ _ _
        (flags_of_tag-Quiet lexeme lexeme.token_outline d.pending_element_aux_info_req
          d.transform_controller lies awaited h.quiet)
        (λ r no_text. (
          record {
            written = h.written;
            within = h.within;
            enabled = h.enabled;
            no_decoder = h.no_decoder;
            no_text = no_text;
            quiet = tt;
          },
          refl,
        ))

  flags-Adjusted :
      (before : List ℕ) (lexeme : TagLexeme) (d : Dispatcher C D)
      → Through before lexeme.input d
      → TagLies lexeme lexeme.token_outline
      → Awaited d.pending_element_aux_info_req lexeme.token_outline
      → Goes (Adjusted before lexeme.input d) (
          if d.got_flags_from_hint
          then ok (record d { got_flags_from_hint = false })
          else adjust_capture_flags_for_tag_lexeme controller decoding codec memchr lexeme d)
  flags-Adjusted before lexeme d h lies awaited =
      Safely-if (Adjusted before lexeme.input d) _ d.got_flags_from_hint
        (ok (record d { got_flags_from_hint = false })) _
        (λ _. (
          record {
            written = h.written;
            within = h.within;
            enabled = h.enabled;
            no_decoder = h.no_decoder;
            no_text = h.no_text;
            quiet = h.quiet;
          },
          refl,
        ))
        (λ _. adjust-Adjusted before lexeme d h lies awaited)

  -- What handle_tag does once it has the flags.
  abbrev with_flags : TagLexeme → Dispatcher C D → Fallible (Dispatcher C D × ParserDirective)
  with_flags lexeme d =
      try_produce_token_from_lexeme controller decoding codec memchr lexeme
        (tag_to_token lexeme lexeme.token_outline)
        (stop_removing controller decoding codec memchr lexeme lexeme.token_outline d)
      >>= λ d'.
          let d'' = record d' {
            emission_enabled = controller.should_emit_content d'.transform_controller;
          } in
          ok (d'', get_next_parser_directive d'')

  abbrev pub Handled : List ℕ → TagLexeme → Dispatcher C D × ParserDirective → Type 0
  Handled before lexeme r =
      Through before lexeme.input r.0 × (r.0.remaining_content_start ≤ lexeme.raw_range.end)

  with_flags-Handled :
      (before : List ℕ) (lexeme : TagLexeme) (d : Dispatcher C D)
      → Through before lexeme.input d
      → From d.remaining_content_start lexeme
      → TagLies lexeme lexeme.token_outline
      → Goes (Handled before lexeme) (with_flags lexeme d)
  with_flags-Handled before lexeme d h (le, le', le'') lies =
      rw (stop_removing-enabled lexeme lexeme.token_outline d h.enabled) (
        Safely-bind
          (λ d'.
            Through before lexeme.input d' × (d'.remaining_content_start ≤ lexeme.raw_range.end))
          (Handled before lexeme) _
          (try_produce_token_from_lexeme controller decoding codec memchr lexeme
            (tag_to_token lexeme lexeme.token_outline) d)
          _
          (produce-Through controller decoding codec memchr lexeme
            (tag_to_token lexeme lexeme.token_outline) before d transparent.leaves h le le' le''
            (tag_to_token-Made codec memchr lexeme lexeme.token_outline
              d.token_capturer.capture_flags lies le' le'' h.no_text))
          (λ d' (h', le'''). (
            record {
              written = h'.written;
              within = h'.within;
              enabled = transparent.emits d'.transform_controller;
              no_decoder = h'.no_decoder;
              no_text = h'.no_text;
              quiet = h'.quiet;
            },
            le''',
          )))

  -- Where the controller changes nothing, does not ask for text and removes nothing, a tag whose parts
  -- lie in the input, behind what is dealt with, is handled without a panic. A request that waits is
  -- to wait for a start tag. Unless a handler fails, the output is again what came before this chunk
  -- and the chunk as far as it is dealt with, which is not farther than the tag's end.
  pub handle_tag-Through :
      (before : List ℕ) (lexeme : TagLexeme) (d : Dispatcher C D)
      → Through before lexeme.input d
      → From d.remaining_content_start lexeme
      → TagLies lexeme lexeme.token_outline
      → Awaited d.pending_element_aux_info_req lexeme.token_outline
      → Goes (Handled before lexeme) (handle_tag controller decoding codec memchr lexeme d)
  unfolding handle_tag ◌>>=◌
  handle_tag-Through before lexeme d h (le, le', le'') lies awaited =
      rw (flush_captured-none d h.no_decoder) (
        Safely-bind (Adjusted before lexeme.input d) (Handled before lexeme) _ _ (with_flags lexeme)
          (flags-Adjusted before lexeme d h lies awaited)
          (λ d₂ (h₂, same).
            with_flags-Handled before lexeme d₂ h₂ (omega (arith, same, le), le', le'') lies))

  pub handle_non_tag_content-Through :
      (before : List ℕ) (lexeme : NonTagContentLexeme) (d : Dispatcher C D)
      → Through before lexeme.input d
      → From d.remaining_content_start lexeme
      → ContentLies lexeme lexeme.token_outline
      → Goes
          (λ d'.
            Through before lexeme.input d' × (d'.remaining_content_start ≤ lexeme.raw_range.end))
          (handle_non_tag_content controller decoding codec memchr lexeme d)
  unfolding handle_non_tag_content
  handle_non_tag_content-Through before lexeme d h (le, le', le'') lies =
      produce-Through controller decoding codec memchr lexeme
        (non_tag_to_token lexeme lexeme.token_outline) before d transparent.leaves h le le' le''
        (non_tag_to_token-Made codec memchr lexeme lexeme.token_outline
          d.token_capturer.capture_flags lies le' le'' h.no_text)
