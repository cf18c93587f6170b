-- ===== src/Tests/Dispatching.antt =====
-- A dispatcher over the chunk `<b>`, with a controller that counts the tokens and leaves them be.
use lol_html.Base.Bytes.Replacing.{concat}
use lol_html.Base.Outcome.{ok, ◌>>=◌}
use lol_html.Base.Range.{slice}
use lol_html.Html.LocalName.{new_name}
use lol_html.Html.TextType.{html, data_}
use lol_html.Parser.Directive.{where_possible_scan_for_tags_only}
use lol_html.Parser.Outline.{TagLexeme, start_tag}
use lol_html.Prelude.{ℕ, ◌+◌, ◌≡◌, refl, true, false, List, [], ◌∷◌, Option, none, some, arith}
use lol_html.RewritableUnits.Attributes.{Codec, init_items}
use lol_html.RewritableUnits.Tokens.Capturer.{
  Decoding, flush_pending_text, flush_pending, tag_to_token, feed, raw, part_of, has_captures,
}
use lol_html.RewritableUnits.Mutations.{new_mutations, to_bytes}
use lol_html.RewritableUnits.Tokens.{new_start_tag, token_to_bytes}
use lol_html.Rewriter.HandlersDispatcher.{TokenCaptureFlags}
use lol_html.TransformStream.Dispatcher.Chunks.{Reached, begun, tag_, Reached-flush_remaining_input}
use lol_html.TransformStream.Dispatcher.PassingThrough.{Goes, Through}
use lol_html.TransformStream.Dispatcher.Tiling.{IsTransparent, Handled, handle_tag-Through}
use lol_html.TransformStream.Dispatcher.{
  TransformController, Dispatcher, flags_, flush_pending_captured_text,
  adjust_capture_flags_for_tag_lexeme, try_produce_token_from_lexeme, on_event, output_token,
  handle_tag, flush_remaining_input,
}

abbrev no_flags : TokenCaptureFlags
no_flags = record {
  text = false;
  comments = false;
  next_start_tag = false;
  next_end_tag = false;
  doctypes = false;
}

-- The next start tag is asked for.
abbrev counting : TransformController ℕ
counting = record {
  initial_capture_flags = λ _. no_flags;
  handle_start_tag = λ _ _ c. flags_ c (record no_flags { next_start_tag = true });
  handle_end_tag = λ _ c. (c, no_flags);
  handle_token = λ t c. ok (c + 1, t);
  handle_end = λ c. ok (c, []);
  should_emit_content = λ _. true;
}

counting-IsTransparent : IsTransparent counting
counting-IsTransparent = record {
  leaves = λ t c. refl;
  emits = λ c. refl;
  starts = λ name ns c. refl;
  ends = λ name c. refl;
}

abbrev at_once : Decoding ℕ
at_once = record {
  new_decoder = 0;
  decode_to_str = λ raw last d. record { input_empty = true; read = 0; written = raw; decoder = d };
}

abbrev plain : Codec
plain = record { encode = λ s. s; encode_exact = λ s. some s; decode = λ s. s }

abbrev no_memchr : ℕ → List ℕ → Option ℕ
no_memchr b bs = none

-- x<b>
abbrev chunk : List ℕ
chunk = b'x' ∷ b'<' ∷ b'b' ∷ b'>' ∷ []

abbrev tag : TagLexeme
tag = record {
  input = chunk;
  raw_range = record { start = 1; end = 4 };
  token_outline = start_tag (record {
    name = record { start = 2; end = 3 };
    name_hash = some 7;
    ns = html;
    self_closing = false;
  });
  attributes = [];
}

-- After the output of an earlier chunk.
abbrev dispatcher : Dispatcher ℕ ℕ
dispatcher = record {
  transform_controller = 0;
  output_sink = (9 ∷ []) ∷ [];
  remaining_content_start = 0;
  token_capturer = record {
    text_decoder = record { pending_text_streaming_decoder = none; last_text_type = data_ };
    capture_flags = no_flags;
  };
  got_flags_from_hint = false;
  pending_element_aux_info_req = none;
  emission_enabled = true;
}

dispatcher-Through : Through (9 ∷ []) chunk dispatcher
unfolding concat
dispatcher-Through = record {
  written = refl;
  within = omega arith;
  enabled = refl;
  no_decoder = refl;
  no_text = refl;
  quiet = tt;
}

abbrev after : Dispatcher ℕ ℕ
after = record dispatcher {
  transform_controller = 1;
  output_sink = (9 ∷ []) ∷ (b'x' ∷ []) ∷ (b'<' ∷ b'b' ∷ b'>' ∷ []) ∷ [];
  remaining_content_start = 4;
}

handle_tag_runs :
    handle_tag counting at_once plain no_memchr tag dispatcher
    ≡ ok (after, where_possible_scan_for_tags_only)
unfolding handle_tag flush_pending_captured_text flush_pending_text flush_pending
    adjust_capture_flags_for_tag_lexeme try_produce_token_from_lexeme tag_to_token feed on_event
    output_token raw part_of slice new_name init_items new_start_tag new_mutations token_to_bytes
    to_bytes has_captures ◌>>=◌
handle_tag_runs = refl

handle_tag-Through_example :
    Goes
      (Handled counting at_once plain no_memchr counting-IsTransparent (9 ∷ []) tag)
      (handle_tag counting at_once plain no_memchr tag dispatcher)
unfolding slice init_items ◌>>=◌
handle_tag-Through_example =
    handle_tag-Through counting at_once plain no_memchr counting-IsTransparent (9 ∷ []) tag
      dispatcher dispatcher-Through (omega arith, omega arith, omega arith)
      ((b'b' ∷ [], refl), ([], refl)) tt

reached : Reached counting at_once plain no_memchr chunk dispatcher after 4
unfolding slice init_items ◌>>=◌
reached =
    tag_ tag dispatcher 0 after where_possible_scan_for_tags_only begun refl
      (omega arith, omega arith, omega arith) ((b'b' ∷ [], refl), ([], refl)) tt handle_tag_runs

Reached-flush_remaining_input_example :
    (d' : Dispatcher ℕ ℕ) × (flush_remaining_input chunk 4 after ≡ ok d')
    × (concat d'.output_sink ≡ 9 ∷ b'x' ∷ b'<' ∷ b'b' ∷ b'>' ∷ [])
    × (d'.remaining_content_start ≡ 0)
Reached-flush_remaining_input_example =
    Reached-flush_remaining_input counting at_once plain no_memchr counting-IsTransparent (9 ∷ [])
      chunk dispatcher after 4 4 dispatcher-Through refl reached (omega arith) (omega arith)
