-- ===== src/TransformStream/Dispatcher/Chunks.antt =====
-- A whole chunk: the calls of the dispatcher as the parser makes them, and the flush at its end.
use mathlib.Core.Path.{subst}
use lol_html.Base.Bytes.Replacing.{concat}
use lol_html.Base.Outcome.{ok, err, ◌>>=◌}
use lol_html.Html.LocalName.{LocalName}
use lol_html.Html.TextType.{Namespace}
use lol_html.Parser.Directive.{ParserDirective, lex}
use lol_html.Parser.Outline.{Lexeme, TagLexeme, NonTagContentLexeme}
use lol_html.Prelude.{ℕ, ◌≤◌, ◌≡◌, refl, sym, false, List, ◌++◌, Option, some, take, length, arith}
use lol_html.RewritableUnits.Attributes.{Codec}
use lol_html.RewritableUnits.Tokens.Capturer.{Decoding, Fallible}
use lol_html.TransformStream.Dispatcher.PassingThrough.{
  Goes, Through, flush_remaining_input-Through,
}
use lol_html.TransformStream.Dispatcher.Tiling.{
  Quiet, IsTransparent, Awaited, Handled, handle_tag-Through, handle_non_tag_content-Through,
  flush_captured-none,
}
use lol_html.TransformStream.Dispatcher.Transparent.{TagLies, ContentLies, From}
use lol_html.TransformStream.Dispatcher.{
  StartTagHandlingResult, flags_, info_request, rewriting_error, TransformController, Dispatcher,
  flush_remaining_input, handle_tag, handle_non_tag_content, handle_start_tag_hint,
  handle_end_tag_hint, apply_capture_flags_from_hint_and_get_next_parser_directive,
}

Goes-ok : {A : Type 0} (P : A → Type 0) (m : Fallible A) {a : A} → Goes P m → m ≡ ok a → P a
Goes-ok P m h e = rw e at h

module _ {C D : Type 0} (controller : TransformController C) (decoding : Decoding D) (codec : Codec)
    (memchr : ℕ → List ℕ → Option ℕ) where
  -- The dispatchers that the parser's calls for a chunk lead to, with the end of the last lexeme. The
  -- lexemes come in order, their parts in the chunk; a tag hint may come at any time.
  pub data Reached (input : List ℕ) (start : Dispatcher C D) : Dispatcher C D → ℕ → Type 0 where
    begun : Reached input start start 0
    tag_ :
        (lexeme : TagLexeme) (d : Dispatcher C D) (position : ℕ) (d' : Dispatcher C D)
        (directive : ParserDirective)
        → Reached input start d position
        → lexeme.input ≡ input
        → From position lexeme
        → TagLies lexeme lexeme.token_outline
        → Awaited d.pending_element_aux_info_req lexeme.token_outline
        → handle_tag controller decoding codec memchr lexeme d ≡ ok (d', directive)
        → Reached input start d' lexeme.raw_range.end
    content_ :
        (lexeme : NonTagContentLexeme) (d : Dispatcher C D) (position : ℕ) (d' : Dispatcher C D)
        → Reached input start d position
        → lexeme.input ≡ input
        → From position lexeme
        → ContentLies lexeme lexeme.token_outline
        → handle_non_tag_content controller decoding codec memchr lexeme d ≡ ok d'
        → Reached input start d' lexeme.raw_range.end
    start_hint :
        (name : LocalName) (ns : Namespace) (d : Dispatcher C D) (position : ℕ)
        (d' : Dispatcher C D) (directive : ParserDirective)
        → Reached input start d position
        → handle_start_tag_hint controller decoding codec memchr name ns d ≡ ok (d', directive)
        → Reached input start d' position
    end_hint :
        (name : LocalName) (d : Dispatcher C D) (position : ℕ) (d' : Dispatcher C D)
        (directive : ParserDirective)
        → Reached input start d position
        → handle_end_tag_hint controller decoding codec memchr name d ≡ ok (d', directive)
        → Reached input start d' position

  module _ (transparent : IsTransparent controller) (before : List ℕ) where
    abbrev DealtWith : List ℕ → ℕ → Dispatcher C D → Type 0
    DealtWith input position d = Through before input d × (d.remaining_content_start ≤ position)

    start_hint-DealtWith :
        (input : List ℕ) (position : ℕ) (name : LocalName) (ns : Namespace) (d : Dispatcher C D)
        → DealtWith input position d
        → Goes
            (λ r. DealtWith input position r.0)
            (handle_start_tag_hint controller decoding codec memchr name ns d)
    unfolding handle_start_tag_hint apply_capture_flags_from_hint_and_get_next_parser_directive
    start_hint-DealtWith input position name ns d h =
        answered (controller.handle_start_tag name ns d.transform_controller)
          (transparent.starts name ns d.transform_controller)
      where
        answered :
            (r : StartTagHandlingResult C)
            → Quiet r
            → Goes
                (λ r. DealtWith input position r.0)
                (elim r [
                  | flags_ c flags ↦ ok (
                      apply_capture_flags_from_hint_and_get_next_parser_directive flags
                        (record d { transform_controller = c }))
                  | info_request c request ↦ ok (
                    record d {
                      transform_controller = c;
                      got_flags_from_hint = false;
                      pending_element_aux_info_req = some request;
                    },
                    lex,
                  )
                  | rewriting_error e ↦ err e
                ])
        answered (flags_ c flags) q = (
          record {
            written = h.0.written;
            within = h.0.within;
            enabled = h.0.enabled;
            no_decoder = h.0.no_decoder;
            no_text = q;
            quiet = h.0.quiet;
          },
          h.1,
        )
        answered (info_request c request) q = (
          record {
            written = h.0.written;
            within = h.0.within;
            enabled = h.0.enabled;
            no_decoder = h.0.no_decoder;
            no_text = h.0.no_text;
            quiet = q;
          },
          h.1,
        )
        answered (rewriting_error e) q = tt

    end_hint-DealtWith :
        (input : List ℕ) (position : ℕ) (name : LocalName) (d : Dispatcher C D)
        → DealtWith input position d
        → Goes
            (λ r. DealtWith input position r.0)
            (handle_end_tag_hint controller decoding codec memchr name d)
    unfolding handle_end_tag_hint apply_capture_flags_from_hint_and_get_next_parser_directive ◌>>=◌
    end_hint-DealtWith input position name d (h, le) =
        rw
          (
            flush_captured-none controller decoding codec memchr transparent d h.no_decoder,
            h.enabled,
          )
          (
            record {
              written = h.written;
              within = h.within;
              enabled = refl;
              no_decoder = h.no_decoder;
              no_text = transparent.ends name d.transform_controller;
              quiet = h.quiet;
            },
            le,
          )

    From-moved :
        {T : Type 0} (position : ℕ) (lexeme : Lexeme T) (input : List ℕ) (d : Dispatcher C D)
        → DealtWith input position d
        → From position lexeme
        → From d.remaining_content_start lexeme
    From-moved position lexeme input d (h, le) (a, b, c) = (omega (arith, le, a), b, c)

    tag-DealtWith :
        (input : List ℕ) (lexeme : TagLexeme) (d : Dispatcher C D) (position : ℕ)
        (d' : Dispatcher C D) (directive : ParserDirective)
        → lexeme.input ≡ input
        → DealtWith input position d
        → From position lexeme
        → TagLies lexeme lexeme.token_outline
        → Awaited d.pending_element_aux_info_req lexeme.token_outline
        → handle_tag controller decoding codec memchr lexeme d ≡ ok (d', directive)
        → DealtWith input lexeme.raw_range.end d'
    tag-DealtWith input lexeme d position d' directive same h from lies awaited runs =
        subst (λ i. DealtWith i lexeme.raw_range.end d') same
          (Goes-ok (Handled controller decoding codec memchr transparent before lexeme) _
            (handle_tag-Through controller decoding codec memchr transparent before lexeme d
              (subst (λ i. Through before i d) (sym same) h.0)
              (From-moved position lexeme input d h from) lies awaited)
            runs)

    content-DealtWith :
        (input : List ℕ) (lexeme : NonTagContentLexeme) (d : Dispatcher C D) (position : ℕ)
        (d' : Dispatcher C D)
        → lexeme.input ≡ input
        → DealtWith input position d
        → From position lexeme
        → ContentLies lexeme lexeme.token_outline
        → handle_non_tag_content controller decoding codec memchr lexeme d ≡ ok d'
        → DealtWith input lexeme.raw_range.end d'
    content-DealtWith input lexeme d position d' same h from lies runs =
        subst (λ i. DealtWith i lexeme.raw_range.end d') same
          (Goes-ok (DealtWith lexeme.input lexeme.raw_range.end) _
            (handle_non_tag_content-Through controller decoding codec memchr transparent before
              lexeme d (subst (λ i. Through before i d) (sym same) h.0)
              (From-moved position lexeme input d h from) lies)
            runs)

    Reached-DealtWith :
        (input : List ℕ) (start d : Dispatcher C D) (position : ℕ)
        → Through before input start
        → start.remaining_content_start ≡ 0
        → Reached input start d position
        → DealtWith input position d
    Reached-DealtWith input start d position h e begun = (h, omega arith)
    Reached-DealtWith input start d position h e
          (tag_ lexeme d₁ p d' directive r same from lies awaited runs) =
        tag-DealtWith input lexeme d₁ p d' directive same (Reached-DealtWith input start d₁ p h e r)
          from lies awaited runs
    Reached-DealtWith input start d position h e (content_ lexeme d₁ p d' r same from lies runs) =
        content-DealtWith input lexeme d₁ p d' same (Reached-DealtWith input start d₁ p h e r) from
          lies runs
    Reached-DealtWith input start d position h e (start_hint name ns d₁ p d' directive r runs) =
        Goes-ok (λ r. DealtWith input position r.0) _
          (start_hint-DealtWith input position name ns d₁
            (Reached-DealtWith input start d₁ position h e r))
          runs
    Reached-DealtWith input start d position h e (end_hint name d₁ p d' directive r runs) =
        Goes-ok (λ r. DealtWith input position r.0) _
          (end_hint-DealtWith input position name d₁
            (Reached-DealtWith input start d₁ position h e r))
          runs

    -- With a controller that changes nothing, does not ask for text and removes nothing, the output
    -- is the input: whatever calls the parser has made for a chunk, with its lexemes in order and
    -- their parts in the chunk, the flush of what it has consumed succeeds, and leaves as the output
    -- what came before this chunk and the consumed bytes, each once and in order. The chunk begins
    -- with nothing of it dealt with; no fewer bytes
    -- are consumed than the last lexeme's end, and no more than the chunk has.
    pub Reached-flush_remaining_input :
        (input : List ℕ) (start d : Dispatcher C D) (position consumed_byte_count : ℕ)
        → Through before input start
        → start.remaining_content_start ≡ 0
        → Reached input start d position
        → position ≤ consumed_byte_count
        → consumed_byte_count ≤ length input
        → (d' : Dispatcher C D) × (flush_remaining_input input consumed_byte_count d ≡ ok d')
          × (concat d'.output_sink ≡ before ++ take consumed_byte_count input)
          × (d'.remaining_content_start ≡ 0)
    Reached-flush_remaining_input input start d position n h e r le le' =
        let (through, within) = Reached-DealtWith input start d position h e r in
        flush_remaining_input-Through before input n d through (omega (arith, within, le)) le'
