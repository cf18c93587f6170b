-- ===== src/TransformStream/Dispatcher/PassingThrough.antt =====
-- A controller that changes nothing: the dispatcher's output is its input.
use mathlib.Core.List.{append_assoc, append-nil}
use lol_html.Base.Bytes.Replacing.{concat}
use lol_html.Base.Outcome.{ok, ◌>>=◌, Safely, Safely-bind}
use lol_html.Base.Range.{slice}
use lol_html.Parser.Outline.{Lexeme}
use lol_html.Prelude.{
  ℕ, zero, suc, ◌-◌, ◌≤◌, ◌≡◌, refl, sym, ap, ◌∙◌, true, false, List, [], ◌∷◌, ◌++◌, Option, none,
  some, ◌⊎◌, inl, inr, take, drop, length, leb, arith,
}
use lol_html.RewritableUnits.Attributes.{Codec}
use lol_html.RewritableUnits.Mutations.Serialising.{concat-append}
use lol_html.RewritableUnits.Tokens.Capturer.{
  Decoding, TokenCapturer, TokenCapturerEvent, ToTokenResult, token, text_, none_, Fallible, raw,
  flush_pending, flush_pending_text, feed,
}
use lol_html.RewritableUnits.Tokens.{Token, token_to_bytes}
use lol_html.Rewriter.HandlersDispatcher.{TokenCaptureFlags}
use lol_html.Selectors.Machine.{AuxStartTagInfo}
use lol_html.TransformStream.Dispatcher.{
  AuxStartTagInfoRequest, TransformController, Dispatcher, Handling, emit_chunk,
  flush_remaining_input, output_token, on_event, handling_of, handled,
  try_produce_token_from_lexeme,
}

take-slice : (a b : ℕ) (xs : List ℕ) → a ≤ b → take a xs ++ take (b - a) (drop a xs) ≡ take b xs
take-slice zero b xs le = let e : b - 0 ≡ b = omega arith in rw e refl
take-slice (suc a) zero xs le = absurd (omega arith)
take-slice (suc a) (suc b) [] le = take-nil (suc b - suc a)
  where
    take-nil : (n : ℕ) → take {A = ℕ} n [] ≡ []
    take-nil zero = refl
    take-nil (suc n) = refl
take-slice (suc a) (suc b) (x ∷ xs) le =
    let e : suc b - suc a ≡ b - a = omega arith in
    rw e (ap (λ t. x ∷ t) (take-slice a b xs (omega arith)))

pub slice-take :
    (bytes : List ℕ) (a b : ℕ)
    → a ≤ b
    → b ≤ length bytes
    → slice bytes (record { start = a; end = b }) ≡ some (take (b - a) (drop a bytes))
unfolding slice
slice-take bytes a b le le' =
    let t : leb a b ≡ true = ground arith in
    let u : leb b (length bytes) ≡ true = ground arith in rw (t, u) refl

concat-emit_chunk :
    (chunk : List ℕ) (output : List (List ℕ))
    → concat (emit_chunk true chunk output) ≡ concat output ++ chunk
unfolding concat
concat-emit_chunk [] output = sym (append-nil (concat output))
concat-emit_chunk (b ∷ bs) output =
    concat-append output ((b ∷ bs) ∷ []) ∙ ap (λ t. concat output ++ t) (append-nil (b ∷ bs))

-- No panic.
abbrev pub Goes : {A : Type 0} → (A → Type 0) → Fallible A → Type 0
Goes P m = Safely P (λ e. Unit {0}) m

module _ (codec : Codec) (memchr : ℕ → List ℕ → Option ℕ) where
  -- A token that is serialised to the bytes that it was made of.
  abbrev pub AsIs : Token → List ℕ → Type 0
  AsIs t bytes =
      (chunks : List (List ℕ)) × (token_to_bytes codec memchr t ≡ some chunks)
      × (concat chunks ≡ bytes)

  -- What a lexeme was made to: a token of its bytes, or nothing that is captured.
  abbrev pub Made : ToTokenResult → List ℕ → Type 0
  Made (token t) bytes = AsIs t bytes
  Made (text_ text_type) bytes = Unit
  Made none_ bytes = Unit

module _ {D : Type 0} where
  -- Text is not waiting to be decoded: there is nothing to flush.
  pub flush_pending_text-none :
      {W : Type 0} (decoding : Decoding D) (handler : TokenCapturerEvent → W → Fallible W)
      (c : TokenCapturer D) (w : W)
      → c.text_decoder.pending_text_streaming_decoder ≡ none
      → flush_pending_text decoding handler c w ≡ ok (c, w)
  unfolding flush_pending_text flush_pending ◌>>=◌
  flush_pending_text-none decoding handler c w e = rw e refl

module _ {C : Type 0} where
  -- A request that does not ask for text, and one that waits, if any.
  abbrev pub QuietRequest : AuxStartTagInfoRequest C → Type 0
  QuietRequest request =
      (c : C) (info : AuxStartTagInfo)
      → Goes (λ (r : C × TokenCaptureFlags). r.1.text ≡ false) (request c info)

  abbrev pub QuietIfAny : Option (AuxStartTagInfoRequest C) → Type 0
  QuietIfAny none = Unit
  QuietIfAny (some request) = QuietRequest request

module _ {C D : Type 0} where
  -- The output is what came before this chunk and the chunk as far as it is dealt with; text is not
  -- captured, and nothing is being removed.
  pub record Through (before : List ℕ) (input : List ℕ) (d : Dispatcher C D) : Type 0 where
    pub written : concat d.output_sink ≡ before ++ take d.remaining_content_start input
    pub within : d.remaining_content_start ≤ length input
    pub enabled : d.emission_enabled ≡ true
    pub no_decoder : d.token_capturer.text_decoder.pending_text_streaming_decoder ≡ none
    pub no_text : d.token_capturer.capture_flags.text ≡ false
    pub quiet : QuietIfAny d.pending_element_aux_info_req

  -- At the end of a chunk the output is what came before it and what of it was consumed.
  pub flush_remaining_input-Through :
      (before input : List ℕ) (consumed_byte_count : ℕ) (d : Dispatcher C D)
      → Through before input d
      → d.remaining_content_start ≤ consumed_byte_count
      → consumed_byte_count ≤ length input
      → (d' : Dispatcher C D) × (flush_remaining_input input consumed_byte_count d ≡ ok d')
        × (concat d'.output_sink ≡ before ++ take consumed_byte_count input)
        × (d'.remaining_content_start ≡ 0)
  unfolding flush_remaining_input ◌>>=◌
  flush_remaining_input-Through before input n d h le le' = (
    record d {
      output_sink =
          emit_chunk true
            (take (n - d.remaining_content_start) (drop d.remaining_content_start input))
            d.output_sink;
      remaining_content_start = 0;
    },
    rw (slice-take input d.remaining_content_start n le le', h.enabled) refl,
    concat-emit_chunk (take (n - d.remaining_content_start) (drop d.remaining_content_start input))
          d.output_sink
        ∙ ap (λ t. t ++ take (n - d.remaining_content_start) (drop d.remaining_content_start input))
            h.written
        ∙ append_assoc before (take d.remaining_content_start input) _
        ∙ ap (λ t. before ++ t) (take-slice d.remaining_content_start n input le),
    refl,
  )

  module _ (controller : TransformController C) (decoding : Decoding D) (codec : Codec)
      (memchr : ℕ → List ℕ → Option ℕ) where
    -- A handler that leaves every token as it is.
    abbrev pub LeavesTokens : Type 0
    LeavesTokens =
        (t : Token) (c : C) → Goes (λ (r : C × Token). r.1 ≡ t) (controller.handle_token t c)

    output_token-AsIs :
        (t : Token) (bytes : List ℕ) (w : Handling C)
        → LeavesTokens
        → AsIs codec memchr t bytes
        → Goes
            (λ w'.
              (concat w'.output_sink ≡ concat w.output_sink ++ bytes)
              × (w'.lexeme_consumed ≡ w.lexeme_consumed))
            (output_token controller decoding codec memchr true t w)
    unfolding output_token ◌>>=◌
    output_token-AsIs t bytes w leaves (chunks, e, same) =
        Safely-bind (λ (r : C × Token). r.1 ≡ t) _ _
          (controller.handle_token t w.transform_controller) _ (leaves t w.transform_controller)
          (λ r kept.
            rw (kept, e)
              (concat-append w.output_sink chunks ∙ ap (λ x. concat w.output_sink ++ x) same, refl))

    -- Either the lexeme is consumed, with what came before it, or nothing happens.
    abbrev Fed : List ℕ → List ℕ → Handling C → Handling C → Type 0
    Fed chunk bytes w w' =
        ((w'.lexeme_consumed ≡ true)
          × (concat w'.output_sink ≡ (concat w.output_sink ++ chunk) ++ bytes))
        ⊎ (w' ≡ w)

    feed-Fed :
        (result : ToTokenResult) (chunk bytes : List ℕ) (c : TokenCapturer D) (w : Handling C)
        → LeavesTokens
        → Made codec memchr result bytes
        → c.text_decoder.pending_text_streaming_decoder ≡ none
        → c.capture_flags.text ≡ false
        → Goes
            (λ r. (r.0 ≡ c) × Fed chunk bytes w r.1)
            (feed decoding
              (on_event controller decoding codec memchr true (ok chunk))
              (ok bytes)
              result
              c
              w)
    unfolding feed on_event ◌>>=◌
    feed-Fed (text_ text_type) chunk bytes c w leaves made no_decoder no_text =
        rw no_text (refl, inr refl)
    feed-Fed none_ chunk bytes c w leaves made no_decoder no_text =
        rw (flush_pending_text-none decoding _ c w no_decoder) (refl, inr refl)
    feed-Fed (token t) chunk bytes c w leaves made no_decoder no_text =
        rw (flush_pending_text-none decoding _ c w no_decoder) (
          Safely-bind
            (λ w'.
              (concat w'.output_sink ≡ concat (emit_chunk true chunk w.output_sink) ++ bytes)
              × (w'.lexeme_consumed ≡ true))
            _ _
            (output_token controller decoding codec memchr true t (record w {
              output_sink = emit_chunk true chunk w.output_sink;
              lexeme_consumed = true;
            }))
            _ (output_token-AsIs t bytes _ leaves made)
            (λ w' (e, consumed). (
              refl,
              inl (consumed, e ∙ ap (λ x. x ++ bytes) (concat-emit_chunk chunk w.output_sink)),
            )))

    -- The dispatcher after the events of a lexeme.
    handled-Through :
        (before input : List ℕ) (start end : ℕ) (flags : TokenCaptureFlags)
        (capturer : TokenCapturer D) (w : Handling C) (d : Dispatcher C D)
        → Through before input d
        → d.remaining_content_start ≤ start
        → start ≤ end
        → end ≤ length input
        → flags.text ≡ false
        → capturer ≡ record d.token_capturer { capture_flags = flags }
        → Fed
            (take (start - d.remaining_content_start) (drop d.remaining_content_start input))
            (take (end - start) (drop start input))
            (handling_of controller decoding codec memchr d)
            w
        → Through before input (handled controller decoding codec memchr end capturer w d)
          × ((handled controller decoding codec memchr end capturer w d).remaining_content_start
              ≤ end)
    handled-Through before input start end flags capturer w d h le le' le'' no_text same
          (inl (consumed, e)) =
        rw consumed (
          record {
            written =
                e
                ∙ ap
                    (λ x.
                      (x
                        ++ take (start - d.remaining_content_start)
                            (drop d.remaining_content_start input))
                      ++ take (end - start) (drop start input))
                    h.written
                ∙ ap (λ x. x ++ take (end - start) (drop start input))
                    (append_assoc before (take d.remaining_content_start input) _
                      ∙ ap (λ x. before ++ x) (take-slice d.remaining_content_start start input le))
                ∙ append_assoc before (take start input) _
                ∙ ap (λ x. before ++ x) (take-slice start end input le');
            within = le'';
            enabled = h.enabled;
            no_decoder =
                ap (λ (c : TokenCapturer D). c.text_decoder.pending_text_streaming_decoder) same
                ∙ h.no_decoder;
            no_text = ap (λ (c : TokenCapturer D). c.capture_flags.text) same ∙ no_text;
            quiet = h.quiet;
          },
          omega arith,
        )
    handled-Through before input start end flags capturer w d h le le' le'' no_text same (inr e) =
        rw e (
          record {
            written = h.written;
            within = h.within;
            enabled = h.enabled;
            no_decoder =
                ap (λ (c : TokenCapturer D). c.text_decoder.pending_text_streaming_decoder) same
                ∙ h.no_decoder;
            no_text = ap (λ (c : TokenCapturer D). c.capture_flags.text) same ∙ no_text;
            quiet = h.quiet;
          },
          omega (arith, le, le'),
        )

    pub produce-Through :
        {T : Type 0} (lexeme : Lexeme T)
        (to_token : TokenCaptureFlags → Fallible (ToTokenResult × TokenCaptureFlags))
        (before : List ℕ) (d : Dispatcher C D)
        → LeavesTokens
        → Through before lexeme.input d
        → d.remaining_content_start ≤ lexeme.raw_range.start
        → lexeme.raw_range.start ≤ lexeme.raw_range.end
        → lexeme.raw_range.end ≤ length lexeme.input
        → Goes
            (λ r.
              Made codec memchr r.0 (
                take
                  (lexeme.raw_range.end - lexeme.raw_range.start)
                  (drop lexeme.raw_range.start lexeme.input))
              × (r.1.text ≡ false))
            (to_token d.token_capturer.capture_flags)
        → Goes
            (λ d'.
              Through before lexeme.input d' × (d'.remaining_content_start ≤ lexeme.raw_range.end))
            (try_produce_token_from_lexeme controller decoding codec memchr lexeme to_token d)
    unfolding try_produce_token_from_lexeme raw
    produce-Through lexeme to_token before d leaves h le le' le'' makes =
        Safely-bind _ _ _ (to_token d.token_capturer.capture_flags) _ makes (λ r (made, no_text).
          rw
            (
              h.enabled,
              slice-take lexeme.input d.remaining_content_start lexeme.raw_range.start le
                  (omega (arith, le', le'')),
              slice-take lexeme.input lexeme.raw_range.start lexeme.raw_range.end le' le'',
            )
            (Safely-bind _ _ _ _ _
              (feed-Fed r.0 _ _ (record d.token_capturer { capture_flags = r.1 }) _ leaves made
                h.no_decoder no_text)
              (λ q (same, fed). rw h.enabled at (
                handled-Through before lexeme.input lexeme.raw_range.start lexeme.raw_range.end r.1
                  q.0 q.1 d h le le' le'' no_text same fed))))
