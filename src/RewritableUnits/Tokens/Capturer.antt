-- ===== src/RewritableUnits/Tokens/Capturer.antt =====
-- src/rewritable_units/tokens/capturer: which lexemes become tokens, and the decoding of text. The
-- event handler is a function on a state `W`. `D` is the state of a streaming decoder of the crate
-- encoding_rs.
use lol_html.Base.Outcome.{Outcome, ok, panic, ◌>>=◌, expect}
use lol_html.Base.Range.{Range, slice}
use lol_html.Html.TextType.{TextType, data_}
use lol_html.Parser.Directive.{RewritingError}
use lol_html.Parser.Outline.{
  Lexeme, TagLexeme, NonTagContentLexeme, TagTokenOutline, NonTagContentTokenOutline, start_tag,
  end_tag, text, comment, doctype, eof,
}
use lol_html.Prelude.{
  ℕ, zero, suc, ◌+◌, Bool, true, false, not, ◌||◌, List, [], ◌∷◌, Option, none, some, length, drop,
  if◌then◌else◌,
}
use lol_html.RewritableUnits.Attributes.{init_items}
use lol_html.RewritableUnits.Tokens.{
  Token, new_comment, new_text_chunk, new_start_tag, new_end_tag, new_doctype,
}
use lol_html.Rewriter.HandlersDispatcher.{TokenCaptureFlags}

pub data TokenCapturerEvent : Type 0 where
  lexeme_consumed : TokenCapturerEvent
  token_produced : Token → TokenCapturerEvent

pub data ToTokenResult : Type 0 where
  token : Token → ToTokenResult
  text_ : TextType → ToTokenResult
  none_ : ToTokenResult

abbrev pub Fallible : Type 0 → Type 0
Fallible = Outcome RewritingError

-- `Lexeme::raw`, `Lexeme::opt_part`.
unfoldable pub raw : {T : Type 0} → Lexeme T → Fallible (List ℕ)
raw lexeme = expect (slice lexeme.input lexeme.raw_range)

unfoldable pub part_of : {T : Type 0} → Lexeme T → Range → Fallible (List ℕ)
part_of lexeme range = expect (slice lexeme.input range)

unfoldable pub opt_part : {T : Type 0} → Lexeme T → Option Range → Fallible (Option (List ℕ))
unfolding part_of
opt_part lexeme none = ok none
opt_part lexeme (some range) = part_of lexeme range >>= λ p. ok (some p)

-- `to_token` of a tag, with the flags that it leaves.
unfoldable pub tag_to_token :
    TagLexeme → TagTokenOutline → TokenCaptureFlags → Fallible (ToTokenResult × TokenCaptureFlags)
unfolding raw part_of
tag_to_token lexeme (start_tag t) flags =
    if flags.next_start_tag
    then (part_of lexeme t.name >>= λ name.
        init_items lexeme.input lexeme.attributes >>= λ attributes. raw lexeme >>= λ bytes. ok (
          token (new_start_tag name attributes t.ns t.self_closing bytes),
          record flags { next_start_tag = false },
        ))
    else ok (none_, flags)
tag_to_token lexeme (end_tag t) flags =
    if flags.next_end_tag
    then (part_of lexeme t.name >>= λ name. raw lexeme >>= λ bytes.
        ok (token (new_end_tag name bytes), record flags { next_end_tag = false }))
    else ok (none_, flags)

-- `to_token` of other content.
unfoldable pub non_tag_to_token :
    NonTagContentLexeme
    → Option NonTagContentTokenOutline
    → TokenCaptureFlags
    → Fallible (ToTokenResult × TokenCaptureFlags)
unfolding raw part_of opt_part
non_tag_to_token lexeme (some (text text_type)) flags = ok (text_ text_type, flags)
non_tag_to_token lexeme (some (comment range)) flags =
    if flags.comments
    then (part_of lexeme range >>= λ body.
        raw lexeme >>= λ bytes. ok (token (new_comment body bytes), flags))
    else ok (none_, flags)
non_tag_to_token lexeme (some (doctype d)) flags =
    if flags.doctypes
    then (opt_part lexeme d.name >>= λ name. opt_part lexeme d.public_id >>= λ public_id.
        opt_part lexeme d.system_id >>= λ system_id. raw lexeme >>= λ bytes.
        ok (token (new_doctype name public_id system_id d.force_quirks bytes), flags))
    else ok (none_, flags)
non_tag_to_token lexeme (some eof) flags = ok (none_, flags)
non_tag_to_token lexeme none flags = ok (none_, flags)

-- A call of `decode_to_str` with the buffer of 1024 bytes: whether the input was used up, how many
-- bytes were read, the text written, and the decoder after it.
pub record Decoded (D : Type 0) : Type 0 where
  pub input_empty : Bool
  pub read : ℕ
  pub written : List ℕ
  pub decoder : D

pub record Decoding (D : Type 0) : Type 0 where
  pub new_decoder : D
  pub decode_to_str : List ℕ → Bool → D → Decoded D

pub record TextDecoder (D : Type 0) : Type 0 where
  pub pending_text_streaming_decoder : Option D
  pub last_text_type : TextType

pub record TokenCapturer (D : Type 0) : Type 0 where
  pub text_decoder : TextDecoder D
  pub capture_flags : TokenCaptureFlags

abbrev pub no_text : List ℕ → Bool
no_text [] = true
no_text (_ ∷ _) = false

abbrev pub decoder_or_new : {D : Type 0} → Decoding D → Option D → D
decoder_or_new decoding none = decoding.new_decoder
decoder_or_new decoding (some d) = d

unfoldable pub has_captures : TokenCaptureFlags → Bool
has_captures flags =
    flags.text
    || (flags.comments || (flags.next_start_tag || (flags.next_end_tag || flags.doctypes)))

unfoldable pub new_capturer : {D : Type 0} → TokenCaptureFlags → TokenCapturer D
new_capturer flags = record {
  text_decoder = record { pending_text_streaming_decoder = none; last_text_type = data_ };
  capture_flags = flags;
}

module _ {D W : Type 0} (decoding : Decoding D)
    (handler : TokenCapturerEvent → W → Fallible W) where
  -- A round of the loop; `go` is the rest of it.
  abbrev pub decode_round :
      Bool → TextType → (D → W → Fallible (D × W)) → Decoded D → W → Fallible (D × W)
  decode_round last text_type go step w =
      (if not (no_text step.written) || last
        then handler (token_produced (new_text_chunk step.written text_type last)) w
        else ok w)
      >>= λ w'. elim step.input_empty [ true ↦ ok (step.decoder, w') | false ↦ go step.decoder w' ]

  -- A round that does not use up the input fills the buffer, and so reads hundreds of bytes, but for
  -- those that the decoder held back: as many rounds as there are bytes, and two, are enough.
  unfoldable pub decode_loop : ℕ → List ℕ → Bool → TextType → D → W → Fallible (D × W)
  decode_loop zero raw last text_type decoder w = panic
  decode_loop (suc fuel) raw last text_type decoder w =
      let step = decoding.decode_to_str raw last decoder in
      decode_round last text_type (decode_loop fuel (drop step.read raw) last text_type) step w

  unfoldable pub decode_with_streaming_decoder :
      List ℕ → Bool → TextDecoder D → W → Fallible (TextDecoder D × W)
  unfolding decode_loop
  decode_with_streaming_decoder raw last d w =
      decode_loop (length raw + 2) raw last d.last_text_type
        (decoder_or_new decoding d.pending_text_streaming_decoder) w
      >>= λ (decoder, w'). ok (record d { pending_text_streaming_decoder = some decoder }, w')

  unfoldable pub flush_pending : TextDecoder D → W → Fallible (TextDecoder D × W)
  unfolding decode_with_streaming_decoder
  flush_pending d w = elim d.pending_text_streaming_decoder [
    | none ↦ ok (d, w)
    | some _ ↦ decode_with_streaming_decoder [] true d w >>= λ (d', w').
        ok (record d' { pending_text_streaming_decoder = none }, w')
  ]

  unfoldable pub feed_text : List ℕ → TextType → TextDecoder D → W → Fallible (TextDecoder D × W)
  unfolding decode_with_streaming_decoder
  feed_text raw text_type d w =
      decode_with_streaming_decoder raw false (record d { last_text_type = text_type }) w

  unfoldable pub flush_pending_text : TokenCapturer D → W → Fallible (TokenCapturer D × W)
  unfolding flush_pending
  flush_pending_text c w =
      flush_pending c.text_decoder w >>= λ (d, w'). ok (record c { text_decoder = d }, w')

  -- `feed`, after `to_token`, which has set the flags.
  unfoldable pub feed :
      Fallible (List ℕ) → ToTokenResult → TokenCapturer D → W → Fallible (TokenCapturer D × W)
  unfolding flush_pending_text feed_text
  feed bytes (token t) c w = flush_pending_text c w >>= λ (c', w₁).
      handler lexeme_consumed w₁ >>= λ w₂. handler (token_produced t) w₂ >>= λ w₃. ok (c', w₃)
  feed bytes (text_ text_type) c w =
      if c.capture_flags.text
      then (handler lexeme_consumed w >>= λ w₁. bytes >>= λ b.
          feed_text b text_type c.text_decoder w₁ >>= λ (d, w₂).
          ok (record c { text_decoder = d }, w₂))
      else ok (c, w)
  feed bytes none_ c w = flush_pending_text c w
