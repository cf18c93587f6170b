-- ===== src/TransformStream/Dispatcher/Transparent.antt =====
-- The handlers of the dispatcher, with a controller that changes nothing and does not ask for text.
use mathlib.Core.List.{append-nil}
use lol_html.Base.Bytes.Replacing.{concat}
use lol_html.Base.Outcome.{ok, ◌>>=◌, Safely-if}
use lol_html.Base.Range.{Range, slice}
use lol_html.Html.TextType.{Namespace}
use lol_html.Parser.Directive.{RewritingError}
use lol_html.Parser.Outline.{
  Lexeme, TagLexeme, NonTagContentLexeme, TagTokenOutline, NonTagContentTokenOutline, start_tag,
  end_tag, text, comment, doctype, eof,
}
use lol_html.Prelude.{
  ℕ, ◌-◌, ◌≤◌, ◌≡◌, refl, Bool, false, List, [], ◌∷◌, Option, none, some, take, drop, length,
}
use lol_html.RewritableUnits.Attributes.{Attribute, Codec, init_items}
use lol_html.RewritableUnits.Mutations.{to_bytes, new_mutations}
use lol_html.RewritableUnits.Tokens.Capturer.{
  raw, part_of, opt_part, tag_to_token, non_tag_to_token,
}
use lol_html.RewritableUnits.Tokens.{
  token_to_bytes, new_comment, new_start_tag, new_end_tag, new_doctype,
}
use lol_html.Rewriter.HandlersDispatcher.{TokenCaptureFlags}
use lol_html.TransformStream.Dispatcher.PassingThrough.{AsIs, Goes, Made, slice-take}

-- The parts of a lexeme lie in its input.
abbrev pub Lies : List ℕ → Range → Type 0
Lies input range = (part : List ℕ) × (slice input range ≡ some part)

abbrev pub LiesIfAny : List ℕ → Option Range → Type 0
LiesIfAny input none = Unit
LiesIfAny input (some range) = Lies input range

abbrev pub TagLies : TagLexeme → TagTokenOutline → Type 0
TagLies lexeme (start_tag t) =
    Lies lexeme.input t.name
    × ((items : List Attribute) × (init_items {E = RewritingError} lexeme.input lexeme.attributes
          ≡ ok items))
TagLies lexeme (end_tag t) = Lies lexeme.input t.name

abbrev pub ContentLies : NonTagContentLexeme → Option NonTagContentTokenOutline → Type 0
ContentLies lexeme (some (comment range)) = Lies lexeme.input range
ContentLies lexeme (some (doctype d)) =
    LiesIfAny lexeme.input d.name
    × LiesIfAny lexeme.input d.public_id
    × LiesIfAny lexeme.input d.system_id
ContentLies lexeme _ = Unit

-- A lexeme that begins at a position or behind it, and ends in its input.
abbrev pub From : {T : Type 0} → ℕ → Lexeme T → Type 0
From position lexeme =
    (position ≤ lexeme.raw_range.start)
    × (lexeme.raw_range.start ≤ lexeme.raw_range.end)
    × (lexeme.raw_range.end ≤ length lexeme.input)

abbrev raw_of : {T : Type 0} → Lexeme T → List ℕ
raw_of lexeme =
    take (lexeme.raw_range.end - lexeme.raw_range.start) (drop lexeme.raw_range.start lexeme.input)

module _ (codec : Codec) (memchr : ℕ → List ℕ → Option ℕ) where
  start_tag-AsIs :
      (name : List ℕ) (items : List Attribute) (ns : Namespace) (self_closing : Bool)
      (bytes : List ℕ)
      → AsIs codec memchr (new_start_tag name items ns self_closing bytes) bytes
  unfolding token_to_bytes new_start_tag to_bytes new_mutations concat
  start_tag-AsIs name items ns self_closing bytes = (bytes ∷ [], refl, append-nil bytes)

  end_tag-AsIs : (name bytes : List ℕ) → AsIs codec memchr (new_end_tag name bytes) bytes
  unfolding token_to_bytes new_end_tag to_bytes new_mutations concat
  end_tag-AsIs name bytes = (bytes ∷ [], refl, append-nil bytes)

  comment-AsIs : (body bytes : List ℕ) → AsIs codec memchr (new_comment body bytes) bytes
  unfolding token_to_bytes new_comment to_bytes new_mutations concat
  comment-AsIs body bytes = (bytes ∷ [], refl, append-nil bytes)

  doctype-AsIs :
      (name public_id system_id : Option (List ℕ)) (force_quirks : Bool) (bytes : List ℕ)
      → AsIs codec memchr (new_doctype name public_id system_id force_quirks bytes) bytes
  unfolding token_to_bytes new_doctype concat
  doctype-AsIs name public_id system_id force_quirks bytes = (bytes ∷ [], refl, append-nil bytes)

  pub tag_to_token-Made :
      (lexeme : TagLexeme) (outline : TagTokenOutline) (flags : TokenCaptureFlags)
      → TagLies lexeme outline
      → lexeme.raw_range.start ≤ lexeme.raw_range.end
      → lexeme.raw_range.end ≤ length lexeme.input
      → flags.text ≡ false
      → Goes
          (λ r. Made codec memchr r.0 (raw_of lexeme) × (r.1.text ≡ false))
          (tag_to_token lexeme outline flags)
  unfolding tag_to_token part_of raw ◌>>=◌
  tag_to_token-Made lexeme (start_tag t) flags ((name, e), (items, e')) le le' no_text =
      Safely-if _ _ flags.next_start_tag _ _
        (λ _.
          rw (e, e', slice-take lexeme.input _ _ le le')
            (start_tag-AsIs name items t.ns t.self_closing _, no_text))
        (λ _. (tt, no_text))
  tag_to_token-Made lexeme (end_tag t) flags (name, e) le le' no_text =
      Safely-if _ _ flags.next_end_tag _ _
        (λ _. rw (e, slice-take lexeme.input _ _ le le') (end_tag-AsIs name _, no_text))
        (λ _. (tt, no_text))

  opt_part-Goes :
      (lexeme : NonTagContentLexeme) (range : Option Range)
      → LiesIfAny lexeme.input range
      → (p : Option (List ℕ)) × (opt_part lexeme range ≡ ok p)
  unfolding opt_part part_of ◌>>=◌
  opt_part-Goes lexeme none h = (none, refl)
  opt_part-Goes lexeme (some range) (part, e) = (some part, rw e refl)

  pub non_tag_to_token-Made :
      (lexeme : NonTagContentLexeme) (outline : Option NonTagContentTokenOutline)
      (flags : TokenCaptureFlags)
      → ContentLies lexeme outline
      → lexeme.raw_range.start ≤ lexeme.raw_range.end
      → lexeme.raw_range.end ≤ length lexeme.input
      → flags.text ≡ false
      → Goes
          (λ r. Made codec memchr r.0 (raw_of lexeme) × (r.1.text ≡ false))
          (non_tag_to_token lexeme outline flags)
  unfolding non_tag_to_token part_of raw ◌>>=◌
  non_tag_to_token-Made lexeme none flags lies le le' no_text = (tt, no_text)
  non_tag_to_token-Made lexeme (some (text text_type)) flags lies le le' no_text = (tt, no_text)
  non_tag_to_token-Made lexeme (some eof) flags lies le le' no_text = (tt, no_text)
  non_tag_to_token-Made lexeme (some (comment range)) flags (body, e) le le' no_text =
      Safely-if _ _ flags.comments _ _
        (λ _. rw (e, slice-take lexeme.input _ _ le le') (comment-AsIs body _, no_text))
        (λ _. (tt, no_text))
  non_tag_to_token-Made lexeme (some (doctype d)) flags (l₁, l₂, l₃) le le' no_text =
      let (name, e₁) = opt_part-Goes lexeme d.name l₁ in
      let (public_id, e₂) = opt_part-Goes lexeme d.public_id l₂ in
      let (system_id, e₃) = opt_part-Goes lexeme d.system_id l₃ in
      Safely-if _ _ flags.doctypes _ _
        (λ _.
          rw (e₁, e₂, e₃, slice-take lexeme.input _ _ le le')
            (doctype-AsIs name public_id system_id d.force_quirks _, no_text))
        (λ _. (tt, no_text))
