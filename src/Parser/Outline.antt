-- ===== src/Parser/Outline.antt =====
-- src/parser/lexer/lexeme: the outlines of tokens, and lexemes.
-- A start tag shares its attributes with the lexer by an `Rc`; here a lexeme carries the buffer
-- as it is when the lexeme is made.
use lol_html.Base.Range.{Range, align_range, align_option, slice}
use lol_html.Html.LocalName.{LocalNameHash}
use lol_html.Html.TextType.{Namespace, TextType}
use lol_html.Prelude.{ℕ, Bool, List, map, Option}

pub record AttributeOutline : Type 0 where
  pub name : Range
  pub value : Range
  pub raw_range : Range

pub record StartTag : Type 0 where
  pub name : Range
  pub name_hash : LocalNameHash
  pub ns : Namespace
  pub self_closing : Bool

pub record EndTag : Type 0 where
  pub name : Range
  pub name_hash : LocalNameHash

pub data TagTokenOutline : Type 0 where
  start_tag : StartTag → TagTokenOutline
  end_tag : EndTag → TagTokenOutline

pub record Doctype : Type 0 where
  pub name : Option Range
  pub public_id : Option Range
  pub system_id : Option Range
  pub force_quirks : Bool

pub data NonTagContentTokenOutline : Type 0 where
  text : TextType → NonTagContentTokenOutline
  comment : Range → NonTagContentTokenOutline
  doctype : Doctype → NonTagContentTokenOutline
  eof : NonTagContentTokenOutline

unfoldable pub align_attribute : ℕ → AttributeOutline → AttributeOutline
unfolding align_range
align_attribute offset a = record {
  name = align_range offset a.name;
  value = align_range offset a.value;
  raw_range = align_range offset a.raw_range;
}

-- The token's part of `Align for TagTokenOutline`; the shared attributes are `align_attributes`.
unfoldable pub align_tag : ℕ → TagTokenOutline → TagTokenOutline
unfolding align_range
align_tag offset (start_tag t) = start_tag (record t { name = align_range offset t.name })
align_tag offset (end_tag t) = end_tag (record t { name = align_range offset t.name })

unfoldable pub align_attributes :
    ℕ → TagTokenOutline → List AttributeOutline → List AttributeOutline
unfolding align_attribute
align_attributes offset (start_tag t) attrs = map (align_attribute offset) attrs
align_attributes offset (end_tag t) attrs = attrs

unfoldable pub align_non_tag : ℕ → NonTagContentTokenOutline → NonTagContentTokenOutline
unfolding align_range
align_non_tag offset (comment r) = comment (align_range offset r)
align_non_tag offset (doctype d) = doctype (record d {
  name = align_option align_range offset d.name;
  public_id = align_option align_range offset d.public_id;
  system_id = align_option align_range offset d.system_id;
})
align_non_tag offset (text t) = text t
align_non_tag offset eof = eof

-- `Lexeme<T>`, with the attribute buffer that its token shares.
pub record Lexeme (T : Type 0) : Type 0 where
  pub input : List ℕ
  pub raw_range : Range
  pub token_outline : T
  pub attributes : List AttributeOutline

abbrev pub TagLexeme : Type 0
TagLexeme = Lexeme TagTokenOutline

abbrev pub NonTagContentLexeme : Type 0
NonTagContentLexeme = Lexeme (Option NonTagContentTokenOutline)

-- `Lexeme::part`; `none` where the range is out of the input.
unfoldable pub part : {T : Type 0} → Lexeme T → Range → Option (List ℕ)
unfolding slice
part lexeme range = slice lexeme.input range
