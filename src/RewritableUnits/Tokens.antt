-- ===== src/RewritableUnits/Tokens.antt =====
-- src/rewritable_units/tokens: comments, text chunks, start tags, end tags and doctypes, as far as
-- they can be changed and serialised. User data is left out.
pub mod Capturer
use mathlib.Core.Option
use lol_html.Base.Outcome.{Outcome, ok, err, ◌>>=◌}
use lol_html.Html.TextType.{Namespace, TextType}
use lol_html.Prelude.{
  ℕ, Bool, true, false, ◌&&◌, ◌||◌, List, [], ◌∷◌, ◌++◌, Option, none, some, ◌==◌, if◌then◌else◌,
}
use lol_html.RewritableUnits.Attributes.{
  Codec, Attribute, AttributeNameError, set_attribute, remove_attribute, attributes_to_bytes,
  encoded_or,
}
use lol_html.RewritableUnits.Mutations.{Mutations, new_mutations, to_bytes}

pub data CommentTextError : Type 0 where
  comment_closing_sequence unencodable_character : CommentTextError

pub record Comment : Type 0 where
  pub text : List ℕ
  pub raw : Option (List ℕ)
  pub mutations : Mutations

pub record TextChunk : Type 0 where
  pub text : List ℕ
  pub text_type : TextType
  pub last_in_text_node : Bool
  pub mutations : Mutations

pub record StartTag : Type 0 where
  pub name : List ℕ
  pub attributes : List Attribute
  pub ns : Namespace
  pub self_closing : Bool
  pub raw : Option (List ℕ)
  pub mutations : Mutations

pub record EndTag : Type 0 where
  pub name : List ℕ
  pub raw : Option (List ℕ)
  pub mutations : Mutations

pub record Doctype : Type 0 where
  pub name : Option (List ℕ)
  pub public_id : Option (List ℕ)
  pub system_id : Option (List ℕ)
  pub force_quirks : Bool
  pub raw : List ℕ

pub data Token : Type 0 where
  text_chunk : TextChunk → Token
  comment : Comment → Token
  start_tag : StartTag → Token
  end_tag : EndTag → Token
  doctype : Doctype → Token

-- `new_token` of each.
unfoldable pub new_comment : List ℕ → List ℕ → Token
new_comment text raw = comment (record { text = text; raw = some raw; mutations = new_mutations })

unfoldable pub new_text_chunk : List ℕ → TextType → Bool → Token
new_text_chunk text text_type last = text_chunk (record {
  text = text;
  text_type = text_type;
  last_in_text_node = last;
  mutations = new_mutations;
})

unfoldable pub new_start_tag : List ℕ → List Attribute → Namespace → Bool → List ℕ → Token
new_start_tag name attributes ns self_closing raw = start_tag (record {
  name = name;
  attributes = attributes;
  ns = ns;
  self_closing = self_closing;
  raw = some raw;
  mutations = new_mutations;
})

unfoldable pub new_end_tag : List ℕ → List ℕ → Token
new_end_tag name raw = end_tag (record { name = name; raw = some raw; mutations = new_mutations })

unfoldable pub new_doctype :
    Option (List ℕ) → Option (List ℕ) → Option (List ℕ) → Bool → List ℕ → Token
new_doctype name public_id system_id force_quirks raw = doctype (record {
  name = name;
  public_id = public_id;
  system_id = system_id;
  force_quirks = force_quirks;
  raw = raw;
})

-- `text.find("-->").is_some()`.
abbrev pub starts_with : List ℕ → List ℕ → Bool
starts_with [] bs = true
starts_with (p ∷ ps) [] = false
starts_with (p ∷ ps) (b ∷ bs) = p == b && starts_with ps bs

abbrev pub contains : List ℕ → List ℕ → Bool
contains part [] = starts_with part []
contains part (b ∷ bs) = starts_with part (b ∷ bs) || contains part bs

module _ (codec : Codec) where
  -- `Comment::set_text`.
  unfoldable pub set_text : List ℕ → Comment → Outcome CommentTextError Comment
  set_text text c =
      if contains (b'-' ∷ b'-' ∷ b'>' ∷ []) text
      then err comment_closing_sequence
      else (encoded_or (codec.encode_exact text) unencodable_character >>= λ bytes.
          ok (record c { text = bytes; raw = none }))

  -- `StartTag::set_attribute` and `remove_attribute`.
  unfoldable pub set_tag_attribute :
      List ℕ → List ℕ → StartTag → Outcome AttributeNameError StartTag
  set_tag_attribute name value t = set_attribute codec name value t.attributes >>= λ attributes.
      ok (record t { attributes = attributes; raw = none })

  unfoldable pub remove_tag_attribute : List ℕ → StartTag → StartTag
  remove_tag_attribute name t =
      let (attributes, found) = remove_attribute codec name t.attributes in
      if found then record t { attributes = attributes; raw = none } else t

  abbrev pub raw_or : Option (List ℕ) → Option (List (List ℕ)) → Option (List (List ℕ))
  raw_or (some raw) parts = some (raw ∷ [])
  raw_or none parts = parts

  -- b"<!--" and b"-->"; nothing where a text chunk is empty; b"</" and b">".
  unfoldable pub comment_parts : Comment → List (List ℕ)
  comment_parts c = (b'<' ∷ b'!' ∷ b'-' ∷ b'-' ∷ []) ∷ c.text ∷ (b'-' ∷ b'-' ∷ b'>' ∷ []) ∷ []

  abbrev pub encoded_text : List ℕ → List (List ℕ)
  encoded_text [] = []
  encoded_text (ch ∷ chs) = codec.encode (ch ∷ chs) ∷ []

  unfoldable pub end_tag_parts : EndTag → List (List ℕ)
  end_tag_parts t = (b'<' ∷ b'/' ∷ []) ∷ t.name ∷ (b'>' ∷ []) ∷ []

  abbrev pub spaced_attributes : List Attribute → Bool → List (List ℕ) → List (List ℕ)
  spaced_attributes [] self_closing chunks = []
  spaced_attributes (_ ∷ _) self_closing chunks =
      (32 ∷ []) ∷ (chunks ++ (if self_closing then (32 ∷ []) ∷ [] else []))

  unfoldable pub start_tag_parts : (ℕ → List ℕ → Option ℕ) → StartTag → Option (List (List ℕ))
  start_tag_parts memchr t =
      Option.map
        (λ chunks.
          (b'<' ∷ [])
          ∷ t.name
          ∷ (spaced_attributes t.attributes t.self_closing chunks
              ++ (if t.self_closing then b'/' ∷ b'>' ∷ [] else b'>' ∷ []) ∷ []))
        (attributes_to_bytes memchr t.attributes)

  -- `Token::to_bytes`. The parts are made where they are needed, and only there.
  unfoldable pub token_to_bytes : (ℕ → List ℕ → Option ℕ) → Token → Option (List (List ℕ))
  unfolding comment_parts end_tag_parts start_tag_parts
  token_to_bytes memchr (text_chunk t) = some (to_bytes t.mutations (encoded_text t.text))
  token_to_bytes memchr (comment c) =
      Option.map (to_bytes c.mutations) (raw_or c.raw (some (comment_parts c)))
  token_to_bytes memchr (start_tag t) =
      Option.map (to_bytes t.mutations)
        (if t.mutations.removed then some [] else raw_or t.raw (start_tag_parts memchr t))
  token_to_bytes memchr (end_tag t) =
      Option.map (to_bytes t.mutations) (raw_or t.raw (some (end_tag_parts t)))
  token_to_bytes memchr (doctype d) = some (d.raw ∷ [])
