-- ===== src/RewritableUnits/Element.antt =====
-- src/rewritable_units/element.rs: `Element`, what a handler of elements changes; the changes of the
-- end tag are kept until it comes. The closure that `into_end_tag_handler` makes is its two captures.
use mathlib.Core.Option
use lol_html.Base.Outcome.{Outcome, ok, err, ◌>>=◌}
use lol_html.Prelude.{
  ℕ, Bool, true, false, not, ◌&&◌, ◌||◌, List, [], ◌∷◌, Option, none, some, leb, if◌then◌else◌,
}
use lol_html.RewritableUnits.Attributes.{Codec, find_char, ends_tag_name, encoded_or, unless_found}
use lol_html.RewritableUnits.Mutations
use lol_html.RewritableUnits.Mutations.{Mutations, ContentType, new_mutations}
use lol_html.RewritableUnits.Tokens.{StartTag, EndTag}

pub data TagNameError : Type 0 where
  empty invalid_first_character unencodable_character : TagNameError
  forbidden_character : ℕ → TagNameError

pub record Element : Type 0 where
  pub start_tag : StartTag
  pub end_tag_mutations : Option Mutations
  pub modified_end_tag_name : Option (List ℕ)
  pub can_have_content : Bool
  pub should_remove_content : Bool

unfoldable pub new_element : StartTag → Bool → Element
new_element start_tag can_have_content = record {
  start_tag = start_tag;
  end_tag_mutations = none;
  modified_end_tag_name = none;
  can_have_content = can_have_content;
  should_remove_content = false;
}

abbrev pub is_ascii_alphabetic : ℕ → Bool
is_ascii_alphabetic ch = (leb b'a' ch && leb ch b'z') || (leb b'A' ch && leb ch b'Z')

-- `get_or_insert_with`.
abbrev pub or_new : Option Mutations → Mutations
or_new none = new_mutations
or_new (some m) = m

unfoldable pub end_tag_mutations_mut : Element → Mutations
end_tag_mutations_mut e = or_new e.end_tag_mutations

abbrev pub with_end_tag_mutations : Element → Mutations → Element
with_end_tag_mutations e m = record e { end_tag_mutations = some m }

abbrev pub with_start_tag_mutations : Element → Mutations → Element
with_start_tag_mutations e m = record e { start_tag = record e.start_tag { mutations = m } }

unfoldable pub remove_content : Element → Element
unfolding end_tag_mutations_mut
remove_content e =
    let s = e.start_tag in
    record e {
      start_tag = record s { mutations = record s.mutations { content_after = [] } };
      end_tag_mutations = some (record (end_tag_mutations_mut e) { content_before = [] });
      should_remove_content = true;
    }

-- What `replace` and `remove` do to an element that can have content, after its start tag.
unfoldable pub remove_content_and_end_tag : Element → Element
unfolding remove_content end_tag_mutations_mut
remove_content_and_end_tag e =
    if e.can_have_content
    then (let e' = remove_content e in
        with_end_tag_mutations e' (Mutations.remove (end_tag_mutations_mut e')))
    else e

unfoldable pub remove_element : Element → Element
unfolding remove_content_and_end_tag
remove_element e =
    remove_content_and_end_tag (with_start_tag_mutations e (Mutations.remove e.start_tag.mutations))

unfoldable pub remove_and_keep_content : Element → Element
unfolding end_tag_mutations_mut
remove_and_keep_content e =
    let e' = with_start_tag_mutations e (Mutations.remove e.start_tag.mutations) in
    if e.can_have_content
    then with_end_tag_mutations e' (Mutations.remove (end_tag_mutations_mut e'))
    else e'

module _ (codec : Codec) where
  unfoldable pub tag_name_bytes_from_str : List ℕ → Outcome TagNameError (List ℕ)
  tag_name_bytes_from_str [] = err empty
  tag_name_bytes_from_str (ch ∷ chs) =
      if not (is_ascii_alphabetic ch)
      then err invalid_first_character
      else unless_found (find_char ends_tag_name (ch ∷ chs)) forbidden_character
          (encoded_or (codec.encode_exact (ch ∷ chs)) unencodable_character)

  unfoldable pub set_tag_name : List ℕ → Element → Outcome TagNameError Element
  unfolding tag_name_bytes_from_str
  set_tag_name name e = tag_name_bytes_from_str name >>= λ bytes. ok (record e {
    modified_end_tag_name = if e.can_have_content then some bytes else e.modified_end_tag_name;
    start_tag = record e.start_tag { name = bytes; raw = none };
  })

-- `self.modified_end_tag_name` and `self.end_tag_mutations`, where one of them is there.
abbrev pub EndTagHandler : Type 0
EndTagHandler = Option (List ℕ) × Option Mutations

abbrev pub is_some {ℓ} : {A : Type ℓ} → Option A → Bool
is_some none = false
is_some (some _) = true

unfoldable pub into_end_tag_handler : Element → Option EndTagHandler
into_end_tag_handler e =
    if is_some e.end_tag_mutations || is_some e.modified_end_tag_name
    then some (e.modified_end_tag_name, e.end_tag_mutations)
    else none

-- The closure.
unfoldable pub handle_end_tag : EndTagHandler → EndTag → EndTag
handle_end_tag (none, none) t = t
handle_end_tag (some name, none) t = record t { name = name; raw = none }
handle_end_tag (none, some m) t = record t { mutations = m }
handle_end_tag (some name, some m) t = record t { name = name; raw = none; mutations = m }

module _ (encode : List ℕ → List ℕ) (memchr3 : ℕ → ℕ → ℕ → List ℕ → Option ℕ) where
  -- An insertion into the mutations of the start tag, and of the end tag.
  abbrev pub on_start_tag : Element → (Mutations → Option Mutations) → Option Element
  on_start_tag e f = Option.map (with_start_tag_mutations e) (f e.start_tag.mutations)

  unfoldable pub on_end_tag : Element → (Mutations → Option Mutations) → Option Element
  unfolding end_tag_mutations_mut
  on_end_tag e f = Option.map (with_end_tag_mutations e) (f (end_tag_mutations_mut e))

  unfoldable pub before : List ℕ → ContentType → Element → Option Element
  before content t e = on_start_tag e (Mutations.before encode memchr3 content t)

  unfoldable pub after : List ℕ → ContentType → Element → Option Element
  unfolding on_end_tag
  after content t e =
      if e.can_have_content
      then on_end_tag e (Mutations.after encode memchr3 content t)
      else on_start_tag e (Mutations.after encode memchr3 content t)

  unfoldable pub prepend : List ℕ → ContentType → Element → Option Element
  prepend content t e =
      if e.can_have_content
      then on_start_tag e (Mutations.after encode memchr3 content t)
      else some e

  unfoldable pub append : List ℕ → ContentType → Element → Option Element
  unfolding on_end_tag
  append content t e =
      if e.can_have_content
      then on_end_tag e (Mutations.before encode memchr3 content t)
      else some e

  unfoldable pub set_inner_content : List ℕ → ContentType → Element → Option Element
  unfolding remove_content
  set_inner_content content t e =
      if e.can_have_content
      then on_start_tag (remove_content e) (Mutations.after encode memchr3 content t)
      else some e

  unfoldable pub replace : List ℕ → ContentType → Element → Option Element
  unfolding remove_content_and_end_tag
  replace content t e =
      Option.map remove_content_and_end_tag
        (on_start_tag e (Mutations.replace encode memchr3 content t))
