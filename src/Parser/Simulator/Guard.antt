-- ===== src/Parser/Simulator/Guard.antt =====
-- src/parser/tree_builder_simulator/ambiguity_guard.rs: the guard stops the parser where it
-- cannot know whether a tag that switches the text type is ignored by a browser.
pub mod Ambiguity
pub mod Templates
use lol_html.Base.Outcome.{Outcome, ok, err, panic}
use lol_html.Html.LocalName.{LocalNameHash, hash_is, is_one_of}
use lol_html.Html.Tag.{Tag}
use lol_html.Prelude.{ℕ, ◌+◌, ◌-◌, ◌%◌, ◌^◌, not, List, [], ◌∷◌, ◌≢◌, arith, ◌==◌, if◌then◌else◌}

pub data State : Type 0 where
  default in_select : State
  in_template_in_select : ℕ → State
  in_or_after_frameset : State

-- `on_tag_name` is kept as the hash; `tag_hash_to_string` only spells it.
pub data AmbiguityError : Type 0 where
  on_tag_name : LocalNameHash → AmbiguityError

abbrev pub text_switching_tags : List Tag
text_switching_tags =
    Tag.textarea ∷ Tag.title ∷ Tag.plaintext ∷ Tag.script ∷ Tag.style ∷ Tag.iframe ∷ Tag.xmp
    ∷ Tag.noembed ∷ Tag.noframes ∷ Tag.noscript ∷ []

unfoldable pub assert_not_ambigious_text_type_switch :
    State → LocalNameHash → Outcome AmbiguityError State
assert_not_ambigious_text_type_switch state tag_name =
    if is_one_of tag_name text_switching_tags then err (on_tag_name tag_name) else ok state

-- `depth` is a u64.
unfoldable pub track_start_tag : State → LocalNameHash → Outcome AmbiguityError State
unfolding assert_not_ambigious_text_type_switch
track_start_tag default tag_name =
    if hash_is tag_name Tag.select
    then ok in_select
    else if hash_is tag_name Tag.frameset
    then ok in_or_after_frameset
    else ok default
track_start_tag in_select tag_name =
    if is_one_of tag_name (Tag.select ∷ Tag.textarea ∷ Tag.input ∷ Tag.keygen ∷ [])
    then ok default
    else if hash_is tag_name Tag.template
    then ok (in_template_in_select 1)
    else if not (hash_is tag_name Tag.script)
    then assert_not_ambigious_text_type_switch in_select tag_name
    else ok in_select
track_start_tag (in_template_in_select depth) tag_name =
    if hash_is tag_name Tag.template
    then ok (in_template_in_select ((depth + 1) % 2 ^ 64))
    else assert_not_ambigious_text_type_switch (in_template_in_select depth) tag_name
track_start_tag in_or_after_frameset tag_name =
    if not (hash_is tag_name Tag.noframes)
    then assert_not_ambigious_text_type_switch in_or_after_frameset tag_name
    else ok in_or_after_frameset

unfoldable pub track_end_tag : State → LocalNameHash → State
track_end_tag in_select tag_name = if hash_is tag_name Tag.select then default else in_select
track_end_tag (in_template_in_select depth) tag_name =
    if hash_is tag_name Tag.template
    then (if depth == 1 then in_select else in_template_in_select ((depth + 2 ^ 64 - 1) % 2 ^ 64))
    else in_template_in_select depth
track_end_tag default tag_name = default
track_end_tag in_or_after_frameset tag_name = in_or_after_frameset

pub track-ne-panic : (s : State) (tag_name : LocalNameHash) → track_start_tag s tag_name ≢ panic
unfolding track_start_tag assert_not_ambigious_text_type_switch
track-ne-panic s tag_name = ground arith
