-- ===== src/Parser/Simulator/Guard/Ambiguity.antt =====
-- Which start tags the guard refuses, described apart from the transitions.
use lol_html.Base.Outcome.{Outcome, err}
use lol_html.Html.LocalName.{LocalNameHash, hash_is, is_one_of}
use lol_html.Html.Tag.{Tag}
use lol_html.Parser.Simulator.Guard.{
  State, default, in_select, in_template_in_select, in_or_after_frameset, AmbiguityError,
  on_tag_name,
}
use lol_html.Prelude.{Bool, true, false, [], ◌∷◌, Option, none, some}

-- The tags of a text type that a browser is known not to ignore in the state.
abbrev pub is_surely_kept : State → LocalNameHash → Bool
is_surely_kept default tag_name = true
is_surely_kept in_select tag_name = is_one_of tag_name (Tag.textarea ∷ Tag.script ∷ [])
is_surely_kept (in_template_in_select depth) tag_name = false
is_surely_kept in_or_after_frameset tag_name = hash_is tag_name Tag.noframes

abbrev pub refused : Outcome AmbiguityError State → Option LocalNameHash
refused (err (on_tag_name tag_name)) = some tag_name
refused _ = none
