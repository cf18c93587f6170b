-- ===== src/Tests/Simulating.antt =====
-- The simulator and its guard on short runs of tags.
use lol_html.Base.Outcome.{ok, err, Safely}
use lol_html.Base.Range.{slice}
use lol_html.Html.LocalName.{LocalNameHash, hash_is}
use lol_html.Html.Tag.Names.{codes}
use lol_html.Html.Tag.{Tag, tag_value}
use lol_html.Html.TextType.{html, svg_ns}
use lol_html.Parser.Outline.{TagLexeme, start_tag, part}
use lol_html.Parser.Simulator.Callbacks.{IsFinal, call-Final}
use lol_html.Parser.Simulator.Guard.Templates.{
  track_all, track_all-balanced, Balanced, nothing, start_then, end_then, template_then, tags_of,
}
use lol_html.Parser.Simulator.Guard.{
  AmbiguityError, in_select, in_template_in_select, track_start_tag,
}
use lol_html.Parser.Simulator.Namespaces.{
  IsGood, IsWellFormed, start_tag-WellFormed, end_tag-WellFormed,
}
use lol_html.Parser.Simulator.{
  TreeBuilderSimulator, get_feedback_for_start_tag, get_feedback_for_end_tag, call,
  leave_on_font_attribute,
}
use lol_html.Prelude.{true, false, [], ◌∷◌, some, ◌≡◌, ◌⊎◌, arith, refl}

abbrev hash_of : Tag → LocalNameHash
hash_of tag = some (tag_value tag)

-- The simulator inside `<svg>`, in strict mode.
abbrev in_svg : TreeBuilderSimulator
in_svg = record {
  ns_stack = svg_ns ∷ html ∷ [];
  current_ns = svg_ns;
  ambiguity_guard = in_select;
  strict = true;
}

in_svg-IsWellFormed : IsWellFormed in_svg
in_svg-IsWellFormed = record { below = html ∷ []; stack_is = refl; bottom = refl }

start_tag-WellFormed_example :
    Safely IsGood
      (λ e. (true ≡ true) × (track_start_tag in_select (hash_of Tag.p) ≡ err e))
      (get_feedback_for_start_tag in_svg (hash_of Tag.p))
start_tag-WellFormed_example = start_tag-WellFormed in_svg (hash_of Tag.p) in_svg-IsWellFormed

end_tag-WellFormed_example :
    Safely IsGood (λ _. ⊥) (get_feedback_for_end_tag in_svg (hash_of Tag.svg))
end_tag-WellFormed_example = end_tag-WellFormed in_svg (hash_of Tag.svg) in_svg-IsWellFormed

-- `<font color>`
abbrev font_lexeme : TagLexeme
font_lexeme = record {
  input = codes "<font color>";
  raw_range = record { start = 0; end = 12 };
  token_outline = start_tag (record {
    name = record { start = 1; end = 5 };
    name_hash = hash_of Tag.font;
    ns = svg_ns;
    self_closing = false;
  });
  attributes =
      record {
        name = record { start = 6; end = 11 };
        value = record { start = 11; end = 11 };
        raw_range = record { start = 6; end = 11 };
      }
      ∷ [];
}

call-Final_example : Safely IsFinal (λ _. ⊥) (call leave_on_font_attribute in_svg font_lexeme)
unfolding part slice
call-Final_example =
    call-Final leave_on_font_attribute in_svg font_lexeme in_svg-IsWellFormed
      (record { prev = html; rest = []; stack_is = refl; bottom = refl })
      ((codes "font", refl), ((codes "color", refl), ([], refl), tt))

-- `<option><template></template></option>` in a template.
abbrev content : Balanced
content = start_then (hash_of Tag.b) (template_then nothing (end_then (hash_of Tag.b) nothing))

track_all-balanced_example :
    (track_all (in_template_in_select 1) (tags_of content) ≡ ok (in_template_in_select 1))
    ⊎ ((e : AmbiguityError) × (track_all (in_template_in_select 1) (tags_of content) ≡ err e))
unfolding hash_is
track_all-balanced_example =
    track_all-balanced content 1 (refl, (tt, (refl, tt))) (omega arith) (omega arith)
