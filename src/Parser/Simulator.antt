-- ===== src/Parser/Simulator.antt =====
-- src/parser/tree_builder_simulator/mod.rs: what the tree construction stage would tell the
-- parser, found from the tag names seen. A boxed closure that asks for the lexeme is a value of
-- `Callback`, and `call` runs it. The stack of namespaces has its top first.
pub mod Guard
pub mod Namespaces
pub mod Callbacks
use lol_html.Base.Outcome.{Outcome, ok, err, panic, ◌>>=◌, expect}
use lol_html.Html.LocalName.{LocalNameHash, hash_is, is_one_of, is_empty, lower}
use lol_html.Html.Tag.Names.{codes}
use lol_html.Html.Tag.{Tag}
use lol_html.Html.TextType.{
  Namespace, html, svg_ns, math_ml, ns_eq, TextType, rc_data, plain_text, script_data, raw_text,
}
use lol_html.Parser.Outline.{AttributeOutline, TagTokenOutline, start_tag, end_tag, TagLexeme, part}
use lol_html.Parser.Simulator.Guard.{State, AmbiguityError, track_start_tag, track_end_tag}
use lol_html.Prelude.{
  ℕ, Bool, true, false, not, ◌&&◌, ◌||◌, List, [], ◌∷◌, ◌==◌, if◌then◌else◌, length,
}

pub data Callback : Type 0 where
  leave_on_annotation_xml enter_unless_self_closing : Callback
  leave_on_font_attribute enter_on_annotation_xml : Callback

pub data TreeBuilderFeedback : Type 0 where
  switch_text_type : TextType → TreeBuilderFeedback
  set_allow_cdata : Bool → TreeBuilderFeedback
  request_lexeme : Callback → TreeBuilderFeedback
  none : TreeBuilderFeedback

unfoldable pub eq_case_insensitive : List ℕ → List ℕ → Bool
eq_case_insensitive [] [] = true
eq_case_insensitive (a ∷ actual) (e ∷ expected) =
    lower a == e && eq_case_insensitive actual expected
eq_case_insensitive _ _ = false

unfoldable pub get_text_type_adjustment : LocalNameHash → TreeBuilderFeedback
get_text_type_adjustment tag_name =
    if is_one_of tag_name (Tag.textarea ∷ Tag.title ∷ [])
    then switch_text_type rc_data
    else if hash_is tag_name Tag.plaintext
    then switch_text_type plain_text
    else if hash_is tag_name Tag.script
    then switch_text_type script_data
    else if is_one_of tag_name
        (Tag.style ∷ Tag.iframe ∷ Tag.xmp ∷ Tag.noembed ∷ Tag.noframes ∷ Tag.noscript ∷ [])
    then switch_text_type raw_text
    else none

abbrev foreign_content_exit_tags : List Tag
foreign_content_exit_tags =
    Tag.b ∷ Tag.big ∷ Tag.blockquote ∷ Tag.body ∷ Tag.br ∷ Tag.center ∷ Tag.code ∷ Tag.dd ∷ Tag.div
    ∷ Tag.dl ∷ Tag.dt ∷ Tag.em ∷ Tag.embed ∷ Tag.h1 ∷ Tag.h2 ∷ Tag.h3 ∷ Tag.h4 ∷ Tag.h5 ∷ Tag.h6
    ∷ Tag.head ∷ Tag.hr ∷ Tag.i ∷ Tag.img ∷ Tag.li ∷ Tag.listing ∷ Tag.menu ∷ Tag.meta ∷ Tag.nobr
    ∷ Tag.ol ∷ Tag.p ∷ Tag.pre ∷ Tag.ruby ∷ Tag.s ∷ Tag.small ∷ Tag.span ∷ Tag.strong ∷ Tag.strike
    ∷ Tag.sub ∷ Tag.sup ∷ Tag.table ∷ Tag.tt ∷ Tag.u ∷ Tag.ul ∷ Tag.var ∷ []

unfoldable pub causes_foreign_content_exit : LocalNameHash → Bool
causes_foreign_content_exit tag_name = is_one_of tag_name foreign_content_exit_tags

unfoldable pub is_text_integration_point_in_math_ml : LocalNameHash → Bool
is_text_integration_point_in_math_ml tag_name =
    is_one_of tag_name (Tag.mi ∷ Tag.mo ∷ Tag.mn ∷ Tag.ms ∷ Tag.mtext ∷ [])

unfoldable pub is_html_integration_point_in_svg : LocalNameHash → Bool
is_html_integration_point_in_svg tag_name =
    is_one_of tag_name (Tag.desc ∷ Tag.title ∷ Tag.foreign_object ∷ [])

pub record TreeBuilderSimulator : Type 0 where
  pub ns_stack : List Namespace
  pub current_ns : Namespace
  pub ambiguity_guard : State
  pub strict : Bool

unfoldable pub new_simulator : Bool → TreeBuilderSimulator
new_simulator strict = record {
  ns_stack = html ∷ [];
  current_ns = html;
  ambiguity_guard = State.default;
  strict = strict;
}

-- A method's new state and its feedback.
abbrev pub Answer : Type 0
Answer = Outcome AmbiguityError (TreeBuilderSimulator × TreeBuilderFeedback)

unfoldable pub enter_ns : Namespace → TreeBuilderSimulator → Answer
enter_ns ns s = ok (
  record s { ns_stack = ns ∷ s.ns_stack; current_ns = ns },
  set_allow_cdata (not (ns_eq ns html)),
)

-- `leave_ns` on a stack whose top has been popped.
leave_to : List Namespace → TreeBuilderSimulator → Answer
leave_to [] s = panic
leave_to (ns ∷ rest) s =
    ok (record s { ns_stack = ns ∷ rest; current_ns = ns }, set_allow_cdata (not (ns_eq ns html)))

abbrev pop : List Namespace → List Namespace
pop [] = []
pop (_ ∷ rest) = rest

unfoldable pub leave_ns : TreeBuilderSimulator → Answer
unfolding leave_to
leave_ns s = leave_to (pop s.ns_stack) s

unfoldable pub is_integration_point_enter : TreeBuilderSimulator → LocalNameHash → Bool
unfolding is_text_integration_point_in_math_ml is_html_integration_point_in_svg
is_integration_point_enter s tag_name =
    (ns_eq s.current_ns svg_ns && is_html_integration_point_in_svg tag_name)
    || (ns_eq s.current_ns math_ml && is_text_integration_point_in_math_ml tag_name)

-- The checks of `check_integration_point_exit`, on the namespace below the top.
exit_to : Namespace → TreeBuilderSimulator → LocalNameHash → Answer
unfolding leave_ns is_text_integration_point_in_math_ml is_html_integration_point_in_svg
exit_to prev_ns s tag_name =
    if (ns_eq prev_ns math_ml && is_text_integration_point_in_math_ml tag_name)
      || (ns_eq prev_ns svg_ns && is_html_integration_point_in_svg tag_name)
    then leave_ns s
    else if is_empty tag_name && ns_eq prev_ns math_ml
    then ok (s, request_lexeme leave_on_annotation_xml)
    else ok (s, none)

check_exit : List Namespace → TreeBuilderSimulator → LocalNameHash → Answer
unfolding exit_to
check_exit (_ ∷ prev_ns ∷ _) s tag_name = exit_to prev_ns s tag_name
check_exit _ s tag_name = ok (s, none)

unfoldable pub check_integration_point_exit : TreeBuilderSimulator → LocalNameHash → Answer
unfolding check_exit
check_integration_point_exit s tag_name = check_exit s.ns_stack s tag_name

unfoldable pub get_feedback_for_start_tag_in_foreign_content :
    TreeBuilderSimulator → LocalNameHash → Answer
unfolding causes_foreign_content_exit is_integration_point_enter leave_ns
get_feedback_for_start_tag_in_foreign_content s tag_name =
    if causes_foreign_content_exit tag_name
    then leave_ns s
    else if is_integration_point_enter s tag_name
    then ok (s, request_lexeme enter_unless_self_closing)
    else if hash_is tag_name Tag.font
    then ok (s, request_lexeme leave_on_font_attribute)
    else if is_empty tag_name && ns_eq s.current_ns math_ml
    then ok (s, request_lexeme enter_on_annotation_xml)
    else ok (s, none)

-- `get_feedback_for_start_tag` once the guard has let the tag pass.
start_tag_feedback : TreeBuilderSimulator → LocalNameHash → Answer
unfolding enter_ns get_feedback_for_start_tag_in_foreign_content get_text_type_adjustment
start_tag_feedback s tag_name =
    if hash_is tag_name Tag.svg
    then enter_ns svg_ns s
    else if hash_is tag_name Tag.math
    then enter_ns math_ml s
    else if not (ns_eq s.current_ns html)
    then get_feedback_for_start_tag_in_foreign_content s tag_name
    else ok (s, get_text_type_adjustment tag_name)

unfoldable pub get_feedback_for_start_tag : TreeBuilderSimulator → LocalNameHash → Answer
unfolding start_tag_feedback
get_feedback_for_start_tag s tag_name =
    if s.strict
    then (track_start_tag s.ambiguity_guard tag_name >>= λ g.
        start_tag_feedback (record s { ambiguity_guard = g }) tag_name)
    else start_tag_feedback s tag_name

end_tag_feedback : TreeBuilderSimulator → LocalNameHash → Answer
unfolding check_integration_point_exit leave_ns
end_tag_feedback s tag_name =
    if ns_eq s.current_ns html
    then check_integration_point_exit s tag_name
    else if (ns_eq s.current_ns svg_ns && hash_is tag_name Tag.svg)
        || (ns_eq s.current_ns math_ml && hash_is tag_name Tag.math)
    then leave_ns s
    else ok (s, none)

unfoldable pub get_feedback_for_end_tag : TreeBuilderSimulator → LocalNameHash → Answer
unfolding end_tag_feedback
get_feedback_for_end_tag s tag_name =
    end_tag_feedback
      (if s.strict
        then record s { ambiguity_guard = track_end_tag s.ambiguity_guard tag_name }
        else s)
      tag_name

-- The loop over the attributes of a `<font>` tag.
font_loop : TreeBuilderSimulator → TagLexeme → List AttributeOutline → Answer
unfolding leave_ns part eq_case_insensitive
font_loop s lexeme [] = ok (s, none)
font_loop s lexeme (attr ∷ attrs) =
    let rest = font_loop s lexeme attrs in
    expect (part lexeme attr.name) >>= λ name.
    if eq_case_insensitive name (codes "color")
      || eq_case_insensitive name (codes "size")
      || eq_case_insensitive name (codes "face")
    then leave_ns s
    else rest

-- The loop over the attributes of an `<annotation-xml>` tag.
encoding_loop : TreeBuilderSimulator → TagLexeme → List AttributeOutline → Answer
unfolding enter_ns part eq_case_insensitive
encoding_loop s lexeme [] = ok (s, none)
encoding_loop s lexeme (attr ∷ attrs) =
    let rest = encoding_loop s lexeme attrs in
    expect (part lexeme attr.name) >>= λ name. expect (part lexeme attr.value) >>= λ value.
    if eq_case_insensitive name (codes "encoding")
      && (eq_case_insensitive value (codes "text/html")
          || eq_case_insensitive value (codes "application/xhtml+xml"))
    then enter_ns html s
    else rest

call_on : Callback → TagTokenOutline → TreeBuilderSimulator → TagLexeme → Answer
unfolding leave_ns enter_ns part eq_case_insensitive font_loop encoding_loop
call_on leave_on_annotation_xml (end_tag t) s lexeme = expect (part lexeme t.name) >>= λ name.
    if eq_case_insensitive name (codes "annotation-xml") then leave_ns s else ok (s, none)
call_on enter_unless_self_closing (start_tag t) s lexeme =
    if t.self_closing then ok (s, none) else enter_ns html s
call_on leave_on_font_attribute (start_tag t) s lexeme = font_loop s lexeme lexeme.attributes
call_on enter_on_annotation_xml (start_tag t) s lexeme = expect (part lexeme t.name) >>= λ name.
    if not t.self_closing && eq_case_insensitive name (codes "annotation-xml")
    then encoding_loop s lexeme lexeme.attributes
    else ok (s, none)
-- `expect_tag!` meets a tag of the other kind.
call_on _ _ s lexeme = panic

unfoldable pub call : Callback → TreeBuilderSimulator → TagLexeme → Answer
unfolding call_on
call c s lexeme = call_on c lexeme.token_outline s lexeme
