-- ===== src/Parser/Lexer.antt =====
-- src/parser/lexer/mod.rs: the lexer's state and the making and emitting of lexemes. The `Core`
-- of the machine holds the fields that the tag scanner has too. The sink is a parameter, and the
-- simulator, shared by an `Rc` with the tag scanner, is part of the state of whichever runs.
pub mod Actions
pub mod Cursor
use lol_html.Base.Outcome.{Outcome, ok, err, panic, ◌>>=◌}
use lol_html.Base.Range.{Range, align}
use lol_html.Html.LocalName.{LocalNameHash, new_hash}
use lol_html.Html.TextType.{TextType, data_}
use lol_html.Parser.Directive.{
  RewritingError, parsing_ambiguity, ParserDirective, FeedbackDirective, StateMachineBookmark,
}
use lol_html.Parser.Machine.{
  Machine, Core, Exit, rewriting_error, parser_directive_change_required, Result, pos, set_ext,
  set_last_text_type,
}
use lol_html.Parser.Outline.{
  AttributeOutline, TagTokenOutline, start_tag, end_tag, NonTagContentTokenOutline, Lexeme,
  TagLexeme, NonTagContentLexeme, align_tag, align_attributes, align_attribute, align_non_tag,
}
use lol_html.Parser.Simulator.Guard.{AmbiguityError}
use lol_html.Parser.Simulator.{
  TreeBuilderSimulator, TreeBuilderFeedback, switch_text_type, set_allow_cdata, request_lexeme,
  call, get_feedback_for_start_tag, get_feedback_for_end_tag, new_simulator, Answer,
}
use lol_html.Parser.Syntax.{State}
use lol_html.Prelude.{ℕ, zero, suc, ◌+◌, Bool, true, false, List, [], Option, none, some}

-- The trait `LexemeSink`.
pub record LexemeSink (S : Type 0) : Type 0 where
  pub handle_tag : TagLexeme → S → Outcome RewritingError (S × ParserDirective)
  pub handle_non_tag_content : NonTagContentLexeme → S → Outcome RewritingError S

pub record LexerState (S : Type 0) : Type 0 where
  pub lexeme_start : ℕ
  pub token_part_start : ℕ
  pub lexeme_sink : S
  pub current_tag_token : Option TagTokenOutline
  pub current_non_tag_content_token : Option NonTagContentTokenOutline
  pub current_attr : Option AttributeOutline
  pub attr_buffer : List AttributeOutline
  pub tree_builder_simulator : TreeBuilderSimulator
  pub feedback_directive : FeedbackDirective

abbrev pub Lexer : Type 0 → Type 0
Lexer S = Machine (LexerState S)

unfoldable pub new_lexer : {S : Type 0} → S → TreeBuilderSimulator → Lexer S
new_lexer sink simulator = record {
  core = record {
    next_pos = 0;
    is_last_input = false;
    is_state_enter = true;
    cdata_allowed = false;
    state = State.data_state;
    last_start_tag_name_hash = none;
    closing_quote = b'"';
    last_text_type = data_;
  };
  ext = record {
    lexeme_start = 0;
    token_part_start = 0;
    lexeme_sink = sink;
    current_tag_token = none;
    current_non_tag_content_token = none;
    current_attr = none;
    attr_buffer = [];
    tree_builder_simulator = simulator;
    feedback_directive = FeedbackDirective.none;
  };
}

-- `map_err` into an `ActionError`.
abbrev pub rewriting : {X A : Type 0} → Outcome RewritingError A → Result X A
rewriting (ok a) = ok a
rewriting (err e) = err (rewriting_error e)
rewriting panic = panic

abbrev pub ambiguity : {A : Type 0} → Outcome AmbiguityError A → Outcome RewritingError A
ambiguity (ok a) = ok a
ambiguity (err e) = err (parsing_ambiguity e)
ambiguity panic = panic

abbrev pub align_option_of : {A : Type 0} → (ℕ → A → A) → ℕ → Option A → Option A
align_option_of f offset none = none
align_option_of f offset (some a) = some (f offset a)

-- `adjust_for_next_input`. The attributes are those that a current start tag shares.
abbrev pub align_shared : ℕ → Option TagTokenOutline → List AttributeOutline → List AttributeOutline
align_shared offset none attrs = attrs
align_shared offset (some t) attrs = align_attributes offset t attrs

unfoldable pub adjust_for_next_input : {S : Type 0} → LexerState S → LexerState S
unfolding align align_tag align_attributes align_attribute align_non_tag
adjust_for_next_input x = record x {
  token_part_start = align x.lexeme_start x.token_part_start;
  current_tag_token = align_option_of align_tag x.lexeme_start x.current_tag_token;
  attr_buffer = align_shared x.lexeme_start x.current_tag_token x.attr_buffer;
  current_non_tag_content_token =
      align_option_of align_non_tag x.lexeme_start x.current_non_tag_content_token;
  current_attr = align_option_of align_attribute x.lexeme_start x.current_attr;
  lexeme_start = 0;
}

unfoldable pub adjust_to_bookmark :
    {S : Type 0} → ℕ → FeedbackDirective → LexerState S → LexerState S
adjust_to_bookmark pos directive x = record x { lexeme_start = pos; feedback_directive = directive }

abbrev pub create_lexeme : {S T : Type 0} → List ℕ → T → ℕ → Lexer S → Lexeme T
create_lexeme input token raw_end m = record {
  input = input;
  raw_range = record { start = m.ext.lexeme_start; end = raw_end };
  token_outline = token;
  attributes = m.ext.attr_buffer;
}

abbrev pub lexeme_with_raw_inclusive : {S T : Type 0} → List ℕ → T → Lexer S → Lexeme T
lexeme_with_raw_inclusive input token m = create_lexeme input token (pos m + 1) m

abbrev pub lexeme_with_raw_exclusive : {S T : Type 0} → List ℕ → T → Lexer S → Lexeme T
lexeme_with_raw_exclusive input token m = create_lexeme input token (pos m) m

-- The simulator's feedback on a tag.
unfoldable pub feedback_for : TagTokenOutline → TreeBuilderSimulator → Answer
feedback_for (start_tag t) simulator = get_feedback_for_start_tag simulator t.name_hash
feedback_for (end_tag t) simulator = get_feedback_for_end_tag simulator t.name_hash

abbrev some_feedback :
    TreeBuilderSimulator × TreeBuilderFeedback → TreeBuilderSimulator × Option TreeBuilderFeedback
some_feedback (simulator, feedback) = (simulator, some feedback)

-- The match of `try_get_tree_builder_feedback` on the directive taken.
unfoldable pub directed_feedback :
    FeedbackDirective
    → TagTokenOutline
    → TreeBuilderSimulator
    → Outcome AmbiguityError (TreeBuilderSimulator × Option TreeBuilderFeedback)
unfolding feedback_for
directed_feedback (FeedbackDirective.apply_unhandled_feedback f) token simulator =
    ok (simulator, some f)
directed_feedback FeedbackDirective.skip token simulator = ok (simulator, none)
directed_feedback FeedbackDirective.none token simulator =
    feedback_for token simulator >>= λ answer. ok (some_feedback answer)

-- `handle_tree_builder_feedback`. A callback answers with no other request, so that one nested
-- call is all there is; a second would be a loop.
unfoldable pub apply_feedback :
    {S : Type 0} → TreeBuilderFeedback → Lexer S → Result (LexerState S) (Lexer S)
apply_feedback (switch_text_type t) m = ok (set_last_text_type t m)
apply_feedback (set_allow_cdata b) m =
    ok (record m { core = record (m.core) { cdata_allowed = b } })
apply_feedback TreeBuilderFeedback.none m = ok m
apply_feedback (request_lexeme _) m = panic

abbrev pub set_simulator : {S : Type 0} → TreeBuilderSimulator → Lexer S → Lexer S
set_simulator simulator m = set_ext (record (m.ext) { tree_builder_simulator = simulator }) m

unfoldable pub handle_tree_builder_feedback :
    {S : Type 0} → TreeBuilderFeedback → TagLexeme → Lexer S → Result (LexerState S) (Lexer S)
unfolding apply_feedback
handle_tree_builder_feedback (request_lexeme callback) lexeme m =
    rewriting (ambiguity (call callback m.ext.tree_builder_simulator lexeme)) >>= λ answer.
    apply_feedback (answer.1) (set_simulator (answer.0) m)
handle_tree_builder_feedback (switch_text_type t) lexeme m = apply_feedback (switch_text_type t) m
handle_tree_builder_feedback (set_allow_cdata b) lexeme m = apply_feedback (set_allow_cdata b) m
handle_tree_builder_feedback TreeBuilderFeedback.none lexeme m = ok m

-- `create_bookmark`.
abbrev pub create_bookmark : {X : Type 0} → ℕ → FeedbackDirective → Machine X → StateMachineBookmark
create_bookmark pos directive m = record {
  cdata_allowed = m.core.cdata_allowed;
  text_type = m.core.last_text_type;
  last_start_tag_name_hash = m.core.last_start_tag_name_hash;
  pos = pos;
  feedback_directive = directive;
}

-- `change_parser_directive`.
abbrev pub change_parser_directive :
    {X A : Type 0} → ℕ → ParserDirective → FeedbackDirective → Machine X → Result X A
change_parser_directive pos directive feedback m =
    err (parser_directive_change_required directive (create_bookmark pos feedback m) m)

module _ {S : Type 0} (sink : LexemeSink S) where
  -- `emit_lexeme`.
  unfoldable pub emit_lexeme : NonTagContentLexeme → Lexer S → Result (LexerState S) (Lexer S)
  emit_lexeme lexeme m = rewriting (sink.handle_non_tag_content lexeme m.ext.lexeme_sink) >>= λ s.
      ok (set_ext (record (m.ext) { lexeme_start = lexeme.raw_range.end; lexeme_sink = s }) m)

  -- The end of `emit_tag`, on the sink's answer.
  unfoldable pub on_directive : ParserDirective → Lexer S → Result (LexerState S) (Lexer S)
  on_directive ParserDirective.lex m = ok m
  on_directive ParserDirective.where_possible_scan_for_tags_only m =
      change_parser_directive m.ext.lexeme_start ParserDirective.where_possible_scan_for_tags_only
        FeedbackDirective.none m

  -- `emit_tag_lexeme`, and the end of `emit_tag`.
  unfoldable pub emit_tag_lexeme : TagLexeme → Lexer S → Result (LexerState S) (Lexer S)
  unfolding on_directive
  emit_tag_lexeme lexeme m = rewriting (sink.handle_tag lexeme m.ext.lexeme_sink) >>= λ answer.
      on_directive (answer.1)
        (set_ext (record (m.ext) { lexeme_start = lexeme.raw_range.end; lexeme_sink = answer.0 }) m)
