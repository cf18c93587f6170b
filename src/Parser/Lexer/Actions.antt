-- ===== src/Parser/Lexer/Actions.antt =====
-- src/parser/lexer/actions.rs and src/parser/lexer/conditions.rs.
use lol_html.Base.Outcome.{ok, ◌>>=◌, expect}
use lol_html.Base.Range.{Range, default_range}
use lol_html.Html.LocalName.{LocalNameHash, new_hash, update, hash_eq}
use lol_html.Html.TextType.{data_, html}
use lol_html.Parser.Lexer.{
  LexemeSink, LexerState, Lexer, rewriting, ambiguity, adjust_for_next_input, adjust_to_bookmark,
  lexeme_with_raw_inclusive, lexeme_with_raw_exclusive, directed_feedback,
  handle_tree_builder_feedback, emit_lexeme, emit_tag_lexeme,
}
use lol_html.Parser.Directive.{FeedbackDirective}
use lol_html.Parser.Machine.{Result, StateMachine, pos, set_ext, set_last_text_type, common_action}
use lol_html.Parser.Outline.{
  AttributeOutline, TagTokenOutline, start_tag, end_tag, NonTagContentTokenOutline, text, comment,
  doctype, eof, TagLexeme,
}
use lol_html.Parser.Simulator.{TreeBuilderFeedback, TreeBuilderSimulator}
use lol_html.Parser.Syntax.{Action}
use lol_html.Prelude.{
  ℕ, ◌+◌, ◌-◌, Bool, true, false, List, [], ◌∷◌, ◌++◌, Option, none, some, ltb, ◌==◌, if◌then◌else◌,
  get_elem?,
}

-- `get_token_part_range!`.
abbrev pub token_part_range : {S : Type 0} → Lexer S → Range
token_part_range m = record { start = m.ext.token_part_start; end = pos m }

abbrev pub start_token_part : {S : Type 0} → Lexer S → Lexer S
start_token_part m = set_ext (record (m.ext) { token_part_start = pos m }) m

-- Updates of the token in the making, each on its pattern only.
abbrev pub with_comment :
    (Range → Range) → Option NonTagContentTokenOutline → Option NonTagContentTokenOutline
with_comment f (some (comment r)) = some (comment (f r))
with_comment f token = token

abbrev pub set_force_quirks : Option NonTagContentTokenOutline → Option NonTagContentTokenOutline
set_force_quirks (some (doctype d)) = some (doctype (record d { force_quirks = true }))
set_force_quirks token = token

abbrev pub set_doctype_name :
    Range → Option NonTagContentTokenOutline → Option NonTagContentTokenOutline
set_doctype_name r (some (doctype d)) = some (doctype (record d { name = some r }))
set_doctype_name r token = token

abbrev pub set_public_id :
    Range → Option NonTagContentTokenOutline → Option NonTagContentTokenOutline
set_public_id r (some (doctype d)) = some (doctype (record d { public_id = some r }))
set_public_id r token = token

abbrev pub set_system_id :
    Range → Option NonTagContentTokenOutline → Option NonTagContentTokenOutline
set_system_id r (some (doctype d)) = some (doctype (record d { system_id = some r }))
set_system_id r token = token

abbrev pub set_tag_name : Range → TagTokenOutline → TagTokenOutline
set_tag_name r (start_tag t) = start_tag (record t { name = r })
set_tag_name r (end_tag t) = end_tag (record t { name = r })

abbrev pub update_tag_hash : ℕ → TagTokenOutline → TagTokenOutline
update_tag_hash ch (start_tag t) = start_tag (record t { name_hash = update t.name_hash ch })
update_tag_hash ch (end_tag t) = end_tag (record t { name_hash = update t.name_hash ch })

abbrev pub set_self_closing : Option TagTokenOutline → Option TagTokenOutline
set_self_closing (some (start_tag t)) = some (start_tag (record t { self_closing = true }))
set_self_closing token = token

-- `raw_range.end` takes in the closing quote where there is one.
abbrev pub value_end : Option ℕ → ℕ → ℕ → ℕ
value_end none quote end_ = end_
value_end (some ch) quote end_ = if ch == quote then end_ + 1 else end_

abbrev pub set_tag_token : {S : Type 0} → Option TagTokenOutline → Lexer S → Lexer S
set_tag_token token m = set_ext (record (m.ext) { current_tag_token = token }) m

abbrev pub set_non_tag_token : {S : Type 0} → Option NonTagContentTokenOutline → Lexer S → Lexer S
set_non_tag_token token m = set_ext (record (m.ext) { current_non_tag_content_token = token }) m

-- The `if let StartTag` of `emit_tag`: the token gets the current namespace.
abbrev pub with_ns : TreeBuilderSimulator → TagTokenOutline → TagTokenOutline
with_ns simulator (start_tag t) = start_tag (record t { ns = simulator.current_ns })
with_ns simulator (end_tag t) = end_tag t

abbrev pub remember_start_tag : {S : Type 0} → TagTokenOutline → Lexer S → Lexer S
remember_start_tag (start_tag t) m = record m {
  core = record (m.core) { last_start_tag_name_hash = t.name_hash };
}
remember_start_tag (end_tag t) m = m

unfoldable pub handle_some :
    {S : Type 0}
    → Option TreeBuilderFeedback
    → TagLexeme
    → Lexer S
    → Result (LexerState S) (Lexer S)
unfolding handle_tree_builder_feedback
handle_some none lexeme m = ok m
handle_some (some feedback) lexeme m = handle_tree_builder_feedback feedback lexeme m

abbrev pub start_attr : {S : Type 0} → Option TagTokenOutline → Lexer S → Lexer S
start_attr (some (start_tag _)) m =
    set_ext
      (record (m.ext) {
        current_attr =
            some
              (record { name = default_range; value = default_range; raw_range = default_range });
        token_part_start = pos m;
      })
      m
start_attr _ m = m

abbrev pub finish_attr_name : Range → Option AttributeOutline → Option AttributeOutline
finish_attr_name r none = none
finish_attr_name r (some a) = some (record a { name = r; raw_range = r })

abbrev pub finish_attr_value : Range → ℕ → Option AttributeOutline → Option AttributeOutline
finish_attr_value r raw_end none = none
finish_attr_value r raw_end (some a) =
    some (record a { value = r; raw_range = record (a.raw_range) { end = raw_end } })

abbrev pub finish_attr : {S : Type 0} → Option AttributeOutline → Lexer S → Lexer S
finish_attr none m = m
finish_attr (some a) m =
    set_ext (record (m.ext) { current_attr = none; attr_buffer = m.ext.attr_buffer ++ a ∷ [] }) m

abbrev pub update_hash_at : {S : Type 0} → Option ℕ → Lexer S → Result (LexerState S) (Lexer S)
update_hash_at none m = ok m
update_hash_at (some ch) m =
    expect m.ext.current_tag_token >>= λ t. ok (set_tag_token (some (update_tag_hash ch t)) m)

module _ {S : Type 0} (sink : LexemeSink S) where
  unfoldable pub emit_eof : List ℕ → Lexer S → Result (LexerState S) (Lexer S)
  unfolding emit_lexeme
  emit_eof input m = emit_lexeme sink (lexeme_with_raw_exclusive input (some eof) m) m

  unfoldable pub emit_tag : List ℕ → Lexer S → Result (LexerState S) (Lexer S)
  unfolding handle_some emit_tag_lexeme directed_feedback
  emit_tag input m = expect m.ext.current_tag_token >>= λ token.
      rewriting
        (ambiguity (directed_feedback m.ext.feedback_directive token m.ext.tree_builder_simulator))
      >>= λ answer.
          let taken =
            set_ext
              (record (m.ext) {
                current_tag_token = none;
                feedback_directive = FeedbackDirective.none;
                tree_builder_simulator = answer.0;
              })
              (set_last_text_type data_ m) in
          let lexeme = lexeme_with_raw_inclusive input token taken in
          handle_some (answer.1) lexeme taken >>= λ fed.
          emit_tag_lexeme sink
            (record lexeme { token_outline = with_ns fed.ext.tree_builder_simulator token })
            (remember_start_tag token fed)

  -- The lexer's own actions.
  unfoldable pub own_action : Action → List ℕ → Lexer S → Result (LexerState S) (Lexer S)
  unfolding emit_eof emit_tag emit_lexeme
  own_action Action.emit_eof input m = emit_eof input m
  own_action Action.emit_text input m =
      if ltb m.ext.lexeme_start (pos m)
      then emit_lexeme sink (lexeme_with_raw_exclusive input (some (text m.core.last_text_type)) m)
          m
      else ok m
  own_action Action.emit_current_token input m =
      emit_lexeme sink (lexeme_with_raw_inclusive input m.ext.current_non_tag_content_token m)
        (set_non_tag_token none m)
  own_action Action.emit_tag input m = emit_tag input m
  own_action Action.emit_current_token_and_eof input m =
      emit_lexeme sink (lexeme_with_raw_exclusive input m.ext.current_non_tag_content_token m)
        (set_non_tag_token none m)
      >>= emit_eof input
  own_action Action.emit_raw_without_token input m =
      emit_lexeme sink (lexeme_with_raw_inclusive input none m) m
  own_action Action.emit_raw_without_token_and_eof input m =
      emit_lexeme sink (lexeme_with_raw_exclusive input none m) m >>= emit_eof input
  own_action Action.create_start_tag input m = ok (
      set_ext
        (record (m.ext) {
          attr_buffer = [];
          current_tag_token = some (
              start_tag (record {
                name = default_range;
                name_hash = new_hash;
                ns = html;
                self_closing = false;
              }));
        })
        m)
  own_action Action.create_end_tag input m =
      ok (set_tag_token (some (end_tag (record { name = default_range; name_hash = new_hash }))) m)
  own_action Action.create_doctype input m = ok (
      set_non_tag_token
        (some (
          doctype
            (record { name = none; public_id = none; system_id = none; force_quirks = false })))
        m)
  own_action Action.create_comment input m = ok (set_non_tag_token (some (comment default_range)) m)
  own_action Action.start_token_part input m = ok (start_token_part m)
  own_action Action.mark_comment_text_end input m = ok (
      set_non_tag_token (with_comment (λ _. token_part_range m) m.ext.current_non_tag_content_token)
        m)
  own_action (Action.shift_comment_text_end_by offset) input m = ok (
      set_non_tag_token
        (with_comment (λ r. record r { end = r.end + offset }) m.ext.current_non_tag_content_token)
        m)
  own_action Action.set_force_quirks input m =
      ok (set_non_tag_token (set_force_quirks m.ext.current_non_tag_content_token) m)
  own_action Action.finish_doctype_name input m = ok (
      set_non_tag_token (set_doctype_name (token_part_range m) m.ext.current_non_tag_content_token)
        m)
  own_action Action.finish_doctype_public_id input m =
      ok (
        set_non_tag_token (set_public_id (token_part_range m) m.ext.current_non_tag_content_token)
          m)
  own_action Action.finish_doctype_system_id input m =
      ok (
        set_non_tag_token (set_system_id (token_part_range m) m.ext.current_non_tag_content_token)
          m)
  own_action Action.finish_tag_name input m = expect m.ext.current_tag_token >>= λ t.
      ok (set_tag_token (some (set_tag_name (token_part_range m) t)) m)
  own_action Action.update_tag_name_hash input m = update_hash_at (get_elem? input (pos m)) m
  own_action Action.mark_as_self_closing input m =
      ok (set_tag_token (set_self_closing m.ext.current_tag_token) m)
  own_action Action.start_attr input m = ok (start_attr m.ext.current_tag_token m)
  own_action Action.finish_attr_name input m = ok (
      set_ext
        (record (m.ext) { current_attr = finish_attr_name (token_part_range m) m.ext.current_attr })
        m)
  own_action Action.finish_attr_value input m = ok (
      set_ext
        (record (m.ext) {
          current_attr =
              finish_attr_value (token_part_range m)
                (value_end (get_elem? input (m.core.next_pos - 1)) m.core.closing_quote (pos m))
                m.ext.current_attr;
        })
        m)
  own_action Action.finish_attr input m = ok (finish_attr m.ext.current_attr m)
  -- `mark_tag_start` and `unmark_tag_start` do nothing; the rest is shared with the tag scanner.
  own_action _ input m = ok m

  unfoldable pub lexer_action : Action → List ℕ → Lexer S → Result (LexerState S) (Lexer S)
  unfolding own_action common_action
  lexer_action a input m = elim (common_action a m) [
    | some m' ↦ ok m'
    | none ↦ own_action a input m
  ]

-- `is_appropriate_end_tag`.
abbrev pub is_appropriate : LocalNameHash → Option TagTokenOutline → Option Bool
is_appropriate last (some (end_tag t)) = some (hash_eq last t.name_hash)
is_appropriate last _ = none

-- `impl StateMachine for Lexer`.
unfoldable pub lexer_machine : {S : Type 0} → LexemeSink S → StateMachine (LexerState S)
unfolding lexer_action adjust_for_next_input adjust_to_bookmark
lexer_machine sink = record {
  action = lexer_action sink;
  is_appropriate_end_tag =
      λ m. expect (is_appropriate m.core.last_start_tag_name_hash m.ext.current_tag_token);
  get_consumed_byte_count = λ _ m. m.ext.lexeme_start;
  adjust_for_next_input = adjust_for_next_input;
  adjust_to_bookmark = adjust_to_bookmark;
  enter_ch_sequence_matching = λ m. m.ext;
  leave_ch_sequence_matching = λ x. x;
}
