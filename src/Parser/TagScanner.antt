-- ===== src/Parser/TagScanner.antt =====
-- src/parser/tag_scanner: the machine that looks for tags only. Its sink is a parameter, as the
-- lexer's is, and the simulator that it shares with the lexer is part of its state while it runs.
pub mod Cursor
use lol_html.Base.Outcome.{Outcome, ok, err, ◌>>=◌, expect}
use lol_html.Base.Range.{align}
use lol_html.Html.LocalName.{LocalName, LocalNameHash, new_name, new_hash, update, hash_eq}
use lol_html.Html.TextType.{Namespace, TextType, data_}
use lol_html.Parser.Directive.{
  RewritingError, ParserDirective, lex, where_possible_scan_for_tags_only, FeedbackDirective,
  apply_unhandled_feedback, skip,
}
use lol_html.Parser.Lexer.{rewriting, ambiguity, change_parser_directive}
use lol_html.Parser.Machine.{
  Machine, Core, Result, StateMachine, pos, set_ext, set_last_text_type, common_action,
}
use lol_html.Parser.Simulator.Guard.{AmbiguityError}
use lol_html.Parser.Simulator.{
  TreeBuilderSimulator, TreeBuilderFeedback, switch_text_type, set_allow_cdata, request_lexeme,
  get_feedback_for_start_tag, get_feedback_for_end_tag, Answer,
}
use lol_html.Parser.Syntax.{State, Action}
use lol_html.Prelude.{
  ℕ, ◌-◌, Bool, true, false, List, Option, none, some, length, get_elem?, min, if◌then◌else◌,
}

-- The trait `TagHintSink`.
pub record TagHintSink (S : Type 0) : Type 0 where
  pub handle_start_tag_hint :
      LocalName → Namespace → S → Outcome RewritingError (S × ParserDirective)
  pub handle_end_tag_hint : LocalName → S → Outcome RewritingError (S × ParserDirective)

pub record ScannerState (S : Type 0) : Type 0 where
  pub tag_start : Option ℕ
  pub ch_sequence_matching_start : Option ℕ
  pub tag_name_start : ℕ
  pub is_in_end_tag : Bool
  pub tag_name_hash : LocalNameHash
  pub tag_hint_sink : S
  pub tree_builder_simulator : TreeBuilderSimulator
  pub pending_text_type_change : Option TextType

abbrev pub TagScanner : Type 0 → Type 0
TagScanner S = Machine (ScannerState S)

unfoldable pub new_scanner : {S : Type 0} → S → TreeBuilderSimulator → TagScanner S
new_scanner sink simulator = record {
  core = record {
    next_pos = 0;
    is_last_input = false;
    is_state_enter = true;
    cdata_allowed = false;
    state = State.data_state;
    last_start_tag_name_hash = none;
    closing_quote = b'"';
    last_text_type = data_;
  };
  ext = record {
    tag_start = none;
    ch_sequence_matching_start = none;
    tag_name_start = 0;
    is_in_end_tag = false;
    tag_name_hash = none;
    tag_hint_sink = sink;
    tree_builder_simulator = simulator;
    pending_text_type_change = none;
  };
}

-- The match of `take_feedback_directive`.
abbrev pub directive_of : Option TextType → FeedbackDirective
directive_of (some t) = apply_unhandled_feedback (switch_text_type t)
directive_of none = skip

-- `emit_tag`: `pending_text_type_change.take().unwrap_or(TextType::Data)`.
abbrev pub pending_or_data : Option TextType → TextType
pending_or_data (some t) = t
pending_or_data none = data_

module _ {S : Type 0} where
  unfoldable pub scanned_feedback : TagScanner S → Answer
  scanned_feedback m =
      if m.ext.is_in_end_tag
      then get_feedback_for_end_tag m.ext.tree_builder_simulator m.ext.tag_name_hash
      else get_feedback_for_start_tag m.ext.tree_builder_simulator m.ext.tag_name_hash

  -- The match of `try_apply_tree_builder_feedback`: what is not handled is given back.
  abbrev pub apply_scanned :
      TreeBuilderFeedback → TagScanner S → TagScanner S × Option TreeBuilderFeedback
  apply_scanned (switch_text_type t) m =
      (set_ext (record (m.ext) { pending_text_type_change = some t }) m, none)
  apply_scanned (set_allow_cdata b) m =
      (record m { core = record (m.core) { cdata_allowed = b } }, none)
  apply_scanned (request_lexeme c) m = (m, some (request_lexeme c))
  apply_scanned TreeBuilderFeedback.none m = (m, none)

  unfoldable pub try_apply_tree_builder_feedback :
      TagScanner S → Result (ScannerState S) (TagScanner S × Option TreeBuilderFeedback)
  unfolding scanned_feedback
  try_apply_tree_builder_feedback m =
      rewriting (ambiguity (scanned_feedback m)) >>= λ (simulator, feedback).
      ok
        (apply_scanned feedback (set_ext (record (m.ext) { tree_builder_simulator = simulator }) m))

  -- The match on the sink's answer: the switch to the lexer.
  unfoldable pub on_hint :
      ℕ → ParserDirective → TagScanner S → Result (ScannerState S) (TagScanner S)
  on_hint tag_start where_possible_scan_for_tags_only m = ok m
  on_hint tag_start lex m =
      change_parser_directive tag_start lex (directive_of m.ext.pending_text_type_change)
        (set_ext (record (m.ext) { pending_text_type_change = none }) m)

  abbrev pub update_scanned_at : Option ℕ → TagScanner S → TagScanner S
  update_scanned_at none m = m
  update_scanned_at (some ch) m =
      set_ext (record (m.ext) { tag_name_hash = update m.ext.tag_name_hash ch }) m

module _ {S : Type 0} (sink : TagHintSink S) where
  -- The hint by `is_in_end_tag`.
  unfoldable pub hint_for :
      Bool → LocalName → TagScanner S → Result (ScannerState S) (TagScanner S × ParserDirective)
  hint_for true name m =
      rewriting (sink.handle_end_tag_hint name m.ext.tag_hint_sink) >>= λ (s, directive).
      ok (set_ext (record (m.ext) { is_in_end_tag = false; tag_hint_sink = s }) m, directive)
  hint_for false name m =
      rewriting (
        sink.handle_start_tag_hint name m.ext.tree_builder_simulator.current_ns m.ext.tag_hint_sink)
      >>= λ (s, directive). ok (
        record {
          core = record (m.core) { last_start_tag_name_hash = m.ext.tag_name_hash };
          ext = record (m.ext) { tag_hint_sink = s };
        },
        directive,
      )

  unfoldable pub emit_tag_hint :
      List ℕ → TagScanner S → Result (ScannerState S) (TagScanner S × ParserDirective)
  unfolding hint_for
  emit_tag_hint input m =
      expect
        (new_name input (record { start = m.ext.tag_name_start; end = pos m }) m.ext.tag_name_hash)
      >>= λ name. hint_for m.ext.is_in_end_tag name m

  -- `finish_tag_name` behind the feedback.
  unfoldable pub on_feedback :
      List ℕ
      → ℕ
      → Option TreeBuilderFeedback
      → TagScanner S
      → Result (ScannerState S) (TagScanner S)
  unfolding emit_tag_hint on_hint
  on_feedback input tag_start (some unhandled_feedback) m =
      change_parser_directive tag_start lex (apply_unhandled_feedback unhandled_feedback) m
  on_feedback input tag_start none m =
      emit_tag_hint input m >>= λ (m', directive). on_hint tag_start directive m'

  unfoldable pub finish_tag_name : List ℕ → TagScanner S → Result (ScannerState S) (TagScanner S)
  unfolding try_apply_tree_builder_feedback on_feedback
  finish_tag_name input m = expect m.ext.tag_start >>= λ tag_start.
      try_apply_tree_builder_feedback (set_ext (record (m.ext) { tag_start = none }) m)
      >>= λ (m', feedback). on_feedback input tag_start feedback m'

  unfoldable pub scanner_own_action :
      Action → List ℕ → TagScanner S → Result (ScannerState S) (TagScanner S)
  unfolding finish_tag_name
  scanner_own_action Action.create_start_tag input m =
      ok (set_ext (record (m.ext) { tag_name_start = pos m; tag_name_hash = new_hash }) m)
  scanner_own_action Action.create_end_tag input m = ok (
      set_ext
        (record (m.ext) { tag_name_start = pos m; tag_name_hash = new_hash; is_in_end_tag = true })
        m)
  scanner_own_action Action.mark_tag_start input m =
      ok (set_ext (record (m.ext) { tag_start = some (pos m) }) m)
  scanner_own_action Action.unmark_tag_start input m =
      ok (set_ext (record (m.ext) { tag_start = none }) m)
  scanner_own_action Action.update_tag_name_hash input m =
      ok (update_scanned_at (get_elem? input (pos m)) m)
  scanner_own_action Action.finish_tag_name input m = finish_tag_name input m
  scanner_own_action Action.emit_tag input m = ok (
      set_last_text_type (pending_or_data m.ext.pending_text_type_change)
        (set_ext (record (m.ext) { pending_text_type_change = none }) m))
  -- The actions that do nothing.
  scanner_own_action _ input m = ok m

  unfoldable pub scanner_action :
      Action → List ℕ → TagScanner S → Result (ScannerState S) (TagScanner S)
  unfolding scanner_own_action common_action
  scanner_action a input m = elim (common_action a m) [
    | some m' ↦ ok m'
    | none ↦ scanner_own_action a input m
  ]

unfoldable pub scanner_consumed : {S : Type 0} → List ℕ → ScannerState S → ℕ
scanner_consumed input x = consumed_from x.tag_start x.ch_sequence_matching_start
  where
    consumed_from : Option ℕ → Option ℕ → ℕ
    consumed_from (some a) (some b) = min a b
    consumed_from (some a) none = a
    consumed_from none (some b) = b
    consumed_from none none = length input

-- `adjust_for_next_input`.
abbrev realign : {S : Type 0} → Option ℕ → ScannerState S → ScannerState S
realign none x = x
realign (some tag_start) x = record x {
  tag_name_start = align tag_start x.tag_name_start;
  tag_start = some 0;
}

-- `impl StateMachine for TagScanner`.
unfoldable pub scanner_machine : {S : Type 0} → TagHintSink S → StateMachine (ScannerState S)
unfolding scanner_action scanner_consumed align
scanner_machine sink = record {
  action = scanner_action sink;
  is_appropriate_end_tag = λ m. ok (hash_eq m.core.last_start_tag_name_hash m.ext.tag_name_hash);
  get_consumed_byte_count = λ input m. scanner_consumed input m.ext;
  adjust_for_next_input = λ x. realign x.tag_start x;
  adjust_to_bookmark = λ _ _ x. x;
  enter_ch_sequence_matching = λ m. record (m.ext) { ch_sequence_matching_start = some (pos m) };
  leave_ch_sequence_matching = λ x. record x { ch_sequence_matching_start = none };
}
