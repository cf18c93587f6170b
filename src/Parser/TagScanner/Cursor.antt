-- ===== src/Parser/TagScanner/Cursor.antt =====
-- The tag scanner's actions leave the cursor and the state to the parsing loop, so that the loop
-- ends.
use lol_html.Base.Outcome.{expect, Ensures, Ensures-bind, Ensures-any, Ensures-ok}
use lol_html.Html.LocalName.{LocalName}
use lol_html.Parser.Directive.{ParserDirective, lex, where_possible_scan_for_tags_only}
use lol_html.Parser.Machine.Loop.{run_parsing_loop, out_of_fuel}
use lol_html.Parser.Machine.Arms.{KeepsCursor}
use lol_html.Parser.Machine.Progress.{run_parsing_loop-total}
use lol_html.Parser.Machine.{common_action}
use lol_html.Parser.Simulator.{
  TreeBuilderFeedback, switch_text_type, set_allow_cdata, request_lexeme,
}
use lol_html.Parser.Syntax.{Action}
use lol_html.Parser.TagScanner.{
  TagHintSink, TagScanner, apply_scanned, try_apply_tree_builder_feedback, on_hint, hint_for,
  emit_tag_hint, on_feedback, finish_tag_name, update_scanned_at, scanner_own_action,
  scanner_action, scanner_machine,
}
use lol_html.Prelude.{
  ℕ, ◌≤◌, Bool, List, Option, none, some, ◌≡◌, ◌≢◌, refl, ◌∙◌, length, true, false,
}

abbrev Same : {S : Type 0} → TagScanner S → TagScanner S → Type 0
Same m m' = (m'.core.next_pos ≡ m.core.next_pos) × (m'.core.state ≡ m.core.state)

Same-trans : {S : Type 0} (a b c : TagScanner S) → Same a b → Same b c → Same a c
Same-trans a b c p q = (q.0 ∙ p.0, q.1 ∙ p.1)

module _ {S : Type 0} (sink : TagHintSink S) where
  apply_scanned-Same : (f : TreeBuilderFeedback) (m : TagScanner S) → Same m (apply_scanned f m).0
  apply_scanned-Same (switch_text_type t) m = (refl, refl)
  apply_scanned-Same (set_allow_cdata b) m = (refl, refl)
  apply_scanned-Same (request_lexeme c) m = (refl, refl)
  apply_scanned-Same TreeBuilderFeedback.none m = (refl, refl)

  on_hint-Same :
      (n : ℕ) (d : ParserDirective) (a m : TagScanner S)
      → Same a m
      → Ensures (Same a) (on_hint n d m)
  unfolding on_hint
  on_hint-Same n where_possible_scan_for_tags_only a m p = p
  on_hint-Same n lex a m p = tt

  hint_for-Same :
      (b : Bool) (name : LocalName) (a m : TagScanner S)
      → Same a m
      → Ensures (λ (r : TagScanner S × ParserDirective). Same a (r.0)) (hint_for sink b name m)
  unfolding hint_for
  hint_for-Same true name a m p =
      Ensures-bind (λ _. Unit {0}) (λ (r : TagScanner S × ParserDirective). Same a (r.0)) _ _
        (Ensures-any _) (λ s _. p)
  hint_for-Same false name a m p =
      Ensures-bind (λ _. Unit {0}) (λ (r : TagScanner S × ParserDirective). Same a (r.0)) _ _
        (Ensures-any _) (λ s _. p)

  on_feedback-Same :
      (input : List ℕ) (n : ℕ) (f : Option TreeBuilderFeedback) (a m : TagScanner S)
      → Same a m
      → Ensures (Same a) (on_feedback sink input n f m)
  unfolding on_feedback emit_tag_hint
  on_feedback-Same input n (some f) a m p = tt
  on_feedback-Same input n none a m p =
      Ensures-bind (λ (r : TagScanner S × ParserDirective). Same a (r.0)) (Same a) _ _
        (Ensures-bind (λ _. Unit {0}) (λ (r : TagScanner S × ParserDirective). Same a (r.0)) _ _
          (Ensures-any _) (λ name _. hint_for-Same m.ext.is_in_end_tag name a m p))
        (λ r same. on_hint-Same n (r.1) a (r.0) same)

  finish_tag_name-Same :
      (input : List ℕ) (m : TagScanner S) → Ensures (Same m) (finish_tag_name sink input m)
  unfolding finish_tag_name try_apply_tree_builder_feedback
  finish_tag_name-Same input m =
      Ensures-bind (λ _. Unit {0}) (Same m) (expect m.ext.tag_start) _ (Ensures-any _)
        λ n _.
          Ensures-bind (λ (r : TagScanner S × Option TreeBuilderFeedback). Same m (r.0)) (Same m) _
            _
            (Ensures-bind (λ _. Unit {0})
              (λ (r : TagScanner S × Option TreeBuilderFeedback). Same m (r.0)) _ _ (Ensures-any _)
              (λ answer _. apply_scanned-Same (answer.1) _))
            (λ r same. on_feedback-Same input n (r.1) m (r.0) same)

  update_scanned_at-Same : (ch : Option ℕ) (m : TagScanner S) → Same m (update_scanned_at ch m)
  update_scanned_at-Same none m = (refl, refl)
  update_scanned_at-Same (some ch) m = (refl, refl)

  own_action-Same :
      (a : Action) (input : List ℕ) (m : TagScanner S)
      → Ensures (Same m) (scanner_own_action sink a input m)
  unfolding scanner_own_action
  own_action-Same Action.finish_tag_name input m = finish_tag_name-Same input m
  own_action-Same Action.update_tag_name_hash input m = update_scanned_at-Same _ m
  own_action-Same _ input m = (refl, refl)

  scanner_action-Same :
      (a : Action) (input : List ℕ) (m : TagScanner S)
      → Ensures (Same m) (scanner_action sink a input m)
  unfolding scanner_action common_action
  scanner_action-Same Action.set_closing_quote_to_double input m = (refl, refl)
  scanner_action-Same Action.set_closing_quote_to_single input m = (refl, refl)
  scanner_action-Same Action.enter_cdata input m = (refl, refl)
  scanner_action-Same Action.leave_cdata input m = (refl, refl)
  scanner_action-Same a input m = own_action-Same a input m

  scanner_machine-KeepsCursor : KeepsCursor (scanner_machine sink)
  unfolding scanner_machine
  scanner_machine-KeepsCursor = record {
    action_keeps = λ a input m e. Ensures-ok (Same m) _ (scanner_action-Same a input m) e;
  }

-- Whatever the sink does, the tag scanner's parsing loop ends on every input, from every state of
-- the scanner whose cursor is in the input: the fuel of `run_parsing_loop` is never used up.
pub scanner-total :
    {S : Type 0} (sink : TagHintSink S) (input : List ℕ) (last : Bool) (m : TagScanner S)
    → m.core.next_pos ≤ length input
    → run_parsing_loop (scanner_machine sink) input last m ≢ out_of_fuel
scanner-total sink input last m h =
    run_parsing_loop-total (scanner_machine sink) (scanner_machine-KeepsCursor sink) input last m h
