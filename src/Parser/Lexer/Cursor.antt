-- ===== src/Parser/Lexer/Cursor.antt =====
-- The lexer's actions leave the cursor and the state to the parsing loop, so that the loop ends.
use lol_html.Base.Outcome.{
  Outcome, ok, err, panic, expect, Ensures, Ensures-bind, Ensures-any, Ensures-ok,
}
use lol_html.Parser.Lexer.Actions.{
  lexer_action, lexer_machine, handle_some, own_action, emit_tag, emit_eof, remember_start_tag,
  finish_attr, start_attr, update_hash_at, set_non_tag_token,
}
use lol_html.Parser.Lexer.{
  LexemeSink, Lexer, emit_lexeme, emit_tag_lexeme, on_directive, handle_tree_builder_feedback,
  apply_feedback,
}
use lol_html.Parser.Machine.Arms.{KeepsCursor}
use lol_html.Parser.Machine.Progress.{run_parsing_loop-total}
use lol_html.Parser.Machine.Loop.{run_parsing_loop, out_of_fuel}
use lol_html.Parser.Directive.{ParserDirective, lex, where_possible_scan_for_tags_only}
use lol_html.Parser.Machine.{common_action, pos}
use lol_html.Parser.Outline.{
  TagLexeme, NonTagContentLexeme, start_tag, end_tag, TagTokenOutline, AttributeOutline,
}
use lol_html.Parser.Simulator.{
  TreeBuilderFeedback, switch_text_type, set_allow_cdata, request_lexeme,
}
use lol_html.Parser.Syntax.{Action}
use lol_html.Prelude.{
  ℕ, ◌≤◌, Bool, List, Option, none, some, ◌≡◌, ◌≢◌, refl, ◌∙◌, length, true, false, ltb,
  if◌then◌else◌,
}

-- The cursor and the state of two machines are the same.
abbrev Same : {S : Type 0} → Lexer S → Lexer S → Type 0
Same m m' = (m'.core.next_pos ≡ m.core.next_pos) × (m'.core.state ≡ m.core.state)

Same-trans : {S : Type 0} (a b c : Lexer S) → Same a b → Same b c → Same a c
Same-trans a b c p q = (q.0 ∙ p.0, q.1 ∙ p.1)

Ensures-trans :
    {S E : Type 0} (a b : Lexer S) (r : Outcome E (Lexer S))
    → Same a b
    → Ensures (Same b) r
    → Ensures (Same a) r
Ensures-trans a b (ok c) p q = Same-trans a b c p q
Ensures-trans a b (err e) p q = tt
Ensures-trans a b panic p q = tt

module _ {S : Type 0} (sink : LexemeSink S) where
  emit_lexeme-Same :
      (l : NonTagContentLexeme) (m : Lexer S) → Ensures (Same m) (emit_lexeme sink l m)
  unfolding emit_lexeme
  emit_lexeme-Same l m =
      Ensures-bind (λ _. Unit {0}) (Same m) _ _ (Ensures-any _) (λ s _. (refl, refl))

  on_directive-Same : (d : ParserDirective) (m : Lexer S) → Ensures (Same m) (on_directive sink d m)
  unfolding on_directive
  on_directive-Same lex m = (refl, refl)
  on_directive-Same where_possible_scan_for_tags_only m = tt

  emit_tag_lexeme-Same : (l : TagLexeme) (m : Lexer S) → Ensures (Same m) (emit_tag_lexeme sink l m)
  unfolding emit_tag_lexeme
  emit_tag_lexeme-Same l m =
      Ensures-bind (λ _. Unit {0}) (Same m) _ _ (Ensures-any _) (λ s _. on_directive-Same (s.1) _)

  apply_feedback-Same :
      (f : TreeBuilderFeedback) (m : Lexer S) → Ensures (Same m) (apply_feedback f m)
  unfolding apply_feedback
  apply_feedback-Same (switch_text_type t) m = (refl, refl)
  apply_feedback-Same (set_allow_cdata b) m = (refl, refl)
  apply_feedback-Same (request_lexeme c) m = tt
  apply_feedback-Same TreeBuilderFeedback.none m = (refl, refl)

  handle_some-Same :
      (f : Option TreeBuilderFeedback) (l : TagLexeme) (m : Lexer S)
      → Ensures (Same m) (handle_some f l m)
  unfolding handle_some handle_tree_builder_feedback
  handle_some-Same none l m = (refl, refl)
  handle_some-Same (some (request_lexeme c)) l m =
      Ensures-bind (λ _. Unit {0}) (Same m) _ _ (Ensures-any _) (λ s _. apply_feedback-Same (s.1) _)
  handle_some-Same (some (switch_text_type t)) l m = (refl, refl)
  handle_some-Same (some (set_allow_cdata b)) l m = (refl, refl)
  handle_some-Same (some TreeBuilderFeedback.none) l m = (refl, refl)

  remember_start_tag-Same : (t : TagTokenOutline) (m : Lexer S) → Same m (remember_start_tag t m)
  remember_start_tag-Same (start_tag t) m = (refl, refl)
  remember_start_tag-Same (end_tag t) m = (refl, refl)

  emit_tag-Same : (input : List ℕ) (m : Lexer S) → Ensures (Same m) (emit_tag sink input m)
  unfolding emit_tag
  emit_tag-Same input m =
      Ensures-bind (λ _. Unit {0}) (Same m) (expect m.ext.current_tag_token) _ (Ensures-any _)
        λ token _.
          Ensures-bind (λ _. Unit {0}) (Same m) _ _ (Ensures-any _)
            λ answer _.
              Ensures-bind (Same m) (Same m) _ _ (handle_some-Same (answer.1) _ _) λ fed same.
                Ensures-trans m (remember_start_tag token fed) _
                  (Same-trans m fed (remember_start_tag token fed) same
                    (remember_start_tag-Same token fed))
                  (emit_tag_lexeme-Same _ (remember_start_tag token fed))

  emit_eof-Same : (input : List ℕ) (m : Lexer S) → Ensures (Same m) (emit_eof sink input m)
  unfolding emit_eof
  emit_eof-Same input m = emit_lexeme-Same _ m

  finish_attr-Same : (a : Option AttributeOutline) (m : Lexer S) → Same m (finish_attr a m)
  finish_attr-Same none m = (refl, refl)
  finish_attr-Same (some a) m = (refl, refl)

  start_attr-Same : (t : Option TagTokenOutline) (m : Lexer S) → Same m (start_attr t m)
  start_attr-Same none m = (refl, refl)
  start_attr-Same (some (start_tag t)) m = (refl, refl)
  start_attr-Same (some (end_tag t)) m = (refl, refl)

  update_hash_at-Same : (ch : Option ℕ) (m : Lexer S) → Ensures (Same m) (update_hash_at ch m)
  update_hash_at-Same none m = (refl, refl)
  update_hash_at-Same (some ch) m =
      Ensures-bind (λ _. Unit {0}) (Same m) _ _ (Ensures-any _) (λ t _. (refl, refl))

  emit_text-Same :
      (b : Bool) (l : NonTagContentLexeme) (m : Lexer S)
      → Ensures (Same m) (if b then emit_lexeme sink l m else ok m)
  emit_text-Same true l m = emit_lexeme-Same l m
  emit_text-Same false l m = (refl, refl)

  own_action-Same :
      (a : Action) (input : List ℕ) (m : Lexer S) → Ensures (Same m) (own_action sink a input m)
  unfolding own_action
  own_action-Same Action.emit_eof input m = emit_eof-Same input m
  own_action-Same Action.emit_text input m = emit_text-Same (ltb m.ext.lexeme_start (pos m)) _ m
  own_action-Same Action.emit_current_token input m = emit_lexeme-Same _ (set_non_tag_token none m)
  own_action-Same Action.emit_tag input m = emit_tag-Same input m
  own_action-Same Action.emit_current_token_and_eof input m =
      Ensures-bind (Same m) (Same m) _ _ (emit_lexeme-Same _ (set_non_tag_token none m))
        λ n same. Ensures-trans m n _ same (emit_eof-Same input n)
  own_action-Same Action.emit_raw_without_token input m = emit_lexeme-Same _ m
  own_action-Same Action.emit_raw_without_token_and_eof input m =
      Ensures-bind (Same m) (Same m) _ _ (emit_lexeme-Same _ m)
        λ n same. Ensures-trans m n _ same (emit_eof-Same input n)
  own_action-Same Action.finish_tag_name input m =
      Ensures-bind (λ _. Unit {0}) (Same m) _ _ (Ensures-any _) (λ t _. (refl, refl))
  own_action-Same Action.update_tag_name_hash input m = update_hash_at-Same _ m
  own_action-Same Action.start_attr input m = start_attr-Same _ m
  own_action-Same Action.finish_attr input m = finish_attr-Same _ m
  own_action-Same _ input m = (refl, refl)

  lexer_action-Same :
      (a : Action) (input : List ℕ) (m : Lexer S) → Ensures (Same m) (lexer_action sink a input m)
  unfolding lexer_action common_action
  lexer_action-Same Action.set_closing_quote_to_double input m = (refl, refl)
  lexer_action-Same Action.set_closing_quote_to_single input m = (refl, refl)
  lexer_action-Same Action.enter_cdata input m = (refl, refl)
  lexer_action-Same Action.leave_cdata input m = (refl, refl)
  lexer_action-Same a input m = own_action-Same a input m

  lexer_machine-KeepsCursor : KeepsCursor (lexer_machine sink)
  unfolding lexer_machine
  lexer_machine-KeepsCursor = record {
    action_keeps = λ a input m e. Ensures-ok (Same m) _ (lexer_action-Same a input m) e;
  }

-- Whatever the sink does, the lexer's parsing loop ends on every input, from every state of the
-- lexer whose cursor is in the input: the fuel of `run_parsing_loop` is never used up.
pub lexer-total :
    {S : Type 0} (sink : LexemeSink S) (input : List ℕ) (last : Bool) (m : Lexer S)
    → m.core.next_pos ≤ length input
    → run_parsing_loop (lexer_machine sink) input last m ≢ out_of_fuel
lexer-total sink input last m h =
    run_parsing_loop-total (lexer_machine sink) (lexer_machine-KeepsCursor sink) input last m h
