-- ===== src/Tests/Lexing.antt =====
-- The lexer on small inputs, with a sink that keeps the raw ranges of the lexemes.
use lol_html.Base.Outcome.{ok, ◌>>=◌}
use lol_html.Base.Range.{Range}
use lol_html.Html.Tag.Names.{codes}
use lol_html.Parser.Directive.{ParserDirective}
use lol_html.Parser.Lexer.Actions.{lexer_machine}
use lol_html.Parser.Lexer.Cursor.{lexer-total}
use lol_html.Parser.Lexer.{LexemeSink, Lexer, new_lexer, LexerState}
use lol_html.Parser.Machine.Loop.{run_parsing_loop, Run, exited, out_of_fuel}
use lol_html.Html.LocalName.{hash_is, update, is_one_of}
use lol_html.Parser.Syntax.Table.{body}
use lol_html.Parser.Simulator.Guard.{track_start_tag, track_end_tag}
use lol_html.Parser.Machine.{
  end_of_input, step, state_enter, after_enter, run_arms, sequence_arm, match_arms, matches_char,
  action_list, text_parsing_state, test_sequence, break_on_end_of_input, condition, end_arm,
}
use lol_html.Parser.Simulator.{new_simulator, get_feedback_for_start_tag, get_feedback_for_end_tag}
use lol_html.Prelude.{
  ℕ, Bool, true, false, List, [], ◌∷◌, ◌++◌, ◌≡◌, ◌≢◌, refl, Option, some, none, arith,
}

-- A sink that keeps the raw ranges.
abbrev listing : LexemeSink (List Range)
listing = record {
  handle_tag = λ lexeme s. ok (s ++ lexeme.raw_range ∷ [], ParserDirective.lex);
  handle_non_tag_content = λ lexeme s. ok (s ++ lexeme.raw_range ∷ []);
}

abbrev fresh : Lexer (List Range)
fresh = new_lexer [] (new_simulator true)

-- The bytes consumed and the ranges seen, where the input ends the run.
abbrev seen : Run (LexerState (List Range)) → Option (ℕ × List Range)
seen (exited (end_of_input n m)) = some (n, m.ext.lexeme_sink)
seen _ = none

abbrev span : ℕ → ℕ → Range
span a b = record { start = a; end = b }

lexed : List ℕ → Bool → Option (ℕ × List Range)
unfolding run_parsing_loop lexer_machine new_lexer new_simulator step ◌>>=◌ state_enter body
    after_enter run_arms sequence_arm match_arms matches_char action_list get_feedback_for_start_tag
    track_start_tag hash_is update is_one_of text_parsing_state test_sequence break_on_end_of_input
    condition end_arm get_feedback_for_end_tag track_end_tag
lexed input last = seen (run_parsing_loop (lexer_machine listing) input last fresh)

lexed_page :
    lexed (codes "<div a='b'>x<!-- c --></div>") true
    ≡ some (28, span 0 11 ∷ span 11 12 ∷ span 12 22 ∷ span 22 28 ∷ span 28 28 ∷ [])
unfolding lexed
lexed_page = refl

lexed_script :
    lexed (codes "<script><!-- </b> </script><!doctype html publ") false
    ≡ some (27, span 0 8 ∷ span 8 13 ∷ span 13 16 ∷ span 16 18 ∷ span 18 27 ∷ [])
unfolding lexed
lexed_script = refl

lexer-total_example :
    run_parsing_loop (lexer_machine listing) (codes "<a><!--") true fresh ≢ out_of_fuel
unfolding new_lexer
lexer-total_example = lexer-total listing (codes "<a><!--") true fresh (omega arith)
