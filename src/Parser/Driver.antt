-- ===== src/Parser/Driver.antt =====
-- src/parser/mod.rs: `Parser`, which runs the lexer or the tag scanner and changes from one to the
-- other where the sink or a request for a lexeme asks for it. The two share the sink and the
-- simulator: whichever starts takes them over from the other. Changes are counted by fuel.

use lol_html.Parser.Directive.{
  RewritingError, ParserDirective, lex, where_possible_scan_for_tags_only, StateMachineBookmark,
}
use lol_html.Parser.Lexer.Actions.{lexer_machine}
use lol_html.Parser.Lexer.{LexemeSink, Lexer, new_lexer}
use lol_html.Parser.Machine.Loop.{
  Run, exited, panicked, out_of_fuel, run_parsing_loop, continue_from_bookmark,
}
use lol_html.Parser.Machine.{
  Machine, rewriting_error, parser_directive_change_required, end_of_input, set_ext,
}
use lol_html.Parser.Simulator.{new_simulator}
use lol_html.Parser.TagScanner.{TagHintSink, TagScanner, new_scanner, scanner_machine}
use lol_html.Prelude.{ℕ, zero, suc, Bool, List}

pub record Parser (S : Type 0) : Type 0 where
  pub lexer : Lexer S
  pub tag_scanner : TagScanner S
  pub current_directive : ParserDirective

unfoldable pub new_parser : {S : Type 0} → S → ParserDirective → Bool → Parser S
unfolding new_simulator new_lexer new_scanner
new_parser output_sink initial_directive strict = record {
  lexer = new_lexer output_sink (new_simulator strict);
  tag_scanner = new_scanner output_sink (new_simulator strict);
  current_directive = initial_directive;
}

-- How `parse` ends.
pub data Parsed (S : Type 0) : Type 0 where
  consumed : ℕ → Parser S → Parsed S
  failed : RewritingError → Parsed S
  parser_panicked parser_out_of_fuel : Parsed S

module _ {S : Type 0} where
  -- The shared sink and simulator, as the scanner leaves them, and as the lexer does.
  abbrev pub lexer_takes_over : Parser S → Parser S
  lexer_takes_over p = record p {
    lexer =
        set_ext
          (record (p.lexer.ext) {
            lexeme_sink = p.tag_scanner.ext.tag_hint_sink;
            tree_builder_simulator = p.tag_scanner.ext.tree_builder_simulator;
          })
          p.lexer;
    current_directive = lex;
  }

  abbrev pub scanner_takes_over : Parser S → Parser S
  scanner_takes_over p = record p {
    tag_scanner =
        set_ext
          (record (p.tag_scanner.ext) {
            tag_hint_sink = p.lexer.ext.lexeme_sink;
            tree_builder_simulator = p.lexer.ext.tree_builder_simulator;
          })
          p.tag_scanner;
    current_directive = where_possible_scan_for_tags_only;
  }

  -- The machine that runs has the shared state already, where it ran last.
  abbrev pub take_over : ParserDirective → ParserDirective → Parser S → Parser S
  take_over where_possible_scan_for_tags_only lex p = lexer_takes_over p
  take_over lex where_possible_scan_for_tags_only p = scanner_takes_over p
  take_over _ _ p = p

-- One run of a machine: the end of `parse`, or a change of the directive.
pub data Turn (S : Type 0) : Type 0 where
  done : Parsed S → Turn S
  change : ParserDirective → StateMachineBookmark → Parser S → Turn S

module _ {S X : Type 0} where
  -- The match of `parse` on a result; `put` puts the machine back.
  unfoldable pub turn : (Machine X → Parser S) → Run X → Turn S
  turn put (exited (end_of_input n m)) = done (consumed n (put m))
  turn put (exited (parser_directive_change_required directive bookmark m)) =
      change directive bookmark (put m)
  turn put (exited (rewriting_error e)) = done (failed e)
  turn put panicked = done parser_panicked
  turn put out_of_fuel = done parser_out_of_fuel

module _ {S : Type 0} (sink : LexemeSink S) (hints : TagHintSink S) where
  -- `with_current_sm!(self, sm.run_parsing_loop(input, last))`.
  unfoldable pub run_current : ParserDirective → List ℕ → Bool → Parser S → Turn S
  unfolding turn run_parsing_loop lexer_machine scanner_machine
  run_current lex input last p =
      turn (λ m. record p { lexer = m }) (run_parsing_loop (lexer_machine sink) input last p.lexer)
  run_current where_possible_scan_for_tags_only input last p =
      turn (λ m. record p { tag_scanner = m })
        (run_parsing_loop (scanner_machine hints) input last p.tag_scanner)

  -- `with_current_sm!(self, sm.continue_from_bookmark(input, last, sm_bookmark))`.
  unfoldable pub continue_current :
      ParserDirective → List ℕ → Bool → StateMachineBookmark → Parser S → Turn S
  unfolding turn continue_from_bookmark lexer_machine scanner_machine
  continue_current lex input last bookmark p =
      turn (λ m. record p { lexer = m })
        (continue_from_bookmark (lexer_machine sink) input last bookmark p.lexer)
  continue_current where_possible_scan_for_tags_only input last bookmark p =
      turn (λ m. record p { tag_scanner = m })
        (continue_from_bookmark (scanner_machine hints) input last bookmark p.tag_scanner)

  unfoldable pub parse_loop : ℕ → List ℕ → Bool → Turn S → Parsed S
  unfolding continue_current
  parse_loop fuel input last (done r) = r
  parse_loop zero input last (change directive bookmark p) = parser_out_of_fuel
  parse_loop (suc fuel) input last (change directive bookmark p) = parse_loop fuel input last (
      continue_current directive input last bookmark
        (record (take_over p.current_directive directive p) { current_directive = directive }))

  unfoldable pub parse : ℕ → List ℕ → Bool → Parser S → Parsed S
  unfolding parse_loop run_current
  parse fuel input last p =
      parse_loop fuel input last (run_current p.current_directive input last p)
