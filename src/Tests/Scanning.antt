-- ===== src/Tests/Scanning.antt =====
-- The tag scanner, and the parser that changes between it and the lexer, with a sink that logs what
-- it is told of tags.
use lol_html.Base.Outcome.{ok, ◌>>=◌}
use lol_html.Html.LocalName.{hash_is, update, is_one_of, new_name}
use lol_html.Html.Tag.Names.{codes}
use lol_html.Parser.Directive.{ParserDirective}
use lol_html.Parser.Driver.{Parsed, consumed, new_parser, parse}
use lol_html.Parser.Lexer.{LexemeSink, new_lexer}
use lol_html.Parser.Machine.Loop.{run_parsing_loop, out_of_fuel}
use lol_html.Parser.Machine.{
  step, state_enter, after_enter, run_arms, sequence_arm, match_arms, matches_char, action_list,
  text_parsing_state, test_sequence, break_on_end_of_input, condition, end_arm,
}
use lol_html.Parser.Outline.{TagTokenOutline, start_tag, end_tag, part}
use lol_html.Parser.Simulator.Guard.{track_start_tag, track_end_tag}
use lol_html.Parser.Simulator.{
  new_simulator, get_feedback_for_start_tag, get_feedback_for_end_tag, call, eq_case_insensitive,
}
use lol_html.Parser.Syntax.Table.{body}
use lol_html.Parser.TagScanner.Cursor.{scanner-total}
use lol_html.Parser.TagScanner.{
  TagHintSink, TagScanner, new_scanner, scanner_machine, finish_tag_name,
}
use lol_html.Base.Range.{slice}
use lol_html.Prelude.{
  ℕ, Bool, true, false, List, [], ◌∷◌, ◌++◌, ◌≡◌, ◌≢◌, refl, Option, some, none, arith,
}

data Note : Type 0 where
  start_hint end_hint start_lexeme end_lexeme : Note

abbrev note_of : TagTokenOutline → Note
note_of (start_tag t) = start_lexeme
note_of (end_tag t) = end_lexeme

abbrev scan : ParserDirective
scan = ParserDirective.where_possible_scan_for_tags_only

abbrev lexemes : LexemeSink (List Note)
lexemes = record {
  handle_tag = λ lexeme s. ok (s ++ note_of lexeme.token_outline ∷ [], scan);
  handle_non_tag_content = λ lexeme s. ok s;
}

abbrev hints : TagHintSink (List Note)
hints = record {
  handle_start_tag_hint = λ name ns s. ok (s ++ start_hint ∷ [], scan);
  handle_end_tag_hint = λ name s. ok (s ++ end_hint ∷ [], scan);
}

abbrev noted : Parsed (List Note) → Option (ℕ × List Note)
noted (consumed n p) = some (n, p.tag_scanner.ext.tag_hint_sink)
noted _ = none

scanned : List ℕ → Bool → Option (ℕ × List Note)
unfolding parse new_parser new_scanner new_lexer new_simulator step ◌>>=◌ state_enter body
    after_enter run_arms sequence_arm match_arms matches_char action_list get_feedback_for_start_tag
    track_start_tag hash_is update is_one_of text_parsing_state test_sequence break_on_end_of_input
    condition end_arm get_feedback_for_end_tag track_end_tag finish_tag_name new_name call part
    slice eq_case_insensitive
scanned input last = noted (parse lexemes hints 20 input last (new_parser [] scan false))

scanned_page :
    scanned (codes "<b a=1>x</b><title></a></title") false
    ≡ some (23, start_hint ∷ end_hint ∷ start_hint ∷ [])
unfolding scanned
scanned_page = refl

-- The scanner asks the lexer for the end tag of `<annotation-xml>` and keeps `is_in_end_tag`, so
-- that it takes the start tag of `<b>` for an end tag.
scanned_annotation :
    scanned (codes "<math><annotation-xml encoding=text/html></annotation-xml><b></b>") true
    ≡ some (65, start_hint ∷ start_lexeme ∷ end_lexeme ∷ end_hint ∷ end_hint ∷ [])
unfolding scanned
scanned_annotation = refl

-- Text that looks like an end tag and is none holds back the bytes behind it, in an escaped script
-- but not in a plain one.
scanned_script : scanned (codes "<script>   </s1 more text") false ≡ some (25, start_hint ∷ [])
unfolding scanned
scanned_script = refl

scanned_escaped_script :
    scanned (codes "<script><!--</s1 more text") false ≡ some (12, start_hint ∷ [])
unfolding scanned
scanned_escaped_script = refl

abbrev fresh : TagScanner (List Note)
fresh = new_scanner [] (new_simulator true)

scanner-total_example :
    run_parsing_loop (scanner_machine hints) (codes "<a><!--") true fresh ≢ out_of_fuel
unfolding new_scanner
scanner-total_example = scanner-total hints (codes "<a><!--") true fresh (omega arith)
