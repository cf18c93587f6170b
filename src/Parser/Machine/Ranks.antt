-- ===== src/Parser/Machine/Ranks.antt =====
-- Why the parsing loop ends: a state that hands a character on (`reconsume in`) hands it to a
-- state of a smaller rank, and at the end of the input no state goes on in any other way. `check`
-- reads this off a table.
use lol_html.Parser.Syntax.Table.{body}
use lol_html.Parser.Syntax.{
  State, ActionList, stay, next_text_parsing_state, switch_to, reconsume_in, ◌⨟◌, when, Pattern,
  eoc, eof, sequence, Arm,
}
use lol_html.Prelude.{
  ℕ, ◌≤◌, Bool, true, false, ◌&&◌, List, [], ◌∷◌, ◌≡◌, refl, ltb, arith, and-true,
}

pub rank : State → ℕ
rank State.cdata_section_bracket_state = 1
rank State.rawtext_less_than_sign_state = 1
rank State.rawtext_end_tag_open_state = 1
rank State.rawtext_end_tag_name_state = 1
rank State.rcdata_less_than_sign_state = 1
rank State.rcdata_end_tag_open_state = 1
rank State.rcdata_end_tag_name_state = 1
rank State.script_data_less_than_sign_state = 1
rank State.script_data_end_tag_open_state = 1
rank State.script_data_end_tag_name_state = 1
rank State.script_data_escape_start_state = 1
rank State.script_data_escaped_dash_dash_state = 1
rank State.script_data_escaped_less_than_sign_state = 1
rank State.script_data_escaped_end_tag_open_state = 1
rank State.script_data_escaped_end_tag_name_state = 1
rank State.script_data_double_escaped_start_state = 1
rank State.script_data_double_escaped_dash_dash_state = 1
rank State.script_data_double_escaped_less_than_sign_state = 1
rank State.script_data_double_escaped_end_tag_name_state = 1
rank State.script_data_double_escaped_end_state = 1
rank State.tag_open_state = 1
rank State.end_tag_open_state = 1
rank State.markup_declaration_open_state = 1
rank State.self_closing_start_tag_state = 1
rank State.before_attribute_value_state = 1
rank State.after_attribute_value_quoted_state = 1
rank State.comment_start_state = 1
rank State.comment_start_dash_state = 1
rank State.comment_end_dash_state = 1
rank State.comment_end_state = 1
rank State.comment_less_than_sign_state = 1
rank State.comment_less_than_sign_bang_state = 1
rank State.comment_less_than_sign_bang_dash_state = 2
rank State.comment_less_than_sign_bang_dash_dash_state = 2
rank State.comment_end_bang_state = 1
rank State.doctype_state = 1
rank _ = 0

pub rank-le : (s : State) → rank s ≤ 2
unfolding rank
rank-le State.cdata_section_state = omega arith
rank-le _ = omega arith

-- `consuming` says that the list runs on a character, so that the loop may go on.
unfoldable pub check_list : Bool → State → ActionList → Bool
check_list consuming s stay = true
check_list consuming s next_text_parsing_state = consuming
check_list consuming s (switch_to t) = consuming
check_list consuming s (reconsume_in t) = ltb (rank t) (rank s)
check_list consuming s (a ⨟ l) = check_list consuming s l
check_list consuming s (when c l k) = check_list consuming s l && check_list consuming s k

-- Enter actions make no transition.
unfoldable pub check_enter : ActionList → Bool
check_enter stay = true
check_enter (a ⨟ l) = check_enter l
check_enter _ = false

unfoldable pub check_arm : State → Pattern → ActionList → Bool
unfolding check_list
check_arm s eoc l = check_list false s l
check_arm s eof l = check_list false s l
check_arm s (sequence _ []) l = false
check_arm s (sequence _ (c ∷ cs)) l = check_list true s l
check_arm s _ l = check_list true s l

unfoldable pub check_arms : State → List Arm → Bool
unfolding check_arm
check_arms s [] = true
check_arms s (arm ∷ arms) = check_arm s arm.pattern arm.actions && check_arms s arms

check_state : State → Bool
unfolding check_enter check_arms body rank
check_state s = check_enter (body s).enter_actions && check_arms s (body s).arms

check_all : (s : State) → check_state s ≡ true
unfolding check_state
check_all State.cdata_section_state = refl
check_all _ = refl

pub enter-check : (s : State) → check_enter (body s).enter_actions ≡ true
unfolding check_state
enter-check s = (and-true _ _ (check_all s)).0

pub arms-check : (s : State) → check_arms s (body s).arms ≡ true
unfolding check_state
arms-check s = (and-true _ _ (check_all s)).1
