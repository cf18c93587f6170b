-- ===== src/Parser/Syntax.antt =====
-- The language in which src/parser/state_machine/syntax describes the states: patterns, actions
-- and transitions as the macros of src/parser/state_machine/syntax_dsl read them. The tables of
-- the states are in the modules below Table.
pub mod Table
use lol_html.Prelude.{ℕ, Bool, List}

-- The states of the parser, a function each in the trait `StateMachine`.
pub data State : Type 0 where
  cdata_section_state cdata_section_bracket_state data_state : State
  plaintext_state rawtext_state rawtext_less_than_sign_state : State
  rawtext_end_tag_open_state rawtext_end_tag_name_state rcdata_state : State
  rcdata_less_than_sign_state rcdata_end_tag_open_state rcdata_end_tag_name_state : State
  script_data_state script_data_less_than_sign_state script_data_end_tag_open_state : State
  script_data_end_tag_name_state script_data_escape_start_state
        script_data_escaped_dash_dash_state :
      State
  script_data_escaped_state script_data_escaped_less_than_sign_state
        script_data_escaped_end_tag_open_state :
      State
  script_data_escaped_end_tag_name_state script_data_double_escaped_start_state
        script_data_double_escaped_state :
      State
  script_data_double_escaped_dash_dash_state script_data_double_escaped_less_than_sign_state
        script_data_double_escaped_end_tag_name_state :
      State
  script_data_double_escaped_end_state tag_open_state end_tag_open_state : State
  markup_declaration_open_state tag_name_state self_closing_start_tag_state : State
  before_attribute_name_state attribute_name_state after_attribute_name_state : State
  before_attribute_value_state attribute_value_quoted_state after_attribute_value_quoted_state :
      State
  attribute_value_unquoted_state bogus_comment_state comment_start_state : State
  comment_state comment_start_dash_state comment_end_dash_state : State
  comment_end_state comment_less_than_sign_state comment_less_than_sign_bang_state : State
  comment_less_than_sign_bang_dash_state comment_less_than_sign_bang_dash_dash_state
        comment_end_bang_state :
      State
  doctype_state before_doctype_name_state doctype_name_state : State
  after_doctype_name_state after_doctype_public_keyword_state after_doctype_system_keyword_state :
      State
  before_doctype_public_identifier_state before_doctype_system_identifier_state
        doctype_public_identifier_state :
      State
  doctype_system_identifier_state after_doctype_public_identifier_state
        after_doctype_system_identifier_state :
      State
  between_doctype_public_and_system_identifiers_state bogus_doctype_state : State

-- The methods of `StateMachineActions`. `emit_tag` and the like end in `?` in the tables.
pub data Action : Type 0 where
  emit_eof emit_text emit_current_token emit_tag emit_current_token_and_eof : Action
  emit_raw_without_token emit_raw_without_token_and_eof : Action
  create_start_tag create_end_tag create_doctype create_comment start_token_part : Action
  mark_comment_text_end : Action
  shift_comment_text_end_by : ℕ → Action
  set_force_quirks finish_doctype_name finish_doctype_public_id finish_doctype_system_id : Action
  finish_tag_name update_tag_name_hash mark_as_self_closing : Action
  start_attr finish_attr_name finish_attr_value finish_attr : Action
  set_closing_quote_to_double set_closing_quote_to_single : Action
  mark_tag_start unmark_tag_start enter_cdata leave_cdata : Action

-- `StateMachineConditions`.
pub data Condition : Type 0 where
  is_appropriate_end_tag cdata_allowed : Condition

-- `action_list!`: actions in order; at the end nothing (`stay`), a transition (`--> s`,
-- `reconsume in s`, `--> dyn next_text_parsing_state`) or a condition.
infixr 20 ◌⨟◌
pub data ActionList : Type 0 where
  stay next_text_parsing_state : ActionList
  switch_to : State → ActionList
  reconsume_in : State → ActionList
  ◌⨟◌ : Action → ActionList → ActionList
  when : Condition → ActionList → ActionList → ActionList

-- `arm_pattern!`. A sequence has its case modifier: `true` is `ignore_case`.
pub data Pattern : Type 0 where
  alpha whitespace closing_quote eoc eof any : Pattern
  byte : ℕ → Pattern
  sequence : Bool → List ℕ → Pattern

infix 10 ◌⇒◌
pub record Arm : Type 0 where
  pub pattern : Pattern
  pub actions : ActionList

-- A row of a table.
abbrev pub ◌⇒◌ : Pattern → ActionList → Arm
p ⇒ a = record { pattern = p; actions = a }

-- A state: its enter actions, where it has some, and its arms.
pub record StateBody : Type 0 where
  pub enter_actions : ActionList
  pub arms : List Arm
