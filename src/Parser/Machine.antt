-- ===== src/Parser/Machine.antt =====
-- src/parser/state_machine/mod.rs and syntax_dsl: the trait `StateMachine` and the code that the
-- macros make of the tables. `Core` holds the fields behind `impl_common_sm_accessors!` and
-- `impl_common_input_cursor_methods!`, which the lexer and the tag scanner share; `X` is what a
-- machine adds. `pos` is read and `unconsume_ch` is called after `consume_ch` only, so that the
-- subtraction of 1 never stops at 0.
pub mod Loop
pub mod Ranks
pub mod Arms
pub mod Progress
use Prim.Native.Nat.{bit_xor}
use lol_html.Base.Outcome.{Outcome, ok, err, panic, ◌>>=◌}
use lol_html.Html.LocalName.{LocalNameHash}
use lol_html.Html.TextType.{
  TextType, plain_text, rc_data, raw_text, script_data, data_, cdata_section,
}
use lol_html.Parser.Directive.{
  RewritingError, ParserDirective, FeedbackDirective, StateMachineBookmark,
}
use lol_html.Parser.Syntax.Table.{body}
use lol_html.Parser.Syntax.{
  State, Action, Condition, is_appropriate_end_tag, cdata_allowed, ActionList, stay,
  next_text_parsing_state, switch_to, reconsume_in, ◌⨟◌, when, Pattern, alpha, whitespace,
  closing_quote, eoc, eof, any, byte, sequence, Arm,
}
use lol_html.Prelude.{
  ℕ, suc, ◌+◌, ◌-◌, Bool, true, false, not, ◌&&◌, ◌||◌, List, [], ◌∷◌, Option, none, some, leb, ltb,
  ◌==◌, if◌then◌else◌, get_elem?, length,
}

pub record Core : Type 0 where
  pub next_pos : ℕ
  pub is_last_input : Bool
  pub is_state_enter : Bool
  pub cdata_allowed : Bool
  pub state : State
  pub last_start_tag_name_hash : LocalNameHash
  pub closing_quote : ℕ
  pub last_text_type : TextType

pub record Machine (X : Type 0) : Type 0 where
  pub core : Core
  pub ext : X

-- `ParsingTermination`, with the machine as it is left.
pub data Exit (X : Type 0) : Type 0 where
  rewriting_error : RewritingError → Exit X
  parser_directive_change_required : ParserDirective → StateMachineBookmark → Machine X → Exit X
  end_of_input : ℕ → Machine X → Exit X

abbrev pub Result : Type 0 → Type 0 → Type 0
Result X A = Outcome (Exit X) A

-- The required methods of the trait that the lexer and the tag scanner define apart.
pub record StateMachine (X : Type 0) : Type 0 where
  pub action : Action → List ℕ → Machine X → Result X (Machine X)
  pub is_appropriate_end_tag : Machine X → Result X Bool
  pub get_consumed_byte_count : List ℕ → Machine X → ℕ
  pub adjust_for_next_input : X → X
  pub adjust_to_bookmark : ℕ → FeedbackDirective → X → X
  pub enter_ch_sequence_matching : Machine X → X
  pub leave_ch_sequence_matching : X → X

abbrev pub pos : {X : Type 0} → Machine X → ℕ
pos m = m.core.next_pos - 1

abbrev pub set_next_pos : {X : Type 0} → ℕ → Machine X → Machine X
set_next_pos n m = record m { core = record (m.core) { next_pos = n } }

abbrev pub set_ext : {X : Type 0} → X → Machine X → Machine X
set_ext x m = record m { ext = x }

abbrev pub set_last_text_type : {X : Type 0} → TextType → Machine X → Machine X
set_last_text_type t m = record m { core = record (m.core) { last_text_type = t } }

abbrev pub switch_state : {X : Type 0} → State → Machine X → Machine X
switch_state s m = record m { core = record (m.core) { state = s; is_state_enter = true } }

-- `StateMachine::next_text_parsing_state`.
unfoldable pub text_parsing_state : TextType → State
text_parsing_state data_ = State.data_state
text_parsing_state plain_text = State.plaintext_state
text_parsing_state rc_data = State.rcdata_state
text_parsing_state raw_text = State.rawtext_state
text_parsing_state script_data = State.script_data_state
text_parsing_state cdata_section = State.cdata_section_state

-- `impl_common_sm_actions!`; `none` for an action that the machine defines itself.
unfoldable pub common_action : {X : Type 0} → Action → Machine X → Option (Machine X)
common_action Action.set_closing_quote_to_double m =
    some (record m { core = record (m.core) { closing_quote = b'"' } })
common_action Action.set_closing_quote_to_single m =
    some (record m { core = record (m.core) { closing_quote = b'\'' } })
common_action Action.enter_cdata m = some (set_last_text_type cdata_section m)
common_action Action.leave_cdata m = some (set_last_text_type data_ m)
common_action _ m = none

-- How a list of actions ends: `return Ok(())` after a transition, or at its end.
pub data Flow (X : Type 0) : Type 0 where
  fell moved : Machine X → Flow X

-- The machine with which the parsing loop goes on.
abbrev pub machine_of : {X : Type 0} → Flow X → Machine X
machine_of (fell m) = m
machine_of (moved m) = m

pub data SequenceTest : Type 0 where
  matched mismatch starved : SequenceTest

-- `@cmp_exp`.
abbrev pub same_char : Bool → ℕ → ℕ → Bool
same_char ignore_case ch expected = ch == expected || (ignore_case && ch == bit_xor expected 0x20)

-- The nested matches of `ch_sequence_arm_pattern!`; `depth` counts the characters matched.
unfoldable pub test_sequence : Bool → Bool → List ℕ → ℕ → ℕ → Option ℕ → List ℕ → SequenceTest
test_sequence ignore_case last input next_pos depth ch [] = matched
test_sequence ignore_case last input next_pos depth none (expected ∷ rest) =
    if last then mismatch else starved
test_sequence ignore_case last input next_pos depth (some c) (expected ∷ rest) =
    if same_char ignore_case c expected
    then test_sequence ignore_case last input next_pos (depth + 1)
        (get_elem? input (next_pos + (depth + 1) - 1)) rest
    else mismatch

-- The patterns of `arm_pattern!` on a character.
unfoldable pub matches_char : Core → Pattern → ℕ → Bool
matches_char core alpha c = (leb b'a' c && leb c b'z') || (leb b'A' c && leb c b'Z')
matches_char core whitespace c = c == b' ' || c == b'\n' || c == b'\r' || c == b'\t' || c == 0x0c
matches_char core closing_quote c = c == core.closing_quote
matches_char core (byte b) c = c == b
matches_char core any c = true
matches_char core eoc c = false
matches_char core eof c = false
matches_char core (sequence _ _) c = false

-- `set_is_state_enter(false)` behind the enter actions.
abbrev pub entered : {X : Type 0} → Flow X → Flow X
entered (fell m) = fell (record m { core = record (m.core) { is_state_enter = false } })
entered (moved m) = moved m

abbrev pub after_test {ℓ} : {A : Type ℓ} → SequenceTest → A → A → A → A
after_test matched on_match on_mismatch on_starved = on_match
after_test mismatch on_match on_mismatch on_starved = on_mismatch
after_test starved on_match on_mismatch on_starved = on_starved

module _ {X : Type 0} (sm : StateMachine X) where
  -- `break_on_end_of_input`. A position before the consumed bytes would underflow.
  unfoldable pub break_on_end_of_input {ℓ} : {A : Type ℓ} → List ℕ → Machine X → Outcome (Exit X) A
  break_on_end_of_input input m =
      let consumed = sm.get_consumed_byte_count input m in
      let adjusted =
        if m.core.is_last_input then m else set_ext (sm.adjust_for_next_input m.ext) m in
      if ltb (pos m) consumed
      then panic
      else err (end_of_input consumed (set_next_pos (pos m - consumed) adjusted))

  unfoldable pub condition : Condition → Machine X → Result X Bool
  condition is_appropriate_end_tag m = sm.is_appropriate_end_tag m
  condition cdata_allowed m = ok m.core.cdata_allowed

  -- `action_list!`.
  unfoldable pub action_list : ActionList → List ℕ → Machine X → Result X (Flow X)
  action_list stay input m = ok (fell m)
  action_list (switch_to s) input m = ok (moved (switch_state s m))
  action_list (reconsume_in s) input m =
      ok (moved (switch_state s (set_next_pos (m.core.next_pos - 1) m)))
  action_list next_text_parsing_state input m =
      ok (moved (switch_state (text_parsing_state m.core.last_text_type) m))
  action_list (a ⨟ rest) input m = sm.action a input m >>= action_list rest input
  action_list (when c yes_actions no_actions) input m =
      let on_true = action_list yes_actions input m in
      let on_false = action_list no_actions input m in
      condition c m >>= λ b. if b then on_true else on_false

  -- `return self.break_on_end_of_input(input)` behind a list of actions that fell through.
  unfoldable pub break_after : List ℕ → Flow X → Result X (Flow X)
  break_after input (fell m) = break_on_end_of_input input m
  break_after input (moved m) = ok (moved m)

  -- `@state_enter`; no code is made for an empty list.
  unfoldable pub state_enter : ActionList → List ℕ → Machine X → Result X (Flow X)
  state_enter stay input m = ok (fell m)
  state_enter actions input m =
      if m.core.is_state_enter
      then (action_list actions input m >>= λ flow. ok (entered flow))
      else ok (fell m)

  -- The arms `eoc` and `eof`, where there is no character; `rest` is the match on the other arms.
  unfoldable pub end_arm :
      Pattern → ActionList → List ℕ → Machine X → Result X (Flow X) → Result X (Flow X)
  unfolding break_after
  end_arm eoc actions input m rest =
      if not m.core.is_last_input then (action_list actions input m >>= break_after input) else rest
  end_arm eof actions input m rest =
      if m.core.is_last_input
      then (action_list actions input m >>= break_after input)
      else break_on_end_of_input input m
  end_arm _ actions input m rest = rest

  -- The match block. The sequences are tested before it, so that it skips them here. Each table
  -- ends in arms for any character and for the end of the input.
  unfoldable pub match_arms : List Arm → Option ℕ → List ℕ → Machine X → Result X (Flow X)
  match_arms [] ch input m = panic
  match_arms (arm ∷ arms) (some c) input m =
      let rest = match_arms arms (some c) input m in
      if matches_char m.core arm.pattern c then action_list arm.actions input m else rest
  match_arms (arm ∷ arms) none input m =
      end_arm arm.pattern arm.actions input m (match_arms arms none input m)

  -- What one sequence arm does, before `others`.
  unfoldable pub run_sequence :
      Bool
      → List ℕ
      → ActionList
      → Option ℕ
      → List ℕ
      → Machine X
      → (Machine X → Result X (Flow X))
      → Result X (Flow X)
  run_sequence ignore_case chars actions ch input m others =
      let begun = set_ext (sm.enter_ch_sequence_matching m) m in
      let left = set_ext (sm.leave_ch_sequence_matching begun.ext) begun in
      after_test (test_sequence ignore_case m.core.is_last_input input m.core.next_pos 0 ch chars)
        (action_list actions input (set_next_pos (m.core.next_pos + (length chars - 1)) left))
        (others left) (break_on_end_of_input input begun)

  unfoldable pub sequence_arm :
      Pattern
      → ActionList
      → Option ℕ
      → List ℕ
      → Machine X
      → (Machine X → Result X (Flow X))
      → Result X (Flow X)
  unfolding run_sequence
  sequence_arm (sequence ignore_case chars) actions ch input m others =
      run_sequence ignore_case chars actions ch input m others
  sequence_arm _ actions ch input m others = others m

  -- The sequences of the arms, in order, and then the match block.
  unfoldable pub run_arms : List Arm → List Arm → Option ℕ → List ℕ → Machine X → Result X (Flow X)
  run_arms [] all ch input m = match_arms all ch input m
  run_arms (arm ∷ arms) all ch input m =
      sequence_arm arm.pattern arm.actions ch input m (run_arms arms all ch input)

  -- The rest of a round behind the enter actions.
  unfoldable pub after_enter : List Arm → Option ℕ → List ℕ → Flow X → Result X (Machine X)
  after_enter arms ch input (fell m) =
      run_arms arms arms ch input m >>= λ flow. ok (machine_of flow)
  after_enter arms ch input (moved m) = ok m

  -- One round of the loop of a state: `consume_ch`, the enter actions, the arms.
  unfoldable pub step : List ℕ → Machine X → Result X (Machine X)
  step input m =
      state_enter (body m.core.state).enter_actions input (set_next_pos (m.core.next_pos + 1) m)
      >>= after_enter (body m.core.state).arms (get_elem? input m.core.next_pos) input
