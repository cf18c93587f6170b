-- ===== src/Parser/Machine/Loop.antt =====
-- `run_parsing_loop` and `continue_from_bookmark` of src/parser/state_machine/mod.rs. A round of
-- the loop here is a round of the loop inside a state's function; rounds are counted by fuel.
use lol_html.Base.Outcome.{ok, err, panic}
use lol_html.Parser.Directive.{StateMachineBookmark}
use lol_html.Parser.Machine.{
  Machine, Exit, StateMachine, step, text_parsing_state, set_last_text_type, switch_state,
  set_next_pos, set_ext,
}
use lol_html.Prelude.{ℕ, zero, suc, ◌+◌, ◌*◌, Bool, List, length}

-- How a run ends. The loop has no other exit than an `Err`.
pub data Run (X : Type 0) : Type 0 where
  exited : Exit X → Run X
  panicked out_of_fuel : Run X

module _ {X : Type 0} (sm : StateMachine X) where
  unfoldable pub parsing_loop : ℕ → List ℕ → Machine X → Run X
  parsing_loop zero input m = out_of_fuel
  parsing_loop (suc fuel) input m = elim (step sm input m) [
    | ok m' ↦ parsing_loop fuel input m'
    | err e ↦ exited e
    | panic ↦ panicked
  ]

  -- Enough fuel for any input: see Progress.
  abbrev pub enough_fuel : List ℕ → ℕ
  enough_fuel input = 4 * length input + 8

  unfoldable pub run_parsing_loop : List ℕ → Bool → Machine X → Run X
  unfolding parsing_loop
  run_parsing_loop input last m =
      parsing_loop (enough_fuel input) input
        (record m { core = record (m.core) { is_last_input = last } })

  unfoldable pub continue_from_bookmark : List ℕ → Bool → StateMachineBookmark → Machine X → Run X
  unfolding run_parsing_loop text_parsing_state
  continue_from_bookmark input last bookmark m =
      let cdata = record m { core = record (m.core) { cdata_allowed = bookmark.cdata_allowed } } in
      let switched =
        switch_state (text_parsing_state bookmark.text_type)
          (set_last_text_type bookmark.text_type cdata) in
      let named = record switched {
        core = record (switched.core) {
          last_start_tag_name_hash = bookmark.last_start_tag_name_hash;
        };
      } in
      let adjusted =
        set_ext (sm.adjust_to_bookmark bookmark.pos bookmark.feedback_directive named.ext) named in
      run_parsing_loop input last (set_next_pos bookmark.pos adjusted)
