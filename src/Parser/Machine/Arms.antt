-- ===== src/Parser/Machine/Arms.antt =====
-- What a list of actions, and the arms that are tried on a character or at the end of the input, do
-- to the cursor and the state.
use lol_html.Base.Outcome.{ok, ◌>>=◌, bind-eq-ok}
use lol_html.Parser.Machine.Ranks.{rank, check_list, check_arm, check_arms}
use lol_html.Parser.Machine.{
  Core, Machine, Result, StateMachine, condition, action_list, break_on_end_of_input, break_after,
  match_arms, end_arm, Flow, fell, moved, matches_char, test_sequence, matched, same_char,
}
use lol_html.Parser.Syntax.{
  State, Action, ActionList, stay, next_text_parsing_state, switch_to, reconsume_in, ◌⨟◌, when, eoc,
  eof, sequence, Pattern, Arm,
}
use lol_html.Prelude.{
  ℕ, ◌+◌, ◌-◌, ◌≤◌, ◌<◌, Bool, true, false, not, List, [], ◌∷◌, Option, none, some, ◌≡◌, refl, sym,
  ◌∙◌, ◌⊎◌, arith, get_elem?, length, and-true, if-either, if-cases, get_elem?-lt,
}

-- What an action list may do to the cursor and the state, from the cursor `p` in the state `s`.
abbrev pub After : {X : Type 0} → Bool → ℕ → State → Flow X → Type 0
After consuming p s (fell m) = (m.core.next_pos ≡ p) × (m.core.state ≡ s)
After consuming p s (moved m) =
    ((m.core.next_pos ≡ p) × (consuming ≡ true))
    ⊎ ((m.core.next_pos ≡ p - 1) × (rank m.core.state < rank s))

-- At the end of the input a state only hands the cursor back to a state of a smaller rank.
abbrev pub HandsBack : {X : Type 0} → ℕ → State → Flow X → Type 0
HandsBack p s (fell m) = ⊥
HandsBack p s (moved m) = (m.core.next_pos ≡ p - 1) × (rank m.core.state < rank s)

-- The lexer and the tag scanner leave the cursor and the state to the loop.
pub record KeepsCursor {X : Type 0} (sm : StateMachine X) : Type 0 where
  pub action_keeps :
      (a : Action) (input : List ℕ) (m : Machine X) {m' : Machine X}
      → sm.action a input m ≡ ok m'
      → (m'.core.next_pos ≡ m.core.next_pos) × (m'.core.state ≡ m.core.state)

module _ {X : Type 0} (sm : StateMachine X) (keeps : KeepsCursor sm) where
  pub action_list-After :
      (l : ActionList) (c : Bool) (s : State) (input : List ℕ) (m : Machine X) {f : Flow X}
      → check_list c s l ≡ true
      → m.core.state ≡ s
      → action_list sm l input m ≡ ok f
      → After c m.core.next_pos s f
  unfolding action_list check_list
  action_list-After stay c s input m k q e = ground arith
  action_list-After next_text_parsing_state c s input m k q e = ground arith
  action_list-After (switch_to t) c s input m k q e = ground arith
  action_list-After (reconsume_in t) c s input m k q e = ground arith
  action_list-After (a ⨟ l) c s input m k q e =
      let (m', acted, rest) = bind-eq-ok (sm.action a input m) (action_list sm l input) e in
      let (cursor, state) = keeps.action_keeps a input m acted in
      rw cursor at (action_list-After l c s input m' k (state ∙ q) rest)
  action_list-After (when d l r) c s input m k q e =
      let (b, tested, rest) = bind-eq-ok (condition sm d m) _ e in
      let (left, right) = and-true (check_list c s l) (check_list c s r) k in
      if-either b rest (action_list-After l c s input m left q)
        (action_list-After r c s input m right q)

  pub break-not-ok {ℓ} :
      {A : Type ℓ} {a : A} (input : List ℕ) (m : Machine X)
      → ¬ (break_on_end_of_input sm input m ≡ ok a)
  unfolding break_on_end_of_input
  break-not-ok input m = ground arith

  -- At the end of the input only a transition goes on.
  break_after-HandsBack :
      (p : ℕ) (s : State) (input : List ℕ) (f : Flow X) {g : Flow X}
      → After false p s f
      → break_after sm input f ≡ ok g
      → HandsBack p s g
  unfolding break_after
  break_after-HandsBack p s input (fell m) a e = absurd (break-not-ok input m e)
  break_after-HandsBack p s input (moved m) a e = ground arith

  end_arm-HandsBack :
      (l : ActionList) (s : State) (input : List ℕ) (m : Machine X) {f : Flow X}
      → check_list false s l ≡ true
      → m.core.state ≡ s
      → (action_list sm l input m >>= break_after sm input) ≡ ok f
      → HandsBack m.core.next_pos s f
  end_arm-HandsBack l s input m k q e =
      let (g, acted, rest) = bind-eq-ok (action_list sm l input m) (break_after sm input) e in
      break_after-HandsBack m.core.next_pos s input g
        (action_list-After l false s input m k q acted) rest

  end_arm_lem :
      (p : Pattern) (l : ActionList) (s : State) (input : List ℕ) (m : Machine X)
      (rest : Result X (Flow X)) {f : Flow X}
      → check_arm s p l ≡ true
      → m.core.state ≡ s
      → (rest ≡ ok f → HandsBack m.core.next_pos s f)
      → end_arm sm p l input m rest ≡ ok f
      → HandsBack m.core.next_pos s f
  unfolding end_arm check_arm
  end_arm_lem eoc l s input m rest k q h e =
      if-either (not m.core.is_last_input) e (end_arm-HandsBack l s input m k q) h
  end_arm_lem eof l s input m rest k q h e =
      if-either m.core.is_last_input e (end_arm-HandsBack l s input m k q)
        (λ b. absurd (break-not-ok input m b))
  end_arm_lem _ l s input m rest k q h e = h e

  char_arm_lem :
      (p : Pattern) (l : ActionList) (s : State) (core : Core) (c : ℕ)
      → check_arm s p l ≡ true
      → matches_char core p c ≡ true
      → check_list true s l ≡ true
  unfolding check_arm matches_char
  char_arm_lem eoc l s core c k h = cc
  char_arm_lem eof l s core c k h = cc
  char_arm_lem (sequence b cs) l s core c k h = cc
  char_arm_lem _ l s core c k h = k

  pub match_none-HandsBack :
      (arms : List Arm) (s : State) (input : List ℕ) (m : Machine X) {f : Flow X}
      → check_arms s arms ≡ true
      → m.core.state ≡ s
      → match_arms sm arms none input m ≡ ok f
      → HandsBack m.core.next_pos s f
  unfolding match_arms check_arms
  match_none-HandsBack [] s input m k q e = cc
  match_none-HandsBack (arm ∷ arms) s input m k q e =
      let (here, there) = and-true (check_arm s arm.pattern arm.actions) (check_arms s arms) k in
      end_arm_lem arm.pattern arm.actions s input m (match_arms sm arms none input m) here q
        (match_none-HandsBack arms s input m there q) e

  pub match_some-After :
      (arms : List Arm) (s : State) (c : ℕ) (input : List ℕ) (m : Machine X) {f : Flow X}
      → check_arms s arms ≡ true
      → m.core.state ≡ s
      → match_arms sm arms (some c) input m ≡ ok f
      → After true m.core.next_pos s f
  unfolding match_arms check_arms
  match_some-After [] s c input m k q e = cc
  match_some-After (arm ∷ arms) s c input m k q e =
      let (here, there) = and-true (check_arm s arm.pattern arm.actions) (check_arms s arms) k in
      if-cases (matches_char m.core arm.pattern c) e
        (λ hit acted.
          action_list-After arm.actions true s input m
            (char_arm_lem arm.pattern arm.actions s m.core c here hit) q acted)
        (λ _ later. match_some-After arms s c input m there q later)

pub test_sequence-le :
    (i last : Bool) (input : List ℕ) (p depth : ℕ) (ch : Option ℕ) (e : ℕ) (chars : List ℕ)
    → 0 < p
    → ch ≡ get_elem? input (p + depth - 1)
    → test_sequence i last input p depth ch (e ∷ chars) ≡ matched
    → p + depth + length chars ≤ length input
unfolding test_sequence
test_sequence-le i last input p depth none e chars h q t = ground arith
test_sequence-le i last input p depth (some c) e [] h q t =
    omega (arith, get_elem?-lt input (p + depth - 1) (sym q))
test_sequence-le i last input p depth (some c) e (d ∷ chars) h q t =
    if-either (same_char i c e) t
      (λ t'. omega (arith, test_sequence-le i last input p (depth + 1) _ d chars h refl t'))
      (λ t'. cc)
