-- ===== src/Parser/Machine/Progress.antt =====
-- Every round of the parsing loop that goes on either moves the cursor forward inside the input
-- or keeps it and enters a state of a smaller rank.
use lol_html.Parser.Machine.Arms.{
  action_list-After, break-not-ok, match_none-HandsBack, match_some-After, test_sequence-le, After,
  HandsBack, KeepsCursor,
}
use lol_html.Base.Outcome.{ok, bind-eq-ok, Outcome-cases}
use lol_html.Parser.Machine.Loop.{parsing_loop, out_of_fuel, run_parsing_loop}
use lol_html.Parser.Machine.Ranks.{
  rank, rank-le, check_list, check_enter, check_arm, check_arms, enter-check, arms-check,
}
use lol_html.Parser.Machine.{
  Core, Machine, Result, StateMachine, action_list, state_enter, match_arms, run_sequence,
  sequence_arm, run_arms, step, after_enter, entered, after_test, Flow, fell, moved, machine_of,
  matched, mismatch, starved, SequenceTest, set_next_pos, set_ext,
}
use lol_html.Parser.Syntax.Table.{body}
use lol_html.Parser.Syntax.{
  State, ActionList, stay, next_text_parsing_state, switch_to, reconsume_in, ◌⨟◌, when, sequence,
  Pattern, Arm,
}
use lol_html.Prelude.{
  ℕ, zero, suc, ◌+◌, ◌-◌, ◌*◌, ◌≤◌, ◌<◌, Bool, true, false, List, [], ◌∷◌, Option, none, some, ◌≡◌,
  ◌≢◌, refl, sym, ◌∙◌, ap, ◌⊎◌, inl, inr, arith, get_elem?, length, and-true, if-either,
  get_elem?-lt,
}

-- What a round that goes on may do from the cursor `p` in the state `s`.
abbrev pub Progress : {X : Type 0} → List ℕ → ℕ → State → Machine X → Type 0
Progress input p s m =
    (m.core.next_pos ≤ length input)
    × ((p < m.core.next_pos) ⊎ ((m.core.next_pos ≡ p) × (rank m.core.state < rank s)))

After-Progress :
    {X : Type 0} (f : Flow X) (input : List ℕ) (p n : ℕ) (s : State)
    → p < n
    → n ≤ length input
    → After true n s f
    → Progress input p s (machine_of f)
After-Progress (fell m) input p n s h k a = (omega arith, inl (omega arith))
After-Progress (moved m) input p n s h k (inl a) = (omega arith, inl (omega arith))
After-Progress (moved m) input p n s h k (inr a) = ground arith

HandsBack-Progress :
    {X : Type 0} (f : Flow X) (input : List ℕ) (p : ℕ) (s : State)
    → p ≤ length input
    → HandsBack (p + 1) s f
    → Progress input p s (machine_of f)
HandsBack-Progress (fell m) input p s k a = elim a [ ]
HandsBack-Progress (moved m) input p s k a = ground arith

module _ {X : Type 0} (sm : StateMachine X) (keeps : KeepsCursor sm) where
  -- The enter actions, which make no transition.
  enter-keeps :
      (l : ActionList) (input : List ℕ) (m : Machine X) {f : Flow X}
      → check_enter l ≡ true
      → action_list sm l input m ≡ ok f
      → (m' : Machine X) × (f ≡ fell m')
        × (m'.core.next_pos ≡ m.core.next_pos)
        × (m'.core.state ≡ m.core.state)
  unfolding check_enter action_list
  enter-keeps stay input m k e = (m, ground arith, refl, refl)
  enter-keeps (a ⨟ l) input m k e =
      let (n, acted, rest) = bind-eq-ok (sm.action a input m) (action_list sm l input) e in
      let (cursor, state) = keeps.action_keeps a input m acted in
      let (m', g, c, t) = enter-keeps l input n k rest in (m', g, c ∙ cursor, t ∙ state)
  enter-keeps next_text_parsing_state input m k e = cc
  enter-keeps (switch_to t) input m k e = cc
  enter-keeps (reconsume_in t) input m k e = cc
  enter-keeps (when d l r) input m k e = cc

  run_match-Progress :
      (all : List Arm) (s : State) (ch : Option ℕ) (input : List ℕ) (p : ℕ) (m : Machine X)
      {f : Flow X}
      → check_arms s all ≡ true
      → m.core.state ≡ s
      → m.core.next_pos ≡ p + 1
      → p ≤ length input
      → ch ≡ get_elem? input p
      → match_arms sm all ch input m ≡ ok f
      → Progress input p s (machine_of f)
  run_match-Progress all s none input p m {f} k q n h c e =
      HandsBack-Progress f input p s h (rw n at (match_none-HandsBack sm keeps all s input m k q e))
  run_match-Progress all s (some x) input p m {f} k q n h c e =
      After-Progress f input p m.core.next_pos s (omega arith)
        (omega (arith, get_elem?-lt input p (sym c)))
        (match_some-After sm keeps all s x input m k q e)

  after_test-Progress :
      (t : SequenceTest) (input : List ℕ) (p : ℕ) (s : State) (x y z : Result X (Flow X))
      {f : Flow X}
      → after_test t x y z ≡ ok f
      → (t ≡ matched → x ≡ ok f → Progress input p s (machine_of f))
      → (y ≡ ok f → Progress input p s (machine_of f))
      → (z ≡ ok f → Progress input p s (machine_of f))
      → Progress input p s (machine_of f)
  after_test-Progress matched input p s x y z e f g h = f refl e
  after_test-Progress mismatch input p s x y z e f g h = g e
  after_test-Progress starved input p s x y z e f g h = h e

  run_sequence-Progress :
      (i : Bool) (e : ℕ) (chars : List ℕ) (l : ActionList) (s : State) (ch : Option ℕ)
      (input : List ℕ) (p : ℕ) (m : Machine X) (others : Machine X → Result X (Flow X)) {f : Flow X}
      → check_list true s l ≡ true
      → m.core.state ≡ s
      → m.core.next_pos ≡ p + 1
      → p ≤ length input
      → ch ≡ get_elem? input p
      → ((n : Machine X) → n.core ≡ m.core → others n ≡ ok f → Progress input p s (machine_of f))
      → run_sequence sm i (e ∷ chars) l ch input m others ≡ ok f
      → Progress input p s (machine_of f)
  unfolding run_sequence
  run_sequence-Progress i e chars l s ch input p m others {f} k q n h c others_lem r =
      let begun = set_ext (sm.enter_ch_sequence_matching m) m in
      let left = set_ext (sm.leave_ch_sequence_matching begun.ext) begun in
      let at_char : ch ≡ get_elem? input (m.core.next_pos + 0 - 1) =
        c ∙ ap (get_elem? input) (omega arith) in
      after_test-Progress _ input p s _ _ _ r
        (λ t acted.
          let bound =
            test_sequence-le i m.core.is_last_input input m.core.next_pos 0 ch e chars (omega arith)
              at_char t in
          After-Progress f input p (m.core.next_pos + (length (e ∷ chars) - 1)) s (omega arith)
            (omega arith)
            (action_list-After sm keeps l true s input
              (set_next_pos (m.core.next_pos + (length (e ∷ chars) - 1)) left) k q acted))
        (others_lem left refl) (λ b. absurd (break-not-ok sm keeps input begun b))

  sequence_arm-Progress :
      (q : Pattern) (l : ActionList) (s : State) (ch : Option ℕ) (input : List ℕ) (p : ℕ)
      (m : Machine X) (others : Machine X → Result X (Flow X)) {f : Flow X}
      → check_arm s q l ≡ true
      → m.core.state ≡ s
      → m.core.next_pos ≡ p + 1
      → p ≤ length input
      → ch ≡ get_elem? input p
      → ((n : Machine X) → n.core ≡ m.core → others n ≡ ok f → Progress input p s (machine_of f))
      → sequence_arm sm q l ch input m others ≡ ok f
      → Progress input p s (machine_of f)
  unfolding sequence_arm check_arm
  sequence_arm-Progress (sequence i []) l s ch input p m others k t n h c g r = cc
  sequence_arm-Progress (sequence i (e ∷ chars)) l s ch input p m others k t n h c g r =
      run_sequence-Progress i e chars l s ch input p m others k t n h c g r
  sequence_arm-Progress _ l s ch input p m others k t n h c g r = g m refl r

  run_arms-Progress :
      (arms all : List Arm) (s : State) (ch : Option ℕ) (input : List ℕ) (p : ℕ) (m : Machine X)
      {f : Flow X}
      → check_arms s arms ≡ true
      → check_arms s all ≡ true
      → m.core.state ≡ s
      → m.core.next_pos ≡ p + 1
      → p ≤ length input
      → ch ≡ get_elem? input p
      → run_arms sm arms all ch input m ≡ ok f
      → Progress input p s (machine_of f)
  unfolding run_arms check_arms
  run_arms-Progress [] all s ch input p m k a q n h c e =
      run_match-Progress all s ch input p m a q n h c e
  run_arms-Progress (arm ∷ arms) all s ch input p m k a q n h c e =
      let (here, there) = and-true (check_arm s arm.pattern arm.actions) (check_arms s arms) k in
      sequence_arm-Progress arm.pattern arm.actions s ch input p m (run_arms sm arms all ch input)
        here q n h c
        (λ m' same r.
          run_arms-Progress arms all s ch input p m' there a (ap (λ (k : Core). k.state) same ∙ q)
            (ap (λ (k : Core). k.next_pos) same ∙ n) h c r)
        e

  state_enter-keeps :
      (l : ActionList) (input : List ℕ) (m : Machine X) {f : Flow X}
      → check_enter l ≡ true
      → state_enter sm l input m ≡ ok f
      → (m' : Machine X) × (f ≡ fell m')
        × (m'.core.next_pos ≡ m.core.next_pos)
        × (m'.core.state ≡ m.core.state)
  unfolding state_enter
  state_enter-keeps stay input m k e = (m, ground arith, refl, refl)
  state_enter-keeps l input m {f} k e =
      if-either m.core.is_state_enter e
        (λ r.
          let (g, acted, shown) = bind-eq-ok (action_list sm l input m) _ r in
          let (m', fallen, cursor, state) = enter-keeps l input m k acted in
          let ended : f ≡ entered (fell m') = ground arith in
          (record m' { core = record (m'.core) { is_state_enter = false } }, ended, cursor, state))
        (λ r. (m, ground arith, refl, refl))

  pub step-Progress :
      (input : List ℕ) (m : Machine X) {m' : Machine X}
      → m.core.next_pos ≤ length input
      → step sm input m ≡ ok m'
      → Progress input m.core.next_pos m.core.state m'
  unfolding step after_enter
  step-Progress input m {m'} h e =
      let s = m.core.state in
      let consumed = set_next_pos (m.core.next_pos + 1) m in
      let ch = get_elem? input m.core.next_pos in
      let (f, begun, rest) =
        bind-eq-ok (state_enter sm (body s).enter_actions input consumed) _ e in
      let (n, fallen, cursor, state) =
        state_enter-keeps (body s).enter_actions input consumed (enter-check s) begun in
      let (g, acted, shown) =
        bind-eq-ok (run_arms sm (body s).arms (body s).arms ch input n) _
          (ap (after_enter sm (body s).arms ch input) (sym fallen) ∙ rest) in
      let made : machine_of g ≡ m' = ground arith in
      rw made at (
        run_arms-Progress (body s).arms (body s).arms s ch input m.core.next_pos n (arms-check s)
          (arms-check s) state cursor h refl acted)

  -- The rounds that may follow.
  pub parsing_loop-total :
      (fuel : ℕ) (input : List ℕ) (m : Machine X)
      → m.core.next_pos ≤ length input
      → 4 * (length input - m.core.next_pos) + rank m.core.state < fuel
      → parsing_loop sm fuel input m ≢ out_of_fuel
  unfolding parsing_loop
  parsing_loop-total zero input m h k = absurd (omega arith)
  parsing_loop-total (suc fuel) input m h k = elim (Outcome-cases (step sm input m)) [
    | inl (m', e) ↦
        let (inside, onward) = step-Progress input m h e in
        rw (e, parsing_loop)
          (parsing_loop-total fuel input m' inside
            (omega (arith, onward, rank-le m'.core.state, rank-le m.core.state)))
    | inr (inl (x, e)) ↦ rw (e, parsing_loop) (λ p. cc)
    | inr (inr e) ↦ rw (e, parsing_loop) (λ p. cc)
  ]

  pub run_parsing_loop-total :
      (input : List ℕ) (last : Bool) (m : Machine X)
      → m.core.next_pos ≤ length input
      → run_parsing_loop sm input last m ≢ out_of_fuel
  unfolding run_parsing_loop
  run_parsing_loop-total input last m h =
      parsing_loop-total (4 * length input + 8) input _ h (omega (arith, rank-le m.core.state))
