-- ===== src/Selectors/Machine.antt =====
-- src/selectors_vm/mod.rs: `SelectorMatchingVm`, which matches a start tag against the program. It
-- goes without the attributes as far as it can, asks for them where an instruction needs them, and
-- goes on from there. The closure of a request is a function of the machine that it is given.
-- `P` are the payloads and `eq` their equality, `D` the data of an element. `hash_name` is the hasher
-- of the counters' map. What the match handler is called with is kept in order.
pub mod Running
pub mod Resuming
pub mod Answered
pub mod Stages
pub mod Reference
use lol_html.Base.Outcome.{ok, panic, ◌>>=◌, expect}
use lol_html.Base.Range.{Range}
use lol_html.Html.LocalName.{LocalName}
use lol_html.Html.TextType.{Namespace}
use lol_html.Memory.Limiter.{Limited}
use lol_html.Parser.Outline.{AttributeOutline}
use lol_html.Prelude.{
  ℕ, zero, suc, ◌+◌, ◌-◌, Bool, true, false, not, ◌||◌, List, [], ◌∷◌, ◌++◌, Option, none, some,
  get_elem?, length, drop, if◌then◌else◌,
}
use lol_html.Selectors.Program.{
  AttributeMatcher, new_attribute_matcher, ExecutionBranch, Instruction, Program, branch,
  attributes_required, fail, TryExecResult, try_exec_without_attrs, complete_exec_with_attrs, exec,
}
use lol_html.Selectors.Stack.{
  Stack, StackItem, StackDirective, push_, push_if_not_self_closing, pop_immediately, DrainFilter,
  new_item, add_child, build_state, get_stack_directive, push_item, pop_up_to,
}

pub record MatchInfo (P : Type 0) : Type 0 where
  pub payload : P
  pub with_content : Bool

-- `ElementData` and `Default`.
pub record ElementData (P D : Type 0) : Type 0 where
  pub default_data : D
  pub matched_payload : D → List P
  pub with_matched_payload : List P → D → D

pub record JumpPtr : Type 0 where
  pub instr_set_idx : ℕ
  pub offset : ℕ

pub record HereditaryJumpPtr : Type 0 where
  pub stack_offset : ℕ
  pub instr_set_idx : ℕ
  pub offset : ℕ

pub record Bailout (T : Type 0) : Type 0 where
  pub at_addr : ℕ
  pub recovery_point : T

-- `AuxStartTagInfo` of src/transform_stream/dispatcher.rs.
pub record AuxStartTagInfo : Type 0 where
  pub input : List ℕ
  pub attr_buffer : List AttributeOutline
  pub self_closing : Bool

pub record ExecutionCtx (P D : Type 0) : Type 0 where
  pub stack_item : StackItem D
  pub with_content : Bool
  pub ns : Namespace
  pub matches : List (MatchInfo P)

pub record SelectorMatchingVm (P D : Type 0) : Type 0 where
  pub program : Program P
  pub stack : Stack D

-- A run that ends, or stops where it needs the attributes.
pub data Tried (C T : Type 0) : Type 0 where
  done : C → Tried C T
  bailed : C → Bailout T → Tried C T

-- The rest of a run, where there is one; `map_err` on the bailout.
abbrev pub and_then :
    {C T : Type 0} → Limited (Tried C T) → (C → Limited (Tried C T)) → Limited (Tried C T)
and_then m f = m >>= λ t. elim t [ done c ↦ f c | bailed c b ↦ ok (bailed c b) ]

abbrev pub map_bailout : {C T U : Type 0} → (T → U) → Tried C T → Tried C U
map_bailout f (done c) = done c
map_bailout f (bailed c b) =
    bailed c (record { at_addr = b.at_addr; recovery_point = f b.recovery_point })

-- The match on the result of an instruction.
abbrev pub on_result : {P C : Type 0} → TryExecResult P → (ExecutionBranch P → C) → C → C → C
on_result (branch b) f x y = f b
on_result attributes_required f x y = x
on_result fail f x y = y

-- How a start tag's match ends: with the machine, or with a request for the attributes.
-- The closure is given a machine and the attributes; what it returns of matches counts those from
-- before the request too.
pub data StartTagResult (R V A : Type 0) : Type 0 where
  finished : R → StartTagResult R V A
  info_request : R → (V → A → Limited R) → StartTagResult R V A

module _ {P D : Type 0} (eq : P → P → Bool) (data_ : ElementData P D)
    (hash_name : LocalName → ℕ) where
  abbrev pub Ctx : Type 0
  Ctx = ExecutionCtx P D

  abbrev pub Vm : Type 0
  Vm = SelectorMatchingVm P D

  unfoldable pub new_ctx : LocalName → Namespace → Ctx
  new_ctx name ns = record {
    stack_item = new_item data_.default_data name;
    with_content = true;
    ns = ns;
    matches = [];
  }

  unfoldable pub contains : P → List P → Bool
  contains p [] = false
  contains p (q ∷ qs) = eq p q || contains p qs

  unfoldable pub add_payload : P → Ctx → Ctx
  unfolding contains
  add_payload payload ctx =
      let seen = data_.matched_payload ctx.stack_item.element_data in
      if contains payload seen then ctx else record ctx {
        stack_item = record ctx.stack_item {
          element_data = data_.with_matched_payload (payload ∷ seen) ctx.stack_item.element_data;
        };
        matches = ctx.matches ++ record { payload = payload; with_content = ctx.with_content } ∷ [];
      }

  unfoldable pub add_payloads : List P → Ctx → Ctx
  unfolding add_payload
  add_payloads [] ctx = ctx
  add_payloads (payload ∷ payloads) ctx = add_payloads payloads (add_payload payload ctx)

  abbrev pub push_jumps : Option Range → List Range → List Range
  push_jumps none jumps = jumps
  push_jumps (some r) jumps = jumps ++ r ∷ []

  unfoldable pub add_execution_branch : ExecutionBranch P → Ctx → Ctx
  unfolding add_payloads
  add_execution_branch b ctx =
      let ctx' = add_payloads b.matched_payload ctx in
      if ctx'.with_content
      then record ctx' {
        stack_item = record ctx'.stack_item {
          jumps = push_jumps b.jumps ctx'.stack_item.jumps;
          hereditary_jumps = push_jumps b.hereditary_jumps ctx'.stack_item.hereditary_jumps;
        };
      }
      else ctx'

  abbrev pub add_matched : Option (ExecutionBranch P) → Ctx → Ctx
  add_matched none ctx = ctx
  add_matched (some b) ctx = add_execution_branch b ctx

  module _ (vm : Vm) where
    abbrev pub instruction : ℕ → Limited (Instruction P)
    instruction addr = expect (get_elem? vm.program.instructions addr)

    unfoldable pub complete_instr_execution_with_attrs : ℕ → AttributeMatcher → Ctx → Limited Ctx
    unfolding add_execution_branch
    complete_instr_execution_with_attrs addr m ctx =
        let state = build_state hash_name ctx.stack_item.local_name vm.stack in
        instruction addr >>= λ i.
        complete_exec_with_attrs i state m >>= λ matched. ok (add_matched matched ctx)

    -- The loop of `try_exec_instr_set_without_attrs`: so many more addresses from `addr` on.
    unfoldable pub try_addresses : ℕ → ℕ → ℕ → Ctx → Limited (Tried Ctx ℕ)
    unfolding add_execution_branch
    try_addresses zero start addr ctx = ok (done ctx)
    try_addresses (suc n) start addr ctx =
        let state = build_state hash_name ctx.stack_item.local_name vm.stack in
        instruction addr >>= λ i.
        try_exec_without_attrs i state ctx.stack_item.local_name >>= λ res.
        on_result res (λ b. try_addresses n start (addr + 1) (add_execution_branch b ctx))
          (ok (bailed ctx (record { at_addr = addr; recovery_point = addr - start + 1 })))
          (try_addresses n start (addr + 1) ctx)

    unfoldable pub try_exec_instr_set_without_attrs : Range → Ctx → Limited (Tried Ctx ℕ)
    unfolding try_addresses
    try_exec_instr_set_without_attrs r ctx = try_addresses (r.end - r.start) r.start r.start ctx

    unfoldable pub exec_addresses : AttributeMatcher → ℕ → ℕ → Ctx → Limited Ctx
    unfolding add_execution_branch
    exec_addresses m zero addr ctx = ok ctx
    exec_addresses m (suc n) addr ctx =
        let state = build_state hash_name ctx.stack_item.local_name vm.stack in
        instruction addr >>= λ i. exec i state ctx.stack_item.local_name m >>= λ matched.
        exec_addresses m n (addr + 1) (add_matched matched ctx)

    unfoldable pub exec_instr_set_with_attrs : Range → AttributeMatcher → Ctx → ℕ → Limited Ctx
    unfolding exec_addresses
    exec_instr_set_with_attrs r m ctx offset =
        exec_addresses m (r.end - (r.start + offset)) (r.start + offset) ctx

    -- The loop over a list of instruction sets, from the `i`th on.
    unfoldable pub try_sets : List Range → ℕ → Ctx → Limited (Tried Ctx JumpPtr)
    unfolding try_exec_instr_set_without_attrs
    try_sets [] i ctx = ok (done ctx)
    try_sets (r ∷ rs) i ctx =
        and_then
          (try_exec_instr_set_without_attrs r ctx >>= λ t.
            ok (map_bailout (λ n. record { instr_set_idx = i; offset = n }) t))
          (try_sets rs (i + 1))

    unfoldable pub exec_sets : AttributeMatcher → List Range → Ctx → Limited Ctx
    unfolding exec_instr_set_with_attrs
    exec_sets m [] ctx = ok ctx
    exec_sets m (r ∷ rs) ctx = exec_instr_set_with_attrs r m ctx 0 >>= exec_sets m rs

    unfoldable pub exec_found : AttributeMatcher → Option Range → List Range → ℕ → Ctx → Limited Ctx
    unfolding exec_instr_set_with_attrs exec_sets
    exec_found m none rest offset ctx = ok ctx
    exec_found m (some r) rest offset ctx =
        exec_instr_set_with_attrs r m ctx offset >>= exec_sets m rest

    -- A set from an offset, where it is there, and the sets after it.
    unfoldable pub exec_sets_from : AttributeMatcher → List Range → ℕ → ℕ → Ctx → Limited Ctx
    unfolding exec_found
    exec_sets_from m rs idx offset ctx =
        exec_found m (get_elem? rs idx) (drop (idx + 1) rs) offset ctx

    abbrev pub parent_jumps : List (StackItem D) → List Range
    parent_jumps [] = []
    parent_jumps (parent ∷ items) = parent.jumps

    unfoldable pub try_exec_jumps_without_attrs : Ctx → Limited (Tried Ctx JumpPtr)
    unfolding try_sets
    try_exec_jumps_without_attrs ctx = try_sets (parent_jumps vm.stack.items) 0 ctx

    unfoldable pub exec_jumps_with_attrs : AttributeMatcher → Ctx → JumpPtr → Limited Ctx
    unfolding exec_sets_from
    exec_jumps_with_attrs m ctx ptr =
        exec_sets_from m (parent_jumps vm.stack.items) ptr.instr_set_idx ptr.offset ctx

    -- The loop over the ancestors from the `i`th from the top on.
    unfoldable pub try_ancestors :
        List (StackItem D) → ℕ → Ctx → Limited (Tried Ctx HereditaryJumpPtr)
    unfolding try_sets
    try_ancestors [] i ctx = ok (done ctx)
    try_ancestors (ancestor ∷ items) i ctx =
        and_then
          (try_sets ancestor.hereditary_jumps 0 ctx >>= λ t. ok (
            map_bailout
              (λ p. record { stack_offset = i; instr_set_idx = p.instr_set_idx; offset = p.offset })
              t))
          (λ ctx'.
            let rest = try_ancestors items (i + 1) ctx' in
            if ancestor.has_ancestor_with_hereditary_jumps then rest else ok (done ctx'))

    unfoldable pub try_exec_hereditary_jumps_without_attrs :
        Ctx → Limited (Tried Ctx HereditaryJumpPtr)
    unfolding try_ancestors
    try_exec_hereditary_jumps_without_attrs ctx = try_ancestors vm.stack.items 0 ctx

    -- The loop over the remaining ancestors.
    unfoldable pub exec_ancestors : AttributeMatcher → List (StackItem D) → Ctx → Limited Ctx
    unfolding exec_sets
    exec_ancestors m [] ctx = ok ctx
    exec_ancestors m (ancestor ∷ items) ctx = exec_sets m ancestor.hereditary_jumps ctx >>= λ ctx'.
        let rest = exec_ancestors m items ctx' in
        if ancestor.has_ancestor_with_hereditary_jumps then rest else ok ctx'

    -- From the pointed ancestor on, the items below it after it; its index is out of range where
    -- there is none.
    unfoldable pub exec_pointed :
        AttributeMatcher → HereditaryJumpPtr → List (StackItem D) → Ctx → Limited Ctx
    unfolding exec_sets_from exec_ancestors
    exec_pointed m ptr [] ctx = panic
    exec_pointed m ptr (pointed ∷ rest) ctx =
        exec_sets_from m pointed.hereditary_jumps ptr.instr_set_idx ptr.offset ctx >>= λ ctx'.
        if pointed.has_ancestor_with_hereditary_jumps then exec_ancestors m rest ctx' else ok ctx'

    unfoldable pub exec_hereditary_in :
        AttributeMatcher → HereditaryJumpPtr → List (StackItem D) → Ctx → Limited Ctx
    unfolding exec_pointed
    exec_hereditary_in m ptr [] ctx = ok ctx
    exec_hereditary_in m ptr (top ∷ below) ctx =
        exec_pointed m ptr (drop ptr.stack_offset (top ∷ below)) ctx

    unfoldable pub exec_hereditary_jumps_with_attrs :
        AttributeMatcher → Ctx → HereditaryJumpPtr → Limited Ctx
    unfolding exec_hereditary_in
    exec_hereditary_jumps_with_attrs m ctx ptr = exec_hereditary_in m ptr vm.stack.items ctx
