-- ===== src/Selectors/Machine/Resuming.antt =====
-- A run without attributes that is finished where it stopped does what a run with attributes does.
use lol_html.Base.Outcome.{ok, err, panic, ◌>>=◌, bind_assoc, Ensures, Ensures-bind, Ensures-any}
use lol_html.Base.Range.{Range}
use lol_html.Html.LocalName.{LocalName}
use lol_html.Html.TextType.{Namespace}
use lol_html.Memory.Limiter.{Limited}
use lol_html.Prelude.{
  ℕ, zero, suc, ◌+◌, ◌-◌, ◌≡◌, refl, ◌∙◌, Bool, true, false, List, [], ◌∷◌, Option, none, some,
  if◌then◌else◌, arith,
}
use lol_html.Selectors.Machine.{
  ElementData, ExecutionCtx, SelectorMatchingVm, Tried, done, bailed, Bailout, and_then,
  map_bailout, add_payload, add_payloads, add_execution_branch, add_matched,
  complete_instr_execution_with_attrs, try_addresses, on_result, instruction,
  try_exec_instr_set_without_attrs, try_sets,
}
use lol_html.Selectors.Program.{
  AttributeMatcher, ExecutionBranch, branch, attributes_required, fail, try_exec_without_attrs,
  complete_exec_with_attrs, exec, all_hold, TryExecResult, Instruction, no_exprs,
  CompiledAttributeExpr,
}
use lol_html.Selectors.Stack.{SelectorState, build_state}

-- What a run is worth once its bailout is dealt with.
abbrev pub finish_with :
    {C T : Type 0} → (C → Bailout T → Limited C) → Limited (Tried C T) → Limited C
finish_with f m = m >>= λ t. elim t [ done c ↦ ok c | bailed c b ↦ f c b ]

pub finish_with-if :
    {C T : Type 0} (f : C → Bailout T → Limited C) (b : Bool) (x y : Limited (Tried C T))
    {v w : Limited C}
    → finish_with f x ≡ v
    → finish_with f y ≡ w
    → finish_with f (if b then x else y) ≡ (if b then v else w)
finish_with-if f true x y p q = p
finish_with-if f false x y p q = q

abbrev pub ctx_of : {C T : Type 0} → Tried C T → C
ctx_of (done c) = c
ctx_of (bailed c b) = c

pub Ensures-on_result :
    {P C : Type 0} (Q : C → Type 0) (res : TryExecResult P) (f : ExecutionBranch P → Limited C)
    (x y : Limited C)
    → ((b : ExecutionBranch P) → Ensures Q (f b))
    → Ensures Q x
    → Ensures Q y
    → Ensures Q (on_result res f x y)
Ensures-on_result Q (branch b) f x y p q r = p b
Ensures-on_result Q attributes_required f x y p q r = q
Ensures-on_result Q fail f x y p q r = r

module _ {C T U : Type 0} (Q : C → Type 0) where
  -- A run and what comes after it, where both are finished.
  pub finish_with-and_then :
      (f : C → Bailout T → Limited C) (g : C → Bailout U → Limited C) (h : T → U)
      (k' : C → Limited C) (k : C → Limited (Tried C U)) (m : Limited (Tried C T))
      → ((c : C) (b : Bailout T)
          → Q c
          → g c (record { at_addr = b.at_addr; recovery_point = h b.recovery_point })
            ≡ (f c b >>= k'))
      → ((c : C) → Q c → finish_with g (k c) ≡ k' c)
      → Ensures (λ t. Q (ctx_of t)) m
      → finish_with g (and_then (m >>= λ t. ok (map_bailout h t)) k) ≡ (finish_with f m >>= k')
  unfolding ◌>>=◌
  finish_with-and_then f g h k' k (ok (done c)) bail after q = after c q
  finish_with-and_then f g h k' k (ok (bailed c b)) bail after q = bail c b q
  finish_with-and_then f g h k' k (err e) bail after q = refl
  finish_with-and_then f g h k' k panic bail after q = refl

  pub Ensures-and_then :
      (h : T → U) (k : C → Limited (Tried C U)) (m : Limited (Tried C T))
      → Ensures (λ t. Q (ctx_of t)) m
      → ((c : C) → Q c → Ensures (λ t. Q (ctx_of t)) (k c))
      → Ensures (λ t. Q (ctx_of t)) (and_then (m >>= λ t. ok (map_bailout h t)) k)
  unfolding ◌>>=◌
  Ensures-and_then h k (ok (done c)) q after = after c q
  Ensures-and_then h k (ok (bailed c b)) q after = q
  Ensures-and_then h k (err e) q after = tt
  Ensures-and_then h k panic q after = tt

-- The same instruction tried, and executed with attributes, over any way to go on from either.
module _ {P C : Type 0} (state : SelectorState) (name : LocalName) (m : AttributeMatcher)
    (add : ExecutionBranch P → C → C) (t : C → Limited (Tried C ℕ)) (e : C → Limited C)
    (f : C → Bailout ℕ → Limited C) (b : Bailout ℕ) (ctx : C) where
  abbrev add_any : Option (ExecutionBranch P) → C → C
  add_any none c = c
  add_any (some b') c = add b' c

  finish_with-held :
      (i : Instruction P) (es : List CompiledAttributeExpr) (named : Limited Bool)
      → ((b' : ExecutionBranch P) → finish_with f (t (add b' ctx)) ≡ e (add b' ctx))
      → finish_with f (t ctx) ≡ e ctx
      → (f ctx b
          ≡ ((all_hold es state m >>= λ holds.
                ok (if holds then some i.associated_branch else none))
              >>= λ matched. ok (add_any matched ctx))
            >>= e)
      → finish_with f (
          (named >>= λ holds. ok (
            if holds
            then (if no_exprs es then branch i.associated_branch else attributes_required)
            else fail))
          >>= λ res. on_result res (λ b'. t (add b' ctx)) (ok (bailed ctx b)) (t ctx))
        ≡ ((named >>= λ holds. (if holds then all_hold es state m else ok false) >>= λ is_match.
              ok (if is_match then some i.associated_branch else none))
            >>= λ matched. e (add_any matched ctx))
  unfolding ◌>>=◌ all_hold
  finish_with-held i [] (ok true) going rest bail = going i.associated_branch
  finish_with-held i (x ∷ es) (ok true) going rest bail =
      bail
      ∙ bind_assoc
          (all_hold (x ∷ es) state m >>= λ holds.
            ok (if holds then some i.associated_branch else none))
          _ e
  finish_with-held i es (ok false) going rest bail = rest
  finish_with-held i es (err x) going rest bail = refl
  finish_with-held i es panic going rest bail = refl

  finish_with-fetched :
      (mi : Limited (Instruction P))
      → ((b' : ExecutionBranch P) → finish_with f (t (add b' ctx)) ≡ e (add b' ctx))
      → finish_with f (t ctx) ≡ e ctx
      → (f ctx b
          ≡ (mi >>= λ i. complete_exec_with_attrs i state m >>= λ matched. ok (add_any matched ctx))
            >>= e)
      → finish_with f (
          mi >>= λ i. try_exec_without_attrs i state name >>= λ res.
          on_result res (λ b'. t (add b' ctx)) (ok (bailed ctx b)) (t ctx))
        ≡ (mi >>= λ i. exec i state name m >>= λ matched. e (add_any matched ctx))
  unfolding ◌>>=◌ try_exec_without_attrs complete_exec_with_attrs exec
  finish_with-fetched (ok i) going rest bail =
      finish_with-held i i.attribute_exprs (all_hold i.local_name_exprs state name) going rest bail
  finish_with-fetched (err x) going rest bail = refl
  finish_with-fetched panic going rest bail = refl

module _ {P D : Type 0} (eq : P → P → Bool) (data_ : ElementData P D) (hash_name : LocalName → ℕ)
    (vm : SelectorMatchingVm P D) where
  add_payloads-ns :
      (ps : List P) (ctx : ExecutionCtx P D) → (add_payloads eq data_ hash_name ps ctx).ns ≡ ctx.ns
  unfolding add_payloads add_payload
  add_payloads-ns [] ctx = refl
  add_payloads-ns (p ∷ ps) ctx = grind (arith, add_payloads-ns ps)

  pub add_execution_branch-ns :
      (b : ExecutionBranch P) (ctx : ExecutionCtx P D)
      → (add_execution_branch eq data_ hash_name b ctx).ns ≡ ctx.ns
  unfolding add_execution_branch
  add_execution_branch-ns b ctx = ground (arith, add_payloads-ns b.matched_payload ctx)

  module _ (ns : Namespace) where
    abbrev pub InNs : ExecutionCtx P D → Type 0
    InNs ctx = ctx.ns ≡ ns

    pub try_addresses-ns :
        (n start addr : ℕ) (ctx : ExecutionCtx P D)
        → InNs ctx
        → Ensures (λ t. InNs (ctx_of t)) (try_addresses eq data_ hash_name vm n start addr ctx)
    unfolding try_addresses
    try_addresses-ns zero start addr ctx q = q
    try_addresses-ns (suc n) start addr ctx q =
        Ensures-bind (λ _. Unit {0}) _ _ _ (Ensures-any _)
          (λ i _.
            Ensures-bind (λ _. Unit {0}) _ _ _ (Ensures-any _)
              (λ res _.
                Ensures-on_result _ res _ _ _
                  (λ b.
                    let e : InNs (add_execution_branch eq data_ hash_name b ctx) =
                      cc (add_execution_branch-ns b ctx) in
                    try_addresses-ns n start (addr + 1)
                      (add_execution_branch eq data_ hash_name b ctx) e)
                  q (try_addresses-ns n start (addr + 1) ctx q)))

    pub try_exec_instr_set-ns :
        (r : Range) (ctx : ExecutionCtx P D)
        → InNs ctx
        → Ensures
            (λ t. InNs (ctx_of t))
            (try_exec_instr_set_without_attrs eq data_ hash_name vm r ctx)
    unfolding try_exec_instr_set_without_attrs
    try_exec_instr_set-ns r ctx q = try_addresses-ns _ _ _ ctx q

    pub try_sets-ns :
        (rs : List Range) (i : ℕ) (ctx : ExecutionCtx P D)
        → InNs ctx
        → Ensures (λ t. InNs (ctx_of t)) (try_sets eq data_ hash_name vm rs i ctx)
    unfolding try_sets
    try_sets-ns [] i ctx q = q
    try_sets-ns (r ∷ rs) i ctx q =
        Ensures-and_then InNs _ _ _ (try_exec_instr_set-ns r ctx q)
          (λ c e. try_sets-ns rs (i + 1) c e)

  module _ (m : AttributeMatcher) where
    abbrev pub Ctx : Type 0
    Ctx = ExecutionCtx P D

    -- One round: the bailing instruction is completed, and then the ones after it are executed.
    pub finish_with-round :
        (addr start : ℕ) (ctx : Ctx) (t : Ctx → Limited (Tried Ctx ℕ)) (e : Ctx → Limited Ctx)
        (f : Ctx → Bailout ℕ → Limited Ctx)
        → ((b : ExecutionBranch P)
            → finish_with f (t (add_execution_branch eq data_ hash_name b ctx))
              ≡ e (add_execution_branch eq data_ hash_name b ctx))
        → finish_with f (t ctx) ≡ e ctx
        → (f ctx (record { at_addr = addr; recovery_point = addr - start + 1 })
            ≡ (complete_instr_execution_with_attrs eq data_ hash_name vm addr m ctx >>= e))
        → finish_with f (
            instruction eq data_ hash_name vm addr >>= λ i.
            try_exec_without_attrs i
              (build_state hash_name ctx.stack_item.local_name vm.stack)
              ctx.stack_item.local_name
            >>= λ res.
                on_result res
                  (λ b. t (add_execution_branch eq data_ hash_name b ctx))
                  (ok (bailed ctx (record { at_addr = addr; recovery_point = addr - start + 1 })))
                  (t ctx))
          ≡ (instruction eq data_ hash_name vm addr >>= λ i.
              exec i
                (build_state hash_name ctx.stack_item.local_name vm.stack)
                ctx.stack_item.local_name
                m
              >>= λ matched. e (add_matched eq data_ hash_name matched ctx))
    unfolding complete_instr_execution_with_attrs
    finish_with-round addr start ctx t e f going rest bail =
        finish_with-fetched (build_state hash_name ctx.stack_item.local_name vm.stack)
          ctx.stack_item.local_name m (add_execution_branch eq data_ hash_name) t e f
          (record { at_addr = addr; recovery_point = addr - start + 1 }) ctx
          (instruction eq data_ hash_name vm addr) going rest bail
