-- ===== src/Selectors/Machine/Answered.antt =====
-- The loops of the machine: each, finished where it stopped, is the loop with attributes.
use lol_html.Base.Outcome.{ok, ◌>>=◌, bind_assoc, bind_congr}
use lol_html.Base.Range.{Range}
use lol_html.Html.LocalName.{LocalName}
use lol_html.Html.TextType.{Namespace}
use lol_html.Memory.Limiter.{Limited}
use lol_html.Prelude.{
  ℕ, zero, suc, ◌+◌, ◌-◌, ◌≤◌, ◌≡◌, refl, sym, ap, ◌∙◌, Bool, List, [], ◌∷◌, some, get_elem?, drop,
  if◌then◌else◌, arith, drop_all,
}
use lol_html.Selectors.Machine.{
  add_execution_branch, ElementData, ExecutionCtx, SelectorMatchingVm, Bailout, JumpPtr,
  HereditaryJumpPtr, complete_instr_execution_with_attrs, try_addresses,
  try_exec_instr_set_without_attrs, exec_addresses, exec_instr_set_with_attrs, try_sets, exec_sets,
  exec_sets_from, parent_jumps, exec_jumps_with_attrs, try_ancestors, exec_ancestors,
  exec_hereditary_jumps_with_attrs, exec_hereditary_in, exec_pointed, exec_found,
}
use lol_html.Selectors.Machine.Resuming.{
  add_execution_branch-ns, finish_with, finish_with-if, finish_with-and_then, finish_with-round,
  try_exec_instr_set-ns, try_sets-ns,
}
use lol_html.Selectors.Program.{AttributeMatcher}
use lol_html.Selectors.Stack.{StackItem}

get_elem?-drop :
    {A : Type 0} (n : ℕ) (xs : List A) {x : A} {ys : List A}
    → drop n xs ≡ x ∷ ys
    → (get_elem? xs n ≡ some x) × (drop (n + 1) xs ≡ ys)
get_elem?-drop zero [] e = absurd cc
get_elem?-drop zero (x ∷ xs) e = (cc, cc)
get_elem?-drop (suc n) [] e = absurd cc
get_elem?-drop (suc n) (x ∷ xs) e =
    let (a, b) = get_elem?-drop n xs e in
    let next : suc n + 1 ≡ suc (n + 1) = omega arith in (a, rw next b)

module _ {P D : Type 0} (eq : P → P → Bool) (data_ : ElementData P D) (hash_name : LocalName → ℕ)
    (vm : SelectorMatchingVm P D) (m : AttributeMatcher) (c : ExecutionCtx P D) where
  exec_sets_from-first :
      (rs : List Range)
      → exec_sets_from eq data_ hash_name vm m rs 0 0 c ≡ exec_sets eq data_ hash_name vm m rs c
  unfolding exec_sets_from exec_found exec_sets
  exec_sets_from-first [] = refl
  exec_sets_from-first (r ∷ rs) = refl

  pub exec_jumps-first :
      exec_jumps_with_attrs eq data_ hash_name vm m c (record { instr_set_idx = 0; offset = 0 })
      ≡ exec_sets eq data_ hash_name vm m (parent_jumps eq data_ hash_name vm vm.stack.items) c
  unfolding exec_jumps_with_attrs
  exec_jumps-first = exec_sets_from-first _

  -- What a set from an offset and those after it do, where the set is `r`.
  exec_sets_from-found :
      (all : List Range) (r : Range) (rs : List Range) (i offset : ℕ)
      → get_elem? all i ≡ some r
      → drop (i + 1) all ≡ rs
      → exec_sets_from eq data_ hash_name vm m all i offset c ≡ (
          exec_instr_set_with_attrs eq data_ hash_name vm r m c offset
          >>= exec_sets eq data_ hash_name vm m rs)
  unfolding exec_sets_from exec_found
  exec_sets_from-found all r rs i offset found after = rw (found, after)

  exec_hereditary_in-pointed :
      (all : List (StackItem D)) (ancestor : StackItem D) (items : List (StackItem D))
      (p : HereditaryJumpPtr)
      → drop p.stack_offset all ≡ ancestor ∷ items
      → exec_hereditary_in eq data_ hash_name vm m p all c
        ≡ exec_pointed eq data_ hash_name vm m p (ancestor ∷ items) c
  unfolding exec_hereditary_in
  exec_hereditary_in-pointed [] ancestor items p e =
      let none_left : [] ≡ ancestor ∷ items = sym (drop_all p.stack_offset [] (omega arith)) ∙ e in
      absurd cc
  exec_hereditary_in-pointed (top ∷ below) ancestor items p e =
      ap (λ l. exec_pointed eq data_ hash_name vm m p l c) e

  exec_hereditary_in-first :
      (all : List (StackItem D))
      → exec_hereditary_in eq data_ hash_name vm m
          (record { stack_offset = 0; instr_set_idx = 0; offset = 0 })
          all
          c
        ≡ exec_ancestors eq data_ hash_name vm m all c
  unfolding exec_hereditary_in exec_pointed exec_ancestors
  exec_hereditary_in-first [] = refl
  exec_hereditary_in-first (top ∷ below) =
      ap
        (λ t. t >>= λ c'.
          if top.has_ancestor_with_hereditary_jumps
          then exec_ancestors eq data_ hash_name vm m below c'
          else ok c')
        (exec_sets_from-first top.hereditary_jumps)

  pub exec_hereditary-first :
      exec_hereditary_jumps_with_attrs eq data_ hash_name vm m c
        (record { stack_offset = 0; instr_set_idx = 0; offset = 0 })
      ≡ exec_ancestors eq data_ hash_name vm m vm.stack.items c
  unfolding exec_hereditary_jumps_with_attrs
  exec_hereditary-first = exec_hereditary_in-first vm.stack.items

module _ {P D : Type 0} (eq : P → P → Bool) (data_ : ElementData P D) (hash_name : LocalName → ℕ)
    (vm : SelectorMatchingVm P D) (matcher : Namespace → AttributeMatcher) (ns : Namespace) where
  abbrev pub Ctx : Type 0
  Ctx = ExecutionCtx P D

  -- The instruction that stopped a run, and then the rest.
  abbrev pub completed :
      {T : Type 0} → (AttributeMatcher → Ctx → T → Limited Ctx) → Ctx → Bailout T → Limited Ctx
  completed f c b =
      complete_instr_execution_with_attrs eq data_ hash_name vm b.at_addr (matcher c.ns) c >>= λ c'.
      f (matcher c.ns) c' b.recovery_point

  pub finish_with-addresses :
      (n start addr end : ℕ) (ctx : Ctx)
      → ctx.ns ≡ ns
      → start ≤ addr
      → n ≡ end - addr
      → finish_with
          (completed (λ m c offset.
            exec_addresses eq data_ hash_name vm m (end - (start + offset)) (start + offset) c))
          (try_addresses eq data_ hash_name vm n start addr ctx)
        ≡ exec_addresses eq data_ hash_name vm (matcher ns) n addr ctx
  unfolding try_addresses exec_addresses ◌>>=◌
  finish_with-addresses zero start addr end ctx q le e = refl
  finish_with-addresses (suc n) start addr end ctx q le e =
      finish_with-round eq data_ hash_name vm (matcher ns) addr start ctx
        (try_addresses eq data_ hash_name vm n start (addr + 1))
        (exec_addresses eq data_ hash_name vm (matcher ns) n (addr + 1)) _
        (λ b.
          finish_with-addresses n start (addr + 1) end
            (add_execution_branch eq data_ hash_name b ctx)
            (add_execution_branch-ns eq data_ hash_name vm b ctx ∙ q) (omega arith) (omega arith))
        (finish_with-addresses n start (addr + 1) end ctx q (omega arith) (omega arith))
        (let from : start + (addr - start + 1) ≡ addr + 1 = omega arith in
          let to : end - (addr + 1) ≡ n = omega arith in rw (q, from, to) refl)

  pub finish_with-set :
      (r : Range) (ctx : Ctx)
      → ctx.ns ≡ ns
      → finish_with
          (completed (λ m c offset. exec_instr_set_with_attrs eq data_ hash_name vm r m c offset))
          (try_exec_instr_set_without_attrs eq data_ hash_name vm r ctx)
        ≡ exec_instr_set_with_attrs eq data_ hash_name vm r (matcher ns) ctx 0
  unfolding try_exec_instr_set_without_attrs exec_instr_set_with_attrs
  finish_with-set r ctx q =
      let from : r.start + 0 ≡ r.start = omega arith in
      rw from
        (finish_with-addresses (r.end - r.start) r.start r.start r.end ctx q (omega arith) refl)

  -- A run that stopped in the set `r` of the list.
  finish_with-found :
      (all : List Range) (r : Range) (rs : List Range) (i : ℕ) (c : Ctx) (b : Bailout ℕ)
      → c.ns ≡ ns
      → get_elem? all i ≡ some r
      → drop (i + 1) all ≡ rs
      → completed {T = JumpPtr}
          (λ m c p. exec_sets_from eq data_ hash_name vm m all p.instr_set_idx p.offset c)
          c
          (record {
            at_addr = b.at_addr;
            recovery_point = record { instr_set_idx = i; offset = b.recovery_point };
          })
        ≡ (completed
              (λ m c offset. exec_instr_set_with_attrs eq data_ hash_name vm r m c offset)
              c
              b
            >>= exec_sets eq data_ hash_name vm (matcher ns) rs)
  finish_with-found all r rs i c b q found after =
      bind_congr
        (complete_instr_execution_with_attrs eq data_ hash_name vm b.at_addr (matcher c.ns) c) _ _
        (λ c'.
          exec_sets_from-found eq data_ hash_name vm (matcher c.ns) c' all r rs i b.recovery_point
            found after)
      ∙ sym (
          bind_assoc
            (complete_instr_execution_with_attrs eq data_ hash_name vm b.at_addr (matcher c.ns) c) _
            _)
      ∙ ap
          (λ n.
            completed (λ m c offset. exec_instr_set_with_attrs eq data_ hash_name vm r m c offset) c
              b
            >>= exec_sets eq data_ hash_name vm (matcher n) rs)
          q

  pub finish_with-sets :
      (all rs : List Range) (i : ℕ) (ctx : Ctx)
      → ctx.ns ≡ ns
      → drop i all ≡ rs
      → finish_with
          (completed {T = JumpPtr}
            (λ m c p. exec_sets_from eq data_ hash_name vm m all p.instr_set_idx p.offset c))
          (try_sets eq data_ hash_name vm rs i ctx)
        ≡ exec_sets eq data_ hash_name vm (matcher ns) rs ctx
  unfolding try_sets exec_sets ◌>>=◌
  finish_with-sets all [] i ctx q e = refl
  finish_with-sets all (r ∷ rs) i ctx q e =
      let (found, after) = get_elem?-drop i all e in
      finish_with-and_then (λ (c : Ctx). c.ns ≡ ns)
        (completed (λ m c offset. exec_instr_set_with_attrs eq data_ hash_name vm r m c offset)) _
        (λ n. record { instr_set_idx = i; offset = n })
        (exec_sets eq data_ hash_name vm (matcher ns) rs)
        (try_sets eq data_ hash_name vm rs (i + 1))
        (try_exec_instr_set_without_attrs eq data_ hash_name vm r ctx)
        (λ c b q'. finish_with-found all r rs i c b q' found after)
        (λ c q'. finish_with-sets all rs (i + 1) c q' after)
        (try_exec_instr_set-ns eq data_ hash_name vm ns r ctx q)
      ∙ ap (λ t. t >>= exec_sets eq data_ hash_name vm (matcher ns) rs) (finish_with-set r ctx q)

  -- What `exec_hereditary_jumps_with_attrs` does from a pointer on.
  finish_with-ancestor :
      (ancestor : StackItem D) (items : List (StackItem D)) (i : ℕ) (c : Ctx) (b : Bailout JumpPtr)
      → c.ns ≡ ns
      → drop i vm.stack.items ≡ ancestor ∷ items
      → completed {T = HereditaryJumpPtr}
          (λ m c p. exec_hereditary_jumps_with_attrs eq data_ hash_name vm m c p)
          c
          (record {
            at_addr = b.at_addr;
            recovery_point = record {
              stack_offset = i;
              instr_set_idx = b.recovery_point.instr_set_idx;
              offset = b.recovery_point.offset;
            };
          })
        ≡ (completed {T = JumpPtr}
              (λ m c p.
                exec_sets_from eq data_ hash_name vm m ancestor.hereditary_jumps p.instr_set_idx
                  p.offset c)
              c
              b
            >>= λ c'.
                if ancestor.has_ancestor_with_hereditary_jumps
                then exec_ancestors eq data_ hash_name vm (matcher ns) items c'
                else ok c')
  unfolding exec_hereditary_jumps_with_attrs exec_pointed
  finish_with-ancestor ancestor items i c b q e =
      bind_congr
        (complete_instr_execution_with_attrs eq data_ hash_name vm b.at_addr (matcher c.ns) c) _ _
        (λ c'.
          exec_hereditary_in-pointed eq data_ hash_name vm (matcher c.ns) c' vm.stack.items ancestor
            items _ e)
      ∙ sym (
          bind_assoc
            (complete_instr_execution_with_attrs eq data_ hash_name vm b.at_addr (matcher c.ns) c) _
            _)
      ∙ ap
          (λ n.
            completed {T = JumpPtr}
              (λ m c p.
                exec_sets_from eq data_ hash_name vm m ancestor.hereditary_jumps p.instr_set_idx
                  p.offset c)
              c b
            >>= λ c'.
                if ancestor.has_ancestor_with_hereditary_jumps
                then exec_ancestors eq data_ hash_name vm (matcher n) items c'
                else ok c')
          q

  pub finish_with-ancestors :
      (items : List (StackItem D)) (i : ℕ) (ctx : Ctx)
      → ctx.ns ≡ ns
      → drop i vm.stack.items ≡ items
      → finish_with
          (completed {T = HereditaryJumpPtr}
            (λ m c p. exec_hereditary_jumps_with_attrs eq data_ hash_name vm m c p))
          (try_ancestors eq data_ hash_name vm items i ctx)
        ≡ exec_ancestors eq data_ hash_name vm (matcher ns) items ctx
  unfolding try_ancestors exec_ancestors ◌>>=◌
  finish_with-ancestors [] i ctx q e = refl
  finish_with-ancestors (ancestor ∷ items) i ctx q e =
      let (_, after) = get_elem?-drop i vm.stack.items e in
      finish_with-and_then (λ (c : Ctx). c.ns ≡ ns)
        (completed {T = JumpPtr} (λ m c p.
          exec_sets_from eq data_ hash_name vm m ancestor.hereditary_jumps p.instr_set_idx p.offset
            c))
        _
        (λ (p : JumpPtr). record {
          stack_offset = i;
          instr_set_idx = p.instr_set_idx;
          offset = p.offset;
        })
        _ _ (try_sets eq data_ hash_name vm ancestor.hereditary_jumps 0 ctx)
        (λ c b q'. finish_with-ancestor ancestor items i c b q' e)
        (λ c q'.
          finish_with-if _ ancestor.has_ancestor_with_hereditary_jumps _ _
            (finish_with-ancestors items (i + 1) c q' after) refl)
        (try_sets-ns eq data_ hash_name vm ns ancestor.hereditary_jumps 0 ctx q)
      ∙ ap
          (λ t. t >>= λ c'.
            if ancestor.has_ancestor_with_hereditary_jumps
            then exec_ancestors eq data_ hash_name vm (matcher ns) items c'
            else ok c')
          (finish_with-sets ancestor.hereditary_jumps ancestor.hereditary_jumps 0 ctx q refl)
