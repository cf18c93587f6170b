-- ===== src/Selectors/Machine/Stages.antt =====
-- A start tag that is resumed with the attributes, and one that has them at hand.
use lol_html.Base.Outcome.{ok, err, panic, Ensures-any, ◌>>=◌, bind_assoc, bind_congr, Ensures}
use lol_html.Html.LocalName.{LocalName}
use lol_html.Html.TextType.{Namespace}
use lol_html.Memory.Limiter.{Limited}
use lol_html.Prelude.{ℕ, ◌≡◌, refl, sym, ap, ◌∙◌, Bool, true, false, not, List}
use lol_html.Selectors.Machine.{
  ElementData, ExecutionCtx, SelectorMatchingVm, MatchInfo, StartTagResult, finished, info_request,
  Tried, done, bailed, Bailout, JumpPtr, complete_instr_execution_with_attrs, AuxStartTagInfo,
  new_ctx, exec_instr_set_with_attrs, exec_sets, exec_ancestors, parent_jumps,
  try_exec_instr_set_without_attrs, try_exec_jumps_without_attrs,
  try_exec_hereditary_jumps_without_attrs, exec_jumps_with_attrs, exec_hereditary_jumps_with_attrs,
}
use lol_html.Selectors.Machine.Answered.{
  completed, finish_with-set, finish_with-sets, finish_with-ancestors, exec_jumps-first,
  exec_hereditary-first,
}
use lol_html.Selectors.Machine.Resuming.{finish_with, ctx_of, try_exec_instr_set-ns, try_sets-ns}
use lol_html.Selectors.Machine.Running.{
  push_ctx, resume, bailout, exec_without_attrs, exec_after_immediate_aux_info_request,
  exec_for_start_tag, recover_after_bailout_in_entry_points, recover_after_bailout_in_jumps,
  recover_after_bailout_in_hereditary_jumps, first_jump, first_hereditary_jump,
}
use lol_html.Selectors.Program.{AttributeMatcher, new_attribute_matcher}
use lol_html.Selectors.Stack.{
  StackDirective, push_, push_if_not_self_closing, pop_immediately, add_child, get_stack_directive,
}

-- A request is answered with the attributes, for the machine that made it.
unfoldable pub answered :
    {V X A : Type 0} → A → Limited (StartTagResult (V × X) V A) → Limited (V × X)
answered a m = m >>= λ t. elim t [ finished r ↦ ok r | info_request r k ↦ k r.0 a ]

-- A loop that may stop, and what comes after it.
answered-stage :
    {C T V X A : Type 0} (Q : C → Type 0) (a : A) (f : C → Bailout T → Limited C)
    (k : C → Limited (V × X)) (stop : C → Bailout T → StartTagResult (V × X) V A)
    (go : C → Limited (StartTagResult (V × X) V A)) (t : Limited (Tried C T))
    → ((c : C) (b : Bailout T) → Q c → answered a (ok (stop c b)) ≡ (f c b >>= k))
    → ((c : C) → Q c → answered a (go c) ≡ k c)
    → Ensures (λ t. Q (ctx_of t)) t
    → answered a (t >>= λ x. elim x [ done c ↦ go c | bailed c b ↦ ok (stop c b) ])
      ≡ (finish_with f t >>= k)
unfolding ◌>>=◌ answered
answered-stage Q a f k stop go (ok (done c)) p r q = r c q
answered-stage Q a f k stop go (ok (bailed c b)) p r q = p c b q
answered-stage Q a f k stop go (err e) p r q = refl
answered-stage Q a f k stop go panic p r q = refl

answered-bind :
    {C V X A : Type 0} (a : A) (m : Limited C) (f : C → Limited (StartTagResult (V × X) V A))
    → answered a (m >>= f) ≡ (m >>= λ c. answered a (f c))
unfolding answered
answered-bind a m f = bind_assoc m f _

answered-finished :
    {V X A : Type 0} (a : A) (m : Limited (V × X)) → answered a (m >>= λ r. ok (finished r)) ≡ m
unfolding ◌>>=◌ answered
answered-finished a (ok r) = refl
answered-finished a (err e) = refl
answered-finished a panic = refl

-- Whether an element has content, by its directive and the slash of its tag.
abbrev pub has_content : StackDirective → Bool → Bool
has_content push_ self_closing = true
has_content push_if_not_self_closing self_closing = not self_closing
has_content pop_immediately self_closing = false

module _ {P D : Type 0} (eq : P → P → Bool) (data_ : ElementData P D) (hash_name : LocalName → ℕ)
    (size : ℕ) where
  abbrev pub Vm : Type 0
  Vm = SelectorMatchingVm P D

  abbrev pub Ctx : Type 0
  Ctx = ExecutionCtx P D

  abbrev pub Matched : Type 0
  Matched = Vm × List (MatchInfo P)

  -- The entry points, the jumps of the parent, and the hereditary jumps of the ancestors.
  unfoldable pub exec_all : Vm → AttributeMatcher → Ctx → Limited Ctx
  exec_all vm m ctx =
      exec_instr_set_with_attrs eq data_ hash_name vm vm.program.entry_points m ctx 0 >>= λ ctx₁.
      exec_sets eq data_ hash_name vm m (parent_jumps eq data_ hash_name vm vm.stack.items) ctx₁
      >>= λ ctx₂. exec_ancestors eq data_ hash_name vm m vm.stack.items ctx₂

  unfoldable pub exec_flagged : LocalName → Namespace → Vm → AuxStartTagInfo → Limited Matched
  unfolding exec_all
  exec_flagged name ns vm aux_info = add_child hash_name name vm.stack >>= λ stack.
      let vm' = record vm { stack = stack } in
      let ctx = new_ctx eq data_ hash_name name ns in
      let ctx' = record ctx {
        with_content = has_content (get_stack_directive ctx.stack_item ns) aux_info.self_closing;
      } in
      exec_all vm' (new_attribute_matcher aux_info.input aux_info.attr_buffer ns) ctx'
      >>= push_ctx eq data_ hash_name size vm'

  module _ (vm : Vm) (aux_info : AuxStartTagInfo) (ns : Namespace) where
    abbrev pub matcher : Namespace → AttributeMatcher
    matcher = new_attribute_matcher aux_info.input aux_info.attr_buffer

    abbrev pub then_push : Ctx → Limited Matched
    then_push = push_ctx eq data_ hash_name size vm

    abbrev pub then_ancestors : Namespace → Ctx → Limited Matched
    then_ancestors n c =
        exec_ancestors eq data_ hash_name vm (matcher n) vm.stack.items c >>= then_push

    abbrev pub then_jumps : Namespace → Ctx → Limited Matched
    then_jumps n c =
        exec_sets eq data_ hash_name vm (matcher n)
          (parent_jumps eq data_ hash_name vm vm.stack.items) c
        >>= then_ancestors n

    abbrev complete : Ctx → ℕ → Limited Ctx
    complete c addr =
        complete_instr_execution_with_attrs eq data_ hash_name vm addr (matcher c.ns) c

    pub exec_all-stages :
        (ctx : Ctx)
        → (exec_all vm (matcher ns) ctx >>= then_push) ≡ (
            exec_instr_set_with_attrs eq data_ hash_name vm vm.program.entry_points
              (matcher ns)
              ctx
              0
            >>= then_jumps ns)
    unfolding exec_all
    exec_all-stages ctx =
        bind_assoc
          (exec_instr_set_with_attrs eq data_ hash_name vm vm.program.entry_points (matcher ns) ctx
            0)
          _ _
        ∙ bind_congr
            (exec_instr_set_with_attrs eq data_ hash_name vm vm.program.entry_points (matcher ns)
              ctx 0)
            _ _
            (λ c.
              bind_assoc
                (exec_sets eq data_ hash_name vm (matcher ns)
                  (parent_jumps eq data_ hash_name vm vm.stack.items) c)
                _ _)

    -- What each recovery does after the set that it goes on with.
    jumps-then :
        (n : Namespace) (c : Ctx)
        → ((exec_jumps_with_attrs eq data_ hash_name vm (matcher n) c first_jump >>= λ c'.
              exec_hereditary_jumps_with_attrs eq data_ hash_name vm
                (matcher n)
                c'
                first_hereditary_jump)
            >>= then_push)
          ≡ then_jumps n c
    jumps-then n c =
        bind_assoc (exec_jumps_with_attrs eq data_ hash_name vm (matcher n) c first_jump) _ _
        ∙ ap
            (λ t. t >>= λ c'.
              exec_hereditary_jumps_with_attrs eq data_ hash_name vm (matcher n) c'
                first_hereditary_jump
              >>= then_push)
            (exec_jumps-first eq data_ hash_name vm (matcher n) c)
        ∙ bind_congr
            (exec_sets eq data_ hash_name vm (matcher n)
              (parent_jumps eq data_ hash_name vm vm.stack.items) c)
            _ _
            (λ c'.
              ap (λ t. t >>= then_push)
                (exec_hereditary-first eq data_ hash_name vm (matcher n) c'))

    answered-bailout :
        {T : Type 0} (c : Ctx) (b : Bailout T)
        (handler : Vm → Ctx → AttributeMatcher → T → Limited Ctx)
        → answered aux_info (ok (bailout eq data_ hash_name size vm c b handler)) ≡ (
            complete c b.at_addr >>= λ c'.
            handler vm c' (matcher c.ns) b.recovery_point >>= then_push)
    unfolding answered bailout resume ◌>>=◌
    answered-bailout c b handler = refl

    stage-hereditary :
        (c : Ctx)
        → c.ns ≡ ns
        → answered aux_info (
            try_exec_hereditary_jumps_without_attrs eq data_ hash_name vm c >>= λ t. elim t [
              | bailed c' b ↦ ok (
                  bailout eq data_ hash_name size vm c' b
                    (recover_after_bailout_in_hereditary_jumps eq data_ hash_name size))
              | done c' ↦ then_push c' >>= λ matched. ok (finished matched)
            ])
          ≡ then_ancestors ns c
    unfolding try_exec_hereditary_jumps_without_attrs recover_after_bailout_in_hereditary_jumps
    stage-hereditary c q =
        answered-stage (λ (_ : Ctx). Unit {0}) aux_info
          (completed eq data_ hash_name vm matcher ns
            (λ m c p. exec_hereditary_jumps_with_attrs eq data_ hash_name vm m c p))
          then_push _ _ (try_exec_hereditary_jumps_without_attrs eq data_ hash_name vm c)
          (λ c' b _.
            answered-bailout c' b
              (recover_after_bailout_in_hereditary_jumps eq data_ hash_name size)
            ∙ sym (bind_assoc (complete c' b.at_addr) _ _))
          (λ c' _. answered-finished aux_info (then_push c')) (Ensures-any _)
        ∙ ap (λ t. t >>= then_push)
            (finish_with-ancestors eq data_ hash_name vm matcher ns vm.stack.items 0 c q refl)

    stage-jumps :
        (c : Ctx)
        → c.ns ≡ ns
        → answered aux_info (
            try_exec_jumps_without_attrs eq data_ hash_name vm c >>= λ t. elim t [
              | bailed c' b ↦ ok (
                  bailout eq data_ hash_name size vm c' b
                    (recover_after_bailout_in_jumps eq data_ hash_name size))
              | done c' ↦ try_exec_hereditary_jumps_without_attrs eq data_ hash_name vm c' >>= λ t'.
                  elim t' [
                    | bailed c'' b ↦ ok (
                        bailout eq data_ hash_name size vm c'' b
                          (recover_after_bailout_in_hereditary_jumps eq data_ hash_name size))
                    | done c'' ↦ then_push c'' >>= λ matched. ok (finished matched)
                  ]
            ])
          ≡ then_jumps ns c
    unfolding try_exec_jumps_without_attrs recover_after_bailout_in_jumps exec_jumps_with_attrs
    stage-jumps c q =
        answered-stage (λ (c : Ctx). c.ns ≡ ns) aux_info
          (completed eq data_ hash_name vm matcher ns {T = JumpPtr}
            (λ m c p. exec_jumps_with_attrs eq data_ hash_name vm m c p))
          (then_ancestors ns) _ _ (try_exec_jumps_without_attrs eq data_ hash_name vm c)
          (λ c' b q'.
            answered-bailout c' b (recover_after_bailout_in_jumps eq data_ hash_name size)
            ∙ bind_congr (complete c' b.at_addr) _ _ (λ c''.
              bind_assoc
                (exec_jumps_with_attrs eq data_ hash_name vm (matcher c'.ns) c'' b.recovery_point) _
                _
              ∙ bind_congr
                  (exec_jumps_with_attrs eq data_ hash_name vm (matcher c'.ns) c'' b.recovery_point)
                  _ _
                  (λ x.
                    ap (λ t. t >>= then_push)
                      (exec_hereditary-first eq data_ hash_name vm (matcher c'.ns) x)))
            ∙ sym (bind_assoc (complete c' b.at_addr) _ _)
            ∙ ap
                (λ n.
                  completed eq data_ hash_name vm matcher ns {T = JumpPtr}
                    (λ m c p. exec_jumps_with_attrs eq data_ hash_name vm m c p) c' b
                  >>= then_ancestors n)
                q')
          stage-hereditary
          (try_sets-ns eq data_ hash_name vm ns (parent_jumps eq data_ hash_name vm vm.stack.items)
            0 c q)
        ∙ ap (λ t. t >>= then_ancestors ns)
            (finish_with-sets eq data_ hash_name vm matcher ns _ _ 0 c q refl)

    exec_without_attrs-answered :
        (c : Ctx)
        → c.ns ≡ ns
        → answered aux_info (exec_without_attrs eq data_ hash_name size vm c)
          ≡ (exec_all vm (matcher ns) c >>= then_push)
    unfolding exec_without_attrs recover_after_bailout_in_entry_points
    exec_without_attrs-answered c q =
        answered-stage (λ (c : Ctx). c.ns ≡ ns) aux_info
          (completed eq data_ hash_name vm matcher ns {T = ℕ} (λ m c offset.
            exec_instr_set_with_attrs eq data_ hash_name vm vm.program.entry_points m c offset))
          (then_jumps ns) _ _
          (try_exec_instr_set_without_attrs eq data_ hash_name vm vm.program.entry_points c)
          (λ c' b q'.
            answered-bailout c' b (recover_after_bailout_in_entry_points eq data_ hash_name size)
            ∙ bind_congr (complete c' b.at_addr) _ _ (λ c''.
              bind_assoc
                (exec_instr_set_with_attrs eq data_ hash_name vm vm.program.entry_points
                  (matcher c'.ns) c'' b.recovery_point)
                _ _
              ∙ bind_congr
                  (exec_instr_set_with_attrs eq data_ hash_name vm vm.program.entry_points
                    (matcher c'.ns) c'' b.recovery_point)
                  _ _ (jumps-then c'.ns))
            ∙ sym (bind_assoc (complete c' b.at_addr) _ _)
            ∙ ap
                (λ n.
                  completed eq data_ hash_name vm matcher ns {T = ℕ}
                    (λ m c offset.
                      exec_instr_set_with_attrs eq data_ hash_name vm vm.program.entry_points m c
                        offset)
                    c' b
                  >>= then_jumps n)
                q')
          stage-jumps (try_exec_instr_set-ns eq data_ hash_name vm ns vm.program.entry_points c q)
        ∙ ap (λ t. t >>= then_jumps ns)
            (finish_with-set eq data_ hash_name vm matcher ns vm.program.entry_points c q)
        ∙ sym (exec_all-stages c)

    start_tag-directed :
        (name : LocalName) (d : StackDirective)
        → answered aux_info (elim d [
          | pop_immediately ↦
              exec_without_attrs eq data_ hash_name size vm
                (record (new_ctx eq data_ hash_name name ns) { with_content = false })
          | push_if_not_self_closing ↦ ok (
              info_request
                (vm, (new_ctx eq data_ hash_name name ns).matches)
                (exec_after_immediate_aux_info_request eq data_ hash_name size
                  (new_ctx eq data_ hash_name name ns)
                  ns))
          | push_ ↦
              exec_without_attrs eq data_ hash_name size vm (new_ctx eq data_ hash_name name ns)
        ])
          ≡ (exec_all vm (matcher ns) (record (new_ctx eq data_ hash_name name ns) {
            with_content = has_content d aux_info.self_closing;
          })
              >>= then_push)
    unfolding new_ctx answered ◌>>=◌ exec_after_immediate_aux_info_request
    start_tag-directed name pop_immediately = exec_without_attrs-answered _ refl
    start_tag-directed name push_ = exec_without_attrs-answered _ refl
    start_tag-directed name push_if_not_self_closing =
        let ctx : Ctx = record (new_ctx eq data_ hash_name name ns) {
          with_content = not aux_info.self_closing;
        } in
        bind_congr
          (exec_instr_set_with_attrs eq data_ hash_name vm vm.program.entry_points (matcher ns) ctx
            0)
          _ _
          (λ c.
            sym (
              bind_assoc (exec_jumps_with_attrs eq data_ hash_name vm (matcher ns) c first_jump) _
                _)
            ∙ jumps-then ns c)
        ∙ sym (exec_all-stages ctx)

  pub start_tag-flagged :
      (name : LocalName) (ns : Namespace) (vm : Vm) (aux_info : AuxStartTagInfo)
      → answered aux_info (exec_for_start_tag eq data_ hash_name size name ns vm)
        ≡ exec_flagged name ns vm aux_info
  unfolding exec_for_start_tag exec_flagged
  start_tag-flagged name ns vm aux_info =
      answered-bind aux_info (add_child hash_name name vm.stack) _
      ∙ bind_congr (add_child hash_name name vm.stack) _ _ (λ stack.
        start_tag-directed (record vm { stack = stack }) aux_info ns name
          (get_stack_directive (new_ctx eq data_ hash_name name ns).stack_item ns))
