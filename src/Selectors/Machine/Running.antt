-- ===== src/Selectors/Machine/Running.antt =====
-- src/selectors_vm/mod.rs: what the machine does at a start tag and at an end tag.
use lol_html.Base.Outcome.{ok, ◌>>=◌}
use lol_html.Html.LocalName.{LocalName}
use lol_html.Html.TextType.{Namespace}
use lol_html.Memory.Limiter.{Limited, MemoryLimiter}
use lol_html.Prelude.{ℕ, Bool, false, not, List, if◌then◌else◌}
use lol_html.Selectors.Machine.{
  ElementData, ExecutionCtx, SelectorMatchingVm, MatchInfo, StartTagResult, finished, info_request,
  done, bailed, Bailout, JumpPtr, HereditaryJumpPtr, AuxStartTagInfo, new_ctx,
  complete_instr_execution_with_attrs, try_exec_instr_set_without_attrs, exec_instr_set_with_attrs,
  try_exec_jumps_without_attrs, exec_jumps_with_attrs, try_exec_hereditary_jumps_without_attrs,
  exec_hereditary_jumps_with_attrs,
}
use lol_html.Selectors.Program.{AttributeMatcher, new_attribute_matcher, Program}
use lol_html.Selectors.Stack.{
  push_, push_if_not_self_closing, pop_immediately, DrainFilter, new_stack, add_child,
  get_stack_directive, push_item, pop_up_to,
}

abbrev pub first_jump : JumpPtr
first_jump = record { instr_set_idx = 0; offset = 0 }

abbrev pub first_hereditary_jump : HereditaryJumpPtr
first_hereditary_jump = record { stack_offset = 0; instr_set_idx = 0; offset = 0 }

module _ {P D : Type 0} (eq : P → P → Bool) (data_ : ElementData P D) (hash_name : LocalName → ℕ)
    (size : ℕ) where
  abbrev pub Vm : Type 0
  Vm = SelectorMatchingVm P D

  abbrev pub Ctx : Type 0
  Ctx = ExecutionCtx P D

  -- The machine that a start tag leaves, and what the match handler was called with.
  abbrev pub Matched : Type 0
  Matched = Vm × List (MatchInfo P)

  -- `new`, from the program that the compiler makes.
  unfoldable pub new_vm : Program P → MemoryLimiter → Vm
  new_vm program limiter = record {
    program = program;
    stack = new_stack limiter program.enable_nth_of_type;
  }

  -- The end of each way through a start tag.
  unfoldable pub push_ctx : Vm → Ctx → Limited Matched
  push_ctx vm ctx =
      if ctx.with_content
      then (push_item size ctx.stack_item vm.stack >>= λ stack.
          ok (record vm { stack = stack }, ctx.matches))
      else ok (vm, ctx.matches)

  unfoldable pub exec_after_immediate_aux_info_request :
      Ctx → Namespace → Vm → AuxStartTagInfo → Limited Matched
  unfolding push_ctx
  exec_after_immediate_aux_info_request ctx ns vm aux_info =
      let m = new_attribute_matcher aux_info.input aux_info.attr_buffer ns in
      let ctx₀ = record ctx { with_content = not aux_info.self_closing } in
      exec_instr_set_with_attrs eq data_ hash_name vm vm.program.entry_points m ctx₀ 0 >>= λ ctx₁.
      exec_jumps_with_attrs eq data_ hash_name vm m ctx₁ first_jump >>= λ ctx₂.
      exec_hereditary_jumps_with_attrs eq data_ hash_name vm m ctx₂ first_hereditary_jump
      >>= push_ctx vm

  unfoldable pub recover_after_bailout_in_entry_points :
      Vm → Ctx → AttributeMatcher → ℕ → Limited Ctx
  recover_after_bailout_in_entry_points vm ctx m recovery_point =
      exec_instr_set_with_attrs eq data_ hash_name vm vm.program.entry_points m ctx recovery_point
      >>= λ ctx₁. exec_jumps_with_attrs eq data_ hash_name vm m ctx₁ first_jump >>= λ ctx₂.
          exec_hereditary_jumps_with_attrs eq data_ hash_name vm m ctx₂ first_hereditary_jump

  unfoldable pub recover_after_bailout_in_jumps :
      Vm → Ctx → AttributeMatcher → JumpPtr → Limited Ctx
  recover_after_bailout_in_jumps vm ctx m recovery_point =
      exec_jumps_with_attrs eq data_ hash_name vm m ctx recovery_point >>= λ ctx₁.
      exec_hereditary_jumps_with_attrs eq data_ hash_name vm m ctx₁ first_hereditary_jump

  unfoldable pub recover_after_bailout_in_hereditary_jumps :
      Vm → Ctx → AttributeMatcher → HereditaryJumpPtr → Limited Ctx
  recover_after_bailout_in_hereditary_jumps vm ctx m recovery_point =
      exec_hereditary_jumps_with_attrs eq data_ hash_name vm m ctx recovery_point

  -- The closure that `bailout` makes.
  unfoldable pub resume :
      {T : Type 0}
      → Ctx
      → Bailout T
      → (Vm → Ctx → AttributeMatcher → T → Limited Ctx)
      → Vm
      → AuxStartTagInfo
      → Limited Matched
  unfolding push_ctx
  resume ctx b recovery_point_handler vm aux_info =
      let m = new_attribute_matcher aux_info.input aux_info.attr_buffer ctx.ns in
      complete_instr_execution_with_attrs eq data_ hash_name vm b.at_addr m ctx >>= λ ctx₁.
      recovery_point_handler vm ctx₁ m b.recovery_point >>= push_ctx vm

  unfoldable pub bailout :
      {T : Type 0}
      → Vm
      → Ctx
      → Bailout T
      → (Vm → Ctx → AttributeMatcher → T → Limited Ctx)
      → StartTagResult Matched Vm AuxStartTagInfo
  bailout vm ctx b handler = info_request (vm, ctx.matches) (resume ctx b handler)

  unfoldable pub exec_without_attrs : Vm → Ctx → Limited (StartTagResult Matched Vm AuxStartTagInfo)
  unfolding bailout push_ctx
  exec_without_attrs vm ctx =
      try_exec_instr_set_without_attrs eq data_ hash_name vm vm.program.entry_points ctx >>= λ t.
      elim t [
        | bailed ctx₁ b ↦ ok (bailout vm ctx₁ b recover_after_bailout_in_entry_points)
        | done ctx₁ ↦ try_exec_jumps_without_attrs eq data_ hash_name vm ctx₁ >>= λ t₁. elim t₁ [
          | bailed ctx₂ b ↦ ok (bailout vm ctx₂ b recover_after_bailout_in_jumps)
          | done ctx₂ ↦ try_exec_hereditary_jumps_without_attrs eq data_ hash_name vm ctx₂ >>= λ t₂.
              elim t₂ [
                | bailed ctx₃ b ↦ ok (bailout vm ctx₃ b recover_after_bailout_in_hereditary_jumps)
                | done ctx₃ ↦ push_ctx vm ctx₃ >>= λ matched. ok (finished matched)
              ]
        ]
      ]

  unfoldable pub exec_for_start_tag :
      LocalName → Namespace → Vm → Limited (StartTagResult Matched Vm AuxStartTagInfo)
  unfolding exec_without_attrs
  exec_for_start_tag name ns vm = add_child hash_name name vm.stack >>= λ stack.
      let vm' = record vm { stack = stack } in
      let ctx = new_ctx eq data_ hash_name name ns in
      elim (get_stack_directive ctx.stack_item ns) [
        | pop_immediately ↦ exec_without_attrs vm' (record ctx { with_content = false })
        | push_if_not_self_closing ↦
            ok (info_request (vm', ctx.matches) (exec_after_immediate_aux_info_request ctx ns))
        | push_ ↦ exec_without_attrs vm' ctx
      ]

  unfoldable pub exec_for_end_tag : DrainFilter → LocalName → Vm → Limited (Vm × List D)
  exec_for_end_tag drain_filter name vm =
      pop_up_to drain_filter size name vm.stack >>= λ (stack, popped).
      ok (record vm { stack = stack }, popped)
