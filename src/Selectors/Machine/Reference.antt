-- ===== src/Selectors/Machine/Reference.antt =====
-- The reference for a start tag: with the attributes at hand, the entry points, the jumps of the
-- parent and the hereditary jumps of every ancestor.
use lol_html.Base.Outcome.{Outcome, ok, err, panic, ◌>>=◌, bind_congr}
use lol_html.Base.Range.{Range}
use lol_html.Html.LocalName.{LocalName}
use lol_html.Html.TextType.{Namespace}
use lol_html.Memory.Limiter.{Limited}
use lol_html.Prelude.{
  ℕ, ◌≡◌, refl, sym, ap, ◌∙◌, Bool, false, List, [], ◌∷◌, ◌||◌, inl, inr, arith, Bool-cases,
}
use lol_html.Selectors.Machine.{
  ElementData, ExecutionCtx, SelectorMatchingVm, MatchInfo, AuxStartTagInfo, new_ctx,
  exec_instr_set_with_attrs, exec_sets, exec_ancestors, parent_jumps,
}
use lol_html.Selectors.Machine.Running.{push_ctx, exec_for_start_tag}
use lol_html.Selectors.Machine.Stages.{
  answered, has_content, exec_flagged, start_tag-flagged, exec_all-stages,
}
use lol_html.Selectors.Program.{AttributeMatcher, new_attribute_matcher}
use lol_html.Selectors.Stack.Flags.{Flagged, any_hereditary, add_child-Flagged}
use lol_html.Selectors.Stack.{StackItem, add_child, get_stack_directive, has_hereditary_jumps}

bind_congr-ok :
    {E A B : Type 0} (m : Outcome E A) (f g : A → Outcome E B)
    → ((a : A) → m ≡ ok a → f a ≡ g a)
    → (m >>= f) ≡ (m >>= g)
unfolding ◌>>=◌
bind_congr-ok (ok a) f g h = h a refl
bind_congr-ok (err e) f g h = refl
bind_congr-ok panic f g h = refl

or-false : (a b : Bool) → (a || b) ≡ false → (a ≡ false) × (b ≡ false)
or-false a b e = ground arith

module _ {P D : Type 0} (eq : P → P → Bool) (data_ : ElementData P D)
    (hash_name : LocalName → ℕ) where
  module _ (vm : SelectorMatchingVm P D) (m : AttributeMatcher) where
    -- The sets of every ancestor, the nearest first.
    unfoldable pub exec_every_ancestor :
        List (StackItem D) → ExecutionCtx P D → Limited (ExecutionCtx P D)
    exec_every_ancestor [] ctx = ok ctx
    exec_every_ancestor (ancestor ∷ items) ctx =
        exec_sets eq data_ hash_name vm m ancestor.hereditary_jumps ctx
        >>= exec_every_ancestor items

    no_sets :
        (rs : List Range) (ctx : ExecutionCtx P D)
        → has_hereditary_jumps rs ≡ false
        → exec_sets eq data_ hash_name vm m rs ctx ≡ ok ctx
    unfolding exec_sets
    no_sets [] ctx e = refl
    no_sets (r ∷ rs) ctx e = absurd cc

    no_hereditary :
        (items : List (StackItem D)) (ctx : ExecutionCtx P D)
        → any_hereditary items ≡ false
        → exec_every_ancestor items ctx ≡ ok ctx
    unfolding any_hereditary exec_every_ancestor ◌>>=◌
    no_hereditary [] ctx e = refl
    no_hereditary (ancestor ∷ items) ctx e =
        let (a, b) = or-false _ _ e in
        ap (λ t. t >>= exec_every_ancestor items) (no_sets ancestor.hereditary_jumps ctx a)
        ∙ no_hereditary items ctx b

    exec_ancestors-every :
        (items : List (StackItem D)) (ctx : ExecutionCtx P D)
        → Flagged items
        → exec_ancestors eq data_ hash_name vm m items ctx ≡ exec_every_ancestor items ctx
    unfolding exec_ancestors exec_every_ancestor Flagged
    exec_ancestors-every [] ctx h = refl
    exec_ancestors-every (ancestor ∷ items) ctx (e, h) =
        bind_congr (exec_sets eq data_ hash_name vm m ancestor.hereditary_jumps ctx) _ _ (λ c.
          elim (Bool-cases ancestor.has_ancestor_with_hereditary_jumps) [
            | inl t ↦ rw t (exec_ancestors-every items c h)
            | inr f ↦ rw f (sym (no_hereditary items c (sym e ∙ f)))
          ])

  module _ (size : ℕ) where
    unfoldable pub exec_reference :
        LocalName
        → Namespace
        → SelectorMatchingVm P D
        → AuxStartTagInfo
        → Limited (SelectorMatchingVm P D × List (MatchInfo P))
    unfolding exec_every_ancestor
    exec_reference name ns vm aux_info = add_child hash_name name vm.stack >>= λ stack.
        let vm' = record vm { stack = stack } in
        let m = new_attribute_matcher aux_info.input aux_info.attr_buffer ns in
        let ctx = new_ctx eq data_ hash_name name ns in
        let ctx₀ = record ctx {
          with_content = has_content (get_stack_directive ctx.stack_item ns) aux_info.self_closing;
        } in
        exec_instr_set_with_attrs eq data_ hash_name vm' vm'.program.entry_points m ctx₀ 0
        >>= λ ctx₁.
            exec_sets eq data_ hash_name vm' m (parent_jumps eq data_ hash_name vm' stack.items)
              ctx₁
            >>= λ ctx₂.
                exec_every_ancestor vm' m stack.items ctx₂ >>= push_ctx eq data_ hash_name size vm'

    -- Where the flags of the stack are right, the match of a start tag that is first tried without
    -- the attributes, and resumed with them where an instruction or an element outside of HTML needs
    -- them, is the match that has the attributes at hand and takes no short cut: the entry points,
    -- the jumps of the parent and the hereditary jumps of every ancestor. Both leave the same machine
    -- or the same error or panic, with the same calls of the match handler in the same order.
    pub exec_for_start_tag-exec_reference :
        (name : LocalName) (ns : Namespace) (vm : SelectorMatchingVm P D)
        (aux_info : AuxStartTagInfo)
        → Flagged vm.stack.items
        → answered aux_info (exec_for_start_tag eq data_ hash_name size name ns vm)
          ≡ exec_reference name ns vm aux_info
    unfolding exec_reference exec_flagged
    exec_for_start_tag-exec_reference name ns vm aux_info h =
        start_tag-flagged eq data_ hash_name size name ns vm aux_info
        ∙ bind_congr-ok (add_child hash_name name vm.stack) _ _ (λ stack e.
          let vm' : SelectorMatchingVm P D = record vm { stack = stack } in
          let m = new_attribute_matcher aux_info.input aux_info.attr_buffer ns in
          exec_all-stages eq data_ hash_name size vm' aux_info ns _
          ∙ bind_congr
              (exec_instr_set_with_attrs eq data_ hash_name vm' vm'.program.entry_points m _ 0) _ _
              (λ c₁.
                bind_congr
                  (exec_sets eq data_ hash_name vm' m
                    (parent_jumps eq data_ hash_name vm' stack.items) c₁)
                  _ _
                  (λ c₂.
                    ap (λ t. t >>= push_ctx eq data_ hash_name size vm')
                      (exec_ancestors-every vm' m stack.items c₂
                        (add_child-Flagged hash_name name vm.stack e h)))))
