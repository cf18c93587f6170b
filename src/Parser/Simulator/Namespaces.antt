-- ===== src/Parser/Simulator/Namespaces.antt =====
-- The namespace stack of the simulator: it never runs empty, its top is the current namespace, and
-- the HTML namespace stays at its bottom.
use lol_html.Base.Outcome.{ok, err, Safely, Safely-bind, Safely-if, Safely-err, Outcome-cases}
use lol_html.Html.LocalName.{LocalNameHash}
use lol_html.Html.TextType.{Namespace, html, svg_ns, math_ml, ns_eq}
use lol_html.Parser.Simulator.Guard.{
  State, AmbiguityError, track_start_tag, track_end_tag, track-ne-panic,
}
use lol_html.Parser.Simulator.{
  TreeBuilderSimulator, new_simulator, TreeBuilderFeedback, request_lexeme, leave_on_annotation_xml,
  leave_on_font_attribute, enter_ns, leave_ns, leave_to, exit_to, check_exit,
  check_integration_point_exit, get_feedback_for_start_tag_in_foreign_content, start_tag_feedback,
  get_feedback_for_start_tag, end_tag_feedback, get_feedback_for_end_tag, get_text_type_adjustment,
}
use lol_html.Prelude.{Bool, true, false, not, List, [], ◌∷◌, ◌≡◌, refl, arith, inl, inr, if-holds}

-- The last namespace of the stack is the HTML one.
abbrev pub HasHtmlBottom : List Namespace → Type 0
HasHtmlBottom [] = ⊥
HasHtmlBottom (ns ∷ []) = ns ≡ html
HasHtmlBottom (_ ∷ ns ∷ rest) = HasHtmlBottom (ns ∷ rest)

pub record IsWellFormed (s : TreeBuilderSimulator) : Type 0 where
  pub below : List Namespace
  pub stack_is : s.ns_stack ≡ s.current_ns ∷ below
  pub bottom : HasHtmlBottom (s.current_ns ∷ below)

-- There is a namespace under the current one.
pub record IsNested (s : TreeBuilderSimulator) : Type 0 where
  pub prev : Namespace
  pub rest : List Namespace
  pub stack_is : s.ns_stack ≡ s.current_ns ∷ prev ∷ rest
  pub bottom : HasHtmlBottom (prev ∷ rest)

-- What a requested lexeme's callback needs of the state it is called on.
abbrev pub IsReady : TreeBuilderSimulator → TreeBuilderFeedback → Type 0
IsReady s (request_lexeme leave_on_annotation_xml) = IsNested s
IsReady s (request_lexeme leave_on_font_attribute) = IsNested s
IsReady s _ = Unit {0}

abbrev pub IsGood : TreeBuilderSimulator × TreeBuilderFeedback → Type 0
IsGood (s, feedback) = IsWellFormed s × IsReady s feedback

-- Only the guard's errors come out of a tag.
abbrev pub IsGuarded : Bool → AmbiguityError → Type 0
IsGuarded strict e = strict ≡ true

nested-WellFormed : (s : TreeBuilderSimulator) → IsNested s → IsWellFormed s
nested-WellFormed s n = record { below = n.prev ∷ n.rest; stack_is = n.stack_is; bottom = n.bottom }

-- Outside HTML something lies under the top.
foreign-split :
    (ns : Namespace) (below : List Namespace)
    → ns_eq ns html ≡ false
    → HasHtmlBottom (ns ∷ below)
    → (prev : Namespace) × (rest : List Namespace) × (below ≡ prev ∷ rest)
      × HasHtmlBottom (prev ∷ rest)
foreign-split html [] f b = absurd cc
foreign-split svg_ns [] f b = absurd cc
foreign-split math_ml [] f b = absurd cc
foreign-split ns (prev ∷ rest) f b = (prev, rest, refl, b)

pub foreign-Nested :
    (s : TreeBuilderSimulator) → IsWellFormed s → ns_eq s.current_ns html ≡ false → IsNested s
foreign-Nested s w f =
    let (prev, rest, e, b) = foreign-split s.current_ns w.below f w.bottom in
    record { prev = prev; rest = rest; stack_is = rw (w.stack_is, e); bottom = b }

not-true : (b : Bool) → not b ≡ true → b ≡ false
not-true true e = cc
not-true false e = refl

deep-Nested :
    (s : TreeBuilderSimulator) (below : List Namespace) (top prev : Namespace)
    (rest : List Namespace)
    → s.ns_stack ≡ s.current_ns ∷ below
    → HasHtmlBottom (s.current_ns ∷ below)
    → s.ns_stack ≡ top ∷ prev ∷ rest
    → IsNested s
deep-Nested s [] top prev rest e b f = absurd cc
deep-Nested s (p ∷ r) top prev rest e b f = record { prev = p; rest = r; stack_is = e; bottom = b }

text_type-Ready :
    (s : TreeBuilderSimulator) (tag_name : LocalNameHash)
    → IsReady s (get_text_type_adjustment tag_name)
unfolding get_text_type_adjustment
text_type-Ready s tag_name = ground arith

module _ (Q : AmbiguityError → Type 0) where
  pub enter_ns-Good :
      (ns : Namespace) (s : TreeBuilderSimulator) → IsWellFormed s → Safely IsGood Q (enter_ns ns s)
  unfolding enter_ns
  enter_ns-Good ns s w =
      (record { below = s.ns_stack; stack_is = refl; bottom = rw w.stack_is w.bottom }, tt)

  pub leave_ns-Good : (s : TreeBuilderSimulator) → IsNested s → Safely IsGood Q (leave_ns s)
  unfolding leave_ns leave_to
  leave_ns-Good s n =
      rw n.stack_is (record { below = n.rest; stack_is = refl; bottom = n.bottom }, tt)

  ok-Good :
      (s : TreeBuilderSimulator) (f : TreeBuilderFeedback)
      → IsWellFormed s
      → IsReady s f
      → Safely IsGood Q (ok (s, f))
  ok-Good s f w r = (w, r)

  exit_to-Good :
      (prev_ns : Namespace) (s : TreeBuilderSimulator) (tag_name : LocalNameHash)
      → IsNested s
      → Safely IsGood Q (exit_to prev_ns s tag_name)
  unfolding exit_to
  exit_to-Good prev_ns s tag_name n =
      let w = nested-WellFormed s n in search (Safely-if, leave_ns-Good, ok-Good)

  stack-exit-Good :
      (stack : List Namespace) (s : TreeBuilderSimulator) (tag_name : LocalNameHash)
      → s.ns_stack ≡ stack
      → IsWellFormed s
      → Safely IsGood Q (check_exit stack s tag_name)
  unfolding check_exit
  stack-exit-Good [] s tag_name e w = (w, tt)
  stack-exit-Good (_ ∷ []) s tag_name e w = (w, tt)
  stack-exit-Good (top ∷ prev ∷ rest) s tag_name e w =
      exit_to-Good prev s tag_name (deep-Nested s w.below top prev rest w.stack_is w.bottom e)

  check_exit-Good :
      (s : TreeBuilderSimulator) (tag_name : LocalNameHash)
      → IsWellFormed s
      → Safely IsGood Q (check_integration_point_exit s tag_name)
  unfolding check_integration_point_exit
  check_exit-Good s tag_name w = stack-exit-Good s.ns_stack s tag_name refl w

  in_foreign-Good :
      (s : TreeBuilderSimulator) (tag_name : LocalNameHash)
      → IsWellFormed s
      → IsNested s
      → Safely IsGood Q (get_feedback_for_start_tag_in_foreign_content s tag_name)
  unfolding get_feedback_for_start_tag_in_foreign_content
  in_foreign-Good s tag_name w n = search (Safely-if, leave_ns-Good, ok-Good) depth 9

  start-Good :
      (s : TreeBuilderSimulator) (tag_name : LocalNameHash)
      → IsWellFormed s
      → Safely IsGood Q (start_tag_feedback s tag_name)
  unfolding start_tag_feedback
  start-Good s tag_name w =
      search
        (
          Safely-if, enter_ns-Good, in_foreign-Good, foreign-Nested, not-true, ok-Good,
          text_type-Ready,
        )
        depth 9

  end-Good :
      (s : TreeBuilderSimulator) (tag_name : LocalNameHash)
      → IsWellFormed s
      → Safely IsGood Q (end_tag_feedback s tag_name)
  unfolding end_tag_feedback
  end-Good s tag_name w =
      search (Safely-if, check_exit-Good, leave_ns-Good, foreign-Nested, ok-Good)

track-Safe :
    (g : State) (tag_name : LocalNameHash)
    → Safely (λ _. Unit {0}) (λ e. track_start_tag g tag_name ≡ err e) (track_start_tag g tag_name)
track-Safe g tag_name = elim (Outcome-cases (track_start_tag g tag_name)) [
  | inl c ↦ let (a, e) = c in rw e tt
  | inr c ↦ elim c [
    | inl c' ↦ let (x, e) = c' in rw e refl
    | inr e ↦ absurd (track-ne-panic g tag_name e)
  ]
]

-- From a stack whose top is the current namespace and whose bottom is the HTML one, a start tag
-- does not panic. Where it gives a feedback the stack is such a stack again, and a callback that
-- would leave a namespace is asked for only where there is one to go back to. It fails only in
-- strict mode, with the error that the ambiguity guard gives for the tag.
pub start_tag-WellFormed :
    (s : TreeBuilderSimulator) (tag_name : LocalNameHash)
    → IsWellFormed s
    → Safely IsGood
        (λ e. (s.strict ≡ true) × (track_start_tag s.ambiguity_guard tag_name ≡ err e))
        (get_feedback_for_start_tag s tag_name)
unfolding get_feedback_for_start_tag
start_tag-WellFormed s tag_name w =
    let Q : AmbiguityError → Type 0 =
      λ e. (s.strict ≡ true) × (track_start_tag s.ambiguity_guard tag_name ≡ err e) in
    Safely-if IsGood Q s.strict _ _
      (λ strict.
        Safely-bind (λ _. Unit) IsGood Q (track_start_tag s.ambiguity_guard tag_name) _
          (Safely-err (λ _. Unit) (λ e. track_start_tag s.ambiguity_guard tag_name ≡ err e) Q _
            (track-Safe s.ambiguity_guard tag_name) (λ e h. (strict, h)))
          (λ g _.
            start-Good Q (record s { ambiguity_guard = g }) tag_name
              (record { below = w.below; stack_is = w.stack_is; bottom = w.bottom })))
      (λ _. start-Good Q s tag_name w)

-- From such a stack an end tag neither panics nor fails, and it keeps the stack and the promise
-- about the callbacks.
pub end_tag-WellFormed :
    (s : TreeBuilderSimulator) (tag_name : LocalNameHash)
    → IsWellFormed s
    → Safely IsGood (λ _. ⊥) (get_feedback_for_end_tag s tag_name)
unfolding get_feedback_for_end_tag
end_tag-WellFormed s tag_name w =
    end-Good (λ _. ⊥) _ tag_name
      (if-holds IsWellFormed s.strict
        (record s { ambiguity_guard = track_end_tag s.ambiguity_guard tag_name }) s
        (record { below = w.below; stack_is = w.stack_is; bottom = w.bottom }) w)

pub new_simulator-WellFormed : (strict : Bool) → IsWellFormed (new_simulator strict)
unfolding new_simulator
new_simulator-WellFormed strict = record { below = []; stack_is = refl; bottom = refl }
