-- ===== src/Selectors/Stack/Flags.antt =====
-- The flag of an item says whether an item below it has hereditary jumps.
use lol_html.Base.Outcome.{ok, bind-eq-ok, ok-injective}
use lol_html.Html.LocalName.{LocalName}
use lol_html.Prelude.{ℕ, ◌≡◌, refl, Bool, false, ◌||◌, List, [], ◌∷◌, length, arith}
use lol_html.Selectors.Stack.{
  Stack, StackItem, has_hereditary_jumps, inherit, push_item, add_child, inc_current, inc,
  add_to_counters,
}
use lol_html.Memory.Limiter.{increase_usage}

module _ {D : Type 0} where
  -- Whether one of the items has hereditary jumps.
  unfoldable pub any_hereditary : List (StackItem D) → Bool
  any_hereditary [] = false
  any_hereditary (item ∷ items) = has_hereditary_jumps item.hereditary_jumps || any_hereditary items

  unfoldable pub Flagged : List (StackItem D) → Type 0
  unfolding any_hereditary
  Flagged [] = Unit
  Flagged (item ∷ items) =
      (item.has_ancestor_with_hereditary_jumps ≡ any_hereditary items) × Flagged items

  -- An item that comes with the flag down, as new items do, is pushed with the flag that it should
  -- have.
  pub inherit-Flagged :
      (item : StackItem D) (items : List (StackItem D))
      → item.has_ancestor_with_hereditary_jumps ≡ false
      → Flagged items
      → Flagged (inherit item items ∷ items)
  unfolding inherit Flagged any_hereditary
  inherit-Flagged item [] f h = (f, tt)
  inherit-Flagged item (last ∷ items) f (e, h) = (ground (arith, e, f), (e, h))

  -- A push that succeeds, of an item that comes with its flag down as new items do, keeps the flags:
  -- each is up exactly if an item below has a hereditary jump.
  pub push_item-Flagged :
      (size : ℕ) (item : StackItem D) (stack : Stack D) {stack' : Stack D}
      → push_item size item stack ≡ ok stack'
      → item.has_ancestor_with_hereditary_jumps ≡ false
      → Flagged stack.items
      → Flagged stack'.items
  unfolding push_item
  push_item-Flagged size item stack e f h =
      let (_, _, e') = bind-eq-ok (increase_usage size stack.memory_limiter) _ e in
      rw (← ok-injective e') (inherit-Flagged item stack.items f h)

  pub inc_current-Flagged :
      (stack : Stack D) (items : List (StackItem D)) {stack' : Stack D}
      → stack.items ≡ items
      → inc_current stack items ≡ ok stack'
      → Flagged items
      → Flagged stack'.items
  unfolding inc_current
  inc_current-Flagged stack [] i e h =
      let (c, _, e') = bind-eq-ok (inc stack.root_child_counter) _ e in rw (← ok-injective e', i) h
  inc_current-Flagged stack (last ∷ items) i e h =
      let (c, _, e') = bind-eq-ok (inc last.child_counter) _ e in
      rw (← ok-injective e') (unfold Flagged in h)

  pub add_child-Flagged :
      (hash_name : LocalName → ℕ) (name : LocalName) (stack : Stack D) {stack' : Stack D}
      → add_child hash_name name stack ≡ ok stack'
      → Flagged stack.items
      → Flagged stack'.items
  unfolding add_child
  add_child-Flagged hash_name name stack e h =
      let (s, e₁, e₂) = bind-eq-ok (inc_current stack stack.items) _ e in
      let (c, _, e₃) =
        bind-eq-ok (add_to_counters hash_name name (length s.items) s.typed_child_counters) _ e₂ in
      rw (← ok-injective e₃) (inc_current-Flagged stack stack.items refl e₁ h)
