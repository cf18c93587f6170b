-- ===== src/Selectors/Stack/Ends.antt =====
-- What a start tag and an end tag do to the stack, as the machine uses it.
use lol_html.Base.Outcome.{ok}
use lol_html.Html.LocalName.{LocalName, name_eq}
use lol_html.Prelude.{
  ℕ, zero, suc, ◌+◌, ◌*◌, ◌≤◌, ◌<◌, ◌^◌, ◌≡◌, refl, ap, ◌∙◌, inl, inr, true, false, List, [], ◌∷◌,
  map, Option, none, some, length, take, drop, get_elem?, ◌==◌, arith, Bool-cases, get_elem?-lt,
}
use mathlib.Core.List.{reverse}
use native.Mathlib.Nat.{mul-le-mul_left}
use lol_html.Selectors.Stack.Tracking.{
  Frames, Tracks, count_named, add_child-Tracks, build_state-Tracks, pop_above-Tracks,
  expected_typed,
}
use lol_html.Selectors.Stack.Typed.{keep, same_key_refl}
use lol_html.Selectors.Stack.{
  ChildCounter, CounterList, TypedChildCounterMap, DrainFilter, Stack, StackItem, add_child,
  build_state, find_last, pop_above, pop_up_to,
}

abbrev pub count_of : Option ℕ → ℕ
count_of none = 0
count_of (some above) = suc above

abbrev pub enabled : Option TypedChildCounterMap → ℕ → Option ChildCounter
enabled none n = none
enabled (some _) n = some (record { cumulative = n })

scale : (k : ℕ) {m n : ℕ} → m ≤ n → k * m ≤ k * n
scale k le = mul-le-mul_left k le

counts-one :
    (hash_name : LocalName → ℕ) (name : LocalName) (f : List LocalName)
    (counters : Option TypedChildCounterMap)
    → expected_typed hash_name counters (count_named hash_name name (name ∷ f))
      ≡ enabled counters (suc (count_named hash_name name f))
unfolding count_named
counts-one hash_name name f none = refl
counts-one hash_name name f (some m) =
    let found = same_key_refl hash_name name in
    let positive : (suc (count_named hash_name name f) == 0) ≡ false = ground arith in
    rw (found, positive) refl

module _ {D : Type 0} where
  -- How many items an end tag pops: those down to the nearest one with its name, or none.
  abbrev pub Popped : LocalName → List (StackItem D) → ℕ → Type 0
  Popped name items zero =
      (i : ℕ) (item : StackItem D)
      → get_elem? items i ≡ some item
      → name_eq item.local_name name ≡ false
  Popped name items (suc above) =
      ((item : StackItem D) × (get_elem? items above ≡ some item)
        × (name_eq item.local_name name ≡ true))
      × ((i : ℕ) (item : StackItem D)
          → i < above
          → get_elem? items i ≡ some item
          → name_eq item.local_name name ≡ false)

  abbrev Popped-cons : LocalName → StackItem D → List (StackItem D) → Option ℕ → Type 0
  Popped-cons name item items found =
      Popped name (item ∷ items) (count_of (elim found [ none ↦ none | some n ↦ some (suc n) ]))

  find_last-absent :
      (name : LocalName) (item : StackItem D) (items : List (StackItem D))
      → name_eq item.local_name name ≡ false
      → Popped name items 0
      → Popped name (item ∷ items) 0
  find_last-absent name item items f absent zero x e = let same : item ≡ x = cc in rw (← same) f
  find_last-absent name item items f absent (suc i) x e = absent i x e

  find_last-apart :
      (name : LocalName) (item : StackItem D) (items : List (StackItem D)) (n : ℕ)
      → name_eq item.local_name name ≡ false
      → ((i : ℕ) (x : StackItem D)
          → i < n
          → get_elem? items i ≡ some x
          → name_eq x.local_name name ≡ false)
      → (i : ℕ) (x : StackItem D) → i < suc n
      → get_elem? (item ∷ items) i ≡ some x
      → name_eq x.local_name name ≡ false
  find_last-apart name item items n f above zero x lt e = let same : item ≡ x = cc in rw (← same) f
  find_last-apart name item items n f above (suc i) x lt e = above i x (omega arith) e

  find_last-cons :
      (name : LocalName) (item : StackItem D) (items : List (StackItem D)) (found : Option ℕ)
      → name_eq item.local_name name ≡ false
      → Popped name items (count_of found)
      → Popped-cons name item items found
  find_last-cons name item items none f none_named = find_last-absent name item items f none_named
  find_last-cons name item items (some n) f (here, above) =
      (here, find_last-apart name item items n f above)

  find_last-Popped :
      (name : LocalName) (items : List (StackItem D))
      → Popped name items (count_of (find_last name items))
  unfolding find_last
  find_last-Popped name [] = λ i item e. absurd cc
  find_last-Popped name (item ∷ items) = elim (Bool-cases (name_eq item.local_name name)) [
    | inl t ↦ rw t ((item, refl, t), λ i x lt e. absurd (omega arith))
    | inr f ↦
        rw f (find_last-cons name item items (find_last name items) f (find_last-Popped name items))
  ]

  Popped-le :
      (name : LocalName) (items : List (StackItem D)) (n : ℕ)
      → Popped name items n
      → n ≤ length items
  Popped-le name items zero p = omega arith
  Popped-le name items (suc above) ((item, here, _), _) =
      omega (arith, get_elem?-lt items above here)

  module _ (hash_name : LocalName → ℕ) (drain_filter : DrainFilter)
      (drain_nil : (f : CounterList → Option CounterList) → drain_filter f [] ≡ [])
      (drain_cons : (f : CounterList → Option CounterList) (key : LocalName) (l : CounterList)
          (m : TypedChildCounterMap)
        → drain_filter f ((key, l) ∷ m) ≡ keep key (f l) (drain_filter f m)) where
    pop_found-Tracks :
        (size : ℕ) (name : LocalName) (stack : Stack D) (frames : Frames) (found : Option ℕ)
        → Popped name stack.items (count_of found)
        → Tracks hash_name stack frames
        → size * count_of found ≤ stack.memory_limiter.current_usage
        → (stack' : Stack D) × (popped : List D) × (n : ℕ) × (pop_above drain_filter size found
              stack
            ≡ ok (stack', popped))
          × Popped name stack.items n
          × (stack'.items ≡ drop n stack.items)
          × (popped ≡ reverse (map (λ (i : StackItem D). i.element_data) (take n stack.items)))
          × Tracks hash_name stack' (drop n frames)
    unfolding pop_above
    pop_found-Tracks size name stack frames none p t enough = (stack, [], 0, refl, p, refl, refl, t)
    pop_found-Tracks size name stack frames (some above) p t enough =
        let ((item, here, _), _) = p in
        let next : above + 1 ≡ suc above = omega arith in
        let (stack', popped, e, t', items, datas) =
          pop_above-Tracks hash_name drain_filter drain_nil drain_cons size above stack frames t
            (get_elem?-lt stack.items above here)
            (omega (arith, ap (λ (n : ℕ). size * n) next, enough)) in
        (stack', popped, suc above, e, p, rw (← next) items, rw (← next) datas, rw (← next) t')

    -- On a stack that tracks the children seen, whose items' memory is charged for, an end tag pops
    -- the items down to the nearest one with its name, and none where no item has it: the data of
    -- those items are handed on, the one nearest to the document first; what is left is the stack
    -- below them, and its counters count the children that its elements were seen to have, by level
    -- and by key, which is equal names with the same hash. `drain_filter` is to keep, change or drop each entry of the map as it is told to.
    pub pop_up_to-Tracks :
        (size : ℕ) (name : LocalName) (stack : Stack D) (frames : Frames)
        → Tracks hash_name stack frames
        → size * length stack.items ≤ stack.memory_limiter.current_usage
        → (stack' : Stack D) × (popped : List D) × (n : ℕ) × (pop_up_to drain_filter size name stack
            ≡ ok (stack', popped))
          × Popped name stack.items n
          × (stack'.items ≡ drop n stack.items)
          × (popped ≡ reverse (map (λ (i : StackItem D). i.element_data) (take n stack.items)))
          × Tracks hash_name stack' (drop n frames)
    unfolding pop_up_to
    pop_up_to-Tracks size name stack frames t enough =
        let p = find_last-Popped name stack.items in
        pop_found-Tracks size name stack frames (find_last name stack.items) p t
          (omega (arith, scale size (Popped-le name stack.items _ p), enough))

  -- A start tag is added, without a panic, to a stack that tracks the children seen, where the current
  -- element has fewer than 2^31 - 1 of them. Then the machine's state counts it: the children of the
  -- current element with it, and with it those of its key, whose names equal its name and have the same
  -- hash. Where types are counted the counter of the type is there.
  pub add_child-build_state :
      (hash_name : LocalName → ℕ) (name : LocalName) (stack : Stack D) (f : List LocalName)
      (fs : Frames)
      → Tracks hash_name stack (f ∷ fs)
      → length f + 1 < 2 ^ 31
      → (stack' : Stack D) × (add_child hash_name name stack ≡ ok stack')
        × Tracks hash_name stack' ((name ∷ f) ∷ fs)
        × ((build_state hash_name name stack').cumulative.cumulative ≡ suc (length f))
        × ((build_state hash_name name stack').typed
            ≡ enabled stack'.typed_child_counters (suc (count_named hash_name name f)))
  add_child-build_state hash_name name stack f fs t fits =
      let (stack', e, t') = add_child-Tracks hash_name name stack f fs t fits in
      let (whole, typed) = build_state-Tracks hash_name name stack' (name ∷ f) fs t' in
      (stack', e, t', whole, typed ∙ counts-one hash_name name f stack'.typed_child_counters)
