-- ===== src/Selectors/Stack/Tracking.antt =====
-- The stack against the children that each open element has been seen to have.
use lol_html.Base.Checked.{checked_sub-fits}
use lol_html.Base.Outcome.{ok, ◌>>=◌, bind-eq-ok, ok-injective}
use lol_html.Html.LocalName.{LocalName}
use lol_html.Memory.Limiter.{increase_usage, decrease_usage}
use lol_html.Prelude.{
  ℕ, zero, suc, ◌+◌, ◌-◌, ◌*◌, ◌≤◌, ◌<◌, ◌^◌, ◌≡◌, refl, sym, ap, ◌∙◌, true, List, [], ◌∷◌, map,
  Option, none, some, length, length-drop, take, drop, leb, ◌==◌, if◌then◌else◌, arith, Bool-cases,
  inl, inr,
}
use mathlib.Core.List.{reverse}
use lol_html.Selectors.Stack.Typed.{
  typed_count, Keyed, keep, Keyed-le, add_typed_child-typed_count, get_typed-typed_count,
  pop_to-typed_count, find_entry-same, same_key_left,
}
use lol_html.Selectors.Stack.{
  ChildCounter, CounterList, TypedChildCounterMap, DrainFilter, Stack, StackItem, inc, inc_current,
  same_key, find_entry, add_to_counters, add_child, get_in_counters, current_counter, build_state,
  push_item, inherit, pop_counters, pop_above,
}

-- The children seen of every open element and of the document, each time the last first; the current
-- element first.
abbrev pub Frames : Type 0
Frames = List (List LocalName)

module _ (hash_name : LocalName → ℕ) where
  -- How many of the names are of one key.
  unfoldable pub count_named : LocalName → List LocalName → ℕ
  count_named name [] = 0
  count_named name (n ∷ ns) =
      let rest = count_named name ns in if same_key hash_name name n then suc rest else rest

  -- The same at a level, counted from the document.
  unfoldable pub frame_count : LocalName → ℕ → Frames → ℕ
  unfolding count_named
  frame_count name level [] = 0
  frame_count name level (f ∷ fs) =
      if level == length fs then count_named name f else frame_count name level fs

  module _ {D : Type 0} where
    -- Every element's counter counts its children.
    abbrev pub Counted : ChildCounter → List (StackItem D) → Frames → Type 0
    Counted root [] (f ∷ []) = root.cumulative ≡ length f
    Counted root (item ∷ items) (f ∷ fs) =
        (item.child_counter.cumulative ≡ length f) × Counted root items fs
    Counted root _ _ = ⊥

  -- The map, where there is one, counts the children of every name at every level.
  abbrev pub TypedCounted : Option TypedChildCounterMap → Frames → Type 0
  TypedCounted none frames = Unit
  TypedCounted (some m) frames =
      Keyed hash_name (length frames - 1) m
      × ((name : LocalName) (level : ℕ)
          → typed_count hash_name name level m ≡ frame_count name level frames)

  abbrev pub Tracks : {D : Type 0} → Stack D → Frames → Type 0
  Tracks stack frames =
      Counted stack.root_child_counter stack.items frames
      × TypedCounted stack.typed_child_counters frames

  count_named-le : (name : LocalName) (f : List LocalName) → count_named name f ≤ length f
  unfolding count_named
  count_named-le name [] = omega arith
  count_named-le name (n ∷ f) = ground (arith, count_named-le name f)

  count_named-same :
      (a b : LocalName) (f : List LocalName)
      → same_key hash_name a b ≡ true
      → count_named a f ≡ count_named b f
  unfolding count_named
  count_named-same a b [] t = refl
  count_named-same a b (n ∷ f) t = rw (same_key_left hash_name a b n t, count_named-same a b f t)

  frame_count-same :
      (a b : LocalName) (level : ℕ) (fs : Frames)
      → same_key hash_name a b ≡ true
      → frame_count a level fs ≡ frame_count b level fs
  unfolding frame_count
  frame_count-same a b level [] t = refl
  frame_count-same a b level (f ∷ fs) t =
      rw (count_named-same a b f t, frame_count-same a b level fs t)

  frame_count-above :
      (name : LocalName) (level : ℕ) (fs : Frames)
      → length fs ≤ level
      → frame_count name level fs ≡ 0
  unfolding frame_count
  frame_count-above name level [] le = refl
  frame_count-above name level (f ∷ fs) le =
      ground (arith, frame_count-above name level fs (omega arith))

  frame_count-drop :
      (n : ℕ) (name : LocalName) (level : ℕ) (fs : Frames)
      → n < length fs
      → frame_count name level (drop n fs)
        ≡ (if leb level (length fs - 1 - n) then frame_count name level fs else 0)
  unfolding frame_count
  frame_count-drop zero name level fs lt = elim (Bool-cases (leb level (length fs - 1 - 0))) [
    | inl t ↦ rw t refl
    | inr g ↦ rw g (frame_count-above name level fs (ground (arith, g)))
  ]
  frame_count-drop (suc n) name level [] lt = absurd (omega arith)
  frame_count-drop (suc n) name level (f ∷ fs) lt =
      ground (arith, frame_count-drop n name level fs (omega arith))

  typed_count-same :
      (a b : LocalName) (level : ℕ) (m : TypedChildCounterMap)
      → same_key hash_name a b ≡ true
      → typed_count hash_name a level m ≡ typed_count hash_name b level m
  unfolding typed_count
  typed_count-same a b level m t = rw (find_entry-same hash_name a b m t)

  typed_count-unchanged :
      (name : LocalName) (level : ℕ) (m m' : TypedChildCounterMap)
      → find_entry hash_name name m ≡ find_entry hash_name name m'
      → typed_count hash_name name level m ≡ typed_count hash_name name level m'
  unfolding typed_count
  typed_count-unchanged name level m m' e = rw e

  -- The map counts a new child.
  add_to_counters-TypedCounted :
      (name : LocalName) (counters : Option TypedChildCounterMap) (f : List LocalName) (fs : Frames)
      → TypedCounted counters (f ∷ fs)
      → length f + 1 < 2 ^ 31
      → (counters' : Option TypedChildCounterMap) × (add_to_counters hash_name name
            (length fs)
            counters
          ≡ ok counters')
        × TypedCounted counters' ((name ∷ f) ∷ fs)
  unfolding add_to_counters ◌>>=◌ frame_count
  add_to_counters-TypedCounted name none f fs h fits = (none, refl, tt)
  add_to_counters-TypedCounted name (some m) f fs (k, counts) fits =
      let level_of : suc (length fs) - 1 ≡ length fs = omega arith in
      let here = counts name (length fs) in
      let (m', e, k', others, counts') =
        add_typed_child-typed_count hash_name name (length fs) m (rw level_of at k)
          (ground (arith, here, count_named-le name f, fits)) in
      (
        some m',
        rw e refl,
        (
          rw level_of k',
          λ n level. elim (Bool-cases (same_key hash_name n name)) [
            | inl t ↦ ground (
              arith,
              t,
              typed_count-same n name level m' t,
              counts' level,
              counts name level,
              count_named-same n name f t,
              frame_count-same n name level fs t,
            )
            | inr g ↦
                ground (arith, g, typed_count-unchanged n level m' m (others n g), counts n level)
          ],
        ),
      )

  inc-fits :
      (c : ChildCounter)
      → c.cumulative + 1 < 2 ^ 31
      → inc c ≡ ok (record { cumulative = c.cumulative + 1 })
  unfolding inc
  inc-fits c fits = ground arith

  Counted-length :
      {D : Type 0} (root : ChildCounter) (items : List (StackItem D)) (frames : Frames)
      → Counted root items frames
      → length frames ≡ suc (length items)
  Counted-length root [] [] c = elim c [ ]
  Counted-length root [] (f ∷ []) c = refl
  Counted-length root [] (f ∷ g ∷ fs) c = elim c [ ]
  Counted-length root (item ∷ items) [] c = elim c [ ]
  Counted-length root (item ∷ items) (f ∷ fs) (e, c) = ap suc (Counted-length root items fs c)

  add_child-Counted :
      {D : Type 0} (name : LocalName) (stack : Stack D) (items : List (StackItem D))
      (f : List LocalName) (fs : Frames)
      → stack.items ≡ items
      → Counted stack.root_child_counter items (f ∷ fs)
      → length f + 1 < 2 ^ 31
      → (stack' : Stack D) × (inc_current stack items ≡ ok stack')
        × Counted stack'.root_child_counter stack'.items ((name ∷ f) ∷ fs)
        × (stack'.typed_child_counters ≡ stack.typed_child_counters)
        × (length stack'.items ≡ length fs)
  unfolding inc_current ◌>>=◌
  add_child-Counted name stack [] f [] same c fits = (
    record stack {
      root_child_counter = record { cumulative = stack.root_child_counter.cumulative + 1 };
    },
    rw (inc-fits stack.root_child_counter (omega (arith, c))) refl,
    rw same (omega (arith, c)),
    refl,
    rw same refl,
  )
  add_child-Counted name stack [] f (g ∷ fs) same c fits = elim c [ ]
  add_child-Counted name stack (item ∷ items) f fs same c fits =
      let (here, below) = c in
      (
        record stack {
          items =
              record item {
                child_counter = record { cumulative = item.child_counter.cumulative + 1 };
              }
              ∷ items;
        },
        rw (inc-fits item.child_counter (omega (arith, here))) refl,
        (omega (arith, here), below),
        refl,
        sym (Counted-length stack.root_child_counter items fs below),
      )

  add_child-steps :
      {D : Type 0} (name : LocalName) (stack : Stack D) {stack₁ : Stack D}
      {counters : Option TypedChildCounterMap}
      → inc_current stack stack.items ≡ ok stack₁
      → add_to_counters hash_name name (length stack₁.items) stack₁.typed_child_counters
        ≡ ok counters
      → add_child hash_name name stack ≡ ok (record stack₁ { typed_child_counters = counters })
  unfolding add_child ◌>>=◌
  add_child-steps name stack e₁ e₂ = rw (e₁, e₂)

  inherit-child_counter :
      {D : Type 0} (item : StackItem D) (items : List (StackItem D))
      → (inherit item items).child_counter.cumulative ≡ item.child_counter.cumulative
  unfolding inherit
  inherit-child_counter item [] = refl
  inherit-child_counter item (last ∷ items) = ground arith

  TypedCounted-open :
      (counters : Option TypedChildCounterMap) (frames : Frames)
      → 0 < length frames
      → TypedCounted counters frames
      → TypedCounted counters ([] ∷ frames)
  unfolding frame_count count_named
  TypedCounted-open none frames lt t = tt
  TypedCounted-open (some m) frames lt (k, counts) = (
    Keyed-le hash_name (length frames - 1) _ m k (omega arith),
    λ n level. ground (arith, counts n level, frame_count-above n level frames),
  )

  -- A child that is added is counted: as one more child of the current element, and of its name,
  -- where the current element has fewer than 2 ^ 31 - 2 children before.
  pub add_child-Tracks :
      {D : Type 0} (name : LocalName) (stack : Stack D) (f : List LocalName) (fs : Frames)
      → Tracks stack (f ∷ fs)
      → length f + 1 < 2 ^ 31
      → (stack' : Stack D) × (add_child hash_name name stack ≡ ok stack')
        × Tracks stack' ((name ∷ f) ∷ fs)
  unfolding add_child
  add_child-Tracks name stack f fs (c, t) fits =
      let (stack₁, e₁, c₁, same, len) = add_child-Counted name stack stack.items f fs refl c fits in
      let (counters, e₂, t₂) =
        add_to_counters-TypedCounted name stack.typed_child_counters f fs t fits in
      (
        record stack₁ { typed_child_counters = counters },
        add_child-steps name stack e₁ (rw (len, same) e₂),
        (c₁, t₂),
      )

  -- An element that is pushed has no children yet.
  pub push_item-Tracks :
      {D : Type 0} (size : ℕ) (item : StackItem D) (stack : Stack D) (frames : Frames)
      {stack' : Stack D}
      → Tracks stack frames
      → item.child_counter.cumulative ≡ 0
      → push_item size item stack ≡ ok stack'
      → Tracks stack' ([] ∷ frames)
  unfolding push_item
  push_item-Tracks size item stack frames (c, t) zero_count e =
      let (limiter, _, e') = bind-eq-ok (increase_usage size stack.memory_limiter) _ e in
      rw (← ok-injective e') (
        (inherit-child_counter item stack.items ∙ zero_count, c),
        TypedCounted-open stack.typed_child_counters frames
            (omega (arith, Counted-length stack.root_child_counter stack.items frames c)) t,
      )

  abbrev pub expected_typed : Option TypedChildCounterMap → ℕ → Option ChildCounter
  expected_typed none count = none
  expected_typed (some _) count = if count == 0 then none else some (record { cumulative = count })

  current_counter-Counted :
      {D : Type 0} (stack : Stack D) (items : List (StackItem D)) (f : List LocalName) (fs : Frames)
      → Counted stack.root_child_counter items (f ∷ fs)
      → (current_counter stack items).cumulative ≡ length f
  unfolding current_counter
  current_counter-Counted stack [] f [] c = c
  current_counter-Counted stack [] f (g ∷ fs) c = elim c [ ]
  current_counter-Counted stack (item ∷ items) f fs (c, _) = c

  get_in_counters-TypedCounted :
      (name : LocalName) (counters : Option TypedChildCounterMap) (f : List LocalName) (fs : Frames)
      (level : ℕ)
      → TypedCounted counters (f ∷ fs)
      → level ≡ length fs
      → get_in_counters hash_name name level counters ≡ expected_typed counters (count_named name f)
  unfolding get_in_counters frame_count
  get_in_counters-TypedCounted name none f fs level t e = refl
  get_in_counters-TypedCounted name (some m) f fs level (k, counts) e =
      let level_of : suc (length fs) - 1 ≡ level = omega (arith, e) in
      let here : typed_count hash_name name level m ≡ count_named name f =
        ground (arith, counts name level, e) in
      get_typed-typed_count hash_name name level m (rw level_of at k) ∙ rw here refl

  -- What the machine sees of the stack: how many children the current element has, and how many of
  -- the name, where types are counted and there is one.
  pub build_state-Tracks :
      {D : Type 0} (name : LocalName) (stack : Stack D) (f : List LocalName) (fs : Frames)
      → Tracks stack (f ∷ fs)
      → ((build_state hash_name name stack).cumulative.cumulative ≡ length f)
        × ((build_state hash_name name stack).typed
            ≡ expected_typed stack.typed_child_counters (count_named name f))
  unfolding build_state
  build_state-Tracks name stack f fs (c, t) = (
    current_counter-Counted stack stack.items f fs c,
    get_in_counters-TypedCounted name stack.typed_child_counters f fs (length stack.items) t
        (omega (arith, Counted-length stack.root_child_counter stack.items (f ∷ fs) c)),
  )

  Counted-drop :
      {D : Type 0} (n : ℕ) (root : ChildCounter) (items : List (StackItem D)) (frames : Frames)
      → n < length frames
      → Counted root items frames
      → Counted root (drop n items) (drop n frames)
  Counted-drop zero root items frames lt c = c
  Counted-drop (suc n) root [] [] lt c = elim c [ ]
  Counted-drop (suc n) root [] (f ∷ []) lt c = absurd (omega arith)
  Counted-drop (suc n) root [] (f ∷ g ∷ fs) lt c = elim c [ ]
  Counted-drop (suc n) root (item ∷ items) [] lt c = elim c [ ]
  Counted-drop (suc n) root (item ∷ items) (f ∷ fs) lt (_, c) =
      Counted-drop n root items fs (omega arith) c

  pop_above-runs :
      {D : Type 0} (drain_filter : DrainFilter) (size above index : ℕ) (stack : Stack D)
      → index + (above + 1) ≡ length stack.items
      → size * (above + 1) ≤ stack.memory_limiter.current_usage
      → pop_above drain_filter size (some above) stack
        ≡ ok (
          record stack {
            typed_child_counters = pop_counters drain_filter index stack.typed_child_counters;
            items = drop (above + 1) stack.items;
            memory_limiter = record stack.memory_limiter {
              current_usage = stack.memory_limiter.current_usage - size * (above + 1);
            };
          },
          reverse (map (λ (i : StackItem D). i.element_data) (take (above + 1) stack.items)),
        )
  unfolding pop_above ◌>>=◌ decrease_usage
  pop_above-runs drain_filter size above index stack e enough =
      let to : length stack.items - (above + 1) ≡ index = omega (arith, e) in
      let from : length stack.items - index ≡ above + 1 = omega (arith, e) in
      rw
        (
          checked_sub-fits (length stack.items) (above + 1) (omega (arith, e)),
          to,
          checked_sub-fits (length stack.items) index (omega (arith, e)),
          from,
          checked_sub-fits stack.memory_limiter.current_usage (size * (above + 1)) enough,
        )
        refl

  module _ (drain_filter : DrainFilter)
      (drain_nil : (f : CounterList → Option CounterList) → drain_filter f [] ≡ [])
      (drain_cons : (f : CounterList → Option CounterList) (key : LocalName) (l : CounterList)
          (m : TypedChildCounterMap)
        → drain_filter f ((key, l) ∷ m) ≡ keep key (f l) (drain_filter f m)) where
    pop_counters-TypedCounted :
        (n index : ℕ) (counters : Option TypedChildCounterMap) (frames : Frames)
        → n < length frames
        → index ≡ length frames - 1 - n
        → TypedCounted counters frames
        → TypedCounted (pop_counters drain_filter index counters) (drop n frames)
    pop_counters-TypedCounted n index none frames lt e t = tt
    pop_counters-TypedCounted n index (some m) frames lt e (k, counts) =
        let (k', _, counts') =
          pop_to-typed_count hash_name drain_filter drain_nil drain_cons index (length frames - 1) m
            k in
        let level_of : length (drop n frames) - 1 ≡ index =
          omega (arith, e, length-drop n frames) in
        (
          rw level_of k',
          λ name level. ground (
            arith,
            e,
            counts' name level,
            counts name level,
            frame_count-drop n name level frames lt,
          ),
        )

    -- An end tag for an element so far below the top leaves the frames of the elements below that
    -- one, where the items to go are charged for.
    pub pop_above-Tracks :
        {D : Type 0} (size above : ℕ) (stack : Stack D) (frames : Frames)
        → Tracks stack frames
        → above < length stack.items
        → size * (above + 1) ≤ stack.memory_limiter.current_usage
        → (stack' : Stack D) × (popped : List D) × (pop_above drain_filter size (some above) stack
            ≡ ok (stack', popped))
          × Tracks stack' (drop (above + 1) frames)
          × (stack'.items ≡ drop (above + 1) stack.items)
          × (popped
              ≡ reverse (map (λ (i : StackItem D). i.element_data) (take (above + 1) stack.items)))
    pop_above-Tracks size above stack frames (c, t) lt enough =
        let index = length stack.items - (above + 1) in
        let len = Counted-length stack.root_child_counter stack.items frames c in
        (
          _,
          _,
          pop_above-runs drain_filter size above index stack (omega arith) enough,
          (
            Counted-drop (above + 1) stack.root_child_counter stack.items frames
                (omega (arith, len)) c,
            pop_counters-TypedCounted (above + 1) index stack.typed_child_counters frames
                (omega (arith, len)) (omega (arith, len)) t,
          ),
          refl,
          refl,
        )
