-- ===== src/Selectors/Stack/Typed.antt =====
-- The map of counters by name: what each operation does to the count of every name at every level.
use lol_html.Base.Outcome.{ok, ◌>>=◌}
use lol_html.Html.LocalName.Same.{name_eq_refl, name_eq_sym, name_eq_trans}
use lol_html.Html.LocalName.{LocalName, name_eq}
use lol_html.Prelude.{
  ℕ, suc, ◌+◌, ◌≤◌, ◌<◌, ◌^◌, ◌≡◌, refl, sym, ap, ◌∙◌, true, false, [], ◌∷◌, Option, none, some,
  leb, ◌==◌, if◌then◌else◌, arith, Bool-cases, ==_iff, and-true, if-holds, if-cases, inl, inr,
}
use lol_html.Selectors.Stack.Counters.{
  all_items, count_at, Descending, count_at-above, Descending-le, count_child-count_at, count_some,
  DescendingSome, pop_list-count_at,
}
use lol_html.Selectors.Stack.{
  CounterList, TypedChildCounterMap, DrainFilter, pop_list, pop_to, same_key, find_entry,
  add_typed_child, new_counter_list, get_typed,
}

-- What the map's `drain_filter` does with one entry.
abbrev pub keep : LocalName → Option CounterList → TypedChildCounterMap → TypedChildCounterMap
keep key none rest = rest
keep key (some l) rest = (key, l) ∷ rest

count_at-new :
    (index level : ℕ)
    → count_at (all_items (new_counter_list index)) level ≡ (if level == index then 1 else 0)
unfolding count_at new_counter_list
count_at-new index level = ground arith

current-count_at :
    (index : ℕ) (l : CounterList)
    → Descending (suc index) (all_items l)
    → (if l.current.index == index then some l.current.counter else none) ≡ (
        if count_at (all_items l) index == 0
        then none
        else some (record { cumulative = count_at (all_items l) index }))
unfolding count_at
current-count_at index l (lt, p, d) = elim (Bool-cases (l.current.index == index)) [
  | inl t ↦
      let positive : (l.current.counter.cumulative == 0) ≡ false = ground (arith, p) in
      rw (t, positive) refl
  | inr f ↦
      let absent : count_at l.items index ≡ 0 =
        count_at-above l.current.index l.items index d (ground (arith, f, lt)) in
      rw (f, absent) refl
]

module _ (hash_name : LocalName → ℕ) where
  same_key-parts :
      (a b : LocalName)
      → same_key hash_name a b ≡ true
      → (hash_name a ≡ hash_name b) × (name_eq a b ≡ true)
  same_key-parts a b e =
      let (h, n) = and-true (hash_name a == hash_name b) (name_eq a b) e in
      ((==_iff (hash_name a) (hash_name b)).0 h, n)

  same_key-make :
      (a b : LocalName)
      → hash_name a ≡ hash_name b
      → name_eq a b ≡ true
      → same_key hash_name a b ≡ true
  same_key-make a b h n = ground (arith, h, n)

  pub same_key_refl : (a : LocalName) → same_key hash_name a a ≡ true
  same_key_refl a = same_key-make a a refl (name_eq_refl a)

  pub same_key_sym :
      (a b : LocalName) → same_key hash_name a b ≡ true → same_key hash_name b a ≡ true
  same_key_sym a b e =
      let (h, n) = same_key-parts a b e in same_key-make b a (sym h) (name_eq_sym a b n)

  pub same_key_trans :
      (a b c : LocalName)
      → same_key hash_name a b ≡ true
      → same_key hash_name b c ≡ true
      → same_key hash_name a c ≡ true
  same_key_trans a b c e f =
      let (h, n) = same_key-parts a b e in
      let (h', n') = same_key-parts b c f in same_key-make a c (h ∙ h') (name_eq_trans a b c n n')

  -- Names of one key have the same key as any third.
  pub same_key_left :
      (a b c : LocalName)
      → same_key hash_name a b ≡ true
      → same_key hash_name a c ≡ same_key hash_name b c
  same_key_left a b c e = elim (Bool-cases (same_key hash_name a c)) [
    | inl t ↦ t ∙ sym (same_key_trans b a c (same_key_sym a b e) t)
    | inr f ↦ elim (Bool-cases (same_key hash_name b c)) [
      | inl t ↦ absurd (cc (same_key_trans a b c e t))
      | inr g ↦ f ∙ sym g
    ]
  ]

  pub same_key_swap :
      (a b : LocalName) → same_key hash_name a b ≡ false → same_key hash_name b a ≡ false
  same_key_swap a b f = elim (Bool-cases (same_key hash_name b a)) [
    | inl t ↦ absurd (cc (same_key_sym b a t))
    | inr g ↦ g
  ]

  -- A name that differs from one differs from the others of its key.
  pub same_key_apart :
      (a b c : LocalName)
      → same_key hash_name b c ≡ true
      → same_key hash_name a b ≡ false
      → same_key hash_name a c ≡ false
  same_key_apart a b c t f = elim (Bool-cases (same_key hash_name a c)) [
    | inl g ↦ absurd (cc (same_key_trans a c b g (same_key_sym b c t)))
    | inr g ↦ g
  ]

  pub find_entry-same :
      (a b : LocalName) (m : TypedChildCounterMap)
      → same_key hash_name a b ≡ true
      → find_entry hash_name a m ≡ find_entry hash_name b m
  unfolding find_entry
  find_entry-same a b [] e = refl
  find_entry-same a b ((key, l) ∷ m) e = rw (same_key_left a b key e, find_entry-same a b m e)

  -- The count of the children of a name at a level.
  unfoldable pub typed_count : LocalName → ℕ → TypedChildCounterMap → ℕ
  unfolding find_entry
  typed_count name level m = count_some (find_entry hash_name name m) level

  -- No name has two entries, and the levels of each are at most the one given.
  unfoldable pub Keyed : ℕ → TypedChildCounterMap → Type 0
  Keyed level [] = Unit
  Keyed level ((key, l) ∷ m) =
      (find_entry hash_name key m ≡ none) × Descending (suc level) (all_items l) × Keyed level m

  pub Keyed-le : (a b : ℕ) (m : TypedChildCounterMap) → Keyed a m → a ≤ b → Keyed b m
  unfolding Keyed
  Keyed-le a b [] k le = tt
  Keyed-le a b ((key, l) ∷ m) (u, d, k) le =
      (u, Descending-le _ _ (all_items l) d (omega arith), Keyed-le a b m k le)

  -- Above its level a map counts nothing.
  pub typed_count-above :
      (bound : ℕ) (m : TypedChildCounterMap) (name : LocalName) (level : ℕ)
      → Keyed bound m
      → bound < level
      → typed_count name level m ≡ 0
  unfolding typed_count Keyed
  typed_count-above bound [] name level k lt = refl
  typed_count-above bound ((key, l) ∷ m) name level (u, d, k) lt =
      if-holds (λ (o : Option CounterList). count_some o level ≡ 0) (same_key hash_name name key) _
        _ (count_at-above (suc bound) (all_items l) level d (omega arith))
        (typed_count-above bound m name level k lt)

  -- A child is counted under its name at its level, and nowhere else.
  pub add_typed_child-typed_count :
      (name : LocalName) (index : ℕ) (m : TypedChildCounterMap)
      → Keyed index m
      → typed_count name index m + 1 < 2 ^ 31
      → (m' : TypedChildCounterMap) × (add_typed_child hash_name name index m ≡ ok m')
        × Keyed index m'
        × ((n : LocalName)
            → same_key hash_name n name ≡ false
            → find_entry hash_name n m' ≡ find_entry hash_name n m)
        × ((level : ℕ)
            → typed_count name level m'
              ≡ (if level == index then typed_count name level m + 1 else typed_count name level m))
  unfolding add_typed_child typed_count Keyed ◌>>=◌ new_counter_list
  add_typed_child-typed_count name index [] k fits = (
    (name, new_counter_list index) ∷ [],
    refl,
    (refl, (omega arith, omega arith, tt), tt),
    λ n f. rw f refl,
    λ level. rw (same_key_refl name) (count_at-new index level),
  )
  add_typed_child-typed_count name index ((key, l) ∷ m) (u, d, k) fits =
      elim (Bool-cases (same_key hash_name name key)) [
        | inl t ↦
            let (l', e, d', counts) =
              count_child-count_at index l d (rw (t, typed_count) at fits) in
            (
              (key, l') ∷ m,
              rw (t, e) refl,
              (u, d', k),
              λ n f. rw (same_key_apart n name key t f) refl,
              λ level. rw t (counts level),
            )
        | inr f ↦
            let (m', e, k', others, counts) =
              add_typed_child-typed_count name index m k (rw (f, typed_count) at fits) in
            (
              (key, l) ∷ m',
              rw (f, e) refl,
              (others key (same_key_swap name key f) ∙ u, d, k'),
              λ n g. ap (λ o. if same_key hash_name n key then some l else o) (others n g),
              λ level. rw f (counts level),
            )
      ]

  -- What `get` finds at the highest level is the count, where it is not 0.
  pub get_typed-typed_count :
      (name : LocalName) (index : ℕ) (m : TypedChildCounterMap)
      → Keyed index m
      → get_typed hash_name name index m ≡ (
          if typed_count name index m == 0
          then none
          else some (record { cumulative = typed_count name index m }))
  unfolding get_typed typed_count Keyed count_at
  get_typed-typed_count name index [] k = refl
  get_typed-typed_count name index ((key, l) ∷ m) (u, d, k) =
      elim (Bool-cases (same_key hash_name name key)) [
        | inl t ↦ rw t (current-count_at index l d)
        | inr f ↦ rw f (get_typed-typed_count name index m k)
      ]

  -- One entry is kept or goes, and its counts with it.
  keep-typed_count :
      (index : ℕ) (key : LocalName) (l : CounterList) (kept : Option CounterList)
      (m rest : TypedChildCounterMap)
      → Keyed index rest
      → ((name : LocalName)
          → find_entry hash_name name m ≡ none
          → find_entry hash_name name rest ≡ none)
      → ((name : LocalName) (level : ℕ)
          → typed_count name level rest ≡ (if leb level index then typed_count name level m else 0))
      → find_entry hash_name key m ≡ none
      → DescendingSome (suc index) kept
      → ((level : ℕ)
          → count_some kept level ≡ (if leb level index then count_at (all_items l) level else 0))
      → Keyed index (keep key kept rest)
        × ((name : LocalName)
            → find_entry hash_name name ((key, l) ∷ m) ≡ none
            → find_entry hash_name name (keep key kept rest) ≡ none)
        × ((name : LocalName) (level : ℕ)
            → typed_count name level (keep key kept rest)
              ≡ (if leb level index then typed_count name level ((key, l) ∷ m) else 0))
  unfolding typed_count Keyed
  keep-typed_count index key l none m rest k absent counts u d kept = (
    k,
    λ name e. if-cases (same_key hash_name name key) e (λ t g. absurd cc) (λ t g. absent name g),
    λ name level. elim (Bool-cases (same_key hash_name name key)) [
      | inl t ↦ rw (t, absent name (find_entry-same name key m t ∙ u)) (kept level)
      | inr f ↦ rw f (counts name level)
    ],
  )
  keep-typed_count index key l (some l') m rest k absent counts u d kept = (
    (absent key u, d, k),
    λ name e.
        if-cases (same_key hash_name name key) e (λ t g. absurd cc) (λ t g. rw t (absent name g)),
    λ name level. elim (Bool-cases (same_key hash_name name key)) [
      | inl t ↦ rw t (kept level)
      | inr f ↦ rw f (counts name level)
    ],
  )

  module _ (drain_filter : DrainFilter)
      (drain_nil : (f : CounterList → Option CounterList) → drain_filter f [] ≡ [])
      (drain_cons : (f : CounterList → Option CounterList) (key : LocalName) (l : CounterList)
          (m : TypedChildCounterMap)
        → drain_filter f ((key, l) ∷ m) ≡ keep key (f l) (drain_filter f m)) where
    -- After `pop_to` the counts up to the level are there still, and no others.
    pub pop_to-typed_count :
        (index bound : ℕ) (m : TypedChildCounterMap)
        → Keyed bound m
        → Keyed index (pop_to drain_filter index m)
          × ((name : LocalName)
              → find_entry hash_name name m ≡ none
              → find_entry hash_name name (pop_to drain_filter index m) ≡ none)
          × ((name : LocalName) (level : ℕ)
              → typed_count name level (pop_to drain_filter index m)
                ≡ (if leb level index then typed_count name level m else 0))
    unfolding pop_to typed_count Keyed
    pop_to-typed_count index bound [] k =
        rw (drain_nil _) (tt, λ name e. refl, λ name level. ground arith)
    pop_to-typed_count index bound ((key, l) ∷ m) (u, d, k) = rw (drain_cons _ key l m) (
        let (k', absent, counts) = pop_to-typed_count index bound m k in
        let (d', kept) = pop_list-count_at index (suc bound) l.current l.items d in
        keep-typed_count index key l (pop_list index l.current l.items) m
          (drain_filter (λ l. pop_list index l.current l.items) m) k' absent counts u d' kept)
