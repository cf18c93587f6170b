-- ===== src/Selectors/Stack/Counters.antt =====
-- One entry of the map of counters: counters at descending levels, the current one first.
use lol_html.Base.Outcome.{ok, ◌>>=◌}
use lol_html.Prelude.{
  ℕ, suc, ◌+◌, ◌≤◌, ◌<◌, ◌^◌, ◌≡◌, refl, List, [], ◌∷◌, Option, none, some, ltb, leb, ◌==◌,
  if◌then◌else◌, arith, Bool-cases, ltb→le, inl, inr,
}
use lol_html.Selectors.Stack.{CounterItem, CounterList, count_child, pop_list, inc}

abbrev pub all_items : CounterList → List CounterItem
all_items l = l.current ∷ l.items

-- The count at a level.
unfoldable pub count_at : List CounterItem → ℕ → ℕ
count_at [] level = 0
count_at (x ∷ xs) level = if x.index == level then x.counter.cumulative else count_at xs level

-- The levels descend, below a bound, and every count is positive.
abbrev pub Descending : ℕ → List CounterItem → Type 0
Descending bound [] = Unit
Descending bound (x ∷ xs) = (x.index < bound) × (0 < x.counter.cumulative) × Descending x.index xs

pub count_at-above :
    (bound : ℕ) (xs : List CounterItem) (level : ℕ)
    → Descending bound xs
    → bound ≤ level
    → count_at xs level ≡ 0
unfolding count_at
count_at-above bound [] level d le = refl
count_at-above bound (x ∷ xs) level (lt, p, d) le =
    ground (arith, count_at-above x.index xs level d (omega arith))

pub Descending-le : (a b : ℕ) (xs : List CounterItem) → Descending a xs → a ≤ b → Descending b xs
Descending-le a b [] d le = tt
Descending-le a b (x ∷ xs) (lt, p, d) le = (omega arith, p, d)

-- A child more at the level, and nothing else changes.
pub count_child-count_at :
    (index : ℕ) (l : CounterList)
    → Descending (suc index) (all_items l)
    → count_at (all_items l) index + 1 < 2 ^ 31
    → (l' : CounterList) × (count_child index l ≡ ok l')
      × Descending (suc index) (all_items l')
      × ((level : ℕ)
          → count_at (all_items l') level ≡ (
              if level == index
              then count_at (all_items l) level + 1
              else count_at (all_items l) level))
unfolding count_child count_at inc ◌>>=◌
count_child-count_at index l (lt, p, d) fits = elim (Bool-cases (l.current.index == index)) [
  | inl t ↦ (
    record l {
      current = record {
        counter = record { cumulative = l.current.counter.cumulative + 1 };
        index = index;
      };
    },
    ground (arith, t, fits),
    (omega arith, omega arith, Descending-le _ _ l.items d (ground (arith, t))),
    λ level. ground (arith, t),
  )
  | inr f ↦ (
    record {
      items = l.current ∷ l.items;
      current = record { counter = record { cumulative = 1 }; index = index };
    },
    ground (arith, f),
    (omega arith, omega arith, (ground (arith, f, lt), p, d)),
    λ level. ground (arith, f, lt, count_at-above l.current.index l.items index d),
  )
]

abbrev pub count_some : Option CounterList → ℕ → ℕ
count_some none level = 0
count_some (some l) level = count_at (all_items l) level

abbrev pub DescendingSome : ℕ → Option CounterList → Type 0
DescendingSome bound none = Unit
DescendingSome bound (some l) = Descending bound (all_items l)

-- What is left of an entry has the counts up to the level, and no others.
pub pop_list-count_at :
    (index bound : ℕ) (current : CounterItem) (items : List CounterItem)
    → Descending bound (current ∷ items)
    → DescendingSome (suc index) (pop_list index current items)
      × ((level : ℕ)
          → count_some (pop_list index current items) level
            ≡ (if leb level index then count_at (current ∷ items) level else 0))
unfolding pop_list count_at
pop_list-count_at index bound current [] (lt, p, d) =
    (ground (arith, p), λ level. ground (arith, p))
pop_list-count_at index bound current (next ∷ items) (lt, p, d) =
    let (d', counts) = pop_list-count_at index current.index next items d in
    elim (Bool-cases (ltb index current.index)) [
      | inl t ↦ (rw t d', λ level. rw t (ground (arith, t, counts level)))
      | inr f ↦
          let le = ltb→le index current.index f in
          (
            rw f (omega arith, p, d),
            λ level. rw f (ground (arith, f, count_at-above current.index (next ∷ items) level d)),
          )
    ]
