-- ===== src/Selectors/Stack.antt =====
-- src/selectors_vm/stack.rs: the stack of open elements and the counters of their children.
-- `items` has the last pushed first. A hash map is a list of its entries; `hash_name` stands for the
-- map's hasher on a name, and an entry is found where the hashes and then the names are equal.
-- `drain_filter` stands for the map's method of that name (hashbrown 0.7): the closure gives the
-- value that is kept, or `none` where it returns false and the entry goes. An i32 that only grows
-- from 0 is a number, with the panic of a build that checks for overflow.
pub mod Counters
pub mod Typed
pub mod Flags
pub mod Tracking
pub mod Ends
use lol_html.Base.Checked.{checked_sub}
use lol_html.Base.Outcome.{Outcome, ok, panic, ◌>>=◌}
use lol_html.Base.Range.{Range}
use lol_html.Html.LocalName.{LocalName, name_eq, name_is}
use lol_html.Html.Tag.{
  Tag, div, a, span, li, area, base, basefont, bgsound, br, col, embed, hr, img, input, keygen,
  link, meta, param, source, track, wbr,
}
use lol_html.Html.TextType.{Namespace, html, ns_eq}
use lol_html.Memory.Limiter.{MemoryLimiter, Limited, increase_usage, decrease_usage}
use lol_html.Prelude.{
  ℕ, zero, suc, ◌+◌, ◌-◌, ◌*◌, ◌^◌, Bool, true, false, ◌&&◌, ◌||◌, List, [], ◌∷◌, map, Option, none,
  some, length, take, drop, ltb, ◌==◌, if◌then◌else◌,
}
use lol_html.Selectors.NthChild.{NthChild, has_index}
use mathlib.Core.List.{reverse}

-- `tag_is_one_of!` on a name.
unfoldable pub name_is_one_of : LocalName → List Tag → Bool
unfolding name_is
name_is_one_of name [] = false
name_is_one_of name (tag ∷ tags) = name_is name tag || name_is_one_of name tags

unfoldable pub is_void_element : LocalName → Bool
unfolding name_is_one_of
is_void_element name =
    if name_is_one_of name (div ∷ a ∷ span ∷ li ∷ [])
    then false
    else name_is_one_of name (
        area ∷ base ∷ basefont ∷ bgsound ∷ br ∷ col ∷ embed ∷ hr ∷ img ∷ input ∷ keygen ∷ link
        ∷ meta ∷ param ∷ source ∷ track ∷ wbr ∷ [])

pub data StackDirective : Type 0 where
  push_ push_if_not_self_closing pop_immediately : StackDirective

pub record ChildCounter : Type 0 where
  pub cumulative : ℕ

abbrev pub default_counter : ChildCounter
default_counter = record { cumulative = 0 }

abbrev pub new_and_inc : ChildCounter
new_and_inc = record { cumulative = 1 }

unfoldable pub inc : ChildCounter → Limited ChildCounter
inc c =
    if ltb (c.cumulative + 1) (2 ^ 31) then ok (record { cumulative = c.cumulative + 1 }) else panic

unfoldable pub is_nth : NthChild → ChildCounter → Bool
unfolding has_index
is_nth nth c = has_index nth c.cumulative

pub record CounterItem : Type 0 where
  pub counter : ChildCounter
  pub index : ℕ

pub record CounterList : Type 0 where
  pub items : List CounterItem
  pub current : CounterItem

unfoldable pub new_counter_list : ℕ → CounterList
new_counter_list start = record {
  items = [];
  current = record { counter = new_and_inc; index = start };
}

abbrev pub TypedChildCounterMap : Type 0
TypedChildCounterMap = List (LocalName × CounterList)

abbrev pub DrainFilter : Type 0
DrainFilter = (CounterList → Option CounterList) → TypedChildCounterMap → TypedChildCounterMap

-- What `add_child` does to an occupied entry.
unfoldable pub count_child : ℕ → CounterList → Limited CounterList
unfolding inc
count_child index l =
    if l.current.index == index
    then (inc l.current.counter >>= λ counter.
        ok (record l { current = record { counter = counter; index = index } }))
    else ok (record {
      items = l.current ∷ l.items;
      current = record { counter = new_and_inc; index = index };
    })

-- The closure of `pop_to`: the loop over the items of one entry.
unfoldable pub pop_list : ℕ → CounterItem → List CounterItem → Option CounterList
pop_list index current [] =
    if ltb index current.index then none else some (record { items = []; current = current })
pop_list index current (next ∷ items) =
    let rest = pop_list index next items in
    if ltb index current.index
    then rest
    else some (record { items = next ∷ items; current = current })

unfoldable pub pop_to : DrainFilter → ℕ → TypedChildCounterMap → TypedChildCounterMap
unfolding pop_list
pop_to drain_filter index m = drain_filter (λ l. pop_list index l.current l.items) m

abbrev pub current_at : ℕ → Option CounterList → Option ChildCounter
current_at index none = none
current_at index (some l) = if l.current.index == index then some l.current.counter else none

module _ (hash_name : LocalName → ℕ) where
  abbrev pub same_key : LocalName → LocalName → Bool
  same_key name key = hash_name name == hash_name key && name_eq name key

  -- `TypedChildCounterMap::add_child`.
  unfoldable pub add_typed_child :
      LocalName → ℕ → TypedChildCounterMap → Limited TypedChildCounterMap
  unfolding new_counter_list count_child
  add_typed_child name index [] = ok ((name, new_counter_list index) ∷ [])
  add_typed_child name index ((key, l) ∷ entries) =
      let rest = add_typed_child name index entries in
      if same_key name key
      then (count_child index l >>= λ l'. ok ((key, l') ∷ entries))
      else rest >>= λ entries'. ok ((key, l) ∷ entries')

  unfoldable pub find_entry : LocalName → TypedChildCounterMap → Option CounterList
  find_entry name [] = none
  find_entry name ((key, l) ∷ entries) =
      if same_key name key then some l else find_entry name entries

  -- `TypedChildCounterMap::get`.
  unfoldable pub get_typed : LocalName → ℕ → TypedChildCounterMap → Option ChildCounter
  unfolding find_entry
  get_typed name index m = current_at index (find_entry name m)

pub record StackItem (D : Type 0) : Type 0 where
  pub local_name : LocalName
  pub element_data : D
  pub jumps : List Range
  pub hereditary_jumps : List Range
  pub child_counter : ChildCounter
  pub has_ancestor_with_hereditary_jumps : Bool
  pub stack_directive : StackDirective

-- The limiter is shared; this is its state as the stack finds it.
pub record Stack (D : Type 0) : Type 0 where
  pub root_child_counter : ChildCounter
  pub typed_child_counters : Option TypedChildCounterMap
  pub items : List (StackItem D)
  pub memory_limiter : MemoryLimiter

pub record SelectorState : Type 0 where
  pub cumulative : ChildCounter
  pub typed : Option ChildCounter

unfoldable pub add_to_counters :
    (LocalName → ℕ)
    → LocalName
    → ℕ
    → Option TypedChildCounterMap
    → Limited (Option TypedChildCounterMap)
unfolding add_typed_child
add_to_counters hash_name name index none = ok none
add_to_counters hash_name name index (some counters) =
    add_typed_child hash_name name index counters >>= λ counters'. ok (some counters')

unfoldable pub get_in_counters :
    (LocalName → ℕ) → LocalName → ℕ → Option TypedChildCounterMap → Option ChildCounter
unfolding get_typed
get_in_counters hash_name name index none = none
get_in_counters hash_name name index (some counters) = get_typed hash_name name index counters

abbrev pub pop_counters :
    DrainFilter → ℕ → Option TypedChildCounterMap → Option TypedChildCounterMap
pop_counters drain_filter index none = none
pop_counters drain_filter index (some counters) = some (pop_to drain_filter index counters)

abbrev pub has_hereditary_jumps : List Range → Bool
has_hereditary_jumps [] = false
has_hereditary_jumps (_ ∷ _) = true

module _ {D : Type 0} where
  unfoldable pub new_item : D → LocalName → StackItem D
  new_item default_data name = record {
    local_name = name;
    element_data = default_data;
    jumps = [];
    hereditary_jumps = [];
    child_counter = default_counter;
    has_ancestor_with_hereditary_jumps = false;
    stack_directive = push_;
  }

  unfoldable pub new_stack : MemoryLimiter → Bool → Stack D
  new_stack limiter enable_nth_of_type = record {
    root_child_counter = default_counter;
    typed_child_counters = if enable_nth_of_type then some [] else none;
    items = [];
    memory_limiter = limiter;
  }

  -- The counter that the children of the current element are counted by, counted up.
  unfoldable pub inc_current : Stack D → List (StackItem D) → Limited (Stack D)
  unfolding inc
  inc_current stack [] =
      inc stack.root_child_counter >>= λ counter. ok (record stack { root_child_counter = counter })
  inc_current stack (last ∷ items) = inc last.child_counter >>= λ counter.
      ok (record stack { items = record last { child_counter = counter } ∷ items })

  unfoldable pub add_child : (LocalName → ℕ) → LocalName → Stack D → Limited (Stack D)
  unfolding inc_current add_to_counters
  add_child hash_name name stack = inc_current stack stack.items >>= λ stack'.
      add_to_counters hash_name name (length stack'.items) stack'.typed_child_counters
      >>= λ counters. ok (record stack' { typed_child_counters = counters })

  unfoldable pub current_counter : Stack D → List (StackItem D) → ChildCounter
  current_counter stack [] = stack.root_child_counter
  current_counter stack (last ∷ items) = last.child_counter

  unfoldable pub build_state : (LocalName → ℕ) → LocalName → Stack D → SelectorState
  unfolding current_counter get_in_counters
  build_state hash_name name stack = record {
    cumulative = current_counter stack stack.items;
    typed = get_in_counters hash_name name (length stack.items) stack.typed_child_counters;
  }

  unfoldable pub get_stack_directive : StackItem D → Namespace → StackDirective
  unfolding is_void_element
  get_stack_directive item ns =
      if ns_eq ns html
      then (if is_void_element item.local_name then pop_immediately else push_)
      else push_if_not_self_closing

  -- How many items lie above the last one with the name.
  unfoldable pub find_last : LocalName → List (StackItem D) → Option ℕ
  find_last name [] = none
  find_last name (item ∷ items) =
      let rest = find_last name items in
      if name_eq item.local_name name
      then some 0
      else elim rest [ none ↦ none | some n ↦ some (suc n) ]

  -- The items to pop are the last one with the name and those above it. The data handed to the
  -- handler are in its calls' order. `size` is the size of an item.
  unfoldable pub pop_above : DrainFilter → ℕ → Option ℕ → Stack D → Limited (Stack D × List D)
  unfolding pop_to
  pop_above drain_filter size none stack = ok (stack, [])
  pop_above drain_filter size (some above) stack =
      checked_sub (length stack.items) (above + 1) >>= λ index.
      checked_sub (length stack.items) index >>= λ count.
      decrease_usage (size * count) stack.memory_limiter >>= λ limiter. ok (
        record stack {
          typed_child_counters = pop_counters drain_filter index stack.typed_child_counters;
          items = drop count stack.items;
          memory_limiter = limiter;
        },
        reverse (map (λ (i : StackItem D). i.element_data) (take count stack.items)),
      )

  unfoldable pub pop_up_to : DrainFilter → ℕ → LocalName → Stack D → Limited (Stack D × List D)
  unfolding find_last pop_above
  pop_up_to drain_filter size name stack =
      pop_above drain_filter size (find_last name stack.items) stack

  -- What `push_item` writes into the item, by the items below it.
  unfoldable pub inherit : StackItem D → List (StackItem D) → StackItem D
  inherit item [] = item
  inherit item (last ∷ items) =
      if last.has_ancestor_with_hereditary_jumps || has_hereditary_jumps last.hereditary_jumps
      then record item { has_ancestor_with_hereditary_jumps = true }
      else item

  unfoldable pub push_item : ℕ → StackItem D → Stack D → Limited (Stack D)
  unfolding inherit
  push_item size item stack = increase_usage size stack.memory_limiter >>= λ limiter.
      ok (record stack { items = inherit item stack.items ∷ stack.items; memory_limiter = limiter })
