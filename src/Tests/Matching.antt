-- ===== src/Tests/Matching.antt =====
-- A machine with one open element, and two selectors that share an ancestor.
use mathlib.Core.List.{reverse}
use mathlib.Core.Path.{subst}
use lol_html.Base.Checked.{checked_add}
use lol_html.Base.Outcome.{ok, ◌>>=◌, ok-injective}
use lol_html.Html.LocalName.{LocalName, bytes}
use lol_html.Html.TextType.{html}
use lol_html.Memory.Limiter.{MemoryLimiter, increase_usage}
use lol_html.Prelude.{
  ℕ, ◌≡◌, ◌∙◌, sym, refl, Bool, Bool-cases, inl, inr, true, false, not, List, [], ◌∷◌, map, none,
  some, length, take, drop, ◌==◌, arith,
}
use lol_html.Selectors.Ast.Counting.{count_nodes, add_selector-count_nodes}
use lol_html.Selectors.Ast.{
  Ast, no_nodes, Predicate, SelectorPart, combinator, simple, child, descendant, local_name, class_,
  add_selector,
}
use lol_html.Selectors.Compiler.Placing.{Placed}
use lol_html.Selectors.Compiler.Whole.{slot_of, compile-Placed}
use lol_html.Selectors.Compiler.{compile, length_nodes}
use lol_html.Selectors.Machine.Reference.{exec_reference, exec_for_start_tag-exec_reference}
use lol_html.Selectors.Machine.Running.{exec_for_start_tag}
use lol_html.Selectors.Machine.Stages.{answered}
use lol_html.Selectors.Machine.{AuxStartTagInfo, ElementData, SelectorMatchingVm}
use lol_html.Selectors.Program.{ExecutionBranch, Instruction, Program}
use lol_html.Selectors.Stack.Ends.{Popped, enabled, add_child-build_state, pop_up_to-Tracks}
use lol_html.Selectors.Stack.Flags.{Flagged, push_item-Flagged}
use lol_html.Selectors.Stack.Tracking.{Tracks, count_named, frame_count, push_item-Tracks}
use lol_html.Selectors.Stack.Typed.{Keyed, keep, typed_count}
use lol_html.Selectors.Stack.{
  new_counter_list, inherit, push_, DrainFilter, Stack, StackItem, add_child, build_state,
  pop_up_to, push_item,
}

abbrev a_name : LocalName
a_name = bytes (b'x' ∷ b'-' ∷ b'a' ∷ [])

abbrev one_hash : LocalName → ℕ
one_hash name = 0

abbrev same_number : ℕ → ℕ → Bool
same_number m n = m == n

-- An element's data are its payloads.
abbrev payloads : ElementData ℕ (List ℕ)
payloads = record { default_data = []; matched_payload = λ d. d; with_matched_payload = λ ps d. ps }

abbrev drain : DrainFilter
drain f [] = []
drain f ((key, l) ∷ m) = keep key (f l) (drain f m)

abbrev limiter : MemoryLimiter
limiter = record { current_usage = 10; max = 100 }

abbrev start : Stack (List ℕ)
start = record {
  root_child_counter = record { cumulative = 0 };
  typed_child_counters = some [];
  items = [];
  memory_limiter = limiter;
}

-- No child is counted before the first one.
nothing_counted :
    (name : LocalName) (level : ℕ)
    → typed_count one_hash name level [] ≡ frame_count one_hash name level ([] ∷ [])
unfolding typed_count frame_count count_named
nothing_counted name level = elim (Bool-cases (level == 0)) [
  | inl t ↦ rw t refl
  | inr f ↦ rw f refl
]

start-Tracks : Tracks one_hash start ([] ∷ [])
unfolding Keyed
start-Tracks = (refl, (tt, nothing_counted))

add_child-build_state_example :
    (stack' : Stack (List ℕ)) × (add_child one_hash a_name start ≡ ok stack')
    × Tracks one_hash stack' ((a_name ∷ []) ∷ [])
    × ((build_state one_hash a_name stack').cumulative.cumulative ≡ 1)
    × ((build_state one_hash a_name stack').typed ≡ enabled stack'.typed_child_counters 1)
unfolding count_named
add_child-build_state_example =
    add_child-build_state one_hash a_name start [] [] start-Tracks (omega arith)

-- `start` after its first child, and with that child open.
abbrev added : Stack (List ℕ)
added = record {
  root_child_counter = record { cumulative = 1 };
  typed_child_counters = some (
      (
        a_name,
        record { items = []; current = record { counter = record { cumulative = 1 }; index = 0 } },
      )
      ∷ []);
  items = [];
  memory_limiter = limiter;
}

abbrev item : StackItem (List ℕ)
item = record {
  local_name = a_name;
  element_data = 4 ∷ [];
  jumps = [];
  hereditary_jumps = record { start = 0; end = 1 } ∷ [];
  child_counter = record { cumulative = 0 };
  has_ancestor_with_hereditary_jumps = false;
  stack_directive = push_;
}

abbrev opened : Stack (List ℕ)
opened = record added {
  items = item ∷ [];
  memory_limiter = record { current_usage = 13; max = 100 };
}

add_child_runs : add_child one_hash a_name start ≡ ok added
unfolding add_child new_counter_list ◌>>=◌
add_child_runs = refl

push_item_runs : push_item 3 item added ≡ ok opened
unfolding push_item increase_usage checked_add ◌>>=◌
push_item_runs = refl

opened-Tracks : Tracks one_hash opened ([] ∷ (a_name ∷ []) ∷ [])
opened-Tracks =
    let (stack', e, t, _, _) =
      add_child-build_state one_hash a_name start [] [] start-Tracks (omega arith) in
    push_item-Tracks one_hash 3 item added ((a_name ∷ []) ∷ [])
      (subst (λ s. Tracks one_hash s ((a_name ∷ []) ∷ [])) (ok-injective (sym e ∙ add_child_runs))
        t)
      refl push_item_runs

pop_up_to-Tracks_example :
    (stack' : Stack (List ℕ)) × (popped : List (List ℕ)) × (n : ℕ) × (pop_up_to drain 3 a_name
        opened
      ≡ ok (stack', popped))
    × Popped a_name (item ∷ []) n
    × (stack'.items ≡ drop n (item ∷ []))
    × (popped ≡ reverse (map (λ (i : StackItem (List ℕ)). i.element_data) (take n (item ∷ []))))
    × Tracks one_hash stack' (drop n ([] ∷ (a_name ∷ []) ∷ []))
pop_up_to-Tracks_example =
    pop_up_to-Tracks one_hash drain (λ f. refl) (λ f key l m. refl) 3 a_name opened
      ([] ∷ (a_name ∷ []) ∷ []) opened-Tracks (omega arith)

abbrev second : Stack (List ℕ)
second = record opened {
  items = inherit item (item ∷ []) ∷ item ∷ [];
  memory_limiter = record { current_usage = 16; max = 100 };
}

opened-Flagged : Flagged (item ∷ [])
unfolding Flagged
opened-Flagged = (refl, tt)

-- The second item has the flag, since the first has a hereditary jump.
push_item-Flagged_example : Flagged second.items
unfolding push_item increase_usage checked_add ◌>>=◌
push_item-Flagged_example =
    push_item-Flagged 3 item opened {stack' = second} refl refl opened-Flagged

-- x-a .2, and x-a > .3
abbrev selectors : List (List SelectorPart)
selectors =
    (simple (local_name (b'x' ∷ b'-' ∷ b'a' ∷ []))
      ∷ combinator descendant
      ∷ simple (class_ (2 ∷ []))
      ∷ [])
    ∷ (simple (local_name (b'x' ∷ b'-' ∷ b'a' ∷ []))
        ∷ combinator child
        ∷ simple (class_ (3 ∷ []))
        ∷ [])
    ∷ []

abbrev no_ast : Ast ℕ
no_ast = record { root = no_nodes; cumulative_node_count = 0 }

-- Predicates are taken for equal if they ask for as much of the attributes.
abbrev like : Predicate → Predicate → Bool
like p q = length p.on_attr_exprs == length q.on_attr_exprs

abbrev merged : Ast ℕ
merged = add_selector same_number like selectors 7 no_ast

add_selector-count_nodes_example : merged.cumulative_node_count ≡ count_nodes merged.root
unfolding count_nodes
add_selector-count_nodes_example = add_selector-count_nodes same_number like selectors 7 no_ast refl

abbrev plain : Predicate → ExecutionBranch ℕ → Instruction ℕ
plain p b = record { associated_branch = b; local_name_exprs = []; attribute_exprs = [] }

abbrev never : Predicate → Bool
never p = false

compile-Placed_example :
    (program : Program ℕ) × (compile plain never merged ≡ ok program)
    × (program.entry_points ≡ record { start = 0; end = length_nodes merged.root })
    × (length program.instructions ≡ count_nodes merged.root)
    × Placed plain (slot_of program.instructions) 0 (length_nodes merged.root) merged.root
compile-Placed_example = compile-Placed plain never merged add_selector-count_nodes_example

-- One instruction, which needs the attributes.
abbrev classed : Instruction ℕ
classed = record {
  associated_branch = record { matched_payload = 7 ∷ []; jumps = none; hereditary_jumps = none };
  local_name_exprs = [];
  attribute_exprs = (λ state m. ok (not m.is_html_element)) ∷ (λ state m. ok true) ∷ [];
}

abbrev vm : SelectorMatchingVm ℕ (List ℕ)
vm = record {
  program = record {
    instructions = classed ∷ [];
    entry_points = record { start = 0; end = 1 };
    enable_nth_of_type = true;
  };
  stack = opened;
}

abbrev tag_info : AuxStartTagInfo
tag_info = record { input = []; attr_buffer = []; self_closing = false }

exec_for_start_tag-exec_reference_example :
    answered tag_info (exec_for_start_tag same_number payloads one_hash 3 a_name html vm)
    ≡ exec_reference same_number payloads one_hash 3 a_name html vm tag_info
exec_for_start_tag-exec_reference_example =
    exec_for_start_tag-exec_reference same_number payloads one_hash 3 a_name html vm tag_info
      opened-Flagged
