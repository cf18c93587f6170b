-- ===== src/Selectors/Compiler/Whole.antt =====
-- compile: the whole program of a tree.
use mathlib.Core.Option
use mathlib.Core.Path.{subst}
use lol_html.Base.Outcome.{ok, ◌>>=◌, ok-injective, bind-eq-ok}
use lol_html.Prelude.{
  ℕ, zero, suc, ◌+◌, ◌≤◌, ◌<◌, ◌≡◌, refl, sym, ap, ◌∙◌, inl, inr, Bool, false, List, [], ◌∷◌,
  Option, none, some, length, get_elem?, arith, ltb, ltb→lt, ltb→le, Bool-cases,
}
use lol_html.Selectors.Ast.Counting.{count_nodes}
use lol_html.Selectors.Ast.{Predicate, AstNodes, ast_node, no_nodes, node_and, Ast}
use lol_html.Selectors.Compiler.Filling.{reserve-fits, compile_in-Compiled}
use lol_html.Selectors.Compiler.Placing.{Slots, length_nodes-le, Within, Placed, Placed-same}
use lol_html.Selectors.Compiler.{
  Compiler, length_nodes, unwrap_all, empty_slots, compile_in, compile_nodes, compile,
}
use lol_html.Selectors.Program.{ExecutionBranch, Instruction, Program}

length-empty_slots : (P : Type 0) (n : ℕ) → length (empty_slots {P = P} n) ≡ n
length-empty_slots P zero = refl
length-empty_slots P (suc n) = ap suc (length-empty_slots P n)

module _ {P : Type 0} where
  -- A slot with an instruction in it.
  abbrev Filled : Option (Option (Instruction P)) → Type 0
  Filled slot = (x : Instruction P) × (slot ≡ some (some x))

  -- What a program's address holds, as its slot did.
  abbrev pub slot_of : List (Instruction P) → ℕ → Option (Option (Instruction P))
  slot_of instructions i = Option.map some (get_elem? instructions i)

  unwrap_all-Filled :
      (slots : Slots P)
      → ((i : ℕ) → i < length slots → Filled (get_elem? slots i))
      → (instructions : List (Instruction P)) × (unwrap_all slots ≡ ok instructions)
        × ((i : ℕ) → slot_of instructions i ≡ get_elem? slots i)
  unfolding unwrap_all ◌>>=◌
  unwrap_all-Filled [] h = ([], refl, λ i. refl)
  unwrap_all-Filled (none ∷ slots) h = let (x, e) = h 0 (omega arith) in absurd cc
  unwrap_all-Filled (some x ∷ slots) h =
      let (instructions, e, same) = unwrap_all-Filled slots (λ i lt. h (suc i) (omega arith)) in
      (x ∷ instructions, rw e refl, kept x instructions slots same)
    where
      kept :
          (x : Instruction P) (instructions : List (Instruction P)) (slots : Slots P)
          → ((i : ℕ) → slot_of instructions i ≡ get_elem? slots i)
          → (i : ℕ) → slot_of (x ∷ instructions) i ≡ get_elem? (some x ∷ slots) i
      kept x instructions slots same zero = refl
      kept x instructions slots same (suc i) = same i

  length-unwrap_all :
      (slots : Slots P) (instructions : List (Instruction P))
      → unwrap_all slots ≡ ok instructions
      → length instructions ≡ length slots
  unfolding unwrap_all ◌>>=◌
  length-unwrap_all [] instructions e = ap length (sym (ok-injective e))
  length-unwrap_all (none ∷ slots) instructions e = absurd cc
  length-unwrap_all (some x ∷ slots) instructions e =
      let (is, e₁, e₂) = bind-eq-ok (unwrap_all slots) _ e in
      rw (← ok-injective e₂) (ap suc (length-unwrap_all slots is e₁))

  module _ (compile_one : Predicate → ExecutionBranch P → Instruction P) where
    -- An address between two bounds is one of the nodes or of those below.
    Within-bounds :
        (free : ℕ) (nodes : AstNodes P) (i : ℕ)
        → free ≤ i
        → i < free + count_nodes nodes
        → Within free (free + length_nodes nodes) nodes i
    Within-bounds free nodes i ge lt =
        let le = length_nodes-le nodes in
        elim (Bool-cases (ltb i (free + length_nodes nodes))) [
          | inl t ↦ inl (ge, ltb→lt i (free + length_nodes nodes) t)
          | inr f ↦
              let ge' = ltb→le i (free + length_nodes nodes) f in inr (ge', omega (arith, lt, le))
        ]

    -- No address of the nodes is left empty.
    Placed-Filled :
        (at : ℕ → Option (Option (Instruction P))) (position free : ℕ) (nodes : AstNodes P)
        → Placed compile_one at position free nodes
        → (i : ℕ) → Within position free nodes i
        → Filled (at i)
    unfolding Placed count_nodes
    Placed-Filled at position free no_nodes h i (inl (a, b)) = absurd (omega arith)
    Placed-Filled at position free no_nodes h i (inr (a, b)) = absurd (omega arith)
    Placed-Filled at position free (node_and (ast_node p c d l) nodes) (here, hc, hd, hn) i
          (inl (a, b)) =
        elim (Bool-cases (ltb position i)) [
          | inl t ↦
              let lt = ltb→lt position i t in
              Placed-Filled at (position + 1) _ nodes hn i (inl (omega arith, omega arith))
          | inr f ↦
              let le = ltb→le position i f in
              let e : i ≡ position = omega arith in (_, ap at e ∙ here)
        ]
    Placed-Filled at position free (node_and (ast_node p c d l) nodes) (here, hc, hd, hn) i
          (inr (a, b)) =
        let ln = length_nodes-le nodes in
        elim (Bool-cases (ltb i (free + count_nodes c))) [
          | inl t ↦
              let lt = ltb→lt i (free + count_nodes c) t in
              Placed-Filled at free _ c hc i (Within-bounds free c i a lt)
          | inr f ↦
              let ge = ltb→le i (free + count_nodes c) f in
              elim (Bool-cases (ltb i (free + count_nodes c + count_nodes d))) [
                | inl t' ↦
                    let lt = ltb→lt i (free + count_nodes c + count_nodes d) t' in
                    Placed-Filled at (free + count_nodes c) _ d hd i
                      (Within-bounds (free + count_nodes c) d i ge lt)
                | inr f' ↦
                    let ge' = ltb→le i (free + count_nodes c + count_nodes d) f' in
                    Placed-Filled at (position + 1) _ nodes hn i (inr (ge', omega (arith, b, ln)))
              ]
        ]

    module _ (counts : Predicate → Bool) where
      compile-step :
          (ast : Ast P) (c : Compiler P) (instructions : List (Instruction P))
          → compile_in compile_one counts ast.root 0 (record {
            instructions = empty_slots ast.cumulative_node_count;
            free_space_start = length_nodes ast.root;
            enable_nth_of_type = false;
          })
            ≡ ok c
          → length_nodes ast.root ≤ ast.cumulative_node_count
          → unwrap_all c.instructions ≡ ok instructions
          → compile compile_one counts ast
            ≡ ok (record {
              instructions = instructions;
              entry_points = record { start = 0; end = length_nodes ast.root };
              enable_nth_of_type = c.enable_nth_of_type;
            })
      unfolding compile compile_nodes ◌>>=◌
      compile-step ast c instructions e₁ le e₂ =
          let e : 0 + length_nodes ast.root ≡ length_nodes ast.root = omega arith in
          let fits =
            reserve-fits {P = P} (length_nodes ast.root)
              (record {
                instructions = empty_slots ast.cumulative_node_count;
                free_space_start = 0;
                enable_nth_of_type = false;
              })
              (omega (arith, le, length-empty_slots P ast.cumulative_node_count)) in
          rw (fits, e, e₁, e₂) refl

      -- A tree whose count is the number of its nodes compiles without a panic, however its predicates
      -- are compiled: the program has an instruction for every node and no other, its entry points are
      -- the roots, siblings lie side by side, and each instruction has its node's payload and the
      -- ranges of addresses where the instructions of its children and its descendants stand.
      pub compile-Placed :
          (ast : Ast P)
          → ast.cumulative_node_count ≡ count_nodes ast.root
          → (program : Program P) × (compile compile_one counts ast ≡ ok program)
            × (program.entry_points ≡ record { start = 0; end = length_nodes ast.root })
            × (length program.instructions ≡ count_nodes ast.root)
            × Placed compile_one (slot_of program.instructions) 0 (length_nodes ast.root) ast.root
      compile-Placed ast h =
          let le = length_nodes-le ast.root in
          let at_root : 0 + length_nodes ast.root ≡ length_nodes ast.root = omega arith in
          let size = length-empty_slots P ast.cumulative_node_count in
          let (c, e₁, (free, len, same, placed)) =
            compile_in-Compiled compile_one counts ast.root 0
              (record {
                instructions = empty_slots ast.cumulative_node_count;
                free_space_start = length_nodes ast.root;
                enable_nth_of_type = false;
              })
              (omega arith) (omega (arith, le, size, h)) in
          let (instructions, e₂, kept) = unwrap_all-Filled c.instructions (λ i lt.
            Placed-Filled _ 0 (length_nodes ast.root) ast.root placed i (
              subst (λ z. Within 0 z ast.root i) at_root
                (Within-bounds 0 ast.root i (omega arith) (omega (arith, lt, len, size, h))))) in
          (
            _,
            compile-step ast c instructions e₁ (omega (arith, le, h)) e₂,
            refl,
            length-unwrap_all c.instructions instructions e₂ ∙ len ∙ size ∙ h,
            Placed-same compile_one _ _ 0 (length_nodes ast.root) ast.root (λ i w. kept i) placed,
          )
