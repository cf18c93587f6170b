-- ===== src/Selectors/Compiler/Placing.antt =====
-- The compiled program holds the tree: where each node's instruction stands.

use lol_html.Base.Range.{Range}
use lol_html.Prelude.{
  ℕ, ◌+◌, ◌-◌, ◌≤◌, ◌<◌, ◌≡◌, ◌∙◌, ◌⊎◌, inl, inr, List, Option, none, some, arith,
}
use lol_html.Selectors.Ast.Counting.{count_nodes}
use lol_html.Selectors.Ast.{Predicate, AstNodes, ast_node, no_nodes, node_and}
use lol_html.Selectors.Compiler.{length_nodes}
use lol_html.Selectors.Program.{ExecutionBranch, Instruction}

-- Addresses at which two programs agree.
abbrev pub Slots : Type 0 → Type 0
Slots P = List (Option (Instruction P))

module _ {P : Type 0} where
  -- How many nodes are below those of a list.
  abbrev pub below : AstNodes P → ℕ
  below nodes = count_nodes nodes - length_nodes nodes

  pub length_nodes-le : (nodes : AstNodes P) → length_nodes nodes ≤ count_nodes nodes
  unfolding count_nodes
  length_nodes-le no_nodes = omega arith
  length_nodes-le (node_and (ast_node p c d l) nodes) = omega (arith, length_nodes-le nodes)

  -- The addresses of some nodes, side by side from `start` on.
  abbrev pub range_of : AstNodes P → ℕ → Option Range
  range_of no_nodes start = none
  range_of (node_and n nodes) start =
      some (record { start = start; end = start + length_nodes (node_and n nodes) })

  -- An address of the nodes at `position`, or of the nodes below them, which begin at `free`.
  abbrev pub Within : ℕ → ℕ → AstNodes P → ℕ → Type 0
  Within position free nodes i =
      ((position ≤ i) × (i < position + length_nodes nodes))
      ⊎ ((free ≤ i) × (i < free + below nodes))

  module _ (compile_one : Predicate → ExecutionBranch P → Instruction P) where
    -- Every node's instruction stands at its address, with its payload and the ranges of its children
    -- and descendants; theirs do too.
    unfoldable pub Placed : (ℕ → Option (Option (Instruction P))) → ℕ → ℕ → AstNodes P → Type 0
    unfolding count_nodes
    Placed at position free no_nodes = Unit
    Placed at position free (node_and (ast_node predicate children descendants payload) nodes) =
        (at position
          ≡ some (
              some (
                compile_one predicate (record {
                  matched_payload = payload;
                  jumps = range_of children free;
                  hereditary_jumps = range_of descendants (free + count_nodes children);
                }))))
        × Placed at free (free + length_nodes children) children
        × Placed at (free + count_nodes children)
            (free + count_nodes children + length_nodes descendants) descendants
        × Placed at (position + 1) (free + count_nodes children + count_nodes descendants) nodes

    pub Placed-same :
        (at at' : ℕ → Option (Option (Instruction P))) (position free : ℕ) (nodes : AstNodes P)
        → ((i : ℕ) → Within position free nodes i → at' i ≡ at i)
        → Placed at position free nodes
        → Placed at' position free nodes
    unfolding Placed count_nodes
    Placed-same at at' position free no_nodes same h = tt
    Placed-same at at' position free (node_and (ast_node p c d l) nodes) same (here, hc, hd, hn) =
        let lc = length_nodes-le c in
        let ld = length_nodes-le d in
        let ln = length_nodes-le nodes in
        (
          same position (inl (omega arith, omega arith)) ∙ here,
          Placed-same at at' free (free + length_nodes c) c
              (λ i w. same i (inr (ground (arith, w, lc, ld, ln)))) hc,
          Placed-same at at' (free + count_nodes c) (free + count_nodes c + length_nodes d) d
              (λ i w. same i (inr (ground (arith, w, lc, ld, ln)))) hd,
          Placed-same at at' (position + 1) (free + count_nodes c + count_nodes d) nodes
              (λ i w. same i (ground (arith, w, lc, ld, ln))) hn,
        )
