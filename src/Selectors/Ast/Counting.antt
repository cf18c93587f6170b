-- ===== src/Selectors/Ast/Counting.antt =====
-- The count of the nodes that the compiler reserves space by.
use lol_html.Prelude.{ℕ, suc, ◌+◌, ◌≡◌, Bool, List, [], ◌∷◌, arith, Bool-cases, inl, inr}
use lol_html.Selectors.Ast.{
  Predicate, default_predicate, SelectorPart, combinator, child, descendant, negation_, simple,
  AstNode, AstNodes, ast_node, no_nodes, node_and, Ast, host_expressions, change_payload,
  change_children, change_descendants, add_parts, add_selector,
}

-- All nodes of a tree.
unfoldable mutual
  pub count_nodes : {P : Type 0} → AstNodes P → ℕ
  count_nodes no_nodes = 0
  count_nodes (node_and n nodes) = count_node n + count_nodes nodes

  pub count_node : {P : Type 0} → AstNode P → ℕ
  count_node (ast_node p children descendants payload) =
      suc (count_nodes children + count_nodes descendants)

module _ {P : Type 0} (eq : P → P → Bool) (predicate_eq : Predicate → Predicate → Bool) where
  host_expressions-count_nodes :
      (predicate : Predicate) (change : AstNode P → AstNode P × ℕ) (nodes : AstNodes P)
      → ((n : AstNode P) → count_node (change n).0 ≡ count_node n + (change n).1)
      → count_nodes (host_expressions eq predicate_eq predicate change nodes).0
        ≡ count_nodes nodes + (host_expressions eq predicate_eq predicate change nodes).1
  unfolding host_expressions count_nodes
  host_expressions-count_nodes predicate change no_nodes h =
      omega (arith, h (ast_node predicate no_nodes no_nodes []))
  host_expressions-count_nodes predicate change (node_and (ast_node p c d l) nodes) h =
      elim (Bool-cases (predicate_eq p predicate)) [
        | inl t ↦ rw t (omega (arith, h (ast_node p c d l)))
        | inr f ↦ rw f (omega (arith, host_expressions-count_nodes predicate change nodes h))
      ]

  change_payload-count :
      (payload : P) (n : AstNode P)
      → count_node (change_payload eq predicate_eq payload n).0
        ≡ count_node n + (change_payload eq predicate_eq payload n).1
  unfolding count_nodes
  change_payload-count payload (ast_node p c d l) = omega arith

  change_children-count :
      (f : AstNodes P → AstNodes P × ℕ)
      → ((nodes : AstNodes P) → count_nodes (f nodes).0 ≡ count_nodes nodes + (f nodes).1)
      → (n : AstNode P)
      → count_node (change_children eq predicate_eq f n).0
        ≡ count_node n + (change_children eq predicate_eq f n).1
  unfolding count_nodes
  change_children-count f h (ast_node p c d l) = omega (arith, h c)

  change_descendants-count :
      (f : AstNodes P → AstNodes P × ℕ)
      → ((nodes : AstNodes P) → count_nodes (f nodes).0 ≡ count_nodes nodes + (f nodes).1)
      → (n : AstNode P)
      → count_node (change_descendants eq predicate_eq f n).0
        ≡ count_node n + (change_descendants eq predicate_eq f n).1
  unfolding count_nodes
  change_descendants-count f h (ast_node p c d l) = omega (arith, h d)

  add_parts-count_nodes :
      (payload : P) (parts : List SelectorPart) (predicate : Predicate) (nodes : AstNodes P)
      → count_nodes (add_parts eq predicate_eq payload parts predicate nodes).0
        ≡ count_nodes nodes + (add_parts eq predicate_eq payload parts predicate nodes).1
  unfolding add_parts
  add_parts-count_nodes payload [] predicate nodes =
      host_expressions-count_nodes predicate _ nodes (change_payload-count payload)
  add_parts-count_nodes payload (combinator child ∷ parts) predicate nodes =
      host_expressions-count_nodes predicate _ nodes
        (change_children-count _ (add_parts-count_nodes payload parts default_predicate))
  add_parts-count_nodes payload (combinator descendant ∷ parts) predicate nodes =
      host_expressions-count_nodes predicate _ nodes
        (change_descendants-count _ (add_parts-count_nodes payload parts default_predicate))
  add_parts-count_nodes payload (negation_ cs ∷ parts) predicate nodes =
      add_parts-count_nodes payload parts _ nodes
  add_parts-count_nodes payload (simple c ∷ parts) predicate nodes =
      add_parts-count_nodes payload parts _ nodes

  -- However selectors are merged into it, the tree has as many nodes as its count says, if it had
  -- before: the compiler reserves neither too little space nor too much.
  pub add_selector-count_nodes :
      (selectors : List (List SelectorPart)) (payload : P) (ast : Ast P)
      → ast.cumulative_node_count ≡ count_nodes ast.root
      → (add_selector eq predicate_eq selectors payload ast).cumulative_node_count
        ≡ count_nodes (add_selector eq predicate_eq selectors payload ast).root
  unfolding add_selector
  add_selector-count_nodes [] payload ast h = h
  add_selector-count_nodes (parts ∷ selectors) payload ast h =
      add_selector-count_nodes selectors payload _
        (omega (arith, h, add_parts-count_nodes payload parts default_predicate ast.root))
