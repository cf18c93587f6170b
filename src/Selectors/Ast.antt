-- ===== src/Selectors/Ast.antt =====
-- src/selectors_vm/ast.rs: the tree that selectors are merged into. A string is the list of its bytes.
-- `Component` and `Combinator` are the parts of the crate selectors' parsed selector, as the source
-- matches on them; the parser lets through no other. A hash set of payloads is a list of them.
pub mod Counting
use lol_html.Base.Outcome.{Outcome, ok, panic, ◌>>=◌}
use lol_html.Prelude.{
  ℕ, zero, suc, ◌+◌, ◌-◌, Bool, true, false, ◌&&◌, ◌||◌, List, [], ◌∷◌, ◌++◌, Option, none, some,
  ◌==◌, if◌then◌else◌,
}
use lol_html.Selectors.NthChild.{NthChild, new_nth_child, first}

pub data OnTagNameExpr : Type 0 where
  explicit_any unmatchable : OnTagNameExpr
  local_name_ : List ℕ → OnTagNameExpr
  nth_child nth_of_type : NthChild → OnTagNameExpr

-- `ParsedCaseSensitivity` and `AttrSelectorOperator` of the crate selectors.
pub data ParsedCaseSensitivity : Type 0 where
  explicit_case_sensitive case_sensitive_ ascii_case_insensitive_ : ParsedCaseSensitivity
  ascii_case_insensitive_if_in_html_element_in_html_document : ParsedCaseSensitivity

pub data AttrSelectorOperator : Type 0 where
  equal includes dash_match prefix_ substring suffix_ : AttrSelectorOperator

pub record AttributeComparisonExpr : Type 0 where
  pub name : List ℕ
  pub value : List ℕ
  pub case_sensitivity : ParsedCaseSensitivity
  pub operator : AttrSelectorOperator

pub data OnAttributesExpr : Type 0 where
  id_ class attribute_exists : List ℕ → OnAttributesExpr
  attribute_comparison_expr : AttributeComparisonExpr → OnAttributesExpr

pub data Condition : Type 0 where
  on_tag_name : OnTagNameExpr → Condition
  on_attributes : OnAttributesExpr → Condition

pub record Expr (E : Type 0) : Type 0 where
  pub simple_expr : E
  pub negation : Bool

pub record Predicate : Type 0 where
  pub on_tag_name_exprs : List (Expr OnTagNameExpr)
  pub on_attr_exprs : List (Expr OnAttributesExpr)

pub data Combinator : Type 0 where
  child descendant : Combinator

-- A simple component, and what a selector is made of.
pub data Component : Type 0 where
  local_name : List ℕ → Component
  explicit_universal_type explicit_any_namespace explicit_no_namespace : Component
  id class_ : List ℕ → Component
  attribute_in_no_namespace_exists : List ℕ → Component
  attribute_in_no_namespace :
      List ℕ → List ℕ → AttrSelectorOperator → ParsedCaseSensitivity → Bool → Component
  first_child first_of_type : Component
  nth_child_ nth_of_type_ : ℕ → ℕ → Component

pub data SelectorPart : Type 0 where
  combinator : Combinator → SelectorPart
  negation_ : List Component → SelectorPart
  simple : Component → SelectorPart

-- `From<&Component> for Condition`.
unfoldable pub condition_from : Component → Condition
unfolding first new_nth_child
condition_from (local_name n) = on_tag_name (local_name_ n)
condition_from explicit_universal_type = on_tag_name explicit_any
condition_from explicit_any_namespace = on_tag_name explicit_any
condition_from explicit_no_namespace = on_tag_name unmatchable
condition_from (id i) = on_attributes (id_ i)
condition_from (class_ c) = on_attributes (class c)
condition_from (attribute_in_no_namespace_exists name) = on_attributes (attribute_exists name)
condition_from (attribute_in_no_namespace name value operator case_sensitivity never_matches) =
    if never_matches
    then on_tag_name unmatchable
    else on_attributes (
        attribute_comparison_expr (record {
          name = name;
          value = value;
          case_sensitivity = case_sensitivity;
          operator = operator;
        }))
condition_from first_child = on_tag_name (nth_child first)
condition_from (nth_child_ a b) = on_tag_name (nth_child (new_nth_child a b))
condition_from first_of_type = on_tag_name (nth_of_type first)
condition_from (nth_of_type_ a b) = on_tag_name (nth_of_type (new_nth_child a b))

abbrev pub default_predicate : Predicate
default_predicate = record { on_tag_name_exprs = []; on_attr_exprs = [] }

unfoldable pub add_expr_to_list : {E : Type 0} → List (Expr E) → E → Bool → List (Expr E)
add_expr_to_list list expr negation =
    list ++ record { simple_expr = expr; negation = negation } ∷ []

abbrev pub add_condition : Condition → Bool → Predicate → Predicate
add_condition (on_tag_name e) negation p = record p {
  on_tag_name_exprs = add_expr_to_list p.on_tag_name_exprs e negation;
}
add_condition (on_attributes e) negation p = record p {
  on_attr_exprs = add_expr_to_list p.on_attr_exprs e negation;
}

unfoldable pub add_component : Component → Bool → Predicate → Predicate
unfolding condition_from add_expr_to_list
add_component component negation p = add_condition (condition_from component) negation p

unfoldable pub add_negated : List Component → Predicate → Predicate
unfolding add_component
add_negated [] p = p
add_negated (c ∷ cs) p = add_negated cs (add_component c true p)

mutual
  pub data AstNode (P : Type 0) : Type 0 where
    ast_node : Predicate → AstNodes P → AstNodes P → List P → AstNode P

  pub data AstNodes (P : Type 0) : Type 0 where
    no_nodes : AstNodes P
    node_and : AstNode P → AstNodes P → AstNodes P

pub record Ast (P : Type 0) : Type 0 where
  pub root : AstNodes P
  pub cumulative_node_count : ℕ

module _ {P : Type 0} (eq : P → P → Bool) (predicate_eq : Predicate → Predicate → Bool) where
  unfoldable pub insert_payload : P → List P → List P
  insert_payload p [] = p ∷ []
  insert_payload p (q ∷ qs) = let rest = insert_payload p qs in if eq p q then q ∷ qs else q ∷ rest

  -- `host_expressions` and the use of the branch that it finds or makes: the first node with the
  -- predicate is changed, or a new one at the end. The count is of the nodes made here.
  unfoldable pub host_expressions :
      Predicate → (AstNode P → AstNode P × ℕ) → AstNodes P → AstNodes P × ℕ
  host_expressions predicate change no_nodes =
      let (n, made) = change (ast_node predicate no_nodes no_nodes []) in
      (node_and n no_nodes, made + 1)
  host_expressions predicate change (node_and (ast_node p children descendants payload) nodes) =
      let (nodes', made) = host_expressions predicate change nodes in
      if predicate_eq p predicate
      then (let (n, made') = change (ast_node p children descendants payload) in
          (node_and n nodes, made'))
      else (node_and (ast_node p children descendants payload) nodes', made)

  abbrev pub change_payload : P → AstNode P → AstNode P × ℕ
  change_payload payload (ast_node p children descendants payloads) =
      (ast_node p children descendants (insert_payload payload payloads), 0)

  abbrev pub change_children : (AstNodes P → AstNodes P × ℕ) → AstNode P → AstNode P × ℕ
  change_children f (ast_node p children descendants payloads) =
      let (children', made) = f children in (ast_node p children' descendants payloads, made)

  abbrev pub change_descendants : (AstNodes P → AstNodes P × ℕ) → AstNode P → AstNode P × ℕ
  change_descendants f (ast_node p children descendants payloads) =
      let (descendants', made) = f descendants in (ast_node p children descendants' payloads, made)

  -- The loop over the parts of one selector of the list, from a predicate and a vector of branches on.
  unfoldable pub add_parts : P → List SelectorPart → Predicate → AstNodes P → AstNodes P × ℕ
  unfolding host_expressions insert_payload add_component add_negated
  add_parts payload [] predicate branches =
      host_expressions predicate (change_payload payload) branches
  add_parts payload (combinator child ∷ parts) predicate branches =
      host_expressions predicate (change_children (add_parts payload parts default_predicate))
        branches
  add_parts payload (combinator descendant ∷ parts) predicate branches =
      host_expressions predicate (change_descendants (add_parts payload parts default_predicate))
        branches
  add_parts payload (negation_ cs ∷ parts) predicate branches =
      add_parts payload parts (add_negated cs predicate) branches
  add_parts payload (simple c ∷ parts) predicate branches =
      add_parts payload parts (add_component c false predicate) branches

  unfoldable pub add_selector : List (List SelectorPart) → P → Ast P → Ast P
  unfolding add_parts
  add_selector [] payload ast = ast
  add_selector (parts ∷ selectors) payload ast =
      let (root, made) = add_parts payload parts default_predicate ast.root in
      add_selector selectors payload
        (record { root = root; cumulative_node_count = ast.cumulative_node_count + made })
