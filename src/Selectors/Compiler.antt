-- ===== src/Selectors/Compiler.antt =====
-- src/selectors_vm/compiler.rs: from the tree to a program whose siblings lie side by side. The encoding
-- is its encoder without replacements, `none` where a character has no code; the other parameters are
-- those of Selectors/AttributeMatcher.antt. A boxed closure is a function. The `debug_assert!` of
-- `compile_predicate`, that the predicate has an expression, is left out.
pub mod Placing
pub mod Filling
pub mod Whole
use mathlib.Core.Option
use lol_html.Base.Outcome.{Outcome, ok, panic, ◌>>=◌, expect}
use lol_html.Base.Range.{Range}
use lol_html.Html.LocalName.{LocalName, name_eq, lower, from_str_without_replacements}
use lol_html.Memory.Limiter.{Limited}
use lol_html.Prelude.{
  ℕ, zero, suc, ◌+◌, ◌-◌, Bool, true, false, not, ◌&&◌, ◌||◌, List, [], ◌∷◌, ◌++◌, map, Option,
  none, some, length, ltb, ◌==◌, if◌then◌else◌,
}
use lol_html.Selectors.Ast.{
  Expr, OnTagNameExpr, explicit_any, unmatchable, local_name_, nth_child, nth_of_type,
  OnAttributesExpr, id_, class, attribute_exists, attribute_comparison_expr,
  AttributeComparisonExpr, AttrSelectorOperator, equal, includes, dash_match, prefix_, substring,
  suffix_, ParsedCaseSensitivity, Predicate, AstNode, AstNodes, ast_node, no_nodes, node_and, Ast,
}
use lol_html.Selectors.AttributeMatcher.{
  CaseSensitivity, AttrExprOperands, has_id, has_class, has_attribute, attr_eq,
  matches_splitted_by_whitespace, has_dash_matching_attr, has_attr_with_prefix,
  has_attr_with_suffix, has_attr_with_substring,
}
use lol_html.Selectors.Program.{
  AttributeMatcher, CompiledLocalNameExpr, CompiledAttributeExpr, ExecutionBranch, Instruction,
  Program,
}
use lol_html.Selectors.Stack.{SelectorState, is_nth}

-- `compile_expr`: the closure, or its negation.
unfoldable pub compile_expr :
    {X : Type 0} → Bool → (SelectorState → X → Limited Bool) → SelectorState → X → Limited Bool
compile_expr negation f state x =
    if negation then (f state x >>= λ holds. ok (not holds)) else f state x

abbrev pub always : {X : Type 0} → Bool → SelectorState → X → Limited Bool
always b state x = ok b

-- `*actual == local_name`, where the selector's name could be encoded.
abbrev pub name_is_ : Option LocalName → SelectorState → LocalName → Limited Bool
name_is_ none state actual = ok false
name_is_ (some name) state actual = ok (name_eq actual name)

unfoldable pub compile_on_tag_name :
    (List ℕ → Option (List ℕ)) → OnTagNameExpr → CompiledLocalNameExpr
compile_on_tag_name encode explicit_any = always true
compile_on_tag_name encode unmatchable = always false
compile_on_tag_name encode (local_name_ name) = name_is_ (from_str_without_replacements encode name)
compile_on_tag_name encode (nth_child nth) = λ state _. ok (is_nth nth state.cumulative)
compile_on_tag_name encode (nth_of_type nth) =
    λ state _. expect state.typed >>= λ counter. ok (is_nth nth counter)

abbrev pub counts_types : OnTagNameExpr → Bool
counts_types (nth_of_type nth) = true
counts_types _ = false

unfoldable pub compile_operands :
    (List ℕ → Option (List ℕ)) → List ℕ → List ℕ → Option (List ℕ × List ℕ)
compile_operands encode name value = elim (encode (map lower name)) [
  | none ↦ none
  | some name' ↦ elim (encode value) [ none ↦ none | some value' ↦ some (name', value') ]
]

abbrev pub on_literal :
    Option (List ℕ) → (AttributeMatcher → List ℕ → Limited Bool) → CompiledAttributeExpr
on_literal none f state m = ok false
on_literal (some lit) f state m = f m lit

module _ (encode : List ℕ → Option (List ℕ))
    (to_unconditional : ParsedCaseSensitivity → Bool → CaseSensitivity)
    (case_eq : CaseSensitivity → List ℕ → List ℕ → Bool) (memchr : ℕ → List ℕ → Option ℕ)
    (memchr2 : ℕ → ℕ → List ℕ → Option ℕ) where
  abbrev pub compare_by : AttrSelectorOperator → AttributeMatcher → AttrExprOperands → Limited Bool
  compare_by equal = attr_eq to_unconditional case_eq memchr memchr2
  compare_by includes = matches_splitted_by_whitespace to_unconditional case_eq memchr memchr2
  compare_by dash_match = has_dash_matching_attr to_unconditional case_eq memchr memchr2
  compare_by prefix_ = has_attr_with_prefix to_unconditional case_eq memchr memchr2
  compare_by suffix_ = has_attr_with_suffix to_unconditional case_eq memchr memchr2
  compare_by substring = has_attr_with_substring to_unconditional case_eq memchr memchr2

  abbrev pub on_operands :
      Option (List ℕ × List ℕ) → AttributeComparisonExpr → CompiledAttributeExpr
  on_operands none e state m = ok false
  on_operands (some (name, value)) e state m =
      compare_by e.operator m
        (record { name = name; value = value; case_sensitivity = e.case_sensitivity })

  -- The closure before a negation, which is of an expression that could be encoded or of false.
  unfoldable pub compile_on_attributes : OnAttributesExpr → CompiledAttributeExpr
  unfolding compile_operands
  compile_on_attributes (id_ id) = on_literal (encode id) has_id
  compile_on_attributes (class class_) = on_literal (encode class_) has_class
  compile_on_attributes (attribute_exists name) = on_literal (encode name) has_attribute
  compile_on_attributes (attribute_comparison_expr e) =
      on_operands (compile_operands encode e.name e.value) e

  abbrev pub compile_names : List (Expr OnTagNameExpr) → List CompiledLocalNameExpr
  compile_names [] = []
  compile_names (e ∷ es) =
      compile_expr e.negation (compile_on_tag_name encode e.simple_expr) ∷ compile_names es

  abbrev pub compile_attributes : List (Expr OnAttributesExpr) → List CompiledAttributeExpr
  compile_attributes [] = []
  compile_attributes (e ∷ es) =
      compile_expr e.negation (compile_on_attributes e.simple_expr) ∷ compile_attributes es

  abbrev pub any_counts_types : List (Expr OnTagNameExpr) → Bool
  any_counts_types [] = false
  any_counts_types (e ∷ es) = counts_types e.simple_expr || any_counts_types es

  module _ {P : Type 0} where
    unfoldable pub compile_predicate : Predicate → ExecutionBranch P → Instruction P
    unfolding compile_expr compile_on_tag_name compile_on_attributes
    compile_predicate predicate branch = record {
      associated_branch = branch;
      local_name_exprs = compile_names predicate.on_tag_name_exprs;
      attribute_exprs = compile_attributes predicate.on_attr_exprs;
    }

pub record Compiler (P : Type 0) : Type 0 where
  pub instructions : List (Option (Instruction P))
  pub free_space_start : ℕ
  pub enable_nth_of_type : Bool

module _ {P : Type 0} where
  abbrev pub length_nodes : AstNodes P → ℕ
  length_nodes no_nodes = 0
  length_nodes (node_and n nodes) = suc (length_nodes nodes)

  -- With its `debug_assert!`.
  unfoldable pub reserve : ℕ → Compiler P → Limited (Compiler P × Range)
  reserve count c =
      if ltb (length c.instructions) (c.free_space_start + count)
      then panic
      else ok (
        record c { free_space_start = c.free_space_start + count },
        record { start = c.free_space_start; end = c.free_space_start + count },
      )

  -- `instructions[position] = Some(…)`; `none` where the position is out of range.
  unfoldable pub set_instruction :
      ℕ → Instruction P → List (Option (Instruction P)) → Option (List (Option (Instruction P)))
  set_instruction position i [] = none
  set_instruction zero i (slot ∷ slots) = some (some i ∷ slots)
  set_instruction (suc position) i (slot ∷ slots) =
      Option.map (λ slots'. slot ∷ slots') (set_instruction position i slots)

  -- `o.unwrap()` for every slot.
  unfoldable pub unwrap_all : List (Option (Instruction P)) → Limited (List (Instruction P))
  unwrap_all [] = ok []
  unwrap_all (slot ∷ slots) =
      expect slot >>= λ i. unwrap_all slots >>= λ instructions. ok (i ∷ instructions)

  abbrev pub empty_slots : ℕ → List (Option (Instruction P))
  empty_slots zero = []
  empty_slots (suc n) = none ∷ empty_slots n

  module _ (compile_one : Predicate → ExecutionBranch P → Instruction P)
      (counts : Predicate → Bool) where
    -- `compile_descendants` of nodes that the loop `compile_in` places.
    abbrev pub compile_descendants :
        AstNodes P
        → (ℕ → Compiler P → Limited (Compiler P))
        → Compiler P
        → Limited (Compiler P × Option Range)
    compile_descendants no_nodes compile_in c = ok (c, none)
    compile_descendants (node_and n nodes) compile_in c =
        reserve (length_nodes (node_and n nodes)) c >>= λ (c₁, r).
        compile_in r.start c₁ >>= λ c₂. ok (c₂, some r)

    -- The loop of `compile_nodes` over the nodes from a position on.
    unfoldable pub compile_in : AstNodes P → ℕ → Compiler P → Limited (Compiler P)
    unfolding reserve set_instruction
    compile_in no_nodes position c = ok c
    compile_in (node_and (ast_node predicate children descendants payload) nodes) position c =
        compile_descendants children (compile_in children) c >>= λ (c₁, jumps).
        compile_descendants descendants (compile_in descendants) c₁ >>= λ (c₂, hereditary_jumps).
        expect (
          set_instruction position
            (compile_one predicate (record {
              matched_payload = payload;
              jumps = jumps;
              hereditary_jumps = hereditary_jumps;
            }))
            c₂.instructions)
        >>= λ instructions. compile_in nodes (position + 1) (record c₂ {
          instructions = instructions;
          enable_nth_of_type = c₂.enable_nth_of_type || counts predicate;
        })

    unfoldable pub compile_nodes : AstNodes P → Compiler P → Limited (Compiler P × Range)
    unfolding compile_in reserve
    compile_nodes nodes c = reserve (length_nodes nodes) c >>= λ (c₁, r).
        compile_in nodes r.start c₁ >>= λ c₂. ok (c₂, r)

    unfoldable pub compile : Ast P → Limited (Program P)
    unfolding compile_nodes unwrap_all
    compile ast =
        compile_nodes ast.root (record {
          instructions = empty_slots ast.cumulative_node_count;
          free_space_start = 0;
          enable_nth_of_type = false;
        })
        >>= λ (c, entry_points). unwrap_all c.instructions >>= λ instructions. ok (record {
          instructions = instructions;
          entry_points = entry_points;
          enable_nth_of_type = c.enable_nth_of_type;
        })
