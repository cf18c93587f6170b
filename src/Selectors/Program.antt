-- ===== src/Selectors/Program.antt =====
-- src/selectors_vm/program.rs: instructions and what they try. The boxed closures of compiled
-- expressions are functions, which may panic. A hash set of payloads is a list of them, and is gone
-- through in its order. Of src/selectors_vm/attribute_matcher.rs, the matcher's state; the values
-- that its cells remember are computed anew.
use lol_html.Base.Outcome.{ok, ◌>>=◌}
use lol_html.Base.Range.{Range}
use lol_html.Html.LocalName.{LocalName}
use lol_html.Html.TextType.{Namespace, html, ns_eq}
use lol_html.Memory.Limiter.{Limited}
use lol_html.Parser.Outline.{AttributeOutline}
use lol_html.Prelude.{ℕ, Bool, true, false, List, [], ◌∷◌, Option, none, some, if◌then◌else◌}
use lol_html.Selectors.Stack.{SelectorState}

pub record AttributeMatcher : Type 0 where
  pub input : List ℕ
  pub attributes : List AttributeOutline
  pub is_html_element : Bool

unfoldable pub new_attribute_matcher : List ℕ → List AttributeOutline → Namespace → AttributeMatcher
new_attribute_matcher input attributes ns = record {
  input = input;
  attributes = attributes;
  is_html_element = ns_eq ns html;
}

abbrev pub CompiledLocalNameExpr : Type 0
CompiledLocalNameExpr = SelectorState → LocalName → Limited Bool

abbrev pub CompiledAttributeExpr : Type 0
CompiledAttributeExpr = SelectorState → AttributeMatcher → Limited Bool

pub record ExecutionBranch (P : Type 0) : Type 0 where
  pub matched_payload : List P
  pub jumps : Option Range
  pub hereditary_jumps : Option Range

pub data TryExecResult (P : Type 0) : Type 0 where
  branch : ExecutionBranch P → TryExecResult P
  attributes_required : TryExecResult P
  fail : TryExecResult P

pub record Instruction (P : Type 0) : Type 0 where
  pub associated_branch : ExecutionBranch P
  pub local_name_exprs : List CompiledLocalNameExpr
  pub attribute_exprs : List CompiledAttributeExpr

pub record Program (P : Type 0) : Type 0 where
  pub instructions : List (Instruction P)
  pub entry_points : Range
  pub enable_nth_of_type : Bool

-- `iter().all(|e| e(state, x))`.
unfoldable pub all_hold :
    {X : Type 0} → List (SelectorState → X → Limited Bool) → SelectorState → X → Limited Bool
all_hold [] state x = ok true
all_hold (e ∷ es) state x =
    let rest = all_hold es state x in e state x >>= λ holds. if holds then rest else ok false

abbrev pub no_exprs : List CompiledAttributeExpr → Bool
no_exprs [] = true
no_exprs (_ ∷ _) = false

module _ {P : Type 0} (i : Instruction P) where
  unfoldable pub try_exec_without_attrs : SelectorState → LocalName → Limited (TryExecResult P)
  unfolding all_hold
  try_exec_without_attrs state name = all_hold i.local_name_exprs state name >>= λ holds. ok (
      if holds
      then (if no_exprs i.attribute_exprs then branch i.associated_branch else attributes_required)
      else fail)

  unfoldable pub complete_exec_with_attrs :
      SelectorState → AttributeMatcher → Limited (Option (ExecutionBranch P))
  unfolding all_hold
  complete_exec_with_attrs state m = all_hold i.attribute_exprs state m >>= λ holds.
      ok (if holds then some i.associated_branch else none)

  unfoldable pub exec :
      SelectorState → LocalName → AttributeMatcher → Limited (Option (ExecutionBranch P))
  unfolding all_hold
  exec state name m = all_hold i.local_name_exprs state name >>= λ named.
      (if named then all_hold i.attribute_exprs state m else ok false) >>= λ is_match.
      ok (if is_match then some i.associated_branch else none)
