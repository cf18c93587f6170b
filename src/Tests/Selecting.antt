-- ===== src/Tests/Selecting.antt =====
-- The indexes of src/selectors_vm/ast.rs's own tests, and the largest difference.
use lol_html.Prelude.{◌-◌, ◌^◌, true, false, ◌≡◌, ◌↔◌, refl, arith}
use lol_html.Selectors.NthChild.Formula.{has_index-IsNth}
use lol_html.Selectors.NthChild.Signs.{IsNth}
use lol_html.Selectors.NthChild.{NthChild, first, has_index}

abbrev odd : NthChild
odd = record { step = 2; offset = 1 }

odd_one : has_index odd 1 ≡ true
unfolding has_index
odd_one = refl

odd_two : has_index odd 2 ≡ false
unfolding has_index
odd_two = refl

first_two : has_index first 2 ≡ false
unfolding has_index first
first_two = refl

-- `-n+3`.
abbrev first_three : NthChild
first_three = record { step = 2 ^ 32 - 1; offset = 3 }

-- With the offset -2147483648 the subtraction wraps, and no index matches `n-2147483648`.
wrapped : has_index (record { step = 1; offset = 2 ^ 31 }) 1 ≡ false
unfolding has_index
wrapped = refl

has_index-IsNth_example : (has_index first_three 2 ≡ true) ↔ IsNth first_three 2
has_index-IsNth_example =
    has_index-IsNth first_three 2 (omega arith) (omega arith) (omega arith) (omega arith)
