-- ===== src/Selectors.antt =====
-- Parts of src/selectors_vm.
pub mod NthChild
pub mod Ast
pub mod AttributeMatcher
pub mod Compiler
pub mod Stack
pub mod Program
pub mod Machine
