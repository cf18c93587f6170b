-- ===== src/RewritableUnits.antt =====
-- src/rewritable_units: the tokens that content handlers get, their mutations and serialisation.
pub mod Mutations
pub mod Attributes
pub mod Tokens
pub mod Element
