-- ===== src/Base.antt =====
-- Parts of src/base: ranges and their alignment (range.rs, align.rs), slices of bytes (bytes.rs),
-- and the outcome of fallible code.
pub mod Range
pub mod Bytes
pub mod Outcome
pub mod Checked
