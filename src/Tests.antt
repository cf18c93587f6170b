-- ===== src/Tests.antt =====
-- Runs on small inputs, and the theorems at inputs that meet their hypotheses.
mod Names
mod Lexing
mod Simulating
mod Handling
mod Streaming
mod Scanning
mod Rewriting
mod Matching
mod Selecting
mod Dispatching
