-- ===== src/Memory.antt =====
-- src/memory: the limit on memory and the collections that count against it. The limiter is shared
-- by reference counting; here each operation takes it and gives it back.
pub mod Limiter
pub mod Arena
pub mod LimitedVec
