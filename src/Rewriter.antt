-- ===== src/Rewriter.antt =====
-- src/rewriter and what it drives: content handlers and the counts of their users.
pub mod HandlerVec
pub mod HandlersDispatcher
