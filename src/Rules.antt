-- ===== src/Rules.antt =====
-- Go/internal/rules: the rules that decide what is explored and what is written to the graph.
pub mod Value
pub mod Scan
pub mod Condition
pub mod Evaluator
pub mod Comparison
pub mod Parser
mod Tests
