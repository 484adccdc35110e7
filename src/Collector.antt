-- ===== src/Collector.antt =====
-- Go/internal/collector: what is read from the host, and how it becomes rights of the graph.
pub mod Rights
pub mod Counts
pub mod Contents
mod Tests
