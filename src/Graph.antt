-- ===== src/Graph.antt =====
-- Go/internal/graph: the nodes and edges of the graph, its store and the context that fills it.
pub mod Json
pub mod Element
pub mod Marshal
pub mod OpenGraph
pub mod Context
pub mod Emission
mod Tests
