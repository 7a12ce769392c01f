-- ===== src/Context.antt =====
-- The context of a review: services/import-graph.service.ts and services/context-retrieval.service.ts.
pub mod Paths
pub mod Resolve
pub mod Normal
pub mod Walk
pub mod Reached
pub mod Within
pub mod Turns
pub mod Turn
pub mod Known
pub mod Shortest
pub mod Reach
pub mod Graph
pub mod Select
pub mod HopBound
pub mod Selected
pub mod Selection
pub mod Rank
pub mod RankLaws
pub mod RankKept
mod Tests
mod SelectTests
