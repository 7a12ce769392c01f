-- ===== src/Findings.antt =====
-- Findings: their vocabulary, the merge of repeated ones, and the risk report.
pub mod Separators
pub mod Taxonomy
mod Blanks
mod Spelling
pub mod Dedup
pub mod DiffLines
mod Anchors
mod DiffTests
mod Survivors
mod Coverage
mod Risk
mod RiskTotals
mod RiskGrowth
mod Tests
