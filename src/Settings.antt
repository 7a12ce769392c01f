-- ===== src/Settings.antt =====
-- What a repository configures: services/config.service.ts and services/rules.service.ts.
pub mod Value
pub mod Strings
pub mod Config
pub mod Ceilings
pub mod Rules
pub mod Checks
pub mod Valid
pub mod Counts
pub mod Evaluated
mod Defaults
mod Tests
