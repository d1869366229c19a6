-- ===== src/Scope.antt =====
-- The per-application rules.
pub mod AppHash
pub mod Rules
pub mod RulesLoader
pub mod Listener
