-- ===== src/Controller.antt =====
-- The reconcilers of internal/controller.
pub mod Outcome
pub mod Reading
pub mod Protocol
pub mod Connect
pub mod Convert
pub mod AliasStatus
pub mod AliasLookup
pub mod AliasReconciler
pub mod RuleStatus
pub mod RuleLookup
pub mod RuleReconciler
pub mod ConnectionReconciler
