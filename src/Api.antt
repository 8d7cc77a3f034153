-- ===== src/Api.antt =====
-- The resources of api/v1alpha1, and what the operator reads of Kubernetes' own types. Kubernetes'
-- generations count from 1 and are only copied and compared, so they are natural numbers.
mod ConnectionTypes
mod AliasTypes
mod FirewallRuleTypes
mod Meta
mod Group
pub use Meta.{
  Key, Condition, condition_true, condition_false, ObjectMeta, Secret, SecretReference,
  ConnectionReference, is_zero,
}
pub use ConnectionTypes.{
  CredentialsSpec, TlsSpec, ConnectionSpec, ConnectionStatus, OpnsenseConnection,
}
pub use Group.{GroupVersion, scheme_group_version}
pub use AliasTypes.{AliasSpec, AliasStatus, Alias}
pub use FirewallRuleTypes.{FirewallRuleEndpoint, FirewallRuleSpec, FirewallRuleStatus, FirewallRule}
