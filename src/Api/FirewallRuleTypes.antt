-- ===== src/Api/FirewallRuleTypes.antt =====
-- api/v1alpha1/firewallrule_types.go
use opnsense_operator.Base.{ℕ, String, Bool, Option, List}
use opnsense_operator.Text.Number.{ℤ}
use opnsense_operator.Api.Meta.{ObjectMeta, Condition, ConnectionReference}

pub record FirewallRuleEndpoint : Type 0 where
  pub net : String
  pub not : Bool
  pub port : String

pub record FirewallRuleSpec : Type 0 where
  pub connection_ref : ConnectionReference
  pub enabled : Bool
  pub action : String
  pub direction : String
  pub interface : String
  pub ip_protocol : String
  pub protocol : String
  pub source : FirewallRuleEndpoint
  pub destination : FirewallRuleEndpoint
  pub sequence : Option ℤ
  pub quick : Bool
  pub log : Bool
  pub description : String

pub record FirewallRuleStatus : Type 0 where
  pub uuid : String
  pub sequence : String
  pub observed_generation : ℕ
  pub conditions : List Condition

pub record FirewallRule : Type 0 where
  pub meta : ObjectMeta
  pub spec : FirewallRuleSpec
  pub status : FirewallRuleStatus
