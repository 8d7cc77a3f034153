-- ===== src/Api/AliasTypes.antt =====
-- api/v1alpha1/alias_types.go
use opnsense_operator.Base.{ℕ, String, Bool, List}
use opnsense_operator.Api.Meta.{ObjectMeta, Condition, ConnectionReference}

pub record AliasSpec : Type 0 where
  pub connection_ref : ConnectionReference
  pub name : String
  pub type : String
  pub entries : List String
  pub description : String
  pub enabled : Bool

pub record AliasStatus : Type 0 where
  pub uuid : String
  pub observed_generation : ℕ
  pub conditions : List Condition

pub record Alias : Type 0 where
  pub meta : ObjectMeta
  pub spec : AliasSpec
  pub status : AliasStatus
