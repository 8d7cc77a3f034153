-- ===== src/DeepCopy/Structs.antt =====
-- The structs of api/v1alpha1 as they lie in memory: a pointer is an address, and so is a slice,
-- which is the address of its array. Structs that hold neither are those of `Api`.
use opnsense_operator.Base.{ℕ, String, Bool, Option}
use opnsense_operator.Api.{ConnectionReference, CredentialsSpec, FirewallRuleEndpoint}

-- The types of apimachinery that the structs hold, and what lies behind their own pointers.
pub record Foreign : Type 1 where
  pub ObjectMeta : Type 0
  pub ListMeta : Type 0
  pub Condition : Type 0
  pub Pointee : Type 0

-- `nil`, or an address.
abbrev pub Ref : Type 0
Ref = Option ℕ

-- `metav1.TypeMeta`
pub record TypeMeta : Type 0 where
  pub kind : String
  pub api_version : String

pub record AliasSpec : Type 0 where
  pub connection_ref : ConnectionReference
  pub name : String
  pub type : String
  pub entries : Ref
  pub description : String
  pub enabled : Bool

pub record AliasStatus : Type 0 where
  pub uuid : String
  pub observed_generation : ℕ
  pub conditions : Ref

pub record FirewallRuleSpec : Type 0 where
  pub connection_ref : ConnectionReference
  pub enabled : Bool
  pub action : String
  pub direction : String
  pub interface : String
  pub ip_protocol : String
  pub protocol : String
  pub source : FirewallRuleEndpoint
  pub destination : FirewallRuleEndpoint
  pub sequence : Ref
  pub quick : Bool
  pub log : Bool
  pub description : String

pub record FirewallRuleStatus : Type 0 where
  pub uuid : String
  pub sequence : String
  pub observed_generation : ℕ
  pub conditions : Ref

pub record TlsSpec : Type 0 where
  pub insecure_skip_verify : Bool
  pub ca_secret_ref : Ref

pub record ConnectionSpec : Type 0 where
  pub url : String
  pub credentials : CredentialsSpec
  pub tls : Ref

pub record ConnectionStatus : Type 0 where
  pub conditions : Ref

-- The form that `Alias`, `FirewallRule` and `OPNsenseConnection` share.
pub record Object (Meta Spec Status : Type 0) : Type 0 where
  pub type_meta : TypeMeta
  pub meta : Meta
  pub spec : Spec
  pub status : Status

-- The form that their lists share.
pub record ObjectList (Meta : Type 0) : Type 0 where
  pub type_meta : TypeMeta
  pub meta : Meta
  pub items : Ref

abbrev pub Alias : Foreign → Type 0
Alias O = Object O.ObjectMeta AliasSpec AliasStatus

abbrev pub FirewallRule : Foreign → Type 0
FirewallRule O = Object O.ObjectMeta FirewallRuleSpec FirewallRuleStatus

abbrev pub OpnsenseConnection : Foreign → Type 0
OpnsenseConnection O = Object O.ObjectMeta ConnectionSpec ConnectionStatus
