-- ===== src/Api/ConnectionTypes.antt =====
-- api/v1alpha1/opnsenseconnection_types.go
use opnsense_operator.Base.{String, Bool, Option, List}
use opnsense_operator.Api.Meta.{ObjectMeta, Condition, SecretReference}

pub record CredentialsSpec : Type 0 where
  pub secret_ref : SecretReference

pub record TlsSpec : Type 0 where
  pub insecure_skip_verify : Bool
  pub ca_secret_ref : Option SecretReference

pub record ConnectionSpec : Type 0 where
  pub url : String
  pub credentials : CredentialsSpec
  pub tls : Option TlsSpec

pub record ConnectionStatus : Type 0 where
  pub conditions : List Condition

pub record OpnsenseConnection : Type 0 where
  pub meta : ObjectMeta
  pub spec : ConnectionSpec
  pub status : ConnectionStatus
