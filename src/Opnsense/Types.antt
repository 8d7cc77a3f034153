-- ===== src/Opnsense/Types.antt =====
-- The client's own types, internal/opnsense/client.go 25 to 58.
use opnsense_operator.Base.{String, Bool}
use opnsense_operator.Runtime.Monad.{HttpClient}

pub record Client : Type 0 where
  pub base_url : String
  pub api_key : String
  pub api_secret : String
  pub http_client : HttpClient

pub record Alias : Type 0 where
  pub enabled : Bool
  pub name : String
  pub type : String
  pub content : String
  pub description : String

pub record FirewallRule : Type 0 where
  pub enabled : Bool
  pub action : String
  pub interface : String
  pub direction : String
  pub ip_protocol : String
  pub protocol : String
  pub source_net : String
  pub source_not : Bool
  pub source_port : String
  pub destination_net : String
  pub destination_not : Bool
  pub destination_port : String
  pub sequence : String
  pub log : Bool
  pub quick : Bool
  pub description : String
