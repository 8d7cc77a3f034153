-- ===== src/Opnsense.antt =====
-- The client of the OPNsense API, internal/opnsense/client.go.
pub mod Types
pub mod Payload
pub mod Decode
pub mod RuleDecode
pub mod Transport
pub mod Foreign
pub mod Aliases
pub mod Rules
