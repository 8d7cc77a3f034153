-- ===== src/Controller/AliasLookup/Reading.antt =====
-- The lookup of an alias in OPNsense, by the calls that it makes.
use opnsense_operator.Base.{
  String, ◌<>◌, ◌≡◌, inl, inr, Error, ok, err, Sentinel, Result-cases, Bool-cases, arith, string_eq,
  ◌≢◌, ◌⊎◌,
}
use opnsense_operator.Text.Escape.{query_escape}
use opnsense_operator.Api.{Alias}
use opnsense_operator.Runtime.{Env}
use opnsense_operator.Runtime.Errors.{is}
use opnsense_operator.Runtime.Monad.{World}
use opnsense_operator.Runtime.Trace.{Extends, Extends-trans, Extends-mono}
use opnsense_operator.Opnsense.Types.{Client}
use opnsense_operator.Opnsense.Aliases.{get_alias, get_alias_uuid_by_name}
use opnsense_operator.Opnsense.Aliases.Requests.{get_alias-Extends, get_alias_uuid_by_name-Extends}
use opnsense_operator.Controller.Reading.{IsRead, Sends-Asks, Asks-IsRead}
use opnsense_operator.Controller.Protocol.{Asks}
use opnsense_operator.Controller.AliasLookup.{resolve_by_name, resolve_external_alias}

module _ (E : Env) (c : Client) where
  get_alias-Asks :
      (uuid : String) (w : World E.State) → Extends (Asks c) w.log (get_alias E c uuid w).1.log
  get_alias-Asks uuid w =
      Extends-mono (Sends-Asks c ("/api/firewall/alias/export?ids=" <> query_escape uuid))
        (get_alias-Extends E c uuid w)

  get_alias_uuid_by_name-Asks :
      (name : String) (w : World E.State)
      → Extends (Asks c) w.log (get_alias_uuid_by_name E c name w).1.log
  get_alias_uuid_by_name-Asks name w =
      Extends-mono (Sends-Asks c ("/api/firewall/alias/getAliasUUID/" <> name))
        (get_alias_uuid_by_name-Extends E c name w)

  resolve_by_name_world-ok :
      (name : String) (w : World E.State) (uuid : String)
      → (get_alias_uuid_by_name E c name w).0 ≡ ok uuid
      → (resolve_by_name E c name w).1
        ≡ (get_alias E c uuid (get_alias_uuid_by_name E c name w).1).1
  unfolding resolve_by_name
  resolve_by_name_world-ok name w uuid p = ground arith

  resolve_by_name_world-err :
      (name : String) (w : World E.State) (e : Error)
      → (get_alias_uuid_by_name E c name w).0 ≡ err e
      → (resolve_by_name E c name w).1 ≡ (get_alias_uuid_by_name E c name w).1
  unfolding resolve_by_name
  resolve_by_name_world-err name w e p = ground arith

  pub resolve_by_name-Asks :
      (name : String) (w : World E.State)
      → Extends (Asks c) w.log (resolve_by_name E c name w).1.log
  resolve_by_name-Asks name w = elim (Result-cases (get_alias_uuid_by_name E c name w).0) [
    | inl (uuid, p) ↦ rw (resolve_by_name_world-ok name w uuid p) (
        Extends-trans (get_alias_uuid_by_name-Asks name w)
          (get_alias-Asks uuid (get_alias_uuid_by_name E c name w).1))
    | inr (e, p) ↦ rw (resolve_by_name_world-err name w e p) (get_alias_uuid_by_name-Asks name w)
  ]

  module _ (alias : Alias) (w : World E.State) where
    abbrev by_uuid : World E.State
    by_uuid = (get_alias E c alias.status.uuid w).1

    resolve_world-new :
        alias.status.uuid ≡ ""
        → (resolve_external_alias E c alias w).1 ≡ (resolve_by_name E c alias.spec.name w).1
    unfolding resolve_external_alias
    resolve_world-new p = ground arith

    resolve_world-old :
        alias.status.uuid ≢ ""
        → ((resolve_external_alias E c alias w).1 ≡ by_uuid)
          ⊎ ((resolve_external_alias E c alias w).1
              ≡ (resolve_by_name E c alias.spec.name by_uuid).1)
    unfolding resolve_external_alias
    resolve_world-old p = elim (Result-cases (get_alias E c alias.status.uuid w).0) [
      | inl (a, q) ↦ inl (ground arith)
      | inr (e, q) ↦ elim (Bool-cases (is e Sentinel.alias_not_found)) [
        | inl own ↦ inr (ground arith)
        | inr other ↦ inl (ground arith)
      ]
    ]

    -- Looking it up sends GET requests of this client.
    pub resolve_external_alias-Asks :
        Extends (Asks c) w.log (resolve_external_alias E c alias w).1.log
    resolve_external_alias-Asks = elim (string_eq.dec alias.status.uuid "") [
      | yes p ↦ rw (resolve_world-new p) (resolve_by_name-Asks alias.spec.name w)
      | no p ↦ elim (resolve_world-old p) [
        | inl q ↦ rw q (get_alias-Asks alias.status.uuid w)
        | inr q ↦ rw q (
            Extends-trans (get_alias-Asks alias.status.uuid w)
              (resolve_by_name-Asks alias.spec.name by_uuid))
      ]
    ]

    -- Looking an alias up sends GET requests and nothing else.
    pub resolve_external_alias-IsRead :
        Extends IsRead w.log (resolve_external_alias E c alias w).1.log
    resolve_external_alias-IsRead = Extends-mono (Asks-IsRead c) resolve_external_alias-Asks
