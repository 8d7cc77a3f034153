-- ===== src/Controller/AliasLookup/Missing.antt =====
-- When the lookup of an alias says that OPNsense has none.
use opnsense_operator.Base.{
  String, ◌<>◌, ◌≡◌, ◌≢◌, ◌⊎◌, inl, inr, none, Error, ok, err, Sentinel, Result-cases, Bool-cases,
  arith, string_eq, true,
}
use opnsense_operator.Text.Trim.{trim_space}
use opnsense_operator.Api.{Alias}
use opnsense_operator.Runtime.{Env, IsForeign}
use opnsense_operator.Runtime.Errors.{is}
use opnsense_operator.Runtime.Monad.{World, get}
use opnsense_operator.Opnsense.Types.{Client}
use opnsense_operator.Opnsense.Transport.{do_json}
use opnsense_operator.Opnsense.Foreign.{unmarshal_foreign}
use opnsense_operator.Opnsense.Decode.{unmarshal, store_only}
use opnsense_operator.Opnsense.Aliases.{read_alias_uuid, get_alias, get_alias_uuid_by_name}
use opnsense_operator.Opnsense.Aliases.Answers.{get_alias_uuid_by_name_own_error}
use opnsense_operator.Controller.AliasLookup.{missing, resolve_by_name, resolve_external_alias}

-- OPNsense was asked for the UUID of this name in the world `w`, and answered with no alias.
abbrev pub NoAlias : (E : Env) → Client → String → World E.State → Type 0
NoAlias E c name w =
    (body : String) × ((do_json E c get ("/api/firewall/alias/getAliasUUID/" <> name) none w).0
      ≡ ok body)
    × (trim_space body ≡ "[]")

module _ (E : Env) (F : IsForeign E) (c : Client) where
  read_alias_uuid-not_found :
      (body : String) (e : Error)
      → read_alias_uuid E body ≡ err e
      → is e Sentinel.alias_not_found ≡ true
      → trim_space body ≡ "[]"
  unfolding read_alias_uuid is
  read_alias_uuid-not_found body e h own = elim (string_eq.dec (trim_space body) "[]") [
    | yes p ↦ p
    | no differ ↦
        elim (Result-cases
          (unmarshal E "struct { UUID string }" (store_only "uuid") "" (trim_space body))) [
            | inl (uuid, p) ↦ absurd (ground arith)
            | inr (e', p) ↦ absurd (
                ground (
                  arith,
                  unmarshal_foreign E F "struct { UUID string }" (store_only "uuid") ""
                      (trim_space body) e' Sentinel.alias_not_found p,
                ))
          ]
  ]

  resolve_by_name-missing :
      (name : String) (w : World E.State)
      → (resolve_by_name E c name w).0 ≡ missing
      → NoAlias E c name w
  unfolding resolve_by_name
  resolve_by_name-missing name w h = elim (Result-cases (get_alias_uuid_by_name E c name w).0) [
    | inl (uuid, p) ↦
        absurd (elim (Result-cases (get_alias E c uuid (get_alias_uuid_by_name E c name w).1).0) [
          | inl (a, q) ↦ ground arith
          | inr (e, q) ↦ ground arith
        ])
    | inr (e, p) ↦ elim (Bool-cases (is e Sentinel.alias_not_found)) [
      | inr other ↦ absurd (ground arith)
      | inl own ↦
          let (body, q, r) =
            get_alias_uuid_by_name_own_error E c F name w e Sentinel.alias_not_found p own in
          (body, q, read_alias_uuid-not_found body e r own)
    ]
  ]

  resolve_world-stale :
      (alias : Alias) (w : World E.State)
      → (resolve_external_alias E c alias w).0 ≡ missing
      → ((alias.status.uuid ≡ "") × ((resolve_by_name E c alias.spec.name w).0 ≡ missing))
        ⊎ ((alias.status.uuid ≢ "")
            × ((resolve_by_name E c alias.spec.name (get_alias E c alias.status.uuid w).1).0
                ≡ missing))
  unfolding resolve_external_alias
  resolve_world-stale alias w h = elim (string_eq.dec alias.status.uuid "") [
    | yes p ↦ inl (p, ground arith)
    | no p ↦ elim (Result-cases (get_alias E c alias.status.uuid w).0) [
      | inl (a, q) ↦ absurd (ground arith)
      | inr (e, q) ↦ elim (Bool-cases (is e Sentinel.alias_not_found)) [
        | inl own ↦ inr (p, ground arith)
        | inr other ↦ absurd (ground arith)
      ]
    ]
  ]

  -- Where no error from outside is one of the package's own, an alias counts as missing only if
  -- OPNsense, asked for the UUID of its name, has answered with "[]", white space apart: at once
  -- where the status has no UUID, and else behind the lookup by UUID. No failure of the network or
  -- of a decoding leads to a creation.
  pub resolve_external_alias-missing :
      (alias : Alias) (w : World E.State)
      → (resolve_external_alias E c alias w).0 ≡ missing
      → ((alias.status.uuid ≡ "") × NoAlias E c alias.spec.name w)
        ⊎ ((alias.status.uuid ≢ "")
            × NoAlias E c alias.spec.name (get_alias E c alias.status.uuid w).1)
  resolve_external_alias-missing alias w h = elim (resolve_world-stale alias w h) [
    | inl (new, p) ↦ inl (new, resolve_by_name-missing alias.spec.name w p)
    | inr (old, p) ↦
        inr (old, resolve_by_name-missing alias.spec.name (get_alias E c alias.status.uuid w).1 p)
  ]
