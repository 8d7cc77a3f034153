-- ===== src/Controller/AliasLookup.antt =====
-- The lookup in OPNsense of internal/controller/alias_controller.go.
pub mod Reading
pub mod Missing
use opnsense_operator.Base.{
  String, not, Error, ok, err, Sentinel, ◌==◌, string_eq, nat_eq, if◌then◌else◌,
}
use opnsense_operator.Api.{Alias}
use opnsense_operator.Runtime.{Env}
use opnsense_operator.Runtime.Monad.{Step, pure}
use opnsense_operator.Runtime.Plain.{◌>>=◌}
use opnsense_operator.Runtime.Errors.{is}
use opnsense_operator.Opnsense.Types.{Client, Alias as ExternalAlias}
use opnsense_operator.Opnsense.Aliases.{get_alias, get_alias_uuid_by_name}

-- What `resolveExternalAlias` returns: an error, nothing, or the alias with its UUID.
pub data Resolved : Type 0 where
  lookup_failed : Error → Resolved
  missing : Resolved
  found : String → ExternalAlias → Resolved

module _ (E : Env) where
  -- The lookup by name of `resolveExternalAlias`.
  unfoldable pub resolve_by_name : Client → String → Step E.State Resolved
  resolve_by_name c name = do
    r ← get_alias_uuid_by_name E c name
    elim r [
      | err e ↦ pure (if is e Sentinel.alias_not_found then missing else lookup_failed e)
      | ok uuid ↦ do
        existing ← get_alias E c uuid
        elim existing [ err e ↦ pure (lookup_failed e) | ok a ↦ pure (found uuid a) ]
    ]

  -- `resolveExternalAlias`
  unfoldable pub resolve_external_alias : Client → Alias → Step E.State Resolved
  resolve_external_alias c alias =
      if alias.status.uuid == "" then resolve_by_name c alias.spec.name else do
        existing ← get_alias E c alias.status.uuid
        elim existing [
          | ok a ↦ pure (found alias.status.uuid a)
          | err e ↦
              if not (is e Sentinel.alias_not_found)
              then pure (lookup_failed e)
              else resolve_by_name c alias.spec.name
        ]
