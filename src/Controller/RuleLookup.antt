-- ===== src/Controller/RuleLookup.antt =====
-- The lookup in OPNsense of internal/controller/firewallrule_controller.go.
pub mod Reading
pub mod Phrase
pub mod Missing
use opnsense_operator.Base.{
  String, ◌<>◌, not, List, [], ◌∷◌, Error, ok, err, Sentinel, ◌==◌, string_eq, nat_eq,
  if◌then◌else◌,
}
use opnsense_operator.Text.Number.{decimal}
use opnsense_operator.Api.{FirewallRule}
use opnsense_operator.Runtime.{Env}
use opnsense_operator.Runtime.Monad.{Step, pure}
use opnsense_operator.Runtime.Plain.{◌>>=◌}
use opnsense_operator.Runtime.Errors.{is}
use opnsense_operator.Opnsense.Types.{Client, FirewallRule as ExternalRule}
use opnsense_operator.Opnsense.Rules.{get_rule, search_rule_by_managed_suffix}

-- What `resolveExternalRule` returns: an error, nothing, or the rule with its UUID.
pub data Resolved : Type 0 where
  lookup_failed : Error → Resolved
  missing : Resolved
  found : String → ExternalRule → Resolved

-- The phrase that `resolveExternalRule` searches for.
unfoldable pub search_phrase : FirewallRule → String
search_phrase rule = rule.meta.namespace <> ("/" <> rule.meta.name)

-- `len`, for a message
unfoldable pub count : List String → Prim.Native.Nat.ℕ
count [] = 0
count (x ∷ xs) = Prim.Native.Nat.ℕ.suc (count xs)

module _ (E : Env) where
  -- The cases of `resolveExternalRule` on the number of rules found.
  unfoldable pub pick : Client → String → List String → Step E.State Resolved
  pick c suffix [] = pure missing
  pick c suffix (uuid ∷ []) = do
    existing ← get_rule E c uuid
    elim existing [ err e ↦ pure (lookup_failed e) | ok r ↦ pure (found uuid r) ]
  pick c suffix (u ∷ v ∷ uuids) = pure (
      lookup_failed (
        Error.plain (
          "found "
          <> (decimal (count (u ∷ v ∷ uuids))
              <> (" rules matching managed suffix "
                  <> (E.quote suffix <> ", expected at most 1"))))))

  -- The search of `resolveExternalRule`.
  unfoldable pub resolve_by_suffix : Client → FirewallRule → Step E.State Resolved
  resolve_by_suffix c rule = do
    r ← search_rule_by_managed_suffix E c (search_phrase rule)
    elim r [ err e ↦ pure (lookup_failed e) | ok uuids ↦ pick c (search_phrase rule) uuids ]

  -- `resolveExternalRule`
  unfoldable pub resolve_external_rule : Client → FirewallRule → Step E.State Resolved
  resolve_external_rule c rule = if rule.status.uuid == "" then resolve_by_suffix c rule else do
    existing ← get_rule E c rule.status.uuid
    elim existing [
      | ok r ↦ pure (found rule.status.uuid r)
      | err e ↦
          if not (is e Sentinel.firewall_rule_not_found)
          then pure (lookup_failed e)
          else resolve_by_suffix c rule
    ]
