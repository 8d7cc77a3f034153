-- ===== src/Controller/Convert/Settled.antt =====
-- The drift tests on what OPNsense gives back of an object that was written from the same spec.
use opnsense_operator.Base.{String, ◌≡◌, ◌≢◌, refl, false, ok, string_eq}
use opnsense_operator.Api.{AliasSpec, FirewallRuleSpec}
use opnsense_operator.Runtime.{Env, IsRange}
use opnsense_operator.Opnsense.Types.{Alias}
use opnsense_operator.Opnsense.Payload.{encode_alias, encode_firewall_rule}
use opnsense_operator.Opnsense.Aliases.{read_alias}
use opnsense_operator.Opnsense.Aliases.RoundTrip.{export_document, read_alias-export}
use opnsense_operator.Text.Trim.{trim_space}
use opnsense_operator.Opnsense.Rules.{starts_array, read_rule}
use opnsense_operator.Opnsense.Rules.RoundTrip.{Options, ShowsAll, rule_document, read_rule-shown}
use opnsense_operator.Controller.Convert.{
  alias_needs_update, spec_to_alias, spec_to_rule, rule_needs_update,
}
use opnsense_operator.Controller.Convert.Drift.{
  AgreesOnSequence, alias_needs_update_iff, rule_needs_update_iff,
}

-- An alias that was written from a spec with a name and a type, and that OPNsense exports as it was
-- sent, is read, and needs no update: one write is enough.
pub alias_settles :
    (E : Env) (spec : AliasSpec) (uuid text : String)
    → spec.name ≢ ""
    → spec.type ≢ ""
    → E.parse text ≡ ok (export_document uuid (encode_alias (spec_to_alias spec)))
    → (existing : Alias) × (read_alias E uuid text ≡ ok existing)
      × (alias_needs_update spec existing ≡ false)
unfolding spec_to_alias
alias_settles E spec uuid text named typed parsed = (
  spec_to_alias spec,
  read_alias-export E (spec_to_alias spec) uuid text named typed parsed,
  (alias_needs_update_iff spec (spec_to_alias spec)).1 refl,
)

-- A rule that was written from a spec, and that OPNsense shows as it was sent, with the sequence of
-- the spec or, where the spec has none, with any, is read, and needs no update: one write is enough.
pub rule_settles :
    (E : Env) (R : IsRange E) (spec : FirewallRuleSpec) (namespace name : String) (o : Options)
    (sequence text : String)
    → let sent = spec_to_rule spec namespace name in
      ShowsAll sent o
      → starts_array (trim_space text) ≡ false
      → E.parse (trim_space text) ≡ ok (rule_document o sequence (encode_firewall_rule sent))
      → AgreesOnSequence spec (record sent { sequence = sequence })
      → let existing = record sent { sequence = sequence } in
        (read_rule E text ≡ ok existing) × (rule_needs_update spec namespace name existing ≡ false)
rule_settles E R spec namespace name o sequence text shown object parsed agrees =
    let sent = spec_to_rule spec namespace name in
    (
      read_rule-shown E R sent o sequence text shown object parsed,
      (rule_needs_update_iff spec namespace name (record sent { sequence = sequence })).1
          (refl, agrees),
    )
