-- ===== src/Controller/Convert/Drift.antt =====
-- What the drift tests of the two reconcilers mean.
use opnsense_operator.Base.{
  String, ◌≡◌, ◌↔◌, inl, inr, false, some, arith, Option-cases, Bool-cases,
}
use opnsense_operator.Text.Number.{ℤ, decimal_int}
use opnsense_operator.Api.{AliasSpec, FirewallRuleSpec}
use opnsense_operator.Opnsense.Types.{Alias, FirewallRule}
use opnsense_operator.Controller.Convert.{
  alias_needs_update, spec_to_alias, spec_to_rule, fields_differ, rule_needs_update,
}

-- No update of an alias is needed exactly when OPNsense holds what the spec asks for, the name
-- apart: the test does not look at the name.
pub alias_needs_update_iff :
    (spec : AliasSpec) (existing : Alias)
    → (alias_needs_update spec existing ≡ false)
      ↔ (existing ≡ record (spec_to_alias spec) { name = existing.name })
unfolding alias_needs_update spec_to_alias
alias_needs_update_iff spec existing = (λ h. ground arith, λ h. ground arith)

fields_differ-false :
    (d e : FirewallRule) → fields_differ d e ≡ false → e ≡ record d { sequence = e.sequence }
unfolding fields_differ
fields_differ-false d e h = ground arith

fields_differ_self :
    (d : FirewallRule) (s : String) → fields_differ d (record d { sequence = s }) ≡ false
unfolding fields_differ
fields_differ_self d s = ground arith

-- The sequence is compared only where the spec sets it.
abbrev pub AgreesOnSequence : FirewallRuleSpec → FirewallRule → Type 0
AgreesOnSequence spec existing =
    (n : ℤ) → spec.sequence ≡ some n → existing.sequence ≡ decimal_int n

sequence_test :
    (spec : FirewallRuleSpec) (namespace name : String) (existing : FirewallRule)
    → fields_differ (spec_to_rule spec namespace name) existing ≡ false
    → (rule_needs_update spec namespace name existing ≡ false) ↔ AgreesOnSequence spec existing
unfolding rule_needs_update spec_to_rule
sequence_test spec namespace name existing p = elim (Option-cases spec.sequence) [
  | inl q ↦ (λ h n e. absurd (cc), λ a. ground arith)
  | inr (m, q) ↦ (λ h n e. ground arith, λ a. ground (arith, a m))
]

rule_needs_update-fields :
    (spec : FirewallRuleSpec) (namespace name : String) (existing : FirewallRule)
    → rule_needs_update spec namespace name existing ≡ false
    → fields_differ (spec_to_rule spec namespace name) existing ≡ false
unfolding rule_needs_update
rule_needs_update-fields spec namespace name existing h =
    elim (Bool-cases (fields_differ (spec_to_rule spec namespace name) existing)) [
      | inl p ↦ absurd (ground arith)
      | inr p ↦ p
    ]

-- No update of a rule is needed exactly when OPNsense holds what the spec asks for in every
-- managed field, the sequence among them where the spec sets one.
pub rule_needs_update_iff :
    (spec : FirewallRuleSpec) (namespace name : String) (existing : FirewallRule)
    → (rule_needs_update spec namespace name existing ≡ false) ↔ (
        (existing ≡ record (spec_to_rule spec namespace name) { sequence = existing.sequence })
        × AgreesOnSequence spec existing)
rule_needs_update_iff spec namespace name existing = (
  λ h.
      let p = rule_needs_update-fields spec namespace name existing h in
      (fields_differ-false _ _ p, (sequence_test spec namespace name existing p).0 h),
  λ (e, a).
      let p : fields_differ (spec_to_rule spec namespace name) existing ≡ false =
        rw e (fields_differ_self (spec_to_rule spec namespace name) existing.sequence) in
      (sequence_test spec namespace name existing p).1 a,
)
