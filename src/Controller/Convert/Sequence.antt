-- ===== src/Controller/Convert/Sequence.antt =====
-- The sequence in the drift test of rules.
use opnsense_operator.Base.{String, ◌≡◌, ◌↔◌, refl, false, some}
use opnsense_operator.Text.Number.{ℤ}
use opnsense_operator.Text.Number.RoundTrip.{decimal_int_inj}
use opnsense_operator.Api.{FirewallRuleSpec}
use opnsense_operator.Controller.Convert.{spec_to_rule, rule_needs_update}
use opnsense_operator.Controller.Convert.Drift.{rule_needs_update_iff}

-- A rule that OPNsense holds as one spec asks for it needs no update for a spec that differs in the
-- sequence alone exactly if the sequences are the same number, whatever its sign and size.
pub rule_needs_update-sequence :
    (spec : FirewallRuleSpec) (namespace name : String) (m n : ℤ)
    → let held = spec_to_rule (record spec { sequence = some m }) namespace name in
      (rule_needs_update (record spec { sequence = some n }) namespace name held ≡ false) ↔ (m ≡ n)
unfolding spec_to_rule
rule_needs_update-sequence spec namespace name m n =
    let held = spec_to_rule (record spec { sequence = some m }) namespace name in
    let wanted = record spec { sequence = some n } in
    let test = rule_needs_update_iff wanted namespace name held in
    (λ h. decimal_int_inj m n ((test.0 h).1 n refl), λ p. test.1 (refl, λ k q. cc))
