-- ===== src/Tests/Settled.antt =====
-- The reconciles of one alias and of one rule behind the report of a success.
use opnsense_operator.Base.{
  ◌≡◌, refl, true, false, none, some, ok, List, [], ◌∷◌, arith, string_eq, nat_eq, bool_eq,
}
use opnsense_operator.Text.{join}
use opnsense_operator.Text.Trim.{trim_right, is_slash, trim_space}
use opnsense_operator.Text.Escape.{query_escape}
use opnsense_operator.Text.Number.{decimal_int}
use opnsense_operator.Base.Dict.{lookup, get_or}
use opnsense_operator.Api.{Condition, Alias, FirewallRule}
use opnsense_operator.Runtime.{Env, KeepsConditions, IsRange}
use opnsense_operator.Runtime.Monad.{World}
use opnsense_operator.Runtime.Trace.{Extends}
use opnsense_operator.Opnsense.Types.{Client}
use opnsense_operator.Opnsense.Payload.{encode_alias, encode_firewall_rule, bool_to_str, omit_empty}
use opnsense_operator.Opnsense.Transport.{new_client, request}
use opnsense_operator.Opnsense.Transport.Answered.{Answers}
use opnsense_operator.Opnsense.Aliases.RoundTrip.{export_document}
use opnsense_operator.Opnsense.Rules.{starts_array}
use opnsense_operator.Opnsense.Rules.RoundTrip.{rule_document as shown_document}
use opnsense_operator.Controller.Outcome.{is_ready, returns}
use opnsense_operator.Controller.Reading.{IsRead}
use opnsense_operator.Controller.Convert.{spec_to_alias, spec_to_rule, managed_suffix}
use opnsense_operator.Controller.Convert.Drift.{AgreesOnSequence}
use opnsense_operator.Controller.Connect.{
  build_http_client, with_secret, with_connection, build_opnsense_client, built,
}
use opnsense_operator.Controller.AliasStatus.{alias_finalizer}
use opnsense_operator.Controller.RuleStatus.{firewall_rule_finalizer}
use opnsense_operator.Controller.AliasReconciler.{
  reconcile as reconcile_alias, build_client as alias_client,
}
use opnsense_operator.Controller.AliasReconciler.Sync.{
  got_world as alias_got, built_world as alias_built,
}
use opnsense_operator.Controller.AliasReconciler.Settled.{
  reported as reported_alias, export_path, reconcile_reported_alias,
}
use opnsense_operator.Controller.RuleReconciler.{
  reconcile as reconcile_rule, build_client as rule_client, desired,
}
use opnsense_operator.Controller.RuleReconciler.Sync.{
  got_world as rule_got, built_world as rule_built,
}
use opnsense_operator.Controller.RuleReconciler.Settled.{
  reported as reported_rule, rule_path, reconcile_reported_rule,
}
use opnsense_operator.Tests.Objects.{web, web_alias, web_rule, alias_document, rule_document}
use opnsense_operator.Tests.Cluster.{cluster, parse_in, print, answer, contains, find, set}
use opnsense_operator.Tests.RoundTrips.{options, shows_all}
use mathlib.Core.List.Perm

-- The objects as a report left them, and a cluster that holds them.
abbrev written_alias : Alias
unfolding cluster
written_alias = reported_alias (cluster web_alias web_rule) 0 web_alias "a1"

abbrev written_rule : FirewallRule
unfolding cluster
written_rule = reported_rule (cluster web_alias web_rule) 0 web_rule "r1" "10"

abbrev E : Env
unfolding cluster
E = cluster written_alias written_rule

start : World E.State
unfolding cluster
start = record { state = 0; log = [] }

find-set : (cs : List Condition) (c : Condition) → find (set cs c) c.type ≡ some c
unfolding find
find-set [] c = ground arith
find-set (d ∷ cs) c = ground (arith, find-set cs c)

E-KeepsConditions : KeepsConditions E
unfolding cluster
E-KeepsConditions = record { find-set = λ s cs c. (c, find-set cs c, refl) }

abbrev s_0 : E.State
unfolding cluster
s_0 = 0

abbrev object_alias : Alias
object_alias = reported_alias E s_0 web_alias "a1"

abbrev object_rule : FirewallRule
object_rule = reported_rule E s_0 web_rule "r1" "10"

got_alias : (E.get_alias web start.state).0 ≡ ok object_alias
unfolding cluster start
got_alias = refl

got_rule : (E.get_rule web start.state).0 ≡ ok object_rule
unfolding cluster start
got_rule = refl

alias_held : E.contains_finalizer web_alias.meta.finalizers alias_finalizer ≡ true
unfolding cluster contains string_eq
alias_held = refl

rule_held : E.contains_finalizer web_rule.meta.finalizers firewall_rule_finalizer ≡ true
unfolding cluster contains string_eq
rule_held = refl

abbrev client : Client
client = new_client "https://fw.example/" "key" "secret" none

alias_built_client :
    (alias_client E object_alias (alias_got E object_alias web start)).0 ≡ built client
unfolding cluster answer query_escape string_eq nat_eq find contains is_slash trim_right
    build_http_client with_secret with_connection build_opnsense_client is_ready lookup get_or
    new_client request start
alias_built_client = refl

rule_built_client : (rule_client E object_rule (rule_got E object_rule web start)).0 ≡ built client
unfolding cluster answer query_escape string_eq nat_eq find contains is_slash trim_right
    build_http_client with_secret with_connection build_opnsense_client is_ready lookup get_or
    new_client request start
rule_built_client = refl

export-Answers :
    Answers E client
      (export_path "a1")
      (print alias_document)
      (alias_built E object_alias web start).state
unfolding cluster answer query_escape string_eq nat_eq find contains is_slash trim_right
    build_http_client with_secret with_connection build_opnsense_client is_ready lookup get_or
    new_client request start
export-Answers = record {
  valid = refl;
  response = record { status_code = 200; body = ok (print alias_document) };
  answered = refl;
  body = refl;
  success = refl;
}

rule-Answers :
    Answers E client
      (rule_path "r1")
      (print rule_document)
      (rule_built E object_rule web start).state
unfolding cluster answer query_escape string_eq nat_eq find contains is_slash trim_right
    build_http_client with_secret with_connection build_opnsense_client is_ready lookup get_or
    new_client request start
rule-Answers = record {
  valid = refl;
  response = record { status_code = 200; body = ok (print rule_document) };
  answered = refl;
  body = refl;
  success = refl;
}

parsed_alias :
    E.parse (print alias_document)
    ≡ ok (export_document "a1" (encode_alias (spec_to_alias web_alias.spec)))
unfolding cluster parse_in string_eq encode_alias bool_to_str omit_empty spec_to_alias join
parsed_alias = refl

is_object : starts_array (trim_space (print rule_document)) ≡ false
unfolding starts_array trim_space nat_eq
is_object = refl

parsed_rule :
    E.parse (trim_space (print rule_document))
    ≡ ok (shown_document options "10" (encode_firewall_rule (desired E web_rule)))
unfolding cluster parse_in string_eq trim_space encode_firewall_rule bool_to_str spec_to_rule
    managed_suffix nat_eq
parsed_rule = refl

agrees : AgreesOnSequence web_rule.spec (record (desired E web_rule) { sequence = "10" })
unfolding decimal_int
agrees n p = cc

reconcile_reported_alias_example :
    ((reconcile_alias E web start).0 ≡ returns none)
    × Extends IsRead start.log (reconcile_alias E web start).1.log
reconcile_reported_alias_example =
    reconcile_reported_alias E E-KeepsConditions s_0 web_alias "a1" (print alias_document) web start
      client got_alias refl alias_held (λ p. absurd (cc)) (λ p. absurd (cc)) (λ p. absurd (cc))
      alias_built_client export-Answers parsed_alias

E-IsRange : IsRange E
unfolding cluster
E-IsRange = record { range-perm = λ m. Perm.refl m }

reconcile_reported_rule_example :
    ((reconcile_rule E web start).0 ≡ returns none)
    × Extends IsRead start.log (reconcile_rule E web start).1.log
reconcile_reported_rule_example =
    reconcile_reported_rule E E-KeepsConditions E-IsRange s_0 web_rule "r1" "10"
      (print rule_document) options web start client got_rule refl rule_held (λ p. absurd (cc))
      rule_built_client rule-Answers shows_all is_object parsed_rule agrees
