-- ===== src/Controller/Convert.antt =====
-- The conversion of specs to the client's types, and the comparison with what OPNsense holds.
pub mod Drift
pub mod Suffix
pub mod Settled
pub mod Cleared
pub mod Sequence
use opnsense_operator.Base.{
  String, ◌<>◌, Bool, true, false, ◌||◌, none, some, ◌!=◌, string_eq, bool_eq, if◌then◌else◌,
}
use opnsense_operator.Text.{join}
use opnsense_operator.Text.Trim.{trim_space}
use opnsense_operator.Text.Number.{decimal_int}
use opnsense_operator.Api.{AliasSpec, FirewallRuleSpec}
use opnsense_operator.Opnsense.Types.{Alias, FirewallRule}

unfoldable pub alias_needs_update : AliasSpec → Alias → Bool
alias_needs_update spec existing =
    spec.enabled != existing.enabled
    || spec.type != existing.type
    || spec.description != existing.description
    || join spec.entries "\n" != existing.content

unfoldable pub spec_to_alias : AliasSpec → Alias
spec_to_alias spec = record {
  enabled = spec.enabled;
  name = spec.name;
  type = spec.type;
  content = join spec.entries "\n";
  description = spec.description;
}

unfoldable pub managed_suffix : String → String → String
managed_suffix namespace name = "[opnsense-operator:" <> (namespace <> ("/" <> (name <> "]")))

unfoldable pub spec_to_rule : FirewallRuleSpec → String → String → FirewallRule
spec_to_rule spec namespace name = record {
  enabled = spec.enabled;
  action = spec.action;
  interface = spec.interface;
  direction = spec.direction;
  ip_protocol = spec.ip_protocol;
  protocol = spec.protocol;
  source_net = spec.source.net;
  source_not = spec.source.not;
  source_port = spec.source.port;
  destination_net = spec.destination.net;
  destination_not = spec.destination.not;
  destination_port = spec.destination.port;
  sequence = elim spec.sequence [ none ↦ "" | some n ↦ decimal_int n ];
  log = spec.log;
  quick = spec.quick;
  description = trim_space (spec.description <> (" " <> managed_suffix namespace name));
}

-- The long test of `ruleNeedsUpdate`: every managed field but the sequence.
unfoldable pub fields_differ : FirewallRule → FirewallRule → Bool
fields_differ desired existing =
    desired.enabled != existing.enabled
    || desired.action != existing.action
    || desired.interface != existing.interface
    || desired.direction != existing.direction
    || desired.ip_protocol != existing.ip_protocol
    || desired.protocol != existing.protocol
    || desired.source_net != existing.source_net
    || desired.source_not != existing.source_not
    || desired.source_port != existing.source_port
    || desired.destination_net != existing.destination_net
    || desired.destination_not != existing.destination_not
    || desired.destination_port != existing.destination_port
    || desired.log != existing.log
    || desired.quick != existing.quick
    || desired.description != existing.description

unfoldable pub rule_needs_update : FirewallRuleSpec → String → String → FirewallRule → Bool
rule_needs_update spec namespace name existing =
    let desired = spec_to_rule spec namespace name in
    if fields_differ desired existing
    then true
    else elim spec.sequence [ none ↦ false | some n ↦ desired.sequence != existing.sequence ]
