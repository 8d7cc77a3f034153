-- ===== src/DeepCopy/Memory/Slots.antt =====
-- How the values of each type of api/v1alpha1 are held in memory.
use opnsense_operator.Base.{String, refl, Option, none, some, List}
use opnsense_operator.Text.Number.{ℤ}
use opnsense_operator.Api.{
  SecretReference, ConnectionReference, FirewallRuleEndpoint, CredentialsSpec,
}
use opnsense_operator.DeepCopy.Structs.{
  Foreign, AliasSpec, AliasStatus, FirewallRuleSpec, FirewallRuleStatus, TlsSpec, ConnectionSpec,
  ConnectionStatus, ObjectList, Alias, FirewallRule, OpnsenseConnection,
}
use opnsense_operator.DeepCopy.Memory.{
  Cell, Slot, strings, int32, conditions, secret_reference, connection_reference, endpoint,
  credentials_spec, tls_spec, connection_spec, connection_status, alias_spec, alias_status,
  rule_spec, rule_status, alias, rule, connection, aliases, rules, connections, alias_list,
  rule_list, connection_list,
}

held_strings : {O : Foreign} → Cell O → Option (List String)
held_strings (strings x) = some x
held_strings _ = none

unfoldable pub strings_slot : {O : Foreign} → Slot O (List String)
unfolding held_strings
strings_slot = record { hold = strings; held = held_strings; held-hold = λ x. refl }

held_int32 : {O : Foreign} → Cell O → Option ℤ
held_int32 (int32 x) = some x
held_int32 _ = none

unfoldable pub int32_slot : {O : Foreign} → Slot O ℤ
unfolding held_int32
int32_slot = record { hold = int32; held = held_int32; held-hold = λ x. refl }

held_conditions : {O : Foreign} → Cell O → Option (List O.Condition)
held_conditions (conditions x) = some x
held_conditions _ = none

unfoldable pub conditions_slot : {O : Foreign} → Slot O (List O.Condition)
unfolding held_conditions
conditions_slot = record { hold = conditions; held = held_conditions; held-hold = λ x. refl }

held_secret_reference : {O : Foreign} → Cell O → Option SecretReference
held_secret_reference (secret_reference x) = some x
held_secret_reference _ = none

unfoldable pub secret_reference_slot : {O : Foreign} → Slot O SecretReference
unfolding held_secret_reference
secret_reference_slot = record {
  hold = secret_reference;
  held = held_secret_reference;
  held-hold = λ x. refl;
}

held_connection_reference : {O : Foreign} → Cell O → Option ConnectionReference
held_connection_reference (connection_reference x) = some x
held_connection_reference _ = none

unfoldable pub connection_reference_slot : {O : Foreign} → Slot O ConnectionReference
unfolding held_connection_reference
connection_reference_slot = record {
  hold = connection_reference;
  held = held_connection_reference;
  held-hold = λ x. refl;
}

held_endpoint : {O : Foreign} → Cell O → Option FirewallRuleEndpoint
held_endpoint (endpoint x) = some x
held_endpoint _ = none

unfoldable pub endpoint_slot : {O : Foreign} → Slot O FirewallRuleEndpoint
unfolding held_endpoint
endpoint_slot = record { hold = endpoint; held = held_endpoint; held-hold = λ x. refl }

held_credentials_spec : {O : Foreign} → Cell O → Option CredentialsSpec
held_credentials_spec (credentials_spec x) = some x
held_credentials_spec _ = none

unfoldable pub credentials_spec_slot : {O : Foreign} → Slot O CredentialsSpec
unfolding held_credentials_spec
credentials_spec_slot = record {
  hold = credentials_spec;
  held = held_credentials_spec;
  held-hold = λ x. refl;
}

held_tls_spec : {O : Foreign} → Cell O → Option TlsSpec
held_tls_spec (tls_spec x) = some x
held_tls_spec _ = none

unfoldable pub tls_spec_slot : {O : Foreign} → Slot O TlsSpec
unfolding held_tls_spec
tls_spec_slot = record { hold = tls_spec; held = held_tls_spec; held-hold = λ x. refl }

held_connection_spec : {O : Foreign} → Cell O → Option ConnectionSpec
held_connection_spec (connection_spec x) = some x
held_connection_spec _ = none

unfoldable pub connection_spec_slot : {O : Foreign} → Slot O ConnectionSpec
unfolding held_connection_spec
connection_spec_slot = record {
  hold = connection_spec;
  held = held_connection_spec;
  held-hold = λ x. refl;
}

held_connection_status : {O : Foreign} → Cell O → Option ConnectionStatus
held_connection_status (connection_status x) = some x
held_connection_status _ = none

unfoldable pub connection_status_slot : {O : Foreign} → Slot O ConnectionStatus
unfolding held_connection_status
connection_status_slot = record {
  hold = connection_status;
  held = held_connection_status;
  held-hold = λ x. refl;
}

held_alias_spec : {O : Foreign} → Cell O → Option AliasSpec
held_alias_spec (alias_spec x) = some x
held_alias_spec _ = none

unfoldable pub alias_spec_slot : {O : Foreign} → Slot O AliasSpec
unfolding held_alias_spec
alias_spec_slot = record { hold = alias_spec; held = held_alias_spec; held-hold = λ x. refl }

held_alias_status : {O : Foreign} → Cell O → Option AliasStatus
held_alias_status (alias_status x) = some x
held_alias_status _ = none

unfoldable pub alias_status_slot : {O : Foreign} → Slot O AliasStatus
unfolding held_alias_status
alias_status_slot = record { hold = alias_status; held = held_alias_status; held-hold = λ x. refl }

held_rule_spec : {O : Foreign} → Cell O → Option FirewallRuleSpec
held_rule_spec (rule_spec x) = some x
held_rule_spec _ = none

unfoldable pub rule_spec_slot : {O : Foreign} → Slot O FirewallRuleSpec
unfolding held_rule_spec
rule_spec_slot = record { hold = rule_spec; held = held_rule_spec; held-hold = λ x. refl }

held_rule_status : {O : Foreign} → Cell O → Option FirewallRuleStatus
held_rule_status (rule_status x) = some x
held_rule_status _ = none

unfoldable pub rule_status_slot : {O : Foreign} → Slot O FirewallRuleStatus
unfolding held_rule_status
rule_status_slot = record { hold = rule_status; held = held_rule_status; held-hold = λ x. refl }

held_alias : {O : Foreign} → Cell O → Option (Alias O)
held_alias (alias x) = some x
held_alias _ = none

unfoldable pub alias_slot : {O : Foreign} → Slot O (Alias O)
unfolding held_alias
alias_slot = record { hold = alias; held = held_alias; held-hold = λ x. refl }

held_rule : {O : Foreign} → Cell O → Option (FirewallRule O)
held_rule (rule x) = some x
held_rule _ = none

unfoldable pub rule_slot : {O : Foreign} → Slot O (FirewallRule O)
unfolding held_rule
rule_slot = record { hold = rule; held = held_rule; held-hold = λ x. refl }

held_connection : {O : Foreign} → Cell O → Option (OpnsenseConnection O)
held_connection (connection x) = some x
held_connection _ = none

unfoldable pub connection_slot : {O : Foreign} → Slot O (OpnsenseConnection O)
unfolding held_connection
connection_slot = record { hold = connection; held = held_connection; held-hold = λ x. refl }

held_aliases : {O : Foreign} → Cell O → Option (List (Alias O))
held_aliases (aliases x) = some x
held_aliases _ = none

unfoldable pub aliases_slot : {O : Foreign} → Slot O (List (Alias O))
unfolding held_aliases
aliases_slot = record { hold = aliases; held = held_aliases; held-hold = λ x. refl }

held_rules : {O : Foreign} → Cell O → Option (List (FirewallRule O))
held_rules (rules x) = some x
held_rules _ = none

unfoldable pub rules_slot : {O : Foreign} → Slot O (List (FirewallRule O))
unfolding held_rules
rules_slot = record { hold = rules; held = held_rules; held-hold = λ x. refl }

held_connections : {O : Foreign} → Cell O → Option (List (OpnsenseConnection O))
held_connections (connections x) = some x
held_connections _ = none

unfoldable pub connections_slot : {O : Foreign} → Slot O (List (OpnsenseConnection O))
unfolding held_connections
connections_slot = record { hold = connections; held = held_connections; held-hold = λ x. refl }

held_alias_list : {O : Foreign} → Cell O → Option (ObjectList O.ListMeta)
held_alias_list (alias_list x) = some x
held_alias_list _ = none

unfoldable pub alias_list_slot : {O : Foreign} → Slot O (ObjectList O.ListMeta)
unfolding held_alias_list
alias_list_slot = record { hold = alias_list; held = held_alias_list; held-hold = λ x. refl }

held_rule_list : {O : Foreign} → Cell O → Option (ObjectList O.ListMeta)
held_rule_list (rule_list x) = some x
held_rule_list _ = none

unfoldable pub rule_list_slot : {O : Foreign} → Slot O (ObjectList O.ListMeta)
unfolding held_rule_list
rule_list_slot = record { hold = rule_list; held = held_rule_list; held-hold = λ x. refl }

held_connection_list : {O : Foreign} → Cell O → Option (ObjectList O.ListMeta)
held_connection_list (connection_list x) = some x
held_connection_list _ = none

unfoldable pub connection_list_slot : {O : Foreign} → Slot O (ObjectList O.ListMeta)
unfolding held_connection_list
connection_list_slot = record {
  hold = connection_list;
  held = held_connection_list;
  held-hold = λ x. refl;
}
