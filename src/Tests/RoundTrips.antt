-- ===== src/Tests/RoundTrips.antt =====
-- What the operator writes to OPNsense and reads back, on one alias and one rule.
use opnsense_operator.Base.{
  String, ◌≡◌, ◌≢◌, refl, true, false, some, [], ◌∷◌, ok, inl, string_eq, nat_eq, ap,
}
use opnsense_operator.Base.Dict.{insert, Dict}
use opnsense_operator.Text.{join}
use opnsense_operator.Text.Trim.{trim_space}
use opnsense_operator.Text.Number.{pos, decimal_int, parse_int}
use opnsense_operator.Text.Escape.{names_field}
use opnsense_operator.Json.{
  store_string, store_int, store_fields, store_struct, store_entries, store_map,
}
use opnsense_operator.Api.{AliasSpec}
use opnsense_operator.Runtime.{Env, IsRange}
use opnsense_operator.Opnsense.Types.{Alias, FirewallRule}
use opnsense_operator.Opnsense.Payload.{
  alias_request, encode_alias, encode_firewall_rule, bool_to_str, omit_empty,
}
use opnsense_operator.Opnsense.RuleDecode.{SelectEntry, selected_key, store_select}
use opnsense_operator.Opnsense.RuleDecode.Selected.{IsChoice, selected_key-IsChoice}
use opnsense_operator.Opnsense.Aliases.{read_alias}
use opnsense_operator.Opnsense.Aliases.RoundTrip.{
  exported_fields, export_members, export_document, read_alias-export,
}
use opnsense_operator.Opnsense.Rules.{read_rule, starts_array}
use opnsense_operator.Opnsense.Rules.RoundTrip.{
  Options, Shows, ShowsAll, rule_document as shown_document, read_rule-shown,
}
use opnsense_operator.Controller.Convert.{
  spec_to_alias, alias_needs_update, spec_to_rule, managed_suffix,
}
use opnsense_operator.Controller.Convert.Cleared.{after_update, cleared_description-stays}
use opnsense_operator.Controller.Convert.Drift.{AgreesOnSequence}
use opnsense_operator.Tests.Objects.{
  web_alias, web_alias_spec, web_rule, web_rule_spec, alias_document, rule_document, chosen,
}
use opnsense_operator.Tests.Cluster.{cluster, parse_in, print}
use mathlib.Core.List.{mem-cons, mem-cons_self, not-mem-nil}
use mathlib.Core.Logic.Or
use std.HLevel.{hedberg}
use mathlib.Core.List.Perm
use mathlib.Core.Option.{bind}

abbrev E : Env
E = cluster web_alias web_rule

cluster-IsRange : IsRange E
unfolding cluster
cluster-IsRange = record { range-perm = λ m. Perm.refl m }

abbrev sent_alias : Alias
sent_alias = spec_to_alias web_alias_spec

parsed_alias : E.parse (print alias_document) ≡ ok (export_document "a1" (encode_alias sent_alias))
unfolding cluster parse_in string_eq encode_alias bool_to_str omit_empty spec_to_alias join
parsed_alias = refl

named : sent_alias.name ≢ ""
unfolding spec_to_alias
named = λ p. absurd (cc)

typed : sent_alias.type ≢ ""
unfolding spec_to_alias
typed = λ p. absurd (cc)

read_alias-export_example : read_alias E "a1" (print alias_document) ≡ ok sent_alias
read_alias-export_example =
    read_alias-export E sent_alias "a1" (print alias_document) named typed parsed_alias

-- A spec that clears the description; the server holds the alias with the one that it had.
abbrev cleared : AliasSpec
cleared = record web_alias_spec { description = "" }

parsed_update :
    E.parse (print alias_document)
    ≡ ok (
        export_members "a1" (
          after_update
            (alias_request (encode_alias (spec_to_alias cleared)))
            (exported_fields (encode_alias sent_alias))))
unfolding cluster parse_in string_eq encode_alias bool_to_str omit_empty spec_to_alias join
    alias_request
parsed_update = refl

described : sent_alias.description ≢ ""
unfolding spec_to_alias
described = λ p. absurd (cc)

cleared_description-stays_example :
    let existing = record (spec_to_alias cleared) { description = sent_alias.description } in
    (read_alias E "a1" (print alias_document) ≡ ok existing)
    × (alias_needs_update cleared existing ≡ true)
cleared_description-stays_example =
    cleared_description-stays E cleared sent_alias "a1" (print alias_document) (λ p. absurd (cc))
      (λ p. absurd (cc)) refl described parsed_update

-- The options of `chosen`.
abbrev selection : String → Dict SelectEntry
selection key = (key, record { value = key; selected = pos 1 }) ∷ []

selection-IsChoice : (key : String) → IsChoice key (selection key)
unfolding nat_eq
selection-IsChoice key = record {
  entry = record { value = key; selected = pos 1 };
  there = mem-cons_self;
  selected = refl;
  only = λ j e there p.
      Or.elim (hedberg string_eq.dec j key) (mem-cons.0 there)
        (λ same. ap (λ (x : String × SelectEntry). x.0) same)
        (λ behind. absurd (not-mem-nil behind));
}

shows : (key : String) → Shows key (chosen key)
unfolding store_select store_map store_entries store_struct store_fields store_string store_int
    names_field insert bind parse_int
shows key = record { entries = selection key; stored = refl; chosen = inl (selection-IsChoice key) }

abbrev pub options : Options
options = record {
  action = chosen "pass";
  interface = chosen "wan";
  direction = chosen "in";
  ip_protocol = chosen "inet";
  protocol = chosen "TCP";
}

abbrev sent_rule : FirewallRule
sent_rule = spec_to_rule web_rule_spec "default" "web"

pub shows_all : ShowsAll sent_rule options
unfolding spec_to_rule
shows_all = record {
  action = shows "pass";
  interface = shows "wan";
  direction = shows "in";
  ip_protocol = shows "inet";
  protocol = shows "TCP";
}

is_object : starts_array (trim_space (print rule_document)) ≡ false
unfolding starts_array trim_space nat_eq
is_object = refl

parsed_rule :
    E.parse (trim_space (print rule_document))
    ≡ ok (shown_document options "10" (encode_firewall_rule sent_rule))
unfolding cluster parse_in string_eq trim_space encode_firewall_rule bool_to_str spec_to_rule
    managed_suffix nat_eq
parsed_rule = refl

agrees : AgreesOnSequence web_rule_spec (record sent_rule { sequence = "10" })
unfolding decimal_int
agrees n p = cc

selected_key-IsChoice_example : selected_key E (some (selection "wan")) ≡ "wan"
selected_key-IsChoice_example =
    selected_key-IsChoice E cluster-IsRange "wan" (selection "wan") (selection-IsChoice "wan")

read_rule-shown_example :
    read_rule E (print rule_document) ≡ ok (record sent_rule { sequence = "10" })
read_rule-shown_example =
    read_rule-shown E cluster-IsRange sent_rule options "10" (print rule_document) shows_all
      is_object parsed_rule
