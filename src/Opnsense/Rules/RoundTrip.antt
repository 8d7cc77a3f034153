-- ===== src/Opnsense/Rules/RoundTrip.antt =====
-- A rule that is sent to OPNsense and read back from a response of getRule.
use opnsense_operator.Base.{String, ◌≡◌, ◌⊎◌, inl, inr, refl, false, some, none, ok, string_eq}
use opnsense_operator.Base.Dict.{Dict}
use mathlib.Core.Option.{bind}
use opnsense_operator.Text.Trim.{trim_space}
use opnsense_operator.Text.Escape.{names_field}
use opnsense_operator.Json.{
  Json, Fields, str, obj, field, end, store_string, store_fields, store_struct,
}
use opnsense_operator.Runtime.{Env, IsRange}
use opnsense_operator.Opnsense.Types.{FirewallRule}
use opnsense_operator.Opnsense.Payload.{FirewallRulePayload, encode_firewall_rule}
use opnsense_operator.Opnsense.Payload.Flags.{read_flag}
use opnsense_operator.Opnsense.Decode.{unmarshal}
use opnsense_operator.Opnsense.RuleDecode.{
  SelectEntry, RuleResponse, empty_rule, store_select, store_rule, selected_key,
}
use opnsense_operator.Opnsense.RuleDecode.Selected.{
  IsChoice, IsUnset, selected_key-IsChoice, selected_key-IsUnset,
}
use opnsense_operator.Opnsense.Rules.{starts_array, from_response, read_rule}

-- The option maps that OPNsense gives for the select fields.
pub record Options : Type 0 where
  pub action : Json
  pub interface : Json
  pub direction : Json
  pub ip_protocol : Json
  pub protocol : Json

-- The members of a rule in a response: option maps, and the other members as they were sent.
abbrev pub rule_fields : Options → String → FirewallRulePayload → Fields
rule_fields o sequence p = field "enabled" (str p.enabled) (
    field "sequence" (str sequence) (
      field "action" o.action (
        field "interface" o.interface (
          field "direction" o.direction (
            field "ipprotocol" o.ip_protocol (
              field "protocol" o.protocol (
                field "source_net" (str p.source_net) (
                  field "source_not" (str p.source_not) (
                    field "source_port" (str p.source_port) (
                      field "destination_net" (str p.destination_net) (
                        field "destination_not" (str p.destination_not) (
                          field "destination_port" (str p.destination_port) (
                            field "log" (str p.log) (
                              field "quick" (str p.quick)
                                (field "description" (str p.description) end)))))))))))))))

abbrev pub rule_document : Options → String → FirewallRulePayload → Json
rule_document o sequence p = obj (field "rule" (obj (rule_fields o sequence p)) end)

-- An option map shows `k`: its one selected entry has this key, or `k` is empty and none is.
pub record Shows (k : String) (j : Json) : Type 0 where
  pub entries : Dict SelectEntry
  pub stored : store_select j none ≡ some (some entries)
  pub chosen : IsChoice k entries ⊎ ((k ≡ "") × IsUnset entries)

pub record ShowsAll (rule : FirewallRule) (o : Options) : Type 0 where
  pub action : Shows rule.action o.action
  pub interface : Shows rule.interface o.interface
  pub direction : Shows rule.direction o.direction
  pub ip_protocol : Shows rule.ip_protocol o.ip_protocol
  pub protocol : Shows rule.protocol o.protocol

response : (rule : FirewallRule) (o : Options) → ShowsAll rule o → String → RuleResponse
response rule o s sequence =
    let p = encode_firewall_rule rule in
    record {
      enabled = p.enabled;
      sequence = sequence;
      action = some s.action.entries;
      interface = some s.interface.entries;
      direction = some s.direction.entries;
      ip_protocol = some s.ip_protocol.entries;
      protocol = some s.protocol.entries;
      source_net = p.source_net;
      source_not = p.source_not;
      source_port = p.source_port;
      destination_net = p.destination_net;
      destination_not = p.destination_not;
      destination_port = p.destination_port;
      log = p.log;
      quick = p.quick;
      description = p.description;
    }

store_rule-shown :
    (rule : FirewallRule) (o : Options) (s : ShowsAll rule o) (sequence : String)
    → store_rule (rule_document o sequence (encode_firewall_rule rule)) empty_rule
      ≡ some (response rule o s sequence)
unfolding store_rule store_struct store_fields names_field store_string bind response
store_rule-shown rule o s sequence =
    rw
      (
        s.action.stored, s.interface.stored, s.direction.stored, s.ip_protocol.stored,
        s.protocol.stored,
      )
      refl

module _ (E : Env) (R : IsRange E) where
  selected_key-shown : (k : String) (j : Json) (s : Shows k j) → selected_key E (some s.entries) ≡ k
  selected_key-shown k j s = elim s.chosen [
    | inl c ↦ selected_key-IsChoice E R k s.entries c
    | inr (empty, u) ↦ rw empty (selected_key-IsUnset E R s.entries u)
  ]

  from_response-shown :
      (rule : FirewallRule) (o : Options) (s : ShowsAll rule o) (sequence : String)
      → from_response E (response rule o s sequence) ≡ ok (record rule { sequence = sequence })
  unfolding from_response encode_firewall_rule response
  from_response-shown rule o s sequence =
      rw
        (
          selected_key-shown rule.action o.action s.action,
          selected_key-shown rule.interface o.interface s.interface,
          selected_key-shown rule.direction o.direction s.direction,
          selected_key-shown rule.ip_protocol o.ip_protocol s.ip_protocol,
          selected_key-shown rule.protocol o.protocol s.protocol,
          read_flag rule.enabled,
          read_flag rule.source_not,
          read_flag rule.destination_not,
          read_flag rule.log,
          read_flag rule.quick,
        )
        refl

  -- Where a range over a map goes through its entries in any order, a rule that OPNsense shows as
  -- it was sent, its select fields by option maps with one selected key or none for an empty value,
  -- is read back as it was, with the sequence that the response gives.
  pub read_rule-shown :
      (rule : FirewallRule) (o : Options) (sequence text : String)
      → ShowsAll rule o
      → starts_array (trim_space text) ≡ false
      → E.parse (trim_space text) ≡ ok (rule_document o sequence (encode_firewall_rule rule))
      → read_rule E text ≡ ok (record rule { sequence = sequence })
  unfolding read_rule unmarshal
  read_rule-shown rule o sequence text s object parsed =
      rw
        (
          read_rule,
          object,
          parsed,
          store_rule-shown rule o s sequence,
          from_response-shown rule o s sequence,
        )
        refl
