-- ===== src/Opnsense/Rules.antt =====
-- The firewall rule endpoints of the client.
pub mod Requests
pub mod Answers
pub mod RoundTrip
pub mod NoRows
use opnsense_operator.Base.{
  String, ◌<>◌, Bool, false, ◌&&◌, none, some, List, Error, Result, ok, err, Sentinel, ◌==◌,
  string_eq, nat_eq, if◌then◌else◌, code,
}
use opnsense_operator.Text.Trim.{trim_space}
use opnsense_operator.Text.Escape.{query_escape}
use opnsense_operator.Runtime.{Env}
use opnsense_operator.Runtime.Monad.{Action, get, post, lift}
use opnsense_operator.Runtime.Fallible.{◌>>=◌}
use opnsense_operator.Opnsense.Types.{Client, FirewallRule}
use opnsense_operator.Opnsense.Payload.{rule_request, encode_firewall_rule, empty_object}
use opnsense_operator.Opnsense.Decode.{
  unexpected, unmarshal, store_only, decode_result_response, is_nil,
}
use opnsense_operator.Opnsense.RuleDecode.{
  RuleResponse, empty_rule, store_rule, store_rows, selected_key,
}
use opnsense_operator.Opnsense.Transport.{do_json}
use opnsense_operator.Opnsense.Aliases.{read_created, read_updated}

abbrev pub firewall_rule_not_found : Error
firewall_rule_not_found = Error.sentinel Sentinel.firewall_rule_not_found

-- `len(s) > 0 && s[0] == '['`
unfoldable pub starts_array : String → Bool
starts_array String.[] = false
starts_array (String.◌∷◌ c s) = code c == b'['

module _ (E : Env) where
  -- The tail of `GetRule`: the fields of a decoded response.
  unfoldable pub from_response : RuleResponse → Result FirewallRule
  from_response r =
      if is_nil r.action && is_nil r.direction
      then err (unexpected ": get rule response did not contain rule data")
      else ok (record {
        enabled = r.enabled == "1";
        action = selected_key E r.action;
        interface = selected_key E r.interface;
        direction = selected_key E r.direction;
        ip_protocol = selected_key E r.ip_protocol;
        protocol = selected_key E r.protocol;
        source_net = r.source_net;
        source_not = r.source_not == "1";
        source_port = r.source_port;
        destination_net = r.destination_net;
        destination_not = r.destination_not == "1";
        destination_port = r.destination_port;
        sequence = r.sequence;
        log = r.log == "1";
        quick = r.quick == "1";
        description = r.description;
      })

  unfoldable pub read_rule : String → Result FirewallRule
  read_rule body =
      let trimmed = trim_space body in
      if starts_array trimmed
      then err firewall_rule_not_found
      else elim (unmarshal E "getRuleResponse" store_rule empty_rule trimmed) [
        | err e ↦ err (Error.wrap "decode get rule response: " e "")
        | ok r ↦ from_response r
      ]

  unfoldable pub get_rule : Client → String → Action E.State FirewallRule
  get_rule c uuid = do
    body ← do_json E c get ("/api/firewall/filter/getRule/" <> uuid) none
    lift (read_rule body)

  unfoldable pub read_rows : String → Result (List String)
  read_rows body = elim (unmarshal E "struct { Rows []struct }" store_rows List.[] body) [
    | err e ↦ err (Error.wrap "decode search rule response: " e "")
    | ok uuids ↦ ok uuids
  ]

  unfoldable pub search_rule_by_managed_suffix : Client → String → Action E.State (List String)
  search_rule_by_managed_suffix c suffix = do
    body ←
        do_json E c get ("/api/firewall/filter/searchRule?searchPhrase=" <> query_escape suffix)
          none
    lift (read_rows body)

  unfoldable pub read_rule_deleted : String → Result (Unit {0})
  read_rule_deleted body =
      elim (unmarshal E "struct { Result string }" (store_only "result") "" body) [
        | err e ↦ err (Error.wrap "decode delete rule response: " e "")
        | ok result ↦
            if result == "deleted"
            then ok tt
            else if result == "not found"
            then err firewall_rule_not_found
            else err (unexpected (": delete rule returned unexpected result " <> E.quote result))
      ]

  unfoldable pub delete_rule : Client → String → Action E.State (Unit {0})
  delete_rule c uuid = do
    body ← do_json E c post ("/api/firewall/filter/delRule/" <> uuid) (some empty_object)
    lift (read_rule_deleted body)

  unfoldable pub read_applied : String → Result (Unit {0})
  read_applied body = elim (unmarshal E "struct { Status string }" (store_only "status") "" body) [
    | err e ↦ err (Error.wrap "decode apply firewall rules response: " e "")
    | ok status ↦
        if trim_space status == "OK"
        then ok tt
        else err (unexpected (": expected apply status OK, got " <> E.quote status))
  ]

  unfoldable pub apply_firewall_rules : Client → Action E.State (Unit {0})
  apply_firewall_rules c = do
    body ← do_json E c post "/api/firewall/filter/apply" (some empty_object)
    lift (read_applied body)

  unfoldable pub update_rule : Client → String → FirewallRule → Action E.State (Unit {0})
  update_rule c uuid rule = do
    body ←
        do_json E c post ("/api/firewall/filter/setRule/" <> uuid)
          (some (rule_request (encode_firewall_rule rule)))
    response ← lift (decode_result_response E body)
    lift (read_updated E firewall_rule_not_found response)

  unfoldable pub create_rule : Client → FirewallRule → Action E.State String
  create_rule c rule = do
    body ←
        do_json E c post "/api/firewall/filter/addRule"
          (some (rule_request (encode_firewall_rule rule)))
    response ← lift (decode_result_response E body)
    lift (read_created E "rule" response)
