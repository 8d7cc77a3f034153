-- ===== src/Tests/Rejections.antt =====
-- Creations that the server refuses with field errors, and the texts of such errors.
use opnsense_operator.Base.{
  String, ◌≡◌, refl, some, ok, err, [], ◌∷◌, Error, string_eq, nat_eq, suc,
}
use opnsense_operator.Base.Dict.{Dict, insert, lookup, get_or}
use opnsense_operator.Json.{
  Json, store_struct, store_fields, store_entries, store_map, store_string, str, obj, end, field,
}
use opnsense_operator.Api.{condition_false}
use opnsense_operator.Text.Escape.{names_field}
use opnsense_operator.Text.{join}
use opnsense_operator.Text.Sort.{sort_strings, le_text}
use opnsense_operator.Runtime.{Env, IsRange}
use opnsense_operator.Runtime.Errors.{sentinel_text, as_validation, validation_text, message}
use opnsense_operator.Runtime.Errors.Message.{Ranges, message-range}
use opnsense_operator.Runtime.Monad.{
  World, updated_alias_status, updated_rule_status, default_client,
}
use opnsense_operator.Opnsense.Types.{Client}
use opnsense_operator.Opnsense.Decode.{ResultResponse, decode_result_response, unmarshal}
use opnsense_operator.Opnsense.Transport.{
  request, encode_body, check_request, send_request, read_response, do_json,
}
use opnsense_operator.Opnsense.Aliases.{create_alias}
use opnsense_operator.Opnsense.Rules.{create_rule}
use opnsense_operator.Controller.Convert.{spec_to_alias}
use opnsense_operator.Controller.AliasReconciler.{create_external as create_alias_external}
use opnsense_operator.Controller.AliasReconciler.Rejected.{
  rejected_alias_create, sent as sent_alias,
}
use opnsense_operator.Controller.AliasStatus.{with_ready as alias_with_ready}
use opnsense_operator.Controller.RuleReconciler.{create_external as create_rule_external, desired}
use opnsense_operator.Controller.RuleReconciler.Rejected.{rejected_rule_create, sent as sent_rule}
use opnsense_operator.Controller.RuleStatus.{with_ready as rule_with_ready}
use opnsense_operator.Tests.Objects.{web_alias, web_rule}
use opnsense_operator.Tests.Cluster.{cluster, print, parse_in}
use mathlib.Core.Option
use mathlib.Core.List.Perm

abbrev fields : Dict String
fields = ("alias.name", "already in use") ∷ ("alias.content", "not an address") ∷ []

-- The order in which `range` goes through the fields is another than that of the map.
abbrev swapped : Dict String → Dict String
swapped (p ∷ q ∷ m) = q ∷ p ∷ m
swapped m = m

swapped-Ranges : Ranges swapped
swapped-Ranges [] = Perm.refl []
swapped-Ranges (p ∷ []) = Perm.refl (p ∷ [])
swapped-Ranges (p ∷ q ∷ m) = Perm.swap p q m

message-range_example :
    message (λ m. m) (Error.wrap "create: " (Error.validation fields) "")
    ≡ message swapped (Error.wrap "create: " (Error.validation fields) "")
message-range_example =
    message-range (λ m. m) swapped (λ m. Perm.refl m) swapped-Ranges
      (Error.wrap "create: " (Error.validation fields) "")

abbrev refusal : Json
refusal = obj (
    field "result" (str "failed") (
      field "validations"
        (obj (
          field "alias.name" (str "already in use")
            (field "alias.content" (str "not an address") end)))
        end))

-- Every request is answered with the refusal.
abbrev E : Env
unfolding cluster
E = record (cluster web_alias web_rule) {
  send = λ h r s. (ok (record { status_code = 200; body = ok (print refusal) }), suc s);
  parse = parse_in (refusal ∷ []);
}

E-IsRange : IsRange E
unfolding cluster
E-IsRange = record { range-perm = λ m. Perm.refl m }

start : World E.State
unfolding cluster
start = record { state = 0; log = [] }

abbrev client : Client
client = record {
  base_url = "https://fw.example";
  api_key = "key";
  api_secret = "secret";
  http_client = default_client;
}

abbrev refused : ResultResponse
refused = record { result = "failed"; status = ""; uuid = ""; validations = some fields }

alias_refused : (sent_alias E client web_alias start).0 ≡ ok (print refusal)
unfolding cluster start do_json request encode_body check_request send_request read_response
    string_eq
alias_refused = refl

is_refusal : decode_result_response E (print refusal) ≡ ok refused
unfolding cluster parse_in decode_result_response unmarshal store_struct store_map store_string
    names_field string_eq nat_eq store_fields store_entries insert Option.bind
is_refusal = refl

rule_refused : (sent_rule E client web_rule start).0 ≡ ok (print refusal)
unfolding cluster start do_json request encode_body check_request send_request read_response
    string_eq
rule_refused = refl

abbrev text : String
text = validation_text (λ m. m) fields

sorted :
    text ≡ "opnsense validation failed: alias.content: not an address, alias.name: already in use"
unfolding validation_text sentinel_text join sort_strings le_text get_or lookup string_eq
sorted = refl

rejected_alias_create_example :
    ((create_alias_external E client web_alias start).1.log
      ≡ updated_alias_status (
          alias_with_ready E
            (sent_alias E client web_alias start).1.state
            web_alias
            condition_false
            "ValidationFailed"
            text)
        ∷ (sent_alias E client web_alias start).1.log)
    × ((e : Error) × ((create_alias_external E client web_alias start).0.error ≡ some e))
    × ((e : Error) × ((create_alias E client (spec_to_alias web_alias.spec) start).0 ≡ err e)
        × (as_validation e ≡ some fields))
rejected_alias_create_example =
    rejected_alias_create E client web_alias start E-IsRange (print refusal) refused alias_refused
      is_refusal refl

rejected_rule_create_example :
    ((create_rule_external E client web_rule start).1.log
      ≡ updated_rule_status (
          rule_with_ready E
            (sent_rule E client web_rule start).1.state
            web_rule
            condition_false
            "ValidationFailed"
            text)
        ∷ (sent_rule E client web_rule start).1.log)
    × ((e : Error) × ((create_rule_external E client web_rule start).0.error ≡ some e))
    × ((e : Error) × ((create_rule E client (desired E web_rule) start).0 ≡ err e)
        × (as_validation e ≡ some fields))
rejected_rule_create_example =
    rejected_rule_create E client web_rule start E-IsRange (print refusal) refused rule_refused
      is_refusal refl
