-- ===== src/Tests/Parts.antt =====
-- The parts of a reconcile on concrete inputs: drift tests, suffixes, clients, calls and lookups.
use opnsense_operator.Base.{String, ◌≡◌, ◌↔◌, refl, none, some, ok, false, [], string_eq, nat_eq}
use opnsense_operator.Base.Dict.{lookup, get_or}
use opnsense_operator.Text.Trim.{trim_right, is_slash}
use opnsense_operator.Runtime.{Env}
use opnsense_operator.Runtime.Monad.{World, get, root_cas}
use opnsense_operator.Opnsense.Types.{Client, Alias, FirewallRule}
use opnsense_operator.Opnsense.Transport.{
  new_client, request, encode_body, check_request, send_request, read_response, do_json,
}
use opnsense_operator.Opnsense.Transport.Sending.{Delivered, do_json-Delivered}
use opnsense_operator.Controller.Outcome.{is_ready}
use opnsense_operator.Controller.Convert.{
  alias_needs_update, spec_to_alias, spec_to_rule, rule_needs_update,
}
use opnsense_operator.Text.Number.{pos, negsuc}
use opnsense_operator.Controller.Convert.Sequence.{rule_needs_update-sequence}
use opnsense_operator.Controller.Convert.Drift.{
  AgreesOnSequence, alias_needs_update_iff, rule_needs_update_iff,
}
use opnsense_operator.Controller.Convert.Suffix.{managed_suffix_inj}
use opnsense_operator.Controller.Connect.{
  built, ca_client, build_http_client, with_secret, with_connection, build_opnsense_client,
}
use opnsense_operator.Controller.Connect.Reading.{Connected, build_opnsense_client-Connected}
use opnsense_operator.Controller.Connect.Trust.{Trusts, build_http_client-Trusts}
use opnsense_operator.Tests.Objects.{
  home, pinned, web_alias, web_rule, web_alias_spec, web_rule_spec,
}
use opnsense_operator.Tests.Cluster.{cluster, answer, find}

abbrev E : Env
E = cluster web_alias web_rule

start : World E.State
unfolding cluster
start = record { state = 0; log = [] }

-- An alias in OPNsense under another name.
abbrev renamed : Alias
renamed = record (spec_to_alias web_alias_spec) { name = "old" }

alias_needs_update_iff_example :
    (alias_needs_update web_alias_spec renamed ≡ false)
    ↔ (renamed ≡ record (spec_to_alias web_alias_spec) { name = renamed.name })
alias_needs_update_iff_example = alias_needs_update_iff web_alias_spec renamed

-- A rule in OPNsense that stands elsewhere.
abbrev moved : FirewallRule
moved = record (spec_to_rule web_rule_spec "default" "web") { sequence = "20" }

rule_needs_update_iff_example : (rule_needs_update web_rule_spec "default" "web" moved ≡ false) ↔ (
    (moved ≡ record (spec_to_rule web_rule_spec "default" "web") { sequence = moved.sequence })
    × AgreesOnSequence web_rule_spec moved)
rule_needs_update_iff_example = rule_needs_update_iff web_rule_spec "default" "web" moved

rule_needs_update-sequence_example :
    let held = spec_to_rule (record web_rule_spec { sequence = some (pos 10) }) "default" "web" in
    (rule_needs_update (record web_rule_spec { sequence = some (negsuc 9) }) "default" "web" held
      ≡ false)
    ↔ (pos 10 ≡ negsuc 9)
rule_needs_update-sequence_example =
    rule_needs_update-sequence web_rule_spec "default" "web" (pos 10) (negsuc 9)

abbrev namespace : String
namespace = "ns"

abbrev name : String
name = "web"

managed_suffix_inj_example : (namespace ≡ namespace) × (name ≡ name)
unfolding is_slash nat_eq
managed_suffix_inj_example =
    managed_suffix_inj namespace namespace name name (refl, (refl, tt)) (refl, (refl, tt)) refl

abbrev client : Client
client = new_client "https://fw.example/" "key" "secret" none

is_built : (build_opnsense_client E home start).0 ≡ built client
unfolding build_http_client with_secret with_connection build_opnsense_client is_ready new_client
    trim_right is_slash lookup get_or string_eq nat_eq cluster find start
is_built = refl

build_opnsense_client-Connected_example : Connected E home start client
build_opnsense_client-Connected_example =
    build_opnsense_client-Connected E home start client is_built

is_pinned : (build_http_client E (some pinned) start).0 ≡ ok (some (root_cas "certificates"))
unfolding build_http_client ca_client lookup get_or string_eq cluster start
is_pinned = refl

build_http_client-Trusts_example :
    ((build_http_client E (some pinned) start).0 ≡ ok (some (root_cas "certificates")))
    ↔ Trusts E (some pinned) start.state (some (root_cas "certificates"))
build_http_client-Trusts_example =
    build_http_client-Trusts E start (some pinned) (some (root_cas "certificates"))

abbrev path : String
path = "/api/firewall/alias/export?ids=a1"

abbrev text : String
text = answer "https://fw.example/api/firewall/alias/export?ids=a1"

is_answered : (do_json E client get path none start).0 ≡ ok text
unfolding request encode_body check_request send_request read_response do_json new_client trim_right
    is_slash string_eq nat_eq cluster answer start
is_answered = refl

do_json-Delivered_example :
    Delivered E client get path none start text (do_json E client get path none start).1
do_json-Delivered_example = do_json-Delivered E client get path none start text is_answered
