-- ===== src/Opnsense/Rules/Requests.antt =====
-- Which request each call of the firewall rule endpoints makes.
use opnsense_operator.Base.{String, ◌<>◌, ◌≡◌, none, some, arith}
use opnsense_operator.Text.Escape.{query_escape}
use opnsense_operator.Runtime.{Env}
use opnsense_operator.Runtime.Monad.{World, get, post}
use opnsense_operator.Runtime.Trace.{Extends}
use opnsense_operator.Opnsense.Types.{Client, FirewallRule}
use opnsense_operator.Opnsense.Payload.{rule_request, encode_firewall_rule, empty_object}
use opnsense_operator.Opnsense.Transport.{do_json}
use opnsense_operator.Opnsense.Transport.Sending.{Sends, do_json-Extends}
use opnsense_operator.Opnsense.Rules.{
  get_rule, search_rule_by_managed_suffix, create_rule, update_rule, delete_rule,
  apply_firewall_rules,
}

module _ (E : Env) (c : Client) where
  pub get_rule_world :
      (uuid : String) (w : World E.State)
      → (get_rule E c uuid w).1
        ≡ (do_json E c get ("/api/firewall/filter/getRule/" <> uuid) (none) w).1
  unfolding get_rule
  get_rule_world uuid w = ground arith

  pub get_rule-Extends :
      (uuid : String) (w : World E.State)
      → Extends
          (Sends c get ("/api/firewall/filter/getRule/" <> uuid))
          w.log
          (get_rule E c uuid w).1.log
  get_rule-Extends uuid w =
      rw get_rule_world (do_json-Extends E c get ("/api/firewall/filter/getRule/" <> uuid) (none) w)

  pub search_rule_by_managed_suffix_world :
      (suffix : String) (w : World E.State)
      → (search_rule_by_managed_suffix E c suffix w).1
        ≡ (do_json E c get
            ("/api/firewall/filter/searchRule?searchPhrase=" <> query_escape suffix)
            (none)
            w).1
  unfolding search_rule_by_managed_suffix
  search_rule_by_managed_suffix_world suffix w = ground arith

  pub search_rule_by_managed_suffix-Extends :
      (suffix : String) (w : World E.State)
      → Extends
          (Sends c get ("/api/firewall/filter/searchRule?searchPhrase=" <> query_escape suffix))
          w.log
          (search_rule_by_managed_suffix E c suffix w).1.log
  search_rule_by_managed_suffix-Extends suffix w = rw search_rule_by_managed_suffix_world (
      do_json-Extends E c get
        ("/api/firewall/filter/searchRule?searchPhrase=" <> query_escape suffix) (none) w)

  pub create_rule_world :
      (rule : FirewallRule) (w : World E.State)
      → (create_rule E c rule w).1
        ≡ (do_json E c post
            ("/api/firewall/filter/addRule")
            (some (rule_request (encode_firewall_rule rule)))
            w).1
  unfolding create_rule
  create_rule_world rule w = ground arith

  pub update_rule_world :
      (uuid : String) (rule : FirewallRule) (w : World E.State)
      → (update_rule E c uuid rule w).1
        ≡ (do_json E c post
            ("/api/firewall/filter/setRule/" <> uuid)
            (some (rule_request (encode_firewall_rule rule)))
            w).1
  unfolding update_rule
  update_rule_world uuid rule w = ground arith

  pub delete_rule_world :
      (uuid : String) (w : World E.State)
      → (delete_rule E c uuid w).1
        ≡ (do_json E c post ("/api/firewall/filter/delRule/" <> uuid) (some empty_object) w).1
  unfolding delete_rule
  delete_rule_world uuid w = ground arith

  pub delete_rule-Extends :
      (uuid : String) (w : World E.State)
      → Extends
          (Sends c post ("/api/firewall/filter/delRule/" <> uuid))
          w.log
          (delete_rule E c uuid w).1.log
  delete_rule-Extends uuid w =
      rw delete_rule_world
        (do_json-Extends E c post ("/api/firewall/filter/delRule/" <> uuid) (some empty_object) w)

  pub apply_firewall_rules_world :
      (w : World E.State)
      → (apply_firewall_rules E c w).1
        ≡ (do_json E c post ("/api/firewall/filter/apply") (some empty_object) w).1
  unfolding apply_firewall_rules
  apply_firewall_rules_world w = ground arith

  pub apply_firewall_rules-Extends :
      (w : World E.State)
      → Extends
          (Sends c post ("/api/firewall/filter/apply"))
          w.log
          (apply_firewall_rules E c w).1.log
  apply_firewall_rules-Extends w =
      rw apply_firewall_rules_world
        (do_json-Extends E c post ("/api/firewall/filter/apply") (some empty_object) w)
