-- ===== src/Controller/RuleLookup/Reading.antt =====
-- The lookup of a rule in OPNsense, by the calls that it makes and the answers that it takes.
use opnsense_operator.Base.{
  String, ◌<>◌, ◌≡◌, ◌≢◌, ◌⊎◌, inl, inr, List, [], ◌∷◌, Error, ok, err, Sentinel, Result-cases,
  Bool-cases, arith, string_eq,
}
use opnsense_operator.Text.Escape.{query_escape}
use opnsense_operator.Api.{FirewallRule}
use opnsense_operator.Runtime.{Env}
use opnsense_operator.Runtime.Errors.{is}
use opnsense_operator.Runtime.Monad.{World}
use opnsense_operator.Runtime.Trace.{Extends, same, Extends-trans, Extends-mono}
use opnsense_operator.Opnsense.Types.{Client}
use opnsense_operator.Opnsense.Rules.{get_rule, search_rule_by_managed_suffix}
use opnsense_operator.Opnsense.Rules.Requests.{
  get_rule-Extends, search_rule_by_managed_suffix-Extends,
}
use opnsense_operator.Controller.Reading.{IsRead, Sends-Asks, Asks-IsRead}
use opnsense_operator.Controller.Protocol.{Asks}
use opnsense_operator.Controller.RuleLookup.{
  search_phrase, pick, resolve_by_suffix, resolve_external_rule,
}

module _ (E : Env) (c : Client) where
  get_rule-Asks :
      (uuid : String) (w : World E.State) → Extends (Asks c) w.log (get_rule E c uuid w).1.log
  get_rule-Asks uuid w =
      Extends-mono (Sends-Asks c ("/api/firewall/filter/getRule/" <> uuid))
        (get_rule-Extends E c uuid w)

  search-Asks :
      (suffix : String) (w : World E.State)
      → Extends (Asks c) w.log (search_rule_by_managed_suffix E c suffix w).1.log
  search-Asks suffix w =
      Extends-mono
        (Sends-Asks c ("/api/firewall/filter/searchRule?searchPhrase=" <> query_escape suffix))
        (search_rule_by_managed_suffix-Extends E c suffix w)

  pick_world-one :
      (suffix uuid : String) (w : World E.State)
      → (pick E c suffix (uuid ∷ []) w).1 ≡ (get_rule E c uuid w).1
  unfolding pick
  pick_world-one suffix uuid w = elim (Result-cases (get_rule E c uuid w).0) [
    | inl (r, p) ↦ ground arith
    | inr (e, p) ↦ ground arith
  ]

  pick-Asks :
      (suffix : String) (uuids : List String) (w : World E.State)
      → Extends (Asks c) w.log (pick E c suffix uuids w).1.log
  unfolding pick
  pick-Asks suffix [] w = same
  pick-Asks suffix (uuid ∷ []) w = rw (pick_world-one suffix uuid w) (get_rule-Asks uuid w)
  pick-Asks suffix (u ∷ v ∷ uuids) w = same

  module _ (rule : FirewallRule) (w : World E.State) where
    abbrev searched : World E.State
    searched = (search_rule_by_managed_suffix E c (search_phrase rule) w).1

    resolve_by_suffix_world-ok :
        (uuids : List String)
        → (search_rule_by_managed_suffix E c (search_phrase rule) w).0 ≡ ok uuids
        → (resolve_by_suffix E c rule w).1 ≡ (pick E c (search_phrase rule) uuids searched).1
    unfolding resolve_by_suffix
    resolve_by_suffix_world-ok uuids p = ground arith

    resolve_by_suffix_world-err :
        (e : Error)
        → (search_rule_by_managed_suffix E c (search_phrase rule) w).0 ≡ err e
        → (resolve_by_suffix E c rule w).1 ≡ searched
    unfolding resolve_by_suffix
    resolve_by_suffix_world-err e p = ground arith

    resolve_by_suffix-Asks : Extends (Asks c) w.log (resolve_by_suffix E c rule w).1.log
    resolve_by_suffix-Asks =
        elim (Result-cases (search_rule_by_managed_suffix E c (search_phrase rule) w).0) [
          | inl (uuids, p) ↦ rw (resolve_by_suffix_world-ok uuids p) (
              Extends-trans (search-Asks (search_phrase rule) w)
                (pick-Asks (search_phrase rule) uuids searched))
          | inr (e, p) ↦ rw (resolve_by_suffix_world-err e p) (search-Asks (search_phrase rule) w)
        ]

  module _ (rule : FirewallRule) (w : World E.State) where
    abbrev by_uuid : World E.State
    by_uuid = (get_rule E c rule.status.uuid w).1

    resolve_world-new :
        rule.status.uuid ≡ ""
        → (resolve_external_rule E c rule w).1 ≡ (resolve_by_suffix E c rule w).1
    unfolding resolve_external_rule
    resolve_world-new p = ground arith

    resolve_world-old :
        rule.status.uuid ≢ ""
        → ((resolve_external_rule E c rule w).1 ≡ by_uuid)
          ⊎ ((resolve_external_rule E c rule w).1 ≡ (resolve_by_suffix E c rule by_uuid).1)
    unfolding resolve_external_rule
    resolve_world-old p = elim (Result-cases (get_rule E c rule.status.uuid w).0) [
      | inl (a, q) ↦ inl (ground arith)
      | inr (e, q) ↦ elim (Bool-cases (is e Sentinel.firewall_rule_not_found)) [
        | inl own ↦ inr (ground arith)
        | inr other ↦ inl (ground arith)
      ]
    ]

    -- Looking it up sends GET requests of this client.
    pub resolve_external_rule-Asks : Extends (Asks c) w.log (resolve_external_rule E c rule w).1.log
    resolve_external_rule-Asks = elim (string_eq.dec rule.status.uuid "") [
      | yes p ↦ rw (resolve_world-new p) (resolve_by_suffix-Asks rule w)
      | no p ↦ elim (resolve_world-old p) [
        | inl q ↦ rw q (get_rule-Asks rule.status.uuid w)
        | inr q ↦
            rw q (
              Extends-trans (get_rule-Asks rule.status.uuid w)
                (resolve_by_suffix-Asks rule by_uuid))
      ]
    ]

    -- Looking a rule up sends GET requests and nothing else.
    pub resolve_external_rule-IsRead : Extends IsRead w.log (resolve_external_rule E c rule w).1.log
    resolve_external_rule-IsRead = Extends-mono (Asks-IsRead c) resolve_external_rule-Asks
