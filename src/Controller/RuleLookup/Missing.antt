-- ===== src/Controller/RuleLookup/Missing.antt =====
-- When the lookup of a rule says that OPNsense has none.
use opnsense_operator.Base.{
  String, ◌<>◌, ◌≡◌, ◌≢◌, ◌⊎◌, refl, inl, inr, none, List, [], ◌∷◌, ok, Sentinel, Result-cases,
  Bool-cases, arith, string_eq,
}
use opnsense_operator.Json.{Json}
use opnsense_operator.Text.Escape.{query_escape}
use opnsense_operator.Api.{FirewallRule}
use opnsense_operator.Runtime.{Env}
use opnsense_operator.Runtime.Errors.{is}
use opnsense_operator.Runtime.Monad.{World, get}
use opnsense_operator.Opnsense.Types.{Client}
use opnsense_operator.Opnsense.Transport.{do_json}
use opnsense_operator.Opnsense.Rules.NoRows.{HasNoRows, read_rows-HasNoRows}
use opnsense_operator.Opnsense.Rules.{read_rows, get_rule, search_rule_by_managed_suffix}
use opnsense_operator.Controller.RuleLookup.{
  missing, search_phrase, pick, resolve_by_suffix, resolve_external_rule,
}

-- OPNsense was asked for the rules with this phrase in the world `w`, and answered with a JSON
-- document that has no rows.
abbrev pub NoRule : (E : Env) → Client → String → World E.State → Type 0
NoRule E c phrase w =
    (body : String) × ((do_json E c get
        ("/api/firewall/filter/searchRule?searchPhrase=" <> query_escape phrase) none w).0
      ≡ ok body)
    × ((j : Json) × (E.parse body ≡ ok j) × HasNoRows j)

module _ (E : Env) (c : Client) where
  search-none :
      (phrase : String) (w : World E.State)
      → (search_rule_by_managed_suffix E c phrase w).0 ≡ ok []
      → NoRule E c phrase w
  unfolding search_rule_by_managed_suffix
  search-none phrase w h =
      elim (Result-cases
        (do_json E c get ("/api/firewall/filter/searchRule?searchPhrase=" <> query_escape phrase)
          none w).0) [
            | inl (body, p) ↦
                let read : read_rows E body ≡ ok [] = ground arith in
                (body, p, read_rows-HasNoRows E body read)
            | inr (e, p) ↦ absurd (ground arith)
          ]

  pick-missing :
      (phrase : String) (uuids : List String) (w : World E.State)
      → (pick E c phrase uuids w).0 ≡ missing
      → uuids ≡ []
  unfolding pick
  pick-missing phrase [] w h = refl
  pick-missing phrase (u ∷ []) w h = elim (Result-cases (get_rule E c u w).0) [
    | inl (r, p) ↦ absurd (ground arith)
    | inr (e, p) ↦ absurd (ground arith)
  ]
  pick-missing phrase (u ∷ v ∷ more) w h = absurd (ground arith)

  resolve_by_suffix-missing :
      (rule : FirewallRule) (w : World E.State)
      → (resolve_by_suffix E c rule w).0 ≡ missing
      → NoRule E c (search_phrase rule) w
  unfolding resolve_by_suffix
  resolve_by_suffix-missing rule w h =
      let found_world = (search_rule_by_managed_suffix E c (search_phrase rule) w).1 in
      elim (Result-cases (search_rule_by_managed_suffix E c (search_phrase rule) w).0) [
        | inl (uuids, p) ↦
            let q : (pick E c (search_phrase rule) uuids found_world).0 ≡ missing = ground arith in
            let none_found = pick-missing (search_phrase rule) uuids found_world q in
            search-none (search_phrase rule) w (rw none_found at p)
        | inr (e, p) ↦ absurd (ground arith)
      ]

  resolve_world-stale :
      (rule : FirewallRule) (w : World E.State)
      → (resolve_external_rule E c rule w).0 ≡ missing
      → ((rule.status.uuid ≡ "") × ((resolve_by_suffix E c rule w).0 ≡ missing))
        ⊎ ((rule.status.uuid ≢ "")
            × ((resolve_by_suffix E c rule (get_rule E c rule.status.uuid w).1).0 ≡ missing))
  unfolding resolve_external_rule
  resolve_world-stale rule w h = elim (string_eq.dec rule.status.uuid "") [
    | yes p ↦ inl (p, ground arith)
    | no p ↦ elim (Result-cases (get_rule E c rule.status.uuid w).0) [
      | inl (a, q) ↦ absurd (ground arith)
      | inr (e, q) ↦ elim (Bool-cases (is e Sentinel.firewall_rule_not_found)) [
        | inl own ↦ inr (p, ground arith)
        | inr other ↦ absurd (ground arith)
      ]
    ]
  ]

  -- A rule counts as missing only if OPNsense, asked for the rules with its namespace and name, has
  -- answered with a JSON document without rows, `null` or an object whose last member "rows" is
  -- missing, `null` or `[]`: at once where the status has no UUID, and else behind the lookup by UUID.
  pub resolve_external_rule-missing :
      (rule : FirewallRule) (w : World E.State)
      → (resolve_external_rule E c rule w).0 ≡ missing
      → ((rule.status.uuid ≡ "") × NoRule E c (search_phrase rule) w)
        ⊎ ((rule.status.uuid ≢ "")
            × NoRule E c (search_phrase rule) (get_rule E c rule.status.uuid w).1)
  resolve_external_rule-missing rule w h = elim (resolve_world-stale rule w h) [
    | inl (new, p) ↦ inl (new, resolve_by_suffix-missing rule w p)
    | inr (old, p) ↦ inr (old, resolve_by_suffix-missing rule (get_rule E c rule.status.uuid w).1 p)
  ]
