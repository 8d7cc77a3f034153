-- ===== src/Controller/RuleReconciler/Settled.antt =====
-- The reconcile of a rule behind the one that reported a success.
use opnsense_operator.Base.{String, ◌<>◌, ◌≡◌, ◌≢◌, true, false, none, ok, arith}
use opnsense_operator.Text.Trim.{trim_space}
use opnsense_operator.Api.{Key, FirewallRule, condition_true, is_zero}
use opnsense_operator.Runtime.{Env, KeepsConditions, IsRange}
use opnsense_operator.Runtime.Monad.{World}
use opnsense_operator.Runtime.Trace.{Extends}
use opnsense_operator.Opnsense.Types.{Client, FirewallRule as ExternalRule}
use opnsense_operator.Opnsense.Payload.{encode_firewall_rule}
use opnsense_operator.Opnsense.Transport.Answered.{Answers, do_json-Answers}
use opnsense_operator.Opnsense.Rules.{starts_array, read_rule, get_rule}
use opnsense_operator.Opnsense.Rules.RoundTrip.{Options, ShowsAll, rule_document}
use opnsense_operator.Controller.Outcome.{returns, is_ready, ready_condition}
use opnsense_operator.Controller.Reading.{IsRead}
use opnsense_operator.Controller.Convert.Drift.{AgreesOnSequence}
use opnsense_operator.Controller.Convert.Settled.{rule_settles}
use opnsense_operator.Controller.Connect.{built}
use opnsense_operator.Controller.RuleStatus.{firewall_rule_finalizer, with_ready, synced}
use opnsense_operator.Controller.RuleLookup.{found, resolve_external_rule}
use opnsense_operator.Controller.RuleReconciler.{is_current, build_client, reconcile, desired}
use opnsense_operator.Controller.RuleReconciler.Sync.{
  got_world, built_world, reconcile_in_sync_rule,
}

-- The object that the report of a success writes.
abbrev pub reported : (E : Env) → E.State → FirewallRule → String → String → FirewallRule
reported E s rule uuid sequence =
    with_ready E s (synced rule uuid sequence) condition_true "FirewallRuleReady"
      "FirewallRule is in sync with OPNsense"

abbrev pub rule_path : String → String
rule_path uuid = "/api/firewall/filter/getRule/" <> uuid

module _ (E : Env) where
  reported-current :
      KeepsConditions E
      → (s : E.State) (rule : FirewallRule) (uuid sequence : String)
      → is_current E (reported E s rule uuid sequence) uuid sequence ≡ true
  unfolding is_current is_ready
  reported-current K s rule uuid sequence =
      let ready =
        ready_condition condition_true "FirewallRuleReady" "FirewallRule is in sync with OPNsense"
          rule.meta.generation in
      let (d, p, q) = K.find-set s rule.status.conditions ready in ground arith

  get_rule-read :
      (c : Client) (uuid text : String) (existing : ExternalRule) (w : World E.State)
      → Answers E c (rule_path uuid) text w.state
      → read_rule E text ≡ ok existing
      → (get_rule E c uuid w).0 ≡ ok existing
  unfolding get_rule
  get_rule-read c uuid text existing w a p =
      ground (arith, do_json-Answers E c (rule_path uuid) text w a)

  resolve-read :
      (c : Client) (rule : FirewallRule) (existing : ExternalRule) (w : World E.State)
      → rule.status.uuid ≢ ""
      → (get_rule E c rule.status.uuid w).0 ≡ ok existing
      → (resolve_external_rule E c rule w).0 ≡ found rule.status.uuid existing
  unfolding resolve_external_rule
  resolve-read c rule existing w known p = ground arith

  -- Where a condition that was set is found and a range over a map goes through its entries, a live
  -- rule with the finalizer, whose object is as the report of a success left it, and that OPNsense
  -- shows as it was sent with the sequence that was reported, which is that of the spec where it has
  -- one, is left alone, if a client can be built and the UUID is not empty: the reconcile sends GET
  -- requests and nothing else, writes nothing, and returns no error.
  pub reconcile_reported_rule :
      (K : KeepsConditions E) (R : IsRange E) (s : E.State) (rule : FirewallRule)
      (uuid sequence text : String) (o : Options) (key : Key) (w : World E.State) (c : Client)
      → let object = reported E s rule uuid sequence in
        (E.get_rule key w.state).0 ≡ ok object
        → is_zero rule.meta.deletion_timestamp ≡ true
        → E.contains_finalizer rule.meta.finalizers firewall_rule_finalizer ≡ true
        → uuid ≢ ""
        → (build_client E object (got_world E object key w)).0 ≡ built c
        → Answers E c (rule_path uuid) text (built_world E object key w).state
        → ShowsAll (desired E rule) o
        → starts_array (trim_space text) ≡ false
        → E.parse (trim_space text)
          ≡ ok (rule_document o sequence (encode_firewall_rule (desired E rule)))
        → AgreesOnSequence rule.spec (record (desired E rule) { sequence = sequence })
        → ((reconcile E key w).0 ≡ returns none) × Extends IsRead w.log (reconcile E key w).1.log
  reconcile_reported_rule K R s rule uuid sequence text o key w c got alive held known p a shown
        array parsed agrees =
      let object = reported E s rule uuid sequence in
      let existing = record (desired E rule) { sequence = sequence } in
      let v = built_world E object key w in
      let (read, unchanged) =
        rule_settles E R rule.spec rule.meta.namespace rule.meta.name o sequence text shown array
          parsed agrees in
      reconcile_in_sync_rule E object key w c uuid existing got alive held p
        (resolve-read c object existing v known (get_rule-read c uuid text existing v a read))
        unchanged (reported-current K s rule uuid sequence)
