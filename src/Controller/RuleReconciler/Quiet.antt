-- ===== src/Controller/RuleReconciler/Quiet.antt =====
-- When a reconcile of a rule that was found makes no call behind its lookup.
use opnsense_operator.Base.{
  String, ◌≡◌, ◌≢◌, ◌↔◌, ap, ◌∙◌, inl, inr, true, Error, ok, List, Result-cases, Bool-cases, arith,
  string_eq, nat_eq,
}
use opnsense_operator.Api.{Key, FirewallRule, is_zero}
use opnsense_operator.Runtime.{Env}
use opnsense_operator.Runtime.Monad.{World, Event, post}
use opnsense_operator.Runtime.Trace.{Grows, same, Extends-trans, Extends-Grows, Extends-differs}
use opnsense_operator.Opnsense.Types.{Client, FirewallRule as ExternalRule}
use opnsense_operator.Opnsense.Transport.Sending.{do_json-Extends}
use opnsense_operator.Opnsense.Rules.{update_rule, apply_firewall_rules, get_rule}
use opnsense_operator.Opnsense.Rules.Requests.{
  update_rule_world, apply_firewall_rules-Extends, get_rule-Extends,
}
use opnsense_operator.Controller.Outcome.{Outcome, text_of, is_ready}
use opnsense_operator.Controller.Convert.{rule_needs_update}
use opnsense_operator.Controller.Convert.Drift.{AgreesOnSequence, rule_needs_update_iff}
use opnsense_operator.Controller.Connect.{built}
use opnsense_operator.Controller.RuleStatus.{firewall_rule_finalizer, failed, set_ready_success}
use opnsense_operator.Controller.RuleStatus.Written.{set_ready_failed-log, set_ready_success-log}
use opnsense_operator.Controller.RuleLookup.{Resolved, found, resolve_external_rule}
use opnsense_operator.Controller.RuleReconciler.{
  build_client, update_reason, record_sequence, desired, update_external, sync_external, is_current,
  reconcile,
}
use opnsense_operator.Controller.RuleReconciler.Branches.{
  apply_then-err, apply_then-ok, update_external-err, update_external-ok, sync_external-update,
  sync_external-current, sync_external-report, reconcile-live, reconcile_live-built,
}
use opnsense_operator.Controller.RuleReconciler.Publication.{
  record_sequence-ok, record_sequence-err,
}
use opnsense_operator.Controller.RuleReconciler.Sync.{got_world, built_world}

module _ (E : Env) (rule : FirewallRule) where
  -- The status says that the rule was synced under this UUID and in this generation.
  abbrev pub SaysSo : String → String → Type 0
  SaysSo uuid sequence =
      (rule.status.uuid ≡ uuid)
      × (rule.status.sequence ≡ sequence)
      × (rule.status.observed_generation ≡ rule.meta.generation)
      × (is_ready E rule.status.conditions ≡ true)

  -- OPNsense holds the rule as the spec asks, and the status says so.
  abbrev pub IsSettled : String → ExternalRule → Type 0
  IsSettled uuid existing =
      (existing ≡ record (desired E rule) { sequence = existing.sequence })
      × AgreesOnSequence rule.spec existing
      × SaysSo uuid existing.sequence

  is_current_iff :
      (uuid sequence : String) → (is_current E rule uuid sequence ≡ true) ↔ SaysSo uuid sequence
  unfolding is_current
  is_current_iff uuid sequence =
      (λ h. (ground arith, ground arith, ground arith, ground arith), λ (a, b, d, f). ground arith)

module _ (E : Env) (rule : FirewallRule) (w : World E.State) where
  failed-differs :
      (old : List Event) (reason : String) (e : Error)
      → Grows old w.log
      → (failed E rule reason e w).1.log ≢ old
  failed-differs old reason e g =
      rw (set_ready_failed-log E rule w reason (text_of E e) e) (Extends-differs _ g)

  success-differs :
      (old : List Event) (uuid sequence : String)
      → Grows old w.log
      → (set_ready_success E rule uuid sequence w).1.log ≢ old
  success-differs old uuid sequence g =
      rw (set_ready_success-log E rule w uuid sequence) (Extends-differs _ g)

module _ (E : Env) (c : Client) (rule : FirewallRule) (w : World E.State) where
  update_rule-Grows : (uuid : String) → Grows w.log (update_rule E c uuid (desired E rule) w).1.log
  update_rule-Grows uuid =
      rw (update_rule_world E c uuid (desired E rule) w)
        (Extends-Grows (do_json-Extends E c post _ _ w))

  record_sequence-differs :
      (v : World E.State) (old : List Event) (uuid : String)
      → Grows old v.log
      → (record_sequence E c rule uuid v).1.log ≢ old
  record_sequence-differs v old uuid g =
      let v1 = (get_rule E c uuid v).1 in
      let read : Grows old v1.log = Extends-trans g (Extends-Grows (get_rule-Extends E c uuid v)) in
      elim (Result-cases (get_rule E c uuid v).0) [
        | inl (current, p) ↦
            rw (record_sequence-ok E c rule uuid v current p)
              (success-differs E rule v1 old uuid current.sequence read)
        | inr (e, p) ↦
            rw (record_sequence-err E c rule uuid v e p)
              (failed-differs E rule v1 old "GetFailed" e read)
      ]

  update_external-differs : (uuid : String) → (update_external E c rule uuid w).1.log ≢ w.log
  update_external-differs uuid =
      let w1 = (update_rule E c uuid (desired E rule) w).1 in
      let w2 = (apply_firewall_rules E c w1).1 in
      let first = update_rule-Grows uuid in
      let both : Grows w.log w2.log =
        Extends-trans first (Extends-Grows (apply_firewall_rules-Extends E c w1)) in
      elim (Result-cases (update_rule E c uuid (desired E rule) w).0) [
        | inr (e, p) ↦
            rw (update_external-err E c rule w uuid e p)
              (failed-differs E rule w1 w.log (update_reason e) e first)
        | inl (u, p) ↦ elim (Result-cases (apply_firewall_rules E c w1).0) [
          | inr (e, q) ↦
              rw
                (
                  update_external-ok E c rule w uuid u p,
                  apply_then-err E c rule w1 (record_sequence E c rule uuid) e q,
                )
                (failed-differs E rule w2 w.log "ApplyFailed" e both)
          | inl (v, q) ↦
              rw
                (
                  update_external-ok E c rule w uuid u p,
                  apply_then-ok E c rule w1 (record_sequence E c rule uuid) v q,
                )
                (record_sequence-differs w2 w.log uuid both)
        ]
      ]

  module _ (uuid : String) (existing : ExternalRule) where
    sync_external_quiet :
        IsSettled E rule uuid existing
        → (sync_external E c rule (found uuid existing) w).1.log ≡ w.log
    sync_external_quiet (held, agrees, says) =
        let unchanged =
          (rule_needs_update_iff rule.spec rule.meta.namespace rule.meta.name existing).1
            (held, agrees) in
        let current = (is_current_iff E rule uuid existing.sequence).1 says in
        ap (λ (x : Outcome × World E.State). x.1.log)
          (sync_external-current E c rule w uuid existing unchanged current)

    sync_external-IsSettled :
        (sync_external E c rule (found uuid existing) w).1.log ≡ w.log
        → IsSettled E rule uuid existing
    sync_external-IsSettled h =
        elim (Bool-cases
          (rule_needs_update rule.spec rule.meta.namespace rule.meta.name existing)) [
            | inl p ↦ absurd (
                update_external-differs uuid
                  (rw (sync_external-update E c rule w uuid existing p) at h))
            | inr p ↦ elim (Bool-cases (is_current E rule uuid existing.sequence)) [
              | inl q ↦
                  let (as_asked, agrees) =
                    (rule_needs_update_iff rule.spec rule.meta.namespace rule.meta.name existing).0
                      p in
                  (as_asked, agrees, (is_current_iff E rule uuid existing.sequence).0 q)
              | inr q ↦ absurd (
                  success-differs E rule w w.log uuid existing.sequence same
                    (rw (sync_external-report E c rule w uuid existing p q) at h))
            ]
          ]

module _ (E : Env) (rule : FirewallRule) (key : Key) (w : World E.State) where
  -- A reconcile of a live rule with its finalizer that has a client and has found the rule in
  -- OPNsense makes no call behind the lookup exactly if OPNsense holds the rule as the spec asks, with
  -- the sequence of the spec where it has one, and the status has its UUID, its sequence, the
  -- generation of the object and a Ready condition that is true.
  pub reconcile_quiet_rule :
      (c : Client) (uuid : String) (existing : ExternalRule)
      → (E.get_rule key w.state).0 ≡ ok rule
      → is_zero rule.meta.deletion_timestamp ≡ true
      → E.contains_finalizer rule.meta.finalizers firewall_rule_finalizer ≡ true
      → (build_client E rule (got_world E rule key w)).0 ≡ built c
      → (resolve_external_rule E c rule (built_world E rule key w)).0 ≡ found uuid existing
      → let looked = (resolve_external_rule E c rule (built_world E rule key w)).1 in
        ((reconcile E key w).1.log ≡ looked.log) ↔ IsSettled E rule uuid existing
  reconcile_quiet_rule c uuid existing got alive held p resolved =
      let looked = (resolve_external_rule E c rule (built_world E rule key w)).1 in
      let equation =
        reconcile-live E rule w key got alive
        ∙ reconcile_live-built E rule (got_world E rule key w) held c p
        ∙ ap (λ (x : Resolved). sync_external E c rule x looked) resolved in
      (
        λ h. sync_external-IsSettled E c rule looked uuid existing (rw equation at h),
        λ s. rw equation (sync_external_quiet E c rule looked uuid existing s),
      )
