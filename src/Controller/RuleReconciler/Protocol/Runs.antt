-- ===== src/Controller/RuleReconciler/Protocol/Runs.antt =====
-- Every reconcile of a rule is a run of its protocol.
use opnsense_operator.Base.{◌≡◌, ◌≢◌, refl, inl, inr, true, false, ok, Bool-cases, string_eq, ◌∙◌}
use opnsense_operator.Api.{Key, FirewallRule, is_zero}
use opnsense_operator.Runtime.{Env, IsForeign}
use opnsense_operator.Runtime.Monad.{World}
use opnsense_operator.Controller.Connect.{Built-cases}
use opnsense_operator.Controller.Connect.Reading.{build_opnsense_client-log}
use opnsense_operator.Controller.RuleStatus.{firewall_rule_finalizer}
use opnsense_operator.Controller.RuleLookup.{resolve_external_rule}
use opnsense_operator.Controller.RuleLookup.Reading.{resolve_external_rule-Asks}
use opnsense_operator.Controller.RuleReconciler.{build_client, reconcile}
use opnsense_operator.Controller.RuleReconciler.Branches.{
  reconcile_live-built, reconcile_live-refused, reconcile_delete-built, reconcile_delete-refused,
  reconcile-live, reconcile-deleting,
}
use opnsense_operator.Controller.RuleReconciler.Guarded.{
  reconcile_unheld_rule, reconcile_uncreated_rule,
}
use opnsense_operator.Controller.RuleReconciler.Protocol.{hold, release_unknown, rules}
use opnsense_operator.Controller.Protocol.{Rules, looking, Run, start, early}
use opnsense_operator.Controller.Protocol.Calls.{EndedRun, Run-looks}
use opnsense_operator.Controller.RuleReconciler.Protocol.Steps.{
  failed-Run, sync_external-Run, delete_external-Run,
}

-- The reconcile of an object that was read.
module _ (E : Env) (F : IsForeign E) (rule : FirewallRule) (key : Key) (w : World E.State)
    (got : (E.get_rule key w.state).0 ≡ ok rule) where
  abbrev pub got_world : World E.State
  got_world = record w { state = (E.get_rule key w.state).1 }

  abbrev R : Rules
  R = rules E rule got_world

  unread : (build_client E rule got_world).1.log ≡ w.log
  unread = build_opnsense_client-log E rule.spec.connection_ref got_world

  live-Run :
      is_zero rule.meta.deletion_timestamp ≡ true
      → E.contains_finalizer rule.meta.finalizers firewall_rule_finalizer ≡ true
      → EndedRun R w.log (reconcile E key w).1.log
  live-Run alive held =
      let to_live = reconcile-live E rule w key got alive in
      elim (Built-cases (build_client E rule got_world).0) [
        | inl (c, p) ↦
            let v = (build_client E rule got_world).1 in
            let x = resolve_external_rule E c rule v in
            let looked : Run R w.log looking x.1.log =
              Run-looks R w.log c p (rw unread at (resolve_external_rule-Asks E c rule v)) start in
            rw (to_live ∙ reconcile_live-built E rule got_world held c p)
              (sync_external-Run E rule got_world w.log c p alive x.1 looked x.0)
        | inr (reason, e, p) ↦
            rw (to_live ∙ reconcile_live-refused E rule got_world held reason e p) (
              inr (
                failed-Run E rule got_world w.log reason e (build_client E rule got_world).1
                  (looking, tt, rw unread start)))
      ]

  deleting-Run :
      is_zero rule.meta.deletion_timestamp ≡ false
      → E.contains_finalizer rule.meta.finalizers firewall_rule_finalizer ≡ true
      → rule.status.uuid ≢ ""
      → EndedRun R w.log (reconcile E key w).1.log
  deleting-Run deleting held created =
      let to_delete = reconcile-deleting E rule w key got deleting in
      elim (Built-cases (build_client E rule got_world).0) [
        | inl (c, p) ↦
            let v = (build_client E rule got_world).1 in
            rw (to_delete ∙ reconcile_delete-built E rule got_world held created c p)
              (inr (delete_external-Run E rule got_world w.log c p deleting v (rw unread start) F))
        | inr (reason, e, p) ↦
            rw (to_delete ∙ reconcile_delete-refused E rule got_world held created reason e p) (
              inr (
                failed-Run E rule got_world w.log reason e (build_client E rule got_world).1
                  (looking, tt, rw unread start)))
      ]

  -- Where no error from outside is one of the package's own, every reconcile of a rule that was
  -- read, whatever it meets and whatever it returns, is a run of the protocol: GET requests, at most
  -- one POST to a path that changes it, the apply and the read-back, and one write of the object. It stops
  -- before it has changed anything, in OPNsense or in the cluster, or behind the write.
  pub reconcile_rule-EndedRun : EndedRun R w.log (reconcile E key w).1.log
  reconcile_rule-EndedRun =
      elim (Bool-cases (E.contains_finalizer rule.meta.finalizers firewall_rule_finalizer)) [
        | inr free ↦ elim (reconcile_unheld_rule E rule key w got free) [
          | inl (alive, log) ↦ inr (rw log (early (hold alive free refl) start))
          | inr (deleting, log) ↦ inl (rw log start)
        ]
        | inl held ↦ elim (Bool-cases (is_zero rule.meta.deletion_timestamp)) [
          | inl alive ↦ live-Run alive held
          | inr deleting ↦ elim (string_eq.dec rule.status.uuid "") [
            | yes unknown ↦ inr (
                rw (reconcile_uncreated_rule E rule key w got deleting held unknown)
                  (early (release_unknown deleting unknown refl) start))
            | no created ↦ deleting-Run deleting held created
          ]
        ]
      ]
