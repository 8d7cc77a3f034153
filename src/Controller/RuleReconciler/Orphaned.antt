-- ===== src/Controller/RuleReconciler/Orphaned.antt =====
-- A rule that was created in OPNsense and whose UUID was not stored, and its deletion.
use opnsense_operator.Base.{String, ◌≡◌, true, false, ◌∷◌, Error, ok, err, ap, ◌∙◌}
use opnsense_operator.Api.{Key, FirewallRule, is_zero, condition_false}
use opnsense_operator.Runtime.{Env}
use opnsense_operator.Runtime.Monad.{World, updated_rule, updated_rule_status}
use opnsense_operator.Opnsense.Types.{Client}
use opnsense_operator.Opnsense.Rules.{create_rule, apply_firewall_rules}
use opnsense_operator.Controller.Outcome.{text_of}
use opnsense_operator.Controller.RuleStatus.{firewall_rule_finalizer, released, with_ready}
use opnsense_operator.Controller.RuleStatus.Written.{set_ready_failed-log}
use opnsense_operator.Controller.RuleReconciler.{
  create_external, record_sequence, desired, reconcile,
}
use opnsense_operator.Controller.RuleReconciler.Branches.{create_external-ok, apply_then-err}
use opnsense_operator.Controller.RuleReconciler.Guarded.{reconcile_uncreated_rule}

module _ (E : Env) (c : Client) (rule : FirewallRule) (w : World E.State) where
  -- The worlds behind the creation, and behind the apply.
  abbrev pub created_world : World E.State
  created_world = (create_rule E c (desired E rule) w).1

  abbrev pub applied_world : World E.State
  applied_world = (apply_firewall_rules E c created_world).1

  -- The object that is written when the apply has failed.
  abbrev pub unapplied : Error → FirewallRule
  unapplied e = with_ready E applied_world.state rule condition_false "ApplyFailed" (text_of E e)

  -- Where the creation of a rule whose status has no UUID has succeeded in OPNsense, and the apply
  -- behind it has failed, the status that is written last has no UUID either; and every reconcile that
  -- reads an object with this status, the finalizer and a time of deletion sends nothing, for the
  -- rule that was created or any other, and takes the finalizer away.
  pub orphaned_rule :
      (uuid : String) (e : Error) (later : FirewallRule) (key : Key) (v : World E.State)
      → rule.status.uuid ≡ ""
      → (create_rule E c (desired E rule) w).0 ≡ ok uuid
      → (apply_firewall_rules E c created_world).0 ≡ err e
      → later.status ≡ (unapplied e).status
      → (E.get_rule key v.state).0 ≡ ok later
      → is_zero later.meta.deletion_timestamp ≡ false
      → E.contains_finalizer later.meta.finalizers firewall_rule_finalizer ≡ true
      → ((create_external E c rule w).1.log ≡ updated_rule_status (unapplied e) ∷ applied_world.log)
        × ((unapplied e).status.uuid ≡ "")
        × ((reconcile E key v).1.log ≡ updated_rule (released E later) ∷ v.log)
  orphaned_rule uuid e later key v new made refused same got deleting held =
      let no_uuid : later.status.uuid ≡ "" = ap (λ s. s.uuid) same ∙ new in
      (
        rw
            (
              create_external-ok E c rule w uuid made,
              apply_then-err E c rule created_world (record_sequence E c rule uuid) e refused,
            )
            (set_ready_failed-log E rule applied_world "ApplyFailed" (text_of E e) e),
        new,
        reconcile_uncreated_rule E later key v got deleting held no_uuid,
      )
