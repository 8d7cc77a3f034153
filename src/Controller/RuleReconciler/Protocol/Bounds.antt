-- ===== src/Controller/RuleReconciler/Protocol/Bounds.antt =====
-- How much one reconcile of a rule does.
use opnsense_operator.Base.{◌≡◌, ◌≤◌, ◌+◌, inl, inr, ok, arith}
use opnsense_operator.Api.{Key, FirewallRule}
use opnsense_operator.Runtime.{Env, IsForeign}
use opnsense_operator.Runtime.Monad.{World, Event}
use opnsense_operator.Controller.RuleReconciler.{reconcile}
use opnsense_operator.Controller.RuleReconciler.Protocol.{
  EndsEarly, hold, confirm, release_unknown, EndsLate, report, release, rules,
}
use opnsense_operator.Controller.RuleReconciler.Protocol.Runs.{got_world, reconcile_rule-EndedRun}
use opnsense_operator.Controller.Protocol.{looking, done}
use opnsense_operator.Controller.Protocol.Bounds.{
  posts, writes, IsWrite, EndsInWrites, Run-IsWithin,
}

module _ (E : Env) (rule : FirewallRule) where
  early-IsWrite : (e : Event) → EndsEarly E rule e → IsWrite e
  early-IsWrite e (hold alive free p) = rw p tt
  early-IsWrite e (confirm existing alive clean (s, uuid, sequence, p)) = rw p tt
  early-IsWrite e (release_unknown deleting unknown p) = rw p tt

  late-IsWrite : (e : Event) → EndsLate E rule e → IsWrite e
  late-IsWrite e (report alive (s, uuid, sequence, p)) = rw p tt
  late-IsWrite e (release deleting p) = rw p tt

  rules-EndsInWrites : (w : World E.State) → EndsInWrites (rules E rule w)
  rules-EndsInWrites w = record {
    failure = λ e (s, reason, text, p). rw p tt;
    early = early-IsWrite;
    late = late-IsWrite;
  }

-- Where no error from outside is one of the package's own, a reconcile of a rule that was read
-- makes at most two POST requests and at most one write of an object, whatever it meets.
pub reconcile_rule-bounds :
    (E : Env) (F : IsForeign E) (rule : FirewallRule) (key : Key) (w : World E.State)
    → (E.get_rule key w.state).0 ≡ ok rule
    → (posts (reconcile E key w).1.log ≤ posts w.log + 2)
      × (writes (reconcile E key w).1.log ≤ writes w.log + 1)
reconcile_rule-bounds E F rule key w got =
    let R = rules E rule (got_world E F rule key w got) in
    let n = rules-EndsInWrites E rule (got_world E F rule key w got) in
    let log = (reconcile E key w).1.log in
    elim (reconcile_rule-EndedRun E F rule key w got) [
      | inl r ↦
          let (few, none_written) = Run-IsWithin R w.log looking log n r in
          (omega (arith, few), omega (arith, none_written))
      | inr r ↦ Run-IsWithin R w.log done log n r
    ]
