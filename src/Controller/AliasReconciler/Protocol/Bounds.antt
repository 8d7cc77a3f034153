-- ===== src/Controller/AliasReconciler/Protocol/Bounds.antt =====
-- How much one reconcile of an alias does.
use opnsense_operator.Base.{◌≡◌, ◌≤◌, ◌+◌, inl, inr, ok, arith}
use opnsense_operator.Api.{Key, Alias}
use opnsense_operator.Runtime.{Env, IsForeign}
use opnsense_operator.Runtime.Monad.{World, Event}
use opnsense_operator.Controller.AliasReconciler.{reconcile}
use opnsense_operator.Controller.AliasReconciler.Protocol.{
  EndsEarly, hold, confirm, release_unknown, EndsLate, report, release, rules,
}
use opnsense_operator.Controller.AliasReconciler.Protocol.Runs.{got_world, reconcile_alias-EndedRun}
use opnsense_operator.Controller.Protocol.{looking, done}
use opnsense_operator.Controller.Protocol.Bounds.{
  posts, writes, IsWrite, EndsInWrites, Run-IsWithin,
}

module _ (E : Env) (alias : Alias) where
  early-IsWrite : (e : Event) → EndsEarly E alias e → IsWrite e
  early-IsWrite e (hold alive free p) = rw p tt
  early-IsWrite e (confirm existing alive clean (s, uuid, p)) = rw p tt
  early-IsWrite e (release_unknown deleting unknown p) = rw p tt

  late-IsWrite : (e : Event) → EndsLate E alias e → IsWrite e
  late-IsWrite e (report alive (s, uuid, p)) = rw p tt
  late-IsWrite e (release deleting p) = rw p tt

  rules-EndsInWrites : (w : World E.State) → EndsInWrites (rules E alias w)
  rules-EndsInWrites w = record {
    failure = λ e (s, reason, text, p). rw p tt;
    early = early-IsWrite;
    late = late-IsWrite;
  }

-- Where no error from outside is one of the package's own, a reconcile of an alias that was read
-- makes at most two POST requests and at most one write of an object, whatever it meets.
pub reconcile_alias-bounds :
    (E : Env) (F : IsForeign E) (alias : Alias) (key : Key) (w : World E.State)
    → (E.get_alias key w.state).0 ≡ ok alias
    → (posts (reconcile E key w).1.log ≤ posts w.log + 2)
      × (writes (reconcile E key w).1.log ≤ writes w.log + 1)
reconcile_alias-bounds E F alias key w got =
    let R = rules E alias (got_world E F alias key w got) in
    let n = rules-EndsInWrites E alias (got_world E F alias key w got) in
    let log = (reconcile E key w).1.log in
    elim (reconcile_alias-EndedRun E F alias key w got) [
      | inl r ↦
          let (few, none_written) = Run-IsWithin R w.log looking log n r in
          (omega (arith, few), omega (arith, none_written))
      | inr r ↦ Run-IsWithin R w.log done log n r
    ]
