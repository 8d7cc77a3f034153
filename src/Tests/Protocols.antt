-- ===== src/Tests/Protocols.antt =====
-- The protocols of a reconcile of one alias and of one rule.
use opnsense_operator.Base.{◌≡◌, ◌≤◌, ◌+◌, refl, ok, []}
use opnsense_operator.Runtime.{Env, IsForeign}
use opnsense_operator.Runtime.Monad.{World}
use opnsense_operator.Controller.Protocol.Bounds.{posts, writes}
use opnsense_operator.Controller.Protocol.Calls.{EndedRun}
use opnsense_operator.Controller.AliasReconciler.{reconcile as reconcile_alias}
use opnsense_operator.Controller.AliasReconciler.Protocol.{rules as alias_rules}
use opnsense_operator.Controller.AliasReconciler.Protocol.Runs.{
  got_world as alias_world, reconcile_alias-EndedRun,
}
use opnsense_operator.Controller.AliasReconciler.Protocol.Bounds.{reconcile_alias-bounds}
use opnsense_operator.Controller.RuleReconciler.{reconcile as reconcile_rule}
use opnsense_operator.Controller.RuleReconciler.Protocol.{rules as rule_rules}
use opnsense_operator.Controller.RuleReconciler.Protocol.Runs.{
  got_world as rule_world, reconcile_rule-EndedRun,
}
use opnsense_operator.Controller.RuleReconciler.Protocol.Bounds.{reconcile_rule-bounds}
use opnsense_operator.Tests.Objects.{web, web_alias, web_rule}
use opnsense_operator.Tests.Cluster.{cluster, cluster-IsForeign}

abbrev E : Env
E = cluster web_alias web_rule

abbrev F : IsForeign E
F = cluster-IsForeign web_alias web_rule

start : World E.State
unfolding cluster
start = record { state = 0; log = [] }

got_alias : (E.get_alias web start.state).0 ≡ ok web_alias
unfolding cluster start
got_alias = refl

got_rule : (E.get_rule web start.state).0 ≡ ok web_rule
unfolding cluster start
got_rule = refl

reconcile_alias-EndedRun_example :
    EndedRun
      (alias_rules E web_alias (alias_world E F web_alias web start got_alias))
      start.log
      (reconcile_alias E web start).1.log
reconcile_alias-EndedRun_example = reconcile_alias-EndedRun E F web_alias web start got_alias

reconcile_rule-EndedRun_example :
    EndedRun
      (rule_rules E web_rule (rule_world E F web_rule web start got_rule))
      start.log
      (reconcile_rule E web start).1.log
reconcile_rule-EndedRun_example = reconcile_rule-EndedRun E F web_rule web start got_rule

reconcile_alias-bounds_example :
    (posts (reconcile_alias E web start).1.log ≤ posts start.log + 2)
    × (writes (reconcile_alias E web start).1.log ≤ writes start.log + 1)
reconcile_alias-bounds_example = reconcile_alias-bounds E F web_alias web start got_alias

reconcile_rule-bounds_example :
    (posts (reconcile_rule E web start).1.log ≤ posts start.log + 2)
    × (writes (reconcile_rule E web start).1.log ≤ writes start.log + 1)
reconcile_rule-bounds_example = reconcile_rule-bounds E F web_rule web start got_rule
