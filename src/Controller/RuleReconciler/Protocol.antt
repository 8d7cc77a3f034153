-- ===== src/Controller/RuleReconciler/Protocol.antt =====
-- The rule reconciler as an instance of the protocol.
pub mod Steps
pub mod Runs
pub mod Bounds
use opnsense_operator.Base.{String, ◌<>◌, ◌≡◌, true, false}
use opnsense_operator.Api.{FirewallRule, is_zero, condition_true, condition_false}
use opnsense_operator.Runtime.{Env}
use opnsense_operator.Runtime.Monad.{World, Event, updated_rule, updated_rule_status}
use opnsense_operator.Opnsense.Types.{FirewallRule as ExternalRule}
use opnsense_operator.Controller.Convert.{rule_needs_update}
use opnsense_operator.Controller.Connect.{built}
use opnsense_operator.Controller.RuleStatus.{
  firewall_rule_finalizer, finalized, released, with_ready, synced,
}
use opnsense_operator.Controller.RuleReconciler.{build_client}
use opnsense_operator.Controller.Protocol.{Rules}

-- A live rule is created or updated, and one that is being deleted is deleted.
pub data Changes (rule : FirewallRule) (path : String) : Type 0 where
  create :
      is_zero rule.meta.deletion_timestamp ≡ true
      → path ≡ "/api/firewall/filter/addRule"
      → Changes rule path
  update :
      (uuid : String)
      → is_zero rule.meta.deletion_timestamp ≡ true
      → path ≡ "/api/firewall/filter/setRule/" <> uuid
      → Changes rule path
  delete :
      is_zero rule.meta.deletion_timestamp ≡ false
      → path ≡ "/api/firewall/filter/delRule/" <> rule.status.uuid
      → Changes rule path

-- "Ready" set to "False", and to "True" with a UUID and a sequence.
abbrev pub ReportsFailure : Env → FirewallRule → Event → Type 0
ReportsFailure E rule e =
    (s : E.State) × (reason : String) × (text : String) × (e
      ≡ updated_rule_status (with_ready E s rule condition_false reason text))

abbrev pub ReportsSuccess : Env → FirewallRule → Event → Type 0
ReportsSuccess E rule e =
    (s : E.State) × (uuid : String) × (sequence : String) × (e
      ≡ updated_rule_status (
          with_ready E s (synced rule uuid sequence) condition_true "FirewallRuleReady"
            "FirewallRule is in sync with OPNsense"))

-- Without a change in OPNsense, a live rule is given the finalizer or is reported where it has not
-- drifted, and one that is deleted and has no UUID is released.
pub data EndsEarly (E : Env) (rule : FirewallRule) (e : Event) : Type 0 where
  hold :
      is_zero rule.meta.deletion_timestamp ≡ true
      → E.contains_finalizer rule.meta.finalizers firewall_rule_finalizer ≡ false
      → e ≡ updated_rule (finalized E rule)
      → EndsEarly E rule e
  confirm :
      (existing : ExternalRule)
      → is_zero rule.meta.deletion_timestamp ≡ true
      → rule_needs_update rule.spec rule.meta.namespace rule.meta.name existing ≡ false
      → ReportsSuccess E rule e
      → EndsEarly E rule e
  release_unknown :
      is_zero rule.meta.deletion_timestamp ≡ false
      → rule.status.uuid ≡ ""
      → e ≡ updated_rule (released E rule)
      → EndsEarly E rule e

-- Behind an applied change, a live rule is reported, and one that is deleted is released.
pub data EndsLate (E : Env) (rule : FirewallRule) (e : Event) : Type 0 where
  report : is_zero rule.meta.deletion_timestamp ≡ true → ReportsSuccess E rule e → EndsLate E rule e
  release :
      is_zero rule.meta.deletion_timestamp ≡ false
      → e ≡ updated_rule (released E rule)
      → EndsLate E rule e

-- The protocol of a rule that was read and left the world `w`.
abbrev pub rules : (E : Env) → FirewallRule → World E.State → Rules
rules E rule w = record {
  client = λ c. (build_client E rule w).0 ≡ built c;
  change = Changes rule;
  apply_path = "/api/firewall/filter/apply";
  reread = λ path. (uuid : String) × (path ≡ "/api/firewall/filter/getRule/" <> uuid);
  failure = ReportsFailure E rule;
  early = EndsEarly E rule;
  late = EndsLate E rule;
}
