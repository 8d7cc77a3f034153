-- ===== src/Controller/AliasReconciler/Protocol.antt =====
-- The alias reconciler as an instance of the protocol.
pub mod Steps
pub mod Runs
pub mod Bounds
use opnsense_operator.Base.{String, ◌<>◌, ◌≡◌, true, false}
use opnsense_operator.Api.{Alias, is_zero, condition_true, condition_false}
use opnsense_operator.Runtime.{Env}
use opnsense_operator.Runtime.Monad.{World, Event, updated_alias, updated_alias_status}
use opnsense_operator.Opnsense.Types.{Alias as ExternalAlias}
use opnsense_operator.Controller.Convert.{alias_needs_update}
use opnsense_operator.Controller.Connect.{built}
use opnsense_operator.Controller.AliasStatus.{
  alias_finalizer, finalized, released, with_ready, synced,
}
use opnsense_operator.Controller.AliasReconciler.{build_client}
use opnsense_operator.Controller.Protocol.{Rules}

-- A live alias is created or updated, and one that is being deleted is deleted.
pub data Changes (alias : Alias) (path : String) : Type 0 where
  create :
      is_zero alias.meta.deletion_timestamp ≡ true
      → path ≡ "/api/firewall/alias/addItem"
      → Changes alias path
  update :
      (uuid : String)
      → is_zero alias.meta.deletion_timestamp ≡ true
      → path ≡ "/api/firewall/alias/setItem/" <> uuid
      → Changes alias path
  delete :
      is_zero alias.meta.deletion_timestamp ≡ false
      → path ≡ "/api/firewall/alias/delItem/" <> alias.status.uuid
      → Changes alias path

-- "Ready" set to "False", and to "True" with a UUID.
abbrev pub ReportsFailure : Env → Alias → Event → Type 0
ReportsFailure E alias e =
    (s : E.State) × (reason : String) × (text : String) × (e
      ≡ updated_alias_status (with_ready E s alias condition_false reason text))

abbrev pub ReportsSuccess : Env → Alias → Event → Type 0
ReportsSuccess E alias e =
    (s : E.State) × (uuid : String) × (e
      ≡ updated_alias_status (
          with_ready E s (synced alias uuid) condition_true "AliasReady"
            "Alias is in sync with OPNsense"))

-- Without a change in OPNsense, a live alias is given the finalizer or is reported where it has not
-- drifted, and one that is deleted and has no UUID is released.
pub data EndsEarly (E : Env) (alias : Alias) (e : Event) : Type 0 where
  hold :
      is_zero alias.meta.deletion_timestamp ≡ true
      → E.contains_finalizer alias.meta.finalizers alias_finalizer ≡ false
      → e ≡ updated_alias (finalized E alias)
      → EndsEarly E alias e
  confirm :
      (existing : ExternalAlias)
      → is_zero alias.meta.deletion_timestamp ≡ true
      → alias_needs_update alias.spec existing ≡ false
      → ReportsSuccess E alias e
      → EndsEarly E alias e
  release_unknown :
      is_zero alias.meta.deletion_timestamp ≡ false
      → alias.status.uuid ≡ ""
      → e ≡ updated_alias (released E alias)
      → EndsEarly E alias e

-- Behind an applied change, a live alias is reported, and one that is deleted is released.
pub data EndsLate (E : Env) (alias : Alias) (e : Event) : Type 0 where
  report :
      is_zero alias.meta.deletion_timestamp ≡ true → ReportsSuccess E alias e → EndsLate E alias e
  release :
      is_zero alias.meta.deletion_timestamp ≡ false
      → e ≡ updated_alias (released E alias)
      → EndsLate E alias e

-- The protocol of an alias that was read and left the world `w`.
abbrev pub rules : (E : Env) → Alias → World E.State → Rules
rules E alias w = record {
  client = λ c. (build_client E alias w).0 ≡ built c;
  change = Changes alias;
  apply_path = "/api/firewall/alias/reconfigure";
  reread = λ path. ⊥;
  failure = ReportsFailure E alias;
  early = EndsEarly E alias;
  late = EndsLate E alias;
}
