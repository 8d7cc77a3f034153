-- ===== src/Controller/AliasReconciler/Quiet.antt =====
-- When a reconcile of an alias that was found makes no call behind its lookup.
use opnsense_operator.Base.{
  String, ◌≡◌, ◌≢◌, ◌↔◌, ap, ◌∙◌, inl, inr, true, Error, ok, List, Result-cases, Bool-cases, arith,
  string_eq, nat_eq,
}
use opnsense_operator.Api.{Key, Alias, is_zero}
use opnsense_operator.Runtime.{Env}
use opnsense_operator.Runtime.Monad.{World, Event, post}
use opnsense_operator.Runtime.Trace.{Grows, same, Extends-trans, Extends-Grows, Extends-differs}
use opnsense_operator.Opnsense.Types.{Client, Alias as ExternalAlias}
use opnsense_operator.Opnsense.Transport.Sending.{do_json-Extends}
use opnsense_operator.Opnsense.Aliases.{update_alias, reconfigure_aliases}
use opnsense_operator.Opnsense.Aliases.Requests.{update_alias_world, reconfigure_aliases-Extends}
use opnsense_operator.Controller.Outcome.{Outcome, text_of, is_ready}
use opnsense_operator.Controller.Convert.{spec_to_alias, alias_needs_update}
use opnsense_operator.Controller.Convert.Drift.{alias_needs_update_iff}
use opnsense_operator.Controller.Connect.{built}
use opnsense_operator.Controller.AliasStatus.{alias_finalizer, failed, set_ready_success}
use opnsense_operator.Controller.AliasStatus.Written.{set_ready_failed-log, set_ready_success-log}
use opnsense_operator.Controller.AliasLookup.{Resolved, found, resolve_external_alias}
use opnsense_operator.Controller.AliasReconciler.{
  build_client, write_reason, update_external, sync_external, is_current, reconcile,
}
use opnsense_operator.Controller.AliasReconciler.Branches.{
  reconfigure_then-err, reconfigure_then-ok, update_external-err, update_external-ok,
  sync_external-update, sync_external-current, sync_external-report, reconcile-live,
  reconcile_live-built,
}
use opnsense_operator.Controller.AliasReconciler.Sync.{got_world, built_world}

module _ (E : Env) (alias : Alias) where
  -- The status says that the alias was synced under this UUID and in this generation.
  abbrev pub SaysSo : String → Type 0
  SaysSo uuid =
      (alias.status.uuid ≡ uuid)
      × (alias.status.observed_generation ≡ alias.meta.generation)
      × (is_ready E alias.status.conditions ≡ true)

  -- OPNsense holds the alias as the spec asks, the name apart, and the status says so.
  abbrev pub IsSettled : String → ExternalAlias → Type 0
  IsSettled uuid existing =
      (existing ≡ record (spec_to_alias alias.spec) { name = existing.name }) × SaysSo uuid

  is_current_iff : (uuid : String) → (is_current E alias uuid ≡ true) ↔ SaysSo uuid
  unfolding is_current
  is_current_iff uuid = (λ h. (ground arith, ground arith, ground arith), λ (a, b, d). ground arith)

module _ (E : Env) (alias : Alias) (w : World E.State) where
  failed-differs :
      (old : List Event) (reason : String) (e : Error)
      → Grows old w.log
      → (failed E alias reason e w).1.log ≢ old
  failed-differs old reason e g =
      rw (set_ready_failed-log E alias w reason (text_of E e) e) (Extends-differs _ g)

  success-differs :
      (old : List Event) (uuid : String)
      → Grows old w.log
      → (set_ready_success E alias uuid w).1.log ≢ old
  success-differs old uuid g = rw (set_ready_success-log E alias w uuid) (Extends-differs _ g)

module _ (E : Env) (c : Client) (alias : Alias) (w : World E.State) where
  update_alias-Grows :
      (uuid : String) → Grows w.log (update_alias E c uuid (spec_to_alias alias.spec) w).1.log
  update_alias-Grows uuid =
      rw (update_alias_world E c uuid (spec_to_alias alias.spec) w)
        (Extends-Grows (do_json-Extends E c post _ _ w))

  update_external-differs : (uuid : String) → (update_external E c alias uuid w).1.log ≢ w.log
  update_external-differs uuid =
      let w1 = (update_alias E c uuid (spec_to_alias alias.spec) w).1 in
      let w2 = (reconfigure_aliases E c w1).1 in
      let first = update_alias-Grows uuid in
      let both : Grows w.log w2.log =
        Extends-trans first (Extends-Grows (reconfigure_aliases-Extends E c w1)) in
      elim (Result-cases (update_alias E c uuid (spec_to_alias alias.spec) w).0) [
        | inr (e, p) ↦
            rw (update_external-err E c alias w uuid e p)
              (failed-differs E alias w1 w.log (write_reason "UpdateFailed" e) e first)
        | inl (u, p) ↦ elim (Result-cases (reconfigure_aliases E c w1).0) [
          | inr (e, q) ↦
              rw
                (
                  update_external-ok E c alias w uuid u p,
                  reconfigure_then-err E c alias w1 (set_ready_success E alias uuid) e q,
                )
                (failed-differs E alias w2 w.log "ReconfigureFailed" e both)
          | inl (v, q) ↦
              rw
                (
                  update_external-ok E c alias w uuid u p,
                  reconfigure_then-ok E c alias w1 (set_ready_success E alias uuid) v q,
                )
                (success-differs E alias w2 w.log uuid both)
        ]
      ]

  module _ (uuid : String) (existing : ExternalAlias) where
    sync_external_quiet :
        IsSettled E alias uuid existing
        → (sync_external E c alias (found uuid existing) w).1.log ≡ w.log
    sync_external_quiet (held, says) =
        let unchanged = (alias_needs_update_iff alias.spec existing).1 held in
        let current = (is_current_iff E alias uuid).1 says in
        ap (λ (x : Outcome × World E.State). x.1.log)
          (sync_external-current E c alias w uuid existing unchanged current)

    sync_external-IsSettled :
        (sync_external E c alias (found uuid existing) w).1.log ≡ w.log
        → IsSettled E alias uuid existing
    sync_external-IsSettled h = elim (Bool-cases (alias_needs_update alias.spec existing)) [
      | inl p ↦ absurd (
          update_external-differs uuid (rw (sync_external-update E c alias w uuid existing p) at h))
      | inr p ↦ elim (Bool-cases (is_current E alias uuid)) [
        | inl q ↦
            ((alias_needs_update_iff alias.spec existing).0 p, (is_current_iff E alias uuid).0 q)
        | inr q ↦ absurd (
            success-differs E alias w w.log uuid same
              (rw (sync_external-report E c alias w uuid existing p q) at h))
      ]
    ]

module _ (E : Env) (alias : Alias) (key : Key) (w : World E.State) where
  -- A reconcile of a live alias with its finalizer that has a client and has found the alias in
  -- OPNsense makes no call behind the lookup exactly if OPNsense holds the alias as the spec asks, the
  -- name apart, and the status has its UUID, the generation of the object and a Ready condition that
  -- is true.
  pub reconcile_quiet_alias :
      (c : Client) (uuid : String) (existing : ExternalAlias)
      → (E.get_alias key w.state).0 ≡ ok alias
      → is_zero alias.meta.deletion_timestamp ≡ true
      → E.contains_finalizer alias.meta.finalizers alias_finalizer ≡ true
      → (build_client E alias (got_world E alias key w)).0 ≡ built c
      → (resolve_external_alias E c alias (built_world E alias key w)).0 ≡ found uuid existing
      → let looked = (resolve_external_alias E c alias (built_world E alias key w)).1 in
        ((reconcile E key w).1.log ≡ looked.log) ↔ IsSettled E alias uuid existing
  reconcile_quiet_alias c uuid existing got alive held p resolved =
      let looked = (resolve_external_alias E c alias (built_world E alias key w)).1 in
      let equation =
        reconcile-live E alias w key got alive
        ∙ reconcile_live-built E alias (got_world E alias key w) held c p
        ∙ ap (λ (x : Resolved). sync_external E c alias x looked) resolved in
      (
        λ h. sync_external-IsSettled E c alias looked uuid existing (rw equation at h),
        λ s. rw equation (sync_external_quiet E c alias looked uuid existing s),
      )
