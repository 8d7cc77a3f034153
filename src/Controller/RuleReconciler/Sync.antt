-- ===== src/Controller/RuleReconciler/Sync.antt =====
-- `Reconcile` of a rule that is not being deleted, as a whole.
use opnsense_operator.Base.{
  String, ◌<>◌, ◌≡◌, ◌⊎◌, inl, inr, true, false, none, ◌∷◌, ok, Bool-cases, ◌∙◌, ap,
}
use opnsense_operator.Api.{Key, FirewallRule, condition_true, is_zero}
use opnsense_operator.Runtime.{Env}
use opnsense_operator.Runtime.Monad.{World, updated_rule_status}
use opnsense_operator.Runtime.Trace.{Extends}
use opnsense_operator.Opnsense.Types.{Client, FirewallRule as ExternalRule}
use opnsense_operator.Opnsense.Rules.{create_rule, update_rule, apply_firewall_rules}
use opnsense_operator.Controller.Outcome.{Outcome, text_of, returns}
use opnsense_operator.Controller.Convert.{rule_needs_update}
use opnsense_operator.Controller.Connect.{built, Built-cases}
use opnsense_operator.Controller.Connect.Reading.{build_opnsense_client-log}
use opnsense_operator.Controller.Reading.{IsRead}
use opnsense_operator.Controller.RuleStatus.{firewall_rule_finalizer, with_ready, synced}
use opnsense_operator.Controller.RuleStatus.Written.{set_ready_failed-error, set_ready_success-log}
use opnsense_operator.Controller.RuleLookup.{
  Resolved, lookup_failed, missing, found, resolve_external_rule,
}
use opnsense_operator.Controller.RuleLookup.Reading.{resolve_external_rule-IsRead}
use opnsense_operator.Controller.RuleReconciler.{
  sync_external, is_current, build_client, reconcile, desired,
}
use opnsense_operator.Controller.RuleReconciler.Branches.{
  reconcile-live, reconcile_live-built, reconcile_live-refused, sync_external-update,
  sync_external-current, sync_external-report, sync_external-failed, sync_external-missing,
  sync_external-failed,
}
use opnsense_operator.Controller.RuleReconciler.Publication.{
  Published, create_external-Published, update_external-Published,
}

-- What a reconcile that returned no error has done from the world `w` behind the lookup.
abbrev pub Synced :
    (E : Env) → Client → FirewallRule → Resolved → World E.State → World E.State → Type 0
Synced E c rule (lookup_failed e) w w' = ⊥
Synced E c rule missing w w' =
    (uuid : String) × ((create_rule E c (desired E rule) w).0 ≡ ok uuid)
    × ((apply_firewall_rules E c (create_rule E c (desired E rule) w).1).0 ≡ ok tt)
    × Published E c rule "/api/firewall/filter/addRule" uuid w w'
Synced E c rule (found uuid existing) w w' =
    ((rule_needs_update rule.spec rule.meta.namespace rule.meta.name existing ≡ true)
      × ((update_rule E c uuid (desired E rule) w).0 ≡ ok tt)
      × ((apply_firewall_rules E c (update_rule E c uuid (desired E rule) w).1).0 ≡ ok tt)
      × Published E c rule ("/api/firewall/filter/setRule/" <> uuid) uuid w w')
    ⊎ ((rule_needs_update rule.spec rule.meta.namespace rule.meta.name existing ≡ false)
        × (((is_current E rule uuid existing.sequence ≡ true) × (w' ≡ w))
            ⊎ ((s : E.State) × (w'.log
                  ≡ updated_rule_status (
                      with_ready E s (synced rule uuid existing.sequence) condition_true
                        "FirewallRuleReady" "FirewallRule is in sync with OPNsense")
                    ∷ w.log))))

module _ (E : Env) (c : Client) (rule : FirewallRule) (w : World E.State) where
  sync_external-Synced :
      (r : Resolved)
      → let (o, w') = sync_external E c rule r w in o.error ≡ none → Synced E c rule r w w'
  sync_external-Synced (lookup_failed e) fine =
      let (f, q) = set_ready_failed-error E rule w "LookupFailed" (text_of E e) e in
      let r = rw (sync_external-failed E c rule w e) at fine in absurd (cc)
  sync_external-Synced missing fine =
      let equation = sync_external-missing E c rule w in
      rw equation (create_external-Published E c rule w (rw equation at fine))
  sync_external-Synced (found uuid existing) fine =
      elim (Bool-cases (rule_needs_update rule.spec rule.meta.namespace rule.meta.name existing)) [
        | inl p ↦
            let equation = sync_external-update E c rule w uuid existing p in
            let (updated, applied, published) =
              update_external-Published E c rule uuid w (rw equation at fine) in
            inl (p, updated, applied, rw equation published)
        | inr p ↦ elim (Bool-cases (is_current E rule uuid existing.sequence)) [
          | inl q ↦
              let equation = sync_external-current E c rule w uuid existing p q in
              inr (p, inl (q, rw equation))
          | inr q ↦
              let equation = sync_external-report E c rule w uuid existing p q in
              inr (
                p,
                inr (w.state, rw equation (set_ready_success-log E rule w uuid existing.sequence)),
              )
        ]
      ]

module _ (E : Env) (rule : FirewallRule) (key : Key) (w : World E.State) where
  -- The world behind the read of the object, and behind the building of the client.
  abbrev pub got_world : World E.State
  got_world = record w { state = (E.get_rule key w.state).1 }

  abbrev pub built_world : World E.State
  built_world = (build_client E rule got_world).1

  -- A reconcile of a live rule with its finalizer that returns no error has built a client, has sent
  -- nothing but GET requests up to the end of its lookup, and has then done what the lookup asked
  -- for: a creation or an update that OPNsense confirmed, its apply and the report of
  -- success, in this order, or, where there is no drift, the report at most.
  pub reconcile_live_rule :
      (E.get_rule key w.state).0 ≡ ok rule
      → is_zero rule.meta.deletion_timestamp ≡ true
      → E.contains_finalizer rule.meta.finalizers firewall_rule_finalizer ≡ true
      → (reconcile E key w).0.error ≡ none
      → (c : Client) × ((build_client E rule got_world).0 ≡ built c)
        × (let r = resolve_external_rule E c rule built_world in
            Extends IsRead w.log r.1.log × Synced E c rule r.0 r.1 (reconcile E key w).1)
  reconcile_live_rule got alive held fine =
      let to_live = reconcile-live E rule w key got alive in
      elim (Built-cases (build_client E rule got_world).0) [
        | inr (reason, e, p) ↦
            let (f, q) = set_ready_failed-error E rule built_world reason (text_of E e) e in
            let r =
              rw (reconcile_live-refused E rule got_world held reason e p) at
                (rw to_live at fine) in
            absurd (cc)
        | inl (c, p) ↦
            let equation = to_live ∙ reconcile_live-built E rule got_world held c p in
            let r = resolve_external_rule E c rule built_world in
            let unread = build_opnsense_client-log E rule.spec.connection_ref got_world in
            (
              c,
              p,
              (
                rw unread at (resolve_external_rule-IsRead E c rule built_world),
                rw equation (sync_external-Synced E c rule r.1 r.0 (rw equation at fine)),
              ),
            )
      ]

  -- A live rule with its finalizer that OPNsense holds as the spec asks, and whose status says so, is left alone:
  -- the reconcile sends GET requests, writes nothing, returns no error and asks for no repetition.
  pub reconcile_in_sync_rule :
      (c : Client) (uuid : String) (existing : ExternalRule)
      → (E.get_rule key w.state).0 ≡ ok rule
      → is_zero rule.meta.deletion_timestamp ≡ true
      → E.contains_finalizer rule.meta.finalizers firewall_rule_finalizer ≡ true
      → (build_client E rule got_world).0 ≡ built c
      → (resolve_external_rule E c rule built_world).0 ≡ found uuid existing
      → rule_needs_update rule.spec rule.meta.namespace rule.meta.name existing ≡ false
      → is_current E rule uuid existing.sequence ≡ true
      → ((reconcile E key w).0 ≡ returns none) × Extends IsRead w.log (reconcile E key w).1.log
  reconcile_in_sync_rule c uuid existing got alive held p looked same_fields current =
      let r = resolve_external_rule E c rule built_world in
      let equation =
        reconcile-live E rule w key got alive
        ∙ reconcile_live-built E rule got_world held c p
        ∙ ap (λ (x : Resolved). sync_external E c rule x r.1) looked
        ∙ sync_external-current E c rule r.1 uuid existing same_fields current in
      let unread = build_opnsense_client-log E rule.spec.connection_ref got_world in
      (
        ap (λ (x : Outcome × World E.State). x.0) equation,
        rw equation (rw unread at (resolve_external_rule-IsRead E c rule built_world)),
      )
