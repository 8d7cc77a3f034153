-- ===== src/Controller/AliasReconciler/Sync.antt =====
-- `Reconcile` of an alias that is not being deleted, as a whole.
use opnsense_operator.Base.{
  String, ◌<>◌, ◌≡◌, ◌⊎◌, inl, inr, true, false, none, ◌∷◌, ok, Bool-cases, ◌∙◌, ap,
}
use opnsense_operator.Api.{Key, Alias, condition_true, is_zero}
use opnsense_operator.Runtime.{Env}
use opnsense_operator.Runtime.Monad.{World, updated_alias_status}
use opnsense_operator.Runtime.Trace.{Extends}
use opnsense_operator.Opnsense.Types.{Client, Alias as ExternalAlias}
use opnsense_operator.Opnsense.Aliases.{create_alias, update_alias, reconfigure_aliases}
use opnsense_operator.Controller.Outcome.{Outcome, text_of, returns}
use opnsense_operator.Controller.Convert.{spec_to_alias, alias_needs_update}
use opnsense_operator.Controller.Connect.{built, Built-cases}
use opnsense_operator.Controller.Connect.Reading.{build_opnsense_client-log}
use opnsense_operator.Controller.Reading.{IsRead}
use opnsense_operator.Controller.AliasStatus.{alias_finalizer, with_ready, synced}
use opnsense_operator.Controller.AliasStatus.Written.{set_ready_failed-error, set_ready_success-log}
use opnsense_operator.Controller.AliasLookup.{
  Resolved, lookup_failed, missing, found, resolve_external_alias,
}
use opnsense_operator.Controller.AliasLookup.Reading.{resolve_external_alias-IsRead}
use opnsense_operator.Controller.AliasReconciler.{
  sync_external, is_current, build_client, reconcile,
}
use opnsense_operator.Controller.AliasReconciler.Branches.{
  reconcile-live, reconcile_live-built, reconcile_live-refused, sync_external-update,
  sync_external-current, sync_external-report, sync_external-failed, sync_external-missing,
  sync_external-failed,
}
use opnsense_operator.Controller.AliasReconciler.Publication.{
  Published, create_external-Published, update_external-Published,
}

-- What a reconcile that returned no error has done from the world `w` behind the lookup.
abbrev pub Synced : (E : Env) → Client → Alias → Resolved → World E.State → World E.State → Type 0
Synced E c alias (lookup_failed e) w w' = ⊥
Synced E c alias missing w w' =
    (uuid : String) × ((create_alias E c (spec_to_alias alias.spec) w).0 ≡ ok uuid)
    × ((reconfigure_aliases E c (create_alias E c (spec_to_alias alias.spec) w).1).0 ≡ ok tt)
    × Published E c alias "/api/firewall/alias/addItem" uuid w w'
Synced E c alias (found uuid existing) w w' =
    ((alias_needs_update alias.spec existing ≡ true)
      × ((update_alias E c uuid (spec_to_alias alias.spec) w).0 ≡ ok tt)
      × ((reconfigure_aliases E c (update_alias E c uuid (spec_to_alias alias.spec) w).1).0 ≡ ok tt)
      × Published E c alias ("/api/firewall/alias/setItem/" <> uuid) uuid w w')
    ⊎ ((alias_needs_update alias.spec existing ≡ false)
        × (((is_current E alias uuid ≡ true) × (w' ≡ w))
            ⊎ ((s : E.State) × (w'.log
                  ≡ updated_alias_status (
                      with_ready E s (synced alias uuid) condition_true "AliasReady"
                        "Alias is in sync with OPNsense")
                    ∷ w.log))))

module _ (E : Env) (c : Client) (alias : Alias) (w : World E.State) where
  sync_external-Synced :
      (r : Resolved)
      → let (o, w') = sync_external E c alias r w in o.error ≡ none → Synced E c alias r w w'
  sync_external-Synced (lookup_failed e) fine =
      let (f, q) = set_ready_failed-error E alias w "LookupFailed" (text_of E e) e in
      let r = rw (sync_external-failed E c alias w e) at fine in absurd (cc)
  sync_external-Synced missing fine =
      let equation = sync_external-missing E c alias w in
      rw equation (create_external-Published E c alias w (rw equation at fine))
  sync_external-Synced (found uuid existing) fine =
      elim (Bool-cases (alias_needs_update alias.spec existing)) [
        | inl p ↦
            let equation = sync_external-update E c alias w uuid existing p in
            let (updated, applied, published) =
              update_external-Published E c alias uuid w (rw equation at fine) in
            inl (p, updated, applied, rw equation published)
        | inr p ↦ elim (Bool-cases (is_current E alias uuid)) [
          | inl q ↦
              let equation = sync_external-current E c alias w uuid existing p q in
              inr (p, inl (q, rw equation))
          | inr q ↦
              let equation = sync_external-report E c alias w uuid existing p q in
              inr (p, inr (w.state, rw equation (set_ready_success-log E alias w uuid)))
        ]
      ]

module _ (E : Env) (alias : Alias) (key : Key) (w : World E.State) where
  -- The world behind the read of the object, and behind the building of the client.
  abbrev pub got_world : World E.State
  got_world = record w { state = (E.get_alias key w.state).1 }

  abbrev pub built_world : World E.State
  built_world = (build_client E alias got_world).1

  -- A reconcile of a live alias with its finalizer that returns no error has built a client, has sent
  -- nothing but GET requests up to the end of its lookup, and has then done what the lookup asked
  -- for: a creation or an update that OPNsense confirmed, its reconfiguration and the report of
  -- success, in this order, or, where there is no drift, the report at most.
  pub reconcile_live_alias :
      (E.get_alias key w.state).0 ≡ ok alias
      → is_zero alias.meta.deletion_timestamp ≡ true
      → E.contains_finalizer alias.meta.finalizers alias_finalizer ≡ true
      → (reconcile E key w).0.error ≡ none
      → (c : Client) × ((build_client E alias got_world).0 ≡ built c)
        × (let r = resolve_external_alias E c alias built_world in
            Extends IsRead w.log r.1.log × Synced E c alias r.0 r.1 (reconcile E key w).1)
  reconcile_live_alias got alive held fine =
      let to_live = reconcile-live E alias w key got alive in
      elim (Built-cases (build_client E alias got_world).0) [
        | inr (reason, e, p) ↦
            let (f, q) = set_ready_failed-error E alias built_world reason (text_of E e) e in
            let r =
              rw (reconcile_live-refused E alias got_world held reason e p) at
                (rw to_live at fine) in
            absurd (cc)
        | inl (c, p) ↦
            let equation = to_live ∙ reconcile_live-built E alias got_world held c p in
            let r = resolve_external_alias E c alias built_world in
            let unread = build_opnsense_client-log E alias.spec.connection_ref got_world in
            (
              c,
              p,
              (
                rw unread at (resolve_external_alias-IsRead E c alias built_world),
                rw equation (sync_external-Synced E c alias r.1 r.0 (rw equation at fine)),
              ),
            )
      ]

  -- A live alias with its finalizer that OPNsense holds as the spec asks, and whose status says so, is left alone:
  -- the reconcile sends GET requests, writes nothing, returns no error and asks for no repetition.
  pub reconcile_in_sync_alias :
      (c : Client) (uuid : String) (existing : ExternalAlias)
      → (E.get_alias key w.state).0 ≡ ok alias
      → is_zero alias.meta.deletion_timestamp ≡ true
      → E.contains_finalizer alias.meta.finalizers alias_finalizer ≡ true
      → (build_client E alias got_world).0 ≡ built c
      → (resolve_external_alias E c alias built_world).0 ≡ found uuid existing
      → alias_needs_update alias.spec existing ≡ false
      → is_current E alias uuid ≡ true
      → ((reconcile E key w).0 ≡ returns none) × Extends IsRead w.log (reconcile E key w).1.log
  reconcile_in_sync_alias c uuid existing got alive held p looked same_fields current =
      let r = resolve_external_alias E c alias built_world in
      let equation =
        reconcile-live E alias w key got alive
        ∙ reconcile_live-built E alias got_world held c p
        ∙ ap (λ (x : Resolved). sync_external E c alias x r.1) looked
        ∙ sync_external-current E c alias r.1 uuid existing same_fields current in
      let unread = build_opnsense_client-log E alias.spec.connection_ref got_world in
      (
        ap (λ (x : Outcome × World E.State). x.0) equation,
        rw equation (rw unread at (resolve_external_alias-IsRead E c alias built_world)),
      )
