-- ===== src/Controller/AliasReconciler/Settled.antt =====
-- The reconcile of an alias behind the one that reported a success.
use opnsense_operator.Base.{String, ◌<>◌, ◌≡◌, ◌≢◌, true, none, ok, arith}
use opnsense_operator.Text.Escape.{query_escape}
use opnsense_operator.Api.{Key, Alias, condition_true, is_zero}
use opnsense_operator.Runtime.{Env, KeepsConditions}
use opnsense_operator.Runtime.Monad.{World}
use opnsense_operator.Runtime.Trace.{Extends}
use opnsense_operator.Opnsense.Types.{Client, Alias as ExternalAlias}
use opnsense_operator.Opnsense.Payload.{encode_alias}
use opnsense_operator.Opnsense.Transport.Answered.{Answers, do_json-Answers}
use opnsense_operator.Opnsense.Aliases.{read_alias, get_alias}
use opnsense_operator.Opnsense.Aliases.RoundTrip.{export_document}
use opnsense_operator.Controller.Outcome.{returns, is_ready, ready_condition}
use opnsense_operator.Controller.Reading.{IsRead}
use opnsense_operator.Controller.Convert.{spec_to_alias}
use opnsense_operator.Controller.Convert.Settled.{alias_settles}
use opnsense_operator.Controller.Connect.{built}
use opnsense_operator.Controller.AliasStatus.{alias_finalizer, with_ready, synced}
use opnsense_operator.Controller.AliasLookup.{found, resolve_external_alias}
use opnsense_operator.Controller.AliasReconciler.{is_current, build_client, reconcile}
use opnsense_operator.Controller.AliasReconciler.Sync.{
  got_world, built_world, reconcile_in_sync_alias,
}

-- The object that the report of a success writes.
abbrev pub reported : (E : Env) → E.State → Alias → String → Alias
reported E s alias uuid =
    with_ready E s (synced alias uuid) condition_true "AliasReady" "Alias is in sync with OPNsense"

abbrev pub export_path : String → String
export_path uuid = "/api/firewall/alias/export?ids=" <> query_escape uuid

module _ (E : Env) where
  reported-current :
      KeepsConditions E
      → (s : E.State) (alias : Alias) (uuid : String)
      → is_current E (reported E s alias uuid) uuid ≡ true
  unfolding is_current is_ready
  reported-current K s alias uuid =
      let ready =
        ready_condition condition_true "AliasReady" "Alias is in sync with OPNsense"
          alias.meta.generation in
      let (d, p, q) = K.find-set s alias.status.conditions ready in ground arith

  get_alias-read :
      (c : Client) (uuid text : String) (existing : ExternalAlias) (w : World E.State)
      → Answers E c (export_path uuid) text w.state
      → read_alias E uuid text ≡ ok existing
      → (get_alias E c uuid w).0 ≡ ok existing
  unfolding get_alias
  get_alias-read c uuid text existing w a p =
      ground (arith, do_json-Answers E c (export_path uuid) text w a)

  resolve-read :
      (c : Client) (alias : Alias) (existing : ExternalAlias) (w : World E.State)
      → alias.status.uuid ≢ ""
      → (get_alias E c alias.status.uuid w).0 ≡ ok existing
      → (resolve_external_alias E c alias w).0 ≡ found alias.status.uuid existing
  unfolding resolve_external_alias
  resolve-read c alias existing w known p = ground arith

  -- Where a condition that was set is found, a live alias with the finalizer, whose object is as the
  -- report of a success left it, and that OPNsense exports as it was sent, is left alone,
  -- if a client can be built and its UUID, its name and its type are not empty: the reconcile sends
  -- GET requests and nothing else, writes nothing, and returns no error.
  pub reconcile_reported_alias :
      (K : KeepsConditions E) (s : E.State) (alias : Alias) (uuid text : String) (key : Key)
      (w : World E.State) (c : Client)
      → let object = reported E s alias uuid in
        (E.get_alias key w.state).0 ≡ ok object
        → is_zero alias.meta.deletion_timestamp ≡ true
        → E.contains_finalizer alias.meta.finalizers alias_finalizer ≡ true
        → uuid ≢ ""
        → alias.spec.name ≢ ""
        → alias.spec.type ≢ ""
        → (build_client E object (got_world E object key w)).0 ≡ built c
        → Answers E c (export_path uuid) text (built_world E object key w).state
        → E.parse text ≡ ok (export_document uuid (encode_alias (spec_to_alias alias.spec)))
        → ((reconcile E key w).0 ≡ returns none) × Extends IsRead w.log (reconcile E key w).1.log
  reconcile_reported_alias K s alias uuid text key w c got alive held known named typed p a parsed =
      let object = reported E s alias uuid in
      let v = built_world E object key w in
      let (existing, read, unchanged) = alias_settles E alias.spec uuid text named typed parsed in
      reconcile_in_sync_alias E object key w c uuid existing got alive held p
        (resolve-read c object existing v known (get_alias-read c uuid text existing v a read))
        unchanged (reported-current K s alias uuid)
