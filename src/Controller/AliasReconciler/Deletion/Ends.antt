-- ===== src/Controller/AliasReconciler/Deletion/Ends.antt =====
-- The two ways in which the deletion of an alias can end.
use opnsense_operator.Base.{String, ◌<>◌, ◌≡◌, ◌⊎◌, some, ◌∷◌, Error, ok}
use opnsense_operator.Api.{Alias}
use opnsense_operator.Runtime.{Env}
use opnsense_operator.Runtime.Monad.{World, Event, Method, sent, updated_alias, post}
use opnsense_operator.Runtime.Trace.{Extends, more}
use opnsense_operator.Opnsense.Types.{Client}
use opnsense_operator.Opnsense.Payload.{empty_object}
use opnsense_operator.Opnsense.Decode.{ResultResponse, decode_result_response}
use opnsense_operator.Controller.Outcome.{Outcome}
use opnsense_operator.Opnsense.Transport.{request, do_json}
use opnsense_operator.Opnsense.Transport.Sending.{Sends}
use opnsense_operator.Opnsense.Aliases.{delete_alias, reconfigure_aliases}
use opnsense_operator.Controller.AliasStatus.{released, set_ready_failed}
use opnsense_operator.Controller.AliasStatus.Written.{set_ready_failed-log, set_ready_failed-error}

-- The object itself is not written: a finalizer neither comes nor goes.
abbrev pub KeepsObject : Event → Type 0
KeepsObject (updated_alias _) = ⊥
KeepsObject _ = Unit

pub Sends-KeepsObject :
    (c : Client) (method : Method) (path : String) (e : Event)
    → Sends c method path e
    → KeepsObject e
Sends-KeepsObject c method path (sent h r) s = tt
Sends-KeepsObject c method path (updated_alias a) s = s
Sends-KeepsObject c method path _ s = tt

-- The words with which OPNsense confirms that the alias is gone.
abbrev pub IsGone : Env → String → Type 0
IsGone E text =
    (response : ResultResponse) × (decode_result_response E text ≡ ok response)
    × ((response.result ≡ "deleted") ⊎ (response.result ≡ "not found"))

-- A deletion that gave the finalizer back: OPNsense answered the deletion with one of those words
-- and the reconfiguration with its "ok", and the calls came in this order.
pub record RemovedLast (E : Env) (c : Client) (alias : Alias) (w w' : World E.State) : Type 0 where
  pub body : String
  pub answer : String
  pub encoded : E.marshal empty_object ≡ ok body
  pub answered :
      (do_json E c post
        ("/api/firewall/alias/delItem/" <> alias.status.uuid)
        (some empty_object)
        w).0
      ≡ ok answer
  pub gone : IsGone E answer
  pub applied : (reconfigure_aliases E c (delete_alias E c alias.status.uuid w).1).0 ≡ ok tt
  pub order :
      w'.log
      ≡ updated_alias (released E alias)
        ∷ sent c.http_client (request c post "/api/firewall/alias/reconfigure" (some body))
        ∷ sent c.http_client
            (request c post ("/api/firewall/alias/delItem/" <> alias.status.uuid) (some body))
        ∷ w.log

-- A failure is returned, and the object was not written.
pub record Kept (E : Env) (alias : Alias) (w : World E.State) (o : Outcome) (w' : World E.State)
    : Type 0 where
  pub error : Error
  pub returned : o.error ≡ some error
  pub untouched : Extends KeepsObject w.log w'.log

module _ (E : Env) (alias : Alias) where
  pub failed-Kept :
      (w0 w : World E.State) (reason text : String) (e : Error)
      → Extends KeepsObject w0.log w.log
      → let (o, w') = set_ready_failed E alias reason text e w in Kept E alias w0 o w'
  failed-Kept w0 w reason text e before =
      let (f, p) = set_ready_failed-error E alias w reason text e in
      record { error = f; returned = p; untouched = rw set_ready_failed-log (more tt before) }
