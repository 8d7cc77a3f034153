-- ===== src/Controller/RuleReconciler/Deletion/Ends.antt =====
-- The two ways in which the deletion of a rule can end.
use opnsense_operator.Base.{String, ◌<>◌, ◌≡◌, ◌⊎◌, some, ◌∷◌, Error, ok, Result}
use opnsense_operator.Api.{FirewallRule}
use opnsense_operator.Runtime.{Env}
use opnsense_operator.Runtime.Monad.{World, Event, Method, sent, updated_rule, post}
use opnsense_operator.Runtime.Trace.{Extends, more}
use opnsense_operator.Opnsense.Types.{Client}
use opnsense_operator.Opnsense.Payload.{empty_object}
use opnsense_operator.Opnsense.Decode.{unmarshal, store_only}
use opnsense_operator.Controller.Outcome.{Outcome}
use opnsense_operator.Opnsense.Transport.{request, do_json}
use opnsense_operator.Opnsense.Transport.Sending.{Sends}
use opnsense_operator.Opnsense.Rules.{delete_rule, apply_firewall_rules}
use opnsense_operator.Controller.RuleStatus.{released, set_ready_failed}
use opnsense_operator.Controller.RuleStatus.Written.{set_ready_failed-log, set_ready_failed-error}

-- The object itself is not written: a finalizer neither comes nor goes.
abbrev pub KeepsObject : Event → Type 0
KeepsObject (updated_rule _) = ⊥
KeepsObject _ = Unit

pub Sends-KeepsObject :
    (c : Client) (method : Method) (path : String) (e : Event)
    → Sends c method path e
    → KeepsObject e
Sends-KeepsObject c method path (sent h r) s = tt
Sends-KeepsObject c method path (updated_rule a) s = s
Sends-KeepsObject c method path _ s = tt

-- The words with which OPNsense confirms that the rule is gone.
abbrev pub result_of : Env → String → Result String
result_of E text = unmarshal E "struct { Result string }" (store_only "result") "" text

abbrev pub IsGone : Env → String → Type 0
IsGone E text = (result_of E text ≡ ok "deleted") ⊎ (result_of E text ≡ ok "not found")

-- A deletion that gave the finalizer back: OPNsense answered the deletion with one of those words
-- and the reconfiguration with its "ok", and the calls came in this order.
pub record RemovedLast (E : Env) (c : Client) (rule : FirewallRule) (w w' : World E.State)
    : Type 0 where
  pub body : String
  pub answer : String
  pub encoded : E.marshal empty_object ≡ ok body
  pub answered :
      (do_json E c post
        ("/api/firewall/filter/delRule/" <> rule.status.uuid)
        (some empty_object)
        w).0
      ≡ ok answer
  pub gone : IsGone E answer
  pub applied : (apply_firewall_rules E c (delete_rule E c rule.status.uuid w).1).0 ≡ ok tt
  pub order :
      w'.log
      ≡ updated_rule (released E rule)
        ∷ sent c.http_client (request c post "/api/firewall/filter/apply" (some body))
        ∷ sent c.http_client
            (request c post ("/api/firewall/filter/delRule/" <> rule.status.uuid) (some body))
        ∷ w.log

-- A failure is returned, and the object was not written.
pub record Kept (E : Env) (rule : FirewallRule) (w : World E.State) (o : Outcome)
    (w' : World E.State) : Type 0 where
  pub error : Error
  pub returned : o.error ≡ some error
  pub untouched : Extends KeepsObject w.log w'.log

module _ (E : Env) (rule : FirewallRule) where
  pub failed-Kept :
      (w0 w : World E.State) (reason text : String) (e : Error)
      → Extends KeepsObject w0.log w.log
      → let (o, w') = set_ready_failed E rule reason text e w in Kept E rule w0 o w'
  failed-Kept w0 w reason text e before =
      let (f, p) = set_ready_failed-error E rule w reason text e in
      record { error = f; returned = p; untouched = rw set_ready_failed-log (more tt before) }
