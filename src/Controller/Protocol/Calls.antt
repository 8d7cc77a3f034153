-- ===== src/Controller/Protocol/Calls.antt =====
-- The calls of the client as steps of the protocol.
use opnsense_operator.Base.{String, Option, ◌≡◌, ◌⊎◌, inl, inr, List, ◌∷◌, ok}
use opnsense_operator.Json.{Json}
use opnsense_operator.Runtime.{Env}
use opnsense_operator.Runtime.Monad.{World, Event, get, post}
use opnsense_operator.Runtime.Trace.{Extends, same, more}
use opnsense_operator.Opnsense.Types.{Client}
use opnsense_operator.Opnsense.Transport.{do_json}
use opnsense_operator.Opnsense.Transport.Sending.{do_json-Once, do_json-One}
use opnsense_operator.Controller.Protocol.{
  Phase, looking, changed, applied, done, Asks, Rules, IsOpen, Run, look, change, apply, reread,
  fail,
}

-- A run that has not written the object yet.
abbrev pub OpenRun : Rules → List Event → List Event → Type 0
OpenRun R old log = (p : Phase) × IsOpen p × Run R old p log

-- A run that stops where the code stops: it has changed nothing in OPNsense, or has written the
-- object.
abbrev pub EndedRun : Rules → List Event → List Event → Type 0
EndedRun R old log = Run R old looking log ⊎ Run R old done log

pub Run-failed :
    (R : Rules) (old log : List Event) (e : Event)
    → R.failure e
    → OpenRun R old log
    → Run R old done (e ∷ log)
Run-failed R old log e f (p, o, r) = fail o f r

module _ (R : Rules) (old : List Event) (c : Client) (k : R.client c) where
  pub Run-looks :
      {a b : List Event} → Extends (Asks c) a b → Run R old looking a → Run R old looking b
  Run-looks same r = r
  Run-looks (more s x) r = look k s (Run-looks x r)

  module _ (E : Env) (path : String) (payload : Option Json) (w : World E.State) where
    module _ (b : R.change path) (r : Run R old looking w.log) where
      pub change_sent :
          (text : String)
          → (do_json E c post path payload w).0 ≡ ok text
          → Run R old changed (do_json E c post path payload w).1.log
      change_sent text p =
          let (e, s, q) = do_json-One E c post path payload w text p in rw q (change k b s r)

      pub change_tried : OpenRun R old (do_json E c post path payload w).1.log
      change_tried = elim (do_json-Once E c post path payload w) [
        | inl q ↦ (looking, tt, rw q r)
        | inr (e, s, q) ↦ (changed, tt, rw q (change k b s r))
      ]

    module _ (b : R.reread path) (r : Run R old applied w.log) where
      pub reread_tried : Run R old applied (do_json E c get path payload w).1.log
      reread_tried = elim (do_json-Once E c get path payload w) [
        | inl q ↦ rw q r
        | inr (e, s, q) ↦ rw q (reread k b s r)
      ]

  module _ (E : Env) (payload : Option Json) (w : World E.State) (r : Run R old changed w.log) where
    pub apply_sent :
        (text : String)
        → (do_json E c post R.apply_path payload w).0 ≡ ok text
        → Run R old applied (do_json E c post R.apply_path payload w).1.log
    apply_sent text p =
        let (e, s, q) = do_json-One E c post R.apply_path payload w text p in rw q (apply k s r)

    pub apply_tried : OpenRun R old (do_json E c post R.apply_path payload w).1.log
    apply_tried = elim (do_json-Once E c post R.apply_path payload w) [
      | inl q ↦ (changed, tt, rw q r)
      | inr (e, s, q) ↦ (applied, tt, rw q (apply k s r))
    ]
