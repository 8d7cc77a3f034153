-- ===== src/Controller/Protocol.antt =====
-- The protocol of a reconcile, apart from how the code keeps it: look in OPNsense, change one
-- thing, apply the change, write the object once.
pub mod Bounds
pub mod Calls
use opnsense_operator.Base.{String, List, ◌∷◌}
use opnsense_operator.Runtime.Monad.{Event, Method, get, post}
use opnsense_operator.Opnsense.Types.{Client}
use opnsense_operator.Opnsense.Transport.Sending.{Sends}

-- How far a reconcile has come.
pub data Phase : Type 0 where
  looking changed applied done : Phase

-- A GET request of this client.
abbrev pub Asks : Client → Event → Type 0
Asks c e = (path : String) × Sends c get path e

-- What a resource fixes of the protocol.
pub record Rules : Type 1 where
  -- the client that its connection gives
  pub client : Client → Type 0
  -- the paths of the requests that change it in OPNsense, and of the one that applies changes
  pub change : String → Type 0
  pub apply_path : String
  -- the paths that are read again after the change was applied
  pub reread : String → Type 0
  -- the writes of the object: with a failure, without a change in OPNsense, and after one
  pub failure : Event → Type 0
  pub early : Event → Type 0
  pub late : Event → Type 0

abbrev pub IsOpen : Phase → Type 0
IsOpen done = ⊥
IsOpen _ = Unit

-- The calls behind `old`, the newest first, keep the protocol and end in this phase.
pub data Run (R : Rules) (old : List Event) : Phase → List Event → Type 0 where
  start : Run R old looking old
  look :
      {log : List Event} {e : Event} {c : Client}
      → R.client c
      → Asks c e
      → Run R old looking log
      → Run R old looking (e ∷ log)
  change :
      {log : List Event} {e : Event} {c : Client} {path : String}
      → R.client c
      → R.change path
      → Sends c post path e
      → Run R old looking log
      → Run R old changed (e ∷ log)
  apply :
      {log : List Event} {e : Event} {c : Client}
      → R.client c
      → Sends c post R.apply_path e
      → Run R old changed log
      → Run R old applied (e ∷ log)
  reread :
      {log : List Event} {e : Event} {c : Client} {path : String}
      → R.client c
      → R.reread path
      → Sends c get path e
      → Run R old applied log
      → Run R old applied (e ∷ log)
  fail :
      {log : List Event} {e : Event} {p : Phase}
      → IsOpen p
      → R.failure e
      → Run R old p log
      → Run R old done (e ∷ log)
  early :
      {log : List Event} {e : Event} → R.early e → Run R old looking log → Run R old done (e ∷ log)
  late :
      {log : List Event} {e : Event} → R.late e → Run R old applied log → Run R old done (e ∷ log)
