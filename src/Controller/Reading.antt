-- ===== src/Controller/Reading.antt =====
-- Calls that read.
use opnsense_operator.Base.{String, ◌≡◌}
use opnsense_operator.Runtime.Monad.{Event, sent, get}
use opnsense_operator.Opnsense.Types.{Client}
use opnsense_operator.Opnsense.Transport.Sending.{Sends}
use opnsense_operator.Controller.Protocol.{Asks}

-- A GET request.
abbrev pub IsRead : Event → Type 0
IsRead (sent h r) = r.method ≡ get
IsRead _ = ⊥

pub Sends-IsRead : (c : Client) (path : String) (e : Event) → Sends c get path e → IsRead e
Sends-IsRead c path (sent h r) s = s.1
Sends-IsRead c path _ s = absurd s

pub Sends-Asks : (c : Client) (path : String) (e : Event) → Sends c get path e → Asks c e
Sends-Asks c path e s = (path, s)

pub Asks-IsRead : (c : Client) (e : Event) → Asks c e → IsRead e
Asks-IsRead c e (path, s) = Sends-IsRead c path e s
