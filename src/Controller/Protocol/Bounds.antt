-- ===== src/Controller/Protocol/Bounds.antt =====
-- How many calls a run of the protocol makes.
use opnsense_operator.Base.{String, ap, ℕ, ◌+◌, ◌≤◌, ◌≡◌, refl, List, [], ◌∷◌, arith}
use opnsense_operator.Runtime.Monad.{
  Event, Method, get, post, sent, updated_alias, updated_rule, updated_alias_status,
  updated_rule_status, updated_connection_status,
}
use opnsense_operator.Opnsense.Types.{Client}
use opnsense_operator.Opnsense.Transport.Sending.{Sends}
use opnsense_operator.Controller.Protocol.{
  Phase, looking, changed, applied, done, Rules, Run, start, look, change, apply, reread, fail,
  early, late, IsOpen,
}

-- The weight of a call among the requests that change something in OPNsense.
abbrev is_post : Method → ℕ
is_post get = 0
is_post post = 1

abbrev post_weight : Event → ℕ
post_weight (sent h r) = is_post r.method
post_weight _ = 0

-- The weight of a call among the writes of objects.
abbrev write_weight : Event → ℕ
write_weight (sent h r) = 0
write_weight _ = 1

unfoldable pub posts : List Event → ℕ
posts [] = 0
posts (e ∷ log) = post_weight e + posts log

unfoldable pub writes : List Event → ℕ
writes [] = 0
writes (e ∷ log) = write_weight e + writes log

-- The POST requests, and the writes, that a run in this phase can have made.
abbrev pub most_posts : Phase → ℕ
most_posts looking = 0
most_posts changed = 1
most_posts applied = 2
most_posts done = 2

abbrev pub most_writes : Phase → ℕ
most_writes done = 1
most_writes _ = 0

-- A write of an object.
abbrev pub IsWrite : Event → Type 0
IsWrite (sent h r) = ⊥
IsWrite _ = Unit

-- What ends a run is a write of the object.
pub record EndsInWrites (R : Rules) : Type 0 where
  pub failure : (e : Event) → R.failure e → IsWrite e
  pub early : (e : Event) → R.early e → IsWrite e
  pub late : (e : Event) → R.late e → IsWrite e

Sends-weights :
    (c : Client) (method : Method) (path : String) (e : Event)
    → Sends c method path e
    → (post_weight e ≡ is_post method) × (write_weight e ≡ 0)
Sends-weights c method path (sent h r) (p, same, u, v, q) = (ap is_post same, refl)
Sends-weights c method path (updated_alias a) s = absurd s
Sends-weights c method path (updated_rule a) s = absurd s
Sends-weights c method path (updated_alias_status a) s = absurd s
Sends-weights c method path (updated_rule_status a) s = absurd s
Sends-weights c method path (updated_connection_status a) s = absurd s

IsWrite-weights : (e : Event) → IsWrite e → (post_weight e ≡ 0) × (write_weight e ≡ 1)
IsWrite-weights (sent h r) s = absurd s
IsWrite-weights (updated_alias a) s = (refl, refl)
IsWrite-weights (updated_rule a) s = (refl, refl)
IsWrite-weights (updated_alias_status a) s = (refl, refl)
IsWrite-weights (updated_rule_status a) s = (refl, refl)
IsWrite-weights (updated_connection_status a) s = (refl, refl)

-- The counts behind a further call, by its weights.
IsWithin : List Event → Phase → List Event → Type 0
IsWithin old p log =
    (posts log ≤ posts old + most_posts p) × (writes log ≤ writes old + most_writes p)

IsWithin-send :
    (old log : List Event) (e : Event) (p q : Phase) (c : Client) (method : Method) (path : String)
    → Sends c method path e
    → is_post method + most_posts p ≤ most_posts q
    → most_writes p ≤ most_writes q
    → IsWithin old p log
    → IsWithin old q (e ∷ log)
unfolding IsWithin posts writes
IsWithin-send old log e p q c method path s more kept (few, once) =
    let (a, b) = Sends-weights c method path e s in (omega (arith, a), omega (arith, b))

IsOpen-most : (p : Phase) → IsOpen p → (most_posts p ≤ 2) × (most_writes p ≡ 0)
IsOpen-most looking o = (omega arith, refl)
IsOpen-most changed o = (omega arith, refl)
IsOpen-most applied o = (omega arith, refl)
IsOpen-most done o = absurd o

IsWithin-write :
    (old log : List Event) (e : Event) (p : Phase)
    → IsWrite e
    → IsOpen p
    → IsWithin old p log
    → IsWithin old done (e ∷ log)
unfolding IsWithin posts writes
IsWithin-write old log e p s open_phase (few, once) =
    let (a, b) = IsWrite-weights e s in
    let (at_most, none_yet) = IsOpen-most p open_phase in (omega (arith, a), omega (arith, b))

-- However a run of the protocol goes, it makes at most two POST requests and one write of an object,
-- and none of either while it only looks.
pub Run-IsWithin :
    (R : Rules) (old : List Event) (p : Phase) (log : List Event)
    → EndsInWrites R
    → Run R old p log
    → (posts log ≤ posts old + most_posts p) × (writes log ≤ writes old + most_writes p)
unfolding IsWithin
Run-IsWithin R old _ _ n start = (omega arith, omega arith)
Run-IsWithin R old _ _ n (look {log} {e} {c} k (path, s) r) =
    IsWithin-send old log e looking looking c get path s (omega arith) (omega arith)
      (Run-IsWithin R old looking log n r)
Run-IsWithin R old _ _ n (change {log} {e} {c} {path} k b s r) =
    IsWithin-send old log e looking changed c post path s (omega arith) (omega arith)
      (Run-IsWithin R old looking log n r)
Run-IsWithin R old _ _ n (apply {log} {e} {c} k s r) =
    IsWithin-send old log e changed applied c post R.apply_path s (omega arith) (omega arith)
      (Run-IsWithin R old changed log n r)
Run-IsWithin R old _ _ n (reread {log} {e} {c} {path} k b s r) =
    IsWithin-send old log e applied applied c get path s (omega arith) (omega arith)
      (Run-IsWithin R old applied log n r)
Run-IsWithin R old _ _ n (fail {log} {e} {p} o f r) =
    IsWithin-write old log e p (n.failure e f) o (Run-IsWithin R old p log n r)
Run-IsWithin R old _ _ n (early {log} {e} f r) =
    IsWithin-write old log e looking (n.early e f) tt (Run-IsWithin R old looking log n r)
Run-IsWithin R old _ _ n (late {log} {e} f r) =
    IsWithin-write old log e applied (n.late e f) tt (Run-IsWithin R old applied log n r)
