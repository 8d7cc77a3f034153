-- ===== src/Runtime/Trace.antt =====
-- What a step adds to the record of calls.
use opnsense_operator.Base.{ℕ, suc, ◌≤◌, ◌≢◌, ap, List, [], ◌∷◌, arith}
use opnsense_operator.Runtime.Monad.{Event}

-- Every call behind `old`, the newest first, satisfies `P`.
pub data Extends (P : Event → Type 0) (old : List Event) : List Event → Type 0 where
  same : Extends P old old
  more : {e : Event} {log : List Event} → P e → Extends P old log → Extends P old (e ∷ log)

pub Extends-trans :
    {P : Event → Type 0} {a b c : List Event} → Extends P a b → Extends P b c → Extends P a c
Extends-trans p same = p
Extends-trans p (more h q) = more h (Extends-trans p q)

pub Extends-mono :
    {P Q : Event → Type 0} {a b : List Event}
    → ((e : Event) → P e → Q e)
    → Extends P a b
    → Extends Q a b
Extends-mono f same = same
Extends-mono f (more {e} h q) = more (f e h) (Extends-mono f q)

-- Calls of any kind have been made, or none.
abbrev pub Grows : List Event → List Event → Type 0
Grows = Extends (λ e. Unit)

pub Extends-Grows : {P : Event → Type 0} {a b : List Event} → Extends P a b → Grows a b
Extends-Grows p = Extends-mono (λ e h. tt) p

calls : List Event → ℕ
calls [] = 0
calls (e ∷ log) = suc (calls log)

Extends-calls : {P : Event → Type 0} {a b : List Event} → Extends P a b → calls a ≤ calls b
unfolding calls
Extends-calls same = omega arith
Extends-calls (more h p) = omega (arith, Extends-calls p)

-- A record with a call that was not there before is another one.
pub Extends-differs :
    {P : Event → Type 0} {a b : List Event} (e : Event) → Extends P a b → (e ∷ b) ≢ a
unfolding calls
Extends-differs e p q = let same_number = ap calls q in omega (arith, Extends-calls p, same_number)
