-- ===== src/Runtime/Fallible.antt =====
-- Sequencing that returns at the first error: `if err != nil { return err }`.
use opnsense_operator.Base.{ok, err}
use opnsense_operator.Runtime.Monad.{Action}

infixl 5 ◌>>=◌ ◌>>◌
abbrev pub ◌>>=◌ : {S A B : Type 0} → Action S A → (A → Action S B) → Action S B
◌>>=◌ m f w = let (r, w') = m w in elim r [ ok a ↦ f a w' | err e ↦ (err e, w') ]

abbrev pub ◌>>◌ : {S B : Type 0} → Action S (Unit {0}) → Action S B → Action S B
m >> k = m >>= λ _. k
