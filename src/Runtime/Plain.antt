-- ===== src/Runtime/Plain.antt =====
-- Plain sequencing of steps, for `do` blocks that look at each error themselves.
use opnsense_operator.Runtime.Monad.{Step}

infixl 5 ◌>>=◌
abbrev pub ◌>>=◌ : {S A B : Type 0} → Step S A → (A → Step S B) → Step S B
◌>>=◌ m f w = let (a, w') = m w in f a w'
