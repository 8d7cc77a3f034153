-- ===== src/DeepCopy/Shape.antt =====
-- What a value in memory reads as, and through which addresses; what a copy of it is.
pub mod Pointer
pub mod Slice
pub mod Struct
pub mod Resources
use opnsense_operator.Base.{ℕ, zero, ◌≤◌, ◌<◌, ◌≡◌, refl, Option, some, ◌∙◌, arith}
use opnsense_operator.DeepCopy.Structs.{Foreign}
use opnsense_operator.DeepCopy.Memory.{Memory, Cmd, ◌>>=◌}
use opnsense_operator.DeepCopy.Generated.{Copier}

-- The cells from `lo` on, below `hi`, are the same.
abbrev pub Agrees : {O : Foreign} → ℕ → ℕ → Memory O → Memory O → Type 0
Agrees lo hi m n = (a : ℕ) → lo ≤ a → a < hi → m.cell a ≡ n.cell a

-- `Reads lo hi m x v`: in the memory `m`, all that `x` refers to lies from `lo` on and below `hi`,
-- and `x` reads as `v`.
pub record Shape (O : Foreign) (T V : Type 0) : Type 1 where
  pub Reads : ℕ → ℕ → Memory O → T → V → Type 0
  pub agreeing :
      (lo hi : ℕ) (m n : Memory O) (x : T) (v : V)
      → Agrees lo hi m n
      → Reads lo hi m x v
      → Reads lo hi n x v
  pub wider :
      (lo hi lo' hi' : ℕ) (m : Memory O) (x : T) (v : V)
      → lo' ≤ lo
      → hi ≤ hi'
      → Reads lo hi m x v
      → Reads lo' hi' m x v

-- The memory `n` has what `m` has, and maybe more.
pub record Extends {O : Foreign} (m n : Memory O) : Type 0 where
  pub grows : m.next ≤ n.next
  pub kept : (a : ℕ) → a < m.next → m.cell a ≡ n.cell a

-- A run of a copy in the memory `m` has given a value that reads as `v` through new addresses alone,
-- and has kept what was there.
pub record Copied {O : Foreign} {T V : Type 0} (S : Shape O T V) (m : Memory O) (v : V)
    (r : Option (T × Memory O)) : Type 0 where
  pub value : T
  pub after : Memory O
  pub returned : r ≡ some (value, after)
  pub extends : Extends m after
  pub reads : S.Reads m.next after.next after value v

-- A copier copies whatever it is given.
pub record IsCopier {O : Foreign} {T V : Type 0} (S : Shape O T V) (copy : Copier O T)
    : Type 0 where
  pub copies : (m : Memory O) (x : T) (v : V) → S.Reads 0 m.next m x v → Copied S m v (copy x m)

module _ {O : Foreign} where
  pub Extends-refl : (m : Memory O) → Extends m m
  Extends-refl m = record { grows = omega arith; kept = λ a h. refl }

  pub Extends-trans : {m n k : Memory O} → Extends m n → Extends n k → Extends m k
  Extends-trans {m} {n} {k} e f = record {
    grows = omega (arith, e.grows, f.grows);
    kept = λ a h. e.kept a h ∙ f.kept a (omega (arith, e.grows, h));
  }

  -- What a value reads as is kept.
  pub Reads-extends :
      {T V : Type 0} (S : Shape O T V) (lo : ℕ) (m n : Memory O) (x : T) (v : V)
      → Extends m n
      → S.Reads lo m.next m x v
      → S.Reads lo n.next n x v
  Reads-extends S lo m n x v e r =
      S.wider lo m.next lo n.next n x v (omega arith) e.grows
        (S.agreeing lo m.next m n x v (λ a low high. e.kept a high) r)

  pub bind-some :
      {A B : Type 0} (c : Cmd O A) (f : A → Cmd O B) (m n : Memory O) (a : A)
      → c m ≡ some (a, n)
      → (c >>= f) m ≡ f a n
  bind-some c f m n a p = rw (p, ◌>>=◌) refl
