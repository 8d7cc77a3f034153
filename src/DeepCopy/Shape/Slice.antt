-- ===== src/DeepCopy/Shape/Slice.antt =====
-- The shapes of arrays and slices, and their copiers.
use opnsense_operator.Base.{ℕ, ◌≤◌, ◌≡◌, refl, Option, none, some, List, [], ◌∷◌, arith}
use opnsense_operator.DeepCopy.Structs.{Foreign, Ref}
use opnsense_operator.DeepCopy.Memory.{Memory, Slot, ◌>>=◌}
use opnsense_operator.DeepCopy.Generated.{Copier, copy_ref, copy_all}
use opnsense_operator.DeepCopy.Shape.{
  Agrees, Shape, Copied, IsCopier, Extends-refl, Extends-trans, Reads-extends,
}
use opnsense_operator.DeepCopy.Shape.Pointer.{pointer, pointer-IsCopier}

module _ {O : Foreign} {T V : Type 0} (S : Shape O T V) where
  abbrev pub Each : ℕ → ℕ → Memory O → List T → List V → Type 0
  Each lo hi m [] [] = Unit
  Each lo hi m (x ∷ xs) (v ∷ vs) = S.Reads lo hi m x v × Each lo hi m xs vs
  Each lo hi m _ _ = ⊥

  pub Each-Agrees :
      (lo hi : ℕ) (m n : Memory O) (xs : List T) (vs : List V)
      → Agrees lo hi m n
      → Each lo hi m xs vs
      → Each lo hi n xs vs
  Each-Agrees lo hi m n [] [] e h = h
  Each-Agrees lo hi m n [] (v ∷ vs) e h = h
  Each-Agrees lo hi m n (x ∷ xs) [] e h = h
  Each-Agrees lo hi m n (x ∷ xs) (v ∷ vs) e (h, rest) =
      (S.agreeing lo hi m n x v e h, Each-Agrees lo hi m n xs vs e rest)

  pub Each-wider :
      (lo hi lo' hi' : ℕ) (m : Memory O) (xs : List T) (vs : List V)
      → lo' ≤ lo
      → hi ≤ hi'
      → Each lo hi m xs vs
      → Each lo' hi' m xs vs
  Each-wider lo hi lo' hi' m [] [] p q h = h
  Each-wider lo hi lo' hi' m [] (v ∷ vs) p q h = h
  Each-wider lo hi lo' hi' m (x ∷ xs) [] p q h = h
  Each-wider lo hi lo' hi' m (x ∷ xs) (v ∷ vs) p q (h, rest) =
      (S.wider lo hi lo' hi' m x v p q h, Each-wider lo hi lo' hi' m xs vs p q rest)

  -- An array reads as what its elements read as.
  abbrev pub array : Shape O (List T) (List V)
  array = record { Reads = Each; agreeing = Each-Agrees; wider = Each-wider }

  module _ (copy : Copier O T) (C : IsCopier S copy) where
    copy_all-returns :
        (m n k : Memory O) (x y : T) (xs ys : List T)
        → copy x m ≡ some (y, n)
        → copy_all copy xs n ≡ some (ys, k)
        → copy_all copy (x ∷ xs) m ≡ some (y ∷ ys, k)
    unfolding copy_all
    copy_all-returns m n k x y xs ys p q = rw (p, ◌>>=◌) (rw (q, ◌>>=◌) refl)

    array-copies :
        (m : Memory O) (xs : List T) (vs : List V)
        → Each 0 m.next m xs vs
        → Copied array m vs (copy_all copy xs m)
    unfolding copy_all
    array-copies m [] [] h = record {
      value = [];
      after = m;
      returned = refl;
      extends = Extends-refl m;
      reads = tt;
    }
    array-copies m [] (v ∷ vs) h = absurd h
    array-copies m (x ∷ xs) [] h = absurd h
    array-copies m (x ∷ xs) (v ∷ vs) (h, rest) =
        let first = C.copies m x v h in
        let n = first.after in
        let others = array-copies n xs vs (Reads-extends array 0 m n xs vs first.extends rest) in
        let k = others.after in
        record {
          value = first.value ∷ others.value;
          after = k;
          returned =
              copy_all-returns m n k x first.value xs others.value first.returned others.returned;
          extends = Extends-trans first.extends others.extends;
          reads = (
            Reads-extends S m.next n k first.value v others.extends first.reads,
            Each-wider n.next k.next m.next k.next k others.value vs first.extends.grows
                (omega arith) others.reads,
          );
        }

    pub array-IsCopier : IsCopier array (copy_all copy)
    array-IsCopier = record { copies = array-copies }

-- A nil slice reads as the empty list.
abbrev pub or_empty : {V : Type 0} → Option (List V) → List V
or_empty none = []
or_empty (some vs) = vs

-- A slice of which the array has the shape `A`.
module _ {O : Foreign} {T V : Type 0} (slot : Slot O (List T)) (A : Shape O (List T) (List V)) where
  abbrev pub slice : Shape O Ref (List V)
  slice =
      let P = pointer slot A in
      record {
        Reads = λ lo hi m x vs. (o : Option (List V)) × P.Reads lo hi m x o × (or_empty o ≡ vs);
        agreeing = λ lo hi m n x vs e (o, r, p). (o, P.agreeing lo hi m n x o e r, p);
        wider = λ lo hi lo' hi' m x vs p q (o, r, s). (o, P.wider lo hi lo' hi' m x o p q r, s);
      }

  pub slice-IsCopier :
      (copy : Copier O (List T)) → IsCopier A copy → IsCopier slice (copy_ref slot copy)
  slice-IsCopier copy C =
      let P = pointer-IsCopier slot A copy C in
      record {
        copies = λ m x vs (o, r, p).
            let c = P.copies m x o r in
            record {
              value = c.value;
              after = c.after;
              returned = c.returned;
              extends = c.extends;
              reads = (o, c.reads, p);
            };
      }
