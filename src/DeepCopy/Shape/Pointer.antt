-- ===== src/DeepCopy/Shape/Pointer.antt =====
-- The shapes of values without references and of pointers, and their copiers.
use opnsense_operator.Base.{
  ℕ, suc, ◌≤◌, ◌<◌, ◌≡◌, refl, Option, none, some, ◌∙◌, arith, sym, ap, ◌≢◌, nat_eq,
}
use opnsense_operator.DeepCopy.Structs.{Foreign, Ref}
use opnsense_operator.DeepCopy.Memory.{Memory, Slot, new, load, store, Cell, update, fresh}
use opnsense_operator.DeepCopy.Generated.{Copier, assign, copy_ref}
use opnsense_operator.DeepCopy.Shape.{
  Agrees, Shape, Extends, Copied, IsCopier, Extends-refl, Extends-trans, Reads-extends,
}

module _ {O : Foreign} (f : ℕ → Cell O) (p : ℕ) (c : Cell O) where
  update-same : update f p c p ≡ c
  update-same = ground arith

  update-other : (a : ℕ) → a ≢ p → update f p c a ≡ f a
  update-other a h = ground arith

module _ {O : Foreign} where
  -- A value without references reads as itself.
  abbrev pub flat : {T : Type 0} → Shape O T T
  flat {T} = record {
    Reads = λ lo hi m x v. x ≡ v;
    agreeing = λ lo hi m n x v e r. r;
    wider = λ lo hi lo' hi' m x v p q r. r;
  }

  pub flat-IsCopier : {T : Type 0} → IsCopier (flat {T = T}) assign
  flat-IsCopier = record {
    copies = λ m x v r. record {
      value = x;
      after = m;
      returned = refl;
      extends = Extends-refl m;
      reads = r;
    };
  }

  module _ {T V : Type 0} (slot : Slot O T) (S : Shape O T V) where
    -- The cell at an address holds a value that reads as `v`.
    pub record Holds (lo hi : ℕ) (m : Memory O) (a : ℕ) (v : V) : Type 0 where
      pub value : T
      pub low : lo ≤ a
      pub high : a < hi
      pub held : slot.held (m.cell a) ≡ some value
      pub reads : S.Reads lo hi m value v

    abbrev pub Points : ℕ → ℕ → Memory O → Ref → Option V → Type 0
    Points lo hi m none none = Unit
    Points lo hi m (some a) (some v) = Holds lo hi m a v
    Points lo hi m _ _ = ⊥

    Holds-Agrees :
        (lo hi : ℕ) (m n : Memory O) (a : ℕ) (v : V)
        → Agrees lo hi m n
        → Holds lo hi m a v
        → Holds lo hi n a v
    Holds-Agrees lo hi m n a v e h = record {
      value = h.value;
      low = h.low;
      high = h.high;
      held = rw (sym (e a h.low h.high)) h.held;
      reads = S.agreeing lo hi m n h.value v e h.reads;
    }

    Holds-wider :
        (lo hi lo' hi' : ℕ) (m : Memory O) (a : ℕ) (v : V)
        → lo' ≤ lo
        → hi ≤ hi'
        → Holds lo hi m a v
        → Holds lo' hi' m a v
    Holds-wider lo hi lo' hi' m a v p q h = record {
      value = h.value;
      low = omega (arith, h.low);
      high = omega (arith, h.high);
      held = h.held;
      reads = S.wider lo hi lo' hi' m h.value v p q h.reads;
    }

    pub Points-Agrees :
        (lo hi : ℕ) (m n : Memory O) (x : Ref) (v : Option V)
        → Agrees lo hi m n
        → Points lo hi m x v
        → Points lo hi n x v
    Points-Agrees lo hi m n none none e h = h
    Points-Agrees lo hi m n none (some v) e h = h
    Points-Agrees lo hi m n (some a) none e h = h
    Points-Agrees lo hi m n (some a) (some v) e h = Holds-Agrees lo hi m n a v e h

    pub Points-wider :
        (lo hi lo' hi' : ℕ) (m : Memory O) (x : Ref) (v : Option V)
        → lo' ≤ lo
        → hi ≤ hi'
        → Points lo hi m x v
        → Points lo' hi' m x v
    Points-wider lo hi lo' hi' m none none p q h = h
    Points-wider lo hi lo' hi' m none (some v) p q h = h
    Points-wider lo hi lo' hi' m (some a) none p q h = h
    Points-wider lo hi lo' hi' m (some a) (some v) p q h = Holds-wider lo hi lo' hi' m a v p q h

    -- A pointer reads as nothing, or as what its cell reads as.
    abbrev pub pointer : Shape O Ref (Option V)
    pointer = record { Reads = Points; agreeing = Points-Agrees; wider = Points-wider }

    module _ (copy : Copier O T) (C : IsCopier S copy) where
      -- The memory in which `copy` runs, and the one in which its result is stored.
      abbrev made : Memory O → Memory O
      made m = record { next = suc m.next; cell = update m.cell m.next fresh }

      abbrev written : ℕ → T → Memory O → Memory O
      written p y m = record m { cell = update m.cell p (slot.hold y) }

      made-Extends : (m : Memory O) → Extends m (made m)
      made-Extends m = record {
        grows = omega arith;
        kept = λ a h. sym (update-other m.cell m.next fresh a (omega (arith, h)));
      }

      written-Extends :
          (m n : Memory O) (y : T) → Extends (made m) n → Extends m (written m.next y n)
      written-Extends m n y e =
          let both = Extends-trans (made-Extends m) e in
          record {
            grows = both.grows;
            kept = λ a h.
                both.kept a h ∙ sym (update-other n.cell m.next (slot.hold y) a (omega (arith, h)));
          }

      written-Holds :
          (m n : Memory O) (y : T) (v : V)
          → Extends (made m) n
          → S.Reads (suc m.next) n.next n y v
          → Holds m.next n.next (written m.next y n) m.next v
      written-Holds m n y v e r = record {
        value = y;
        low = omega arith;
        high = omega (arith, e.grows);
        held = ap slot.held (update-same n.cell m.next (slot.hold y)) ∙ slot.held-hold y;
        reads =
            S.wider (suc m.next) n.next m.next n.next (written m.next y n) y v (omega arith)
              (omega arith)
              (S.agreeing (suc m.next) n.next n (written m.next y n) y v
                (λ a low high.
                  sym (update-other n.cell m.next (slot.hold y) a (omega (arith, low))))
                r);
      }

      copy_ref-returns :
          (m n : Memory O) (a : ℕ) (x y : T)
          → slot.held ((made m).cell a) ≡ some x
          → copy x (made m) ≡ some (y, n)
          → copy_ref slot copy (some a) m ≡ some (some m.next, written m.next y n)
      unfolding copy_ref new load store
      copy_ref-returns m n a x y p q = ground arith

      pointer-Copied :
          (m : Memory O) (a : ℕ) (v : V)
          → Holds 0 m.next m a v
          → Copied pointer m (some v) (copy_ref slot copy (some a) m)
      pointer-Copied m a v h =
          let x = h.value in
          let there : slot.held ((made m).cell a) ≡ some x =
            ap slot.held (update-other m.cell m.next fresh a (omega (arith, h.high))) ∙ h.held in
          let c =
            C.copies (made m) x v (Reads-extends S 0 m (made m) x v (made-Extends m) h.reads) in
          record {
            value = some m.next;
            after = written m.next c.value c.after;
            returned = copy_ref-returns m c.after a x c.value there c.returned;
            extends = written-Extends m c.after c.value c.extends;
            reads = written-Holds m c.after c.value v c.extends c.reads;
          }

      pointer-copies :
          (m : Memory O) (x : Ref) (v : Option V)
          → Points 0 m.next m x v
          → Copied pointer m v (copy_ref slot copy x m)
      unfolding copy_ref
      pointer-copies m none none h = record {
        value = none;
        after = m;
        returned = refl;
        extends = Extends-refl m;
        reads = tt;
      }
      pointer-copies m none (some v) h = absurd h
      pointer-copies m (some a) none h = absurd h
      pointer-copies m (some a) (some v) h = pointer-Copied m a v h

      -- What a pointer refers to is copied.
      pub pointer-IsCopier : IsCopier pointer (copy_ref slot copy)
      pointer-IsCopier = record { copies = pointer-copies }
