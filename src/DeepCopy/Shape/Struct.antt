-- ===== src/DeepCopy/Shape/Struct.antt =====
-- The shapes of structs with one reference, of resources and of their lists, and their copiers.
use opnsense_operator.Base.{◌≡◌, refl, some, List, ◌∙◌, arith}
use opnsense_operator.DeepCopy.Structs.{Foreign, TypeMeta, Object, ObjectList}
use opnsense_operator.DeepCopy.Memory.{Memory, Slot, pure, ◌>>=◌}
use opnsense_operator.DeepCopy.Generated.{Copier, copy_ref, copy_all, object_into, list_into}
use opnsense_operator.DeepCopy.Shape.{Shape, IsCopier, Extends-trans, Reads-extends, bind-some}
use opnsense_operator.DeepCopy.Shape.Slice.{array, array-IsCopier, slice, slice-IsCopier}

-- A struct `A` with one reference `R` that is read as a `W`: `erase` gives its other fields.
module _ {O : Foreign} {A B R V W : Type 0} (erase : A → B) (ref : A → R) (plain : W → B)
    (part : W → V) (S : Shape O R V) where
  abbrev pub holding : Shape O A W
  holding = record {
    Reads = λ lo hi m a w. (erase a ≡ plain w) × S.Reads lo hi m (ref a) (part w);
    agreeing = λ lo hi m n a w e (p, r). (p, S.agreeing lo hi m n (ref a) (part w) e r);
    wider = λ lo hi lo' hi' m a w p q (e, r). (e, S.wider lo hi lo' hi' m (ref a) (part w) p q r);
  }

  pub holding-IsCopier :
      (rebuild : A → R → A) (copy : Copier O R)
      → ((a : A) (r : R) → erase (rebuild a r) ≡ erase a)
      → ((a : A) (r : R) → ref (rebuild a r) ≡ r)
      → IsCopier S copy
      → IsCopier holding (λ a. copy (ref a) >>= λ r. pure (rebuild a r))
  holding-IsCopier rebuild copy erased kept C = record {
    copies = λ m a w (e, r).
        let c = C.copies m (ref a) (part w) r in
        record {
          value = rebuild a c.value;
          after = c.after;
          returned =
              bind-some (copy (ref a)) (λ x. pure (rebuild a x)) m c.after c.value c.returned;
          extends = c.extends;
          reads = (erased a c.value ∙ e, rw (kept a c.value) c.reads);
        };
  }

module _ {O : Foreign} {M Sp St VM VSp VSt : Type 0} (A : Shape O M VM) (B : Shape O Sp VSp)
    (C : Shape O St VSt) where
  -- A resource reads as the struct of what its parts read as.
  abbrev pub object : Shape O (Object M Sp St) (Object VM VSp VSt)
  object = record {
    Reads = λ lo hi m x v.
        (x.type_meta ≡ v.type_meta)
        × A.Reads lo hi m x.meta v.meta
        × B.Reads lo hi m x.spec v.spec
        × C.Reads lo hi m x.status v.status;
    agreeing = λ lo hi m n x v e (t, a, b, c). (
      t,
      A.agreeing lo hi m n x.meta v.meta e a,
      B.agreeing lo hi m n x.spec v.spec e b,
      C.agreeing lo hi m n x.status v.status e c,
    );
    wider = λ lo hi lo' hi' m x v p q (t, a, b, c). (
      t,
      A.wider lo hi lo' hi' m x.meta v.meta p q a,
      B.wider lo hi lo' hi' m x.spec v.spec p q b,
      C.wider lo hi lo' hi' m x.status v.status p q c,
    );
  }

  object_into-returns :
      (f : Copier O M) (g : Copier O Sp) (h : Copier O St) (x y : Object M Sp St)
      (m n k l : Memory O)
      → x.type_meta ≡ y.type_meta
      → f x.meta m ≡ some (y.meta, n)
      → g x.spec n ≡ some (y.spec, k)
      → h x.status k ≡ some (y.status, l)
      → object_into f g h x m ≡ some (y, l)
  unfolding object_into
  object_into-returns f g h x y m n k l t p q r =
      rw (p, ◌>>=◌) (rw (q, ◌>>=◌) (rw (r, ◌>>=◌) (rw t refl)))

  pub object-IsCopier :
      (f : Copier O M) (g : Copier O Sp) (h : Copier O St)
      → IsCopier A f
      → IsCopier B g
      → IsCopier C h
      → IsCopier object (object_into f g h)
  object-IsCopier f g h F G K = record {
    copies = λ m x v (t, a, b, c).
        let first = F.copies m x.meta v.meta a in
        let n = first.after in
        let second =
          G.copies n x.spec v.spec (Reads-extends B 0 m n x.spec v.spec first.extends b) in
        let k = second.after in
        let before = Extends-trans first.extends second.extends in
        let third =
          K.copies k x.status v.status (Reads-extends C 0 m k x.status v.status before c) in
        let l = third.after in
        let y : Object M Sp St = record {
          type_meta = x.type_meta;
          meta = first.value;
          spec = second.value;
          status = third.value;
        } in
        let behind = Extends-trans second.extends third.extends in
        record {
          value = y;
          after = l;
          returned =
              object_into-returns f g h x y m n k l refl first.returned second.returned
                third.returned;
          extends = Extends-trans before third.extends;
          reads = (
            t,
            Reads-extends A m.next n l first.value v.meta behind first.reads,
            B.wider n.next l.next m.next l.next l second.value v.spec first.extends.grows
                (omega arith)
                (Reads-extends B n.next k l second.value v.spec third.extends second.reads),
            C.wider k.next l.next m.next l.next l third.value v.status before.grows (omega arith)
                third.reads,
          );
        };
  }

-- What a list of resources reads as.
pub record Listed (Meta V : Type 0) : Type 0 where
  pub type_meta : TypeMeta
  pub meta : Meta
  pub items : List V

module _ {O : Foreign} {M T VM V : Type 0} (slot : Slot O (List T)) (A : Shape O M VM)
    (S : Shape O T V) where
  abbrev pub listed : Shape O (ObjectList M) (Listed VM V)
  listed =
      let B = slice slot (array S) in
      record {
        Reads = λ lo hi m x v.
            (x.type_meta ≡ v.type_meta)
            × A.Reads lo hi m x.meta v.meta
            × B.Reads lo hi m x.items v.items;
        agreeing = λ lo hi m n x v e (t, a, b).
            (t, A.agreeing lo hi m n x.meta v.meta e a, B.agreeing lo hi m n x.items v.items e b);
        wider = λ lo hi lo' hi' m x v p q (t, a, b). (
          t,
          A.wider lo hi lo' hi' m x.meta v.meta p q a,
          B.wider lo hi lo' hi' m x.items v.items p q b,
        );
      }

  list_into-returns :
      (f : Copier O M) (g : Copier O T) (x y : ObjectList M) (m n k : Memory O)
      → x.type_meta ≡ y.type_meta
      → f x.meta m ≡ some (y.meta, n)
      → copy_ref slot (copy_all g) x.items n ≡ some (y.items, k)
      → list_into f slot g x m ≡ some (y, k)
  unfolding list_into
  list_into-returns f g x y m n k t p q = rw (p, ◌>>=◌) (rw (q, ◌>>=◌) (rw t refl))

  pub listed-IsCopier :
      (f : Copier O M) (g : Copier O T)
      → IsCopier A f
      → IsCopier S g
      → IsCopier listed (list_into f slot g)
  listed-IsCopier f g F G = record {
    copies = λ m x v (t, a, b).
        let B = slice slot (array S) in
        let first = F.copies m x.meta v.meta a in
        let n = first.after in
        let second =
          IsCopier.copies (slice-IsCopier slot (array S) (copy_all g) (array-IsCopier S g G)) n
            x.items v.items (Reads-extends B 0 m n x.items v.items first.extends b) in
        let k = second.after in
        let y : ObjectList M = record {
          type_meta = x.type_meta;
          meta = first.value;
          items = second.value;
        } in
        record {
          value = y;
          after = k;
          returned = list_into-returns f g x y m n k refl first.returned second.returned;
          extends = Extends-trans first.extends second.extends;
          reads = (
            t,
            Reads-extends A m.next n k first.value v.meta second.extends first.reads,
            B.wider n.next k.next m.next k.next k second.value v.items first.extends.grows
                (omega arith) second.reads,
          );
        };
  }
