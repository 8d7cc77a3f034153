-- ===== src/Opnsense/RuleDecode/Selected.antt =====
-- `selectedKey` ranges over a map, in no fixed order.
use opnsense_operator.Base.{String, ◌≡◌, refl, true, false, some, [], ◌∷◌, inl, inr, Bool-cases, ap}
use opnsense_operator.Base.Dict.{Dict}
use opnsense_operator.Runtime.{Env, IsRange}
use opnsense_operator.Opnsense.RuleDecode.{SelectEntry, is_one, first_selected, selected_key}
use mathlib.Core.List.{Mem, Mem-prop, Perm, mem-cons, mem-cons_self, mem-cons_of_mem, not-mem-nil}
use mathlib.Core.Logic.Or
use mathlib.Core.List.Perm

-- Of the entries, one with the key `k` is selected, and none with another key is.
pub record IsChoice (k : String) (m : Dict SelectEntry) : Type 0 where
  pub entry : SelectEntry
  pub there : Mem (k, entry) m
  pub selected : is_one entry.selected ≡ true
  pub only : (j : String) (e : SelectEntry) → Mem (j, e) m → is_one e.selected ≡ true → j ≡ k

-- No entry is selected.
abbrev pub IsUnset : Dict SelectEntry → Type 0
IsUnset m = (j : String) (e : SelectEntry) → Mem (j, e) m → is_one e.selected ≡ false

IsChoice-perm : (k : String) (m n : Dict SelectEntry) → Perm m n → IsChoice k m → IsChoice k n
IsChoice-perm k m n p c = record {
  entry = c.entry;
  there = (Perm.mem_iff p).0 c.there;
  selected = c.selected;
  only = λ j e h. c.only j e ((Perm.mem_iff p).1 h);
}

IsChoice-tail :
    (k j : String) (e : SelectEntry) (m : Dict SelectEntry)
    → is_one e.selected ≡ false
    → IsChoice k ((j, e) ∷ m)
    → IsChoice k m
IsChoice-tail k j e m p c = record {
  entry = c.entry;
  there =
      Or.elim Mem-prop (mem-cons.0 c.there)
        (λ same.
          let q : c.entry ≡ e = ap (λ (x : String × SelectEntry). x.1) same in
          absurd (cc (c.selected, p, q)))
        (λ behind. behind);
  selected = c.selected;
  only = λ i d h. c.only i d (mem-cons_of_mem (j, e) h);
}

first_selected-IsChoice : (k : String) (m : Dict SelectEntry) → IsChoice k m → first_selected m ≡ k
unfolding first_selected
first_selected-IsChoice k [] c = absurd (not-mem-nil c.there)
first_selected-IsChoice k ((j, e) ∷ m) c = elim (Bool-cases (is_one e.selected)) [
  | inl p ↦ rw p (c.only j e mem-cons_self p)
  | inr p ↦ rw p (first_selected-IsChoice k m (IsChoice-tail k j e m p c))
]

first_selected-IsUnset : (m : Dict SelectEntry) → IsUnset m → first_selected m ≡ ""
unfolding first_selected
first_selected-IsUnset [] u = refl
first_selected-IsUnset ((j, e) ∷ m) u =
    rw (u j e mem-cons_self) (first_selected-IsUnset m (λ i d h. u i d (mem-cons_of_mem (j, e) h)))

module _ (E : Env) (R : IsRange E) where
  -- Where a range over a map goes through its entries, in any order, and exactly one key has a
  -- selected entry, `selectedKey` gives that key.
  pub selected_key-IsChoice :
      (k : String) (m : Dict SelectEntry) → IsChoice k m → selected_key E (some m) ≡ k
  unfolding selected_key
  selected_key-IsChoice k m c =
      first_selected-IsChoice k (E.range m)
        (IsChoice-perm k m (E.range m) (Perm.symm (R.range-perm m)) c)

  -- Where a range over a map goes through its entries, in any order, and none is selected,
  -- `selectedKey` gives the empty text.
  pub selected_key-IsUnset : (m : Dict SelectEntry) → IsUnset m → selected_key E (some m) ≡ ""
  unfolding selected_key
  selected_key-IsUnset m u =
      first_selected-IsUnset (E.range m) (λ j e h. u j e ((Perm.mem_iff (R.range-perm m)).0 h))
