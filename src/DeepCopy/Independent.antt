-- ===== src/DeepCopy/Independent.antt =====
-- Copies of whole resources and of their parts share nothing with what was copied.
use opnsense_operator.Base.{ℕ, ◌≤◌, ◌<◌, ◌≡◌, refl, Option, none, some}
use opnsense_operator.Api
use opnsense_operator.Api.{
  SecretReference, ConnectionReference, FirewallRuleEndpoint, CredentialsSpec,
}
use opnsense_operator.Manager.Launch.{ApiType}
use opnsense_operator.DeepCopy.Structs.{Foreign, Ref, Object}
use opnsense_operator.DeepCopy.Memory.{Memory, ◌>>=◌}
use opnsense_operator.DeepCopy.Memory.Slots.{
  alias_slot, rule_slot, connection_slot, alias_list_slot, rule_list_slot, connection_list_slot,
}
use opnsense_operator.DeepCopy.Generated.{
  Copier, Helpers, as_object, alias_into, rule_into, connection_into, alias_list_into,
  rule_list_into, connection_list_into, copy_alias, copy_rule, copy_connection, copy_alias_list,
  copy_rule_list, copy_connection_list, copy_alias_object, copy_rule_object, copy_connection_object,
  copy_alias_list_object, copy_rule_list_object, copy_connection_list_object,
}
use opnsense_operator.DeepCopy.Shape.{Shape, IsCopier}
use opnsense_operator.DeepCopy.Shape.Pointer.{pointer, pointer-IsCopier}
use opnsense_operator.DeepCopy.Shape.Struct.{Listed}
use opnsense_operator.DeepCopy.Shape.Resources.{
  Copies, alias, rule, connection, alias_list, rule_list, connection_list, alias-IsCopier,
  rule-IsCopier, connection-IsCopier, alias_list-IsCopier, rule_list-IsCopier,
  connection_list-IsCopier,
}

-- A copy of `x`, which reads as `v`, has been made: it reads as `v` too, and so it does after any
-- writes to what was there before it; and `x` reads as `v` after any writes to what is new.
pub record Independent {O : Foreign} {T V : Type 0} (S : Shape O T V) (m : Memory O) (x : T) (v : V)
    (r : Option (T × Memory O)) : Type 0 where
  pub copy : T
  pub after : Memory O
  pub returned : r ≡ some (copy, after)
  pub reads : S.Reads m.next after.next after copy v
  pub old_writes :
      (n : Memory O)
      → ((a : ℕ) → m.next ≤ a → after.cell a ≡ n.cell a)
      → S.Reads m.next after.next n copy v
  pub new_writes :
      (n : Memory O) → ((a : ℕ) → a < m.next → after.cell a ≡ n.cell a) → S.Reads 0 m.next n x v

module _ {O : Foreign} {T V : Type 0} (S : Shape O T V) (copy : Copier O T) (C : IsCopier S copy)
    (m : Memory O) (x : T) (v : V) (r : S.Reads 0 m.next m x v) where
  pub IsCopier-Independent : Independent S m x v (copy x m)
  IsCopier-Independent =
      let c = C.copies m x v r in
      record {
        copy = c.value;
        after = c.after;
        returned = c.returned;
        reads = c.reads;
        old_writes = λ n e.
            S.agreeing m.next c.after.next c.after n c.value v (λ a low high. e a low) c.reads;
        new_writes = λ n e.
            let kept = S.agreeing 0 m.next m c.after x v (λ a low high. c.extends.kept a high) r in
            S.agreeing 0 m.next c.after n x v (λ a low high. e a high) kept;
      }

as_object-same :
    {O : Foreign} (copy : Copier O Ref) (p q : Ref) (m n : Memory O)
    → copy p m ≡ some (q, n)
    → as_object copy p m ≡ some (q, n)
unfolding as_object
as_object-same copy p none m n e = rw (e, ◌>>=◌) refl
as_object-same copy p (some a) m n e = rw (e, ◌>>=◌) refl

as_object-IsCopier :
    {O : Foreign} {V : Type 0} (S : Shape O Ref V) (copy : Copier O Ref)
    → IsCopier S copy
    → IsCopier S (as_object copy)
as_object-IsCopier S copy C = record {
  copies = λ m p v r.
      let c = C.copies m p v r in
      record {
        value = c.value;
        after = c.after;
        returned = as_object-same copy p c.value m c.after c.returned;
        extends = c.extends;
        reads = c.reads;
      };
}

-- `DeepCopyObject`, by the type of the object behind the interface.
unfoldable pub deep_copy_object : {O : Foreign} → Helpers O → ApiType → Copier O Ref
deep_copy_object H ApiType.alias = copy_alias_object H
deep_copy_object H ApiType.alias_list = copy_alias_list_object H
deep_copy_object H ApiType.firewall_rule = copy_rule_object H
deep_copy_object H ApiType.firewall_rule_list = copy_rule_list_object H
deep_copy_object H ApiType.connection = copy_connection_object H
deep_copy_object H ApiType.connection_list = copy_connection_list_object H

module _ {O : Foreign} (H : Helpers O) (L : Copies O H) where
  -- What an object of a type reads as.
  abbrev pub ObjectValue : ApiType → Type 0
  ObjectValue ApiType.alias = Object Api.ObjectMeta Api.AliasSpec Api.AliasStatus
  ObjectValue ApiType.alias_list =
      Listed L.ListMeta (Object Api.ObjectMeta Api.AliasSpec Api.AliasStatus)
  ObjectValue ApiType.firewall_rule =
      Object Api.ObjectMeta Api.FirewallRuleSpec Api.FirewallRuleStatus
  ObjectValue ApiType.firewall_rule_list =
      Listed L.ListMeta (Object Api.ObjectMeta Api.FirewallRuleSpec Api.FirewallRuleStatus)
  ObjectValue ApiType.connection = Object Api.ObjectMeta Api.ConnectionSpec Api.ConnectionStatus
  ObjectValue ApiType.connection_list =
      Listed L.ListMeta (Object Api.ObjectMeta Api.ConnectionSpec Api.ConnectionStatus)

  abbrev pub object_shape : (k : ApiType) → Shape O Ref (Option (ObjectValue k))
  object_shape ApiType.alias = pointer alias_slot (alias H L)
  object_shape ApiType.alias_list = pointer alias_list_slot (alias_list H L)
  object_shape ApiType.firewall_rule = pointer rule_slot (rule H L)
  object_shape ApiType.firewall_rule_list = pointer rule_list_slot (rule_list H L)
  object_shape ApiType.connection = pointer connection_slot (connection H L)
  object_shape ApiType.connection_list = pointer connection_list_slot (connection_list H L)

  object-IsCopier : (k : ApiType) → IsCopier (object_shape k) (deep_copy_object H k)
  unfolding deep_copy_object copy_alias_object copy_alias_list_object copy_rule_object
      copy_rule_list_object copy_connection_object copy_connection_list_object copy_alias
      copy_alias_list copy_rule copy_rule_list copy_connection copy_connection_list
  object-IsCopier ApiType.alias =
      as_object-IsCopier _ _
        (pointer-IsCopier alias_slot (alias H L) (alias_into H) (alias-IsCopier H L))
  object-IsCopier ApiType.alias_list = as_object-IsCopier _ _ (
      pointer-IsCopier alias_list_slot (alias_list H L) (alias_list_into H)
        (alias_list-IsCopier H L))
  object-IsCopier ApiType.firewall_rule =
      as_object-IsCopier _ _
        (pointer-IsCopier rule_slot (rule H L) (rule_into H) (rule-IsCopier H L))
  object-IsCopier ApiType.firewall_rule_list =
      as_object-IsCopier _ _ (
        pointer-IsCopier rule_list_slot (rule_list H L) (rule_list_into H) (rule_list-IsCopier H L))
  object-IsCopier ApiType.connection = as_object-IsCopier _ _ (
      pointer-IsCopier connection_slot (connection H L) (connection_into H)
        (connection-IsCopier H L))
  object-IsCopier ApiType.connection_list = as_object-IsCopier _ _ (
      pointer-IsCopier connection_list_slot (connection_list H L) (connection_list_into H)
        (connection_list-IsCopier H L))

  -- Where `DeepCopyInto` of apimachinery copies, `DeepCopyObject` of every type that the API
  -- registers, given nil or a pointer to an object, returns, and its copy is independent of the
  -- object: the two read alike, and writes to what was there before do not show in the copy, nor
  -- writes to what is new in the object.
  pub deep_copy_object-Independent :
      (k : ApiType) (m : Memory O) (p : Ref) (v : Option (ObjectValue k))
      → Shape.Reads (object_shape k) 0 m.next m p v
      → Independent (object_shape k) m p v (deep_copy_object H k p m)
  deep_copy_object-Independent k m p v r =
      IsCopier-Independent (object_shape k) (deep_copy_object H k) (object-IsCopier k) m p v r
