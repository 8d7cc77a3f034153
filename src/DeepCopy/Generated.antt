-- ===== src/DeepCopy/Generated.antt =====
-- The methods of zz_generated.deepcopy.go. `…_into` is `DeepCopyInto`, which fills the variable that
-- the caller made: it gives the struct that is written there. `copy_…` is `DeepCopy`.
use opnsense_operator.Base.{none, some, List, [], ◌∷◌}
use opnsense_operator.Api.{
  SecretReference, ConnectionReference, FirewallRuleEndpoint, CredentialsSpec,
}
use opnsense_operator.DeepCopy.Structs.{
  Foreign, Ref, AliasSpec, AliasStatus, FirewallRuleSpec, FirewallRuleStatus, TlsSpec,
  ConnectionSpec, ConnectionStatus, Object, ObjectList, Alias, FirewallRule, OpnsenseConnection,
}
use opnsense_operator.DeepCopy.Memory.{Cmd, pure, ◌>>=◌, ◌>>◌, Slot, new, load, store}
use opnsense_operator.DeepCopy.Memory.Slots.{
  strings_slot, int32_slot, conditions_slot, secret_reference_slot, connection_reference_slot,
  endpoint_slot, credentials_spec_slot, tls_spec_slot, connection_spec_slot, connection_status_slot,
  alias_spec_slot, alias_status_slot, rule_spec_slot, rule_status_slot, alias_slot, rule_slot,
  connection_slot, aliases_slot, rules_slot, connections_slot, alias_list_slot, rule_list_slot,
  connection_list_slot,
}

-- `DeepCopyInto` of apimachinery.
pub record Helpers (O : Foreign) : Type 0 where
  pub object_meta_into : O.ObjectMeta → Cmd O O.ObjectMeta
  pub list_meta_into : O.ListMeta → Cmd O O.ListMeta
  pub condition_into : O.Condition → Cmd O O.Condition

abbrev pub Copier : Foreign → Type 0 → Type 0
Copier O T = T → Cmd O T

-- `*out = *in`
abbrev pub assign : {O : Foreign} {T : Type 0} → Copier O T
assign x = pure x

-- A pointer or a slice that is not nil is made anew, and what it refers to is copied there.
unfoldable pub copy_ref : {O : Foreign} {T : Type 0} → Slot O T → Copier O T → Copier O Ref
copy_ref slot copy none = pure none
copy_ref slot copy (some a) = do p ← new; x ← load slot a; y ← copy x; store slot p y; pure (some p)

-- The loop over the elements of a slice.
unfoldable pub copy_all : {O : Foreign} {T : Type 0} → Copier O T → Copier O (List T)
copy_all copy [] = pure []
copy_all copy (x ∷ xs) = do y ← copy x; ys ← copy_all copy xs; pure (y ∷ ys)

-- The form that `DeepCopyInto` of the three resources has, and that of their lists.
unfoldable pub object_into :
    {O : Foreign} {Meta Spec Status : Type 0}
    → Copier O Meta
    → Copier O Spec
    → Copier O Status
    → Copier O (Object Meta Spec Status)
object_into copy_meta copy_spec copy_status x = do
  meta ← copy_meta x.meta
  spec ← copy_spec x.spec
  status ← copy_status x.status
  pure (record { type_meta = x.type_meta; meta = meta; spec = spec; status = status })

unfoldable pub list_into :
    {O : Foreign} {Meta T : Type 0}
    → Copier O Meta
    → Slot O (List T)
    → Copier O T
    → Copier O (ObjectList Meta)
list_into copy_meta slot copy x = do
  meta ← copy_meta x.meta
  items ← copy_ref slot (copy_all copy) x.items
  pure (record { type_meta = x.type_meta; meta = meta; items = items })

-- `DeepCopyObject`: the copy, if it is not nil.
unfoldable pub as_object : {O : Foreign} → Copier O Ref → Copier O Ref
as_object copy p = do c ← copy p; elim c [ some a ↦ pure (some a) | none ↦ pure none ]

module _ {O : Foreign} where
  unfoldable pub secret_reference_into : Copier O SecretReference
  secret_reference_into = assign

  unfoldable pub connection_reference_into : Copier O ConnectionReference
  connection_reference_into = assign

  unfoldable pub endpoint_into : Copier O FirewallRuleEndpoint
  endpoint_into = assign

  unfoldable pub credentials_spec_into : Copier O CredentialsSpec
  credentials_spec_into x = pure (record x { secret_ref = x.secret_ref })

  unfoldable pub alias_spec_into : Copier O AliasSpec
  alias_spec_into x = do
    entries ← copy_ref strings_slot assign x.entries
    pure (record x { entries = entries })

  unfoldable pub rule_spec_into : Copier O FirewallRuleSpec
  rule_spec_into x = do
    sequence ← copy_ref int32_slot assign x.sequence
    pure (record x { sequence = sequence })

  unfoldable pub tls_spec_into : Copier O TlsSpec
  tls_spec_into x = do
    ca_secret_ref ← copy_ref secret_reference_slot assign x.ca_secret_ref
    pure (record x { ca_secret_ref = ca_secret_ref })

  unfoldable pub connection_spec_into : Copier O ConnectionSpec
  connection_spec_into x = do
    tls ← copy_ref tls_spec_slot tls_spec_into x.tls
    pure (record x { tls = tls })

  unfoldable pub copy_secret_reference : Copier O Ref
  copy_secret_reference = copy_ref secret_reference_slot secret_reference_into

  unfoldable pub copy_connection_reference : Copier O Ref
  copy_connection_reference = copy_ref connection_reference_slot connection_reference_into

  unfoldable pub copy_endpoint : Copier O Ref
  copy_endpoint = copy_ref endpoint_slot endpoint_into

  unfoldable pub copy_credentials_spec : Copier O Ref
  copy_credentials_spec = copy_ref credentials_spec_slot credentials_spec_into

  unfoldable pub copy_alias_spec : Copier O Ref
  copy_alias_spec = copy_ref alias_spec_slot alias_spec_into

  unfoldable pub copy_rule_spec : Copier O Ref
  copy_rule_spec = copy_ref rule_spec_slot rule_spec_into

  unfoldable pub copy_tls_spec : Copier O Ref
  copy_tls_spec = copy_ref tls_spec_slot tls_spec_into

  unfoldable pub copy_connection_spec : Copier O Ref
  copy_connection_spec = copy_ref connection_spec_slot connection_spec_into

module _ {O : Foreign} (H : Helpers O) where
  abbrev copy_conditions : Copier O Ref
  copy_conditions = copy_ref conditions_slot (copy_all H.condition_into)

  unfoldable pub alias_status_into : Copier O AliasStatus
  alias_status_into x = do
    conditions ← copy_conditions x.conditions
    pure (record x { conditions = conditions })

  unfoldable pub rule_status_into : Copier O FirewallRuleStatus
  rule_status_into x = do
    conditions ← copy_conditions x.conditions
    pure (record x { conditions = conditions })

  unfoldable pub connection_status_into : Copier O ConnectionStatus
  connection_status_into x = do
    conditions ← copy_conditions x.conditions
    pure (record x { conditions = conditions })

  unfoldable pub alias_into : Copier O (Alias O)
  alias_into = object_into H.object_meta_into alias_spec_into alias_status_into

  unfoldable pub rule_into : Copier O (FirewallRule O)
  rule_into = object_into H.object_meta_into rule_spec_into rule_status_into

  unfoldable pub connection_into : Copier O (OpnsenseConnection O)
  connection_into = object_into H.object_meta_into connection_spec_into connection_status_into

  unfoldable pub alias_list_into : Copier O (ObjectList O.ListMeta)
  alias_list_into = list_into H.list_meta_into aliases_slot alias_into

  unfoldable pub rule_list_into : Copier O (ObjectList O.ListMeta)
  rule_list_into = list_into H.list_meta_into rules_slot rule_into

  unfoldable pub connection_list_into : Copier O (ObjectList O.ListMeta)
  connection_list_into = list_into H.list_meta_into connections_slot connection_into

  unfoldable pub copy_alias_status : Copier O Ref
  copy_alias_status = copy_ref alias_status_slot alias_status_into

  unfoldable pub copy_rule_status : Copier O Ref
  copy_rule_status = copy_ref rule_status_slot rule_status_into

  unfoldable pub copy_connection_status : Copier O Ref
  copy_connection_status = copy_ref connection_status_slot connection_status_into

  unfoldable pub copy_alias : Copier O Ref
  copy_alias = copy_ref alias_slot alias_into

  unfoldable pub copy_rule : Copier O Ref
  copy_rule = copy_ref rule_slot rule_into

  unfoldable pub copy_connection : Copier O Ref
  copy_connection = copy_ref connection_slot connection_into

  unfoldable pub copy_alias_list : Copier O Ref
  copy_alias_list = copy_ref alias_list_slot alias_list_into

  unfoldable pub copy_rule_list : Copier O Ref
  copy_rule_list = copy_ref rule_list_slot rule_list_into

  unfoldable pub copy_connection_list : Copier O Ref
  copy_connection_list = copy_ref connection_list_slot connection_list_into

  unfoldable pub copy_alias_object : Copier O Ref
  copy_alias_object = as_object copy_alias

  unfoldable pub copy_rule_object : Copier O Ref
  copy_rule_object = as_object copy_rule

  unfoldable pub copy_connection_object : Copier O Ref
  copy_connection_object = as_object copy_connection

  unfoldable pub copy_alias_list_object : Copier O Ref
  copy_alias_list_object = as_object copy_alias_list

  unfoldable pub copy_rule_list_object : Copier O Ref
  copy_rule_list_object = as_object copy_rule_list

  unfoldable pub copy_connection_list_object : Copier O Ref
  copy_connection_list_object = as_object copy_connection_list
