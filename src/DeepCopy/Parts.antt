-- ===== src/DeepCopy/Parts.antt =====
-- `DeepCopy` of the parts of the resources.
use opnsense_operator.Base.{Option}
use opnsense_operator.Api
use opnsense_operator.DeepCopy.Structs.{Foreign, Ref}
use opnsense_operator.DeepCopy.Memory.{Memory}
use opnsense_operator.DeepCopy.Memory.Slots.{
  secret_reference_slot, connection_reference_slot, endpoint_slot, credentials_spec_slot,
  tls_spec_slot, connection_spec_slot, connection_status_slot, alias_spec_slot, alias_status_slot,
  rule_spec_slot, rule_status_slot,
}
use opnsense_operator.DeepCopy.Generated.{
  Copier, Helpers, copy_secret_reference, copy_connection_reference, copy_endpoint,
  copy_credentials_spec, copy_tls_spec, copy_connection_spec, copy_connection_status,
  copy_alias_spec, copy_alias_status, copy_rule_spec, copy_rule_status, secret_reference_into,
  connection_reference_into, endpoint_into, credentials_spec_into, tls_spec_into,
  connection_spec_into, connection_status_into, alias_spec_into, alias_status_into, rule_spec_into,
  rule_status_into,
}
use opnsense_operator.DeepCopy.Shape.{Shape, IsCopier}
use opnsense_operator.DeepCopy.Shape.Pointer.{flat, flat-IsCopier, pointer, pointer-IsCopier}
use opnsense_operator.DeepCopy.Shape.Resources.{
  Copies, tls_spec, connection_spec, connection_status, alias_spec, alias_status, rule_spec,
  rule_status, tls_spec-IsCopier, connection_spec-IsCopier, connection_status-IsCopier,
  alias_spec-IsCopier, alias_status-IsCopier, rule_spec-IsCopier, rule_status-IsCopier,
}
use opnsense_operator.DeepCopy.Independent.{Independent, IsCopier-Independent}

-- The types of api/v1alpha1 that are parts of the resources.
pub data PartType : Type 0 where
  secret_reference_type connection_reference_type endpoint_type credentials_spec_type tls_spec_type
        connection_spec_type connection_status_type alias_spec_type alias_status_type rule_spec_type
        rule_status_type :
      PartType

abbrev pub PartValue : PartType → Type 0
PartValue secret_reference_type = Api.SecretReference
PartValue connection_reference_type = Api.ConnectionReference
PartValue endpoint_type = Api.FirewallRuleEndpoint
PartValue credentials_spec_type = Api.CredentialsSpec
PartValue tls_spec_type = Api.TlsSpec
PartValue connection_spec_type = Api.ConnectionSpec
PartValue connection_status_type = Api.ConnectionStatus
PartValue alias_spec_type = Api.AliasSpec
PartValue alias_status_type = Api.AliasStatus
PartValue rule_spec_type = Api.FirewallRuleSpec
PartValue rule_status_type = Api.FirewallRuleStatus

-- `DeepCopy`, by the type of its receiver.
unfoldable pub deep_copy : {O : Foreign} → Helpers O → PartType → Copier O Ref
deep_copy H secret_reference_type = copy_secret_reference
deep_copy H connection_reference_type = copy_connection_reference
deep_copy H endpoint_type = copy_endpoint
deep_copy H credentials_spec_type = copy_credentials_spec
deep_copy H tls_spec_type = copy_tls_spec
deep_copy H connection_spec_type = copy_connection_spec
deep_copy H connection_status_type = copy_connection_status H
deep_copy H alias_spec_type = copy_alias_spec
deep_copy H alias_status_type = copy_alias_status H
deep_copy H rule_spec_type = copy_rule_spec
deep_copy H rule_status_type = copy_rule_status H

module _ {O : Foreign} (H : Helpers O) (L : Copies O H) where
  abbrev pub part_shape : (k : PartType) → Shape O Ref (Option (PartValue k))
  part_shape secret_reference_type = pointer secret_reference_slot flat
  part_shape connection_reference_type = pointer connection_reference_slot flat
  part_shape endpoint_type = pointer endpoint_slot flat
  part_shape credentials_spec_type = pointer credentials_spec_slot flat
  part_shape tls_spec_type = pointer tls_spec_slot tls_spec
  part_shape connection_spec_type = pointer connection_spec_slot connection_spec
  part_shape connection_status_type = pointer connection_status_slot (connection_status H L)
  part_shape alias_spec_type = pointer alias_spec_slot alias_spec
  part_shape alias_status_type = pointer alias_status_slot (alias_status H L)
  part_shape rule_spec_type = pointer rule_spec_slot rule_spec
  part_shape rule_status_type = pointer rule_status_slot (rule_status H L)

  part-IsCopier : (k : PartType) → IsCopier (part_shape k) (deep_copy H k)
  unfolding deep_copy copy_secret_reference copy_connection_reference copy_endpoint
      copy_credentials_spec copy_tls_spec copy_connection_spec copy_connection_status
      copy_alias_spec copy_alias_status copy_rule_spec copy_rule_status secret_reference_into
      connection_reference_into endpoint_into credentials_spec_into
  part-IsCopier secret_reference_type =
      pointer-IsCopier secret_reference_slot flat secret_reference_into flat-IsCopier
  part-IsCopier connection_reference_type =
      pointer-IsCopier connection_reference_slot flat connection_reference_into flat-IsCopier
  part-IsCopier endpoint_type = pointer-IsCopier endpoint_slot flat endpoint_into flat-IsCopier
  part-IsCopier credentials_spec_type =
      pointer-IsCopier credentials_spec_slot flat credentials_spec_into flat-IsCopier
  part-IsCopier tls_spec_type =
      pointer-IsCopier tls_spec_slot tls_spec tls_spec_into tls_spec-IsCopier
  part-IsCopier connection_spec_type =
      pointer-IsCopier connection_spec_slot connection_spec connection_spec_into
        connection_spec-IsCopier
  part-IsCopier connection_status_type =
      pointer-IsCopier connection_status_slot (connection_status H L) (connection_status_into H)
        (connection_status-IsCopier H L)
  part-IsCopier alias_spec_type =
      pointer-IsCopier alias_spec_slot alias_spec alias_spec_into alias_spec-IsCopier
  part-IsCopier alias_status_type =
      pointer-IsCopier alias_status_slot (alias_status H L) (alias_status_into H)
        (alias_status-IsCopier H L)
  part-IsCopier rule_spec_type =
      pointer-IsCopier rule_spec_slot rule_spec rule_spec_into rule_spec-IsCopier
  part-IsCopier rule_status_type =
      pointer-IsCopier rule_status_slot (rule_status H L) (rule_status_into H)
        (rule_status-IsCopier H L)

  -- Where `DeepCopyInto` of apimachinery copies, `DeepCopy` of every part of a resource, given nil or a
  -- pointer to one, returns, and its copy is independent of the part.
  pub deep_copy-Independent :
      (k : PartType) (m : Memory O) (p : Ref) (v : Option (PartValue k))
      → Shape.Reads (part_shape k) 0 m.next m p v
      → Independent (part_shape k) m p v (deep_copy H k p m)
  deep_copy-Independent k m p v r =
      IsCopier-Independent (part_shape k) (deep_copy H k) (part-IsCopier k) m p v r
