-- ===== src/DeepCopy/Shape/Resources.antt =====
-- What the structs of api/v1alpha1 read as, and that their `DeepCopyInto` copies them.
use opnsense_operator.Base.{refl, none, List, []}
use opnsense_operator.Api.{SecretReference}
use opnsense_operator.Api
use opnsense_operator.DeepCopy.Structs.{
  Foreign, Ref, AliasSpec, AliasStatus, FirewallRuleSpec, FirewallRuleStatus, TlsSpec,
  ConnectionSpec, ConnectionStatus, Object, ObjectList, Alias, FirewallRule, OpnsenseConnection,
}
use opnsense_operator.DeepCopy.Memory.Slots.{
  strings_slot, int32_slot, conditions_slot, secret_reference_slot, tls_spec_slot, aliases_slot,
  rules_slot, connections_slot,
}
use opnsense_operator.DeepCopy.Generated.{
  Helpers, assign, copy_ref, copy_all, alias_spec_into, rule_spec_into, tls_spec_into,
  connection_spec_into, alias_status_into, rule_status_into, connection_status_into, alias_into,
  rule_into, connection_into, alias_list_into, rule_list_into, connection_list_into,
}
use opnsense_operator.DeepCopy.Shape.{Shape, IsCopier}
use opnsense_operator.DeepCopy.Shape.Pointer.{flat, flat-IsCopier, pointer, pointer-IsCopier}
use opnsense_operator.DeepCopy.Shape.Slice.{array, array-IsCopier, slice, slice-IsCopier}
use opnsense_operator.DeepCopy.Shape.Struct.{
  holding, holding-IsCopier, object, object-IsCopier, Listed, listed, listed-IsCopier,
}

module _ {O : Foreign} where
  abbrev pub alias_spec : Shape O AliasSpec Api.AliasSpec
  alias_spec =
      holding
        (λ (a : AliasSpec).
          let r : Api.AliasSpec = record {
            connection_ref = a.connection_ref;
            name = a.name;
            type = a.type;
            entries = [];
            description = a.description;
            enabled = a.enabled;
          } in
          r)
        (λ a. a.entries) (λ v. record v { entries = [] }) (λ v. v.entries) (slice strings_slot flat)

  pub alias_spec-IsCopier : IsCopier alias_spec alias_spec_into
  unfolding alias_spec_into
  alias_spec-IsCopier =
      holding-IsCopier _ _ _ _ (slice strings_slot flat) (λ a r. record a { entries = r })
        (copy_ref strings_slot assign) (λ a r. refl) (λ a r. refl)
        (slice-IsCopier strings_slot flat assign flat-IsCopier)

  abbrev pub rule_spec : Shape O FirewallRuleSpec Api.FirewallRuleSpec
  rule_spec =
      holding
        (λ (a : FirewallRuleSpec).
          let r : Api.FirewallRuleSpec = record {
            connection_ref = a.connection_ref;
            enabled = a.enabled;
            action = a.action;
            direction = a.direction;
            interface = a.interface;
            ip_protocol = a.ip_protocol;
            protocol = a.protocol;
            source = a.source;
            destination = a.destination;
            sequence = none;
            quick = a.quick;
            log = a.log;
            description = a.description;
          } in
          r)
        (λ a. a.sequence) (λ v. record v { sequence = none }) (λ v. v.sequence)
        (pointer int32_slot flat)

  pub rule_spec-IsCopier : IsCopier rule_spec rule_spec_into
  unfolding rule_spec_into
  rule_spec-IsCopier =
      holding-IsCopier _ _ _ _ (pointer int32_slot flat) (λ a r. record a { sequence = r })
        (copy_ref int32_slot assign) (λ a r. refl) (λ a r. refl)
        (pointer-IsCopier int32_slot flat assign flat-IsCopier)

  abbrev pub tls_spec : Shape O TlsSpec Api.TlsSpec
  tls_spec =
      holding
        (λ (a : TlsSpec).
          let r : Api.TlsSpec = record {
            insecure_skip_verify = a.insecure_skip_verify;
            ca_secret_ref = none;
          } in
          r)
        (λ a. a.ca_secret_ref) (λ v. record v { ca_secret_ref = none }) (λ v. v.ca_secret_ref)
        (pointer secret_reference_slot flat)

  pub tls_spec-IsCopier : IsCopier tls_spec tls_spec_into
  unfolding tls_spec_into
  tls_spec-IsCopier =
      holding-IsCopier _ _ _ _ (pointer secret_reference_slot flat)
        (λ a r. record a { ca_secret_ref = r }) (copy_ref secret_reference_slot assign)
        (λ a r. refl) (λ a r. refl)
        (pointer-IsCopier secret_reference_slot flat assign flat-IsCopier)

  abbrev pub connection_spec : Shape O ConnectionSpec Api.ConnectionSpec
  connection_spec =
      holding
        (λ (a : ConnectionSpec).
          let r : Api.ConnectionSpec = record {
            url = a.url;
            credentials = a.credentials;
            tls = none;
          } in
          r)
        (λ a. a.tls) (λ v. record v { tls = none }) (λ v. v.tls) (pointer tls_spec_slot tls_spec)

  pub connection_spec-IsCopier : IsCopier connection_spec connection_spec_into
  unfolding connection_spec_into
  connection_spec-IsCopier =
      holding-IsCopier _ _ _ _ (pointer tls_spec_slot tls_spec) (λ a r. record a { tls = r })
        (copy_ref tls_spec_slot tls_spec_into) (λ a r. refl) (λ a r. refl)
        (pointer-IsCopier tls_spec_slot tls_spec tls_spec_into tls_spec-IsCopier)

-- What `DeepCopyInto` of apimachinery does: it copies what the operator reads of the struct, and the
-- metadata of a list as a value of a type of its own.
pub record Copies (O : Foreign) (H : Helpers O) : Type 1 where
  pub ListMeta : Type 0
  pub object_meta : Shape O O.ObjectMeta Api.ObjectMeta
  pub list_meta : Shape O O.ListMeta ListMeta
  pub condition : Shape O O.Condition Api.Condition
  pub object_meta-IsCopier : IsCopier object_meta H.object_meta_into
  pub list_meta-IsCopier : IsCopier list_meta H.list_meta_into
  pub condition-IsCopier : IsCopier condition H.condition_into

module _ {O : Foreign} (H : Helpers O) (L : Copies O H) where
  abbrev pub conditions : Shape O Ref (List Api.Condition)
  conditions = slice conditions_slot (array L.condition)

  conditions-IsCopier : IsCopier conditions (copy_ref conditions_slot (copy_all H.condition_into))
  conditions-IsCopier =
      slice-IsCopier conditions_slot (array L.condition) (copy_all H.condition_into)
        (array-IsCopier L.condition H.condition_into L.condition-IsCopier)

  abbrev pub alias_status : Shape O AliasStatus Api.AliasStatus
  alias_status =
      holding
        (λ (a : AliasStatus).
          let r : Api.AliasStatus = record {
            uuid = a.uuid;
            observed_generation = a.observed_generation;
            conditions = [];
          } in
          r)
        (λ a. a.conditions) (λ v. record v { conditions = [] }) (λ v. v.conditions) (conditions)

  pub alias_status-IsCopier : IsCopier alias_status (alias_status_into H)
  unfolding alias_status_into
  alias_status-IsCopier =
      holding-IsCopier _ _ _ _ (conditions) (λ a r. record a { conditions = r })
        (copy_ref conditions_slot (copy_all H.condition_into)) (λ a r. refl) (λ a r. refl)
        (conditions-IsCopier)

  abbrev pub rule_status : Shape O FirewallRuleStatus Api.FirewallRuleStatus
  rule_status =
      holding
        (λ (a : FirewallRuleStatus).
          let r : Api.FirewallRuleStatus = record {
            uuid = a.uuid;
            sequence = a.sequence;
            observed_generation = a.observed_generation;
            conditions = [];
          } in
          r)
        (λ a. a.conditions) (λ v. record v { conditions = [] }) (λ v. v.conditions) (conditions)

  pub rule_status-IsCopier : IsCopier rule_status (rule_status_into H)
  unfolding rule_status_into
  rule_status-IsCopier =
      holding-IsCopier _ _ _ _ (conditions) (λ a r. record a { conditions = r })
        (copy_ref conditions_slot (copy_all H.condition_into)) (λ a r. refl) (λ a r. refl)
        (conditions-IsCopier)

  abbrev pub connection_status : Shape O ConnectionStatus Api.ConnectionStatus
  connection_status =
      holding
        (λ (a : ConnectionStatus). let r : Api.ConnectionStatus = record { conditions = [] } in r)
        (λ a. a.conditions) (λ v. record v { conditions = [] }) (λ v. v.conditions) (conditions)

  pub connection_status-IsCopier : IsCopier connection_status (connection_status_into H)
  unfolding connection_status_into
  connection_status-IsCopier =
      holding-IsCopier _ _ _ _ (conditions) (λ a r. record a { conditions = r })
        (copy_ref conditions_slot (copy_all H.condition_into)) (λ a r. refl) (λ a r. refl)
        (conditions-IsCopier)

  abbrev pub alias : Shape O (Alias O) (Object Api.ObjectMeta Api.AliasSpec Api.AliasStatus)
  alias = object L.object_meta alias_spec alias_status

  pub alias-IsCopier : IsCopier alias (alias_into H)
  unfolding alias_into
  alias-IsCopier =
      object-IsCopier L.object_meta alias_spec alias_status H.object_meta_into alias_spec_into
        (alias_status_into H) L.object_meta-IsCopier alias_spec-IsCopier alias_status-IsCopier

  abbrev pub rule :
      Shape O (FirewallRule O) (Object Api.ObjectMeta Api.FirewallRuleSpec Api.FirewallRuleStatus)
  rule = object L.object_meta rule_spec rule_status

  pub rule-IsCopier : IsCopier rule (rule_into H)
  unfolding rule_into
  rule-IsCopier =
      object-IsCopier L.object_meta rule_spec rule_status H.object_meta_into rule_spec_into
        (rule_status_into H) L.object_meta-IsCopier rule_spec-IsCopier rule_status-IsCopier

  abbrev pub connection :
      Shape O (OpnsenseConnection O) (Object Api.ObjectMeta Api.ConnectionSpec Api.ConnectionStatus)
  connection = object L.object_meta connection_spec connection_status

  pub connection-IsCopier : IsCopier connection (connection_into H)
  unfolding connection_into
  connection-IsCopier =
      object-IsCopier L.object_meta connection_spec connection_status H.object_meta_into
        connection_spec_into (connection_status_into H) L.object_meta-IsCopier
        connection_spec-IsCopier connection_status-IsCopier

  abbrev pub alias_list :
      Shape O
        (ObjectList O.ListMeta)
        (Listed L.ListMeta (Object Api.ObjectMeta Api.AliasSpec Api.AliasStatus))
  alias_list = listed aliases_slot L.list_meta alias

  pub alias_list-IsCopier : IsCopier alias_list (alias_list_into H)
  unfolding alias_list_into
  alias_list-IsCopier =
      listed-IsCopier aliases_slot L.list_meta alias H.list_meta_into (alias_into H)
        L.list_meta-IsCopier alias-IsCopier

  abbrev pub rule_list :
      Shape O
        (ObjectList O.ListMeta)
        (Listed L.ListMeta (Object Api.ObjectMeta Api.FirewallRuleSpec Api.FirewallRuleStatus))
  rule_list = listed rules_slot L.list_meta rule

  pub rule_list-IsCopier : IsCopier rule_list (rule_list_into H)
  unfolding rule_list_into
  rule_list-IsCopier =
      listed-IsCopier rules_slot L.list_meta rule H.list_meta_into (rule_into H)
        L.list_meta-IsCopier rule-IsCopier

  abbrev pub connection_list :
      Shape O
        (ObjectList O.ListMeta)
        (Listed L.ListMeta (Object Api.ObjectMeta Api.ConnectionSpec Api.ConnectionStatus))
  connection_list = listed connections_slot L.list_meta connection

  pub connection_list-IsCopier : IsCopier connection_list (connection_list_into H)
  unfolding connection_list_into
  connection_list-IsCopier =
      listed-IsCopier connections_slot L.list_meta connection H.list_meta_into (connection_into H)
        L.list_meta-IsCopier connection-IsCopier
