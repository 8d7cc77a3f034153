-- ===== src/Api/Group.antt =====
-- api/v1alpha1/groupversion_info.go; `SchemeBuilder` and `AddToScheme` stand with the process.
use opnsense_operator.Base.{String}

-- `schema.GroupVersion`
pub record GroupVersion : Type 0 where
  pub group : String
  pub version : String

-- `SchemeGroupVersion`, and `GroupVersion`, which is the same.
abbrev pub scheme_group_version : GroupVersion
scheme_group_version = record { group = "firewall.opnsense.io"; version = "v1alpha1" }
