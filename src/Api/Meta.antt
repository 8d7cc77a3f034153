-- ===== src/Api/Meta.antt =====
-- References between the resources, and the parts of Kubernetes' objects that the operator uses.
use opnsense_operator.Base.{ℕ, String, Bool, true, Option, none, some, List, ◌==◌, nat_eq}
use opnsense_operator.Base.Dict.{Dict}

-- `types.NamespacedName`
pub record Key : Type 0 where
  pub namespace : String
  pub name : String

-- `metav1.Condition`
pub record Condition : Type 0 where
  pub type : String
  pub status : String
  pub observed_generation : ℕ
  pub last_transition_time : String
  pub reason : String
  pub message : String

-- `metav1.ConditionTrue` and `metav1.ConditionFalse`
abbrev pub condition_true : String
condition_true = "True"

abbrev pub condition_false : String
condition_false = "False"

-- A time is its distance from Go's zero time.
pub record ObjectMeta : Type 0 where
  pub namespace : String
  pub name : String
  pub generation : ℕ
  pub deletion_timestamp : Option ℕ
  pub finalizers : List String

-- `(*metav1.Time).IsZero`
abbrev pub is_zero : Option ℕ → Bool
is_zero none = true
is_zero (some t) = t == 0

-- `corev1.Secret`, with its field `Data`
pub record Secret : Type 0 where
  pub contents : Dict String

pub record SecretReference : Type 0 where
  pub name : String
  pub namespace : String

-- `OPNsenseConnectionReference`
pub record ConnectionReference : Type 0 where
  pub name : String
