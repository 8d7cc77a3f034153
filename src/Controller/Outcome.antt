-- ===== src/Controller/Outcome.antt =====
-- What a reconcile returns, and Kubernetes' "Ready" condition.
use opnsense_operator.Base.{
  ℕ, String, Bool, false, Option, none, some, List, Error, ◌==◌, string_eq,
}
use opnsense_operator.Api.{Condition, condition_true}
use opnsense_operator.Runtime.{Env}
use opnsense_operator.Runtime.Errors.{message}

-- `(ctrl.Result, error)`; the delay is in seconds, and 0 is none.
pub record Outcome : Type 0 where
  pub requeue_after : ℕ
  pub error : Option Error

-- `ctrl.Result{}, err`
abbrev pub returns : Option Error → Outcome
returns e = record { requeue_after = 0; error = e }

-- `fmt.Errorf("…: %w", err)` under `if err != nil`.
abbrev pub wrap_some : String → Option Error → Option Error
wrap_some before none = none
wrap_some before (some e) = some (Error.wrap before e "")

-- `err.Error()`
abbrev pub text_of : Env → Error → String
text_of E e = message E.range e

-- `readyCond != nil && readyCond.Status == metav1.ConditionTrue`
unfoldable pub is_ready : Env → List Condition → Bool
is_ready E conditions = elim (E.find_status_condition conditions "Ready") [
  | none ↦ false
  | some c ↦ c.status == condition_true
]

-- The literal that the reconcilers pass to `meta.SetStatusCondition`.
abbrev pub ready_condition : String → String → String → ℕ → Condition
ready_condition status reason text generation = record {
  type = "Ready";
  status = status;
  observed_generation = generation;
  last_transition_time = "";
  reason = reason;
  message = text;
}
