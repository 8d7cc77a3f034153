-- ===== src/Controller/RuleReconciler/Rejected.antt =====
-- A creation that OPNsense refuses with field errors.
use opnsense_operator.Base.{String, ◌≡◌, refl, some, ◌∷◌, Error, Result, ok, err, sym, arith}
use opnsense_operator.Base.Dict.{Dict}
use opnsense_operator.Api.{FirewallRule, condition_false}
use opnsense_operator.Runtime.{Env, IsRange}
use opnsense_operator.Runtime.Errors.{is, as_validation, validation_text, message}
use opnsense_operator.Runtime.Errors.Message.{validation_text-range}
use opnsense_operator.Runtime.Monad.{World, updated_rule_status, post}
use opnsense_operator.Opnsense.Types.{Client}
use opnsense_operator.Opnsense.Payload.{rule_request, encode_firewall_rule}
use opnsense_operator.Opnsense.Decode.{
  ResultResponse, decode_result_response, result_failed, result_error, entries,
}
use opnsense_operator.Opnsense.Transport.{do_json}
use opnsense_operator.Opnsense.Rules.{create_rule}
use opnsense_operator.Opnsense.Aliases.{read_created}
use opnsense_operator.Opnsense.Rules.Requests.{create_rule_world}
use opnsense_operator.Controller.Outcome.{text_of}
use opnsense_operator.Controller.RuleStatus.{with_ready}
use opnsense_operator.Controller.RuleStatus.Written.{set_ready_failed-log, set_ready_failed-error}
use opnsense_operator.Controller.RuleReconciler.{create_external, create_reason, desired}
use opnsense_operator.Controller.RuleReconciler.Branches.{create_external-err}
use mathlib.Core.List.Perm

module _ (E : Env) (c : Client) (rule : FirewallRule) (w : World E.State) where
  -- The request that creates the rule has been sent, and answered with a text.
  abbrev pub sent : Result String × World E.State
  sent =
      do_json E c post "/api/firewall/filter/addRule"
        (some (rule_request (encode_firewall_rule (desired E rule)))) w

  create_rule-rejected :
      (body : String) (r : ResultResponse)
      → sent.0 ≡ ok body
      → decode_result_response E body ≡ ok r
      → r.result ≡ result_failed
      → (create_rule E c (desired E rule) w).0 ≡ err (Error.validation (entries r.validations))
  unfolding create_rule read_created result_error
  create_rule-rejected body r p q failed = ground arith

  rejected_reason :
      (fields : Dict String) → create_reason (Error.validation fields) ≡ "ValidationFailed"
  unfolding create_reason is
  rejected_reason fields = refl

  -- Where a range over a map goes through its entries, and OPNsense answers the creation of a rule
  -- with the result "failed", the creation makes no further request: it writes a status with Ready at
  -- False, the reason "ValidationFailed" and the field errors in the order of their names, and returns
  -- an error. `AsValidationError` finds the field errors in what the client returned.
  pub rejected_rule_create :
      IsRange E
      → (body : String) (r : ResultResponse) → sent.0 ≡ ok body
      → decode_result_response E body ≡ ok r
      → r.result ≡ result_failed
      → let fields = entries r.validations in
        ((create_external E c rule w).1.log
          ≡ updated_rule_status (
              with_ready E sent.1.state rule condition_false "ValidationFailed"
                (validation_text (λ m. m) fields))
            ∷ sent.1.log)
        × ((e : Error) × ((create_external E c rule w).0.error ≡ some e))
        × ((e : Error) × ((create_rule E c (desired E rule) w).0 ≡ err e)
            × (as_validation e ≡ some fields))
  unfolding as_validation message
  rejected_rule_create R body r p q failed =
      let fields = entries r.validations in
      let e = Error.validation fields in
      let refused = create_rule-rejected body r p q failed in
      let branch = create_external-err E c rule w e refused in
      let after = create_rule_world E c (desired E rule) w in
      let text =
        validation_text-range E.range (λ m. m) (λ m. R.range-perm m) (λ m. Perm.refl m) fields in
      (
        rw (branch, after, rejected_reason fields, sym text)
            (set_ready_failed-log E rule sent.1 "ValidationFailed" (text_of E e) e),
        rw (branch, after, rejected_reason fields)
            (set_ready_failed-error E rule sent.1 "ValidationFailed" (text_of E e) e),
        (e, refused, refl),
      )
