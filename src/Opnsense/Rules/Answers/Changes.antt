-- ===== src/Opnsense/Rules/Answers/Changes.antt =====
-- What an answer to a change of rules says, by the result that is read from it.
use opnsense_operator.Base.{
  String, ◌<>◌, ◌≡◌, inl, inr, true, some, Error, ok, err, Sentinel, arith, Result-cases,
}
use opnsense_operator.Runtime.{Env, IsForeign}
use opnsense_operator.Runtime.Errors.{is}
use opnsense_operator.Runtime.Monad.{World, post}
use opnsense_operator.Opnsense.Types.{Client, FirewallRule}
use opnsense_operator.Opnsense.Payload.{rule_request, encode_firewall_rule, empty_object}
use opnsense_operator.Opnsense.Decode.{ResultResponse, decode_result_response}
use opnsense_operator.Opnsense.Transport.{do_json}
use opnsense_operator.Opnsense.Transport.Sending.{do_json_foreign}
use opnsense_operator.Opnsense.Aliases.{read_created, read_updated}
use opnsense_operator.Opnsense.Rules.{
  create_rule, update_rule, delete_rule, apply_firewall_rules, read_rule_deleted, read_applied,
  firewall_rule_not_found,
}

module _ (E : Env) (c : Client) where
  pub create_rule-eq-ok :
      (rule : FirewallRule) (w : World E.State) (result : String)
      → (create_rule E c rule w).0 ≡ ok result
      → (body : String) × (response : ResultResponse) × ((do_json E c post
            ("/api/firewall/filter/addRule")
            (some (rule_request (encode_firewall_rule rule)))
            w).0
          ≡ ok body)
        × (decode_result_response E body ≡ ok response)
        × (read_created E "rule" response ≡ ok result)
  unfolding create_rule
  create_rule-eq-ok rule w result h =
      elim (Result-cases
        (do_json E c post ("/api/firewall/filter/addRule")
          (some (rule_request (encode_firewall_rule rule))) w).0) [
            | inr (e, p) ↦ absurd (ground arith)
            | inl (body, p) ↦ elim (Result-cases (decode_result_response E body)) [
              | inr (e', q) ↦ absurd (ground arith)
              | inl (response, q) ↦ (body, response, p, q, ground arith)
            ]
          ]

  pub update_rule-eq-ok :
      (uuid : String) (rule : FirewallRule) (w : World E.State) (result : Unit {0})
      → (update_rule E c uuid rule w).0 ≡ ok result
      → (body : String) × (response : ResultResponse) × ((do_json E c post
            ("/api/firewall/filter/setRule/" <> uuid)
            (some (rule_request (encode_firewall_rule rule)))
            w).0
          ≡ ok body)
        × (decode_result_response E body ≡ ok response)
        × (read_updated E firewall_rule_not_found response ≡ ok result)
  unfolding update_rule
  update_rule-eq-ok uuid rule w result h =
      elim (Result-cases
        (do_json E c post ("/api/firewall/filter/setRule/" <> uuid)
          (some (rule_request (encode_firewall_rule rule))) w).0) [
            | inr (e, p) ↦ absurd (ground arith)
            | inl (body, p) ↦ elim (Result-cases (decode_result_response E body)) [
              | inr (e', q) ↦ absurd (ground arith)
              | inl (response, q) ↦ (body, response, p, q, ground arith)
            ]
          ]

  pub delete_rule-eq-ok :
      (uuid : String) (w : World E.State) (result : Unit {0})
      → (delete_rule E c uuid w).0 ≡ ok result
      → (body : String) × ((do_json E c post
            ("/api/firewall/filter/delRule/" <> uuid)
            (some empty_object)
            w).0
          ≡ ok body)
        × (read_rule_deleted E body ≡ ok result)
  unfolding delete_rule
  delete_rule-eq-ok uuid w result h =
      elim (Result-cases
        (do_json E c post ("/api/firewall/filter/delRule/" <> uuid) (some empty_object) w).0) [
          | inr (e, p) ↦ absurd (ground arith)
          | inl (body, p) ↦ (body, p, ground arith)
        ]

  -- An error of the client's own stands for an answer of the server.
  pub delete_rule_own_error :
      IsForeign E
      → (uuid : String) (w : World E.State) (e : Error) (t : Sentinel)
      → (delete_rule E c uuid w).0 ≡ err e
      → is e t ≡ true
      → (body : String) × ((do_json E c post
            ("/api/firewall/filter/delRule/" <> uuid)
            (some empty_object)
            w).0
          ≡ ok body)
        × (read_rule_deleted E body ≡ err e)
  unfolding delete_rule
  delete_rule_own_error F uuid w e t h own =
      elim (Result-cases
        (do_json E c post ("/api/firewall/filter/delRule/" <> uuid) (some empty_object) w).0) [
          | inr (e', p) ↦ absurd (
              ground (
                arith,
                do_json_foreign E F c post ("/api/firewall/filter/delRule/" <> uuid)
                    (some empty_object) w e t,
              ))
          | inl (body, p) ↦ (body, p, ground arith)
        ]

  pub apply_firewall_rules-eq-ok :
      (w : World E.State) (result : Unit {0})
      → (apply_firewall_rules E c w).0 ≡ ok result
      → (body : String) × ((do_json E c post ("/api/firewall/filter/apply") (some empty_object) w).0
          ≡ ok body)
        × (read_applied E body ≡ ok result)
  unfolding apply_firewall_rules
  apply_firewall_rules-eq-ok w result h =
      elim (Result-cases
        (do_json E c post ("/api/firewall/filter/apply") (some empty_object) w).0) [
          | inr (e, p) ↦ absurd (ground arith)
          | inl (body, p) ↦ (body, p, ground arith)
        ]
