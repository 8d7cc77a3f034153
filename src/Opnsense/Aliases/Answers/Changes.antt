-- ===== src/Opnsense/Aliases/Answers/Changes.antt =====
-- What an answer to a change of aliases says, by the result that is read from it.
use opnsense_operator.Base.{
  String, ◌<>◌, ◌≡◌, inl, inr, true, some, Error, ok, err, Sentinel, arith, Result-cases,
}
use opnsense_operator.Runtime.{Env, IsForeign}
use opnsense_operator.Runtime.Errors.{is}
use opnsense_operator.Runtime.Monad.{World, post}
use opnsense_operator.Opnsense.Types.{Client, Alias}
use opnsense_operator.Opnsense.Payload.{alias_request, encode_alias, empty_object}
use opnsense_operator.Opnsense.Decode.{ResultResponse, decode_result_response}
use opnsense_operator.Opnsense.Foreign.{decode_result_response_foreign}
use opnsense_operator.Opnsense.Transport.{do_json}
use opnsense_operator.Opnsense.Transport.Sending.{do_json_foreign}
use opnsense_operator.Opnsense.Aliases.{
  create_alias, update_alias, delete_alias, reconfigure_aliases, read_created, read_updated,
  read_deleted, read_reconfigured, alias_not_found,
}

module _ (E : Env) (c : Client) where
  pub create_alias-eq-ok :
      (alias : Alias) (w : World E.State) (result : String)
      → (create_alias E c alias w).0 ≡ ok result
      → (body : String) × (response : ResultResponse) × ((do_json E c post
            ("/api/firewall/alias/addItem")
            (some (alias_request (encode_alias alias)))
            w).0
          ≡ ok body)
        × (decode_result_response E body ≡ ok response)
        × (read_created E "alias" response ≡ ok result)
  unfolding create_alias
  create_alias-eq-ok alias w result h =
      elim (Result-cases
        (do_json E c post ("/api/firewall/alias/addItem")
          (some (alias_request (encode_alias alias))) w).0) [
            | inr (e, p) ↦ absurd (ground arith)
            | inl (body, p) ↦ elim (Result-cases (decode_result_response E body)) [
              | inr (e', q) ↦ absurd (ground arith)
              | inl (response, q) ↦ (body, response, p, q, ground arith)
            ]
          ]

  pub update_alias-eq-ok :
      (uuid : String) (alias : Alias) (w : World E.State) (result : Unit {0})
      → (update_alias E c uuid alias w).0 ≡ ok result
      → (body : String) × (response : ResultResponse) × ((do_json E c post
            ("/api/firewall/alias/setItem/" <> uuid)
            (some (alias_request (encode_alias alias)))
            w).0
          ≡ ok body)
        × (decode_result_response E body ≡ ok response)
        × (read_updated E alias_not_found response ≡ ok result)
  unfolding update_alias
  update_alias-eq-ok uuid alias w result h =
      elim (Result-cases
        (do_json E c post ("/api/firewall/alias/setItem/" <> uuid)
          (some (alias_request (encode_alias alias))) w).0) [
            | inr (e, p) ↦ absurd (ground arith)
            | inl (body, p) ↦ elim (Result-cases (decode_result_response E body)) [
              | inr (e', q) ↦ absurd (ground arith)
              | inl (response, q) ↦ (body, response, p, q, ground arith)
            ]
          ]

  pub delete_alias-eq-ok :
      (uuid : String) (w : World E.State) (result : Unit {0})
      → (delete_alias E c uuid w).0 ≡ ok result
      → (body : String) × (response : ResultResponse) × ((do_json E c post
            ("/api/firewall/alias/delItem/" <> uuid)
            (some empty_object)
            w).0
          ≡ ok body)
        × (decode_result_response E body ≡ ok response)
        × (read_deleted E response ≡ ok result)
  unfolding delete_alias
  delete_alias-eq-ok uuid w result h =
      elim (Result-cases
        (do_json E c post ("/api/firewall/alias/delItem/" <> uuid) (some empty_object) w).0) [
          | inr (e, p) ↦ absurd (ground arith)
          | inl (body, p) ↦ elim (Result-cases (decode_result_response E body)) [
            | inr (e', q) ↦ absurd (ground arith)
            | inl (response, q) ↦ (body, response, p, q, ground arith)
          ]
        ]

  -- An error of the client's own stands for an answer of the server.
  pub delete_alias_own_error :
      IsForeign E
      → (uuid : String) (w : World E.State) (e : Error) (t : Sentinel)
      → (delete_alias E c uuid w).0 ≡ err e
      → is e t ≡ true
      → (body : String) × (response : ResultResponse) × ((do_json E c post
            ("/api/firewall/alias/delItem/" <> uuid)
            (some empty_object)
            w).0
          ≡ ok body)
        × (decode_result_response E body ≡ ok response)
        × (read_deleted E response ≡ err e)
  unfolding delete_alias
  delete_alias_own_error F uuid w e t h own =
      elim (Result-cases
        (do_json E c post ("/api/firewall/alias/delItem/" <> uuid) (some empty_object) w).0) [
          | inr (e', p) ↦ absurd (
              ground (
                arith,
                do_json_foreign E F c post ("/api/firewall/alias/delItem/" <> uuid)
                    (some empty_object) w e t,
              ))
          | inl (body, p) ↦ elim (Result-cases (decode_result_response E body)) [
            | inr (e', q) ↦ absurd (ground (arith, decode_result_response_foreign E F body e t))
            | inl (response, q) ↦ (body, response, p, q, ground arith)
          ]
        ]

  pub reconfigure_aliases-eq-ok :
      (w : World E.State) (result : Unit {0})
      → (reconfigure_aliases E c w).0 ≡ ok result
      → (body : String) × ((do_json E c post
            ("/api/firewall/alias/reconfigure")
            (some empty_object)
            w).0
          ≡ ok body)
        × (read_reconfigured E body ≡ ok result)
  unfolding reconfigure_aliases
  reconfigure_aliases-eq-ok w result h =
      elim (Result-cases
        (do_json E c post ("/api/firewall/alias/reconfigure") (some empty_object) w).0) [
          | inr (e, p) ↦ absurd (ground arith)
          | inl (body, p) ↦ (body, p, ground arith)
        ]
