-- ===== src/Opnsense/Foreign.antt =====
-- The errors of a body that cannot be decoded.
use opnsense_operator.Base.{
  String, ◌≡◌, inl, inr, false, Option, Error, err, Sentinel, arith, Result-cases, Option-cases,
}
use opnsense_operator.Json.{Json, store_struct}
use opnsense_operator.Runtime.{Env, IsForeign}
use opnsense_operator.Runtime.Errors.{is}
use opnsense_operator.Opnsense.Decode.{unmarshal, set_result, empty_result, decode_result_response}

module _ (E : Env) (F : IsForeign E) where
  pub unmarshal_foreign :
      {A : Type 0} (go_type : String) (store : Json → A → Option A) (zero : A) (text : String)
      (e : Error) (t : Sentinel)
      → unmarshal E go_type store zero text ≡ err e
      → is e t ≡ false
  unfolding unmarshal is
  unmarshal_foreign go_type store zero text e t h = elim (Result-cases (E.parse text)) [
    | inr (e', p) ↦ ground (arith, F.parse text e' t p)
    | inl (j, p) ↦ elim (Option-cases (store j zero)) [
      | inl q ↦ ground (arith, F.unmarshal_type_error go_type j t)
      | inr (a, q) ↦ absurd (ground arith)
    ]
  ]

  pub decode_result_response_foreign :
      (body : String) (e : Error) (t : Sentinel)
      → decode_result_response E body ≡ err e
      → is e t ≡ false
  unfolding decode_result_response is
  decode_result_response_foreign body e t h =
      elim (Result-cases
        (unmarshal E "resultResponse" (store_struct set_result) empty_result body)) [
          | inl (r, p) ↦ absurd (ground arith)
          | inr (e', p) ↦ ground (
            arith,
            unmarshal_foreign "resultResponse" (store_struct set_result) empty_result body e' t p,
          )
        ]
