-- ===== src/Opnsense/Transport/Sending.antt =====
-- What `doJSON` sends, and when it succeeds.
use opnsense_operator.Base.{
  String, ◌≤◌, ◌<◌, ◌≡◌, refl, ◌⊎◌, inl, inr, Option, none, some, ◌∷◌, ok, err, arith, Result-cases,
  Error, Sentinel, false, ◌<>◌, Option-cases,
}
use opnsense_operator.Json.{Json}
use opnsense_operator.Runtime.{Env, IsForeign}
use opnsense_operator.Runtime.Monad.{World, Method, Request, Response, Event, sent}
use opnsense_operator.Runtime.Trace.{Extends, same, more}
use opnsense_operator.Runtime.Errors.{is}
use opnsense_operator.Opnsense.Types.{Client}
use opnsense_operator.Opnsense.Transport.{
  encode_body, request, check_request, send_request, read_response, do_json,
}

-- The call is a request of this method to this path, with the client's address and credentials.
abbrev pub Sends : Client → Method → String → Event → Type 0
Sends c method path (sent h r) =
    (h ≡ c.http_client)
    × (r.method ≡ method)
    × (r.url ≡ c.base_url <> path)
    × (r.user ≡ c.api_key)
    × (r.password ≡ c.api_secret)
Sends c method path _ = ⊥

module _ (E : Env) (c : Client) (method : Method) (path : String) (payload : Option Json) where
  -- What a call that gave `text` and left the world `w'` has done.
  pub record Delivered (w : World E.State) (text : String) (w' : World E.State) : Type 0 where
    pub body : Option String
    pub resp : Response
    pub encoded : encode_body E payload ≡ ok body
    pub url_valid : E.check_url (request c method path body).url ≡ none
    pub answered : (E.send c.http_client (request c method path body) w.state).0 ≡ ok resp
    pub read : resp.body ≡ ok text
    pub at_least : 200 ≤ resp.status_code
    pub below : resp.status_code < 300
    pub log_after : w'.log ≡ sent c.http_client (request c method path body) ∷ w.log
    pub state_after : w'.state ≡ (E.send c.http_client (request c method path body) w.state).1

  read_response-eq-ok :
      (resp : Response) (text : String)
      → read_response E resp ≡ ok text
      → (resp.body ≡ ok text) × (200 ≤ resp.status_code) × (resp.status_code < 300)
  unfolding read_response
  read_response-eq-ok resp text h = ground arith

  -- The exchange of a call that succeeded: the request was sent, and the answer has a status of
  -- the 200s and a body that was read.
  pub do_json-Delivered :
      (w : World E.State) (text : String)
      → (do_json E c method path payload w).0 ≡ ok text
      → Delivered w text (do_json E c method path payload w).1
  unfolding do_json check_request send_request
  do_json-Delivered w text h = elim (Result-cases (encode_body E payload)) [
    | inr (e, p) ↦ absurd (ground arith)
    | inl (body, p) ↦ elim (Option-cases (E.check_url (request c method path body).url)) [
      | inr (e, q) ↦ absurd (ground arith)
      | inl q ↦ elim (Result-cases (E.send c.http_client (request c method path body) w.state).0) [
        | inr (e, a) ↦ absurd (ground arith)
        | inl (resp, a) ↦
            let read : read_response E resp ≡ ok text = ground arith in
            let (text_is, low, high) = read_response-eq-ok resp text read in
            record {
              body = body;
              resp = resp;
              encoded = p;
              url_valid = q;
              answered = a;
              read = text_is;
              at_least = low;
              below = high;
              log_after = ground arith;
              state_after = ground arith;
            }
      ]
    ]
  ]

  -- A call sends one request or none.
  pub do_json-log :
      (w : World E.State)
      → ((do_json E c method path payload w).1.log ≡ w.log)
        ⊎ ((body : Option String) × ((do_json E c method path payload w).1.log
              ≡ sent c.http_client (request c method path body) ∷ w.log))
  unfolding do_json send_request
  do_json-log w = elim (Result-cases (encode_body E payload)) [
    | inr (e, p) ↦ inl (ground arith)
    | inl (body, p) ↦ elim (Result-cases (check_request E (request c method path body))) [
      | inr (e, q) ↦ inl (ground arith)
      | inl (u, q) ↦ inr (body, ground arith)
    ]
  ]

  -- The log behind a call that has sent its request, and behind one that may have failed before.
  abbrev pub One : World E.State → World E.State → Type 0
  One w w' = (e : Event) × Sends c method path e × (w'.log ≡ e ∷ w.log)

  abbrev pub Once : World E.State → World E.State → Type 0
  Once w w' = (w'.log ≡ w.log) ⊎ One w w'

  pub do_json-One :
      (w : World E.State) (text : String)
      → (do_json E c method path payload w).0 ≡ ok text
      → One w (do_json E c method path payload w).1
  unfolding request
  do_json-One w text h =
      let d = do_json-Delivered w text h in
      (
        sent c.http_client (request c method path d.body),
        (refl, refl, refl, refl, refl),
        d.log_after,
      )

  pub do_json-Once : (w : World E.State) → Once w (do_json E c method path payload w).1
  unfolding request
  do_json-Once w = elim (do_json-log w) [
    | inl p ↦ inl p
    | inr (body, p) ↦
        inr (sent c.http_client (request c method path body), (refl, refl, refl, refl, refl), p)
  ]

  pub do_json-Extends :
      (w : World E.State)
      → Extends (Sends c method path) w.log (do_json E c method path payload w).1.log
  unfolding request
  do_json-Extends w = elim (do_json-log w) [
    | inl p ↦ rw p same
    | inr (body, p) ↦ rw p (more (refl, refl, refl, refl, refl) same)
  ]

module _ (E : Env) (F : IsForeign E) (c : Client) (method : Method) (path : String) where
  encode_body_foreign :
      (payload : Option Json) (e : Error) (t : Sentinel)
      → encode_body E payload ≡ err e
      → is e t ≡ false
  unfolding encode_body is
  encode_body_foreign none e t h = absurd (ground arith)
  encode_body_foreign (some j) e t h = elim (Result-cases (E.marshal j)) [
    | inl (text, p) ↦ absurd (ground arith)
    | inr (e', p) ↦ ground (arith, F.marshal j e' t p)
  ]

  check_request_foreign :
      (r : Request) (e : Error) (t : Sentinel) → check_request E r ≡ err e → is e t ≡ false
  unfolding check_request is
  check_request_foreign r e t h = elim (Option-cases (E.check_url r.url)) [
    | inl p ↦ absurd (ground arith)
    | inr (e', p) ↦ ground (arith, F.check_url r.url e' t p)
  ]

  read_response_foreign :
      (r : Request) (s : E.State) (resp : Response) (e : Error) (t : Sentinel)
      → (E.send c.http_client r s).0 ≡ ok resp
      → read_response E resp ≡ err e
      → is e t ≡ false
  unfolding read_response is
  read_response_foreign r s resp e t answered h = elim (Result-cases resp.body) [
    | inl (text, p) ↦ ground arith
    | inr (e', p) ↦ ground (arith, F.read c.http_client r s resp e' t answered p)
  ]

  -- Where no error from outside is one of the package's own, none that `doJSON` returns is either.
  pub do_json_foreign :
      (payload : Option Json) (w : World E.State) (e : Error) (t : Sentinel)
      → (do_json E c method path payload w).0 ≡ err e
      → is e t ≡ false
  unfolding do_json send_request is
  do_json_foreign payload w e t h = elim (Result-cases (encode_body E payload)) [
    | inr (e', p) ↦ encode_body_foreign payload e t (ground arith)
    | inl (body, p) ↦
        let r = request c method path body in
        elim (Result-cases (check_request E r)) [
          | inr (e', q) ↦ check_request_foreign r e t (ground arith)
          | inl (u, q) ↦ elim (Result-cases (E.send c.http_client r w.state).0) [
            | inr (e', a) ↦ ground (arith, F.send c.http_client r w.state e' t a)
            | inl (resp, a) ↦ read_response_foreign r w.state resp e t a (ground arith)
          ]
        ]
  ]

-- A call with a payload that succeeded has sent its text.
pub do_json-sent :
    (E : Env) (c : Client) (method : Method) (path : String) (j : Json) (w : World E.State)
    (text : String)
    → (do_json E c method path (some j) w).0 ≡ ok text
    → (body : String) × (E.marshal j ≡ ok body)
      × ((do_json E c method path (some j) w).1.log
          ≡ sent c.http_client (request c method path (some body)) ∷ w.log)
unfolding encode_body
do_json-sent E c method path j w text h =
    let d = do_json-Delivered E c method path (some j) w text h in
    elim (Result-cases (E.marshal j)) [
      | inr (e, p) ↦ absurd (let q : encode_body E (some j) ≡ ok d.body = d.encoded in ground arith)
      | inl (body, p) ↦
          let q : encode_body E (some j) ≡ ok d.body = d.encoded in
          let same_body : d.body ≡ some body = ground arith in
          (body, p, rw same_body at d.log_after)
    ]

-- A call without a payload that succeeded has sent a request without a body.
pub do_json-got :
    (E : Env) (c : Client) (method : Method) (path : String) (w : World E.State) (text : String)
    → (do_json E c method path none w).0 ≡ ok text
    → (do_json E c method path none w).1.log
      ≡ sent c.http_client (request c method path none) ∷ w.log
unfolding encode_body
do_json-got E c method path w text h =
    let d = do_json-Delivered E c method path none w text h in
    let q : encode_body E none ≡ ok d.body = d.encoded in
    let no_body : d.body ≡ none = ground arith in rw no_body at d.log_after
