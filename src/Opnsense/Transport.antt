-- ===== src/Opnsense/Transport.antt =====
-- `NewClient`, `doJSON` and the two calls that belong to no resource.
pub mod Sending
pub mod Answered
use opnsense_operator.Base.{
  ℕ, String, ◌<>◌, Bool, ◌||◌, Option, none, some, Error, Result, ok, err, ltb, leb, if◌then◌else◌,
  string_eq,
}
use opnsense_operator.Text.Trim.{trim_right, is_slash, trim_space}
use opnsense_operator.Text.Number.{decimal}
use opnsense_operator.Json.{Json, obj, null}
use opnsense_operator.Runtime.{Env}
use opnsense_operator.Runtime.Monad.{
  Action, HttpClient, default_client, Method, get, Request, Response, sent, tell, return, fail,
  lift, context,
}
use opnsense_operator.Runtime.Fallible.{◌>>=◌, ◌>>◌}
use opnsense_operator.Opnsense.Types.{Client}
use opnsense_operator.Opnsense.Decode.{unexpected, unmarshal}

-- `NewClient`, where `none` is a nil `*http.Client`.
unfoldable pub new_client : String → String → String → Option HttpClient → Client
new_client base_url api_key api_secret http_client = record {
  base_url = trim_right is_slash base_url;
  api_key = api_key;
  api_secret = api_secret;
  http_client = elim http_client [ none ↦ default_client | some h ↦ h ];
}

-- `http.NewRequestWithContext`, `SetBasicAuth` and the headers.
unfoldable pub request : Client → Method → String → Option String → Request
request c method path body = record {
  method = method;
  url = c.base_url <> path;
  user = c.api_key;
  password = c.api_secret;
  accept = "application/json";
  content_type = elim body [ none ↦ none | some text ↦ some "application/json" ];
  body = body;
}

abbrev pub is_success : ℕ → Bool
is_success n = if ltb n 200 || leb 300 n then Bool.false else Bool.true

module _ (E : Env) where
  -- `json.Marshal` of the payload, if there is one.
  unfoldable pub encode_body : Option Json → Result (Option String)
  encode_body none = ok none
  encode_body (some j) = elim (E.marshal j) [
    | ok text ↦ ok (some text)
    | err e ↦ err (Error.wrap "marshal request body: " e "")
  ]

  unfoldable pub check_request : Request → Result (Unit {0})
  check_request req = elim (E.check_url req.url) [
    | none ↦ ok tt
    | some e ↦ err (Error.wrap "create request: " e "")
  ]

  unfoldable pub send_request : HttpClient → Request → Action E.State Response
  send_request http_client req = tell (sent http_client req) (E.send http_client req)

  unfoldable pub read_response : Response → Result String
  read_response resp = elim resp.body [
    | err e ↦ err (Error.wrap "read response body: " e "")
    | ok text ↦
        if ltb resp.status_code 200 || leb 300 resp.status_code
        then err (
            Error.plain (
              "unexpected status code " <> (decimal resp.status_code <> (": " <> trim_space text))))
        else ok text
  ]

  -- `doJSON`
  unfoldable pub do_json : Client → Method → String → Option Json → Action E.State String
  do_json c method path payload = do
    body ← lift (encode_body payload)
    lift (check_request (request c method path body))
    resp ← context "send request: " (send_request c.http_client (request c method path body))
    lift (read_response resp)

  -- `var response map[string]any`
  abbrev store_any_map : Json → Unit {0} → Option (Unit {0})
  store_any_map (obj fields) u = some tt
  store_any_map null u = some tt
  store_any_map _ u = none

  unfoldable pub check_connectivity : Client → Action E.State (Unit {0})
  check_connectivity c = do
    body ← do_json c get "/api/core/system/status" none
    elim (unmarshal E "map[string]interface {}" store_any_map tt body) [
      | err e ↦ fail (unexpected ": connectivity check response is not valid JSON")
      | ok u ↦ return tt
    ]
