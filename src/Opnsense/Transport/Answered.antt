-- ===== src/Opnsense/Transport/Answered.antt =====
-- What `doJSON` gives of an answer of OPNsense.
use opnsense_operator.Base.{String, ◌<>◌, ◌≡◌, none, ok, true, arith}
use opnsense_operator.Runtime.{Env}
use opnsense_operator.Runtime.Monad.{World, Response, get}
use opnsense_operator.Opnsense.Types.{Client}
use opnsense_operator.Opnsense.Transport.{
  encode_body, request, check_request, send_request, read_response, do_json, is_success,
}

-- To a GET request for `path`, sent in the state `s`, comes an answer of the 200s with this text.
pub record Answers (E : Env) (c : Client) (path text : String) (s : E.State) : Type 0 where
  pub valid : E.check_url (c.base_url <> path) ≡ none
  pub response : Response
  pub answered : (E.send c.http_client (request c get path none) s).0 ≡ ok response
  pub body : response.body ≡ ok text
  pub success : is_success response.status_code ≡ true

module _ (E : Env) where
  read_response-success :
      (resp : Response) (text : String)
      → resp.body ≡ ok text
      → is_success resp.status_code ≡ true
      → read_response E resp ≡ ok text
  unfolding read_response
  read_response-success resp text b s = ground arith

  pub do_json-Answers :
      (c : Client) (path text : String) (w : World E.State)
      → Answers E c path text w.state
      → (do_json E c get path none w).0 ≡ ok text
  unfolding do_json encode_body check_request send_request request
  do_json-Answers c path text w a =
      ground (arith, a.valid, a.answered, read_response-success a.response text a.body a.success)
