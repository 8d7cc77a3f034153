-- ===== src/Runtime.antt =====
-- What the operator runs on: the code outside the repository as a parameter, the world that the
-- code outside acts on, and the steps of the operator's own code.
--
-- `Env` holds the functions that the operator calls and does not implement: the Kubernetes client,
-- the helpers of apimachinery and controller-runtime, the transport of net/http, the text layer of
-- encoding/json, and a few functions of the standard library that turn on tables (`%q`, PEM, URL
-- syntax). `State` is the state of the cluster, the OPNsense server and the clock together; every
-- call may change it in any way, so that other clients of both are included.
pub mod Monad
pub mod Plain
pub mod Fallible
pub mod Errors
pub mod Trace
use opnsense_operator.Base.{
  String, ◌≡◌, Bool, true, false, Option, none, some, List, Error, Result, Sentinel, if◌then◌else◌,
  ◌≢◌,
}
use opnsense_operator.Base.Dict.{Dict}
use opnsense_operator.Api.{Key, Condition, Secret, Alias, FirewallRule, OpnsenseConnection}
use opnsense_operator.Json.{Json}
use opnsense_operator.Runtime.Errors.{is}
use opnsense_operator.Runtime.Monad.{HttpClient, Request, Response}
use mathlib.Core.List.{Perm}

pub record Env : Type 1 where
  pub State : Type 0
  -- `client.Client`: `Get` on each kind, `Update`, and `Status().Update`
  pub get_alias : Key → State → Result Alias × State
  pub get_rule : Key → State → Result FirewallRule × State
  pub get_connection : Key → State → Result OpnsenseConnection × State
  pub get_secret : Key → State → Result Secret × State
  pub update_alias : Alias → State → Option Error × State
  pub update_rule : FirewallRule → State → Option Error × State
  pub update_alias_status : Alias → State → Option Error × State
  pub update_rule_status : FirewallRule → State → Option Error × State
  pub update_connection_status : OpnsenseConnection → State → Option Error × State
  -- `apierrors.IsNotFound` and `client.IgnoreNotFound`
  pub is_not_found : Error → Bool
  pub ignore_not_found : Error → Option Error
  -- `meta.FindStatusCondition` and `meta.SetStatusCondition`, which reads the clock
  pub find_status_condition : List Condition → String → Option Condition
  pub set_status_condition : State → List Condition → Condition → List Condition
  -- controllerutil, on the finalizers of an object
  pub contains_finalizer : List String → String → Bool
  pub add_finalizer : List String → String → List String
  pub remove_finalizer : List String → String → List String
  -- `(*http.Client).Do`, and the error of `http.NewRequestWithContext` for a URL
  pub send : HttpClient → Request → State → Result Response × State
  pub check_url : String → Option Error
  -- `(*x509.CertPool).AppendCertsFromPEM`
  pub append_certs_from_pem : String → Bool
  -- the text of a JSON value, and the value of a text
  pub marshal : Json → Result String
  pub parse : String → Result Json
  -- the error for a value that does not fit a Go type, by the type's name
  pub unmarshal_type_error : String → Json → Error
  -- the order in which `range` goes through a map, one for the whole run
  pub range : {V : Type 0} → Dict V → Dict V
  -- `strconv.Quote`, the verb `%q`
  pub quote : String → String

-- A range over a map goes through all its entries, each once, in some order.
pub record IsRange (E : Env) : Type 1 where
  pub range-perm : {V : Type 0} (m : Dict V) → Perm (E.range m) m

-- A condition that was set is found by its type, with the status that it was given.
pub record KeepsConditions (E : Env) : Type 0 where
  pub find-set :
      (s : E.State) (conditions : List Condition) (c : Condition)
      → (d : Condition) × (E.find_status_condition (E.set_status_condition s conditions c) c.type
          ≡ some d)
        × (d.status ≡ c.status)

-- The package variables `Err…` are the operator's own: no error that comes from outside is one of
-- them or wraps one.
pub record IsForeign (E : Env) : Type 0 where
  pub send :
      (h : HttpClient) (r : Request) (s : E.State) (e : Error) (t : Sentinel)
      → (E.send h r s).0 ≡ Result.err e
      → is e t ≡ false
  pub read :
      (h : HttpClient) (r : Request) (s : E.State) (resp : Response) (e : Error) (t : Sentinel)
      → (E.send h r s).0 ≡ Result.ok resp
      → resp.body ≡ Result.err e
      → is e t ≡ false
  pub check_url :
      (url : String) (e : Error) (t : Sentinel) → E.check_url url ≡ some e → is e t ≡ false
  pub marshal : (j : Json) (e : Error) (t : Sentinel) → E.marshal j ≡ Result.err e → is e t ≡ false
  pub parse : (s : String) (e : Error) (t : Sentinel) → E.parse s ≡ Result.err e → is e t ≡ false
  pub unmarshal_type_error :
      (go_type : String) (j : Json) (t : Sentinel) → is (E.unmarshal_type_error go_type j) t ≡ false
