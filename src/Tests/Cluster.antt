-- ===== src/Tests/Cluster.antt =====
-- A cluster with one object of each kind, and a server that answers from a table: an instance of
-- the parameters of the model.
use opnsense_operator.Base.{
  ℕ, suc, String, ◌<>◌, ◌≡◌, refl, Bool, true, false, Option, none, some, List, [], ◌∷◌, Error,
  Result, ok, err, Sentinel, ◌==◌, string_eq, nat_eq, if◌then◌else◌, arith,
}
use opnsense_operator.Json.{
  Json, Items, Fields, null, bool, num, str, arr, obj, nil, cons, end, field,
}
use opnsense_operator.Api.{Condition, Alias, FirewallRule}
use opnsense_operator.Runtime.{Env, IsForeign}
use opnsense_operator.Runtime.Errors.{is}
use opnsense_operator.Tests.Objects.{connection, secret, alias_document, rule_document}

-- The text of a document, without escapes, which none of these needs.
abbrev mutual
  pub print : Json → String
  print null = "null"
  print (bool true) = "true"
  print (bool false) = "false"
  print (num s) = s
  print (str s) = "\"" <> (s <> "\"")
  print (arr items) = "[" <> (print_items items <> "]")
  print (obj fields) = "{" <> (print_fields fields <> "}")

  print_items : Items → String
  print_items nil = ""
  print_items (cons j js) = print j <> ("," <> print_items js)

  print_fields : Fields → String
  print_fields end = ""
  print_fields (field k v rest) = k <> (":" <> (print v <> ("," <> print_fields rest)))

-- The answer to a search that finds no rule.
abbrev no_rows : Json
no_rows = obj (field "rows" (arr nil) end)

abbrev documents : List Json
documents = alias_document ∷ rule_document ∷ no_rows ∷ []

abbrev search_url : String
search_url = "https://fw.example/api/firewall/filter/searchRule?searchPhrase=default%2Fweb"

-- The first document with this text.
unfoldable pub parse_in : List Json → String → Result Json
parse_in [] text = err (Error.external "json" "invalid")
parse_in (j ∷ js) text = if print j == text then ok j else parse_in js text

-- What the server answers.
unfoldable pub answer : String → String
answer url =
    if url == "https://fw.example/api/firewall/alias/export?ids=a1"
    then print alias_document
    else if url == "https://fw.example/api/firewall/filter/getRule/r1"
    then print rule_document
    else if url == search_url
    then print no_rows
    else "[]"

-- The finalizers without this one.
abbrev remove : List String → String → List String
remove [] f = []
remove (g ∷ fs) f = if g == f then remove fs f else g ∷ remove fs f

unfoldable pub contains : List String → String → Bool
contains [] f = false
contains (g ∷ fs) f = if g == f then true else contains fs f

unfoldable pub find : List Condition → String → Option Condition
find [] type = none
find (c ∷ cs) type = if c.type == type then some c else find cs type

abbrev pub set : List Condition → Condition → List Condition
set [] c = c ∷ []
set (d ∷ cs) c = if d.type == c.type then c ∷ cs else d ∷ set cs c

-- The state is the number of requests that the server has answered.
unfoldable pub cluster : Alias → FirewallRule → Env
cluster alias rule = record {
  State = ℕ;
  get_alias = λ key s. (ok alias, s);
  get_rule = λ key s. (ok rule, s);
  get_connection = λ key s. (ok connection, s);
  get_secret = λ key s. (ok secret, s);
  update_alias = λ a s. (none, s);
  update_rule = λ r s. (none, s);
  update_alias_status = λ a s. (none, s);
  update_rule_status = λ r s. (none, s);
  update_connection_status = λ c s. (none, s);
  is_not_found = λ e. false;
  ignore_not_found = λ e. some e;
  find_status_condition = find;
  set_status_condition = λ s cs c. set cs c;
  contains_finalizer = contains;
  add_finalizer = λ fs f. if contains fs f then fs else f ∷ fs;
  remove_finalizer = remove;
  send = λ h r s. (ok (record { status_code = 200; body = ok (answer r.url) }), suc s);
  check_url = λ url. if url == "" then some (Error.external "url" "empty url") else none;
  append_certs_from_pem = λ pem. if pem == "" then false else true;
  marshal = λ j. ok (print j);
  parse = parse_in documents;
  unmarshal_type_error = λ go_type j. Error.external "json" go_type;
  range = λ m. m;
  quote = λ s. "\"" <> (s <> "\"");
}

parse_in_foreign :
    (js : List Json) (text : String) (e : Error) (t : Sentinel)
    → parse_in js text ≡ err e
    → is e t ≡ false
unfolding parse_in is
parse_in_foreign [] text e t h = ground arith
parse_in_foreign (j ∷ js) text e t h = ground (arith, parse_in_foreign js text e t)

pub cluster-IsForeign : (alias : Alias) (rule : FirewallRule) → IsForeign (cluster alias rule)
unfolding cluster is
cluster-IsForeign alias rule = record {
  send = λ h r s e t p. absurd (cc);
  read = λ h r s resp e t answered p. absurd (ground arith);
  check_url = λ url e t p. ground arith;
  marshal = λ j e t p. absurd (cc);
  parse = λ s e t p. parse_in_foreign documents s e t p;
  unmarshal_type_error = λ go_type j t. refl;
}
