-- ===== src/Opnsense/Aliases.antt =====
-- The alias endpoints of the client.
pub mod Requests
pub mod Answers
pub mod RoundTrip
use opnsense_operator.Base.{
  String, ◌<>◌, ◌&&◌, Option, none, some, Error, Result, ok, err, Sentinel, ◌==◌, string_eq,
  if◌then◌else◌,
}
use opnsense_operator.Base.Dict
use opnsense_operator.Base.Dict.{Dict}
use opnsense_operator.Text.Trim.{trim_space}
use opnsense_operator.Text.Escape.{query_escape}
use opnsense_operator.Json.{Json, arr, obj, nil, cons}
use opnsense_operator.Runtime.{Env}
use opnsense_operator.Runtime.Monad.{Action, get, post, lift}
use opnsense_operator.Runtime.Fallible.{◌>>=◌}
use opnsense_operator.Opnsense.Types.{Client, Alias}
use opnsense_operator.Opnsense.Payload.{alias_request, encode_alias, empty_object}
use opnsense_operator.Opnsense.Decode.{
  unexpected, unmarshal, store_only, ResultResponse, decode_result_response, result_error,
  result_failed, entries, has_none, ExportedAlias, store_aliases, store_export,
}
use opnsense_operator.Opnsense.Transport.{do_json}

abbrev pub alias_not_found : Error
alias_not_found = Error.sentinel Sentinel.alias_not_found

-- `if err := …; err != nil { return err }` for an error that is computed, and nil.
abbrev pub nil_or : Option Error → Result (Unit {0})
nil_or none = ok tt
nil_or (some e) = err e

abbrev export_error : String → Error
export_error after = unexpected (": export alias response " <> after)

-- The alias of an exported member.
unfoldable pub from_export : ExportedAlias → Result Alias
from_export r =
    if r.name == ""
    then err (unexpected ": exported alias did not contain a name")
    else if r.type == ""
    then err (unexpected ": exported alias did not contain a type")
    else ok (record {
      enabled = r.enabled == "1";
      name = r.name;
      type = r.type;
      content = r.content;
      description = r.description;
    })

module _ (E : Env) where
  -- `GetAliasUUIDByName`, behind the request.
  unfoldable pub read_alias_uuid : String → Result String
  read_alias_uuid body =
      let trimmed = trim_space body in
      if trimmed == "[]"
      then err alias_not_found
      else elim (unmarshal E "struct { UUID string }" (store_only "uuid") "" trimmed) [
        | err e ↦ err (Error.wrap "decode alias uuid response: " e "")
        | ok uuid ↦
            if uuid == ""
            then err (unexpected ": alias uuid response did not contain a uuid")
            else ok uuid
      ]

  unfoldable pub get_alias_uuid_by_name : Client → String → Action E.State String
  get_alias_uuid_by_name c name = do
    body ← do_json E c get ("/api/firewall/alias/getAliasUUID/" <> name) none
    lift (read_alias_uuid body)

  -- The object under `alias`, and the array that stands there where there is no alias.
  unfoldable pub read_alias_map : String → Json → Result Alias
  read_alias_map uuid j = elim (store_aliases j none) [
    | none ↦ err (
        Error.wrap "decode exported alias object: " (E.unmarshal_type_error "map[string]struct" j)
          "")
    | some aliases ↦
        if has_none (entries aliases)
        then err alias_not_found
        else elim (Dict.lookup uuid (entries aliases)) [
          | none ↦ err (export_error ("did not contain requested uuid " <> E.quote uuid))
          | some exported ↦ from_export exported
        ]
  ]

  unfoldable pub read_alias_data : String → Option Json → Result Alias
  read_alias_data uuid none = err (export_error "did not contain alias data")
  read_alias_data uuid (some (arr nil)) = err alias_not_found
  read_alias_data uuid (some (arr (cons j js))) = err (export_error "returned an unexpected array")
  read_alias_data uuid (some (obj fields)) = read_alias_map uuid (obj fields)
  read_alias_data uuid (some j) = err (export_error "had unexpected alias payload")

  -- `GetAlias`, behind the request.
  unfoldable pub read_alias : String → String → Result Alias
  read_alias uuid body = elim (unmarshal E "struct { Aliases struct }" store_export none body) [
    | err e ↦ err (Error.wrap "decode export alias response: " e "")
    | ok raw ↦ read_alias_data uuid raw
  ]

  unfoldable pub get_alias : Client → String → Action E.State Alias
  get_alias c uuid = do
    body ← do_json E c get ("/api/firewall/alias/export?ids=" <> query_escape uuid) none
    lift (read_alias uuid body)

  -- The tail of `CreateAlias`, and of `CreateRule` with another word.
  unfoldable pub read_created : String → ResultResponse → Result String
  read_created what response = elim (result_error E response "saved") [
    | some e ↦ err e
    | none ↦
        if response.uuid == ""
        then err (unexpected (": create " <> (what <> " response did not contain a uuid")))
        else ok response.uuid
  ]

  unfoldable pub create_alias : Client → Alias → Action E.State String
  create_alias c alias = do
    body ←
        do_json E c post "/api/firewall/alias/addItem" (some (alias_request (encode_alias alias)))
    response ← lift (decode_result_response E body)
    lift (read_created "alias" response)

  -- The tail of `UpdateAlias`, and of `UpdateRule` with the other error.
  unfoldable pub read_updated : Error → ResultResponse → Result (Unit {0})
  read_updated not_found response =
      if (response.result == result_failed) && has_none (entries response.validations)
      then err not_found
      else nil_or (result_error E response "saved")

  unfoldable pub update_alias : Client → String → Alias → Action E.State (Unit {0})
  update_alias c uuid alias = do
    body ←
        do_json E c post ("/api/firewall/alias/setItem/" <> uuid)
          (some (alias_request (encode_alias alias)))
    response ← lift (decode_result_response E body)
    lift (read_updated alias_not_found response)

  -- The tail of `DeleteAlias`.
  unfoldable pub read_deleted : ResultResponse → Result (Unit {0})
  read_deleted response =
      if response.result == "not found"
      then err alias_not_found
      else nil_or (result_error E response "deleted")

  unfoldable pub delete_alias : Client → String → Action E.State (Unit {0})
  delete_alias c uuid = do
    body ← do_json E c post ("/api/firewall/alias/delItem/" <> uuid) (some empty_object)
    response ← lift (decode_result_response E body)
    lift (read_deleted response)

  -- The tail of `ReconfigureAliases`.
  unfoldable pub read_reconfigured : String → Result (Unit {0})
  read_reconfigured body =
      elim (unmarshal E "struct { Status string }" (store_only "status") "" body) [
        | err e ↦ err (Error.wrap "decode reconfigure response: " e "")
        | ok status ↦
            if status == "ok"
            then ok tt
            else err (unexpected (": expected reconfigure status ok, got " <> E.quote status))
      ]

  unfoldable pub reconfigure_aliases : Client → Action E.State (Unit {0})
  reconfigure_aliases c = do
    body ← do_json E c post "/api/firewall/alias/reconfigure" (some empty_object)
    lift (read_reconfigured body)
