-- ===== src/Opnsense/Aliases/RoundTrip.antt =====
-- An alias that is sent to OPNsense and read back from an export of it.
use opnsense_operator.Base.{
  String, ◌≡◌, ◌≢◌, refl, some, none, ok, [], ◌∷◌, ◌==◌, arith, string_eq, if◌then◌else◌,
}
use opnsense_operator.Base.Dict.{lookup, insert}
use mathlib.Core.Option.{bind}
use opnsense_operator.Text.Escape.{names_field}
use opnsense_operator.Json.{
  Json, Fields, str, obj, field, end, store_string, store_fields, store_struct, store_entries,
  store_map,
}
use opnsense_operator.Runtime.{Env}
use opnsense_operator.Opnsense.Types.{Alias}
use opnsense_operator.Opnsense.Payload.{AliasPayload, encode_alias, bool_to_str, omit_empty}
use opnsense_operator.Opnsense.Payload.Flags.{read_flag}
use opnsense_operator.Opnsense.Decode.{
  ExportedAlias, set_exported, unmarshal, store_aliases, store_export,
}
use opnsense_operator.Opnsense.Aliases.{from_export, read_alias_map, read_alias_data, read_alias}

-- The members of an alias in an export that gives them as they were sent.
abbrev pub exported_fields : AliasPayload → Fields
exported_fields p = field "enabled" (str p.enabled) (
    field "name" (str p.name) (
      field "type" (str p.type)
        (field "content" (str p.content) (omit_empty "description" p.description end))))

-- An export of one alias, by its members, and of one that is exported as it was sent.
abbrev pub export_members : String → Fields → Json
export_members uuid members =
    obj (field "aliases" (obj (field "alias" (obj (field uuid (obj members) end)) end)) end)

abbrev pub export_document : String → AliasPayload → Json
export_document uuid p = export_members uuid (exported_fields p)

-- What is decoded from these members, over what the variable held.
abbrev merged : AliasPayload → ExportedAlias → ExportedAlias
merged p old = record {
  enabled = p.enabled;
  name = p.name;
  type = p.type;
  content = p.content;
  description = if p.description == "" then old.description else p.description;
}

abbrev no_members : ExportedAlias
no_members = record { enabled = ""; name = ""; type = ""; content = ""; description = "" }

store_fields-merged :
    (p : AliasPayload) (old : ExportedAlias)
    → store_fields set_exported (exported_fields p) old ≡ some (merged p old)
unfolding store_fields names_field store_string omit_empty bind
store_fields-merged p old = elim (string_eq.dec p.description "") [
  | yes e ↦ ground arith
  | no e ↦ ground arith
]

merged_fresh : (p : AliasPayload) → (merged p no_members).description ≡ p.description
merged_fresh p = ground arith

store-export :
    (uuid : String) (p : AliasPayload)
    → store_export (export_document uuid p) none
      ≡ some (some (obj (field uuid (obj (exported_fields p)) end)))
unfolding store_export store_struct store_fields names_field bind
store-export uuid p = refl

store-aliases :
    (uuid : String) (p : AliasPayload)
    → store_aliases (obj (field uuid (obj (exported_fields p)) end)) none
      ≡ some (some ((uuid, merged p no_members) ∷ []))
unfolding store_aliases store_map store_entries store_struct insert bind
store-aliases uuid p = rw (store_fields-merged p no_members) refl

from_export-merged :
    (a : Alias)
    → a.name ≢ ""
    → a.type ≢ ""
    → from_export (merged (encode_alias a) no_members) ≡ ok a
unfolding from_export encode_alias bool_to_str
from_export-merged a named typed = ground (arith, read_flag a.enabled)

read_alias_map-export :
    (E : Env) (uuid : String) (p : AliasPayload)
    → read_alias_map E uuid (obj (field uuid (obj (exported_fields p)) end))
      ≡ from_export (merged p no_members)
unfolding read_alias_map lookup
read_alias_map-export E uuid p = rw (read_alias_map, store-aliases uuid p) (ground arith)

-- An alias with a name and a type that OPNsense exports as it was sent is read back as it was.
pub read_alias-export :
    (E : Env) (a : Alias) (uuid text : String)
    → a.name ≢ ""
    → a.type ≢ ""
    → E.parse text ≡ ok (export_document uuid (encode_alias a))
    → read_alias E uuid text ≡ ok a
unfolding read_alias read_alias_data unmarshal
read_alias-export E a uuid text named typed parsed =
    rw
      (
        read_alias,
        parsed,
        store-export uuid (encode_alias a),
        read_alias_map-export E uuid (encode_alias a),
      )
      (from_export-merged a named typed)
