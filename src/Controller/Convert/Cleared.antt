-- ===== src/Controller/Convert/Cleared.antt =====
-- An update that clears the description of an alias, where OPNsense keeps what an update leaves out.
use opnsense_operator.Base.{String, ◌≡◌, ◌≢◌, refl, true, ok, arith, ◌==◌, string_eq, if◌then◌else◌}
use opnsense_operator.Json.{Json, str, obj, Fields, end, field}
use opnsense_operator.Api.{AliasSpec}
use opnsense_operator.Runtime.{Env}
use opnsense_operator.Opnsense.Types.{Alias}
use opnsense_operator.Opnsense.Payload.{AliasPayload, encode_alias, alias_request, omit_empty}
use opnsense_operator.Opnsense.Aliases.{read_alias}
use opnsense_operator.Opnsense.Aliases.RoundTrip.{
  exported_fields, export_members, read_alias-export,
}
use opnsense_operator.Controller.Convert.{alias_needs_update, spec_to_alias}

abbrev set_member : String → Json → Fields → Fields
set_member k v end = field k v end
set_member k v (field j u rest) = if j == k then field j v rest else field j u (set_member k v rest)

abbrev write_over : Fields → Fields → Fields
write_over end held = held
write_over (field k v rest) held = write_over rest (set_member k v held)

-- What OPNsense holds of an object after an update: the members that the request has under its one
-- name are written over those that were held, and the others stay.
abbrev pub after_update : Json → Fields → Fields
after_update (obj (field name (obj members) end)) held = write_over members held
after_update _ held = held

omit_empty-empty : (name s : String) (rest : Fields) → s ≡ "" → omit_empty name s rest ≡ rest
unfolding omit_empty
omit_empty-empty name s rest p = ground arith

omit_empty-given :
    (name s : String) (rest : Fields) → s ≢ "" → omit_empty name s rest ≡ field name (str s) rest
unfolding omit_empty
omit_empty-given name s rest p = ground arith

after_update-cleared :
    (p q : AliasPayload)
    → p.description ≡ ""
    → q.description ≢ ""
    → after_update (alias_request p) (exported_fields q)
      ≡ exported_fields (record p { description = q.description })
unfolding alias_request string_eq
after_update-cleared p q cleared kept =
    rw
      (
        omit_empty-empty "description" p.description end cleared,
        omit_empty-given "description" q.description end kept,
      )
      refl

-- Where OPNsense writes the members of an update over those that it holds, and exports what it then
-- holds, an alias that had a description and whose spec has none is read back with the description
-- that it had, and needs an update again: no update clears a description.
pub cleared_description-stays :
    (E : Env) (spec : AliasSpec) (before : Alias) (uuid text : String)
    → spec.name ≢ ""
    → spec.type ≢ ""
    → spec.description ≡ ""
    → before.description ≢ ""
    → E.parse text
      ≡ ok (
          export_members uuid (
            after_update
              (alias_request (encode_alias (spec_to_alias spec)))
              (exported_fields (encode_alias before))))
    → let existing = record (spec_to_alias spec) { description = before.description } in
      (read_alias E uuid text ≡ ok existing) × (alias_needs_update spec existing ≡ true)
unfolding spec_to_alias encode_alias alias_needs_update
cleared_description-stays E spec before uuid text named typed cleared kept parsed =
    let sent = encode_alias (spec_to_alias spec) in
    let existing = record (spec_to_alias spec) { description = before.description } in
    let same = after_update-cleared sent (encode_alias before) cleared kept in
    (read_alias-export E existing uuid text named typed (rw same at parsed), ground arith)
