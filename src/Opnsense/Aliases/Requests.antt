-- ===== src/Opnsense/Aliases/Requests.antt =====
-- Which request each call of the alias endpoints makes.
use opnsense_operator.Base.{String, ◌<>◌, ◌≡◌, none, some, arith}
use opnsense_operator.Text.Escape.{query_escape}
use opnsense_operator.Runtime.{Env}
use opnsense_operator.Runtime.Monad.{World, get, post}
use opnsense_operator.Runtime.Trace.{Extends}
use opnsense_operator.Opnsense.Types.{Client, Alias}
use opnsense_operator.Opnsense.Payload.{alias_request, encode_alias, empty_object}
use opnsense_operator.Opnsense.Transport.{do_json}
use opnsense_operator.Opnsense.Transport.Sending.{Sends, do_json-Extends}
use opnsense_operator.Opnsense.Aliases.{
  get_alias_uuid_by_name, get_alias, create_alias, update_alias, delete_alias, reconfigure_aliases,
}

module _ (E : Env) (c : Client) where
  pub get_alias_uuid_by_name_world :
      (name : String) (w : World E.State)
      → (get_alias_uuid_by_name E c name w).1
        ≡ (do_json E c get ("/api/firewall/alias/getAliasUUID/" <> name) (none) w).1
  unfolding get_alias_uuid_by_name
  get_alias_uuid_by_name_world name w = ground arith

  pub get_alias_uuid_by_name-Extends :
      (name : String) (w : World E.State)
      → Extends
          (Sends c get ("/api/firewall/alias/getAliasUUID/" <> name))
          w.log
          (get_alias_uuid_by_name E c name w).1.log
  get_alias_uuid_by_name-Extends name w =
      rw get_alias_uuid_by_name_world
        (do_json-Extends E c get ("/api/firewall/alias/getAliasUUID/" <> name) (none) w)

  pub get_alias_world :
      (uuid : String) (w : World E.State)
      → (get_alias E c uuid w).1
        ≡ (do_json E c get ("/api/firewall/alias/export?ids=" <> query_escape uuid) (none) w).1
  unfolding get_alias
  get_alias_world uuid w = ground arith

  pub get_alias-Extends :
      (uuid : String) (w : World E.State)
      → Extends
          (Sends c get ("/api/firewall/alias/export?ids=" <> query_escape uuid))
          w.log
          (get_alias E c uuid w).1.log
  get_alias-Extends uuid w =
      rw get_alias_world
        (do_json-Extends E c get ("/api/firewall/alias/export?ids=" <> query_escape uuid) (none) w)

  pub create_alias_world :
      (alias : Alias) (w : World E.State)
      → (create_alias E c alias w).1
        ≡ (do_json E c post
            ("/api/firewall/alias/addItem")
            (some (alias_request (encode_alias alias)))
            w).1
  unfolding create_alias
  create_alias_world alias w = ground arith

  pub update_alias_world :
      (uuid : String) (alias : Alias) (w : World E.State)
      → (update_alias E c uuid alias w).1
        ≡ (do_json E c post
            ("/api/firewall/alias/setItem/" <> uuid)
            (some (alias_request (encode_alias alias)))
            w).1
  unfolding update_alias
  update_alias_world uuid alias w = ground arith

  pub delete_alias_world :
      (uuid : String) (w : World E.State)
      → (delete_alias E c uuid w).1
        ≡ (do_json E c post ("/api/firewall/alias/delItem/" <> uuid) (some empty_object) w).1
  unfolding delete_alias
  delete_alias_world uuid w = ground arith

  pub delete_alias-Extends :
      (uuid : String) (w : World E.State)
      → Extends
          (Sends c post ("/api/firewall/alias/delItem/" <> uuid))
          w.log
          (delete_alias E c uuid w).1.log
  delete_alias-Extends uuid w =
      rw delete_alias_world
        (do_json-Extends E c post ("/api/firewall/alias/delItem/" <> uuid) (some empty_object) w)

  pub reconfigure_aliases_world :
      (w : World E.State)
      → (reconfigure_aliases E c w).1
        ≡ (do_json E c post ("/api/firewall/alias/reconfigure") (some empty_object) w).1
  unfolding reconfigure_aliases
  reconfigure_aliases_world w = ground arith

  pub reconfigure_aliases-Extends :
      (w : World E.State)
      → Extends
          (Sends c post ("/api/firewall/alias/reconfigure"))
          w.log
          (reconfigure_aliases E c w).1.log
  reconfigure_aliases-Extends w =
      rw reconfigure_aliases_world
        (do_json-Extends E c post ("/api/firewall/alias/reconfigure") (some empty_object) w)
