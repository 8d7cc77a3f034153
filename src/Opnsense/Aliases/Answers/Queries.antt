-- ===== src/Opnsense/Aliases/Answers/Queries.antt =====
-- What an answer to a query for aliases says, by the result that is read from it.
use opnsense_operator.Base.{
  String, ◌<>◌, ◌≡◌, inl, inr, true, none, Error, ok, err, Sentinel, arith, Result-cases,
}
use opnsense_operator.Runtime.{Env, IsForeign}
use opnsense_operator.Runtime.Errors.{is}
use opnsense_operator.Runtime.Monad.{World, get}
use opnsense_operator.Opnsense.Types.{Client}
use opnsense_operator.Opnsense.Transport.{do_json}
use opnsense_operator.Opnsense.Transport.Sending.{do_json_foreign}
use opnsense_operator.Opnsense.Aliases.{get_alias_uuid_by_name, read_alias_uuid}

module _ (E : Env) (c : Client) where
  -- An error of the client's own stands for an answer of the server.
  pub get_alias_uuid_by_name_own_error :
      IsForeign E
      → (name : String) (w : World E.State) (e : Error) (t : Sentinel)
      → (get_alias_uuid_by_name E c name w).0 ≡ err e
      → is e t ≡ true
      → (body : String) × ((do_json E c get
            ("/api/firewall/alias/getAliasUUID/" <> name)
            (none)
            w).0
          ≡ ok body)
        × (read_alias_uuid E body ≡ err e)
  unfolding get_alias_uuid_by_name
  get_alias_uuid_by_name_own_error F name w e t h own =
      elim (Result-cases
        (do_json E c get ("/api/firewall/alias/getAliasUUID/" <> name) (none) w).0) [
          | inr (e', p) ↦ absurd (
              ground (
                arith,
                do_json_foreign E F c get ("/api/firewall/alias/getAliasUUID/" <> name) (none) w e
                    t,
              ))
          | inl (body, p) ↦ (body, p, ground arith)
        ]
