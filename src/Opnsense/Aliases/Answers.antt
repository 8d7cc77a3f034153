-- ===== src/Opnsense/Aliases/Answers.antt =====
-- What a success of the alias endpoints says of the answer, and what their own errors say.
mod Queries
mod Changes
pub use Queries.{get_alias_uuid_by_name_own_error}
pub use Changes.{
  create_alias-eq-ok, update_alias-eq-ok, delete_alias-eq-ok, delete_alias_own_error,
  reconfigure_aliases-eq-ok,
}
