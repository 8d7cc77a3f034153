-- ===== src/Opnsense/Rules/Answers.antt =====
-- What a success of the firewall rule endpoints says of the answer, and what their own errors say.
mod Queries
mod Changes
pub use Queries.{get_rule-eq-ok}
pub use Changes.{
  create_rule-eq-ok, update_rule-eq-ok, delete_rule-eq-ok, delete_rule_own_error,
  apply_firewall_rules-eq-ok,
}
