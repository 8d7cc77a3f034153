-- ===== src/Opnsense/Rules/Answers/Queries.antt =====
-- What an answer to a query for rules says, by the result that is read from it.
use opnsense_operator.Base.{String, ◌<>◌, ◌≡◌, inl, inr, none, ok, arith, Result-cases}
use opnsense_operator.Runtime.{Env}
use opnsense_operator.Runtime.Monad.{World, get}
use opnsense_operator.Opnsense.Types.{Client, FirewallRule}
use opnsense_operator.Opnsense.Transport.{do_json}
use opnsense_operator.Opnsense.Rules.{get_rule, read_rule}

module _ (E : Env) (c : Client) where
  pub get_rule-eq-ok :
      (uuid : String) (w : World E.State) (result : FirewallRule)
      → (get_rule E c uuid w).0 ≡ ok result
      → (body : String) × ((do_json E c get ("/api/firewall/filter/getRule/" <> uuid) (none) w).0
          ≡ ok body)
        × (read_rule E body ≡ ok result)
  unfolding get_rule
  get_rule-eq-ok uuid w result h =
      elim (Result-cases (do_json E c get ("/api/firewall/filter/getRule/" <> uuid) (none) w).0) [
        | inr (e, p) ↦ absurd (ground arith)
        | inl (body, p) ↦ (body, p, ground arith)
      ]
