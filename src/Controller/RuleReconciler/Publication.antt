-- ===== src/Controller/RuleReconciler/Publication.antt =====
-- The creation and the update of a rule.
use opnsense_operator.Base.{
  String, ◌<>◌, ◌≡◌, inl, inr, none, some, ◌∷◌, Error, ok, err, Result-cases, arith, ◌∙◌,
}
use opnsense_operator.Api.{FirewallRule, condition_true}
use opnsense_operator.Runtime.{Env}
use opnsense_operator.Runtime.Monad.{World, sent, updated_rule_status, post, get}
use opnsense_operator.Opnsense.Types.{Client, FirewallRule as ExternalRule}
use opnsense_operator.Opnsense.Payload.{rule_request, encode_firewall_rule, empty_object}
use opnsense_operator.Opnsense.Transport.{request}
use opnsense_operator.Opnsense.Transport.Sending.{do_json-sent, do_json-got}
use opnsense_operator.Opnsense.Rules.{create_rule, update_rule, apply_firewall_rules, get_rule}
use opnsense_operator.Opnsense.Rules.Requests.{create_rule_world, update_rule_world, get_rule_world}
use opnsense_operator.Opnsense.Rules.Answers.{create_rule-eq-ok, update_rule-eq-ok, get_rule-eq-ok}
use opnsense_operator.Controller.Outcome.{text_of}
use opnsense_operator.Controller.RuleStatus.{with_ready, synced, set_ready_success, failed}
use opnsense_operator.Controller.RuleStatus.Written.{set_ready_failed-error, set_ready_success-log}
use opnsense_operator.Controller.RuleReconciler.{
  apply_then, create_external, update_external, create_reason, update_reason, desired,
  record_sequence,
}
use opnsense_operator.Controller.RuleReconciler.Branches.{
  apply_then-err, apply_then-ok, create_external-err, create_external-ok, update_external-err,
  update_external-ok,
}
use opnsense_operator.Controller.RuleReconciler.Deletion.{applied_call}

-- A write to `path` that was followed by the apply, by the read of the rule as OPNsense now holds
-- it, and then by the report of success, with the sequence that was read.
pub record Published (E : Env) (c : Client) (rule : FirewallRule) (path uuid : String)
    (w w' : World E.State) : Type 0 where
  pub body : String
  pub empty_body : String
  pub current : ExternalRule
  pub before_read : World E.State
  pub reported : E.State
  pub encoded : E.marshal (rule_request (encode_firewall_rule (desired E rule))) ≡ ok body
  pub empty_encoded : E.marshal empty_object ≡ ok empty_body
  pub read_back : (get_rule E c uuid before_read).0 ≡ ok current
  pub applied_before :
      before_read.log
      ≡ sent c.http_client (request c post "/api/firewall/filter/apply" (some empty_body))
        ∷ sent c.http_client (request c post path (some body))
        ∷ w.log
  pub order :
      w'.log
      ≡ updated_rule_status (
          with_ready E reported
            (synced rule uuid current.sequence)
            condition_true
            "FirewallRuleReady"
            "FirewallRule is in sync with OPNsense")
        ∷ sent c.http_client (request c get ("/api/firewall/filter/getRule/" <> uuid) none)
        ∷ before_read.log

module _ (E : Env) (c : Client) (rule : FirewallRule) where
  pub record_sequence-ok :
      (uuid : String) (w : World E.State) (current : ExternalRule)
      → (get_rule E c uuid w).0 ≡ ok current
      → record_sequence E c rule uuid w
        ≡ set_ready_success E rule uuid current.sequence (get_rule E c uuid w).1
  unfolding record_sequence
  record_sequence-ok uuid w current p = ground arith

  pub record_sequence-err :
      (uuid : String) (w : World E.State) (e : Error)
      → (get_rule E c uuid w).0 ≡ err e
      → record_sequence E c rule uuid w ≡ failed E rule "GetFailed" e (get_rule E c uuid w).1
  unfolding record_sequence
  record_sequence-err uuid w e p = ground arith

  -- The end of a write that was accepted, if no error is returned.
  publish :
      (w0 w : World E.State) (path uuid body : String)
      → E.marshal (rule_request (encode_firewall_rule (desired E rule))) ≡ ok body
      → w.log ≡ sent c.http_client (request c post path (some body)) ∷ w0.log
      → let (o, w') = apply_then E c rule (record_sequence E c rule uuid) w in
        o.error ≡ none
        → ((apply_firewall_rules E c w).0 ≡ ok tt) × Published E c rule path uuid w0 w'
  publish w0 w path uuid body encoded before fine =
      let applied_world = (apply_firewall_rules E c w).1 in
      elim (Result-cases (apply_firewall_rules E c w).0) [
        | inr (e, p) ↦
            let (f, q) =
              set_ready_failed-error E rule applied_world "ApplyFailed" (text_of E e) e in
            let r = rw (apply_then-err E c rule w (record_sequence E c rule uuid) e p) at fine in
            absurd (cc)
        | inl (u, p) ↦
            let equation = apply_then-ok E c rule w (record_sequence E c rule uuid) u p in
            elim (Result-cases (get_rule E c uuid applied_world).0) [
              | inr (e, g) ↦
                  let (f, q) =
                    set_ready_failed-error E rule (get_rule E c uuid applied_world).1 "GetFailed"
                      (text_of E e) e in
                  let r =
                    rw (record_sequence-err uuid applied_world e g) at (rw equation at fine) in
                  absurd (cc)
              | inl (current, g) ↦
                  let (empty_body, empty_encoded, last) = applied_call E c rule w u p in
                  let (answer, asked, read) = get_rule-eq-ok E c uuid applied_world current g in
                  let got =
                    do_json-got E c get ("/api/firewall/filter/getRule/" <> uuid) applied_world
                      answer asked in
                  (
                    p,
                    rw (equation ∙ record_sequence-ok uuid applied_world current g) (record {
                      body = body;
                      empty_body = empty_body;
                      current = current;
                      before_read = applied_world;
                      reported = (get_rule E c uuid applied_world).1.state;
                      encoded = encoded;
                      empty_encoded = empty_encoded;
                      read_back = g;
                      applied_before = rw (last, before);
                      order = rw (set_ready_success-log, get_rule_world, got);
                    }),
                  )
            ]
      ]

  -- A creation that returns no error was confirmed by OPNsense, which gave the UUID; then the
  -- change was applied; then the rule was read; then, and last, the status was written, with this
  -- UUID and the sequence that was read.
  pub create_external-Published :
      (w : World E.State)
      → let (o, w') = create_external E c rule w in
        o.error ≡ none
        → (uuid : String) × ((create_rule E c (desired E rule) w).0 ≡ ok uuid)
          × ((apply_firewall_rules E c (create_rule E c (desired E rule) w).1).0 ≡ ok tt)
          × Published E c rule "/api/firewall/filter/addRule" uuid w w'
  create_external-Published w fine =
      let wanted = desired E rule in
      elim (Result-cases (create_rule E c wanted w).0) [
        | inr (e, p) ↦
            let (f, q) =
              set_ready_failed-error E rule (create_rule E c wanted w).1 (create_reason e)
                (text_of E e) e in
            let r = rw (create_external-err E c rule w e p) at fine in absurd (cc)
        | inl (uuid, p) ↦
            let (answer, response, q, decoded, r) = create_rule-eq-ok E c wanted w uuid p in
            let (body, encoded, log) =
              do_json-sent E c post "/api/firewall/filter/addRule"
                (rule_request (encode_firewall_rule wanted)) w answer q in
            let equation = create_external-ok E c rule w uuid p in
            let (applied, published) =
              publish w (create_rule E c wanted w).1 "/api/firewall/filter/addRule" uuid body
                encoded (rw create_rule_world log) (rw equation at fine) in
            (uuid, p, applied, rw equation published)
      ]

  -- The same of an update, whose UUID was known.
  pub update_external-Published :
      (uuid : String) (w : World E.State)
      → let (o, w') = update_external E c rule uuid w in
        o.error ≡ none
        → ((update_rule E c uuid (desired E rule) w).0 ≡ ok tt)
          × ((apply_firewall_rules E c (update_rule E c uuid (desired E rule) w).1).0 ≡ ok tt)
          × Published E c rule ("/api/firewall/filter/setRule/" <> uuid) uuid w w'
  update_external-Published uuid w fine =
      let wanted = desired E rule in
      let path = "/api/firewall/filter/setRule/" <> uuid in
      elim (Result-cases (update_rule E c uuid wanted w).0) [
        | inr (e, p) ↦
            let (f, q) =
              set_ready_failed-error E rule (update_rule E c uuid wanted w).1 (update_reason e)
                (text_of E e) e in
            let r = rw (update_external-err E c rule w uuid e p) at fine in absurd (cc)
        | inl (u, p) ↦
            let (answer, response, q, decoded, r) = update_rule-eq-ok E c uuid wanted w u p in
            let (body, encoded, log) =
              do_json-sent E c post path (rule_request (encode_firewall_rule wanted)) w answer q in
            let equation = update_external-ok E c rule w uuid u p in
            let (applied, published) =
              publish w (update_rule E c uuid wanted w).1 path uuid body encoded
                (rw update_rule_world log) (rw equation at fine) in
            (p, applied, rw equation published)
      ]
