-- ===== src/Controller/RuleLookup/Phrase.antt =====
-- Which descriptions the search phrase of a rule occurs in.
use opnsense_operator.Base.{String, ◌<>◌, ◌≡◌, ◌∙◌}
use text.Mathlib.TextLemmas.{append_assoc}
use opnsense_operator.Text.Trim.{trim_left, is_space}
use opnsense_operator.Api.{FirewallRule, FirewallRuleSpec}
use opnsense_operator.Controller.Convert.{managed_suffix, spec_to_rule}
use opnsense_operator.Controller.Convert.Suffix.{spec_to_rule-description}
use opnsense_operator.Controller.RuleLookup.{search_phrase}

-- `phrase` stands somewhere in `text`.
abbrev pub Occurs : String → String → Type 0
Occurs phrase text = (before : String) × (after : String) × (text ≡ before <> (phrase <> after))

suffix-phrase :
    (front : String) (rule : FirewallRule) (more : String)
    → front <> managed_suffix rule.meta.namespace (rule.meta.name <> more)
      ≡ (front <> "[opnsense-operator:") <> (search_phrase rule <> (more <> "]"))
unfolding managed_suffix search_phrase
suffix-phrase front rule more = simp append_assoc

-- The phrase occurs in the description of the rule's own counterpart in OPNsense, and in that of
-- every rule of the namespace whose name continues this one's, whatever their specs say.
pub search_phrase-Occurs :
    (rule : FirewallRule) (spec : FirewallRuleSpec) (more : String)
    → Occurs
        (search_phrase rule)
        (spec_to_rule spec rule.meta.namespace (rule.meta.name <> more)).description
search_phrase-Occurs rule spec more =
    let front = trim_left is_space (spec.description <> " ") in
    (
      front <> "[opnsense-operator:",
      more <> "]",
      spec_to_rule-description spec rule.meta.namespace (rule.meta.name <> more)
          ∙ suffix-phrase front rule more,
    )
