-- ===== src/Controller/Convert/Suffix.antt =====
-- The managed suffix, by which a rule is found again.
use opnsense_operator.Base.{String, ◌<>◌, ◌≡◌, false, refl, sym, ap, ◌∙◌, Char, nat_eq}
use mathlib.Core.Path.{ap₂}
use text.Mathlib.TextLemmas.{
  nil-append, cons-append, append_assoc, append_cancel_left, append_cancel_right,
  head-eq_of_cons-eq, tail-eq_of_cons-eq,
}
use opnsense_operator.Text.Trim.{
  is_space, is_slash, trim_left, trim_right, trim_space, is_empty, trim_left-append,
  trim_right-append,
}
use opnsense_operator.Api.{FirewallRuleSpec}
use opnsense_operator.Controller.Convert.{managed_suffix, spec_to_rule}

-- No character of the text is a slash, as in a name or a namespace of Kubernetes.
abbrev pub NoSlash : String → Type 0
NoSlash String.[] = Unit
NoSlash (String.◌∷◌ c s) = (is_slash c ≡ false) × NoSlash s

abbrev slash : Char
slash = "/"

-- What stands before the first slash, and behind it, is determined.
split_at_slash :
    (a b s t : String)
    → NoSlash a
    → NoSlash b
    → Path String (a <> String.◌∷◌ slash s) (b <> String.◌∷◌ slash t)
    → (a ≡ b) × (s ≡ t)
unfolding is_slash nat_eq
split_at_slash String.[] String.[] s t na nb h =
    (refl, tail-eq_of_cons-eq (sym (nil-append _) ∙ h ∙ nil-append _))
split_at_slash String.[] (String.◌∷◌ d b) s t na nb h =
    let e = head-eq_of_cons-eq (sym (nil-append _) ∙ h ∙ cons-append d b _) in
    absurd (cc (rw (← e) at nb.0))
split_at_slash (String.◌∷◌ c a) String.[] s t na nb h =
    let e = head-eq_of_cons-eq (sym (cons-append c a _) ∙ h ∙ nil-append _) in
    absurd (cc (rw e at na.0))
split_at_slash (String.◌∷◌ c a) (String.◌∷◌ d b) s t na nb h =
    let h' =
      sym (cons-append c a (String.◌∷◌ slash s)) ∙ h ∙ cons-append d b (String.◌∷◌ slash t) in
    let (p, q) = split_at_slash a b s t na.1 nb.1 (tail-eq_of_cons-eq h') in
    (ap₂ String.◌∷◌ (head-eq_of_cons-eq h') p, q)

slash-append : (s : String) → "/" <> s ≡ String.◌∷◌ slash s
slash-append s = cons-append slash String.[] s ∙ ap (String.◌∷◌ slash) (nil-append s)

-- Two rules with one suffix are one rule: the suffix gives the namespace and the name, since no
-- namespace has a slash.
pub managed_suffix_inj :
    (namespace namespace' name name' : String)
    → NoSlash namespace
    → NoSlash namespace'
    → managed_suffix namespace name ≡ managed_suffix namespace' name'
    → (namespace ≡ namespace') × (name ≡ name')
unfolding managed_suffix
managed_suffix_inj namespace namespace' name name' n n' h =
    let body = append_cancel_left "[opnsense-operator:" _ _ h in
    let (p, q) = split_at_slash namespace namespace' (name <> "]") (name' <> "]") n n' (
      ap (λ (x : String). namespace <> x) (sym (slash-append (name <> "]")))
      ∙ body
      ∙ ap (λ (x : String). namespace' <> x) (slash-append (name' <> "]"))) in
    (p, append_cancel_right name name' "]" q)

-- The suffix begins with a bracket and ends with one.
abbrev bracket : Char
bracket = "["

bracket_stays : is_space bracket ≡ false
unfolding is_space
bracket_stays = refl

bracket_kept : trim_right is_space "]" ≡ "]"
unfolding is_space trim_right
bracket_kept = refl

bracket_full : is_empty "]" ≡ false
unfolding is_empty
bracket_full = refl

suffix_shape :
    (namespace name : String)
    → managed_suffix namespace name
      ≡ String.◌∷◌ bracket ("opnsense-operator:" <> (namespace <> ("/" <> (name <> "]"))))
unfolding managed_suffix
suffix_shape namespace name =
    cons-append bracket "opnsense-operator:" (namespace <> ("/" <> (name <> "]")))

suffix_kept :
    (before namespace name : String)
    → trim_right is_space (before <> managed_suffix namespace name)
      ≡ before <> managed_suffix namespace name
unfolding managed_suffix
suffix_kept before namespace name =
    let front = before <> ("[opnsense-operator:" <> (namespace <> ("/" <> name))) in
    let whole : front <> "]" ≡ before <> managed_suffix namespace name = simp append_assoc in
    rw whole at (trim_right-append is_space front "]" (bracket_kept) (bracket_full))

-- The description that is sent ends in the suffix, unchanged; in front of it stands the
-- description of the spec and a blank, without their leading white space.
pub spec_to_rule-description :
    (spec : FirewallRuleSpec) (namespace name : String)
    → (spec_to_rule spec namespace name).description
      ≡ trim_left is_space (spec.description <> " ") <> managed_suffix namespace name
unfolding spec_to_rule trim_space
spec_to_rule-description spec namespace name =
    let front = spec.description <> " " in
    let regroup : spec.description <> (" " <> managed_suffix namespace name)
        ≡ front <> managed_suffix namespace name =
      sym (append_assoc _ _ _) in
    let left : trim_left is_space (front <> managed_suffix namespace name)
        ≡ trim_left is_space front <> managed_suffix namespace name =
      rw suffix_shape (trim_left-append is_space front bracket _ bracket_stays) in
    rw (regroup, left) (suffix_kept (trim_left is_space front) namespace name)
