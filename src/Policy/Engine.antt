-- ===== src/Policy/Engine.antt =====
-- crates/archangel-policy/src/lib.rs: the engine's decision. The text of a reason is kept as what
-- it is formatted from.
pub mod Decisions
use archangel.Common.{
  Bool, true, false, Option, none, some, List, [], ◌∷◌, Result, ok, err, if◌then◌else◌, not,
}
use archangel.Common.Text.{Str, str}
use archangel.Core.{OperationMode, RiskLevel, requires_human_approval, requires_two_person_rule}
use archangel.Policy.Pathnorm.{PolicyError}
use archangel.Policy.Denylist.{
  DenyCategory, PathAccess, Matchers, Matched, DenyMatch, check_command, check_path,
}
use archangel.Policy.Allowlist.{Allowlist, is_allowed}

pub data Reason : Type 0 where
  matched : Str → Matched → Reason
  unevaluable : PolicyError → Reason
  not_allowlisted : Str → Str → OperationMode → Reason
  interactive_mode : RiskLevel → Reason
  critical_risk : Reason

pub data PolicyDecision : Type 0 where
  allow : PolicyDecision
  require_approval : Reason → Bool → PolicyDecision
  deny : DenyCategory → Str → Reason → PolicyDecision
  not_allowed : Reason → PolicyDecision

pub record PathIntent : Type 0 where
  pub path : Str
  pub access : PathAccess

pub record PolicyRequest : Type 0 where
  pub profile : Str
  pub mode : OperationMode
  pub exec : Str
  pub risk : RiskLevel
  pub commands : List Str
  pub paths : List PathIntent

pub record PolicyEngine : Type 0 where
  pub allowlist : Allowlist

unfoldable pub is_allow : PolicyDecision → Bool
is_allow allow = true
is_allow _ = false

unfoldable pub needs_approval : PolicyDecision → Bool
needs_approval (require_approval r tp) = true
needs_approval _ = false

unfoldable pub deny_from : DenyMatch → PolicyDecision
deny_from d = deny d.category d.rule_id (matched d.description d.matched)

-- The part of `evaluate` behind the denylist.
unfoldable pub gate : PolicyEngine → PolicyRequest → PolicyDecision
gate engine r =
    if not (is_allowed engine.allowlist r.profile r.exec r.mode)
    then not_allowed (not_allowlisted r.exec r.profile r.mode)
    else if requires_human_approval r.mode
    then require_approval (interactive_mode r.risk) (requires_two_person_rule r.risk)
    else if requires_two_person_rule r.risk
    then require_approval critical_risk true
    else allow

module _ (m : Matchers) where
  -- The loops over the commands and over the paths; `none` means that nothing was denied.
  unfoldable pub deny_commands : List Str → Option PolicyDecision
  deny_commands [] = none
  deny_commands (c ∷ cs) = elim (check_command m c) [
    | some d ↦ some (deny_from d)
    | none ↦ deny_commands cs
  ]

  unfoldable pub deny_paths : List PathIntent → Option PolicyDecision
  deny_paths [] = none
  deny_paths (i ∷ is) = elim (check_path m i.path i.access) [
    | ok (some d) ↦ some (deny_from d)
    | ok none ↦ deny_paths is
    | err e ↦ some (deny DenyCategory.self_protection (str "path-evaluation-error") (unevaluable e))
  ]

  unfoldable pub evaluate : PolicyEngine → PolicyRequest → PolicyDecision
  unfolding deny_commands deny_paths gate deny_from
  evaluate engine r = elim (deny_commands r.commands) [
    | some d ↦ d
    | none ↦ elim (deny_paths r.paths) [ some d ↦ d | none ↦ gate engine r ]
  ]
