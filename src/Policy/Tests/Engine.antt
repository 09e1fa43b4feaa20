-- ===== src/Policy/Tests/Engine.antt =====
-- Witnesses on the engine's decisions.
use archangel.Common.{◌≡◌, ◌≢◌, ◌↔◌, ◌⊎◌, inl, inr, refl, [], ◌∷◌, true}
use archangel.Common.Text.{str, str_eq}
use archangel.Core.{
  autonomous, interactive, critical, mode_eq, requires_two_person_rule, requires_human_approval,
}
use archangel.Policy.Tests.{literal}
use archangel.Policy.Tests.Denylist.{denied_write, ssh}
use archangel.Policy.Denylist.{DenyMatch, PathAccess, owner_matched}
use archangel.Policy.Allowlist.{is_allowed}
use archangel.Policy.Engine.{
  PolicyEngine, PolicyRequest, critical_risk, allow, needs_approval, deny_from, evaluate,
}
use archangel.Policy.Engine.Decisions.{
  IsClear, evaluate-hit, evaluate-allow_iff, evaluate-approval_iff, evaluate-two_person_iff,
}

abbrev engine : PolicyEngine
engine = record {
  allowlist = record {
    profiles =
        record { name = str "web"; mode = autonomous; allowed_exec = str "restart-nginx" ∷ [] }
        ∷ [];
  };
}

abbrev request : PolicyRequest
request = record {
  profile = str "web";
  mode = autonomous;
  exec = str "restart-nginx";
  risk = critical;
  commands = [];
  paths = [];
}

abbrev tampering : PolicyRequest
tampering = record request {
  paths = record { path = str "/etc/./ssh/"; access = PathAccess.write } ∷ [];
}

evaluate-hit_example :
    (d : DenyMatch) × ((e : PolicyEngine) → evaluate literal e tampering ≡ deny_from d)
evaluate-hit_example =
    evaluate-hit literal tampering (inr (inl (owner_matched ssh (str "/etc/ssh"), denied_write)))

evaluate-allow_iff_example : (evaluate literal engine request ≡ allow) ↔ (
    IsClear literal request
    × (is_allowed engine.allowlist (str "web") (str "restart-nginx") autonomous ≡ true)
    × (autonomous ≢ interactive)
    × (critical ≢ critical))
evaluate-allow_iff_example = evaluate-allow_iff literal engine request

evaluate-approval_iff_example : (needs_approval (evaluate literal engine request) ≡ true) ↔ (
    IsClear literal request
    × (is_allowed engine.allowlist (str "web") (str "restart-nginx") autonomous ≡ true)
    × ((autonomous ≡ interactive) ⊎ (critical ≡ critical)))
evaluate-approval_iff_example = evaluate-approval_iff literal engine request

evaluate-two_person_iff_example : (true ≡ true) ↔ (critical ≡ critical)
unfolding evaluate is_allowed str_eq mode_eq requires_two_person_rule requires_human_approval
evaluate-two_person_iff_example =
    evaluate-two_person_iff literal engine request critical_risk true refl
