-- ===== src/Core.antt =====
-- The crate archangel-core: operation modes and risk levels (mode.rs).
use archangel.Common.{Bool, true, false}

pub data OperationMode : Type 0 where
  read_only interactive autonomous : OperationMode

pub data RiskLevel : Type 0 where
  low medium high critical : RiskLevel

unfoldable pub allows_mutation : OperationMode → Bool
allows_mutation read_only = false
allows_mutation interactive = true
allows_mutation autonomous = true

unfoldable pub requires_human_approval : OperationMode → Bool
requires_human_approval read_only = false
requires_human_approval interactive = true
requires_human_approval autonomous = false

unfoldable pub requires_two_person_rule : RiskLevel → Bool
requires_two_person_rule low = false
requires_two_person_rule medium = false
requires_two_person_rule high = false
requires_two_person_rule critical = true

-- The derived `==` of the two types.
unfoldable pub mode_eq : OperationMode → OperationMode → Bool
mode_eq read_only read_only = true
mode_eq interactive interactive = true
mode_eq autonomous autonomous = true
mode_eq _ _ = false

unfoldable pub is_critical : RiskLevel → Bool
is_critical critical = true
is_critical _ = false
