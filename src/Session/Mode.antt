-- ===== src/Session/Mode.antt =====
-- core/session/model.py: `AgentModeSnapshot`, its validation and comparison. A value of unknown type is
-- one of the shapes that the validators tell apart.
use claudecode_lite_main.Prelude.{
  ℕ, String, Option, none, some, Bool, true, false, ltb, str_eq, if◌then◌else◌,
}
use claudecode_lite_main.Prelude.Int.{ℤ, pos, negsuc}

pub data AgentMode : Type 0 where
  direct plan : AgentMode

abbrev pub max_agent_mode_revision : ℕ
max_agent_mode_revision = 9223372036854775807

-- `ModeSnapshotRelation`.
pub data Relation : Type 0 where
  newer equal_same equal_conflict older : Relation

pub data Value : Type 0 where
  text : String → Value
  number : ℤ → Value
  flag : Bool → Value
  other : Value

-- `none` stands for the `ValueError`, here and below.
unfoldable pub validate_agent_mode : Value → Option AgentMode
validate_agent_mode (text s) =
    if str_eq s "direct" then some direct else if str_eq s "plan" then some plan else none
validate_agent_mode (number n) = none
validate_agent_mode (flag b) = none
validate_agent_mode other = none

unfoldable pub validate_agent_mode_revision : Value → Option ℕ
validate_agent_mode_revision (number (pos n)) =
    if ltb max_agent_mode_revision n then none else some n
validate_agent_mode_revision (number (negsuc n)) = none
validate_agent_mode_revision (text s) = none
validate_agent_mode_revision (flag b) = none
validate_agent_mode_revision other = none

pub record AgentModeSnapshot : Type 0 where
  pub agent_mode : AgentMode
  pub revision : ℕ

-- `AgentModeSnapshot(agent_mode, revision)`.
unfoldable pub new_snapshot : Value → Value → Option AgentModeSnapshot
unfolding validate_agent_mode validate_agent_mode_revision
new_snapshot mode revision = elim (validate_agent_mode mode) [
  | none ↦ none
  | some m ↦ elim (validate_agent_mode_revision revision) [
    | none ↦ none
    | some n ↦ some (record { agent_mode = m; revision = n })
  ]
]

abbrev pub same_mode : AgentMode → AgentMode → Bool
same_mode direct direct = true
same_mode plan plan = true
same_mode _ _ = false

unfoldable pub compare_agent_mode_snapshots :
    Option AgentModeSnapshot → AgentModeSnapshot → Relation
compare_agent_mode_snapshots none incoming = newer
compare_agent_mode_snapshots (some local) incoming =
    if ltb local.revision incoming.revision
    then newer
    else if ltb incoming.revision local.revision
    then older
    else if same_mode incoming.agent_mode local.agent_mode
    then equal_same
    else equal_conflict
