-- ===== src/Session/Order.antt =====
-- The validation is exact, and the comparison is an order (core/session/model.py).
use claudecode_lite_main.Prelude.{
  ℕ, ◌≤◌, String, some, eq_iff, ◌<◌, ◌≡◌, ◌≢◌, refl, ◌↔◌, ne_of_str_eq, arith,
}
use claudecode_lite_main.Prelude.Int.{pos}
use claudecode_lite_main.Session.Mode.{
  AgentMode, direct, plan, max_agent_mode_revision, Relation, newer, equal_same, equal_conflict,
  older, Value, text, number, validate_agent_mode, validate_agent_mode_revision, AgentModeSnapshot,
  new_snapshot, compare_agent_mode_snapshots,
}

abbrev pub mode_name : AgentMode → String
mode_name direct = "direct"
mode_name plan = "plan"

mode_exact :
    (v : Value) (m : AgentMode) → (validate_agent_mode v ≡ some m) ↔ (v ≡ text (mode_name m))
unfolding validate_agent_mode
mode_exact (text s) m =
    ground (arith, eq_iff s "direct", eq_iff s "plan", ne_of_str_eq "direct" "plan" refl)
mode_exact v m = ground arith

revision_exact :
    (v : Value) (n : ℕ)
    → (validate_agent_mode_revision v ≡ some n)
      ↔ ((v ≡ number (pos n)) × (n ≤ max_agent_mode_revision))
unfolding validate_agent_mode_revision
revision_exact v n = ground arith

-- A snapshot is made of just the two names of the modes and the integers from 0 to the protocol's limit.
new_snapshot_exact :
    (mode revision : Value) (s : AgentModeSnapshot)
    → (new_snapshot mode revision ≡ some s) ↔ (
        (mode ≡ text (mode_name s.agent_mode))
        × (revision ≡ number (pos s.revision))
        × (s.revision ≤ max_agent_mode_revision))
unfolding new_snapshot
new_snapshot_exact mode revision s =
    ground (arith, mode_exact mode s.agent_mode, revision_exact revision s.revision)

abbrev pub mirrored : Relation → Relation
mirrored newer = older
mirrored older = newer
mirrored equal_same = equal_same
mirrored equal_conflict = equal_conflict

-- A snapshot is newer than the current one just when its revision is greater, and older just when it is
-- less; "the same" is said of equal snapshots only, and a conflict of two that have one revision and
-- different modes; two sides that compare their snapshots come to mirrored verdicts; and what is newer
-- than a newer one is newer.
pub compare_ordered :
    (a b c : AgentModeSnapshot)
    → ((compare_agent_mode_snapshots (some a) b ≡ newer) ↔ (a.revision < b.revision))
      × ((compare_agent_mode_snapshots (some a) b ≡ older) ↔ (b.revision < a.revision))
      × ((compare_agent_mode_snapshots (some a) b ≡ equal_conflict)
          ↔ ((a.revision ≡ b.revision) × (a.agent_mode ≢ b.agent_mode)))
      × (compare_agent_mode_snapshots (some a) b
          ≡ mirrored (compare_agent_mode_snapshots (some b) a))
      × ((compare_agent_mode_snapshots (some a) b ≡ equal_same) ↔ (a ≡ b))
      × (compare_agent_mode_snapshots (some a) b ≡ newer
          → compare_agent_mode_snapshots (some b) c ≡ newer
          → compare_agent_mode_snapshots (some a) c ≡ newer)
unfolding compare_agent_mode_snapshots
compare_ordered a b c =
    (ground arith, ground arith, ground arith, ground arith, ground arith, λ h k. ground arith)
