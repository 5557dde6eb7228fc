-- ===== src/Session/Examples.antt =====
-- The theorems on two snapshots of one session.
use claudecode_lite_main.Prelude.{none, some, ◌<◌, ◌≡◌, ◌≢◌, refl, ◌↔◌}
use claudecode_lite_main.Prelude.Int.{pos}
use claudecode_lite_main.Session.Mode.{
  direct, plan, newer, older, equal_same, equal_conflict, text, number, AgentModeSnapshot,
  new_snapshot, compare_agent_mode_snapshots,
}
use claudecode_lite_main.Session.Order.{mirrored, compare_ordered}

abbrev first : AgentModeSnapshot
first = record { agent_mode = direct; revision = 1 }

abbrev second : AgentModeSnapshot
second = record { agent_mode = plan; revision = 2 }

made : new_snapshot (text "plan") (number (pos 2)) ≡ some second
unfolding new_snapshot
made = refl

refused : new_snapshot (text "plan") (number (pos 9223372036854775808)) ≡ none
unfolding new_snapshot
refused = refl

compare_ordered_example :
    ((compare_agent_mode_snapshots (some first) second ≡ newer)
      ↔ (first.revision < second.revision))
    × ((compare_agent_mode_snapshots (some first) second ≡ older)
        ↔ (second.revision < first.revision))
    × ((compare_agent_mode_snapshots (some first) second ≡ equal_conflict)
        ↔ ((first.revision ≡ second.revision) × (first.agent_mode ≢ second.agent_mode)))
    × (compare_agent_mode_snapshots (some first) second
        ≡ mirrored (compare_agent_mode_snapshots (some second) first))
    × ((compare_agent_mode_snapshots (some first) second ≡ equal_same) ↔ (first ≡ second))
    × (compare_agent_mode_snapshots (some first) second ≡ newer
        → compare_agent_mode_snapshots (some second) first ≡ newer
        → compare_agent_mode_snapshots (some first) first ≡ newer)
compare_ordered_example = compare_ordered first second first
