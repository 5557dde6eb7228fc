-- ===== src/Surface/Examples.antt =====
-- The theorems on a new surface, with one candidate for a compaction.
use claudecode_lite_main.Prelude.{ℕ, String, [], ◌∷◌, none, some, false, ◌≡◌, refl}
use claudecode_lite_main.Surface.State.{
  CompactionCandidate, Selection, from_snapshot, new_surface, snapshot, Mutation,
  note_surface_mutation, change_route, synchronize_epochs, candidate_matches, commit_candidate,
}
use claudecode_lite_main.Surface.Commits.{route_call, sync_call, steps, stale_refused, commits_once}

abbrev digest : ℕ → String → String
digest n s = s

abbrev chosen : Selection
chosen = record {
  unit_ids = "u1" ∷ "u2" ∷ [];
  span_digest = "abc";
  route = "route-0";
  prefix = "prefix-0";
  envelope_id = "e1";
}

abbrev steering : Mutation
steering = record {
  active_head_id = some (some "m7");
  contract_version = none;
  contract_digest = none;
  pending_watermark = none;
  pending_digest = none;
  checkpoint_id = none;
  checkpoint_status = some none;
}

program : Unit {0}
unfolding from_snapshot snapshot note_surface_mutation change_route synchronize_epochs
    candidate_matches commit_candidate steps
program = tt

abbrev candidate : CompactionCandidate
candidate = from_snapshot (snapshot new_surface) chosen

route_kept : (steps digest (route_call "b" ∷ []) new_surface).route_epoch ≡ "route-b"
unfolding program
route_kept = refl

stale_refused_example :
    commit_candidate candidate (
      steps digest
        (sync_call "route-0" "prefix-0" ∷ [])
        (note_surface_mutation steering (steps digest [] new_surface)))
    ≡ (
      steps digest
          (sync_call "route-0" "prefix-0" ∷ [])
          (note_surface_mutation steering (steps digest [] new_surface)),
      false,
    )
stale_refused_example =
    stale_refused digest [] (sync_call "route-0" "prefix-0" ∷ []) steering new_surface chosen

commits_once_example :
    commit_candidate candidate (steps digest [] (commit_candidate candidate new_surface).0)
    ≡ (steps digest [] (commit_candidate candidate new_surface).0, false)
unfolding program
commits_once_example = commits_once digest candidate candidate new_surface [] refl refl
