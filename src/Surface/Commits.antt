-- ===== src/Surface/Commits.antt =====
-- A compaction commits only on the surface that it was chosen on (core/session/surface.py).
use claudecode_lite_main.Prelude.{
  ℕ, ◌+◌, ◌≤◌, ◌<◌, String, List, [], ◌∷◌, Option, none, some, true, false, ◌≡◌, ◌↔◌, eq_iff, arith,
}
use claudecode_lite_main.Surface.State.{
  CompactionCandidate, Selection, from_snapshot, SurfaceState, snapshot, Mutation,
  note_surface_mutation, change_route, change_prefix, synchronize_epochs, same_id,
  candidate_matches, commit_candidate,
}

-- A call that changes the surface or its epochs.
pub data Call : Type 0 where
  mutate_call : Mutation → Call
  route_call prefix_call : String → Call
  sync_call : String → String → Call
  commit_call : CompactionCandidate → Call

same_id_iff : (a b : Option String) → (same_id a b ≡ true) ↔ (a ≡ b)
same_id_iff none none = ground arith
same_id_iff none (some b) = ground arith
same_id_iff (some a) none = ground arith
same_id_iff (some a) (some b) = ground (arith, eq_iff a b)

-- A candidate that was chosen on the surface of `t` commits on `s` just when the two surfaces are equal in
-- every field that the snapshot takes, and the epochs of `s` are those that the candidate names.
commit_exact :
    (s t : SurfaceState) (x : Selection)
    → ((commit_candidate (from_snapshot (snapshot t) x) s).1 ≡ true)
      ↔ ((snapshot s ≡ snapshot t) × (s.route_epoch ≡ x.route) × (s.prefix_epoch ≡ x.prefix))
unfolding commit_candidate candidate_matches from_snapshot snapshot
commit_exact s t x = ground (
  arith,
  same_id_iff s.active_head_id t.active_head_id,
  same_id_iff s.active_checkpoint_id t.active_checkpoint_id,
  eq_iff s.contract_digest t.contract_digest,
  eq_iff s.pending_reconciliation_watermark t.pending_reconciliation_watermark,
  eq_iff s.pending_digest t.pending_digest,
  eq_iff s.active_checkpoint_status t.active_checkpoint_status,
  eq_iff s.route_epoch x.route,
  eq_iff s.prefix_epoch x.prefix,
)

old_refused :
    (c : CompactionCandidate) (s : SurfaceState)
    → c.base_surface_revision < s.surface_revision
    → commit_candidate c s ≡ (s, false)
unfolding commit_candidate candidate_matches
old_refused c s h = ground arith

commit_advances :
    (c : CompactionCandidate) (s : SurfaceState)
    → (commit_candidate c s).1 ≡ true
    → (c.base_surface_revision ≡ s.surface_revision)
      × ((commit_candidate c s).0.surface_revision ≡ s.surface_revision + 1)
unfolding commit_candidate candidate_matches
commit_advances c s h = ground arith

commit_revision :
    (c : CompactionCandidate) (s : SurfaceState)
    → s.surface_revision ≤ (commit_candidate c s).0.surface_revision
unfolding commit_candidate
commit_revision c s = ground arith

module _ (epoch_digest : ℕ → String → String) where
  unfoldable pub step : Call → SurfaceState → SurfaceState
  unfolding note_surface_mutation change_route change_prefix synchronize_epochs
  step (mutate_call m) s = note_surface_mutation m s
  step (route_call i) s = change_route epoch_digest i s
  step (prefix_call i) s = change_prefix epoch_digest i s
  step (sync_call r p) s = synchronize_epochs r p s
  step (commit_call c) s = (commit_candidate c s).0

  unfoldable pub steps : List Call → SurfaceState → SurfaceState
  unfolding step
  steps [] s = s
  steps (c ∷ cs) s = steps cs (step c s)

  step_revision : (c : Call) (s : SurfaceState) → s.surface_revision ≤ (step c s).surface_revision
  unfolding step
  step_revision (commit_call c) s = commit_revision c s
  step_revision _ s = ground arith

  steps_revision :
      (cs : List Call) (s : SurfaceState) → s.surface_revision ≤ (steps cs s).surface_revision
  unfolding steps
  steps_revision [] s = omega arith
  steps_revision (c ∷ cs) s = omega (arith, step_revision c s, steps_revision cs (step c s))

  -- Whatever calls are made before and after it, a surface mutation makes every candidate that was chosen
  -- before useless: it is refused, and the refusal changes nothing.
  pub stale_refused :
      (cs ds : List Call) (m : Mutation) (s : SurfaceState) (x : Selection)
      → commit_candidate
          (from_snapshot (snapshot s) x)
          (steps ds (note_surface_mutation m (steps cs s)))
        ≡ (steps ds (note_surface_mutation m (steps cs s)), false)
  unfolding from_snapshot snapshot note_surface_mutation
  stale_refused cs ds m s x =
      let t = note_surface_mutation m (steps cs s) in
      old_refused (from_snapshot (snapshot s) x) (steps ds t)
        (omega (arith, steps_revision cs s, steps_revision ds t))

  -- Of the candidates that were chosen at one revision at most one commits: once one has, all of them are
  -- refused after any calls.
  pub commits_once :
      (c d : CompactionCandidate) (s : SurfaceState) (cs : List Call)
      → (commit_candidate c s).1 ≡ true
      → d.base_surface_revision ≡ c.base_surface_revision
      → commit_candidate d (steps cs (commit_candidate c s).0)
        ≡ (steps cs (commit_candidate c s).0, false)
  commits_once c d s cs h e =
      let t = (commit_candidate c s).0 in
      old_refused d (steps cs t) (omega (arith, steps_revision cs t, commit_advances c s h))
