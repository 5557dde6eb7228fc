-- ===== src/Approval/Laws.antt =====
-- What `ApprovalSnapshotState` (core/approval.py) guarantees over every sequence of calls.
use claudecode_lite_main.Prelude.{
  ℕ, ◌≤◌, ◌<◌, String, List, [], ◌∷◌, Option, none, some, true, false, ◌&&◌, ◌||◌, ◌≡◌, refl, ap,
  ◌⊎◌, inl, inr, arith, eq_iff,
}
use claudecode_lite_main.Approval.State.{
  ApprovalStatus, ApprovalAction, ApprovalRequestOwner, ApprovalSnapshot, SnapshotState,
  same_status, same_text, same_action, initial, foreign, same_decision, merge,
  seed_authoritative_snapshot, begin_refresh, apply_authoritative_snapshot, fail_refresh,
  force_new_conflict_epoch,
}

-- A call of the object's interface.
pub data Call : Type 0 where
  merge_call : ApprovalSnapshot → Option ApprovalRequestOwner → Call
  seed_call : ApprovalSnapshot → Option ApprovalRequestOwner → Call
  begin_call : Call
  apply_call : ApprovalSnapshot → ℕ → Option ApprovalRequestOwner → Call
  fail_call : ℕ → Call
  force_call : Call

abbrev pub step : Call → SnapshotState → SnapshotState
step (merge_call incoming owner) s = (merge s incoming owner).0
step (seed_call incoming owner) s = (seed_authoritative_snapshot s incoming owner).0
step begin_call s = (begin_refresh s).0
step (apply_call incoming epoch owner) s = (apply_authoritative_snapshot s incoming epoch owner).0
step (fail_call epoch) s = (fail_refresh s epoch).0
step force_call s = (force_new_conflict_epoch s).0

pub record IsValid (s : SnapshotState) : Type 0 where
  pub key_kept : s.snapshot.projection_key ≡ s.owner.projection_key
  pub one_refresh : (s.refresh_in_flight && s.refresh_required) ≡ false
  pub refresh_has_epoch :
      (s.refresh_in_flight || s.refresh_required) ≡ true
      → s.conflict_epoch ≡ some s.next_conflict_epoch
  pub epoch_is_last : (s.conflict_epoch ≡ none) ⊎ (s.conflict_epoch ≡ some s.next_conflict_epoch)

pub initial-IsValid : (owner : ApprovalRequestOwner) → IsValid (initial owner)
unfolding initial
initial-IsValid owner = ground arith

-- A snapshot that is not foreign belongs to the owner's projection.
pub native_key :
    (s : SnapshotState) (incoming : ApprovalSnapshot) (owner : Option ApprovalRequestOwner)
    → foreign s.owner incoming owner ≡ false
    → incoming.projection_key ≡ s.owner.projection_key
unfolding foreign
native_key s incoming owner h =
    ground (arith, eq_iff incoming.projection_key s.owner.projection_key)

step_keeps : (c : Call) (s : SnapshotState) → IsValid s → IsValid (step c s)
unfolding merge seed_authoritative_snapshot begin_refresh apply_authoritative_snapshot fail_refresh
    force_new_conflict_epoch
step_keeps (merge_call incoming owner) s v = ground (arith, native_key s incoming owner)
step_keeps (seed_call incoming owner) s v = ground (arith, native_key s incoming owner)
step_keeps (apply_call incoming epoch owner) s v = ground (arith, native_key s incoming owner)
step_keeps _ s v = ground arith

step_owner : (c : Call) (s : SnapshotState) → (step c s).owner ≡ s.owner
unfolding merge seed_authoritative_snapshot begin_refresh apply_authoritative_snapshot fail_refresh
    force_new_conflict_epoch
step_owner (merge_call incoming owner) s = ground arith
step_owner (seed_call incoming owner) s = ground arith
step_owner (apply_call incoming epoch owner) s = ground arith
step_owner begin_call s = ground arith
step_owner (fail_call epoch) s = ground arith
step_owner force_call s = ground arith

-- Every call keeps the state well formed (the snapshot is of its owner's projection, a refresh is asked
-- for or under way but not both, and only for the last epoch), and no call changes its owner.
pub step-IsValid :
    (c : Call) (s : SnapshotState) → IsValid s → IsValid (step c s) × ((step c s).owner ≡ s.owner)
step-IsValid c s v = (step_keeps c s v, step_owner c s)

-- The epochs for which `begin_refresh` started a refresh, in a run of calls.
push : Option ℕ → List ℕ → List ℕ
push none es = es
push (some e) es = e ∷ es

started : Call → SnapshotState → List ℕ → List ℕ
started begin_call s rest = push (begin_refresh s).1 rest
started _ s rest = rest

unfoldable pub epochs : List Call → SnapshotState → List ℕ
unfolding started push
epochs [] s = []
epochs (c ∷ cs) s = started c s (epochs cs (step c s))

abbrev pub IsIncreasing : ℕ → List ℕ → Type 0
IsIncreasing low [] = Unit
IsIncreasing low (e ∷ es) = (low < e) × IsIncreasing e es

-- Every epoch that can still start lies above `low`.
record IsAbove (low : ℕ) (s : SnapshotState) : Type 0 where
  reached : low ≤ s.next_conflict_epoch
  ahead : s.refresh_required ≡ true → low < s.next_conflict_epoch

step-IsAbove :
    (c : Call) (low : ℕ) (s : SnapshotState)
    → IsAbove low s
    → (c ≡ begin_call) ⊎ IsAbove low (step c s)
unfolding merge seed_authoritative_snapshot apply_authoritative_snapshot fail_refresh
    force_new_conflict_epoch
step-IsAbove (merge_call incoming owner) low s a = inr (ground arith)
step-IsAbove (seed_call incoming owner) low s a = inr (ground arith)
step-IsAbove (apply_call incoming epoch owner) low s a = inr (ground arith)
step-IsAbove (fail_call epoch) low s a = inr (ground arith)
step-IsAbove begin_call low s a = inl refl
step-IsAbove force_call low s a = inr (ground arith)

begin-started :
    (low : ℕ) (s : SnapshotState)
    → IsValid s
    → IsAbove low s
    → (((begin_refresh s).1 ≡ none) × ((begin_refresh s).0 ≡ s))
      ⊎ (((begin_refresh s).1 ≡ some s.next_conflict_epoch)
          × (low < s.next_conflict_epoch)
          × IsAbove s.next_conflict_epoch (begin_refresh s).0)
unfolding begin_refresh
begin-started low s v a = ground arith

epochs_above :
    (cs : List Call) (low : ℕ) (s : SnapshotState)
    → IsValid s
    → IsAbove low s
    → IsIncreasing low (epochs cs s)
unfolding epochs started push
epochs_above [] low s v a = tt
epochs_above (begin_call ∷ cs) low s v a = elim (begin-started low s v a) [
  | inl (idle, same) ↦
      rw (idle, push)
        (epochs_above cs low (begin_refresh s).0 (step_keeps begin_call s v) (rw same a))
  | inr (fresh, more, above) ↦
      rw (fresh, push)
        (
          more,
          epochs_above cs s.next_conflict_epoch (begin_refresh s).0 (step_keeps begin_call s v)
              above,
        )
]
epochs_above (c ∷ cs) low s v a = elim (step-IsAbove c low s a) [
  | inl e ↦ cc
  | inr above ↦ epochs_above cs low (step c s) (step_keeps c s v) above
]

-- Whatever calls are made on a new state, each epoch starts at most one refresh, and the epochs
-- that start one come in increasing order.
pub epochs-IsIncreasing :
    (owner : ApprovalRequestOwner) (cs : List Call) → IsIncreasing 0 (epochs cs (initial owner))
epochs-IsIncreasing owner cs =
    epochs_above cs 0 (initial owner) (initial-IsValid owner) (unfold initial in ground arith)

same_text_eq : (a b : Option String) → same_text a b ≡ true → a ≡ b
same_text_eq none none h = refl
same_text_eq none (some b) h = cc
same_text_eq (some a) none h = cc
same_text_eq (some a) (some b) h = ap some ((eq_iff a b).0 h)

same_action_eq : (a b : Option ApprovalAction) → same_action a b ≡ true → a ≡ b
same_action_eq a b h = ground arith

same_status_eq : (a b : ApprovalStatus) → same_status a b ≡ true → a ≡ b
same_status_eq a b h = ground arith

pub same_decision_eq :
    (a b : ApprovalSnapshot)
    → a.projection_key ≡ b.projection_key
    → same_decision a b ≡ true
    → a ≡ b
unfolding same_decision
same_decision_eq a b k h = ground (
  arith,
  same_status_eq a.status b.status,
  same_action_eq a.action b.action,
  same_text_eq a.record_digest b.record_digest,
  same_text_eq a.commit_receipt_digest b.commit_receipt_digest,
)
