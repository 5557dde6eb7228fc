-- ===== src/Approval/State.antt =====
-- core/approval.py, `ApprovalSnapshotState`: the state machine by which a client merges the
-- snapshots of a plan's approval. Digests are opaque texts.
use claudecode_lite_main.Prelude.{
  ℕ, ◌+◌, String, Option, none, some, Bool, true, false, not, ◌&&◌, ◌||◌, ◌==◌, str_eq,
  if◌then◌else◌,
}

pub data ApprovalStatus : Type 0 where
  pending approved rejected conflicted : ApprovalStatus

pub data ApprovalAction : Type 0 where
  approve reject : ApprovalAction

pub record ApprovalRequestOwner : Type 0 where
  pub client_identity : String
  pub session_id : String
  pub daemon_instance_id : String
  pub projection_key : String

pub record ApprovalSnapshot : Type 0 where
  pub status : ApprovalStatus
  pub projection_key : String
  pub record_digest : Option String
  pub action : Option ApprovalAction
  pub commit_receipt_digest : Option String

-- `ApprovalSnapshotRelation`.
pub data Relation : Type 0 where
  new noop apply stale conflict : Relation

pub record SnapshotState : Type 0 where
  pub owner : ApprovalRequestOwner
  pub snapshot : ApprovalSnapshot
  pub refresh_required : Bool
  pub refresh_in_flight : Bool
  pub conflict_epoch : Option ℕ
  pub next_conflict_epoch : ℕ

abbrev pub same_status : ApprovalStatus → ApprovalStatus → Bool
same_status pending pending = true
same_status approved approved = true
same_status rejected rejected = true
same_status conflicted conflicted = true
same_status _ _ = false

abbrev pub same_text : Option String → Option String → Bool
same_text none none = true
same_text (some a) (some b) = str_eq a b
same_text _ _ = false

abbrev pub same_action : Option ApprovalAction → Option ApprovalAction → Bool
same_action none none = true
same_action (some approve) (some approve) = true
same_action (some reject) (some reject) = true
same_action _ _ = false

abbrev pub same_owner : ApprovalRequestOwner → ApprovalRequestOwner → Bool
same_owner a b =
    str_eq a.client_identity b.client_identity
    && (str_eq a.session_id b.session_id
        && (str_eq a.daemon_instance_id b.daemon_instance_id
            && str_eq a.projection_key b.projection_key))

-- A snapshot with no record.
abbrev pub bare : ApprovalStatus → String → ApprovalSnapshot
bare status key = record {
  status = status;
  projection_key = key;
  record_digest = none;
  action = none;
  commit_receipt_digest = none;
}

-- `ApprovalSnapshotState(owner)`.
unfoldable pub initial : ApprovalRequestOwner → SnapshotState
initial owner = record {
  owner = owner;
  snapshot = bare pending owner.projection_key;
  refresh_required = false;
  refresh_in_flight = false;
  conflict_epoch = none;
  next_conflict_epoch = 0;
}

-- The call names another owner, or the snapshot another projection.
unfoldable pub foreign :
    ApprovalRequestOwner → ApprovalSnapshot → Option ApprovalRequestOwner → Bool
foreign self incoming owner =
    elim owner [ none ↦ false | some o ↦ not (same_owner o self) ]
    || not (str_eq incoming.projection_key self.projection_key)

-- The two terminal snapshots carry the same decision.
unfoldable pub same_decision : ApprovalSnapshot → ApprovalSnapshot → Bool
same_decision a b =
    same_status a.status b.status
    && (same_action a.action b.action
        && (same_text a.record_digest b.record_digest
            && same_text a.commit_receipt_digest b.commit_receipt_digest))

-- Two terminal decisions that differ: the state is in conflict, with one epoch for a refresh.
unfoldable pub enter_conflict : SnapshotState → SnapshotState
enter_conflict s =
    let marked = record s { snapshot = bare conflicted s.owner.projection_key } in
    elim s.conflict_epoch [
      | some _ ↦ marked
      | none ↦ record marked {
        next_conflict_epoch = s.next_conflict_epoch + 1;
        conflict_epoch = some (s.next_conflict_epoch + 1);
        refresh_required = true;
      }
    ]

unfoldable pub merge_terminal : SnapshotState → ApprovalSnapshot → SnapshotState × Relation
unfolding enter_conflict
merge_terminal s incoming =
    if same_status incoming.status pending
    then (s, stale)
    else if same_decision s.snapshot incoming
    then (s, noop)
    else (enter_conflict s, conflict)

unfoldable pub merge_known : SnapshotState → ApprovalSnapshot → SnapshotState × Relation
unfolding merge_terminal
merge_known s incoming =
    if same_status s.snapshot.status conflicted
    then (s, if same_status incoming.status conflicted then noop else stale)
    else if same_status s.snapshot.status pending
    then if same_status incoming.status pending
      then (s, noop)
      else (record s { snapshot = incoming }, apply)
    else merge_terminal s incoming

unfoldable pub merge :
    SnapshotState → ApprovalSnapshot → Option ApprovalRequestOwner → SnapshotState × Relation
unfolding merge_known
merge s incoming owner =
    if foreign s.owner incoming owner then (s, stale) else merge_known s incoming

abbrev pub is_resolved : ApprovalStatus → Bool
is_resolved approved = true
is_resolved rejected = true
is_resolved _ = false

unfoldable pub seed_authoritative_snapshot :
    SnapshotState → ApprovalSnapshot → Option ApprovalRequestOwner → SnapshotState × Bool
seed_authoritative_snapshot s incoming owner =
    if foreign s.owner incoming owner
    then (s, false)
    else if s.refresh_in_flight
    then (s, false)
    else if is_resolved s.snapshot.status && same_status incoming.status pending
    then (s, false)
    else (record s { snapshot = incoming; refresh_required = false; conflict_epoch = none }, true)

unfoldable pub begin_refresh : SnapshotState → SnapshotState × Option ℕ
begin_refresh s = elim s.conflict_epoch [
  | none ↦ (s, none)
  | some epoch ↦
      if s.refresh_in_flight || not s.refresh_required
      then (s, none)
      else (record s { refresh_in_flight = true; refresh_required = false }, some epoch)
]

abbrev pub is_epoch : Option ℕ → ℕ → Bool
is_epoch none e = false
is_epoch (some d) e = d == e

unfoldable pub apply_authoritative_snapshot :
    SnapshotState → ApprovalSnapshot → ℕ → Option ApprovalRequestOwner → SnapshotState × Bool
apply_authoritative_snapshot s incoming epoch owner =
    if foreign s.owner incoming owner
    then (s, false)
    else if not (is_epoch s.conflict_epoch epoch)
    then (s, false)
    else if not s.refresh_in_flight
    then (s, false)
    else (
      record s {
        snapshot = incoming;
        refresh_in_flight = false;
        refresh_required = false;
        conflict_epoch = none;
      },
      true,
    )

unfoldable pub fail_refresh : SnapshotState → ℕ → SnapshotState × Bool
fail_refresh s epoch =
    if not (is_epoch s.conflict_epoch epoch)
    then (s, false)
    else (record s { refresh_in_flight = false; refresh_required = false }, true)

unfoldable pub force_new_conflict_epoch : SnapshotState → SnapshotState × ℕ
force_new_conflict_epoch s = (
  record s {
    next_conflict_epoch = s.next_conflict_epoch + 1;
    conflict_epoch = some (s.next_conflict_epoch + 1);
    refresh_required = true;
    refresh_in_flight = false;
    snapshot = bare conflicted s.owner.projection_key;
  },
  s.next_conflict_epoch + 1,
)
