-- ===== src/Approval/Examples.antt =====
-- The approval theorems on one plan, approved by one client and rejected by another.
use claudecode_lite_main.Prelude.{List, [], ◌∷◌, none, some, ◌≡◌, refl}
use claudecode_lite_main.Approval.State.{
  approved, rejected, approve, reject, ApprovalRequestOwner, ApprovalSnapshot, SnapshotState,
  initial, foreign, same_decision, enter_conflict, merge_terminal, merge_known, merge,
  begin_refresh, fail_refresh, force_new_conflict_epoch,
}
use claudecode_lite_main.Approval.Laws.{
  Call, merge_call, begin_call, fail_call, force_call, step, IsValid, initial-IsValid, step-IsValid,
  epochs, IsIncreasing, epochs-IsIncreasing,
}
use claudecode_lite_main.Approval.Order.{merge_comm, then_merge}

abbrev owner : ApprovalRequestOwner
owner = record {
  client_identity = "cli";
  session_id = "s1";
  daemon_instance_id = "d1";
  projection_key = "plan";
}

abbrev yes_said : ApprovalSnapshot
yes_said = record {
  status = approved;
  projection_key = "plan";
  record_digest = some "r1";
  action = some approve;
  commit_receipt_digest = none;
}

abbrev no_said : ApprovalSnapshot
no_said = record {
  status = rejected;
  projection_key = "plan";
  record_digest = some "r2";
  action = some reject;
  commit_receipt_digest = none;
}

program : Unit {0}
unfolding initial foreign same_decision enter_conflict merge_terminal merge_known merge
    begin_refresh fail_refresh force_new_conflict_epoch epochs
program = tt

abbrev decided : SnapshotState
decided = (merge (initial owner) yes_said none).0

abbrev calls : List Call
calls =
    merge_call yes_said none
    ∷ merge_call no_said none
    ∷ begin_call
    ∷ begin_call
    ∷ fail_call 1
    ∷ force_call
    ∷ begin_call
    ∷ []

started_twice : epochs calls (initial owner) ≡ 1 ∷ 2 ∷ []
unfolding program
started_twice = refl

step-IsValid_example :
    IsValid (step (merge_call no_said none) decided)
    × ((step (merge_call no_said none) decided).owner ≡ decided.owner)
step-IsValid_example =
    step-IsValid (merge_call no_said none) decided
      (step-IsValid (merge_call yes_said none) (initial owner) (initial-IsValid owner)).0

epochs-IsIncreasing_example : IsIncreasing 0 (epochs calls (initial owner))
epochs-IsIncreasing_example = epochs-IsIncreasing owner calls

merge_comm_example :
    then_merge (initial owner) yes_said no_said none none
    ≡ then_merge (initial owner) no_said yes_said none none
merge_comm_example = merge_comm (initial owner) yes_said no_said none none refl refl
