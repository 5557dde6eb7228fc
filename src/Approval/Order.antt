-- ===== src/Approval/Order.antt =====
-- The order in which a client hears of decisions does not matter (core/approval.py, `merge`).
use claudecode_lite_main.Prelude.{
  String, Option, none, some, false, ◌≡◌, refl, sym, ◌∙◌, arith, str_eq_comm, Bool-cases, inl, inr,
}
use claudecode_lite_main.Approval.State.{
  conflicted, ApprovalRequestOwner, ApprovalSnapshot, SnapshotState, same_status, same_text,
  foreign, same_decision, merge_known, merge,
}
use claudecode_lite_main.Approval.Laws.{native_key, same_decision_eq}

same_text_comm : (a b : Option String) → same_text a b ≡ same_text b a
same_text_comm none none = refl
same_text_comm none (some b) = refl
same_text_comm (some a) none = refl
same_text_comm (some a) (some b) = str_eq_comm a b

same_decision_comm : (a b : ApprovalSnapshot) → same_decision a b ≡ same_decision b a
unfolding same_decision
same_decision_comm a b = ground (
  arith,
  same_text_comm a.record_digest b.record_digest,
  same_text_comm a.commit_receipt_digest b.commit_receipt_digest,
)

merge_owner :
    (s : SnapshotState) (incoming : ApprovalSnapshot) (o : Option ApprovalRequestOwner)
    → (merge s incoming o).0.owner ≡ s.owner
unfolding merge
merge_owner s incoming o = ground arith

-- A merge of two snapshots in order.
abbrev pub then_merge :
    SnapshotState
    → ApprovalSnapshot
    → ApprovalSnapshot
    → Option ApprovalRequestOwner
    → Option ApprovalRequestOwner
    → SnapshotState
then_merge s a b o p = (merge (merge s a o).0 b p).0

merge_known_comm :
    (s : SnapshotState) (a b : ApprovalSnapshot)
    → a.projection_key ≡ b.projection_key
    → same_status a.status conflicted ≡ false
    → same_status b.status conflicted ≡ false
    → (merge_known (merge_known s a).0 b).0 ≡ (merge_known (merge_known s b).0 a).0
unfolding merge_known
merge_known_comm s a b k ca cb = ground (arith, same_decision_comm a b, same_decision_eq a b k)

-- Two snapshots that do not say "conflicted" lead to the same state in either order: the same
-- decision, the same conflict and the same epoch.
pub merge_comm :
    (s : SnapshotState) (a b : ApprovalSnapshot) (o p : Option ApprovalRequestOwner)
    → same_status a.status conflicted ≡ false
    → same_status b.status conflicted ≡ false
    → then_merge s a b o p ≡ then_merge s b a p o
unfolding merge
merge_comm s a b o p ca cb =
    let oa = merge_owner s a o in
    let ob = merge_owner s b p in
    elim (Bool-cases (foreign s.owner a o)) [
      | inl fa ↦ ground (arith, oa, ob)
      | inr fa ↦ elim (Bool-cases (foreign s.owner b p)) [
        | inl fb ↦ ground (arith, oa, ob)
        | inr fb ↦
            let k = native_key s a o fa ∙ sym (native_key s b p fb) in
            ground (arith, oa, ob, merge_known_comm s a b k ca cb)
      ]
    ]
