-- ===== src/Journal/Examples.antt =====
-- The journal theorems on a daemon with one session and one run.
use claudecode_lite_main.Prelude.{
  ℕ, eq_iff, ◌≤◌, String, List, [], ◌∷◌, ◌++◌, none, some, true, ◌≡◌, refl, sym, ◌⊎◌, inl, inr,
  arith, length, lookup, insert, mem, if◌then◌else◌, str_eq, Bool-cases,
}
use claudecode_lite_main.Journal.Stream.{
  journal_batch_max_frames, journal_batch_max_bytes, Event, QueuedRecord, StreamState, total_size,
  new_stream, enqueue, take_batch, fill_batch, append_rows, commit_batch, settle_item, settle_items,
  after_batch,
}
use claudecode_lite_main.Journal.Invariant.{row_seqs, IsValid, new_stream-IsValid}
use claudecode_lite_main.Journal.Batches.{take_batch_bounds}
use claudecode_lite_main.Journal.Histories.{here, next, put, take, write, commit, stream-IsValid}
use claudecode_lite_main.Journal.Routing.{
  capacity, ok, register_session, register_run, add, insert_text, sorted, Route, registered,
  to_session, runs_of, run_targets, agreed_session, with_session, to_runs, route_event,
}
use claudecode_lite_main.Journal.Publish.{
  Coordinator, Answers, record_for, reserve, reserve_all, enter_all, on_failure, publish_live,
  publish_durable, publish_routed, publish_event_once,
}
use claudecode_lite_main.Journal.Failures.{Named, Refused}
use claudecode_lite_main.Journal.Refusals.{with_event, publish-Refused}
use claudecode_lite_main.Journal.Delivery.{AllValid}
use claudecode_lite_main.Journal.Accepted.{publish-AllValid}
use claudecode_lite_main.Journal.Entry.{after_entry, publish_enters}

abbrev small : String → String → ℕ → Event → ℕ
small event_id stream_id seq e = 100

abbrev huge : String → String → ℕ → Event → ℕ
huge event_id stream_id seq e = 2000000

abbrev finished : Event
finished = record {
  type = "run.finished";
  event_id = some "e1";
  run_id = some "r1";
  session_id = some "s1";
  parent_run_id = none;
  payload = "{}";
}

-- An awaited publication whose receipts are resolved.
abbrev kept : Answers
kept = record { await_all = true; receipts_kept = true; live_kept = true }

abbrev daemon : Coordinator
daemon = record {
  streams = ("session:s1", new_stream "session:s1" 4) ∷ ("run:r1", new_stream "run:r1" 0) ∷ [];
  identities = record { run_sessions = ("r1", some "s1") ∷ []; sessions = "s1" ∷ [] };
  accepting = true;
  payloads = [];
  outcomes = [];
  reported = [];
  live_only = [];
}

abbrev opened_at : String → ℕ
opened_at k = if str_eq "session:s1" k then 4 else 0

abbrev both : Route
both = record { targets = "session:s1" ∷ "run:r1" ∷ []; terminals = "run:r1" ∷ [] }

program : Unit {0}
unfolding new_stream enqueue take_batch fill_batch append_rows commit_batch settle_item settle_items
    after_batch register_session register_run add insert_text sorted registered to_session runs_of
    run_targets agreed_session with_session to_runs route_event reserve reserve_all enter_all
    on_failure publish_live publish_durable publish_routed publish_event_once lookup insert mem
program = tt

abbrev first : StreamState
first = new_stream "session:s1" 4

abbrev item : QueuedRecord
item = record_for small "e1" finished [] first

abbrev flushed : StreamState
flushed = append_rows 1 (take_batch (enqueue item first))

stream-IsValid_example :
    IsValid 4 (commit_batch flushed)
    × ((lost : List ℕ) × (row_seqs (commit_batch flushed).rows
          ≡ (commit_batch flushed).resolved ++ lost))
unfolding program
stream-IsValid_example = stream-IsValid "session:s1" 4 (
    next
      (next
        (next
          (next here (
            put item (record {
              is_open = refl;
              has_number = refl;
              frame_free = omega arith;
              bytes_free = omega arith;
            })))
          (take refl))
        (write 1 refl))
      (commit refl))

take_batch_bounds_example :
    (length (take_batch (enqueue item first)).in_flight ≤ journal_batch_max_frames)
    × ((total_size (take_batch (enqueue item first)).in_flight ≤ journal_batch_max_bytes)
        ⊎ (length (take_batch (enqueue item first)).in_flight ≡ 1))
    × ((take_batch (enqueue item first)).in_flight ++ (take_batch (enqueue item first)).queue
        ≡ (enqueue item first).queue)
take_batch_bounds_example = take_batch_bounds (enqueue item first)

routed : route_event daemon.streams daemon.identities finished ≡ ok both
unfolding program
routed = refl

daemon-Named : Named daemon.streams
unfolding program
daemon-Named k s h = elim (Bool-cases (str_eq "session:s1" k)) [
  | inl e ↦
      let same : new_stream "session:s1" 4 ≡ s = ground arith in
      rw (sym same) ((eq_iff "session:s1" k).0 e)
  | inr e ↦ elim (Bool-cases (str_eq "run:r1" k)) [
    | inl f ↦
        let same : new_stream "run:r1" 0 ≡ s = ground arith in
        rw (sym same) ((eq_iff "run:r1" k).0 f)
    | inr f ↦ ground arith
  ]
]

publish-Refused_example :
    Refused
      (with_event huge kept "u1" finished daemon)
      (capacity "run:r1")
      finished
      daemon
      (publish_event_once huge kept "u1" finished daemon).1
unfolding program
publish-Refused_example =
    publish-Refused huge kept (capacity "run:r1") "u1" finished daemon daemon-Named refl

daemon-AllValid : AllValid opened_at daemon.streams
unfolding program
daemon-AllValid k s h = elim (Bool-cases (str_eq "session:s1" k)) [
  | inl e ↦
      let same : new_stream "session:s1" 4 ≡ s = ground arith in
      rw (e, sym same) (new_stream-IsValid "session:s1" 4)
  | inr e ↦
      let same : new_stream "run:r1" 0 ≡ s = ground arith in
      rw (e, sym same) (new_stream-IsValid "run:r1" 0)
]

publish-AllValid_example :
    AllValid opened_at (publish_event_once small kept "u1" finished daemon).1.streams
publish-AllValid_example =
    publish-AllValid small kept opened_at "u1" finished daemon daemon-AllValid

publish_enters_example :
    ("run:r1" ∷ "session:s1" ∷ [] ≡ sorted both.targets)
    × (lookup "run:r1" (publish_event_once small kept "u1" finished daemon).1.streams
        ≡ after_entry small "e1" finished both.terminals both.targets daemon.streams "run:r1")
unfolding program
publish_enters_example =
    publish_enters small kept "u1" finished daemon both ("run:r1" ∷ "session:s1" ∷ []) "run:r1" refl
      routed refl refl
