-- ===== src/Journal/Publish.antt =====
-- core/events/journal.py, `_publish_event_once`: an event is reserved on all of its streams before it is
-- entered on any. `line_size` gives the length of the record's JSON line, which the standard
-- library's encoder makes; `fresh_id` is the id that `uuid4` gives to an event with none. What the
-- wait for the receipts and the call of `on_live_only` come to is given by `Answers`. A publication is
-- one step here: what happens to its streams while it waits for the receipts are steps of those streams.
use claudecode_lite_main.Prelude.{
  ℕ, ◌+◌, String, List, [], ◌∷◌, ◌++◌, Option, none, some, Bool, true, false, not, ◌&&◌, ◌||◌, ltb,
  leb, str_eq, lookup, insert, mem, if◌then◌else◌,
}
use claudecode_lite_main.Journal.Stream.{
  journal_queue_max_frames, journal_queue_max_bytes, journal_max_single_frame_bytes, Lifecycle,
  open_stream, degraded, Event, QueuedRecord, StreamState, enqueue, new_stream,
}
use claudecode_lite_main.Journal.Routing.{
  JournalError, coordinator_closing, duplicate_owner, capacity, unknown_stream, not_open,
  payload_conflict, receipt_failed, live_failed, Result, ok, err, ◌>>=◌, Identities, sorted, Route,
  present, route_event,
}

-- `EventJournalCoordinator`; the payloads and outcomes by event id, the streams whose failure was
-- reported, and the events that were handed to `on_live_only`.
pub record Coordinator : Type 0 where
  pub streams : List (String × StreamState)
  pub identities : Identities
  pub accepting : Bool
  pub payloads : List (String × Event)
  pub outcomes : List (String × List String)
  pub reported : List String
  pub live_only : List Event

-- `await_all`, whether the receipts that are awaited are resolved and not failed or given up, and whether
-- `on_live_only` returns and does not raise.
pub record Answers : Type 0 where
  pub await_all : Bool
  pub receipts_kept : Bool
  pub live_kept : Bool

abbrev pub same_text : Option String → Option String → Bool
same_text none none = true
same_text (some a) (some b) = str_eq a b
same_text _ _ = false

abbrev pub same_event : Event → Event → Bool
same_event a b =
    str_eq a.type b.type
    && (same_text a.event_id b.event_id
        && (same_text a.run_id b.run_id
            && (same_text a.session_id b.session_id
                && (same_text a.parent_run_id b.parent_run_id && str_eq a.payload b.payload))))

abbrev pub is_open : Lifecycle → Bool
is_open open_stream = true
is_open _ = false

-- `_register_stream` behind the validation of the files, which found the rows up to `last_seq`.
unfoldable pub register_stream : String → ℕ → Coordinator → Result Coordinator
register_stream stream_id last_seq c =
    if not c.accepting then err coordinator_closing else elim (lookup stream_id c.streams) [
      | some s ↦ err (duplicate_owner stream_id)
      | none ↦
          ok (record c { streams = insert stream_id (new_stream stream_id last_seq) c.streams })
    ]

module _ (line_size : String → String → ℕ → Event → ℕ) where
  abbrev pub record_for : String → Event → List String → StreamState → QueuedRecord
  record_for event_id e terminals s = record {
    record_of = record {
      event_id = event_id;
      stream_id = s.stream_id;
      seq = s.next_seq;
      event = e;
      size = line_size event_id s.stream_id s.next_seq e;
    };
    terminal = mem s.stream_id terminals;
  }

  -- The checks for one stream.
  unfoldable pub reserve : String → Event → List String → StreamState → Result QueuedRecord
  reserve event_id e terminals s =
      let size = line_size event_id s.stream_id s.next_seq e in
      if not (is_open s.lifecycle)
      then err (not_open s.stream_id)
      else if ltb journal_max_single_frame_bytes size
      then err (capacity s.stream_id)
      else if leb journal_queue_max_frames s.reserved_frames
          || ltb journal_queue_max_bytes (s.queue_bytes + size)
      then err (capacity s.stream_id)
      else ok (record_for event_id e terminals s)

  -- The first loop: a record for every target, or the first failure. A target is always registered
  -- (`route_event`).
  unfoldable pub reserve_all :
      String
      → Event
      → List String
      → List (String × StreamState)
      → List String
      → Result (List (String × QueuedRecord))
  unfolding reserve
  reserve_all event_id e terminals streams [] = ok []
  reserve_all event_id e terminals streams (k ∷ ks) = elim (lookup k streams) [
    | none ↦ err (unknown_stream k)
    | some s ↦ do
      item ← reserve event_id e terminals s
      items ← reserve_all event_id e terminals streams ks
      ok ((k, item) ∷ items)
  ]

  -- The second loop.
  unfoldable pub enter_all :
      List (String × QueuedRecord) → List (String × StreamState) → List (String × StreamState)
  enter_all [] streams = streams
  enter_all ((k, item) ∷ items) streams = elim (lookup k streams) [
    | none ↦ enter_all items streams
    | some s ↦ enter_all items (insert k (enqueue item s) streams)
  ]

  -- `except JournalCapacityError`: the limiting stream is degraded and its failure reported.
  unfoldable pub on_failure : JournalError → Coordinator → Coordinator
  on_failure (capacity k) c = elim (lookup k c.streams) [
    | none ↦ c
    | some s ↦ record c {
      streams = insert k (record s { lifecycle = degraded }) c.streams;
      reported = c.reported ++ k ∷ [];
    }
  ]
  on_failure _ c = c

  abbrev pub noted : Option String → String → Event → List String → Coordinator → Coordinator
  noted none event_id e streams c = c
  noted (some _) event_id e streams c = record c {
    payloads = insert event_id e c.payloads;
    outcomes = insert event_id streams c.outcomes;
  }

  abbrev pub id_of : Option String → String → String
  id_of none fresh_id = fresh_id
  id_of (some k) fresh_id = k

  -- Whether there is a receipt to wait for.
  abbrev pub waits : Bool → List (String × QueuedRecord) → Bool
  waits await_all [] = false
  waits await_all ((k, item) ∷ items) = await_all || (item.terminal || waits await_all items)

module _ (line_size : String → String → ℕ → Event → ℕ) (answers : Answers) where
  -- An event with no durable stream.
  unfoldable pub publish_live : String → Event → Coordinator → Result (List String) × Coordinator
  publish_live event_id e c =
      let handed = record c { live_only = c.live_only ++ e ∷ [] } in
      if answers.live_kept
      then (ok [], noted line_size (some event_id) event_id e [] handed)
      else (err live_failed, handed)

  -- An event with the targets `ks`, sorted.
  unfoldable pub publish_durable :
      String → Event → List String → List String → Coordinator → Result (List String) × Coordinator
  unfolding on_failure
  publish_durable event_id e ks terminals c =
      elim (reserve_all line_size event_id e terminals c.streams ks) [
        | err failure ↦ (err failure, on_failure line_size failure c)
        | ok items ↦
            let entered = record c { streams = enter_all line_size items c.streams } in
            if waits line_size answers.await_all items && not answers.receipts_kept
            then (err receipt_failed, entered)
            else (ok ks, noted line_size (present e.event_id) event_id e ks entered)
      ]

  -- An outcome is noted with every payload, so the lookup of an outcome does not fail.
  unfoldable pub publish_routed :
      String → Event → Route → Coordinator → Result (List String) × Coordinator
  unfolding publish_live publish_durable
  publish_routed event_id e r c = elim (lookup event_id c.payloads) [
    | some previous ↦
        if same_event previous e
        then (ok (elim (lookup event_id c.outcomes) [ none ↦ [] | some streams ↦ streams ]), c)
        else (err payload_conflict, c)
    | none ↦ elim r.targets [
      | [] ↦ publish_live event_id e c
      | k ∷ ks ↦ publish_durable event_id e (sorted (k ∷ ks)) r.terminals c
    ]
  ]

  unfoldable pub publish_event_once :
      String → Event → Coordinator → Result (List String) × Coordinator
  unfolding publish_routed
  publish_event_once fresh_id e c =
      if not c.accepting
      then (err coordinator_closing, c)
      else elim (route_event c.streams c.identities e) [
        | err failure ↦ (err failure, c)
        | ok r ↦ publish_routed (id_of line_size (present e.event_id) fresh_id) e r c
      ]
