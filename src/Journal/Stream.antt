-- ===== src/Journal/Stream.antt =====
-- core/events/journal.py: one stream, its bounded queue and its worker. A record keeps the length of its
-- JSON line in place of the bytes. The worker's round is cut where it waits: `take_batch` takes rows off
-- the queue, the thread of the write puts the first rows of the batch on the disk (`append_rows`: all of
-- them, or fewer if it fails), and then `commit_batch` settles the receipts of a batch that was written
-- whole, or `fail_stream` ends the stream. `fail_stream` can come at any time: a cancelled worker fails
-- the receipts of a batch that is already on the disk. A row that is cut off in the middle is not
-- modelled.
use claudecode_lite_main.Prelude.{
  ℕ, ◌+◌, ◌-◌, ◌*◌, max, String, List, [], ◌∷◌, ◌++◌, Option, Bool, ◌&&◌, ltb, if◌then◌else◌,
  length, zero, suc,
}

abbrev pub journal_queue_max_frames : ℕ
journal_queue_max_frames = 4096

abbrev pub journal_queue_max_bytes : ℕ
journal_queue_max_bytes = 16 * 1024 * 1024

abbrev pub journal_max_single_frame_bytes : ℕ
journal_max_single_frame_bytes = 1024 * 1024

abbrev pub journal_batch_max_frames : ℕ
journal_batch_max_frames = 256

abbrev pub journal_batch_max_bytes : ℕ
journal_batch_max_bytes = 256 * 1024

-- `StreamLifecycle`.
pub data Lifecycle : Type 0 where
  open_stream closing closed degraded : Lifecycle

-- The fields of an event's payload that the journal reads; `payload` stands for the rest. A field
-- that is missing or no text is `none`.
pub record Event : Type 0 where
  pub type : String
  pub event_id : Option String
  pub run_id : Option String
  pub session_id : Option String
  pub parent_run_id : Option String
  pub payload : String

-- `JournalRecord`: `size` is the length of `serialized`.
pub record JournalRecord : Type 0 where
  pub event_id : String
  pub stream_id : String
  pub seq : ℕ
  pub event : Event
  pub size : ℕ

-- `_QueuedRecord`; its future is known by the record's number in the stream.
pub record QueuedRecord : Type 0 where
  pub record_of : JournalRecord
  pub terminal : Bool

-- `_StreamState`, with the rows that the worker has taken and not yet settled, the rows on disk, how many
-- of them are rows of the batch in flight, and the numbers of the records whose futures were resolved
-- and failed.
pub record StreamState : Type 0 where
  pub stream_id : String
  pub next_seq : ℕ
  pub durable_seq : ℕ
  pub lifecycle : Lifecycle
  pub queue : List QueuedRecord
  pub in_flight : List QueuedRecord
  pub reserved_frames : ℕ
  pub queue_bytes : ℕ
  pub peak_queue_frames : ℕ
  pub peak_queue_bytes : ℕ
  pub rows : List JournalRecord
  pub unsettled : ℕ
  pub resolved : List ℕ
  pub failed : List ℕ

abbrev pub size_of : QueuedRecord → ℕ
size_of item = item.record_of.size

abbrev pub total_size : List QueuedRecord → ℕ
total_size [] = 0
total_size (item ∷ items) = size_of item + total_size items

-- The state that `_register_stream` builds when the file holds the rows up to `last_seq`.
unfoldable pub new_stream : String → ℕ → StreamState
new_stream stream_id last_seq = record {
  stream_id = stream_id;
  next_seq = last_seq + 1;
  durable_seq = last_seq;
  lifecycle = open_stream;
  queue = [];
  in_flight = [];
  reserved_frames = 0;
  queue_bytes = 0;
  peak_queue_frames = 0;
  peak_queue_bytes = 0;
  rows = [];
  unsettled = 0;
  resolved = [];
  failed = [];
}

-- The loop of `_publish_event_once` that enters a reserved record.
unfoldable pub enqueue : QueuedRecord → StreamState → StreamState
enqueue item s = record s {
  queue = s.queue ++ item ∷ [];
  reserved_frames = s.reserved_frames + 1;
  queue_bytes = s.queue_bytes + size_of item;
  peak_queue_frames = max s.peak_queue_frames (s.reserved_frames + 1);
  peak_queue_bytes = max s.peak_queue_bytes (s.queue_bytes + size_of item);
  next_seq = s.next_seq + 1;
  lifecycle = if item.terminal then closing else s.lifecycle;
}

-- The `while` loop of `_worker_loop` that fills a batch: the batch, and what stays in the queue.
unfoldable pub fill_batch :
    List QueuedRecord → ℕ → ℕ → List QueuedRecord → List QueuedRecord × List QueuedRecord
fill_batch batch frames bytes [] = (batch, [])
fill_batch batch frames bytes (item ∷ items) =
    let more : List QueuedRecord × List QueuedRecord =
      fill_batch (batch ++ item ∷ []) (frames + 1) (bytes + size_of item) items in
    if ltb frames journal_batch_max_frames
    then if ltb 0 frames && ltb journal_batch_max_bytes (bytes + size_of item)
      then (batch, item ∷ items)
      else more
    else (batch, item ∷ items)

unfoldable pub take_batch : StreamState → StreamState
unfolding fill_batch
take_batch s =
    let (batch, rest) = fill_batch [] 0 0 s.queue in record s { in_flight = batch; queue = rest }

-- The records of the first rows of a batch.
abbrev pub written : ℕ → List QueuedRecord → List JournalRecord
written zero items = []
written (suc n) [] = []
written (suc n) (item ∷ items) = item.record_of ∷ written n items

-- The write of the batch in flight, of which `n` rows reach the disk.
unfoldable pub append_rows : ℕ → StreamState → StreamState
append_rows n s = record s {
  rows = s.rows ++ written n s.in_flight;
  unsettled = length (written n s.in_flight);
}

-- One item of the batch after the write.
unfoldable pub settle_item : QueuedRecord → StreamState → StreamState
settle_item item s = record s {
  reserved_frames = s.reserved_frames - 1;
  queue_bytes = s.queue_bytes - size_of item;
  durable_seq = item.record_of.seq;
  unsettled = s.unsettled - 1;
  resolved = s.resolved ++ item.record_of.seq ∷ [];
}

unfoldable pub settle_items : List QueuedRecord → StreamState → StreamState
unfolding settle_item
settle_items [] s = s
settle_items (item ∷ items) s = settle_items items (settle_item item s)

-- The worker leaves its loop behind a batch when a closing or degraded stream has no rows left, and
-- then closes the stream unless it is degraded.
abbrev pub closed_if_drained : List QueuedRecord → Lifecycle → Lifecycle
closed_if_drained [] closing = closed
closed_if_drained [] l = l
closed_if_drained (item ∷ items) l = l

unfoldable pub after_batch : StreamState → StreamState
after_batch s = record s { lifecycle = closed_if_drained s.queue s.lifecycle }

unfoldable pub commit_batch : StreamState → StreamState
unfolding settle_items after_batch
commit_batch s = after_batch (settle_items s.in_flight (record s { in_flight = [] }))

abbrev pub seqs : List QueuedRecord → List ℕ
seqs [] = []
seqs (item ∷ items) = item.record_of.seq ∷ seqs items

-- `_fail_stream`: every future that is not done fails. What is on the disk stays there.
unfoldable pub fail_stream : StreamState → StreamState
fail_stream s = record s {
  lifecycle = degraded;
  queue = [];
  in_flight = [];
  queue_bytes = 0;
  reserved_frames = 0;
  unsettled = 0;
  failed = s.failed ++ (seqs s.queue ++ seqs s.in_flight);
}
