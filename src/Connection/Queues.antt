-- ===== src/Connection/Queues.antt =====
-- core/transport/connection.py, `ConnectionContext`: two bounded queues and the one writer. The writer is cut
-- where it waits: `next_frame` takes a frame, then `write_done` or `write_failed` follows. The close task is
-- cut where it waits for the request tasks: `initiate_close` starts it, `close_finish` is the rest. The
-- `on_close` callback and the socket itself are left out.
use claudecode_lite_main.Prelude.{
  ℕ, ◌+◌, ◌-◌, ◌*◌, List, [], ◌∷◌, ◌++◌, Option, none, some, Bool, true, false, ◌&&◌, ◌||◌, ltb,
  leb, length, ◌==◌, not, keep, if◌then◌else◌,
}
use claudecode_lite_main.Prelude.Int.{ℤ}
use claudecode_lite_main.Connection.Json.{Text, Json, encode_frame}

abbrev pub max_control_frames : ℕ
max_control_frames = 128

abbrev pub max_control_bytes : ℕ
max_control_bytes = 1024 * 1024

abbrev pub max_event_frames : ℕ
max_event_frames = 512

abbrev pub max_event_bytes : ℕ
max_event_bytes = 4 * 1024 * 1024

abbrev pub control_burst_max : ℕ
control_burst_max = 8

-- `ConnectionState`.
pub data ConnectionState : Type 0 where
  open_state closing closed : ConnectionState

-- `_OutboundFrame`; its receipt is known by a number, and `is_control` tells its queue.
pub record OutboundFrame : Type 0 where
  pub payload : List ℕ
  pub receipt : ℕ
  pub is_control : Bool

-- `current` is the writer's local variable. `accepted` are the frames whose receipts were given out, `written`
-- and `failed` those whose receipts were settled, each in order.
pub record ConnectionContext : Type 0 where
  pub state : ConnectionState
  pub control : List OutboundFrame
  pub events : List OutboundFrame
  pub control_bytes : ℕ
  pub event_bytes : ℕ
  pub control_burst : ℕ
  pub current : Option OutboundFrame
  pub writer_running : Bool
  pub close_started : Bool
  pub request_tasks : List ℕ
  pub accepted : List OutboundFrame
  pub written : List OutboundFrame
  pub failed : List OutboundFrame

unfoldable pub new_connection : ConnectionContext
new_connection = record {
  state = open_state;
  control = [];
  events = [];
  control_bytes = 0;
  event_bytes = 0;
  control_burst = 0;
  current = none;
  writer_running = true;
  close_started = false;
  request_tasks = [];
  accepted = [];
  written = [];
  failed = [];
}

abbrev pub is_open_state : ConnectionState → Bool
is_open_state open_state = true
is_open_state closing = false
is_open_state closed = false

abbrev pub bytes_of : OutboundFrame → ℕ
bytes_of f = length f.payload

unfoldable pub initiate_close : ConnectionContext → ConnectionContext
initiate_close s = if s.close_started then s else record s { state = closing; close_started = true }

-- `ensure_open_for_subscription` and the guard of `create_request_task`.
abbrev pub is_open : ConnectionContext → Bool
is_open s = is_open_state s.state

unfoldable pub create_request_task : ℕ → ConnectionContext → Option ConnectionContext
create_request_task task s =
    if is_open s then some (record s { request_tasks = s.request_tasks ++ task ∷ [] }) else none

-- The callback of a task that is done.
unfoldable pub discard_task : ℕ → ConnectionContext → ConnectionContext
discard_task task s = record s { request_tasks = keep (λ t. not (t == task)) s.request_tasks }

-- What `_enqueue` answers: a receipt, a `ValueError`, or a `ConnectionError`.
pub data Enqueued : Type 0 where
  receipt_given : OutboundFrame → Enqueued
  frame_too_large : Enqueued
  not_open : Enqueued
  overflow : Enqueued

unfoldable pub append_frame : OutboundFrame → ConnectionContext → ConnectionContext
append_frame f s =
    if f.is_control
    then record s {
      control = s.control ++ f ∷ [];
      control_bytes = s.control_bytes + bytes_of f;
      accepted = s.accepted ++ f ∷ [];
    }
    else record s {
      events = s.events ++ f ∷ [];
      event_bytes = s.event_bytes + bytes_of f;
      accepted = s.accepted ++ f ∷ [];
    }

-- The test of `_enqueue` on the queue that the frame is for.
abbrev pub is_full : Bool → ℕ → ConnectionContext → Bool
is_full true size s =
    leb max_control_frames (length s.control) || ltb max_control_bytes (s.control_bytes + size)
is_full false size s =
    leb max_event_frames (length s.events) || ltb max_event_bytes (s.event_bytes + size)

-- `_enqueue` behind the encoding.
unfoldable pub enqueue_payload :
    Bool → Option (List ℕ) → ConnectionContext → ConnectionContext × Enqueued
unfolding append_frame initiate_close
enqueue_payload is_control none s = (initiate_close s, frame_too_large)
enqueue_payload is_control (some payload) s =
    let f : OutboundFrame = record {
      payload = payload;
      receipt = length s.accepted;
      is_control = is_control;
    } in
    if is_full is_control (length payload) s
    then (initiate_close s, overflow)
    else (append_frame f s, receipt_given f)

unfoldable pub enqueue :
    (ℤ → Text) → (ℕ → Text) → Bool → Json → ConnectionContext → ConnectionContext × Enqueued
unfolding enqueue_payload
enqueue int_text float_text is_control frame s =
    if is_open s
    then enqueue_payload is_control (encode_frame int_text float_text frame) s
    else (s, not_open)

abbrev pub some_frames : List OutboundFrame → Bool
some_frames [] = false
some_frames (f ∷ fs) = true

-- The branches of `_next_frame` that return, on the two queues.
unfoldable pub take_control : List OutboundFrame → ConnectionContext → ConnectionContext
take_control [] s = s
take_control (f ∷ fs) s = record s {
  control = fs;
  control_bytes = s.control_bytes - bytes_of f;
  control_burst = s.control_burst + 1;
  current = some f;
}

unfoldable pub take_event : List OutboundFrame → ConnectionContext → ConnectionContext
take_event [] s = s
take_event (f ∷ fs) s = record s {
  events = fs;
  event_bytes = s.event_bytes - bytes_of f;
  control_burst = 0;
  current = some f;
}

-- One pass of `_next_frame`; with both queues empty it waits.
unfoldable pub next_frame : ConnectionContext → ConnectionContext
unfolding take_control take_event
next_frame s =
    if some_frames s.control
      && (ltb s.control_burst control_burst_max || not (some_frames s.events))
    then take_control s.control s
    else take_event s.events s

-- The frame was written and drained.
unfoldable pub write_done : ConnectionContext → ConnectionContext
write_done s = elim s.current [
  | none ↦ s
  | some f ↦ record s { written = s.written ++ f ∷ []; current = none }
]

-- The writer ends: the frame in hand fails.
unfoldable pub stop_writer : ConnectionContext → ConnectionContext
stop_writer s = elim s.current [
  | none ↦ record s { writer_running = false }
  | some f ↦ record s { failed = s.failed ++ f ∷ []; current = none; writer_running = false }
]

-- The write, the drain or the callback raised.
unfoldable pub write_failed : ConnectionContext → ConnectionContext
unfolding stop_writer initiate_close
write_failed s = initiate_close (stop_writer s)

unfoldable pub fail_pending_frames : ConnectionContext → ConnectionContext
fail_pending_frames s = record s {
  failed = s.failed ++ (s.control ++ s.events);
  control = [];
  events = [];
  control_bytes = 0;
  event_bytes = 0;
}

-- `_close_impl`, from the cancellation of the request tasks on.
unfoldable pub close_finish : ConnectionContext → ConnectionContext
unfolding fail_pending_frames stop_writer
close_finish s = elim s.state [
  | closed ↦ s
  | _ ↦ record (fail_pending_frames (stop_writer (record s { request_tasks = [] }))) {
    state = closed;
  }
]
