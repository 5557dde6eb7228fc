-- ===== src/Connection/Bounds.antt =====
-- The two queues of a connection keep their bounds (core/transport/connection.py).
use claudecode_lite_main.Prelude.{
  ℕ, List, [], ◌∷◌, Option, none, some, Bool, false, ◌&&◌, ◌||◌, ltb, length, length-append, ◌≡◌,
  refl, inl, inr, arith, not, Bool-cases,
}
use claudecode_lite_main.Prelude.Int.{ℤ}
use claudecode_lite_main.Connection.Json.{Text, Json, encode_frame}
use claudecode_lite_main.Connection.Queues.{
  control_burst_max, OutboundFrame, ConnectionContext, new_connection, bytes_of, initiate_close,
  is_open, append_frame, is_full, enqueue_payload, enqueue, some_frames, take_control, take_event,
  next_frame, write_done, stop_writer, write_failed, close_finish,
}
use claudecode_lite_main.Connection.Receipts.{
  total_bytes-append, IsBounded, Step, enqueues, takes, writes, fails, closes, finishes, Reach,
  here, next,
}

initiate_close-IsBounded : (s : ConnectionContext) → IsBounded s → IsBounded (initiate_close s)
unfolding initiate_close
initiate_close-IsBounded s v = ground arith

append_frame-IsBounded :
    (f : OutboundFrame) (s : ConnectionContext)
    → is_full f.is_control (bytes_of f) s ≡ false
    → IsBounded s
    → IsBounded (append_frame f s)
unfolding append_frame
append_frame-IsBounded f s h v = ground (
  arith,
  total_bytes-append s.control (f ∷ []),
  total_bytes-append s.events (f ∷ []),
  length-append s.control (f ∷ []),
  length-append s.events (f ∷ []),
)

enqueue_payload-IsBounded :
    (k : Bool) (p : Option (List ℕ)) (s : ConnectionContext)
    → IsBounded s
    → IsBounded (enqueue_payload k p s).0
unfolding enqueue_payload
enqueue_payload-IsBounded k none s v = initiate_close-IsBounded s v
enqueue_payload-IsBounded k (some p) s v = elim (Bool-cases (is_full k (length p) s)) [
  | inl e ↦ rw (e, enqueue_payload) (initiate_close-IsBounded s v)
  | inr e ↦
      rw (e, enqueue_payload)
        (append_frame-IsBounded
          (record { payload = p; receipt = length s.accepted; is_control = k }) s e v)
]

enqueue-IsBounded :
    (int_text : ℤ → Text) (float_text : ℕ → Text) (k : Bool) (frame : Json) (s : ConnectionContext)
    → IsBounded s
    → IsBounded (enqueue int_text float_text k frame s).0
unfolding enqueue
enqueue-IsBounded int_text float_text k frame s v = elim (Bool-cases (is_open s)) [
  | inl e ↦
      rw (e, enqueue) (enqueue_payload-IsBounded k (encode_frame int_text float_text frame) s v)
  | inr e ↦ rw (e, enqueue) v
]

take_control-IsBounded :
    (fs : List OutboundFrame) (s : ConnectionContext)
    → s.control ≡ fs
    → IsBounded s
    → IsBounded (take_control fs s)
unfolding take_control
take_control-IsBounded fs s e v = ground arith

take_event-IsBounded :
    (fs : List OutboundFrame) (s : ConnectionContext)
    → s.events ≡ fs
    → IsBounded s
    → IsBounded (take_event fs s)
unfolding take_event
take_event-IsBounded fs s e v = ground arith

next_frame-IsBounded : (s : ConnectionContext) → IsBounded s → IsBounded (next_frame s)
unfolding next_frame
next_frame-IsBounded s v =
    elim (Bool-cases (
      some_frames s.control
      && (ltb s.control_burst control_burst_max || not (some_frames s.events)))) [
        | inl e ↦ rw (e, next_frame) (take_control-IsBounded s.control s refl v)
        | inr e ↦ rw (e, next_frame) (take_event-IsBounded s.events s refl v)
      ]

stop_writer-IsBounded : (s : ConnectionContext) → IsBounded s → IsBounded (stop_writer s)
unfolding stop_writer
stop_writer-IsBounded s v = ground arith

write_done-IsBounded : (s : ConnectionContext) → IsBounded s → IsBounded (write_done s)
unfolding write_done
write_done-IsBounded s v = ground arith

close_finish-IsBounded : (s : ConnectionContext) → IsBounded s → IsBounded (close_finish s)
unfolding close_finish
close_finish-IsBounded s v = ground arith

pub Step-IsBounded : {s t : ConnectionContext} → Step s t → IsBounded s → IsBounded t
unfolding write_failed
Step-IsBounded (enqueues {s = s} i f k frame) v = enqueue-IsBounded i f k frame s v
Step-IsBounded (takes {s = s} r e) v = next_frame-IsBounded s v
Step-IsBounded (writes {s = s} r) v = write_done-IsBounded s v
Step-IsBounded (fails {s = s}) v =
    initiate_close-IsBounded (stop_writer s) (stop_writer-IsBounded s v)
Step-IsBounded (closes {s = s}) v = initiate_close-IsBounded s v
Step-IsBounded (finishes {s = s} c) v = close_finish-IsBounded s v

Reach-IsBounded : {s t : ConnectionContext} → IsBounded s → Reach s t → IsBounded t
Reach-IsBounded v here = v
Reach-IsBounded v (next r st) = Step-IsBounded st (Reach-IsBounded v r)

-- Whatever happens to a connection, each of its two queues holds no more frames and bytes than its bounds
-- allow, and the two byte counters are exact.
pub connection-IsBounded : {s : ConnectionContext} → Reach new_connection s → IsBounded s
unfolding new_connection
connection-IsBounded r = Reach-IsBounded (ground arith) r
