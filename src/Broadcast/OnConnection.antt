-- ===== src/Broadcast/OnConnection.antt =====
-- The broadcaster on the connections of core/transport/connection.py. How pydantic dumps an envelope is a
-- parameter.
use claudecode_lite_main.Prelude.{ℕ, List, Option, none, some, Bool, true, false, length}
use claudecode_lite_main.Prelude.Int.{ℤ}
use claudecode_lite_main.Connection.Json.{Text, Json, encode_frame}
use claudecode_lite_main.Connection.Queues.{
  ConnectionContext, Enqueued, receipt_given, enqueue, initiate_close, is_open,
}
use claudecode_lite_main.Broadcast.State.{Envelope, Wire}

-- A receipt, or an exception.
abbrev pub is_receipt : Enqueued → Bool
is_receipt (receipt_given f) = true
is_receipt _ = false

abbrev pub size_of : Option (List ℕ) → Option ℕ
size_of none = none
size_of (some bytes) = some (length bytes)

abbrev pub connection_wire : (ℤ → Text) → (ℕ → Text) → (Envelope → Json) → Wire ConnectionContext
connection_wire int_text float_text dump = record {
  enqueue_event = λ envelope c.
      let answer = enqueue int_text float_text false (dump envelope) c in
      (answer.0, is_receipt answer.1);
  initiate_close = initiate_close;
  is_open = is_open;
  frame_size = λ envelope. size_of (encode_frame int_text float_text (dump envelope));
}
