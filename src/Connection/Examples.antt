-- ===== src/Connection/Examples.antt =====
-- The connection theorems on a few frames.
use mathlib.Core.List.{Memᴰ}
use claudecode_lite_main.Prelude.{
  ℕ, ◌≤◌, List, [], ◌∷◌, ◌++◌, some, true, false, ◌≡◌, refl, arith, length,
}
use claudecode_lite_main.Prelude.Int.{ℤ}
use claudecode_lite_main.Connection.Json.{
  Text, Json, text, dict, stop, entry, max_outbound_frame_bytes, utf8, utf8_char, string_chunks,
  escaped, encode_frame,
}
use claudecode_lite_main.Connection.Chunks.{json_text}
use claudecode_lite_main.Connection.Framing.{
  bounded, has_newline, encode_frame_lem, encode_frame_framed,
}
use claudecode_lite_main.Connection.Queues.{
  closed, OutboundFrame, ConnectionContext, new_connection, enqueue, next_frame, write_done,
  initiate_close, close_finish,
}
use claudecode_lite_main.Connection.Receipts.{
  of_kind, line, IsBounded, enqueues, takes, writes, closes, finishes, Reach, here, next,
}
use claudecode_lite_main.Connection.Bounds.{connection-IsBounded}
use claudecode_lite_main.Connection.Settled.{connection_settled}
use claudecode_lite_main.Connection.Fairness.{Move, arrives, sends, runs, event_is_sent}

abbrev int_text : ℤ → Text
int_text n = 55 ∷ []

abbrev float_text : ℕ → Text
float_text x = 49 ∷ 46 ∷ 53 ∷ []

-- The frame `{"a": "\n"}`.
abbrev ping : Json
ping = dict (entry (97 ∷ []) (text (10 ∷ [])) stop)

abbrev ping_bytes : List ℕ
ping_bytes = 123 ∷ 34 ∷ 97 ∷ 34 ∷ 58 ∷ 34 ∷ 92 ∷ 110 ∷ 34 ∷ 125 ∷ 10 ∷ []

program : Unit {0}
unfolding utf8 utf8_char string_chunks escaped encode_frame new_connection enqueue next_frame
    write_done initiate_close close_finish of_kind runs
program = tt

ping_encoded : encode_frame int_text float_text ping ≡ some ping_bytes
unfolding program
ping_encoded = refl

encode_frame_example :
    encode_frame int_text float_text ping ≡ bounded [] (utf8 (json_text int_text float_text ping))
encode_frame_example = encode_frame_lem int_text float_text ping

encode_frame_framed_example :
    (row : List ℕ) × (ping_bytes ≡ row ++ 10 ∷ [])
    × (has_newline row ≡ false)
    × (length ping_bytes ≤ max_outbound_frame_bytes)
encode_frame_framed_example =
    encode_frame_framed int_text float_text (λ n. refl) (λ x. refl) ping ping_bytes ping_encoded

abbrev reply_queued : ConnectionContext
reply_queued = (enqueue int_text float_text true ping new_connection).0

abbrev both_queued : ConnectionContext
both_queued = (enqueue int_text float_text false ping reply_queued).0

abbrev reply_written : ConnectionContext
reply_written = write_done (next_frame both_queued)

-- One reply is written, one event waits, and the connection closes.
abbrev ended : ConnectionContext
ended = close_finish (initiate_close reply_written)

ended-Reach : Reach new_connection ended
unfolding program
ended-Reach =
    next
      (next
        (next
          (next
            (next (next here (enqueues int_text float_text true ping))
              (enqueues int_text float_text false ping))
            (takes refl refl))
          (writes refl))
        closes)
      (finishes refl)

connection-IsBounded_example : IsBounded ended
connection-IsBounded_example = connection-IsBounded ended-Reach

connection_settled_example :
    (of_kind false ended.accepted ≡ line false ended)
    × (ended.state ≡ closed
        → of_kind false ended.accepted ≡ of_kind false ended.written ++ of_kind false ended.failed)
connection_settled_example = connection_settled ended false ended-Reach

abbrev event : OutboundFrame
event = record { payload = ping_bytes; receipt = 1; is_control = false }

abbrev busy : List Move
busy =
    arrives true ping
    ∷ sends
    ∷ sends
    ∷ arrives true ping
    ∷ sends
    ∷ sends
    ∷ sends
    ∷ sends
    ∷ sends
    ∷ sends
    ∷ sends
    ∷ []

event_is_sent_example : Memᴰ event (runs int_text float_text busy both_queued).written
unfolding program
event_is_sent_example =
    event_is_sent int_text float_text event [] busy both_queued refl refl (omega arith)
