-- ===== src/Connection/Fairness.antt =====
-- Control frames do not keep an event frame from the wire (core/transport/connection.py, `_next_frame`).
use mathlib.Core.List.{Memᴰ, append-nil}
use mathlib.Core.List.Memᴰ
use claudecode_lite_main.Prelude.{
  ℕ, ◌+◌, ◌-◌, ◌<◌, List, [], ◌∷◌, ◌++◌, none, some, Bool, ltb, ◌≡◌, refl, inl, inr, arith, ◌∙◌,
  List-cases, sym, ltb→lt, length, Option, Option-cases, Bool-cases,
}
use claudecode_lite_main.Prelude.Int.{ℤ}
use claudecode_lite_main.Connection.Json.{Text, Json, encode_frame}
use claudecode_lite_main.Connection.Queues.{
  control_burst_max, OutboundFrame, ConnectionContext, initiate_close, is_open, append_frame,
  is_full, enqueue_payload, enqueue, take_control, take_event, next_frame, write_done,
}

-- What happens while the writer runs: a frame is handed to the connection, or the writer takes a frame and
-- writes it.
pub data Move : Type 0 where
  arrives : Bool → Json → Move
  sends : Move

unfoldable pub send_one : ConnectionContext → ConnectionContext
unfolding next_frame write_done
send_one s = write_done (next_frame s)

abbrev pub rounds : List Move → ℕ
rounds [] = 0
rounds (arrives k j ∷ ms) = rounds ms
rounds (sends ∷ ms) = rounds ms + 1

module _ (int_text : ℤ → Text) (float_text : ℕ → Text) where
  unfoldable pub happens : Move → ConnectionContext → ConnectionContext
  unfolding enqueue send_one
  happens (arrives k j) s = (enqueue int_text float_text k j s).0
  happens sends s = send_one s

  unfoldable pub runs : List Move → ConnectionContext → ConnectionContext
  unfolding happens
  runs [] s = s
  runs (m ∷ ms) s = runs ms (happens m s)

-- What an arrival keeps.
record Keeps (s t : ConnectionContext) : Type 0 where
  added : List OutboundFrame
  events_grow : t.events ≡ s.events ++ added
  burst_kept : t.control_burst ≡ s.control_burst
  hand_kept : t.current ≡ s.current
  written_kept : t.written ≡ s.written

same-Keeps : (s : ConnectionContext) → Keeps s s
same-Keeps s = record {
  added = [];
  events_grow = sym (append-nil s.events);
  burst_kept = refl;
  hand_kept = refl;
  written_kept = refl;
}

initiate_close-Keeps : (s : ConnectionContext) → Keeps s (initiate_close s)
unfolding initiate_close
initiate_close-Keeps s = record {
  added = [];
  events_grow = ground (arith, append-nil s.events);
  burst_kept = ground arith;
  hand_kept = ground arith;
  written_kept = ground arith;
}

append_frame-Keeps : (f : OutboundFrame) (s : ConnectionContext) → Keeps s (append_frame f s)
unfolding append_frame
append_frame-Keeps f s = elim (Bool-cases f.is_control) [
  | inl e ↦
      simp (e, append_frame)
        (record {
          added = [];
          events_grow = sym (append-nil s.events);
          burst_kept = refl;
          hand_kept = refl;
          written_kept = refl;
        })
  | inr e ↦
      simp (e, append_frame)
        (record {
          added = f ∷ [];
          events_grow = refl;
          burst_kept = refl;
          hand_kept = refl;
          written_kept = refl;
        })
]

enqueue_payload-Keeps :
    (k : Bool) (p : Option (List ℕ)) (s : ConnectionContext) → Keeps s (enqueue_payload k p s).0
unfolding enqueue_payload
enqueue_payload-Keeps k none s = initiate_close-Keeps s
enqueue_payload-Keeps k (some p) s = elim (Bool-cases (is_full k (length p) s)) [
  | inl e ↦ simp (e, enqueue_payload) (initiate_close-Keeps s)
  | inr e ↦
      simp (e, enqueue_payload)
        (append_frame-Keeps (record { payload = p; receipt = length s.accepted; is_control = k }) s)
]

enqueue-Keeps :
    (int_text : ℤ → Text) (float_text : ℕ → Text) (k : Bool) (frame : Json) (s : ConnectionContext)
    → Keeps s (enqueue int_text float_text k frame s).0
unfolding enqueue
enqueue-Keeps int_text float_text k frame s = elim (Bool-cases (is_open s)) [
  | inl e ↦ simp (e, enqueue) (enqueue_payload-Keeps k (encode_frame int_text float_text frame) s)
  | inr e ↦ simp (e, enqueue) (same-Keeps s)
]

-- A round either writes the first event, or is one of a burst of control frames.
data Round (e : OutboundFrame) (s t : ConnectionContext) : Type 0 where
  event_sent : t.written ≡ s.written ++ e ∷ [] → Round e s t
  control_sent :
      t.events ≡ s.events
      → t.current ≡ none
      → t.control_burst ≡ s.control_burst + 1
      → s.control_burst < control_burst_max
      → Round e s t

first_pick :
    (f e : OutboundFrame) (fs es : List OutboundFrame) (s : ConnectionContext)
    → s.control ≡ f ∷ fs
    → s.events ≡ e ∷ es
    → Round e s (send_one s)
unfolding send_one next_frame take_control take_event write_done
first_pick f e fs es s c v = elim (Bool-cases (ltb s.control_burst control_burst_max)) [
  | inl b ↦
      simp (c, v, b, send_one, next_frame)
        (control_sent (sym v) refl refl (ltb→lt s.control_burst control_burst_max b))
  | inr b ↦ simp (c, v, b, send_one, next_frame) (event_sent refl)
]

send_one-Round :
    (e : OutboundFrame) (es : List OutboundFrame) (s : ConnectionContext)
    → s.events ≡ e ∷ es
    → Round e s (send_one s)
unfolding send_one next_frame take_event write_done
send_one-Round e es s v = elim (List-cases s.control) [
  | inl c ↦ simp (c, v, send_one, next_frame) (event_sent refl)
  | inr (f, fs, c) ↦ first_pick f e fs es s c v
]

next_frame-written : (s : ConnectionContext) → (next_frame s).written ≡ s.written
unfolding next_frame take_control take_event
next_frame-written s = ground arith

send_one-keeps :
    (s : ConnectionContext) → (n : List OutboundFrame) × ((send_one s).written ≡ s.written ++ n)
unfolding send_one write_done next_frame
send_one-keeps s = wrote (next_frame s) s (next_frame-written s)
  where
    wrote :
        (t s : ConnectionContext)
        → t.written ≡ s.written
        → (n : List OutboundFrame) × ((write_done t).written ≡ s.written ++ n)
    wrote t s h = elim (Option-cases t.current) [
      | inl e ↦ simp (e, write_done) ([], h ∙ sym (append-nil s.written))
      | inr (f, e) ↦ simp (e, write_done, h) (f ∷ [], refl)
    ]

module _ (int_text : ℤ → Text) (float_text : ℕ → Text) where
  happens-keeps :
      (m : Move) (s : ConnectionContext)
      → (n : List OutboundFrame) × ((happens int_text float_text m s).written ≡ s.written ++ n)
  unfolding happens
  happens-keeps (arrives k j) s =
      ([], (enqueue-Keeps int_text float_text k j s).written_kept ∙ sym (append-nil s.written))
  happens-keeps sends s = send_one-keeps s

  still_written :
      (e : OutboundFrame) (ms : List Move) (s : ConnectionContext)
      → Memᴰ e s.written
      → Memᴰ e (runs int_text float_text ms s).written
  unfolding runs
  still_written e [] s h = h
  still_written e (m ∷ ms) s h =
      let k = happens-keeps m s in
      still_written e ms (happens int_text float_text m s) (rw k.1 (Memᴰ.append_left k.0 h))

  -- With no frame in hand and an event frame at the head of its queue, the frame is written once the writer
  -- has run more rounds than are left of the burst of eight control frames, whatever frames arrive meanwhile.
  pub event_is_sent :
      (e : OutboundFrame) (es : List OutboundFrame) (ms : List Move) (s : ConnectionContext)
      → s.current ≡ none
      → s.events ≡ e ∷ es
      → control_burst_max - s.control_burst < rounds ms
      → Memᴰ e (runs int_text float_text ms s).written
  unfolding runs happens
  event_is_sent e es [] s c v h = ground arith
  event_is_sent e es (arrives k j ∷ ms) s c v h =
      let g = enqueue-Keeps int_text float_text k j s in
      event_is_sent e (es ++ g.added) ms (enqueue int_text float_text k j s).0 (g.hand_kept ∙ c)
        (rw (g.events_grow, v) refl) (rw g.burst_kept h)
  event_is_sent e es (sends ∷ ms) s c v h = elim (send_one-Round e es s v) [
    | event_sent w ↦
        still_written e ms (send_one s) (rw w (Memᴰ.append_right s.written (Memᴰ.head refl)))
    | control_sent w t b l ↦
        event_is_sent e es ms (send_one s) t (w ∙ v) (rw b (omega (arith, h, l)))
  ]
