-- ===== src/Connection/Order.antt =====
-- Every receipt is settled once, and in order (core/transport/connection.py).
use mathlib.Core.List.{append_assoc, append-nil}
use claudecode_lite_main.Prelude.{
  ℕ, List, [], ◌∷◌, ◌++◌, Option, none, some, Bool, true, false, ◌&&◌, ◌||◌, ltb, length, ◌≡◌, refl,
  inl, inr, arith, not, Bool-cases,
}
use claudecode_lite_main.Prelude.Int.{ℤ}
use claudecode_lite_main.Connection.Json.{Text, Json, encode_frame}
use claudecode_lite_main.Connection.Queues.{
  control_burst_max, OutboundFrame, ConnectionContext, initiate_close, is_open, append_frame,
  is_full, enqueue_payload, enqueue, some_frames, take_control, take_event, next_frame,
}
use claudecode_lite_main.Connection.Receipts.{
  one, of_kind, of_kind-append, AllKind, AllKind-snoc, line, IsOrdered,
}

pub initiate_close-IsOrdered : (s : ConnectionContext) → IsOrdered s → IsOrdered (initiate_close s)
unfolding initiate_close
initiate_close-IsOrdered s v = record {
  control_kind = ground arith;
  event_kind = ground arith;
  in_order = λ k. ground (arith, v.in_order k);
  nothing_failed = ground arith;
  nothing_in_hand = ground arith;
  all_settled = λ c. ground arith;
  close_known = λ c. ground arith;
}

-- One more frame of its kind behind the line.
snoc_line :
    (a w f o q : List OutboundFrame) (x : OutboundFrame)
    → a ≡ w ++ (f ++ (o ++ q))
    → a ++ x ∷ [] ≡ w ++ (f ++ (o ++ (q ++ x ∷ [])))
snoc_line a w f o q x h = rw h (simp append_assoc)

of_kind-snoc_same :
    (k : Bool) (fs : List OutboundFrame) (x : OutboundFrame)
    → x.is_control ≡ k
    → of_kind k (fs ++ x ∷ []) ≡ of_kind k fs ++ x ∷ []
unfolding of_kind
of_kind-snoc_same true fs x h = rw (of_kind-append true fs (x ∷ []), h) refl
of_kind-snoc_same false fs x h = rw (of_kind-append false fs (x ∷ []), h) refl

of_kind-snoc_other :
    (k : Bool) (fs : List OutboundFrame) (x : OutboundFrame)
    → x.is_control ≡ not k
    → of_kind k (fs ++ x ∷ []) ≡ of_kind k fs
unfolding of_kind
of_kind-snoc_other true fs x h =
    rw (of_kind-append true fs (x ∷ []), h) (append-nil (of_kind true fs))
of_kind-snoc_other false fs x h =
    rw (of_kind-append false fs (x ∷ []), h) (append-nil (of_kind false fs))

append_frame-line :
    (f : OutboundFrame) (s : ConnectionContext)
    → ((k : Bool) → of_kind k s.accepted ≡ line k s)
    → (k : Bool) → of_kind k (append_frame f s).accepted ≡ line k (append_frame f s)
unfolding append_frame
append_frame-line f s h true = elim (Bool-cases f.is_control) [
  | inl e ↦
      simp (e, of_kind-snoc_same true s.accepted f e)
        (snoc_line (of_kind true s.accepted) (of_kind true s.written) (of_kind true s.failed)
          (of_kind true (one s.current)) s.control f (h true))
  | inr e ↦ simp (e, of_kind-snoc_other true s.accepted f e) (h true)
]
append_frame-line f s h false = elim (Bool-cases f.is_control) [
  | inl e ↦ simp (e, of_kind-snoc_other false s.accepted f e) (h false)
  | inr e ↦
      simp (e, of_kind-snoc_same false s.accepted f e)
        (snoc_line (of_kind false s.accepted) (of_kind false s.written) (of_kind false s.failed)
          (of_kind false (one s.current)) s.events f (h false))
]

append_frame-IsOrdered :
    (f : OutboundFrame) (s : ConnectionContext)
    → is_open s ≡ true
    → IsOrdered s
    → IsOrdered (append_frame f s)
unfolding append_frame
append_frame-IsOrdered f s o v = record {
  control_kind = ground (arith, AllKind-snoc true s.control f);
  event_kind = ground (arith, AllKind-snoc false s.events f);
  in_order = append_frame-line f s v.in_order;
  nothing_failed = ground arith;
  nothing_in_hand = ground arith;
  all_settled = λ c. ground arith;
  close_known = λ c. ground arith;
}

enqueue_payload-IsOrdered :
    (k : Bool) (p : Option (List ℕ)) (s : ConnectionContext)
    → is_open s ≡ true
    → IsOrdered s
    → IsOrdered (enqueue_payload k p s).0
unfolding enqueue_payload
enqueue_payload-IsOrdered k none s o v = initiate_close-IsOrdered s v
enqueue_payload-IsOrdered k (some p) s o v = elim (Bool-cases (is_full k (length p) s)) [
  | inl e ↦ simp (e, enqueue_payload) (initiate_close-IsOrdered s v)
  | inr e ↦
      simp (e, enqueue_payload)
        (append_frame-IsOrdered
          (record { payload = p; receipt = length s.accepted; is_control = k }) s o v)
]

pub enqueue-IsOrdered :
    (int_text : ℤ → Text) (float_text : ℕ → Text) (k : Bool) (frame : Json) (s : ConnectionContext)
    → IsOrdered s
    → IsOrdered (enqueue int_text float_text k frame s).0
unfolding enqueue
enqueue-IsOrdered int_text float_text k frame s v = elim (Bool-cases (is_open s)) [
  | inl e ↦
      simp (e, enqueue) (enqueue_payload-IsOrdered k (encode_frame int_text float_text frame) s e v)
  | inr e ↦ simp (e, enqueue) v
]

-- The head of a queue goes into the writer's hand.
take_control-line :
    (f : OutboundFrame) (fs : List OutboundFrame) (s : ConnectionContext)
    → s.control ≡ f ∷ fs
    → s.current ≡ none
    → f.is_control ≡ true
    → ((k : Bool) → of_kind k s.accepted ≡ line k s)
    → (k : Bool) → of_kind k s.accepted ≡ line k (take_control (f ∷ fs) s)
unfolding take_control of_kind
take_control-line f fs s e c t h true = ground (arith, h true)
take_control-line f fs s e c t h false = ground (arith, h false)

take_event-line :
    (f : OutboundFrame) (fs : List OutboundFrame) (s : ConnectionContext)
    → s.events ≡ f ∷ fs
    → s.current ≡ none
    → f.is_control ≡ false
    → ((k : Bool) → of_kind k s.accepted ≡ line k s)
    → (k : Bool) → of_kind k s.accepted ≡ line k (take_event (f ∷ fs) s)
unfolding take_event of_kind
take_event-line f fs s e c t h true = ground (arith, h true)
take_event-line f fs s e c t h false = ground (arith, h false)

take_control-IsOrdered :
    (fs : List OutboundFrame) (s : ConnectionContext)
    → s.control ≡ fs
    → s.current ≡ none
    → s.writer_running ≡ true
    → IsOrdered s
    → IsOrdered (take_control fs s)
unfolding take_control
take_control-IsOrdered [] s e c r v = v
take_control-IsOrdered (f ∷ fs) s e c r v =
    let kinds : AllKind true (f ∷ fs) = rw e at v.control_kind in
    record {
      control_kind = kinds.1;
      event_kind = v.event_kind;
      in_order = take_control-line f fs s e c kinds.0 v.in_order;
      nothing_failed = v.nothing_failed;
      nothing_in_hand = λ stopped. cc;
      all_settled = λ d. ground (arith, v.all_settled);
      close_known = v.close_known;
    }

take_event-IsOrdered :
    (fs : List OutboundFrame) (s : ConnectionContext)
    → s.events ≡ fs
    → s.current ≡ none
    → s.writer_running ≡ true
    → IsOrdered s
    → IsOrdered (take_event fs s)
unfolding take_event
take_event-IsOrdered [] s e c r v = v
take_event-IsOrdered (f ∷ fs) s e c r v =
    let kinds : AllKind false (f ∷ fs) = rw e at v.event_kind in
    record {
      control_kind = v.control_kind;
      event_kind = kinds.1;
      in_order = take_event-line f fs s e c kinds.0 v.in_order;
      nothing_failed = v.nothing_failed;
      nothing_in_hand = λ stopped. cc;
      all_settled = λ d. ground (arith, v.all_settled);
      close_known = v.close_known;
    }

pub next_frame-IsOrdered :
    (s : ConnectionContext)
    → s.current ≡ none
    → s.writer_running ≡ true
    → IsOrdered s
    → IsOrdered (next_frame s)
unfolding next_frame
next_frame-IsOrdered s c r v =
    elim (Bool-cases (
      some_frames s.control
      && (ltb s.control_burst control_burst_max || not (some_frames s.events)))) [
        | inl e ↦ simp (e, next_frame) (take_control-IsOrdered s.control s refl c r v)
        | inr e ↦ simp (e, next_frame) (take_event-IsOrdered s.events s refl c r v)
      ]
