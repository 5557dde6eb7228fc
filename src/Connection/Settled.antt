-- ===== src/Connection/Settled.antt =====
-- Every receipt is settled once, and in order: the writer's ends and the close task
-- (core/transport/connection.py).
use mathlib.Core.List.{append_assoc, append-nil}
use claudecode_lite_main.Prelude.{
  List, [], ◌∷◌, ◌++◌, none, some, Bool, true, false, ◌≡◌, refl, ap, ◌∙◌, ◌⊎◌, inl, inr, arith,
  Option-cases,
}
use claudecode_lite_main.Connection.Queues.{
  ConnectionState, open_state, closing, closed, OutboundFrame, ConnectionContext, new_connection,
  write_done, stop_writer, write_failed, fail_pending_frames, close_finish,
}
use claudecode_lite_main.Connection.Receipts.{
  one, of_kind, of_kind-append, of_kind-same, of_kind-other, queue_of, line, IsOrdered, Step,
  enqueues, takes, writes, fails, closes, finishes, Reach, here, next,
}
use claudecode_lite_main.Connection.Order.{
  initiate_close-IsOrdered, enqueue-IsOrdered, next_frame-IsOrdered,
}

of_kind-none : (k : Bool) → of_kind k [] ≡ []
unfolding of_kind
of_kind-none true = refl
of_kind-none false = refl

-- The frame in hand goes behind the frames that are written, or behind those that failed.
write_done-line :
    (f : OutboundFrame) (s : ConnectionContext)
    → s.current ≡ some f
    → s.failed ≡ []
    → ((k : Bool) → of_kind k s.accepted ≡ line k s)
    → (k : Bool)
    → of_kind k s.accepted ≡ line k (record s { written = s.written ++ f ∷ []; current = none })
unfolding of_kind
write_done-line f s c n h true =
    simp (n, of_kind-append true s.written (f ∷ []), of_kind-none true, append_assoc)
      (simp (n, c, of_kind-none true) at h true)
write_done-line f s c n h false =
    simp (n, of_kind-append false s.written (f ∷ []), of_kind-none false, append_assoc)
      (simp (n, c, of_kind-none false) at h false)

write_done-IsOrdered :
    (s : ConnectionContext) → s.writer_running ≡ true → IsOrdered s → IsOrdered (write_done s)
unfolding write_done
write_done-IsOrdered s r v = elim (Option-cases s.current) [
  | inl e ↦ simp (e, write_done) v
  | inr (f, e) ↦
      simp (e, write_done)
        (record {
          control_kind = v.control_kind;
          event_kind = v.event_kind;
          in_order = write_done-line f s e (v.nothing_failed r) v.in_order;
          nothing_failed = v.nothing_failed;
          nothing_in_hand = λ stopped. refl;
          all_settled = λ d. ground (arith, v.all_settled);
          close_known = v.close_known;
        })
]

abbrev stopped : List OutboundFrame → ConnectionContext → ConnectionContext
stopped fs s = record s { failed = s.failed ++ fs; current = none; writer_running = false }

stop_writer_lem : (s : ConnectionContext) → stop_writer s ≡ stopped (one s.current) s
unfolding stop_writer
stop_writer_lem s = elim (Option-cases s.current) [
  | inl e ↦ simp (e, stop_writer, append-nil s.failed) refl
  | inr (f, e) ↦ simp (e, stop_writer) refl
]

stop_writer-line :
    (s : ConnectionContext)
    → ((k : Bool) → of_kind k s.accepted ≡ line k s)
    → (k : Bool) → of_kind k s.accepted ≡ line k (stopped (one s.current) s)
stop_writer-line s h true =
    simp (of_kind-append true s.failed (one s.current), of_kind-none true, append_assoc) (h true)
stop_writer-line s h false =
    simp (of_kind-append false s.failed (one s.current), of_kind-none false, append_assoc) (h false)

stop_writer-IsOrdered : (s : ConnectionContext) → IsOrdered s → IsOrdered (stop_writer s)
stop_writer-IsOrdered s v = simp (stop_writer_lem s) (record {
  control_kind = v.control_kind;
  event_kind = v.event_kind;
  in_order = stop_writer-line s v.in_order;
  nothing_failed = λ on. cc;
  nothing_in_hand = λ off. refl;
  all_settled = λ d. (refl, (v.all_settled d).1, (v.all_settled d).2);
  close_known = v.close_known;
})

of_kind-queues :
    (k : Bool) (s : ConnectionContext)
    → IsOrdered s
    → of_kind k (s.control ++ s.events) ≡ queue_of k s
of_kind-queues true s v =
    simp
      (
        of_kind-append true s.control s.events,
        of_kind-same true s.control v.control_kind,
        of_kind-other true s.events v.event_kind,
      )
      (append-nil s.control)
of_kind-queues false s v = simp (
  of_kind-append false s.control s.events,
  of_kind-other false s.control v.control_kind,
  of_kind-same false s.events v.event_kind,
)

-- Nothing is in hand, and the queued frames join the failed ones.
queue_fails : (a w f q : List OutboundFrame) → a ≡ w ++ (f ++ q) → a ≡ w ++ ((f ++ q) ++ [])
queue_fails a w f q h = rw h (simp (append-nil (f ++ q)) refl)

queue_empty : (a w f q : List OutboundFrame) → q ≡ [] → a ≡ w ++ (f ++ q) → a ≡ w ++ f
queue_empty a w f q e h = rw h (rw e (ap (λ x. w ++ x) (append-nil f)))

line_idle :
    (k : Bool) (s : ConnectionContext)
    → s.current ≡ none
    → line k s ≡ of_kind k s.written ++ (of_kind k s.failed ++ queue_of k s)
unfolding of_kind
line_idle true s c = simp c refl
line_idle false s c = simp c refl

line_closed :
    (k : Bool) (s : ConnectionContext)
    → s.current ≡ none
    → line k (record (fail_pending_frames s) { state = closed })
      ≡ of_kind k s.written ++ (of_kind k (s.failed ++ (s.control ++ s.events)) ++ [])
unfolding of_kind fail_pending_frames
line_closed true s c = simp c refl
line_closed false s c = simp c refl

fail_pending-line :
    (s : ConnectionContext)
    → IsOrdered s
    → s.current ≡ none
    → (k : Bool) → of_kind k s.accepted ≡ line k (record (fail_pending_frames s) { state = closed })
fail_pending-line s v c k =
    simp
      (line_closed k s c, of_kind-append k s.failed (s.control ++ s.events), of_kind-queues k s v)
      (queue_fails (of_kind k s.accepted) (of_kind k s.written) (of_kind k s.failed) (queue_of k s)
        (v.in_order k ∙ line_idle k s c))

fail_pending-IsOrdered :
    (s : ConnectionContext)
    → IsOrdered s
    → s.current ≡ none
    → s.writer_running ≡ false
    → s.close_started ≡ true
    → IsOrdered (record (fail_pending_frames s) { state = closed })
unfolding fail_pending_frames
fail_pending-IsOrdered s v c r d = record {
  control_kind = tt;
  event_kind = tt;
  in_order = fail_pending-line s v c;
  nothing_failed = λ on. cc;
  nothing_in_hand = λ off. c;
  all_settled = λ e. (c, refl, refl);
  close_known = λ e. d;
}

without_tasks-IsOrdered :
    (s : ConnectionContext) → IsOrdered s → IsOrdered (record s { request_tasks = [] })
without_tasks-IsOrdered s v = record {
  control_kind = v.control_kind;
  event_kind = v.event_kind;
  in_order = λ k. line_kept k;
  nothing_failed = v.nothing_failed;
  nothing_in_hand = v.nothing_in_hand;
  all_settled = v.all_settled;
  close_known = v.close_known;
}
  where
    line_kept : (k : Bool) → of_kind k s.accepted ≡ line k (record s { request_tasks = [] })
    line_kept true = v.in_order true
    line_kept false = v.in_order false

ended-IsOrdered :
    (s : ConnectionContext)
    → IsOrdered s
    → s.close_started ≡ true
    → IsOrdered (record (fail_pending_frames (stop_writer s)) { state = closed })
ended-IsOrdered s v d =
    fail_pending-IsOrdered (stop_writer s) (stop_writer-IsOrdered s v)
      (simp (stop_writer_lem s) refl) (simp (stop_writer_lem s) refl) (simp (stop_writer_lem s) d)

close_finish-IsOrdered :
    (s : ConnectionContext) → IsOrdered s → s.close_started ≡ true → IsOrdered (close_finish s)
unfolding close_finish
close_finish-IsOrdered s v d = elim (state_cases s.state) [
  | inl e ↦ simp (e, close_finish) v
  | inr (inl e) ↦
      simp (e, close_finish)
        (ended-IsOrdered (record s { request_tasks = [] }) (without_tasks-IsOrdered s v) d)
  | inr (inr e) ↦
      simp (e, close_finish)
        (ended-IsOrdered (record s { request_tasks = [] }) (without_tasks-IsOrdered s v) d)
]
  where
    state_cases : (m : ConnectionState) → (m ≡ closed) ⊎ ((m ≡ open_state) ⊎ (m ≡ closing))
    state_cases closed = inl refl
    state_cases open_state = inr (inl refl)
    state_cases closing = inr (inr refl)

Step-IsOrdered : (s t : ConnectionContext) → Step s t → IsOrdered s → IsOrdered t
unfolding write_failed
Step-IsOrdered s _ (enqueues it ft c j) v = enqueue-IsOrdered it ft c j s v
Step-IsOrdered s _ (takes r c) v = next_frame-IsOrdered s c r v
Step-IsOrdered s _ (writes r) v = write_done-IsOrdered s r v
Step-IsOrdered s _ fails v = initiate_close-IsOrdered (stop_writer s) (stop_writer-IsOrdered s v)
Step-IsOrdered s _ closes v = initiate_close-IsOrdered s v
Step-IsOrdered s _ (finishes d) v = close_finish-IsOrdered s v d

Reach-IsOrdered : (s t : ConnectionContext) → Reach s t → IsOrdered s → IsOrdered t
Reach-IsOrdered s _ here v = v
Reach-IsOrdered s t (next {t = m} r p) v = Step-IsOrdered m t p (Reach-IsOrdered s m r v)

new_connection-IsOrdered : IsOrdered new_connection
unfolding new_connection of_kind
new_connection-IsOrdered = record {
  control_kind = tt;
  event_kind = tt;
  in_order = λ k. nothing k;
  nothing_failed = λ e. refl;
  nothing_in_hand = λ e. refl;
  all_settled = λ e. (refl, refl, refl);
  close_known = λ e. cc;
}
  where
    nothing : (k : Bool) → of_kind k new_connection.accepted ≡ line k new_connection
    nothing true = refl
    nothing false = refl

-- In every state that a new connection reaches, the frames of each kind whose receipts were given out are, in
-- the order of acceptance, the written ones, the failed ones, the one in the writer's hand and the queued
-- ones; in a closed connection the written and the failed ones are all of them.
pub connection_settled :
    (s : ConnectionContext) (k : Bool)
    → Reach new_connection s
    → (of_kind k s.accepted ≡ line k s)
      × (s.state ≡ closed → of_kind k s.accepted ≡ of_kind k s.written ++ of_kind k s.failed)
connection_settled s k r = (v.in_order k, λ e. settled k (v.all_settled e))
  where
    v : IsOrdered s
    v = Reach-IsOrdered new_connection s r new_connection-IsOrdered

    queue_none : (k : Bool) → (s.control ≡ []) × (s.events ≡ []) → queue_of k s ≡ []
    queue_none true q = q.0
    queue_none false q = q.1

    settled :
        (k : Bool)
        → (s.current ≡ none) × (s.control ≡ []) × (s.events ≡ [])
        → of_kind k s.accepted ≡ of_kind k s.written ++ of_kind k s.failed
    settled k (c, q, e) =
        queue_empty (of_kind k s.accepted) (of_kind k s.written) (of_kind k s.failed) (queue_of k s)
          (queue_none k (q, e)) (v.in_order k ∙ line_idle k s c)
