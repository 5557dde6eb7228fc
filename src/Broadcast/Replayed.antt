-- ===== src/Broadcast/Replayed.antt =====
-- The replay task, for the subscription it belongs to and for the others (core/transport/ipc_broadcaster.py,
-- `_run_replay`).
use mathlib.Core.List.{append_assoc}
use claudecode_lite_main.Prelude.{
  ℕ, String, str_eq, List, [], ◌∷◌, ◌++◌, Bool, false, ◌≡◌, refl, ap, ◌∙◌, ◌⊎◌, inl, inr, arith,
  Bool-cases, Option-cases,
}
use claudecode_lite_main.Journal.Stream.{JournalRecord}
use claudecode_lite_main.Broadcast.State.{
  Phase, catching_up, active, terminal, Delivery, live, replay, ReplayTask, no_task, reading,
  sending, finished, cancelled, Subscription, Wire, Broadcaster, find, put, envelope_of,
}
use claudecode_lite_main.Broadcast.Publish.{
  matches_topic, close_connection, enqueue_delivery, fail_replay, replay_delivery, replay_turn,
  drained, drain_turn, replay_step,
}
use claudecode_lite_main.Broadcast.Lookup.{
  only, sent_to, str_eq-apart, find_lem, find-id, only-put_same,
}
use claudecode_lite_main.Broadcast.Others.{
  Few, Outcome, Same-refl, Outcome-trans, Outcome-Few, Outcome-Gone, terminate-Gone,
}
use claudecode_lite_main.Broadcast.Elsewhere.{
  enqueue_delivery-Outcome, fail_replay-Outcome, put-Outcome,
}
use claudecode_lite_main.Broadcast.Facts.{
  rest_of, is_unread, is_terminal, envelopes, sent_to-own, replays, lives, Facts, Kept,
}
use claudecode_lite_main.Broadcast.Published.{enqueue-own}

one_sent :
    {A : Type 0} (sent tail all : List A) (x : A)
    → sent ++ (x ∷ tail) ≡ all
    → (sent ++ x ∷ []) ++ tail ≡ all
one_sent sent tail all x h = append_assoc sent (x ∷ []) tail ∙ h

module _ {Conn : Type 0} (wire : Wire Conn) (fnmatch : String → String → Bool) where
  replay_delivery-Outcome :
      (i : String) (s : Subscription) (d : Delivery) (r : JournalRecord) (b : Broadcaster Conn)
      → str_eq i s.sub_id ≡ false
      → Few i b
      → Outcome i b (replay_delivery wire fnmatch d r s b)
  unfolding replay_delivery
  replay_delivery-Outcome i s d r b h f =
      let c = (enqueue_delivery wire fnmatch s d r b).0 in
      let p = enqueue_delivery-Outcome wire fnmatch i s d r b h f in
      elim (Bool-cases (enqueue_delivery wire fnmatch s d r b).1) [
        | inl e ↦ simp (replay_delivery, e) p
        | inr e ↦
            simp (replay_delivery, e)
              (Outcome-trans i b c (fail_replay wire fnmatch s c) p
                (fail_replay-Outcome wire fnmatch i s c (Outcome-Few i b c p f)))
      ]

  replay_delivery-Kept :
      (batch history : List JournalRecord) (t : Subscription) (d : Delivery) (r : JournalRecord)
      (b : Broadcaster Conn)
      → only t.sub_id b.subscriptions ≡ t ∷ []
      → str_eq t.scope "global" ≡ false
      → t.phase ≡ catching_up
      → is_unread t.replay_task ≡ false
      → sent_to t.sub_id b.sent
          ++ (envelope_of t.sub_id d r
              ∷ (replays fnmatch t (rest_of t.replay_task) ++ envelopes t.sub_id live t.catchup))
        ≡ replays fnmatch t batch ++ lives fnmatch t history
      → Kept fnmatch t.sub_id batch history (replay_delivery wire fnmatch d r t b)
  unfolding replay_delivery
  replay_delivery-Kept batch history t d r b h sc p u o =
      elim (enqueue-own wire fnmatch t d r b h) [
        | inr (refused, g) ↦
            let c = (enqueue_delivery wire fnmatch t d r b).0 in
            simp (replay_delivery, refused)
              (inl (
                Outcome-Gone t.sub_id c (fail_replay wire fnmatch t c)
                  (fail_replay-Outcome wire fnmatch t.sub_id t c (rw g (omega arith))) g))
        | inl (taken, subs, sent) ↦
            simp (replay_delivery, taken)
              (inr (
                t,
                refl,
                record {
                  entry = ap (only t.sub_id) subs ∙ h;
                  not_global = sc;
                  not_terminal = simp p refl;
                  caught_up = λ a. cc;
                  nothing_sent = λ a. cc;
                  in_order =
                      rw (sent, sent_to-own t.sub_id d r b.sent)
                        (one_sent (sent_to t.sub_id b.sent)
                          (replays fnmatch t (rest_of t.replay_task)
                            ++ envelopes t.sub_id live t.catchup)
                          (replays fnmatch t batch ++ lives fnmatch t history)
                          (envelope_of t.sub_id d r) o);
                },
              ))
      ]

  phase_cases : (p : Phase) → is_terminal p ≡ false → (p ≡ catching_up) ⊎ (p ≡ active)
  phase_cases catching_up h = inl refl
  phase_cases active h = inr refl
  phase_cases terminal h = cc

  module _ (batch history : List JournalRecord) (s : Subscription) (b : Broadcaster Conn)
      (v : Facts fnmatch batch history s b) where
    changed :
        (t : Subscription) → t.sub_id ≡ s.sub_id → only t.sub_id (put t b.subscriptions) ≡ t ∷ []
    changed t e = only-put_same t b.subscriptions ∙ rw (e, v.entry) refl

    pub read-Kept :
        (n : ℕ) (found : List JournalRecord)
        → s.replay_task ≡ reading n
        → Facts fnmatch found history
            (record s { replay_task = sending found })
            (record b {
              subscriptions = put (record s { replay_task = sending found }) b.subscriptions;
            })
    read-Kept n found e = record {
      entry = changed (record s { replay_task = sending found }) refl;
      not_global = v.not_global;
      not_terminal = v.not_terminal;
      caught_up = λ a. let absurd = rw e at (v.caught_up a).2 in cc;
      nothing_sent = λ a. cc;
      in_order =
          let none_sent = v.nothing_sent (simp e refl) in
          let caught = simp (none_sent.0, none_sent.1, e) at v.in_order in
          rw none_sent.0 (ap (λ es. replays fnmatch s found ++ es) caught);
    }

    pub activated-Kept :
        (n : ℕ)
        → s.phase ≡ catching_up
        → s.replay_task ≡ no_task
        → Facts fnmatch batch history
            (record s { replay_task = reading n })
            (record b {
              subscriptions = put (record s { replay_task = reading n }) b.subscriptions;
            })
    activated-Kept n p e = record {
      entry = changed (record s { replay_task = reading n }) refl;
      not_global = v.not_global;
      not_terminal = v.not_terminal;
      caught_up = λ a. cc;
      nothing_sent = λ a. v.nothing_sent (simp e refl);
      in_order = simp e at v.in_order;
    }

    catching : (s.phase ≡ active → s.phase ≡ catching_up) → s.phase ≡ catching_up
    catching f = elim (phase_cases s.phase v.not_terminal) [ inl p ↦ p | inr p ↦ f p ]

    drained-Kept :
        (cs : List JournalRecord)
        → s.catchup ≡ cs
        → s.replay_task ≡ sending []
        → Kept fnmatch s.sub_id batch history (drain_turn wire fnmatch cs s b)
    unfolding drain_turn fail_replay close_connection
    drained-Kept [] c e =
        let t = record s { phase = active; replay_task = finished } in
        inr (
          t,
          refl,
          record {
            entry = changed t refl;
            not_global = v.not_global;
            not_terminal = refl;
            caught_up = λ a. (refl, c, refl);
            nothing_sent = λ a. cc;
            in_order = simp e at v.in_order;
          },
        )
    drained-Kept (r ∷ rest) c e =
        elim (Option-cases (wire.frame_size (envelope_of s.sub_id live r))) [
          | inl f ↦
              simp (drain_turn, f) (inl (terminate-Gone s.sub_id b (rw v.entry (omega arith))))
          | inr (size, f) ↦
              let t = drained wire fnmatch r rest size s in
              let p = catching (λ a. let absurd = rw c at (v.caught_up a).1 in cc) in
              simp (drain_turn, f)
                (replay_delivery-Kept batch history t live r
                  (record b { subscriptions = put t b.subscriptions }) (changed t refl) v.not_global
                  p (simp e refl) (simp e (simp (e, c) at v.in_order)))
        ]

    turned-Kept :
        (r : JournalRecord) (rest : List JournalRecord)
        → s.replay_task ≡ sending (r ∷ rest)
        → Kept fnmatch s.sub_id batch history (replay_turn wire fnmatch r rest s b)
    unfolding replay_turn
    turned-Kept r rest e =
        let t = record s { replay_task = sending rest } in
        let c : Broadcaster Conn = record b { subscriptions = put t b.subscriptions } in
        let p = catching (λ a. let absurd = rw e at (v.caught_up a).0 in cc) in
        elim (Bool-cases (matches_topic fnmatch r.event.type s.topics)) [
          | inl m ↦
              simp (replay_turn, m)
                (replay_delivery-Kept batch history t replay r c (changed t refl) v.not_global p
                  refl (simp (e, m) at v.in_order))
          | inr m ↦
              simp (replay_turn, m)
                (inr (
                  t,
                  refl,
                  record {
                    entry = changed t refl;
                    not_global = v.not_global;
                    not_terminal = v.not_terminal;
                    caught_up = λ a. let absurd = rw e at (v.caught_up a).0 in cc;
                    nothing_sent = λ a. cc;
                    in_order = simp (e, m) at v.in_order;
                  },
                ))
        ]

    -- A turn of the replay task.
    pub replay_step-Kept : Kept fnmatch s.sub_id batch history (replay_step wire fnmatch s.sub_id b)
    unfolding replay_step
    replay_step-Kept =
        simp (replay_step, find_lem s.sub_id b.subscriptions, v.entry) (by_task s.replay_task refl)
      where
        by_task :
            (task : ReplayTask)
            → s.replay_task ≡ task
            → Kept fnmatch s.sub_id batch history (elim task as (λ t. Broadcaster Conn) [
              | sending [] ↦ drain_turn wire fnmatch s.catchup s b
              | sending (r ∷ rest) ↦ replay_turn wire fnmatch r rest s b
              | _ ↦ b
            ])
        by_task no_task e = inr (s, refl, v)
        by_task (reading n) e = inr (s, refl, v)
        by_task (sending []) e = drained-Kept s.catchup refl e
        by_task (sending (r ∷ rest)) e = turned-Kept r rest e
        by_task finished e = inr (s, refl, v)
        by_task cancelled e = inr (s, refl, v)

  module _ (i : String) (s : Subscription) (b : Broadcaster Conn) (h : str_eq i s.sub_id ≡ false)
      (f : Few i b) where
    moved_to :
        (t : Subscription)
        → t.sub_id ≡ s.sub_id
        → (d : Delivery) (r : JournalRecord)
        → Outcome i b (
            replay_delivery wire fnmatch d r t (record b { subscriptions = put t b.subscriptions }))
    moved_to t e d r =
        let c : Broadcaster Conn = record b { subscriptions = put t b.subscriptions } in
        let apart : str_eq i t.sub_id ≡ false = rw e h in
        let p = put-Outcome wire fnmatch i t b apart in
        Outcome-trans i b c (replay_delivery wire fnmatch d r t c) p
          (replay_delivery-Outcome i t d r c apart (Outcome-Few i b c p f))

    drain_turn-Outcome : (cs : List JournalRecord) → Outcome i b (drain_turn wire fnmatch cs s b)
    unfolding drain_turn
    drain_turn-Outcome [] =
        put-Outcome wire fnmatch i (record s { phase = active; replay_task = finished }) b h
    drain_turn-Outcome (r ∷ rest) =
        elim (Option-cases (wire.frame_size (envelope_of s.sub_id live r))) [
          | inl e ↦ simp (drain_turn, e) (fail_replay-Outcome wire fnmatch i s b f)
          | inr (size, e) ↦
              simp (drain_turn, e) (moved_to (drained wire fnmatch r rest size s) refl live r)
        ]

    replay_turn-Outcome :
        (r : JournalRecord) (rest : List JournalRecord)
        → Outcome i b (replay_turn wire fnmatch r rest s b)
    unfolding replay_turn
    replay_turn-Outcome r rest = elim (Bool-cases (matches_topic fnmatch r.event.type s.topics)) [
      | inl e ↦
          simp (replay_turn, e) (moved_to (record s { replay_task = sending rest }) refl replay r)
      | inr e ↦
          simp (replay_turn, e)
            (put-Outcome wire fnmatch i (record s { replay_task = sending rest }) b h)
    ]

    task-Outcome :
        (task : ReplayTask)
        → Outcome i b (elim task as (λ t. Broadcaster Conn) [
          | sending [] ↦ drain_turn wire fnmatch s.catchup s b
          | sending (r ∷ rest) ↦ replay_turn wire fnmatch r rest s b
          | _ ↦ b
        ])
    task-Outcome no_task = inr (Same-refl i b)
    task-Outcome (reading n) = inr (Same-refl i b)
    task-Outcome (sending []) = drain_turn-Outcome s.catchup
    task-Outcome (sending (r ∷ rest)) = replay_turn-Outcome r rest
    task-Outcome finished = inr (Same-refl i b)
    task-Outcome cancelled = inr (Same-refl i b)

  -- A turn of another subscription's replay task.
  pub replay_step-Outcome :
      (i j : String) (b : Broadcaster Conn)
      → str_eq i j ≡ false
      → Few i b
      → Outcome i b (replay_step wire fnmatch j b)
  unfolding replay_step
  replay_step-Outcome i j b h f = elim (Option-cases (find j b.subscriptions)) [
    | inl e ↦ simp (replay_step, e) (inr (Same-refl i b))
    | inr (s, e) ↦
        simp (replay_step, e)
          (task-Outcome i s b (str_eq-apart i j s.sub_id h (find-id j s b.subscriptions e)) f
            s.replay_task)
  ]
