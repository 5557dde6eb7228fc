-- ===== src/Broadcast/Elsewhere.antt =====
-- Deliveries to other subscriptions (core/transport/ipc_broadcaster.py).
use mathlib.Core.List.{append-nil}
use claudecode_lite_main.Prelude.{
  String, str_eq, List, [], ◌∷◌, ◌++◌, Option, none, some, Bool, false, ◌≡◌, refl, inl, inr, arith,
  Bool-cases, Option-cases, leb,
}
use claudecode_lite_main.Journal.Stream.{JournalRecord}
use claudecode_lite_main.Broadcast.State.{
  Phase, catching_up, active, terminal, Delivery, live, Envelope, Subscription, Wire, Broadcaster,
  find, put, envelope_of, unsubscribe_all,
}
use claudecode_lite_main.Broadcast.Publish.{
  moved, close_connection, enqueue_delivery, buffer_catchup, catch_up, wants, publish_to,
  publish_loop, fail_replay,
}
use claudecode_lite_main.Broadcast.Lookup.{
  only, sent_to, keep-append, str_eq-apart, find-id, only-put_other,
}
use claudecode_lite_main.Broadcast.Others.{
  Few, Outcome, Same-refl, Outcome-trans, Outcome-Few, terminate-Outcome, terminate_owned-Outcome,
}

pub sent_to-snoc :
    (i : String) (e : Envelope) (es : List Envelope)
    → str_eq i e.subscription_id ≡ false
    → sent_to i (es ++ e ∷ []) ≡ sent_to i es
sent_to-snoc i e es h =
    simp (keep-append (λ x. str_eq i x.subscription_id) es (e ∷ []), h, append-nil (sent_to i es))
      refl

module _ {Conn : Type 0} (wire : Wire Conn) (fnmatch : String → String → Bool) where
  pub enqueue_delivery-Outcome :
      (i : String) (s : Subscription) (d : Delivery) (r : JournalRecord) (b : Broadcaster Conn)
      → str_eq i s.sub_id ≡ false
      → Few i b
      → Outcome i b (enqueue_delivery wire fnmatch s d r b).0
  unfolding enqueue_delivery unsubscribe_all
  enqueue_delivery-Outcome i s d r b h f =
      let answer = wire.enqueue_event (envelope_of s.sub_id d r) (b.connections s.context) in
      let reached : Broadcaster Conn = record b {
        connections = moved s.context answer.0 b.connections;
      } in
      elim (Bool-cases answer.1) [
        | inl e ↦
            simp (enqueue_delivery, e)
              (inr (record {
                same_entry = refl;
                same_sent = sent_to-snoc i (envelope_of s.sub_id d r) b.sent h;
              }))
        | inr e ↦
            simp (enqueue_delivery, e)
              (Outcome-trans i b reached (unsubscribe_all s.context reached)
                (inr (record { same_entry = refl; same_sent = refl }))
                (terminate_owned-Outcome i s.context b.subscriptions reached f))
      ]

  pub fail_replay-Outcome :
      (i : String) (s : Subscription) (b : Broadcaster Conn)
      → Few i b
      → Outcome i b (fail_replay wire fnmatch s b)
  unfolding fail_replay close_connection
  fail_replay-Outcome i s b f = elim (terminate-Outcome i s.sub_id b f) [
    | inl g ↦ inl g
    | inr q ↦ inr (record { same_entry = q.same_entry; same_sent = q.same_sent })
  ]

  buffer_catchup-id :
      (r : JournalRecord) (s t : Subscription)
      → buffer_catchup wire fnmatch r s ≡ some t
      → t.sub_id ≡ s.sub_id
  unfolding buffer_catchup
  buffer_catchup-id r s t h = ground (arith, h)

  pub put-Outcome :
      (i : String) (t : Subscription) (b : Broadcaster Conn)
      → str_eq i t.sub_id ≡ false
      → Outcome i b (record b { subscriptions = put t b.subscriptions })
  put-Outcome i t b h =
      inr (record { same_entry = only-put_other i t b.subscriptions h; same_sent = refl })

  catch_up-Outcome :
      (i : String) (r : JournalRecord) (s : Subscription) (b : Broadcaster Conn)
      → str_eq i s.sub_id ≡ false
      → Few i b
      → Outcome i b (catch_up wire fnmatch r s b)
  unfolding catch_up fail_replay
  catch_up-Outcome i r s b h f = elim (Bool-cases (leb r.seq s.high_watermark)) [
    | inl e ↦ simp (catch_up, e) (inr (Same-refl i b))
    | inr e ↦ elim (Option-cases (buffer_catchup wire fnmatch r s)) [
      | inl o ↦ simp (catch_up, e, o) (fail_replay-Outcome i s b f)
      | inr (t, o) ↦ simp (catch_up, e, o) (put-Outcome i t b (rw (buffer_catchup-id r s t o) h))
    ]
  ]

  pub publish_to-Outcome :
      (i : String) (dg : Bool) (r : JournalRecord) (s : Subscription) (b : Broadcaster Conn)
      → str_eq i s.sub_id ≡ false
      → Few i b
      → Outcome i b (publish_to wire fnmatch dg r s b)
  unfolding publish_to
  publish_to-Outcome i dg r s b h f = elim (Bool-cases (wants wire fnmatch dg r s)) [
    | inr e ↦ simp (publish_to, e) (inr (Same-refl i b))
    | inl e ↦ simp (publish_to, e) (by_phase s.phase)
  ]
    where
      by_phase :
          (p : Phase)
          → Outcome i b (elim p as (λ p. Broadcaster Conn) [
            | terminal ↦ b
            | catching_up ↦ catch_up wire fnmatch r s b
            | active ↦ (enqueue_delivery wire fnmatch s live r b).0
          ])
      by_phase terminal = inr (Same-refl i b)
      by_phase catching_up = catch_up-Outcome i r s b h f
      by_phase active = enqueue_delivery-Outcome i s live r b h f

  abbrev pub turn : Bool → JournalRecord → Subscription → Broadcaster Conn → Broadcaster Conn
  turn dg r s b = elim (find s.sub_id b.subscriptions) [
    | none ↦ b
    | some t ↦ publish_to wire fnmatch dg r t b
  ]

  pub turn-Outcome :
      (i : String) (dg : Bool) (r : JournalRecord) (s : Subscription) (b : Broadcaster Conn)
      → str_eq i s.sub_id ≡ false
      → Few i b
      → Outcome i b (turn dg r s b)
  turn-Outcome i dg r s b h f = by_entry (find s.sub_id b.subscriptions) refl
    where
      by_entry :
          (o : Option Subscription)
          → find s.sub_id b.subscriptions ≡ o
          → Outcome i b (elim o as (λ o. Broadcaster Conn) [
            | none ↦ b
            | some t ↦ publish_to wire fnmatch dg r t b
          ])
      by_entry none e = inr (Same-refl i b)
      by_entry (some t) e =
          publish_to-Outcome i dg r t b
            (str_eq-apart i s.sub_id t.sub_id h (find-id s.sub_id t b.subscriptions e)) f

  -- The turns of the loop that are for other subscriptions.
  pub publish_loop-Outcome :
      (i : String) (dg : Bool) (r : JournalRecord) (ss : List Subscription) (b : Broadcaster Conn)
      → only i ss ≡ []
      → Few i b
      → Outcome i b (publish_loop wire fnmatch dg r ss b)
  unfolding publish_loop
  publish_loop-Outcome i dg r [] b o f = inr (Same-refl i b)
  publish_loop-Outcome i dg r (s ∷ ss) b o f = elim (Bool-cases (str_eq i s.sub_id)) [
    | inl e ↦ let absurd = simp e at o in cc
    | inr e ↦
        let c = turn dg r s b in
        let p = turn-Outcome i dg r s b e f in
        Outcome-trans i b c (publish_loop wire fnmatch dg r ss c) p
          (publish_loop-Outcome i dg r ss c (simp e at o) (Outcome-Few i b c p f))
  ]
