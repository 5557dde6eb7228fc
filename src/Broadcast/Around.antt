-- ===== src/Broadcast/Around.antt =====
-- The other calls that a durable subscription can meet (core/transport/ipc_broadcaster.py).
use mathlib.Core.List.{append-nil}
use claudecode_lite_main.Prelude.{
  ℕ, String, str_eq, eq_iff, List, [], ◌∷◌, ◌++◌, Option, none, some, Bool, true, false, ◌≡◌, refl,
  sym, ap, ◌∙◌, ◌⊎◌, inl, inr, arith, if◌then◌else◌, Bool-cases, Option-cases, ◌==◌, ◌&&◌,
}
use claudecode_lite_main.Journal.Stream.{Event, JournalRecord}
use claudecode_lite_main.Broadcast.State.{
  Phase, catching_up, active, terminal, reading, sending, Envelope, Subscription, Wire, Broadcaster,
  find, put, unsubscribe_all, unsubscribe,
}
use claudecode_lite_main.Broadcast.Publish.{
  moved, matches_topic, of_stream, refusal, subscribe, activate_replay, replay_read,
  fail_stream_loop, fail_replay, live_envelope, publish_live_to, publish_live_loop,
}
use claudecode_lite_main.Broadcast.Lookup.{
  only, first, keep-append, str_eq-apart, find_lem, find-id,
}
use claudecode_lite_main.Broadcast.Others.{
  Few, Same, Outcome, Same-refl, Outcome-trans, Outcome-Few, terminate-Outcome,
  terminate_owned-Outcome,
}
use claudecode_lite_main.Broadcast.Elsewhere.{sent_to-snoc, fail_replay-Outcome, put-Outcome}
use claudecode_lite_main.Broadcast.Facts.{Kept, Kept-Few, Kept-Outcome}

module _ {Conn : Type 0} (wire : Wire Conn) (fnmatch : String → String → Bool) (i : String) where
  pub unsubscribe-Outcome :
      (context : ℕ) (j : String) (b : Broadcaster Conn)
      → Few i b
      → Outcome i b (unsubscribe context j b).0
  unfolding unsubscribe
  unsubscribe-Outcome context j b f = elim (Option-cases (find j b.subscriptions)) [
    | inl e ↦ simp (unsubscribe, e) (inr (Same-refl i b))
    | inr (s, e) ↦ elim (Bool-cases (s.context == context)) [
      | inl o ↦ simp (unsubscribe, e, o) (terminate-Outcome i j b f)
      | inr o ↦ simp (unsubscribe, e, o) (inr (Same-refl i b))
    ]
  ]

  pub fail_stream_loop-Outcome :
      (stream_id : String) (ss : List Subscription) (b : Broadcaster Conn)
      → Few i b
      → Outcome i b (fail_stream_loop wire fnmatch stream_id ss b)
  unfolding fail_stream_loop
  fail_stream_loop-Outcome stream_id [] b f = inr (Same-refl i b)
  fail_stream_loop-Outcome stream_id (s ∷ ss) b f =
      elim (Bool-cases (of_stream s.stream_id stream_id)) [
        | inl e ↦
            let c = fail_replay wire fnmatch s b in
            let p = fail_replay-Outcome wire fnmatch i s b f in
            simp (fail_stream_loop, e)
              (Outcome-trans i b c (fail_stream_loop wire fnmatch stream_id ss c) p
                (fail_stream_loop-Outcome stream_id ss c (Outcome-Few i b c p f)))
        | inr e ↦ simp (fail_stream_loop, e) (fail_stream_loop-Outcome stream_id ss b f)
      ]

  pub subscribe-Same :
      (j : String) (context : ℕ) (topics : List String) (scope : String) (b : Broadcaster Conn)
      → str_eq i j ≡ false
      → Same i b (subscribe wire fnmatch context topics scope j b).0
  unfolding subscribe
  subscribe-Same j context topics scope b h = elim (Option-cases (refusal wire fnmatch context b)) [
    | inr (x, e) ↦ simp (subscribe, e) (Same-refl i b)
    | inl e ↦
        simp (subscribe, e)
          (record {
            same_entry =
                simp
                  (
                    keep-append (λ x. str_eq i x.sub_id) b.subscriptions (_ ∷ []),
                    h,
                    append-nil (only i b.subscriptions),
                  )
                  refl;
            same_sent = refl;
          })
  ]

  pub replay_read-Outcome :
      (found : Option (List JournalRecord)) (s : Subscription) (b : Broadcaster Conn)
      → str_eq i s.sub_id ≡ false
      → Few i b
      → Outcome i b (replay_read wire fnmatch found s b)
  unfolding replay_read
  replay_read-Outcome none s b h f = fail_replay-Outcome wire fnmatch i s b f
  replay_read-Outcome (some rs) s b h f =
      put-Outcome wire fnmatch i (record s { replay_task = sending rs }) b h

  activated-Outcome :
      (n : ℕ) (s : Subscription) (b : Broadcaster Conn)
      → str_eq i s.sub_id ≡ false
      → (p : Phase)
      → Outcome i b (elim p as (λ p. Broadcaster Conn) [
        | catching_up ↦
            if wire.is_open (b.connections s.context)
            then record b {
              subscriptions = put (record s { replay_task = reading n }) b.subscriptions;
            }
            else b
        | _ ↦ b
      ])
  activated-Outcome n s b h active = inr (Same-refl i b)
  activated-Outcome n s b h terminal = inr (Same-refl i b)
  activated-Outcome n s b h catching_up =
      elim (Bool-cases (wire.is_open (b.connections s.context))) [
        | inr o ↦ simp o (inr (Same-refl i b))
        | inl o ↦ simp o (put-Outcome wire fnmatch i (record s { replay_task = reading n }) b h)
      ]

  pub activate_replay-Outcome :
      (j : String) (n : ℕ) (b : Broadcaster Conn)
      → str_eq i j ≡ false
      → Outcome i b (activate_replay wire fnmatch j n b)
  unfolding activate_replay
  activate_replay-Outcome j n b h = elim (Option-cases (find j b.subscriptions)) [
    | inl e ↦ simp (activate_replay, e) (inr (Same-refl i b))
    | inr (s, e) ↦
        simp (activate_replay, e)
          (activated-Outcome n s b (str_eq-apart i j s.sub_id h (find-id j s b.subscriptions e))
            s.phase)
  ]

  publish_live_to-Outcome :
      (event : Event) (s : Subscription) (b : Broadcaster Conn)
      → str_eq i s.sub_id ≡ false
      → Few i b
      → Outcome i b (publish_live_to wire fnmatch event s b)
  unfolding publish_live_to unsubscribe_all
  publish_live_to-Outcome event s b h f =
      elim (Bool-cases (str_eq s.scope "global" && matches_topic fnmatch event.type s.topics)) [
        | inr e ↦ simp (publish_live_to, e) (inr (Same-refl i b))
        | inl e ↦ simp (publish_live_to, e) (by_phase s.phase)
      ]
    where
      envelope : Envelope
      envelope = live_envelope s.sub_id event

      answer : Conn × Bool
      answer = wire.enqueue_event envelope (b.connections s.context)

      reached : Broadcaster Conn
      reached = record b { connections = moved s.context answer.0 b.connections }

      delivered : Bool → Broadcaster Conn
      delivered taken =
          if taken
          then record reached { sent = reached.sent ++ envelope ∷ [] }
          else unsubscribe_all s.context reached

      delivered-Outcome : (taken : Bool) → Outcome i b (delivered taken)
      delivered-Outcome true =
          inr (record { same_entry = refl; same_sent = sent_to-snoc i envelope b.sent h })
      delivered-Outcome false =
          Outcome-trans i b reached (unsubscribe_all s.context reached)
            (inr (record { same_entry = refl; same_sent = refl }))
            (terminate_owned-Outcome i s.context b.subscriptions reached f)

      by_phase :
          (p : Phase)
          → Outcome i b (elim p as (λ p. Broadcaster Conn) [ active ↦ delivered answer.1 | _ ↦ b ])
      by_phase active = delivered-Outcome answer.1
      by_phase catching_up = inr (Same-refl i b)
      by_phase terminal = inr (Same-refl i b)

  -- A durable subscription gets nothing of a live event.
  pub publish_live_loop-Kept :
      (batch history : List JournalRecord) (event : Event) (ss : List Subscription)
      (b : Broadcaster Conn)
      → Kept fnmatch i batch history b
      → Kept fnmatch i batch history (publish_live_loop wire fnmatch event ss b)
  unfolding publish_live_loop publish_live_to
  publish_live_loop-Kept batch history event [] b k = k
  publish_live_loop-Kept batch history event (y ∷ ss) b k =
      elim (Option-cases (find y.sub_id b.subscriptions)) [
        | inl e ↦ simp (publish_live_loop, e) (publish_live_loop-Kept batch history event ss b k)
        | inr (t, e) ↦
            simp (publish_live_loop, e)
              (publish_live_loop-Kept batch history event ss
                (publish_live_to wire fnmatch event t b)
                (turned t e (Bool-cases (str_eq i t.sub_id)) k))
      ]
    where
      turned :
          (t : Subscription)
          → find y.sub_id b.subscriptions ≡ some t
          → (str_eq i t.sub_id ≡ true) ⊎ (str_eq i t.sub_id ≡ false)
          → Kept fnmatch i batch history b
          → Kept fnmatch i batch history (publish_live_to wire fnmatch event t b)
      turned t e (inr h) k =
          Kept-Outcome fnmatch i batch history b (publish_live_to wire fnmatch event t b) k
            (publish_live_to-Outcome event t b h (Kept-Few fnmatch i batch history b k))
      turned t e (inl h) (inl g) =
          let id : i ≡ t.sub_id = (eq_iff i t.sub_id).0 h in
          let id' : y.sub_id ≡ t.sub_id =
            (eq_iff y.sub_id t.sub_id).0 (find-id y.sub_id t b.subscriptions e) in
          let here = ap (λ j. find j b.subscriptions) (id ∙ sym id') ∙ e in
          let absent = sym here ∙ (find_lem i b.subscriptions ∙ ap first g) in cc
      turned t e (inl h) (inr (s, id, v)) =
          let it : i ≡ t.sub_id = (eq_iff i t.sub_id).0 h in
          let id' : y.sub_id ≡ t.sub_id =
            (eq_iff y.sub_id t.sub_id).0 (find-id y.sub_id t b.subscriptions e) in
          let here = ap (λ j. find j b.subscriptions) (id ∙ (it ∙ sym id')) ∙ e in
          let same : s ≡ t =
            grind (arith, sym (find_lem s.sub_id b.subscriptions ∙ ap first v.entry) ∙ here) in
          let quiet : str_eq t.scope "global" ≡ false =
            sym (ap (λ x. str_eq x.scope "global") same) ∙ v.not_global in
          simp (publish_live_to, quiet) (inr (s, id, v))
