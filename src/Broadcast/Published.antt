-- ===== src/Broadcast/Published.antt =====
-- Publishing a durable record, for one subscription (core/transport/ipc_broadcaster.py, `publish_durable`).
use mathlib.Core.List.{append-nil, append_assoc}
use claudecode_lite_main.Prelude.{
  ℕ, ◌+◌, ◌<◌, String, str_eq, eq_iff, List, [], ◌∷◌, ◌++◌, none, some, Bool, true, false, ◌≡◌,
  refl, sym, ap, ◌∙◌, ◌⊎◌, inl, inr, arith, Bool-cases, Option-cases, leb, ◌&&◌,
}
use claudecode_lite_main.Journal.Stream.{JournalRecord}
use claudecode_lite_main.Broadcast.State.{
  Phase, catching_up, active, terminal, Delivery, live, Subscription, Wire, Broadcaster, find, put,
  envelope_of, unsubscribe_all,
}
use claudecode_lite_main.Broadcast.Publish.{
  moved, matches_topic, close_connection, enqueue_delivery, with_catchup, buffer_catchup, catch_up,
  of_stream, wants, publish_to, publish_loop, fail_replay,
}
use claudecode_lite_main.Broadcast.Lookup.{only, sent_to, first, find_lem, only-put_same}
use claudecode_lite_main.Broadcast.Others.{
  Few, Gone, Outcome-Gone, terminate-Gone, terminate_owned-Gone,
}
use claudecode_lite_main.Broadcast.Elsewhere.{turn, turn-Outcome, publish_loop-Outcome}
use claudecode_lite_main.Broadcast.Facts.{
  rest_of, envelopes, envelopes-append, sent_to-own, replays, is_live, lives, lives-snoc, Facts,
  Kept, Facts-carry, Kept-Few, Kept-Outcome,
}

in_front :
    {A : Type 0} (sent rest caught all : List A) (x : A)
    → rest ≡ []
    → caught ≡ []
    → sent ++ (rest ++ caught) ≡ all
    → (sent ++ x ∷ []) ++ (rest ++ caught) ≡ all ++ x ∷ []
in_front sent rest caught all x r c h =
    rw (sym h) (simp (r, c, append-nil sent, append-nil (sent ++ x ∷ [])) refl)

behind :
    {A : Type 0} (sent rest caught all : List A) (x : A)
    → sent ++ (rest ++ caught) ≡ all
    → sent ++ (rest ++ (caught ++ x ∷ [])) ≡ all ++ x ∷ []
behind sent rest caught all x h = rw (sym h) (simp append_assoc)

module _ {Conn : Type 0} (wire : Wire Conn) (fnmatch : String → String → Bool) where
  buffer-cases :
      (r : JournalRecord) (s : Subscription)
      → (buffer_catchup wire fnmatch r s ≡ none)
        ⊎ ((size : ℕ) × (buffer_catchup wire fnmatch r s
              ≡ some (record s {
                catchup = s.catchup ++ r ∷ [];
                catchup_bytes = s.catchup_bytes + size;
              })))
  unfolding buffer_catchup
  buffer-cases r s = elim (Option-cases (wire.frame_size (envelope_of s.sub_id live r))) [
    | inl e ↦ inl (simp (buffer_catchup, e) refl)
    | inr (size, e) ↦ elim (Option-cases (with_catchup wire fnmatch r size s)) [
      | inl f ↦ inl (simp (buffer_catchup, e, f) refl)
      | inr (t, f) ↦ inr (size, simp (buffer_catchup, e) (ground (arith, f)))
    ]
  ]

  -- What `_enqueue_delivery` does to the subscription it is for.
  pub enqueue-own :
      (s : Subscription) (d : Delivery) (r : JournalRecord) (b : Broadcaster Conn)
      → only s.sub_id b.subscriptions ≡ s ∷ []
      → (((enqueue_delivery wire fnmatch s d r b).1 ≡ true)
          × ((enqueue_delivery wire fnmatch s d r b).0.subscriptions ≡ b.subscriptions)
          × ((enqueue_delivery wire fnmatch s d r b).0.sent
              ≡ b.sent ++ envelope_of s.sub_id d r ∷ []))
        ⊎ (((enqueue_delivery wire fnmatch s d r b).1 ≡ false)
            × Gone s.sub_id (enqueue_delivery wire fnmatch s d r b).0)
  unfolding enqueue_delivery unsubscribe_all
  enqueue-own s d r b h =
      let answer = wire.enqueue_event (envelope_of s.sub_id d r) (b.connections s.context) in
      let reached : Broadcaster Conn = record b {
        connections = moved s.context answer.0 b.connections;
      } in
      elim (Bool-cases answer.1) [
        | inl e ↦ inl (simp (enqueue_delivery, e) (refl, refl, refl))
        | inr e ↦ inr (
            simp (enqueue_delivery, e)
              (refl, terminate_owned-Gone s b.subscriptions reached (rw h (omega arith)) h))
      ]

  module _ (batch history : List JournalRecord) (r : JournalRecord) (s : Subscription)
      (b : Broadcaster Conn) (v : Facts fnmatch batch history s b) where
    -- A record that the subscription is not to get.
    not_live : is_live fnmatch s r ≡ false → Facts fnmatch batch (history ++ r ∷ []) s b
    not_live e = record {
      entry = v.entry;
      not_global = v.not_global;
      not_terminal = v.not_terminal;
      caught_up = v.caught_up;
      nothing_sent = v.nothing_sent;
      in_order =
          v.in_order
          ∙ sym (
              simp
                (
                  lives-snoc fnmatch s r history,
                  e,
                  append-nil (lives fnmatch s history),
                  append-nil (replays fnmatch s batch ++ lives fnmatch s history),
                )
                refl);
    }

    lives-more :
        is_live fnmatch s r ≡ true
        → replays fnmatch s batch ++ lives fnmatch s (history ++ r ∷ [])
          ≡ (replays fnmatch s batch ++ lives fnmatch s history) ++ envelope_of s.sub_id live r ∷ []
    lives-more e =
        simp (lives-snoc fnmatch s r history, e)
          (sym (
            append_assoc (replays fnmatch s batch) (lives fnmatch s history)
              (envelope_of s.sub_id live r ∷ [])))

    few : Few s.sub_id b
    few = rw v.entry (omega arith)

    abbrev buffered : ℕ → Subscription
    buffered size = record s {
      catchup = s.catchup ++ r ∷ [];
      catchup_bytes = s.catchup_bytes + size;
    }

    buffered-Facts :
        (size : ℕ)
        → s.phase ≡ catching_up
        → is_live fnmatch s r ≡ true
        → Facts fnmatch batch
            (history ++ r ∷ [])
            (buffered size)
            (record b { subscriptions = put (buffered size) b.subscriptions })
    buffered-Facts size p e = record {
      entry = only-put_same (buffered size) b.subscriptions ∙ simp v.entry refl;
      not_global = v.not_global;
      not_terminal = v.not_terminal;
      caught_up = λ a. cc;
      nothing_sent = v.nothing_sent;
      in_order =
          rw (envelopes-append s.sub_id live s.catchup (r ∷ []), lives-more e)
            (behind (sent_to s.sub_id b.sent) (replays fnmatch s (rest_of s.replay_task))
              (envelopes s.sub_id live s.catchup)
              (replays fnmatch s batch ++ lives fnmatch s history) (envelope_of s.sub_id live r)
              v.in_order);
    }

    catch_up-Kept :
        s.phase ≡ catching_up
        → of_stream s.stream_id r.stream_id && matches_topic fnmatch r.event.type s.topics ≡ true
        → Kept fnmatch s.sub_id batch (history ++ r ∷ []) (catch_up wire fnmatch r s b)
    unfolding catch_up fail_replay close_connection
    catch_up-Kept p w = elim (Bool-cases (leb r.seq s.high_watermark)) [
      | inl e ↦ simp (catch_up, e) (inr (s, refl, not_live (ground (arith, e))))
      | inr e ↦ elim (buffer-cases r s) [
        | inl o ↦ simp (catch_up, e, o) (inl (terminate-Gone s.sub_id b few))
        | inr (size, o) ↦
            simp (catch_up, e, o)
              (inr (buffered size, refl, buffered-Facts size p (ground (arith, e, w))))
      ]
    ]

    active-Kept :
        s.phase ≡ active
        → is_live fnmatch s r ≡ true
        → Kept fnmatch s.sub_id batch
            (history ++ r ∷ [])
            (enqueue_delivery wire fnmatch s live r b).0
    active-Kept p e = elim (enqueue-own s live r b v.entry) [
      | inr (refused, g) ↦ inl g
      | inl (taken, subs, sent) ↦ inr (
        s,
        refl,
        record {
          entry = ap (only s.sub_id) subs ∙ v.entry;
          not_global = v.not_global;
          not_terminal = v.not_terminal;
          caught_up = v.caught_up;
          nothing_sent = λ u. let read = (v.caught_up p).2 in cc;
          in_order =
              rw (sent, sent_to-own s.sub_id live r b.sent, lives-more e)
                (in_front (sent_to s.sub_id b.sent) (replays fnmatch s (rest_of s.replay_task))
                  (envelopes s.sub_id live s.catchup)
                  (replays fnmatch s batch ++ lives fnmatch s history) (envelope_of s.sub_id live r)
                  (simp ((v.caught_up p).0) refl) (simp ((v.caught_up p).1) refl) v.in_order);
        },
      )
    ]

    publish_to-Kept :
        (dg : Bool)
        → (s.phase ≡ active → s.high_watermark < r.seq)
        → Kept fnmatch s.sub_id batch (history ++ r ∷ []) (publish_to wire fnmatch dg r s b)
    unfolding publish_to wants
    publish_to-Kept dg late =
        elim (Bool-cases
          (of_stream s.stream_id r.stream_id && matches_topic fnmatch r.event.type s.topics)) [
            | inr e ↦
                simp (publish_to, v.not_global, e) (inr (s, refl, not_live (ground (arith, e))))
            | inl e ↦ simp (publish_to, v.not_global, e) (by_phase s.phase refl e)
          ]
      where
        by_phase :
            (p : Phase)
            → s.phase ≡ p
            → of_stream s.stream_id r.stream_id && matches_topic fnmatch r.event.type s.topics
              ≡ true
            → Kept fnmatch s.sub_id batch (history ++ r ∷ []) (elim p as (λ p. Broadcaster Conn) [
              | terminal ↦ b
              | catching_up ↦ catch_up wire fnmatch r s b
              | active ↦ (enqueue_delivery wire fnmatch s live r b).0
            ])
        by_phase terminal p e = let never = rw p at v.not_terminal in cc
        by_phase catching_up p e = catch_up-Kept p e
        by_phase active p e = active-Kept p (ground (arith, e, late p))

  own_entry :
      (s : Subscription) (ss : List Subscription)
      → only s.sub_id ss ≡ s ∷ []
      → find s.sub_id ss ≡ some s
  own_entry s ss h = find_lem s.sub_id ss ∙ ap first h

  pub publish_loop-Gone :
      (i : String) (dg : Bool) (r : JournalRecord) (ss : List Subscription) (b : Broadcaster Conn)
      → Gone i b
      → Gone i (publish_loop wire fnmatch dg r ss b)
  unfolding publish_loop
  publish_loop-Gone i dg r [] b g = g
  publish_loop-Gone i dg r (y ∷ ss) b g = elim (Bool-cases (str_eq i y.sub_id)) [
    | inl e ↦
        let same : i ≡ y.sub_id = (eq_iff i y.sub_id).0 e in
        let none_found : find y.sub_id b.subscriptions ≡ none =
          rw (sym same) (find_lem i b.subscriptions ∙ ap first g) in
        simp (publish_loop, none_found) (publish_loop-Gone i dg r ss b g)
    | inr e ↦
        let c = turn wire fnmatch dg r y b in
        publish_loop-Gone i dg r ss c
          (Outcome-Gone i b c (turn-Outcome wire fnmatch i dg r y b e (rw g (omega arith))) g)
  ]

  -- The loop has one turn for the subscription.
  pub publish_loop-Kept :
      (batch history : List JournalRecord) (r : JournalRecord) (s x : Subscription) (dg : Bool)
      → (s.phase ≡ active → s.high_watermark < r.seq)
      → (ss : List Subscription) (b : Broadcaster Conn) → only s.sub_id ss ≡ x ∷ []
      → Facts fnmatch batch history s b
      → Kept fnmatch s.sub_id batch (history ++ r ∷ []) (publish_loop wire fnmatch dg r ss b)
  unfolding publish_loop
  publish_loop-Kept batch history r s x dg late [] b o v = let none_left = o in cc
  publish_loop-Kept batch history r s x dg late (y ∷ ss) b o v =
      elim (Bool-cases (str_eq s.sub_id y.sub_id)) [
        | inl e ↦
            let same : s.sub_id ≡ y.sub_id = (eq_iff s.sub_id y.sub_id).0 e in
            let found : find y.sub_id b.subscriptions ≡ some s =
              rw (sym same) (own_entry s b.subscriptions v.entry) in
            let others : only s.sub_id ss ≡ [] = grind (arith, simp e at o) in
            let c = publish_to wire fnmatch dg r s b in
            let k = publish_to-Kept batch history r s b v dg late in
            simp (publish_loop, found)
              (Kept-Outcome fnmatch s.sub_id batch (history ++ r ∷ []) c
                (publish_loop wire fnmatch dg r ss c) k
                (publish_loop-Outcome wire fnmatch s.sub_id dg r ss c others
                  (Kept-Few fnmatch s.sub_id batch (history ++ r ∷ []) c k)))
        | inr e ↦
            let c = turn wire fnmatch dg r y b in
            elim (turn-Outcome wire fnmatch s.sub_id dg r y b e (rw v.entry (omega arith))) [
              | inl g ↦ inl (publish_loop-Gone s.sub_id dg r ss c g)
              | inr q ↦
                  publish_loop-Kept batch history r s x dg late ss c (simp e at o)
                    (Facts-carry fnmatch batch history s b c v q)
            ]
      ]
