-- ===== src/Broadcast/Admitted.antt =====
-- Whatever is called, the limits are kept (core/transport/ipc_broadcaster.py).
use claudecode_lite_main.Prelude.{
  any, ℕ, ◌<◌, String, str_eq, List, [], ◌∷◌, ◌++◌, Option, none, some, Bool, true, false, ◌≡◌,
  refl, sym, inl, inr, arith, length-append, count-append, All, if◌then◌else◌, Bool-cases,
  Option-cases, ◌==◌, ◌&&◌,
}
use claudecode_lite_main.Journal.Stream.{Event, JournalRecord}
use claudecode_lite_main.Broadcast.State.{
  Phase, catching_up, active, terminal, sending, Envelope, Subscription, Wire, Broadcaster, find,
  unsubscribe_all, unsubscribe, remember_global_event,
}
use claudecode_lite_main.Broadcast.Publish.{
  moved, matches_topic, of_stream, publish_durable, publish_live_only, refusal, subscribe, register,
  durable_subscription, activate_replay, replay_read, fail_stream, fail_stream_loop, fail_replay,
  replay_step, live_envelope, publish_live_to, publish_live_loop,
}
use claudecode_lite_main.Broadcast.State.{max_subscriptions_per_connection, new_broadcaster}
use claudecode_lite_main.Broadcast.Limits.{
  IsSmall, owned, IsWithin, put-IsWithin, All-find, Within, terminate-Within,
  terminate_owned-Within,
}
use claudecode_lite_main.Broadcast.Deliveries.{
  There, fail_replay-Within, publish_loop-Within, activate_replay-Within, replay_step-Within,
}
use claudecode_lite_main.Broadcast.Publish.{live_envelope, publish_live_to, publish_live_loop}

All-snoc :
    (frame_size : Envelope → Option ℕ) (ss : List Subscription) (s : Subscription)
    → All (IsSmall frame_size) ss
    → IsSmall frame_size s
    → All (IsSmall frame_size) (ss ++ s ∷ [])
All-snoc frame_size [] s h k = (k, tt)
All-snoc frame_size (x ∷ ss) s (h, hs) k = (h, All-snoc frame_size ss s hs k)

module _ {Conn : Type 0} (wire : Wire Conn) (fnmatch : String → String → Bool) where
  -- The tests of `_enforce_subscription_limits` leave room for one more.
  snoc-Within :
      (s : Subscription) (b : Broadcaster Conn)
      → refusal wire fnmatch s.context b ≡ none
      → IsSmall wire.frame_size s
      → Within wire b
      → IsWithin wire.frame_size (b.subscriptions ++ s ∷ [])
  unfolding refusal
  snoc-Within s b h k v = record {
    total = ground (arith, length-append b.subscriptions (s ∷ []), h);
    per_connection = λ c. elim (Bool-cases (s.context == c)) [
      | inl e ↦
          let same : s.context ≡ c = ground arith in
          let room : owned s.context b.subscriptions < max_subscriptions_per_connection =
            ground (arith, h) in
          let own : owned c b.subscriptions < max_subscriptions_per_connection =
            rw (sym same) room in
          ground (arith, own, count-append (λ x. x.context == c) b.subscriptions (s ∷ []))
      | inr e ↦ ground (
        arith,
        v.per_connection c,
        e,
        count-append (λ x. x.context == c) b.subscriptions (s ∷ []),
      )
    ];
    small = All-snoc wire.frame_size b.subscriptions s v.small k;
  }

  subscribe-Within :
      (context : ℕ) (topics : List String) (scope i : String) (b : Broadcaster Conn)
      → Within wire b
      → Within wire (subscribe wire fnmatch context topics scope i b).0
  unfolding subscribe
  subscribe-Within context topics scope i b v =
      elim (Option-cases (refusal wire fnmatch context b)) [
        | inr (x, e) ↦ simp (subscribe, e) v
        | inl e ↦ simp (subscribe, e) (snoc-Within _ b e (omega arith, omega arith, refl) v)
      ]

  register-Within :
      (context : ℕ) (topics : List String) (stream_id i : String) (high : ℕ) (b : Broadcaster Conn)
      → Within wire b
      → Within wire (register wire fnmatch context topics stream_id i high b).0
  unfolding register
  register-Within context topics stream_id i high b v =
      elim (Option-cases (refusal wire fnmatch context b)) [
        | inr (x, e) ↦ simp (register, e) v
        | inl e ↦
            simp (register, e)
              (snoc-Within (durable_subscription wire fnmatch context topics stream_id i high) b e
                (omega arith, omega arith, refl) v)
      ]

  publish_live_to-Within :
      (event : Event) (s : Subscription) (b : Broadcaster Conn)
      → Within wire b
      → Within wire (publish_live_to wire fnmatch event s b)
  unfolding publish_live_to unsubscribe_all
  publish_live_to-Within event s b v =
      elim (Bool-cases (str_eq s.scope "global" && matches_topic fnmatch event.type s.topics)) [
        | inr e ↦ simp (publish_live_to, e) v
        | inl e ↦ simp (publish_live_to, e) (by_phase s.phase)
      ]
    where
      envelope : Envelope
      envelope = live_envelope s.sub_id event

      answer : Conn × Bool
      answer = wire.enqueue_event envelope (b.connections s.context)

      reached : Broadcaster Conn
      reached = record b { connections = moved s.context answer.0 b.connections }

      delivered : Broadcaster Conn
      delivered =
          if answer.1
          then record reached { sent = reached.sent ++ envelope ∷ [] }
          else unsubscribe_all s.context reached

      delivered-Within :
          (taken : Bool)
          → Within wire (
              if taken
              then record reached { sent = reached.sent ++ envelope ∷ [] }
              else unsubscribe_all s.context reached)
      delivered-Within true = v
      delivered-Within false = terminate_owned-Within wire s.context b.subscriptions reached v

      by_phase :
          (p : Phase)
          → Within wire (elim p as (λ p. Broadcaster Conn) [ active ↦ delivered | _ ↦ b ])
      by_phase active = delivered-Within answer.1
      by_phase catching_up = v
      by_phase terminal = v

  publish_live_loop-Within :
      (event : Event) (ss : List Subscription) (b : Broadcaster Conn)
      → Within wire b
      → Within wire (publish_live_loop wire fnmatch event ss b)
  unfolding publish_live_loop
  publish_live_loop-Within event [] b v = v
  publish_live_loop-Within event (s ∷ ss) b v =
      elim (Option-cases (find s.sub_id b.subscriptions)) [
        | inl e ↦ simp (publish_live_loop, e) (publish_live_loop-Within event ss b v)
        | inr (t, e) ↦
            simp (publish_live_loop, e)
              (publish_live_loop-Within event ss (publish_live_to wire fnmatch event t b)
                (publish_live_to-Within event t b v))
      ]

  fail_stream_loop-Within :
      (stream_id : String) (ss : List Subscription) (b : Broadcaster Conn)
      → Within wire b
      → Within wire (fail_stream_loop wire fnmatch stream_id ss b)
  unfolding fail_stream_loop
  fail_stream_loop-Within stream_id [] b v = v
  fail_stream_loop-Within stream_id (s ∷ ss) b v =
      elim (Bool-cases (of_stream s.stream_id stream_id)) [
        | inl e ↦
            simp (fail_stream_loop, e)
              (fail_stream_loop-Within stream_id ss (fail_replay wire fnmatch s b)
                (fail_replay-Within wire fnmatch s b v))
        | inr e ↦ simp (fail_stream_loop, e) (fail_stream_loop-Within stream_id ss b v)
      ]

  publish_durable-Within :
      (r : JournalRecord) (b : Broadcaster Conn)
      → Within wire b
      → Within wire (publish_durable wire fnmatch r b)
  unfolding publish_durable
  publish_durable-Within r b v =
      let known = remember_global_event r.event_id b in
      publish_loop-Within wire fnmatch known.1 r known.0.subscriptions known.0
        (remembered r.event_id b v)
    where
      remembered :
          (e : String) (b : Broadcaster Conn)
          → Within wire b
          → Within wire (remember_global_event e b).0
      remembered e b v = elim (Bool-cases (any (λ x. str_eq x e) b.global_event_ids)) [
        | inl h ↦ simp (remember_global_event, h) v
        | inr h ↦ simp (remember_global_event, h) v
      ]

  unsubscribe-Within :
      (context : ℕ) (i : String) (b : Broadcaster Conn)
      → Within wire b
      → Within wire (unsubscribe context i b).0
  unfolding unsubscribe
  unsubscribe-Within context i b v = elim (Option-cases (find i b.subscriptions)) [
    | inl e ↦ simp (unsubscribe, e) v
    | inr (s, e) ↦ elim (Bool-cases (s.context == context)) [
      | inl o ↦ simp (unsubscribe, e, o) (terminate-Within wire i b v)
      | inr o ↦ simp (unsubscribe, e, o) v
    ]
  ]

  -- Every call of the broadcaster, and every turn of a replay task.
  pub data Call : Broadcaster Conn → Broadcaster Conn → Type 0 where
    subscribes :
        {b : Broadcaster Conn} (context : ℕ) (topics : List String) (scope i : String)
        → Call b (subscribe wire fnmatch context topics scope i b).0
    registers :
        {b : Broadcaster Conn} (context : ℕ) (topics : List String) (stream_id i : String)
        (high : ℕ)
        → Call b (register wire fnmatch context topics stream_id i high b).0
    publishes :
        {b : Broadcaster Conn} (r : JournalRecord) → Call b (publish_durable wire fnmatch r b)
    publishes_live :
        {b : Broadcaster Conn} (e : Event) → Call b (publish_live_only wire fnmatch e b)
    activates :
        {b : Broadcaster Conn} (i : String) (n : ℕ) → Call b (activate_replay wire fnmatch i n b)
    reads :
        {b : Broadcaster Conn} (found : Option (List JournalRecord)) (s : Subscription)
        → There s b
        → Call b (replay_read wire fnmatch found s b)
    turns : {b : Broadcaster Conn} (i : String) → Call b (replay_step wire fnmatch i b)
    fails : {b : Broadcaster Conn} (s : Subscription) → Call b (fail_replay wire fnmatch s b)
    unsubscribes :
        {b : Broadcaster Conn} (context : ℕ) (i : String) → Call b (unsubscribe context i b).0
    disconnects : {b : Broadcaster Conn} (context : ℕ) → Call b (unsubscribe_all context b)
    fails_stream :
        {b : Broadcaster Conn} (stream_id : String) → Call b (fail_stream wire fnmatch stream_id b)

  pub data Calls (b : Broadcaster Conn) : Broadcaster Conn → Type 0 where
    none_made : Calls b b
    then_call : {c d : Broadcaster Conn} → Calls b c → Call c d → Calls b d

  Call-Within : (b c : Broadcaster Conn) → Call b c → Within wire b → Within wire c
  unfolding publish_live_only replay_read unsubscribe_all fail_stream
  Call-Within b _ (subscribes context topics scope i) v =
      subscribe-Within context topics scope i b v
  Call-Within b _ (registers context topics stream_id i high) v =
      register-Within context topics stream_id i high b v
  Call-Within b _ (publishes r) v = publish_durable-Within r b v
  Call-Within b _ (publishes_live e) v = publish_live_loop-Within e b.subscriptions b v
  Call-Within b _ (activates i n) v = activate_replay-Within wire fnmatch i n b v
  Call-Within b _ (reads none s h) v = fail_replay-Within wire fnmatch s b v
  Call-Within b _ (reads (some found) s h) v =
      put-IsWithin wire.frame_size s (record s { replay_task = sending found }) b.subscriptions h
        refl (All-find wire.frame_size s.sub_id s b.subscriptions h v.small) v
  Call-Within b _ (turns i) v = replay_step-Within wire fnmatch i b v
  Call-Within b _ (fails s) v = fail_replay-Within wire fnmatch s b v
  Call-Within b _ (unsubscribes context i) v = unsubscribe-Within context i b v
  Call-Within b _ (disconnects context) v = terminate_owned-Within wire context b.subscriptions b v
  Call-Within b _ (fails_stream stream_id) v = fail_stream_loop-Within stream_id b.subscriptions b v

  Calls-Within : (b c : Broadcaster Conn) → Calls b c → Within wire b → Within wire c
  Calls-Within b _ none_made v = v
  Calls-Within b c (then_call {c = m} cs k) v = Call-Within m c k (Calls-Within b m cs v)

  -- Whatever is called on a new broadcaster, it has at most 256 subscriptions and 16 for each connection; every
  -- catch-up buffer holds at most 512 records, whose encoded frames take at most 4 MiB together, and its count of
  -- bytes is just what they take.
  pub broadcaster-IsWithin :
      (connections : ℕ → Conn) (b : Broadcaster Conn)
      → Calls (new_broadcaster connections) b
      → IsWithin wire.frame_size b.subscriptions
  unfolding new_broadcaster
  broadcaster-IsWithin connections b cs =
      Calls-Within (new_broadcaster connections) b cs
        (record { total = omega arith; per_connection = λ c. omega arith; small = tt })
