-- ===== src/Broadcast/Deliveries.antt =====
-- Deliveries and replays keep the limits (core/transport/ipc_broadcaster.py).
use mathlib.Core.Path.{subst}
use claudecode_lite_main.Prelude.{
  ℕ, ◌+◌, ◌≤◌, ◌<◌, ◌++◌, Option, none, String, List, [], ◌∷◌, some, Bool, ◌≡◌, refl, ap, ◌∙◌, inl,
  inr, arith, length, length-append, if◌then◌else◌, Bool-cases, Option-cases, leb,
}
use claudecode_lite_main.Journal.Stream.{JournalRecord}
use claudecode_lite_main.Broadcast.State.{
  catchup_buffer_max_frames, catchup_buffer_max_bytes, Envelope, Phase, catching_up, active,
  terminal, Delivery, live, replay, ReplayTask, no_task, reading, sending, finished, cancelled,
  Subscription, Wire, Broadcaster, find, put, envelope_of, unsubscribe_all,
}
use claudecode_lite_main.Broadcast.Publish.{
  moved, matches_topic, close_connection, enqueue_delivery, with_catchup, buffer_catchup, catch_up,
  wants, publish_to, publish_loop, activate_replay, fail_replay, replay_delivery, replay_turn,
  drained, drain_turn, replay_step,
}
use claudecode_lite_main.Broadcast.Limits.{
  size_or_none, encoded_bytes, IsSmall, put-IsWithin, All-find, Within, own_find, terminate-Within,
  terminate_owned-Within,
}

-- A subscription that is there, within its limits.
abbrev pub There : {Conn : Type 0} → Subscription → Broadcaster Conn → Type 0
There s b = find s.sub_id b.subscriptions ≡ some s

encoded_bytes-snoc :
    (frame_size : Envelope → Option ℕ) (i : String) (rs : List JournalRecord) (r : JournalRecord)
    → encoded_bytes frame_size i (rs ++ r ∷ [])
      ≡ encoded_bytes frame_size i rs + size_or_none (frame_size (envelope_of i live r))
encoded_bytes-snoc frame_size i [] r = omega arith
encoded_bytes-snoc frame_size i (x ∷ rs) r = omega (arith, encoded_bytes-snoc frame_size i rs r)

-- The subscription with a record more in its buffer.
abbrev longer : JournalRecord → ℕ → Subscription → Subscription
longer r size s = record s { catchup = s.catchup ++ r ∷ []; catchup_bytes = s.catchup_bytes + size }

module _ {Conn : Type 0} (wire : Wire Conn) (fnmatch : String → String → Bool) where
  enqueue_delivery-Within :
      (s : Subscription) (d : Delivery) (r : JournalRecord) (b : Broadcaster Conn)
      → Within wire b
      → Within wire (enqueue_delivery wire fnmatch s d r b).0
  unfolding enqueue_delivery unsubscribe_all
  enqueue_delivery-Within s d r b v =
      let answer = wire.enqueue_event (envelope_of s.sub_id d r) (b.connections s.context) in
      let reached : Broadcaster Conn = record b {
        connections = moved s.context answer.0 b.connections;
      } in
      elim (Bool-cases answer.1) [
        | inl e ↦ simp (enqueue_delivery, e) v
        | inr e ↦
            simp (enqueue_delivery, e)
              (terminate_owned-Within wire s.context b.subscriptions reached v)
      ]

  pub fail_replay-Within :
      (s : Subscription) (b : Broadcaster Conn)
      → Within wire b
      → Within wire (fail_replay wire fnmatch s b)
  unfolding fail_replay close_connection
  fail_replay-Within s b v = terminate-Within wire s.sub_id b v

  with_catchup-some :
      (r : JournalRecord) (size : ℕ) (s t : Subscription)
      → with_catchup wire fnmatch r size s ≡ some t
      → (longer r size s ≡ t)
        × (length s.catchup < catchup_buffer_max_frames)
        × (s.catchup_bytes + size ≤ catchup_buffer_max_bytes)
  with_catchup-some r size s t h = ground (arith, h)

  buffer_catchup-IsSmall :
      (r : JournalRecord) (s t : Subscription)
      → IsSmall wire.frame_size s
      → buffer_catchup wire fnmatch r s ≡ some t
      → IsSmall wire.frame_size t × (t.sub_id ≡ s.sub_id) × (t.context ≡ s.context)
  unfolding buffer_catchup
  buffer_catchup-IsSmall r s t k h =
      elim (Option-cases (wire.frame_size (envelope_of s.sub_id live r))) [
        | inl f ↦ let nothing : none ≡ some t = rw (f, buffer_catchup) at h in cc
        | inr (size, f) ↦
            let put_in : with_catchup wire fnmatch r size s ≡ some t =
              rw (f, buffer_catchup) at h in
            let (same, few, small) = with_catchup-some r size s t put_in in
            let frames = length-append s.catchup (r ∷ []) in
            let bytes = encoded_bytes-snoc wire.frame_size s.sub_id s.catchup r in
            let own : size_or_none (wire.frame_size (envelope_of s.sub_id live r)) ≡ size =
              rw f refl in
            subst (λ u. IsSmall wire.frame_size u × (u.sub_id ≡ s.sub_id) × (u.context ≡ s.context))
              same ((omega (arith, few), omega (arith, k.2), omega (arith, k.2)), refl, refl)
      ]

  catch_up-Within :
      (r : JournalRecord) (s : Subscription) (b : Broadcaster Conn)
      → There s b
      → Within wire b
      → Within wire (catch_up wire fnmatch r s b)
  unfolding catch_up fail_replay
  catch_up-Within r s b h v = elim (Bool-cases (leb r.seq s.high_watermark)) [
    | inl e ↦ simp (catch_up, e) v
    | inr e ↦ elim (Option-cases (buffer_catchup wire fnmatch r s)) [
      | inl o ↦ simp (catch_up, e, o) (fail_replay-Within s b v)
      | inr (t, o) ↦
          let small = All-find wire.frame_size s.sub_id s b.subscriptions h v.small in
          let k = buffer_catchup-IsSmall r s t small o in
          simp (catch_up, e, o)
            (put-IsWithin wire.frame_size s t b.subscriptions
              (ap (λ j. find j b.subscriptions) k.1 ∙ h) k.2 k.0 v)
    ]
  ]

  publish_to-Within :
      (dg : Bool) (r : JournalRecord) (s : Subscription) (b : Broadcaster Conn)
      → There s b
      → Within wire b
      → Within wire (publish_to wire fnmatch dg r s b)
  unfolding publish_to
  publish_to-Within dg r s b h v = elim (Bool-cases (wants wire fnmatch dg r s)) [
    | inr e ↦ simp (publish_to, e) v
    | inl e ↦ simp (publish_to, e) (by_phase s.phase)
  ]
    where
      by_phase :
          (p : Phase)
          → Within wire (elim p as (λ p. Broadcaster Conn) [
            | terminal ↦ b
            | catching_up ↦ catch_up wire fnmatch r s b
            | active ↦ (enqueue_delivery wire fnmatch s live r b).0
          ])
      by_phase terminal = v
      by_phase catching_up = catch_up-Within r s b h v
      by_phase active = enqueue_delivery-Within s live r b v

  pub publish_loop-Within :
      (dg : Bool) (r : JournalRecord) (ss : List Subscription) (b : Broadcaster Conn)
      → Within wire b
      → Within wire (publish_loop wire fnmatch dg r ss b)
  unfolding publish_loop
  publish_loop-Within dg r [] b v = v
  publish_loop-Within dg r (s ∷ ss) b v = elim (Option-cases (find s.sub_id b.subscriptions)) [
    | inl e ↦ simp (publish_loop, e) (publish_loop-Within dg r ss b v)
    | inr (t, e) ↦
        simp (publish_loop, e)
          (publish_loop-Within dg r ss (publish_to wire fnmatch dg r t b)
            (publish_to-Within dg r t b (own_find s.sub_id t b.subscriptions e) v))
  ]

  pub activate_replay-Within :
      (i : String) (n : ℕ) (b : Broadcaster Conn)
      → Within wire b
      → Within wire (activate_replay wire fnmatch i n b)
  unfolding activate_replay
  activate_replay-Within i n b v = elim (Option-cases (find i b.subscriptions)) [
    | inl e ↦ simp (activate_replay, e) v
    | inr (s, e) ↦ simp (activate_replay, e) (by_phase s e s.phase)
  ]
    where
      by_phase :
          (s : Subscription)
          → find i b.subscriptions ≡ some s
          → (p : Phase)
          → Within wire (elim p as (λ p. Broadcaster Conn) [
            | catching_up ↦
                if wire.is_open (b.connections s.context)
                then record b {
                  subscriptions = put (record s { replay_task = reading n }) b.subscriptions;
                }
                else b
            | _ ↦ b
          ])
      by_phase s e active = v
      by_phase s e terminal = v
      by_phase s e catching_up = elim (Bool-cases (wire.is_open (b.connections s.context))) [
        | inr o ↦ simp o v
        | inl o ↦ simp o (
            put-IsWithin wire.frame_size s (record s { replay_task = reading n }) b.subscriptions
              (own_find i s b.subscriptions e) refl
              (All-find wire.frame_size i s b.subscriptions e v.small) v)
      ]

  replay_delivery-Within :
      (d : Delivery) (r : JournalRecord) (s : Subscription) (b : Broadcaster Conn)
      → Within wire b
      → Within wire (replay_delivery wire fnmatch d r s b)
  unfolding replay_delivery
  replay_delivery-Within d r s b v =
      let k = enqueue_delivery-Within s d r b v in
      elim (Bool-cases (enqueue_delivery wire fnmatch s d r b).1) [
        | inl e ↦ simp (replay_delivery, e) k
        | inr e ↦
            simp (replay_delivery, e)
              (fail_replay-Within s (enqueue_delivery wire fnmatch s d r b).0 k)
      ]

  module _ (s : Subscription) (b : Broadcaster Conn) (h : There s b) (k : IsSmall wire.frame_size s)
      (v : Within wire b) where
    replay_turn-Within :
        (r : JournalRecord) (rest : List JournalRecord)
        → Within wire (replay_turn wire fnmatch r rest s b)
    unfolding replay_turn
    replay_turn-Within r rest =
        let t = record s { replay_task = sending rest } in
        let c : Broadcaster Conn = record b { subscriptions = put t b.subscriptions } in
        let w = put-IsWithin wire.frame_size s t b.subscriptions h refl k v in
        elim (Bool-cases (matches_topic fnmatch r.event.type s.topics)) [
          | inl e ↦ simp (replay_turn, e) (replay_delivery-Within replay r t c w)
          | inr e ↦ simp (replay_turn, e) w
        ]

    drain_turn-Within :
        (cs : List JournalRecord) → s.catchup ≡ cs → Within wire (drain_turn wire fnmatch cs s b)
    unfolding drain_turn
    drain_turn-Within [] e =
        put-IsWithin wire.frame_size s (record s { phase = active; replay_task = finished })
          b.subscriptions h refl k v
    drain_turn-Within (r ∷ rest) e =
        elim (Option-cases (wire.frame_size (envelope_of s.sub_id live r))) [
          | inl f ↦ simp (drain_turn, f) (fail_replay-Within s b v)
          | inr (size, f) ↦
              let t = drained wire fnmatch r rest size s in
              let l : length s.catchup ≡ length (r ∷ rest) = ap length e in
              let bytes : encoded_bytes wire.frame_size s.sub_id s.catchup
                  ≡ encoded_bytes wire.frame_size s.sub_id (r ∷ rest) =
                ap (encoded_bytes wire.frame_size s.sub_id) e in
              let own : size_or_none (wire.frame_size (envelope_of s.sub_id live r)) ≡ size =
                rw f refl in
              simp (drain_turn, f)
                (replay_delivery-Within live r t
                  (record b { subscriptions = put t b.subscriptions })
                  (put-IsWithin wire.frame_size s t b.subscriptions h refl
                    (omega (arith, k.0, l), omega (arith, k.1), omega (arith, k.2)) v))
        ]

    by_task :
        (task : ReplayTask)
        → Within wire (elim task as (λ t. Broadcaster Conn) [
          | sending [] ↦ drain_turn wire fnmatch s.catchup s b
          | sending (r ∷ rest) ↦ replay_turn wire fnmatch r rest s b
          | _ ↦ b
        ])
    by_task no_task = v
    by_task (reading n) = v
    by_task (sending []) = drain_turn-Within s.catchup refl
    by_task (sending (r ∷ rest)) = replay_turn-Within r rest
    by_task finished = v
    by_task cancelled = v

  pub replay_step-Within :
      (i : String) (b : Broadcaster Conn)
      → Within wire b
      → Within wire (replay_step wire fnmatch i b)
  unfolding replay_step
  replay_step-Within i b v = elim (Option-cases (find i b.subscriptions)) [
    | inl e ↦ simp (replay_step, e) v
    | inr (s, e) ↦
        simp (replay_step, e)
          (by_task s b (own_find i s b.subscriptions e)
            (All-find wire.frame_size i s b.subscriptions e v.small) v s.replay_task)
  ]
