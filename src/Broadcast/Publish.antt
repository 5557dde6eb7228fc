-- ===== src/Broadcast/Publish.antt =====
-- core/transport/ipc_broadcaster.py: subscribing, publishing and replaying.
use claudecode_lite_main.Prelude.{
  ℕ, ◌+◌, ◌-◌, String, str_eq, starts_with, List, [], ◌∷◌, ◌++◌, Option, none, some, Bool, true,
  false, ◌&&◌, ◌||◌, ltb, leb, length, ◌==◌, not, count, any, if◌then◌else◌, min,
}
use claudecode_lite_main.Prelude.Int.{ℤ, to_nat}
use claudecode_lite_main.Journal.Stream.{Event, JournalRecord}
use claudecode_lite_main.Broadcast.State.{
  catchup_buffer_max_frames, catchup_buffer_max_bytes, catchup_max_single_frame_bytes,
  max_subscriptions_per_connection, max_total_subscriptions, catching_up, active, terminal,
  Delivery, replay, live, Envelope, no_task, reading, sending, finished, Subscription, Wire,
  Broadcaster, find, put, envelope_of, terminate_subscription, unsubscribe_all,
  remember_global_event,
}

-- Why a subscription is refused.
pub data Refusal : Type 0 where
  not_open global_limit connection_limit : Refusal

-- What `prepare_durable_subscription` answers, less the id and the stream that it was given.
pub record Prepared : Type 0 where
  pub accepted_after_seq : ℕ
  pub high_watermark_seq : ℕ

abbrev pub moved : {Conn : Type 0} → ℕ → Conn → (ℕ → Conn) → ℕ → Conn
moved context c connections n = if n == context then c else connections n

unfoldable pub matches_topic : (String → String → Bool) → String → List String → Bool
matches_topic fnmatch event_type topics = any (λ pattern. fnmatch event_type pattern) topics

abbrev pub of_stream : Option String → String → Bool
of_stream none stream_id = false
of_stream (some own) stream_id = str_eq own stream_id

-- The envelope of `publish_live_only`.
abbrev pub live_envelope : String → Event → Envelope
live_envelope sub_id event = record {
  subscription_id = sub_id;
  delivery = live;
  event_id = none;
  stream_id = none;
  seq = none;
  event = event;
}

module _ {Conn : Type 0} (wire : Wire Conn) (fnmatch : String → String → Bool) where
  unfoldable pub close_connection : ℕ → Broadcaster Conn → Broadcaster Conn
  close_connection context b = record b {
    connections = moved context (wire.initiate_close (b.connections context)) b.connections;
  }

  -- `ensure_open_for_subscription`, then `_enforce_subscription_limits`.
  unfoldable pub refusal : ℕ → Broadcaster Conn → Option Refusal
  refusal context b =
      if not (wire.is_open (b.connections context))
      then some not_open
      else if leb max_total_subscriptions (length b.subscriptions)
      then some global_limit
      else if leb max_subscriptions_per_connection
          (count (λ s. s.context == context) b.subscriptions)
      then some connection_limit
      else none

  unfoldable pub subscribe :
      ℕ → List String → String → String → Broadcaster Conn → Broadcaster Conn × Option Refusal
  unfolding refusal
  subscribe context topics scope sub_id b = elim (refusal context b) [
    | some r ↦ (b, some r)
    | none ↦
        let s : Subscription = record {
          sub_id = sub_id;
          context = context;
          topics = topics;
          scope = scope;
          stream_id =
              if starts_with "run:" scope || starts_with "session:" scope then some scope else none;
          phase = active;
          high_watermark = 0;
          catchup = [];
          catchup_bytes = 0;
          replay_task = no_task;
          stop_event = false;
        } in
        (record b { subscriptions = b.subscriptions ++ s ∷ [] }, none)
  ]

  abbrev pub durable_subscription : ℕ → List String → String → String → ℕ → Subscription
  durable_subscription context topics stream_id sub_id high_watermark = record {
    sub_id = sub_id;
    context = context;
    topics = topics;
    scope = stream_id;
    stream_id = some stream_id;
    phase = catching_up;
    high_watermark = high_watermark;
    catchup = [];
    catchup_bytes = 0;
    replay_task = no_task;
    stop_event = false;
  }

  -- `register`, which runs within the journal's lock of the stream.
  unfoldable pub register :
      ℕ → List String → String → String → ℕ → Broadcaster Conn → Broadcaster Conn × Option Refusal
  unfolding refusal
  register context topics stream_id sub_id high_watermark b = elim (refusal context b) [
    | some r ↦ (b, some r)
    | none ↦
        let s = durable_subscription context topics stream_id sub_id high_watermark in
        (record b { subscriptions = b.subscriptions ++ s ∷ [] }, none)
  ]

  -- The end of `prepare_durable_subscription`.
  unfoldable pub prepared : ℤ → ℕ → Prepared
  prepared after_seq high_watermark = record {
    accepted_after_seq = min (to_nat after_seq) high_watermark;
    high_watermark_seq = high_watermark;
  }

  -- `_enqueue_delivery`: whether the connection took the frame.
  unfoldable pub enqueue_delivery :
      Subscription → Delivery → JournalRecord → Broadcaster Conn → Broadcaster Conn × Bool
  unfolding unsubscribe_all
  enqueue_delivery s delivery r b =
      let envelope = envelope_of s.sub_id delivery r in
      let answer = wire.enqueue_event envelope (b.connections s.context) in
      let reached = record b { connections = moved s.context answer.0 b.connections } in
      if answer.1
      then (record reached { sent = reached.sent ++ envelope ∷ [] }, true)
      else (unsubscribe_all s.context reached, false)

  abbrev pub with_catchup : JournalRecord → ℕ → Subscription → Option Subscription
  with_catchup r size s =
      if ltb catchup_max_single_frame_bytes size
      then none
      else if leb catchup_buffer_max_frames (length s.catchup)
          || ltb catchup_buffer_max_bytes (s.catchup_bytes + size)
      then none
      else some (record s { catchup = s.catchup ++ r ∷ []; catchup_bytes = s.catchup_bytes + size })

  unfoldable pub buffer_catchup : JournalRecord → Subscription → Option Subscription
  buffer_catchup r s = elim (wire.frame_size (envelope_of s.sub_id live r)) [
    | none ↦ none
    | some size ↦ with_catchup r size s
  ]

  -- The branch of `publish_durable` for a subscription that is catching up.
  unfoldable pub catch_up : JournalRecord → Subscription → Broadcaster Conn → Broadcaster Conn
  unfolding buffer_catchup put terminate_subscription close_connection
  catch_up r s b =
      let buffered = elim (buffer_catchup r s) as (λ o. Broadcaster Conn) [
        | none ↦ close_connection s.context (terminate_subscription s.sub_id b)
        | some t ↦ record b { subscriptions = put t b.subscriptions }
      ] in
      if leb r.seq s.high_watermark then b else buffered

  -- The guards of the loop in `publish_durable`.
  unfoldable pub wants : Bool → JournalRecord → Subscription → Bool
  unfolding matches_topic
  wants deliver_global r s =
      (if str_eq s.scope "global" then deliver_global else of_stream s.stream_id r.stream_id)
      && matches_topic fnmatch r.event.type s.topics

  -- One turn of that loop.
  unfoldable pub publish_to :
      Bool → JournalRecord → Subscription → Broadcaster Conn → Broadcaster Conn
  unfolding wants catch_up enqueue_delivery
  publish_to deliver_global r s b =
      let delivered = elim s.phase as (λ p. Broadcaster Conn) [
        | terminal ↦ b
        | catching_up ↦ catch_up r s b
        | active ↦ (enqueue_delivery s live r b).0
      ] in
      if wants deliver_global r s then delivered else b

  -- The loop runs over a copy of the list. A subscription that is no longer in the list is terminal.
  unfoldable pub publish_loop :
      Bool → JournalRecord → List Subscription → Broadcaster Conn → Broadcaster Conn
  unfolding publish_to find
  publish_loop deliver_global r [] b = b
  publish_loop deliver_global r (s ∷ ss) b =
      publish_loop deliver_global r ss (elim (find s.sub_id b.subscriptions) [
        | none ↦ b
        | some t ↦ publish_to deliver_global r t b
      ])

  unfoldable pub publish_durable : JournalRecord → Broadcaster Conn → Broadcaster Conn
  unfolding publish_loop remember_global_event
  publish_durable r b =
      let known = remember_global_event r.event_id b in
      publish_loop known.1 r known.0.subscriptions known.0

  -- A turn of `publish_live_only`.
  unfoldable pub publish_live_to : Event → Subscription → Broadcaster Conn → Broadcaster Conn
  unfolding matches_topic unsubscribe_all
  publish_live_to event s b =
      let answer = wire.enqueue_event (live_envelope s.sub_id event) (b.connections s.context) in
      let reached = record b { connections = moved s.context answer.0 b.connections } in
      let accepted = record reached { sent = reached.sent ++ live_envelope s.sub_id event ∷ [] } in
      let delivered = if answer.1 then accepted else unsubscribe_all s.context reached in
      let sent_or_not = elim s.phase as (λ p. Broadcaster Conn) [ active ↦ delivered | _ ↦ b ] in
      if str_eq s.scope "global" && matches_topic fnmatch event.type s.topics
      then sent_or_not
      else b

  unfoldable pub publish_live_loop : Event → List Subscription → Broadcaster Conn → Broadcaster Conn
  unfolding publish_live_to find
  publish_live_loop event [] b = b
  publish_live_loop event (s ∷ ss) b =
      publish_live_loop event ss
        (elim (find s.sub_id b.subscriptions) [ none ↦ b | some t ↦ publish_live_to event t b ])

  -- `publish_live_only`, and `handle`.
  unfoldable pub publish_live_only : Event → Broadcaster Conn → Broadcaster Conn
  unfolding publish_live_loop
  publish_live_only event b = publish_live_loop event b.subscriptions b

  -- A replay task that fails.
  unfoldable pub fail_replay : Subscription → Broadcaster Conn → Broadcaster Conn
  unfolding terminate_subscription close_connection
  fail_replay s b = close_connection s.context (terminate_subscription s.sub_id b)

  unfoldable pub activate_replay : String → ℕ → Broadcaster Conn → Broadcaster Conn
  unfolding find put
  activate_replay i after_seq b = elim (find i b.subscriptions) [
    | none ↦ b
    | some s ↦ elim s.phase [
      | catching_up ↦
          if wire.is_open (b.connections s.context)
          then record b {
            subscriptions = put (record s { replay_task = reading after_seq }) b.subscriptions;
          }
          else b
      | _ ↦ b
    ]
  ]

  -- `read_replay` returned, or raised.
  unfoldable pub replay_read :
      Option (List JournalRecord) → Subscription → Broadcaster Conn → Broadcaster Conn
  unfolding put fail_replay
  replay_read none s b = fail_replay s b
  replay_read (some batch) s b = record b {
    subscriptions = put (record s { replay_task = sending batch }) b.subscriptions;
  }

  -- A delivery of the replay task; the task is cancelled or fails if the connection does not take it.
  unfoldable pub replay_delivery :
      Delivery → JournalRecord → Subscription → Broadcaster Conn → Broadcaster Conn
  unfolding enqueue_delivery fail_replay
  replay_delivery delivery r s b =
      let answer = enqueue_delivery s delivery r b in
      if answer.1 then answer.0 else fail_replay s answer.0

  -- A turn of `for record in batch.records`.
  unfoldable pub replay_turn :
      JournalRecord → List JournalRecord → Subscription → Broadcaster Conn → Broadcaster Conn
  unfolding put matches_topic replay_delivery
  replay_turn r rest s b =
      let t = record s { replay_task = sending rest } in
      let moved_on = record b { subscriptions = put t b.subscriptions } in
      if matches_topic fnmatch r.event.type s.topics
      then replay_delivery replay r t moved_on
      else moved_on

  abbrev pub drained : JournalRecord → List JournalRecord → ℕ → Subscription → Subscription
  drained r rest size s = record s { catchup = rest; catchup_bytes = s.catchup_bytes - size }

  -- A turn of `while True`.
  unfoldable pub drain_turn :
      List JournalRecord → Subscription → Broadcaster Conn → Broadcaster Conn
  unfolding put replay_delivery fail_replay
  drain_turn [] s b = record b {
    subscriptions = put (record s { phase = active; replay_task = finished }) b.subscriptions;
  }
  drain_turn (r ∷ rest) s b = elim (wire.frame_size (envelope_of s.sub_id live r)) [
    | none ↦ fail_replay s b
    | some size ↦
        let t = drained r rest size s in
        replay_delivery live r t (record b { subscriptions = put t b.subscriptions })
  ]

  -- One turn of `_run_replay` behind the reading.
  unfoldable pub replay_step : String → Broadcaster Conn → Broadcaster Conn
  unfolding find replay_turn drain_turn
  replay_step i b = elim (find i b.subscriptions) [
    | none ↦ b
    | some s ↦ elim s.replay_task [
      | sending [] ↦ drain_turn s.catchup s b
      | sending (r ∷ rest) ↦ replay_turn r rest s b
      | _ ↦ b
    ]
  ]

  unfoldable pub fail_stream_loop : String → List Subscription → Broadcaster Conn → Broadcaster Conn
  unfolding fail_replay
  fail_stream_loop stream_id [] b = b
  fail_stream_loop stream_id (s ∷ ss) b =
      let failed = fail_stream_loop stream_id ss (fail_replay s b) in
      let kept = fail_stream_loop stream_id ss b in
      if of_stream s.stream_id stream_id then failed else kept

  unfoldable pub fail_stream : String → Broadcaster Conn → Broadcaster Conn
  unfolding fail_stream_loop
  fail_stream stream_id b = fail_stream_loop stream_id b.subscriptions b
