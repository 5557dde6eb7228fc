-- ===== src/Broadcast/State.antt =====
-- core/transport/ipc_broadcaster.py, `IpcEventBroadcaster`: its subscriptions and the delivery of events. What it
-- needs of a connection is the record `Wire`; `fnmatch` is a parameter. A replay task is cut where it waits. The
-- trace is left out.
use claudecode_lite_main.Prelude.{
  ℕ, ◌*◌, String, str_eq, List, [], ◌∷◌, ◌++◌, Option, none, some, Bool, true, false, ltb, length,
  ◌==◌, not, keep, any, if◌then◌else◌,
}
use claudecode_lite_main.Journal.Stream.{Event, JournalRecord}

abbrev pub catchup_buffer_max_frames : ℕ
catchup_buffer_max_frames = 512

abbrev pub catchup_buffer_max_bytes : ℕ
catchup_buffer_max_bytes = 4 * 1024 * 1024

abbrev pub catchup_max_single_frame_bytes : ℕ
catchup_max_single_frame_bytes = 1024 * 1024

abbrev pub max_subscriptions_per_connection : ℕ
max_subscriptions_per_connection = 16

abbrev pub max_total_subscriptions : ℕ
max_total_subscriptions = 256

abbrev pub global_event_dedup_limit : ℕ
global_event_dedup_limit = 16384

-- `_SubscriptionPhase`.
pub data Phase : Type 0 where
  catching_up active terminal : Phase

pub data Delivery : Type 0 where
  replay live : Delivery

-- `EventPushEnvelope`, less the daemon's id, which is the same in all.
pub record Envelope : Type 0 where
  pub subscription_id : String
  pub delivery : Delivery
  pub event_id : Option String
  pub stream_id : Option String
  pub seq : Option ℕ
  pub event : Event

-- Where a replay task waits: nowhere yet, for the batch after a sequence number, or with the rest of the batch
-- to be sent; or it is over, or cancelled.
pub data ReplayTask : Type 0 where
  no_task : ReplayTask
  reading : ℕ → ReplayTask
  sending : List JournalRecord → ReplayTask
  finished : ReplayTask
  cancelled : ReplayTask

-- `_Subscription`; a connection is known by a number.
pub record Subscription : Type 0 where
  pub sub_id : String
  pub context : ℕ
  pub topics : List String
  pub scope : String
  pub stream_id : Option String
  pub phase : Phase
  pub high_watermark : ℕ
  pub catchup : List JournalRecord
  pub catchup_bytes : ℕ
  pub replay_task : ReplayTask
  pub stop_event : Bool

-- What the broadcaster uses of a connection: `enqueue_event`, which may raise, `initiate_close`, the test of
-- `ensure_open_for_subscription`, and the length of an encoded frame.
pub record Wire (Conn : Type 0) : Type 0 where
  pub enqueue_event : Envelope → Conn → Conn × Bool
  pub initiate_close : Conn → Conn
  pub is_open : Conn → Bool
  pub frame_size : Envelope → Option ℕ

-- `ended` are the subscriptions that were removed, `sent` the envelopes that a connection accepted, in order.
pub record Broadcaster (Conn : Type 0) : Type 0 where
  pub subscriptions : List Subscription
  pub global_event_ids : List String
  pub global_event_order : List String
  pub connections : ℕ → Conn
  pub ended : List Subscription
  pub sent : List Envelope

unfoldable pub new_broadcaster : {Conn : Type 0} → (ℕ → Conn) → Broadcaster Conn
new_broadcaster connections = record {
  subscriptions = [];
  global_event_ids = [];
  global_event_order = [];
  connections = connections;
  ended = [];
  sent = [];
}

-- `_find`.
unfoldable pub find : String → List Subscription → Option Subscription
find i [] = none
find i (s ∷ ss) = let rest = find i ss in if str_eq i s.sub_id then some s else rest

unfoldable pub remove : String → List Subscription → List Subscription
remove i [] = []
remove i (s ∷ ss) = let rest = s ∷ remove i ss in if str_eq i s.sub_id then ss else rest

-- The object with the id is changed.
unfoldable pub put : Subscription → List Subscription → List Subscription
put t [] = []
put t (s ∷ ss) = let rest = s ∷ put t ss in if str_eq t.sub_id s.sub_id then t ∷ ss else rest

-- `_enqueue_delivery` and `_delivery_size` build the same envelope.
abbrev pub envelope_of : String → Delivery → JournalRecord → Envelope
envelope_of sub_id delivery r = record {
  subscription_id = sub_id;
  delivery = delivery;
  event_id = some r.event_id;
  stream_id = some r.stream_id;
  seq = some r.seq;
  event = r.event;
}

-- The oldest id is dropped.
abbrev pub expire : List String → List String → List String × List String
expire [] ids = ([], ids)
expire (e ∷ order) ids = (order, keep (λ x. not (str_eq x e)) ids)

abbrev pub as_terminal : Subscription → Subscription
as_terminal s = record s {
  phase = terminal;
  stop_event = true;
  catchup = [];
  catchup_bytes = 0;
  replay_task = cancelled;
}

module _ {Conn : Type 0} where
  unfoldable pub terminate_subscription : String → Broadcaster Conn → Broadcaster Conn
  unfolding find remove
  terminate_subscription i b = elim (find i b.subscriptions) [
    | none ↦ b
    | some s ↦ record b {
      subscriptions = remove i b.subscriptions;
      ended = b.ended ++ as_terminal s ∷ [];
    }
  ]

  unfoldable pub terminate_owned : ℕ → List Subscription → Broadcaster Conn → Broadcaster Conn
  unfolding terminate_subscription
  terminate_owned context [] b = b
  terminate_owned context (s ∷ ss) b =
      let ended = terminate_owned context ss (terminate_subscription s.sub_id b) in
      let kept = terminate_owned context ss b in if s.context == context then ended else kept

  unfoldable pub unsubscribe_all : ℕ → Broadcaster Conn → Broadcaster Conn
  unfolding terminate_owned
  unsubscribe_all context b = terminate_owned context b.subscriptions b

  unfoldable pub unsubscribe : ℕ → String → Broadcaster Conn → Broadcaster Conn × Bool
  unfolding find terminate_subscription
  unsubscribe context i b = elim (find i b.subscriptions) [
    | none ↦ (b, false)
    | some s ↦ if s.context == context then (terminate_subscription i b, true) else (b, false)
  ]

  -- `_remember_global_event`; a set is a list.
  unfoldable pub remember_global_event : String → Broadcaster Conn → Broadcaster Conn × Bool
  remember_global_event event_id b =
      if any (λ e. str_eq e event_id) b.global_event_ids
      then (b, false)
      else let order = b.global_event_order ++ event_id ∷ [] in
        let ids = b.global_event_ids ++ event_id ∷ [] in
        let kept =
          if ltb global_event_dedup_limit (length order) then expire order ids else (order, ids) in
        (record b { global_event_order = kept.0; global_event_ids = kept.1 }, true)
