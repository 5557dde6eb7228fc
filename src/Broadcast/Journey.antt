-- ===== src/Broadcast/Journey.antt =====
-- What is sent to a durable subscription, whatever happens to it and to the others
-- (core/transport/ipc_broadcaster.py).
use mathlib.Core.List.{append-nil}
use claudecode_lite_main.Prelude.{
  ℕ, ◌<◌, String, str_eq, List, [], ◌∷◌, ◌++◌, none, some, Bool, false, ◌≡◌, sym, ap, ◌∙◌, inl, inr,
  arith,
}
use claudecode_lite_main.Journal.Stream.{JournalRecord}
use claudecode_lite_main.Broadcast.State.{
  active, live, no_task, reading, Subscription, Wire, Broadcaster, find, unsubscribe_all,
}
use claudecode_lite_main.Broadcast.Publish.{
  publish_durable, refusal, register, activate_replay, replay_read, fail_replay, replay_step,
}
use claudecode_lite_main.Prelude.{Option}
use claudecode_lite_main.Journal.Stream.{Event}
use claudecode_lite_main.Broadcast.State.{unsubscribe}
use claudecode_lite_main.Broadcast.Publish.{subscribe, fail_stream, publish_live_only}
use claudecode_lite_main.Broadcast.Around.{
  unsubscribe-Outcome, fail_stream_loop-Outcome, subscribe-Same, replay_read-Outcome,
  activate_replay-Outcome, publish_live_loop-Kept,
}
use claudecode_lite_main.Broadcast.Lookup.{only, sent_to, first, find_lem}
use claudecode_lite_main.Broadcast.Others.{terminate_owned-Outcome}
use claudecode_lite_main.Broadcast.Elsewhere.{fail_replay-Outcome}
use claudecode_lite_main.Broadcast.Facts.{
  rest_of, envelopes, replays, lives, Kept, Kept-Few, Kept-Outcome,
}
use claudecode_lite_main.Broadcast.Keeping.{
  publish_durable-Kept, register-Same, registered-Kept, entry-find, activated-keeps, read-keeps,
  turned-keeps,
}

module _ {Conn : Type 0} (wire : Wire Conn) (fnmatch : String → String → Bool) (i : String) where
  -- What happens to a broadcaster from the registration of the subscription `i` on: the batch that its replay
  -- has read and the records that were published since.
  -- The replay is activated once, which `_ReplayActivation` sees to, and its batch is read once.
  pub data Journey : List JournalRecord → List JournalRecord → Broadcaster Conn → Type 0 where
    registered :
        (b : Broadcaster Conn) (context : ℕ) (topics : List String) (stream_id : String) (high : ℕ)
        → only i b.subscriptions ≡ []
        → sent_to i b.sent ≡ []
        → str_eq stream_id "global" ≡ false
        → refusal wire fnmatch context b ≡ none
        → Journey [] [] (register wire fnmatch context topics stream_id i high b).0
    published :
        {batch history : List JournalRecord} {b : Broadcaster Conn}
        → Journey batch history b
        → (r : JournalRecord)
        → ((s : Subscription)
            → find i b.subscriptions ≡ some s
            → s.phase ≡ active
            → s.high_watermark < r.seq)
        → Journey batch (history ++ r ∷ []) (publish_durable wire fnmatch r b)
    activated :
        {batch history : List JournalRecord} {b : Broadcaster Conn}
        → Journey batch history b
        → (after_seq : ℕ)
        → ((s : Subscription) → find i b.subscriptions ≡ some s → s.replay_task ≡ no_task)
        → Journey batch history (activate_replay wire fnmatch i after_seq b)
    read :
        {batch history : List JournalRecord} {b : Broadcaster Conn}
        → Journey batch history b
        → (s : Subscription) (after_seq : ℕ) (found : List JournalRecord)
        → find i b.subscriptions ≡ some s
        → s.replay_task ≡ reading after_seq
        → Journey found history (replay_read wire fnmatch (some found) s b)
    turned :
        {batch history : List JournalRecord} {b : Broadcaster Conn}
        → Journey batch history b
        → (j : String) → Journey batch history (replay_step wire fnmatch j b)
    failed :
        {batch history : List JournalRecord} {b : Broadcaster Conn}
        → Journey batch history b
        → (s : Subscription) → Journey batch history (fail_replay wire fnmatch s b)
    disconnected :
        {batch history : List JournalRecord} {b : Broadcaster Conn}
        → Journey batch history b
        → (context : ℕ) → Journey batch history (unsubscribe_all context b)
    joined :
        {batch history : List JournalRecord} {b : Broadcaster Conn}
        → Journey batch history b
        → (j : String) (context : ℕ) (topics : List String) (stream_id : String) (high : ℕ)
        → str_eq i j ≡ false
        → Journey batch history (register wire fnmatch context topics stream_id j high b).0
    subscribed :
        {batch history : List JournalRecord} {b : Broadcaster Conn}
        → Journey batch history b
        → (j : String) (context : ℕ) (topics : List String) (scope : String) → str_eq i j ≡ false
        → Journey batch history (subscribe wire fnmatch context topics scope j b).0
    unsubscribed :
        {batch history : List JournalRecord} {b : Broadcaster Conn}
        → Journey batch history b
        → (context : ℕ) (j : String) → Journey batch history (unsubscribe context j b).0
    stream_failed :
        {batch history : List JournalRecord} {b : Broadcaster Conn}
        → Journey batch history b
        → (stream_id : String) → Journey batch history (fail_stream wire fnmatch stream_id b)
    published_live :
        {batch history : List JournalRecord} {b : Broadcaster Conn}
        → Journey batch history b
        → (event : Event) → Journey batch history (publish_live_only wire fnmatch event b)
    other_activated :
        {batch history : List JournalRecord} {b : Broadcaster Conn}
        → Journey batch history b
        → (j : String) (after_seq : ℕ) → str_eq i j ≡ false
        → Journey batch history (activate_replay wire fnmatch j after_seq b)
    other_read :
        {batch history : List JournalRecord} {b : Broadcaster Conn}
        → Journey batch history b
        → (found : Option (List JournalRecord)) (s : Subscription) → str_eq i s.sub_id ≡ false
        → Journey batch history (replay_read wire fnmatch found s b)

  Journey-Kept :
      (batch history : List JournalRecord) (b : Broadcaster Conn)
      → Journey batch history b
      → Kept fnmatch i batch history b
  unfolding unsubscribe_all fail_stream publish_live_only
  Journey-Kept _ _ _ (registered b context topics stream_id high new quiet sc ok) =
      registered-Kept wire fnmatch i b context topics stream_id high new quiet sc ok
  Journey-Kept batch _ _ (published {history = history} {b = b} w r late) =
      publish_durable-Kept wire fnmatch i batch history r b late (Journey-Kept batch history b w)
  Journey-Kept batch history _ (activated {b = b} w n idle) =
      activated-keeps wire fnmatch i batch history b n idle (Journey-Kept batch history b w)
  Journey-Kept _ history _ (read {batch = batch} {b = b} w s n found h e) =
      read-keeps wire fnmatch i batch history found b s n h e (Journey-Kept batch history b w)
  Journey-Kept batch history _ (turned {b = b} w j) =
      turned-keeps wire fnmatch i batch history j b (Journey-Kept batch history b w)
  Journey-Kept batch history _ (failed {b = b} w s) =
      let k = Journey-Kept batch history b w in
      Kept-Outcome fnmatch i batch history b (fail_replay wire fnmatch s b) k
        (fail_replay-Outcome wire fnmatch i s b (Kept-Few fnmatch i batch history b k))
  Journey-Kept batch history _ (disconnected {b = b} w context) =
      let k = Journey-Kept batch history b w in
      Kept-Outcome fnmatch i batch history b (unsubscribe_all context b) k
        (terminate_owned-Outcome i context b.subscriptions b (Kept-Few fnmatch i batch history b k))
  Journey-Kept batch history _ (joined {b = b} w j context topics stream_id high h) =
      Kept-Outcome fnmatch i batch history b
        (register wire fnmatch context topics stream_id j high b).0 (Journey-Kept batch history b w)
        (inr (register-Same wire fnmatch i j context topics stream_id high b h))
  Journey-Kept batch history _ (subscribed {b = b} w j context topics scope h) =
      Kept-Outcome fnmatch i batch history b (subscribe wire fnmatch context topics scope j b).0
        (Journey-Kept batch history b w)
        (inr (subscribe-Same wire fnmatch i j context topics scope b h))
  Journey-Kept batch history _ (unsubscribed {b = b} w context j) =
      let k = Journey-Kept batch history b w in
      Kept-Outcome fnmatch i batch history b (unsubscribe context j b).0 k
        (unsubscribe-Outcome wire fnmatch i context j b (Kept-Few fnmatch i batch history b k))
  Journey-Kept batch history _ (stream_failed {b = b} w stream_id) =
      let k = Journey-Kept batch history b w in
      Kept-Outcome fnmatch i batch history b (fail_stream wire fnmatch stream_id b) k (
        fail_stream_loop-Outcome wire fnmatch i stream_id b.subscriptions b
          (Kept-Few fnmatch i batch history b k))
  Journey-Kept batch history _ (published_live {b = b} w event) =
      publish_live_loop-Kept wire fnmatch i batch history event b.subscriptions b
        (Journey-Kept batch history b w)
  Journey-Kept batch history _ (other_activated {b = b} w j n h) =
      Kept-Outcome fnmatch i batch history b (activate_replay wire fnmatch j n b)
        (Journey-Kept batch history b w) (activate_replay-Outcome wire fnmatch i j n b h)
  Journey-Kept batch history _ (other_read {b = b} w found s h) =
      let k = Journey-Kept batch history b w in
      Kept-Outcome fnmatch i batch history b (replay_read wire fnmatch found s b) k
        (replay_read-Outcome wire fnmatch i found s b h (Kept-Few fnmatch i batch history b k))

  -- As long as a durable subscription is there, what was sent to it, then what is left of its replay and then
  -- its catch-up buffer, are the records of the replay for its topics, each once and in order, and behind them
  -- the records of its stream and topics behind the watermark that were published since it was registered, each
  -- once and in order; once it is active, all of them were sent. This is so whatever happens to the other
  -- subscriptions, if no record at or below the watermark is published after it has become active.
  pub delivered_in_order :
      (batch history : List JournalRecord) (s : Subscription) (b : Broadcaster Conn)
      → Journey batch history b
      → find i b.subscriptions ≡ some s
      → (sent_to s.sub_id b.sent
            ++ (replays fnmatch s (rest_of s.replay_task) ++ envelopes s.sub_id live s.catchup)
          ≡ replays fnmatch s batch ++ lives fnmatch s history)
        × (s.phase ≡ active
            → sent_to s.sub_id b.sent ≡ replays fnmatch s batch ++ lives fnmatch s history)
  delivered_in_order batch history s b w h = elim (Journey-Kept batch history b w) [
    | inl g ↦ let absent = find_lem i b.subscriptions ∙ ap first g in cc
    | inr (t, id, v) ↦
        let there = entry-find wire fnmatch i batch history t b id v in
        let same : t ≡ s = grind (arith, there, h) in
        rw (sym same) (
          v.in_order,
          λ a.
              sym (append-nil (sent_to t.sub_id b.sent))
              ∙ (simp ((v.caught_up a).0, (v.caught_up a).1) at v.in_order),
        )
  ]
