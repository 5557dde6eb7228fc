-- ===== src/Broadcast/Facts.antt =====
-- What is known of a durable subscription: what was sent to it, with what is still to be sent, is the replay and
-- then the live records (core/transport/ipc_broadcaster.py).
use claudecode_lite_main.Prelude.{
  String, str_eq, eq_refl, List, [], ◌∷◌, ◌++◌, Bool, true, false, ◌≡◌, refl, sym, ap, ◌∙◌, ◌⊎◌,
  inl, inr, arith, keep, ltb, ◌&&◌,
}
use claudecode_lite_main.Journal.Stream.{JournalRecord}
use claudecode_lite_main.Broadcast.State.{
  Phase, catching_up, active, terminal, Delivery, live, replay, ReplayTask, no_task, reading,
  sending, finished, cancelled, Envelope, Subscription, Broadcaster, envelope_of,
}
use claudecode_lite_main.Broadcast.Publish.{matches_topic, of_stream}
use claudecode_lite_main.Broadcast.Lookup.{only, sent_to, keep-append}
use claudecode_lite_main.Broadcast.Others.{Few, Gone, Same, Outcome}

-- The records of a batch that a replay task has still to send.
abbrev pub rest_of : ReplayTask → List JournalRecord
rest_of no_task = []
rest_of (reading n) = []
rest_of (sending rs) = rs
rest_of finished = []
rest_of cancelled = []

abbrev pub is_unread : ReplayTask → Bool
is_unread no_task = true
is_unread (reading n) = true
is_unread (sending rs) = false
is_unread finished = false
is_unread cancelled = false

abbrev pub is_terminal : Phase → Bool
is_terminal catching_up = false
is_terminal active = false
is_terminal terminal = true

abbrev pub envelopes : String → Delivery → List JournalRecord → List Envelope
envelopes i d [] = []
envelopes i d (r ∷ rs) = envelope_of i d r ∷ envelopes i d rs

pub envelopes-append :
    (i : String) (d : Delivery) (xs ys : List JournalRecord)
    → envelopes i d (xs ++ ys) ≡ envelopes i d xs ++ envelopes i d ys
envelopes-append i d [] ys = refl
envelopes-append i d (x ∷ xs) ys = ap (λ es. envelope_of i d x ∷ es) (envelopes-append i d xs ys)

pub sent_to-own :
    (i : String) (d : Delivery) (r : JournalRecord) (es : List Envelope)
    → sent_to i (es ++ envelope_of i d r ∷ []) ≡ sent_to i es ++ envelope_of i d r ∷ []
sent_to-own i d r es =
    simp (keep-append (λ x. str_eq i x.subscription_id) es (envelope_of i d r ∷ []), eq_refl i) refl

module _ (fnmatch : String → String → Bool) where
  -- The records of a batch that a subscription is to get.
  abbrev pub replays : Subscription → List JournalRecord → List Envelope
  replays s batch =
      envelopes s.sub_id replay (keep (λ r. matches_topic fnmatch r.event.type s.topics) batch)

  abbrev pub is_live : Subscription → JournalRecord → Bool
  is_live s r =
      of_stream s.stream_id r.stream_id
      && matches_topic fnmatch r.event.type s.topics
      && ltb s.high_watermark r.seq

  -- The published records that it is to get, those of its stream and topics behind the watermark.
  abbrev pub lives : Subscription → List JournalRecord → List Envelope
  lives s history = envelopes s.sub_id live (keep (is_live s) history)

  pub lives-snoc :
      (s : Subscription) (r : JournalRecord) (history : List JournalRecord)
      → lives s (history ++ r ∷ []) ≡ lives s history ++ lives s (r ∷ [])
  lives-snoc s r history =
      ap (λ rs. envelopes s.sub_id live rs) (keep-append (is_live s) history (r ∷ []))
      ∙ envelopes-append s.sub_id live (keep (is_live s) history) (keep (is_live s) (r ∷ []))

  module _ {Conn : Type 0} where
    pub record Facts (batch history : List JournalRecord) (s : Subscription) (b : Broadcaster Conn)
        : Type 0 where
      pub entry : only s.sub_id b.subscriptions ≡ s ∷ []
      pub not_global : str_eq s.scope "global" ≡ false
      pub not_terminal : is_terminal s.phase ≡ false
      pub caught_up :
          s.phase ≡ active
          → (rest_of s.replay_task ≡ []) × (s.catchup ≡ []) × (is_unread s.replay_task ≡ false)
      pub nothing_sent :
          is_unread s.replay_task ≡ true → (sent_to s.sub_id b.sent ≡ []) × (batch ≡ [])
      pub in_order :
          sent_to s.sub_id b.sent
            ++ (replays s (rest_of s.replay_task) ++ envelopes s.sub_id live s.catchup)
          ≡ replays s batch ++ lives s history

    -- The subscription is gone, or its facts hold.
    abbrev pub Kept : String → List JournalRecord → List JournalRecord → Broadcaster Conn → Type 0
    Kept i batch history b =
        Gone i b ⊎ ((s : Subscription) × (s.sub_id ≡ i) × Facts batch history s b)

    pub Facts-carry :
        (batch history : List JournalRecord) (s : Subscription) (b c : Broadcaster Conn)
        → Facts batch history s b
        → Same s.sub_id b c
        → Facts batch history s c
    Facts-carry batch history s b c v q = record {
      entry = q.same_entry ∙ v.entry;
      not_global = v.not_global;
      not_terminal = v.not_terminal;
      caught_up = v.caught_up;
      nothing_sent = λ u. (q.same_sent ∙ (v.nothing_sent u).0, (v.nothing_sent u).1);
      in_order = rw q.same_sent v.in_order;
    }

    pub Kept-Few :
        (i : String) (batch history : List JournalRecord) (b : Broadcaster Conn)
        → Kept i batch history b
        → Few i b
    Kept-Few i batch history b (inl g) = rw g (omega arith)
    Kept-Few i batch history b (inr (s, e, v)) = rw (sym e, v.entry) (omega arith)

    pub Kept-Outcome :
        (i : String) (batch history : List JournalRecord) (b c : Broadcaster Conn)
        → Kept i batch history b
        → Outcome i b c
        → Kept i batch history c
    Kept-Outcome i batch history b c k (inl g) = inl g
    Kept-Outcome i batch history b c (inl g) (inr q) = inl (q.same_entry ∙ g)
    Kept-Outcome i batch history b c (inr (s, e, v)) (inr q) =
        inr (s, e, Facts-carry batch history s b c v (rw e q))
