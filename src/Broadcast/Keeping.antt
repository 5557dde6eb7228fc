-- ===== src/Broadcast/Keeping.antt =====
-- What each step of a durable subscription keeps (core/transport/ipc_broadcaster.py).
use mathlib.Core.List.{append-nil}
use claudecode_lite_main.Prelude.{
  any, ℕ, ◌<◌, String, str_eq, eq_iff, eq_refl, List, [], ◌∷◌, ◌++◌, none, some, Bool, false, ◌≡◌,
  refl, sym, ap, ◌∙◌, inl, inr, arith, if◌then◌else◌, Bool-cases, Option-cases,
}
use claudecode_lite_main.Journal.Stream.{JournalRecord}
use claudecode_lite_main.Broadcast.State.{
  Phase, catching_up, active, terminal, no_task, reading, sending, Subscription, Wire, Broadcaster,
  find, put, remember_global_event,
}
use claudecode_lite_main.Broadcast.Publish.{
  publish_loop, publish_durable, refusal, register, durable_subscription, activate_replay,
  replay_read, replay_step,
}
use claudecode_lite_main.Broadcast.Lookup.{only, sent_to, first, keep-append, find_lem}
use claudecode_lite_main.Broadcast.Others.{Same, Same-refl}
use claudecode_lite_main.Broadcast.Facts.{Facts, Kept, Facts-carry, Kept-Few, Kept-Outcome}
use claudecode_lite_main.Broadcast.Published.{publish_loop-Kept, publish_loop-Gone}
use claudecode_lite_main.Broadcast.Replayed.{
  read-Kept, activated-Kept, replay_step-Kept, replay_step-Outcome,
}

remember-Same :
    {Conn : Type 0} (i e : String) (b : Broadcaster Conn) → Same i b (remember_global_event e b).0
unfolding remember_global_event
remember-Same i e b = elim (Bool-cases (any (λ x. str_eq x e) b.global_event_ids)) [
  | inl h ↦ simp (remember_global_event, h) (Same-refl i b)
  | inr h ↦ simp (remember_global_event, h) (record { same_entry = refl; same_sent = refl })
]

module _ {Conn : Type 0} (wire : Wire Conn) (fnmatch : String → String → Bool) (i : String) where
  pub publish_durable-Kept :
      (batch history : List JournalRecord) (r : JournalRecord) (b : Broadcaster Conn)
      → ((s : Subscription)
          → find i b.subscriptions ≡ some s
          → s.phase ≡ active
          → s.high_watermark < r.seq)
      → Kept fnmatch i batch history b
      → Kept fnmatch i batch (history ++ r ∷ []) (publish_durable wire fnmatch r b)
  unfolding publish_durable
  publish_durable-Kept batch history r b late k =
      let known = remember_global_event r.event_id b in
      after known.0 known.1 (remember-Same i r.event_id b) k
    where
      after :
          (c : Broadcaster Conn) (dg : Bool)
          → Same i b c
          → Kept fnmatch i batch history b
          → Kept fnmatch i batch
              (history ++ r ∷ [])
              (publish_loop wire fnmatch dg r c.subscriptions c)
      after c dg q (inl g) =
          inl (publish_loop-Gone wire fnmatch i dg r c.subscriptions c (q.same_entry ∙ g))
      after c dg q (inr (s, e, v)) =
          let w = Facts-carry fnmatch batch history s b c v (rw e q) in
          let found : find i b.subscriptions ≡ some s =
            rw (sym e) (find_lem s.sub_id b.subscriptions ∙ ap first v.entry) in
          rw (sym e) (
            publish_loop-Kept wire fnmatch batch history r s s dg (late s found) c.subscriptions c
              w.entry w)

  pub register-Same :
      (j : String) (context : ℕ) (topics : List String) (stream_id : String) (high : ℕ)
      (b : Broadcaster Conn)
      → str_eq i j ≡ false
      → Same i b (register wire fnmatch context topics stream_id j high b).0
  unfolding register
  register-Same j context topics stream_id high b h =
      elim (Option-cases (refusal wire fnmatch context b)) [
        | inr (x, e) ↦ simp (register, e) (Same-refl i b)
        | inl e ↦
            let s = durable_subscription wire fnmatch context topics stream_id j high in
            simp (register, e)
              (record {
                same_entry =
                    simp
                      (
                        keep-append (λ x. str_eq i x.sub_id) b.subscriptions (s ∷ []),
                        h,
                        append-nil (only i b.subscriptions),
                      )
                      refl;
                same_sent = refl;
              })
      ]

  pub registered-Kept :
      (b : Broadcaster Conn) (context : ℕ) (topics : List String) (stream_id : String) (high : ℕ)
      → only i b.subscriptions ≡ []
      → sent_to i b.sent ≡ []
      → str_eq stream_id "global" ≡ false
      → refusal wire fnmatch context b ≡ none
      → Kept fnmatch i [] [] (register wire fnmatch context topics stream_id i high b).0
  unfolding register
  registered-Kept b context topics stream_id high new quiet sc ok =
      let s = durable_subscription wire fnmatch context topics stream_id i high in
      simp (register, ok)
        (inr (
          s,
          refl,
          record {
            entry =
                simp (keep-append (λ x. str_eq i x.sub_id) b.subscriptions (s ∷ []), new, eq_refl i)
                  refl;
            not_global = sc;
            not_terminal = refl;
            caught_up = λ a. cc;
            nothing_sent = λ u. (quiet, refl);
            in_order = simp quiet refl;
          },
        ))

  pub entry-find :
      (batch history : List JournalRecord) (s : Subscription) (b : Broadcaster Conn)
      → s.sub_id ≡ i
      → Facts fnmatch batch history s b
      → find i b.subscriptions ≡ some s
  entry-find batch history s b e v =
      rw (sym e) (find_lem s.sub_id b.subscriptions ∙ ap first v.entry)

  pub activated-keeps :
      (batch history : List JournalRecord) (b : Broadcaster Conn) (n : ℕ)
      → ((s : Subscription) → find i b.subscriptions ≡ some s → s.replay_task ≡ no_task)
      → Kept fnmatch i batch history b
      → Kept fnmatch i batch history (activate_replay wire fnmatch i n b)
  unfolding activate_replay
  activated-keeps batch history b n idle (inl g) =
      simp (activate_replay, find_lem i b.subscriptions ∙ ap first g) (inl g)
  activated-keeps batch history b n idle (inr (s, id, v)) =
      let found = entry-find batch history s b id v in
      simp (activate_replay, found) (by_phase s.phase refl (idle s found))
    where
      by_phase :
          (p : Phase)
          → s.phase ≡ p
          → s.replay_task ≡ no_task
          → Kept fnmatch i batch history (elim p as (λ p. Broadcaster Conn) [
            | catching_up ↦
                if wire.is_open (b.connections s.context)
                then record b {
                  subscriptions = put (record s { replay_task = reading n }) b.subscriptions;
                }
                else b
            | _ ↦ b
          ])
      by_phase active p e = inr (s, id, v)
      by_phase terminal p e = inr (s, id, v)
      by_phase catching_up p e = elim (Bool-cases (wire.is_open (b.connections s.context))) [
        | inr o ↦ simp o (inr (s, id, v))
        | inl o ↦ simp o (
            inr (
              record s { replay_task = reading n },
              id,
              activated-Kept wire fnmatch batch history s b v n p e,
            ))
      ]

  pub read-keeps :
      (batch history found : List JournalRecord) (b : Broadcaster Conn) (s : Subscription) (n : ℕ)
      → find i b.subscriptions ≡ some s
      → s.replay_task ≡ reading n
      → Kept fnmatch i batch history b
      → Kept fnmatch i found history (replay_read wire fnmatch (some found) s b)
  unfolding replay_read
  read-keeps batch history found b s n h e (inl g) =
      let absent = find_lem i b.subscriptions ∙ ap first g in cc
  read-keeps batch history found b s n h e (inr (t, id, v)) =
      let there = entry-find batch history t b id v in
      let same : t ≡ s = grind (arith, there, h) in
      let id' : s.sub_id ≡ i = rw (sym same) id in
      inr (
        record s { replay_task = sending found },
        id',
        read-Kept wire fnmatch batch history s b (rw (sym same) v) n found e,
      )

  pub own_turn :
      (batch history : List JournalRecord) (b : Broadcaster Conn)
      → Kept fnmatch i batch history b
      → Kept fnmatch i batch history (replay_step wire fnmatch i b)
  unfolding replay_step
  own_turn batch history b (inl g) =
      simp (replay_step, find_lem i b.subscriptions ∙ ap first g) (inl g)
  own_turn batch history b (inr (s, id, v)) =
      rw (sym id) (replay_step-Kept wire fnmatch batch history s b v)

  pub turned-keeps :
      (batch history : List JournalRecord) (j : String) (b : Broadcaster Conn)
      → Kept fnmatch i batch history b
      → Kept fnmatch i batch history (replay_step wire fnmatch j b)
  turned-keeps batch history j b k = elim (Bool-cases (str_eq i j)) [
    | inr e ↦
        Kept-Outcome fnmatch i batch history b (replay_step wire fnmatch j b) k
          (replay_step-Outcome wire fnmatch i j b e (Kept-Few fnmatch i batch history b k))
    | inl e ↦ let same = (eq_iff i j).0 e in rw (sym same) (own_turn batch history b k)
  ]
