-- ===== src/Journal/Entry.antt =====
-- Where the record of an accepted event stands after its publication (core/events/journal.py,
-- `_publish_event_once`).
use mathlib.Core.Option.{map}
use claudecode_lite_main.Prelude.{
  ℕ, String, List, [], ◌∷◌, Option, none, some, true, false, ◌≡◌, refl, sym, inl, inr, arith,
  lookup, insert, lookup-insert, mem, str_eq, eq_iff, if◌then◌else◌, Option-cases, Bool-cases, ◌&&◌,
  not,
}
use claudecode_lite_main.Journal.Stream.{Event, QueuedRecord, StreamState, enqueue}
use claudecode_lite_main.Journal.Routing.{
  unknown_stream, receipt_failed, live_failed, ok, err, ◌>>=◌, Route, route_event, sorted, present,
}
use claudecode_lite_main.Journal.Targets.{
  Distinct, chain-ok, sorted-Distinct, route_event-Distinct, mem-sorted,
}
use claudecode_lite_main.Journal.Publish.{
  Coordinator, Answers, waits, record_for, reserve, reserve_all, enter_all, id_of, publish_live,
  publish_durable, publish_routed, publish_event_once,
}
use claudecode_lite_main.Journal.Delivery.{keys, reserve-Fits, reserve_all-Ready}
use claudecode_lite_main.Journal.Accepted.{Result-cases, List-cases, noted_streams}

module _ (line_size : String → String → ℕ → Event → ℕ) (id : String) (e : Event)
    (ts : List String) where
  -- A stream with the record of the event behind its queue.
  abbrev pub entered : StreamState → StreamState
  entered s = enqueue (record_for line_size id e ts s) s

  abbrev pub after_entry : List String → List (String × StreamState) → String → Option StreamState
  after_entry ks streams j = if mem j ks then map entered (lookup j streams) else lookup j streams

  -- The items are the records for their streams.
  abbrev pub Records : List (String × StreamState) → List (String × QueuedRecord) → Type 0
  Records streams [] = Unit
  Records streams ((k, item) ∷ items) =
      ((s : StreamState) × (lookup k streams ≡ some s) × (item ≡ record_for line_size id e ts s))
      × Records streams items

  Records-insert :
      (k : String) (s : StreamState) (streams : List (String × StreamState))
      (items : List (String × QueuedRecord))
      → mem k (keys items) ≡ false
      → Records streams items
      → Records (insert k s streams) items
  unfolding mem
  Records-insert k s streams [] h r = tt
  Records-insert k s streams ((j, item) ∷ items) h r =
      let differs : str_eq k j ≡ false = ground (arith, eq_iff j k, eq_iff k j) in
      let rest : mem k (keys items) ≡ false = ground arith in
      (
        (r.0.0, rw (lookup-insert k j s streams, differs) r.0.1, r.0.2),
        Records-insert k s streams items rest r.1,
      )

  pub enter_all_lem :
      (j : String) (items : List (String × QueuedRecord)) (streams : List (String × StreamState))
      → Distinct (keys items)
      → Records streams items
      → lookup j (enter_all line_size items streams) ≡ after_entry (keys items) streams j
  unfolding enter_all mem
  enter_all_lem j [] streams d r = refl
  enter_all_lem j ((k, item) ∷ items) streams d r =
      let next = enqueue item r.0.0 in
      let opened : enter_all line_size ((k, item) ∷ items) streams
          ≡ enter_all line_size items (insert k next streams) =
        rw (r.0.1, enter_all) refl in
      let later =
        enter_all_lem j items (insert k next streams) d.1
          (Records-insert k next streams items d.0 r.1) in
      let put : entered r.0.0 ≡ next = rw r.0.2 refl in
      let seen : lookup k streams ≡ some r.0.0 = r.0.1 in
      rw opened (ground (arith, eq_iff k j, lookup-insert k j next streams, put, seen, later, d.0))

  pub reserve_all-Records :
      (streams : List (String × StreamState)) (ks : List String)
      (items : List (String × QueuedRecord))
      → reserve_all line_size id e ts streams ks ≡ ok items
      → Records streams items
  unfolding reserve_all
  reserve_all-Records streams [] items h = let same : [] ≡ items = cc in rw (sym same) tt
  reserve_all-Records streams (k ∷ ks) items h = elim (Option-cases (lookup k streams)) [
    | inl none_there ↦
        let failed : err (unknown_stream k) ≡ ok items = rw (none_there, reserve_all) at h in cc
    | inr (s, there) ↦
        let chained : (reserve line_size id e ts s >>= (λ item.
          reserve_all line_size id e ts streams ks >>= (λ rest. ok ((k, item) ∷ rest))))
            ≡ ok items =
          rw (there, reserve_all) at h in
        let one = chain-ok (reserve line_size id e ts s) _ items chained in
        let more = chain-ok (reserve_all line_size id e ts streams ks) _ items one.2 in
        let same : (k, one.0) ∷ more.0 ≡ items = cc in
        let fits = reserve-Fits line_size id e ts s one.0 one.1 in
        rw (sym same) ((s, there, fits.1), reserve_all-Records streams ks more.0 more.1)
  ]

module _ (line_size : String → String → ℕ → Event → ℕ) (answers : Answers) (id : String) (e : Event)
    (ts : List String) where
  publish_durable_lem :
      (ks given : List String) (c : Coordinator) (j : String)
      → Distinct ks
      → (publish_durable line_size answers id e ks ts c).0 ≡ ok given
      → (given ≡ ks)
        × (lookup j (publish_durable line_size answers id e ks ts c).1.streams
            ≡ after_entry line_size id e ts ks c.streams j)
  unfolding publish_durable
  publish_durable_lem ks given c j d h =
      elim (Result-cases (reserve_all line_size id e ts c.streams ks)) [
        | inl (x, f) ↦ let failed : err x ≡ ok given = rw (f, publish_durable) at h in cc
        | inr (items, f) ↦
            let named = (reserve_all-Ready line_size id e ts c.streams ks items f).1 in
            let distinct : Distinct (keys items) = rw named d in
            let done = record c { streams = enter_all line_size items c.streams } in
            let records = reserve_all-Records line_size id e ts c.streams ks items f in
            let put = enter_all_lem line_size id e ts j items c.streams distinct records in
            elim (Bool-cases
              (waits line_size answers.await_all items && not answers.receipts_kept)) [
                | inl g ↦
                    let failed : err receipt_failed ≡ ok given = rw (f, g, publish_durable) at h in
                    cc
                | inr g ↦
                    let same : ok ks ≡ ok given = rw (f, g, publish_durable) at h in
                    let kept = noted_streams line_size (present e.event_id) id e ks done in
                    (cc, rw (f, g, publish_durable, kept) (rw named at put))
              ]
      ]

module _ (line_size : String → String → ℕ → Event → ℕ) (answers : Answers) where
  -- A publication of a new event that succeeds, an event that was routed to `r`, answers with the
  -- targets in order; the record with the stream's next number stands behind the queue of each of
  -- them, and every other stream is as it was.
  pub publish_enters :
      (fresh_id : String) (e : Event) (c : Coordinator) (r : Route) (given : List String)
      (j : String)
      → c.accepting ≡ true
      → route_event c.streams c.identities e ≡ ok r
      → lookup (id_of line_size (present e.event_id) fresh_id) c.payloads ≡ none
      → (publish_event_once line_size answers fresh_id e c).0 ≡ ok given
      → (given ≡ sorted r.targets)
        × (lookup j (publish_event_once line_size answers fresh_id e c).1.streams
            ≡ after_entry line_size
                (id_of line_size (present e.event_id) fresh_id)
                e
                r.terminals
                r.targets
                c.streams
                j)
  unfolding publish_event_once publish_routed publish_live sorted mem
  publish_enters fresh_id e c r given j a f n h =
      let id = id_of line_size (present e.event_id) fresh_id in
      let d = sorted-Distinct r.targets (route_event-Distinct c.streams c.identities e r f) in
      let go =
        publish_durable_lem line_size answers id e r.terminals (sorted r.targets) given c j d in
      elim (List-cases r.targets) [
        | inl g ↦ elim (Bool-cases answers.live_kept) [
          | inl l ↦
              let said : ok [] ≡ ok given =
                rw (a, f, n, g, publish_event_once, publish_routed, l, publish_live) at h in
              rw (a, f, n, g, publish_event_once, publish_routed, l, publish_live) (cc, refl)
          | inr l ↦
              let failed : err live_failed ≡ ok given =
                rw (a, f, n, g, publish_event_once, publish_routed, l, publish_live) at h in
              cc
        ]
        | inr (k, ks, g) ↦
            let routed : (publish_durable line_size answers id e (sorted (k ∷ ks)) r.terminals c).0
                ≡ ok given =
              rw (a, f, n, g, publish_event_once, publish_routed) at h in
            let (named, put) = go (rw g routed) in
            (
              named,
              rw (a, f, n, g, publish_event_once, publish_routed)
                  (rw (g, mem-sorted j (k ∷ ks)) at put),
            )
      ]
