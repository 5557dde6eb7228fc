-- ===== src/Journal/Refusals.antt =====
-- What a publication that fails leaves behind (core/events/journal.py, `_publish_event_once`).
use mathlib.Core.Option.{map}
use claudecode_lite_main.Prelude.{
  ℕ, String, List, [], Option, ◌≡◌, refl, sym, ap, inl, inr, ◌&&◌, not, lookup, if◌then◌else◌,
  Bool-cases, Option-cases,
}
use claudecode_lite_main.Journal.Stream.{Event, StreamState}
use claudecode_lite_main.Journal.Routing.{
  JournalError, coordinator_closing, payload_conflict, receipt_failed, live_failed, Result, ok, err,
  Route, present, sorted, route_event,
}
use claudecode_lite_main.Journal.Publish.{
  Coordinator, Answers, waits, reserve_all, id_of, same_event, publish_live, publish_durable,
  publish_routed, publish_event_once,
}
use claudecode_lite_main.Journal.Targets.{
  Distinct, sorted-Distinct, route_event-Distinct, mem-sorted,
}
use claudecode_lite_main.Journal.Delivery.{reserve_all-Ready}
use claudecode_lite_main.Journal.Entry.{entered, after_entry, enter_all_lem, reserve_all-Records}
use claudecode_lite_main.Journal.Accepted.{Result-cases, List-cases}
use claudecode_lite_main.Journal.Failures.{
  Named, Refused, Harmless-Refused, Refused-moved, route_event-Harmless, on_failure-Refused,
  reserve_all-Reserving,
}

module _ (line_size : String → String → ℕ → Event → ℕ) (answers : Answers) where
  publish_durable-Refused :
      (x : JournalError) (id : String) (e : Event) (ks ts : List String) (c : Coordinator)
      → Named c.streams
      → Distinct ks
      → (publish_durable line_size answers id e ks ts c).0 ≡ err x
      → Refused
          (after_entry line_size id e ts ks c.streams)
          x
          e
          c
          (publish_durable line_size answers id e ks ts c).1
  unfolding publish_durable
  publish_durable-Refused x id e ks ts c n distinct h =
      elim (Result-cases (reserve_all line_size id e ts c.streams ks)) [
        | inl (y, f) ↦
            let failed : err y ≡ err x = rw (f, publish_durable) at h in
            let same : y ≡ x = cc in
            let kind = reserve_all-Reserving line_size c.streams ks id e ts y n f in
            rw (f, publish_durable, sym same)
              (on_failure-Refused line_size (after_entry line_size id e ts ks c.streams) y e c kind)
        | inr (items, f) ↦
            elim (Bool-cases
              (waits line_size answers.await_all items && not answers.receipts_kept)) [
                | inl g ↦
                    let failed : err receipt_failed ≡ err x = rw (f, g, publish_durable) at h in
                    let same : receipt_failed ≡ x = cc in
                    let named = (reserve_all-Ready line_size id e ts c.streams ks items f).1 in
                    let records = reserve_all-Records line_size id e ts c.streams ks items f in
                    let put = λ (j : String).
                      enter_all_lem line_size id e ts j items c.streams (rw named distinct)
                        records in
                    rw (f, g, publish_durable, sym same) (rw named at put, refl)
                | inr g ↦ let failed : ok ks ≡ err x = rw (f, g, publish_durable) at h in cc
              ]
      ]

  publish_live-Refused :
      (after : String → Option StreamState) (x : JournalError) (id : String) (e : Event)
      (c : Coordinator)
      → (publish_live line_size answers id e c).0 ≡ err x
      → Refused after x e c (publish_live line_size answers id e c).1
  unfolding publish_live
  publish_live-Refused after x id e c h = elim (Bool-cases answers.live_kept) [
    | inl g ↦ let failed : ok [] ≡ err x = rw (g, publish_live) at h in cc
    | inr g ↦
        let failed : err live_failed ≡ err x = rw (g, publish_live) at h in
        let same : live_failed ≡ x = cc in rw (g, publish_live, sym same) refl
  ]

  publish_routed-Refused :
      (x : JournalError) (id : String) (e : Event) (r : Route) (c : Coordinator)
      → Named c.streams
      → Distinct r.targets
      → (publish_routed line_size answers id e r c).0 ≡ err x
      → Refused
          (after_entry line_size id e r.terminals r.targets c.streams)
          x
          e
          c
          (publish_routed line_size answers id e r c).1
  unfolding publish_routed
  publish_routed-Refused x id e r c n distinct h =
      let after = after_entry line_size id e r.terminals r.targets c.streams in
      elim (Option-cases (lookup id c.payloads)) [
        | inr (p, f) ↦ elim (Bool-cases (same_event p e)) [
          | inl g ↦ let failed = rw (f, g, publish_routed) at h in cc
          | inr g ↦
              let failed : err payload_conflict ≡ err x = rw (f, g, publish_routed) at h in
              let same : payload_conflict ≡ x = cc in rw (f, g, publish_routed, sym same) refl
        ]
        | inl f ↦ elim (List-cases r.targets) [
          | inl g ↦
              let said : publish_routed line_size answers id e r c
                  ≡ publish_live line_size answers id e c =
                simp (f, g, publish_routed) refl in
              rw said (publish_live-Refused after x id e c (rw said at h))
          | inr (k, ks, g) ↦
              let said : publish_routed line_size answers id e r c
                  ≡ publish_durable line_size answers id e (sorted r.targets) r.terminals c =
                simp (f, g, publish_routed) refl in
              let one_order = λ (j : String).
                ap
                  (λ b.
                    if b
                    then map (entered line_size id e r.terminals) (lookup j c.streams)
                    else lookup j c.streams)
                  (mem-sorted j r.targets) in
              rw said (
                Refused-moved (after_entry line_size id e r.terminals (sorted r.targets) c.streams)
                  after x e c _ one_order
                  (publish_durable-Refused x id e (sorted r.targets) r.terminals c n
                    (sorted-Distinct r.targets distinct) (rw said at h)))
        ]
      ]

  -- The streams with the event on each target of its route.
  abbrev pub on_route : String → Event → Coordinator → Result Route → String → Option StreamState
  on_route fresh_id e c (err x) j = lookup j c.streams
  on_route fresh_id e c (ok r) j =
      after_entry line_size (id_of line_size (present e.event_id) fresh_id) e r.terminals r.targets
        c.streams j

  abbrev pub with_event : String → Event → Coordinator → String → Option StreamState
  with_event fresh_id e c = on_route fresh_id e c (route_event c.streams c.identities e)

  with_event_lem :
      (fresh_id : String) (e : Event) (c : Coordinator) (r : Route) (j : String)
      → route_event c.streams c.identities e ≡ ok r
      → with_event fresh_id e c j
        ≡ after_entry line_size
            (id_of line_size (present e.event_id) fresh_id)
            e
            r.terminals
            r.targets
            c.streams
            j
  with_event_lem fresh_id e c r j f = ap (λ m. on_route fresh_id e c m j) f

  -- What a publication that fails leaves, if every stream is kept under its own name: after an overflow
  -- just the lifecycle of the stream that overflowed, which is then degraded, and the list of reported
  -- failures differ; if the wait for the receipts fails, the record stands behind the queue of each target
  -- stream and nothing else differs (neither the payload nor an outcome is noted); if `on_live_only` raises, the event was
  -- handed to it and nothing is noted; after any other failure the coordinator is what it was.
  pub publish-Refused :
      (x : JournalError) (fresh_id : String) (e : Event) (c : Coordinator)
      → Named c.streams
      → (publish_event_once line_size answers fresh_id e c).0 ≡ err x
      → Refused
          (with_event fresh_id e c)
          x
          e
          c
          (publish_event_once line_size answers fresh_id e c).1
  unfolding publish_event_once
  publish-Refused x fresh_id e c n h = elim (Bool-cases c.accepting) [
    | inr a ↦
        let failed : err coordinator_closing ≡ err x = rw (a, publish_event_once) at h in
        let same : coordinator_closing ≡ x = cc in rw (a, publish_event_once, sym same) refl
    | inl a ↦ elim (Result-cases (route_event c.streams c.identities e)) [
      | inl (y, f) ↦
          let failed : err y ≡ err x = rw (a, f, publish_event_once) at h in
          let same : y ≡ x = cc in
          let kind = route_event-Harmless c.streams c.identities y e f in
          simp (a, f, publish_event_once, sym same)
            (Harmless-Refused (on_route fresh_id e c (err y)) y e c kind)
      | inr (r, f) ↦
          let id = id_of line_size (present e.event_id) fresh_id in
          let same : publish_event_once line_size answers fresh_id e c
              ≡ publish_routed line_size answers id e r c =
            simp (a, f, publish_event_once) refl in
          let d = route_event-Distinct c.streams c.identities e r f in
          let here = λ (j : String). sym (with_event_lem fresh_id e c r j f) in
          rw same (
            Refused-moved (after_entry line_size id e r.terminals r.targets c.streams)
              (with_event fresh_id e c) x e c _ here
              (publish_routed-Refused x id e r c n d (rw same at h)))
    ]
  ]
