-- ===== src/Journal/Accepted.antt =====
-- What a publication does to the streams of a coordinator (core/events/journal.py,
-- `_publish_event_once`).
use claudecode_lite_main.Prelude.{
  ℕ, String, List, [], ◌∷◌, Option, none, some, ◌≡◌, refl, ◌⊎◌, inl, inr, lookup, Option-cases,
  Bool-cases, ◌&&◌, not,
}
use claudecode_lite_main.Journal.Stream.{Event, degraded}
use claudecode_lite_main.Journal.Histories.{degrade-IsValid}
use claudecode_lite_main.Journal.Routing.{
  JournalError, capacity, Result, ok, err, Route, route_event, sorted, present,
}
use claudecode_lite_main.Journal.Targets.{Distinct, sorted-Distinct, route_event-Distinct}
use claudecode_lite_main.Journal.Publish.{
  Coordinator, Answers, waits, reserve_all, enter_all, on_failure, id_of, noted, same_event,
  publish_live, publish_durable, publish_routed, publish_event_once,
}
use claudecode_lite_main.Journal.Delivery.{
  keys, AllValid, insert-AllValid, enter_all-AllValid, reserve_all-Ready,
}

pub Result-cases :
    {A : Type 0} (m : Result A) → ((x : JournalError) × (m ≡ err x)) ⊎ ((a : A) × (m ≡ ok a))
Result-cases (ok a) = inr (a, refl)
Result-cases (err x) = inl (x, refl)

pub List-cases : {A : Type 0} (xs : List A) → (xs ≡ []) ⊎ ((y : A) × (ys : List A) × (xs ≡ y ∷ ys))
List-cases [] = inl refl
List-cases (y ∷ ys) = inr (y, ys, refl)

module _ (line_size : String → String → ℕ → Event → ℕ) where
  pub noted_streams :
      (o : Option String) (id : String) (e : Event) (ks : List String) (c : Coordinator)
      → (noted line_size o id e ks c).streams ≡ c.streams
  noted_streams none id e ks c = refl
  noted_streams (some x) id e ks c = refl

module _ (line_size : String → String → ℕ → Event → ℕ) (base : String → ℕ) where
  on_failure-AllValid :
      (x : JournalError) (c : Coordinator)
      → AllValid base c.streams
      → AllValid base (on_failure line_size x c).streams
  unfolding on_failure
  on_failure-AllValid (capacity k) c v = elim (Option-cases (lookup k c.streams)) [
    | inl e ↦ rw (e, on_failure) v
    | inr (s, e) ↦
        rw (e, on_failure)
          (insert-AllValid base k (record s { lifecycle = degraded }) c.streams v
            (degrade-IsValid (base k) s (v k s e)))
  ]
  on_failure-AllValid x c v = v

module _ (line_size : String → String → ℕ → Event → ℕ) (answers : Answers) (base : String → ℕ) where
  publish_live-AllValid :
      (id : String) (e : Event) (c : Coordinator)
      → AllValid base c.streams
      → AllValid base (publish_live line_size answers id e c).1.streams
  unfolding publish_live
  publish_live-AllValid id e c v = elim (Bool-cases answers.live_kept) [
    | inl f ↦ rw (f, publish_live) v
    | inr f ↦ rw (f, publish_live) v
  ]

  publish_durable-AllValid :
      (id : String) (e : Event) (ks ts : List String) (c : Coordinator)
      → Distinct ks
      → AllValid base c.streams
      → AllValid base (publish_durable line_size answers id e ks ts c).1.streams
  unfolding publish_durable
  publish_durable-AllValid id e ks ts c d v =
      elim (Result-cases (reserve_all line_size id e ts c.streams ks)) [
        | inl (x, f) ↦ rw (f, publish_durable) (on_failure-AllValid line_size base x c v)
        | inr (items, f) ↦
            let ready = reserve_all-Ready line_size id e ts c.streams ks items f in
            let distinct : Distinct (keys items) = rw ready.1 d in
            let done = record c { streams = enter_all line_size items c.streams } in
            let held = enter_all-AllValid line_size base items c.streams v distinct ready.0 in
            elim (Bool-cases
              (waits line_size answers.await_all items && not answers.receipts_kept)) [
                | inl g ↦ rw (f, g, publish_durable) held
                | inr g ↦
                    rw
                      (
                        f,
                        g,
                        publish_durable,
                        noted_streams line_size (present e.event_id) id e ks done,
                      )
                      held
              ]
      ]

  publish_routed-AllValid :
      (id : String) (e : Event) (r : Route) (c : Coordinator)
      → Distinct r.targets
      → AllValid base c.streams
      → AllValid base (publish_routed line_size answers id e r c).1.streams
  unfolding publish_routed publish_live
  publish_routed-AllValid id e r c d v =
      let go =
        publish_durable-AllValid id e (sorted r.targets) r.terminals c (sorted-Distinct r.targets d)
          v in
      let live = publish_live-AllValid id e c v in
      elim (Option-cases (lookup id c.payloads)) [
        | inr (p, f) ↦ elim (Bool-cases (same_event p e)) [
          | inl g ↦ rw (f, g, publish_routed) v
          | inr g ↦ rw (f, g, publish_routed) v
        ]
        | inl f ↦ elim (List-cases r.targets) [
          | inl g ↦ rw (f, g, publish_routed) live
          | inr (k, ks, g) ↦ rw (f, g, publish_routed) (rw g at go)
        ]
      ]

  -- If every stream is valid behind the row at which it was opened, it is so after a publication,
  -- whatever the event and however the publication ends.
  pub publish-AllValid :
      (fresh_id : String) (e : Event) (c : Coordinator)
      → AllValid base c.streams
      → AllValid base (publish_event_once line_size answers fresh_id e c).1.streams
  unfolding publish_event_once
  publish-AllValid fresh_id e c v = elim (Bool-cases c.accepting) [
    | inr a ↦ rw (a, publish_event_once) v
    | inl a ↦ elim (Result-cases (route_event c.streams c.identities e)) [
      | inl (x, f) ↦ rw (a, f, publish_event_once) v
      | inr (r, f) ↦
          rw (a, f, publish_event_once)
            (publish_routed-AllValid (id_of line_size (present e.event_id) fresh_id) e r c
              (route_event-Distinct c.streams c.identities e r f) v)
    ]
  ]
