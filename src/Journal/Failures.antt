-- ===== src/Journal/Failures.antt =====
-- What a failed publication leaves, and which failures the routing and the reservations have
-- (core/events/journal.py, `_route_event` and `_publish_event_once`).
use mathlib.Core.Option.{map}
use mathlib.Core.Path.{subst}
use claudecode_lite_main.Prelude.{
  ℕ, String, List, [], ◌∷◌, Option, none, some, Bool, ◌≡◌, refl, ap, ◌∙◌, ◌⊎◌, inl, inr, arith,
  str_eq, eq_iff, ◌++◌, lookup, lookup-insert, if◌then◌else◌, Option-cases,
}
use claudecode_lite_main.Journal.Stream.{degraded, Event, StreamState}
use claudecode_lite_main.Journal.Routing.{
  JournalError, coordinator_closing, duplicate_owner, capacity, unknown_stream, not_open,
  identity_disagreement, payload_conflict, receipt_failed, live_failed, Result, ok, err, ◌>>=◌,
  Identities, run_stream, session_stream, session_of_run, add, add_option, present, text_or_empty,
  registered, to_session, runs_of, run_targets, agreed_session, with_session, to_runs, route_event,
}
use claudecode_lite_main.Journal.Publish.{Coordinator, reserve, reserve_all, on_failure}

-- The failures of the routing, which leave the coordinator alone.
abbrev pub Harmless : JournalError → Type 0
Harmless (capacity k) = ⊥
Harmless receipt_failed = ⊥
Harmless live_failed = ⊥
Harmless _ = Unit

-- Every stream is kept under its own name.
abbrev pub Named : List (String × StreamState) → Type 0
Named streams = (k : String) (s : StreamState) → lookup k streams ≡ some s → s.stream_id ≡ k

abbrev pub as_degraded : StreamState → StreamState
as_degraded s = record s { lifecycle = degraded }

-- After an overflow of the stream `k` just the lifecycle of that stream has changed, and its failure is
-- reported.
pub record Overflowed (k : String) (c d : Coordinator) : Type 0 where
  pub streams :
      (j : String)
      → lookup j d.streams
        ≡ (if str_eq k j then map as_degraded (lookup j c.streams) else lookup j c.streams)
  pub reported : d.reported ≡ c.reported ++ k ∷ []
  pub rest : d ≡ record c { streams = d.streams; reported = d.reported }

-- What a failure leaves of the coordinator `c`; `after` gives each stream with the event entered.
abbrev pub Refused :
    (String → Option StreamState) → JournalError → Event → Coordinator → Coordinator → Type 0
Refused after (capacity k) e c d = Overflowed k c d
Refused after receipt_failed e c d =
    ((j : String) → lookup j d.streams ≡ after j) × (d ≡ record c { streams = d.streams })
Refused after live_failed e c d = d ≡ record c { live_only = c.live_only ++ e ∷ [] }
Refused after _ e c d = d ≡ c

pub Harmless-Refused :
    (after : String → Option StreamState) (x : JournalError) (e : Event) (c : Coordinator)
    → Harmless x
    → Refused after x e c c
Harmless-Refused after (capacity k) e c h = elim h [ ]
Harmless-Refused after receipt_failed e c h = elim h [ ]
Harmless-Refused after live_failed e c h = elim h [ ]
Harmless-Refused after _ e c h = refl

pub Refused-moved :
    (a b : String → Option StreamState) (x : JournalError) (e : Event) (c d : Coordinator)
    → ((j : String) → a j ≡ b j)
    → Refused a x e c d
    → Refused b x e c d
Refused-moved a b receipt_failed e c d h r = (λ j. r.0 j ∙ h j, r.1)
Refused-moved a b _ e c d h r = r

-- The failures of the reservations.
abbrev pub Reserving : List (String × StreamState) → JournalError → Type 0
Reserving streams (capacity k) = (s : StreamState) × (lookup k streams ≡ some s)
Reserving streams receipt_failed = ⊥
Reserving streams live_failed = ⊥
Reserving streams _ = Unit

-- A chain that fails has a part that fails.
chain-err :
    {A B : Type 0} (m : Result A) (f : A → Result B) (x : JournalError)
    → (m >>= f) ≡ err x
    → (m ≡ err x) ⊎ ((a : A) × (m ≡ ok a) × (f a ≡ err x))
chain-err (ok a) f x h = inr (a, refl, h)
chain-err (err e) f x h = let same : e ≡ x = cc in inl (rw same)

module _ (streams : List (String × StreamState)) (ids : Identities) (x : JournalError) where
  registered-Harmless : (k : String) → registered streams ids k ≡ err x → Harmless x
  unfolding registered
  registered-Harmless k h = ground arith

  run_targets-Harmless :
      (rs ts ss : List String) → run_targets streams ids rs ts ss ≡ err x → Harmless x
  unfolding run_targets
  run_targets-Harmless [] ts ss h = ground arith
  run_targets-Harmless (r ∷ rs) ts ss h =
      elim (chain-err (registered streams ids (run_stream r)) _ x h) [
        | inl e ↦ registered-Harmless (run_stream r) e
        | inr (k, e, f) ↦
            run_targets-Harmless rs (add k ts) (add_option (session_of_run r ids) ss) f
      ]

  to_session-Harmless :
      (s : String) (ends : Bool) → to_session streams ids s ends ≡ err x → Harmless x
  unfolding to_session
  to_session-Harmless s ends h =
      elim (chain-err (registered streams ids (session_stream s)) _ x h) [
        | inl e ↦ registered-Harmless (session_stream s) e
        | inr (k, e, f) ↦ cc
      ]

  with_session-Harmless :
      (s : Option String) (ts : List String) → with_session streams ids s ts ≡ err x → Harmless x
  unfolding with_session
  with_session-Harmless none ts h = ground arith
  with_session-Harmless (some s) ts h =
      elim (chain-err (registered streams ids (session_stream s)) _ x h) [
        | inl e ↦ registered-Harmless (session_stream s) e
        | inr (k, e, f) ↦ cc
      ]

  agreed_session-Harmless :
      (s : Option String) (found : List String)
      → agreed_session streams ids s found ≡ err x
      → Harmless x
  unfolding agreed_session
  agreed_session-Harmless s found h = ground arith

  to_runs-Harmless :
      (e : Event) (run_id : String) → to_runs streams ids e run_id ≡ err x → Harmless x
  unfolding to_runs
  to_runs-Harmless e run_id h =
      elim (chain-err (run_targets streams ids (runs_of streams ids e run_id) [] []) _ x h) [
        | inl f ↦ run_targets-Harmless (runs_of streams ids e run_id) [] [] f
        | inr (found, e0, g) ↦
            elim (chain-err (agreed_session streams ids (present e.session_id) found.1) _ x g) [
              | inl f ↦ agreed_session-Harmless (present e.session_id) found.1 f
              | inr (s, e1, g1) ↦ elim (chain-err (with_session streams ids s found.0) _ x g1) [
                | inl f ↦ with_session-Harmless s found.0 f
                | inr (ts, e2, g2) ↦ cc
              ]
            ]
      ]

  pub route_event-Harmless : (e : Event) → route_event streams ids e ≡ err x → Harmless x
  unfolding route_event
  route_event-Harmless e h =
      let own = to_session-Harmless (text_or_empty e.session_id) (str_eq e.type "session.closed") in
      grind (arith, own, to_session-Harmless, to_runs-Harmless)

module _ (line_size : String → String → ℕ → Event → ℕ) where
  pub on_failure-Refused :
      (after : String → Option StreamState) (x : JournalError) (e : Event) (c : Coordinator)
      → Reserving c.streams x
      → Refused after x e c (on_failure line_size x c)
  unfolding on_failure
  on_failure-Refused after (capacity k) e c (s, there) =
      rw (there, on_failure)
        (record {
          streams =
              λ j. ground (arith, eq_iff k j, there, lookup-insert k j (as_degraded s) c.streams);
          reported = refl;
          rest = refl;
        })
  on_failure-Refused after coordinator_closing e c h = refl
  on_failure-Refused after (duplicate_owner k) e c h = refl
  on_failure-Refused after (unknown_stream k) e c h = refl
  on_failure-Refused after (not_open k) e c h = refl
  on_failure-Refused after identity_disagreement e c h = refl
  on_failure-Refused after payload_conflict e c h = refl
  on_failure-Refused after receipt_failed e c h = elim h [ ]
  on_failure-Refused after live_failed e c h = elim h [ ]

  reserve-err :
      (id : String) (e : Event) (ts : List String) (s : StreamState) (x : JournalError)
      → reserve line_size id e ts s ≡ err x
      → (not_open s.stream_id ≡ x) ⊎ (capacity s.stream_id ≡ x)
  unfolding reserve
  reserve-err id e ts s x h = ground (arith, h)

  reserve-Reserving :
      (streams : List (String × StreamState)) (k id : String) (e : Event) (ts : List String)
      (s : StreamState) (x : JournalError)
      → lookup k streams ≡ some s
      → s.stream_id ≡ k
      → reserve line_size id e ts s ≡ err x
      → Reserving streams x
  reserve-Reserving streams k id e ts s x there own h = elim (reserve-err id e ts s x h) [
    | inl closed_one ↦ subst (Reserving streams) closed_one tt
    | inr full ↦
        let found : Reserving streams (capacity s.stream_id) =
          (s, ap (λ j. lookup j streams) own ∙ there) in
        subst (Reserving streams) full found
  ]

  pub reserve_all-Reserving :
      (streams : List (String × StreamState)) (ks : List String) (id : String) (e : Event)
      (ts : List String) (x : JournalError)
      → Named streams
      → reserve_all line_size id e ts streams ks ≡ err x
      → Reserving streams x
  unfolding reserve_all
  reserve_all-Reserving streams [] id e ts x n h = cc
  reserve_all-Reserving streams (k ∷ ks) id e ts x n h = elim (Option-cases (lookup k streams)) [
    | inl f ↦ let same : err (unknown_stream k) ≡ err x = rw (f, reserve_all) at h in ground arith
    | inr (s, f) ↦
        let chained = rw (f, reserve_all) at h in
        elim (chain-err (reserve line_size id e ts s) _ x chained) [
          | inl g ↦ reserve-Reserving streams k id e ts s x f (n k s f) g
          | inr (item, g, later) ↦
              elim (chain-err (reserve_all line_size id e ts streams ks) _ x later) [
                | inl g1 ↦ reserve_all-Reserving streams ks id e ts x n g1
                | inr (items, g1, last) ↦ cc
              ]
        ]
  ]
