-- ===== src/Journal/Targets.antt =====
-- The targets of an event form a set (core/events/journal.py, `_route_event`).
use claudecode_lite_main.Prelude.{
  String, List, [], ◌∷◌, Option, none, some, Bool, true, false, str_eq, eq_iff, mem, if◌then◌else◌,
  ◌≡◌, refl, sym, arith,
}
use claudecode_lite_main.Journal.Stream.{Event, StreamState}
use claudecode_lite_main.Journal.Routing.{
  Result, ok, err, ◌>>=◌, Identities, run_stream, session_stream, session_of_run, add, add_option,
  insert_text, sorted, Route, present, text_or_empty, registered, to_session, runs_of, run_targets,
  agreed_session, with_session, ends_run, to_runs, route_event,
}

abbrev pub Distinct : List String → Type 0
Distinct [] = Unit
Distinct (k ∷ ks) = (mem k ks ≡ false) × Distinct ks

mem-insert_text :
    (x k : String) (ks : List String)
    → mem x (insert_text k ks) ≡ (if str_eq k x then true else mem x ks)
unfolding mem insert_text
mem-insert_text x k [] = refl
mem-insert_text x k (j ∷ js) = ground (arith, mem-insert_text x k js)

pub mem-sorted : (x : String) (ks : List String) → mem x (sorted ks) ≡ mem x ks
unfolding mem sorted
mem-sorted x [] = refl
mem-sorted x (k ∷ ks) = ground (arith, mem-sorted x ks, mem-insert_text x k (sorted ks))

insert_text-Distinct :
    (k : String) (ks : List String) → mem k ks ≡ false → Distinct ks → Distinct (insert_text k ks)
unfolding mem insert_text
insert_text-Distinct k [] h d = (refl, tt)
insert_text-Distinct k (j ∷ js) h d =
    ground (arith, eq_iff j k, eq_iff k j, mem-insert_text j k js, insert_text-Distinct k js)

pub sorted-Distinct : (ks : List String) → Distinct ks → Distinct (sorted ks)
unfolding sorted
sorted-Distinct [] d = tt
sorted-Distinct (k ∷ ks) d =
    insert_text-Distinct k (sorted ks) (rw (mem-sorted k ks) d.0) (sorted-Distinct ks d.1)

add-Distinct : (k : String) (ks : List String) → Distinct ks → Distinct (add k ks)
unfolding add
add-Distinct k ks d = ground arith

-- A chain that succeeds has a first part that succeeds.
pub chain-ok :
    {A B : Type 0} (m : Result A) (f : A → Result B) (b : B)
    → (m >>= f) ≡ ok b
    → (a : A) × (m ≡ ok a) × (f a ≡ ok b)
chain-ok (ok a) f b h = (a, refl, h)
chain-ok (err e) f b h = cc

module _ (streams : List (String × StreamState)) (ids : Identities) where
  run_targets-Distinct :
      (rs ts ss : List String) (found : List String × List String)
      → Distinct ts
      → run_targets streams ids rs ts ss ≡ ok found
      → Distinct found.0
  unfolding run_targets
  run_targets-Distinct [] ts ss found d h = ground arith
  run_targets-Distinct (r ∷ rs) ts ss found d h =
      let c = chain-ok (registered streams ids (run_stream r)) _ found h in
      run_targets-Distinct rs (add c.0 ts) (add_option (session_of_run r ids) ss) found
        (add-Distinct c.0 ts d) c.2

  to_session-Distinct :
      (s : String) (ends : Bool) (r : Route)
      → to_session streams ids s ends ≡ ok r
      → Distinct r.targets
  unfolding to_session mem
  to_session-Distinct s ends r h =
      let c = chain-ok (registered streams ids (session_stream s)) _ r h in
      let e : record { targets = c.0 ∷ []; terminals = if ends then c.0 ∷ [] else [] } ≡ r = cc in
      rw (sym e) (refl, tt)

  with_session-Distinct :
      (s : Option String) (ts found : List String)
      → Distinct ts
      → with_session streams ids s ts ≡ ok found
      → Distinct found
  unfolding with_session
  with_session-Distinct none ts found d h = ground arith
  with_session-Distinct (some s) ts found d h =
      let c = chain-ok (registered streams ids (session_stream s)) _ found h in
      let e = add-Distinct c.0 ts d in let same : add c.0 ts ≡ found = cc in rw (sym same) e

  to_runs-Distinct :
      (e : Event) (run_id : String) (r : Route)
      → to_runs streams ids e run_id ≡ ok r
      → Distinct r.targets
  unfolding to_runs
  to_runs-Distinct e run_id r h =
      let c = chain-ok (run_targets streams ids (runs_of streams ids e run_id) [] []) _ r h in
      let d = chain-ok (agreed_session streams ids (present e.session_id) c.0.1) _ r c.2 in
      let w = chain-ok (with_session streams ids d.0 c.0.0) _ r d.2 in
      let ts = run_targets-Distinct (runs_of streams ids e run_id) [] [] c.0 tt c.1 in
      let last = with_session-Distinct d.0 c.0.0 w.0 ts w.1 in
      let same : record {
        targets = w.0;
        terminals = if ends_run streams ids e then run_stream run_id ∷ [] else [];
      }
          ≡ r =
        cc in
      rw (sym same) last

  -- No stream is a target twice.
  pub route_event-Distinct :
      (e : Event) (r : Route) → route_event streams ids e ≡ ok r → Distinct r.targets
  unfolding route_event
  route_event-Distinct e r h =
      let own =
        to_session-Distinct (text_or_empty e.session_id) (str_eq e.type "session.closed") r in
      grind (arith, own, to_session-Distinct, to_runs-Distinct)
