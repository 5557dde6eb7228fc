-- ===== src/Journal/Routing.antt =====
-- core/events/journal.py: the identity registry, and the routing of an event to its durable streams.
use Prim.Native.String.{◌++◌ as str_append, compare}
use Prim.Native.Nat.{Ordering}
use claudecode_lite_main.Prelude.{
  String, List, [], ◌∷◌, Option, none, some, Bool, true, false, ◌||◌, str_eq, starts_with, lookup,
  insert, has, mem, if◌then◌else◌,
}
use claudecode_lite_main.Journal.Stream.{Event, StreamState}

-- `receipt_failed` and `live_failed` stand for what the wait for the receipts and `on_live_only` raise.
pub data JournalError : Type 0 where
  coordinator_closing : JournalError
  duplicate_owner : String → JournalError
  capacity : String → JournalError
  unknown_stream : String → JournalError
  not_open : String → JournalError
  identity_disagreement : JournalError
  payload_conflict : JournalError
  receipt_failed : JournalError
  live_failed : JournalError

pub data Result (A : Type 0) : Type 0 where
  ok : A → Result A
  err : JournalError → Result A

-- An exception ends the chain.
infixl 5 ◌>>=◌
abbrev pub ◌>>=◌ : {A B : Type 0} → Result A → (A → Result B) → Result B
err failure >>= go = err failure
ok found >>= go = go found

-- `RunSessionIdentityRegistry`.
pub record Identities : Type 0 where
  pub run_sessions : List (String × Option String)
  pub sessions : List String

abbrev pub run_stream : String → String
run_stream run_id = str_append "run:" run_id

abbrev pub session_stream : String → String
session_stream session_id = str_append "session:" session_id

unfoldable pub register_session : String → Identities → Result Identities
register_session session_id ids =
    if mem session_id ids.sessions
    then err (duplicate_owner (session_stream session_id))
    else ok (record ids { sessions = session_id ∷ ids.sessions })

abbrev pub known_session : Option String → List String → Bool
known_session none sessions = true
known_session (some s) sessions = mem s sessions

abbrev pub session_name : Option String → String
session_name none = ""
session_name (some s) = session_stream s

unfoldable pub register_run : String → Option String → Identities → Result Identities
register_run run_id session_id ids =
    if has run_id ids.run_sessions
    then err (duplicate_owner (run_stream run_id))
    else if known_session session_id ids.sessions
    then ok (record ids { run_sessions = insert run_id session_id ids.run_sessions })
    else err (unknown_stream (session_name session_id))

-- `lookup_run`, without the Boolean: an unknown run and a run with no session are both `none`, which is
-- all that the routing asks for.
abbrev pub session_of_run : String → Identities → Option String
session_of_run run_id ids = elim (lookup run_id ids.run_sessions) [ none ↦ none | some s ↦ s ]

-- `set.add`.
unfoldable pub add : String → List String → List String
add k set = if mem k set then set else k ∷ set

abbrev pub add_option : Option String → List String → List String
add_option none set = set
add_option (some k) set = add k set

-- `sorted(targets)`.
unfoldable pub insert_text : String → List String → List String
insert_text k [] = k ∷ []
insert_text k (j ∷ js) =
    let rest = insert_text k js in elim (compare k j) [ Ordering.gt ↦ j ∷ rest | _ ↦ k ∷ j ∷ js ]

unfoldable pub sorted : List String → List String
unfolding insert_text
sorted [] = []
sorted (k ∷ ks) = insert_text k (sorted ks)

-- Where an event goes, and which of these streams it ends.
pub record Route : Type 0 where
  pub targets : List String
  pub terminals : List String

abbrev pub nowhere : Route
nowhere = record { targets = []; terminals = [] }

-- A text field that is there and not empty.
abbrev pub present : Option String → Option String
present none = none
present (some s) = if str_eq s "" then none else some s

abbrev pub text_or_empty : Option String → String
text_or_empty none = ""
text_or_empty (some s) = s

module _ (streams : List (String × StreamState)) (ids : Identities) where
  -- The stream, if it is registered.
  unfoldable pub registered : String → Result String
  registered k = if has k streams then ok k else err (unknown_stream k)

  -- An event that goes to the stream of one session.
  unfoldable pub to_session : String → Bool → Result Route
  unfolding registered
  to_session session_id ends = do
    k ← registered (session_stream session_id)
    ok (record { targets = k ∷ []; terminals = if ends then k ∷ [] else [] })

  -- The runs of an event: its own, and the parent's for an event of a subagent.
  unfoldable pub runs_of : Event → String → List String
  runs_of e run_id =
      if starts_with e.type "subagent."
      then elim (present e.parent_run_id) [
        | none ↦ run_id ∷ []
        | some parent ↦ run_id ∷ parent ∷ []
      ]
      else run_id ∷ []

  -- The loop over the runs: their streams must be there; their sessions are collected.
  unfoldable pub run_targets :
      List String → List String → List String → Result (List String × List String)
  unfolding registered
  run_targets [] targets sessions = ok (targets, sessions)
  run_targets (r ∷ rs) targets sessions = do
    k ← registered (run_stream r)
    run_targets rs (add k targets) (add_option (session_of_run r ids) sessions)

  -- The sessions of the runs and the event's own must agree.
  unfoldable pub agreed_session : Option String → List String → Result (Option String)
  agreed_session none [] = ok none
  agreed_session none (s ∷ []) = ok (some s)
  agreed_session none (s ∷ t ∷ rest) = err identity_disagreement
  agreed_session (some d) [] = ok (some d)
  agreed_session (some d) (s ∷ []) = if str_eq s d then ok (some d) else err identity_disagreement
  agreed_session (some d) (s ∷ t ∷ rest) = err identity_disagreement

  unfoldable pub with_session : Option String → List String → Result (List String)
  unfolding registered
  with_session none targets = ok targets
  with_session (some s) targets = do k ← registered (session_stream s); ok (add k targets)

  abbrev pub ends_run : Event → Bool
  ends_run e = str_eq e.type "run.finished" || str_eq e.type "subagent.finished"

  unfoldable pub to_runs : Event → String → Result Route
  unfolding runs_of run_targets agreed_session with_session
  to_runs e run_id = do
    found ← run_targets (runs_of e run_id) [] []
    session ← agreed_session (present e.session_id) found.1
    targets ← with_session session found.0
    ok (record { targets = targets; terminals = if ends_run e then run_stream run_id ∷ [] else [] })

  -- `_route_event`.
  unfoldable pub route_event : Event → Result Route
  unfolding to_session to_runs
  route_event e =
      if str_eq e.type "core.started"
      then ok nowhere
      else if starts_with e.type "session."
      then to_session (text_or_empty e.session_id) (str_eq e.type "session.closed")
      else elim e.run_id [
        | none ↦ elim (present e.session_id) [ some s ↦ to_session s false | none ↦ ok nowhere ]
        | some run_id ↦ if str_eq run_id "" then ok nowhere else to_runs e run_id
      ]
