-- ===== src/Permissions/Manager.antt =====
-- core/permissions/manager.py. The coroutine `check_and_wait` is cut at its `await`: `check` runs to
-- the decision or to the suspension, and `resume` or `expire` goes on from there. The futures of the
-- event loop are a store from numbers to their state. A write of the policy file may fail, which the
-- source catches: `write_ok` says which it was.
use claudecode_lite_main.Prelude.{
  ℕ, ◌+◌, String, List, [], ◌∷◌, Option, none, some, Bool, true, false, ◌&&◌, ◌||◌, ◌==◌, lookup,
  insert, remove, keys_where, str_eq, if◌then◌else◌,
}
use claudecode_lite_main.Permissions.Policy.{
  Decision, allow, deny, ask, ToolPolicy, default_policies, truthy, command_of, hits,
  matches_outside_cwd, evaluate,
}

-- What a cache keeps for a tool, "allow" or "deny".
pub data Always : Type 0 where
  allowed denied : Always

pub data FutureState : Type 0 where
  waiting : FutureState
  resolved : String → FutureState
  cancelled : FutureState

pub record PendingRequest : Type 0 where
  pub future : ℕ
  pub session_id : String
  pub tool_name : String

pub record Manager : Type 0 where
  pub policies : List (String × ToolPolicy)
  pub pending : List (String × PendingRequest)
  -- keyed by (session_id, tool_name)
  pub session_always : String → String → Option Always
  pub persistent_always : List (String × Always)
  pub has_policy_file : Bool
  pub has_timeout : Bool
  -- what the policy file holds after the last write
  pub saved : Option (List (String × Always))
  -- the event loop's futures
  pub futures : ℕ → FutureState
  pub next_future : ℕ

-- The second component of the result of `check_and_wait`.
pub data Label : Type 0 where
  auto : Always → Label
  raw : String → Label
  timeout : Label

-- The local variables of a suspended `check_and_wait`.
pub record Ticket : Type 0 where
  pub future : ℕ
  pub tool_use_id : String
  pub tool_name : String
  pub session_id : String

-- `suspended` also stands for the event `permission.requested`, which carries the ticket's names.
pub data Outcome : Type 0 where
  decided : Bool → Label → Outcome
  suspended : Ticket → Outcome

abbrev pub is_allowed : Always → Bool
is_allowed allowed = true
is_allowed denied = false

abbrev pub set_future : ℕ → FutureState → (ℕ → FutureState) → ℕ → FutureState
set_future f s futures i = if f == i then s else futures i

abbrev pub set_session :
    String → String → Always → (String → String → Option Always) → String → String → Option Always
set_session session tool a cache s t =
    if str_eq session s && str_eq tool t then some a else cache s t

-- The part behind the tiers: register a future and ask the user.
unfoldable pub ask_user : String → String → String → Manager → Manager × Outcome
ask_user tool_use_id tool_name session_id m = (
  record m {
    pending =
        insert tool_use_id
          (record { future = m.next_future; session_id = session_id; tool_name = tool_name })
          m.pending;
    futures = set_future m.next_future waiting m.futures;
    next_future = m.next_future + 1;
  },
  suspended (record {
    future = m.next_future;
    tool_use_id = tool_use_id;
    tool_name = tool_name;
    session_id = session_id;
  }),
)

-- Tier 6: the tool's default, or the user.
unfoldable pub by_default : Option ToolPolicy → Option Outcome
by_default none = none
by_default (some policy) = elim policy.default [
  | allow ↦ some (decided true (auto allowed))
  | deny ↦ some (decided false (auto denied))
  | ask ↦ none
]

abbrev pub deny_patterns_of : Option ToolPolicy → List String
deny_patterns_of none = []
deny_patterns_of (some policy) = policy.deny_patterns

abbrev pub allow_patterns_of : Option ToolPolicy → List String
allow_patterns_of none = []
allow_patterns_of (some policy) = policy.allow_patterns

abbrev pub from_cache : Always → Outcome
from_cache a = decided (is_allowed a) (auto a)

module _ {V : Type 0} (str : V → String) (re_search : String → String → Bool) where
  unfoldable pub evaluate_for : Manager → String → List (String × V) → Decision
  unfolding evaluate
  evaluate_for m tool_name params =
      evaluate str re_search tool_name params (lookup tool_name m.policies)

  -- Tiers 3 to 6, for a command that stays inside the working directory.
  unfoldable pub decide_inside : Manager → String → String → String → Option Outcome
  unfolding by_default
  decide_inside m tool_name command session_id = elim (m.session_always session_id tool_name) [
    | some a ↦ some (from_cache a)
    | none ↦ elim (lookup tool_name m.persistent_always) [
      | some a ↦ some (from_cache a)
      | none ↦
          if hits str re_search (allow_patterns_of (lookup tool_name m.policies)) command
          then some (decided true (auto allowed))
          else by_default (lookup tool_name m.policies)
    ]
  ]

  -- Tiers 1 to 6; `none` is the path that asks.
  unfoldable pub decide_static : Manager → String → String → String → Option Outcome
  unfolding decide_inside
  decide_static m tool_name command session_id =
      if hits str re_search (deny_patterns_of (lookup tool_name m.policies)) command
      then some (decided false (auto denied))
      else if truthy command && matches_outside_cwd str re_search command
      then none
      else decide_inside m tool_name command session_id

  -- `check_and_wait` up to its result or its `await`.
  unfoldable pub check : String → String → List (String × V) → String → Manager → Manager × Outcome
  unfolding decide_static ask_user
  check tool_use_id tool_name params session_id m =
      elim (decide_static m tool_name (command_of str re_search tool_name params) session_id) [
        | some outcome ↦ (m, outcome)
        | none ↦ ask_user tool_use_id tool_name session_id m
      ]

-- Both caches, and the policy file where there is one and the write succeeds.
unfoldable pub remember : Bool → Always → String → String → Manager → Manager
remember write_ok a session_id tool_name m =
    let always = insert tool_name a m.persistent_always in
    record m {
      session_always = set_session session_id tool_name a m.session_always;
      persistent_always = always;
      saved = if m.has_policy_file && write_ok then some always else m.saved;
    }

-- `_apply_response`.
unfoldable pub apply_response : Bool → String → String → String → Manager → Manager × Bool
unfolding remember
apply_response write_ok decision session_id tool_name m =
    let allow_it = str_eq decision "allow_once" || str_eq decision "always_allow" in
    if str_eq decision "always_allow"
    then (remember write_ok allowed session_id tool_name m, allow_it)
    else if str_eq decision "always_deny"
    then (remember write_ok denied session_id tool_name m, allow_it)
    else (m, allow_it)

-- `check_and_wait` behind its `await`: nothing while the future waits.
unfoldable pub resume : Bool → Ticket → Manager → Manager × Option (Bool × Label)
unfolding apply_response
resume write_ok t m = elim (m.futures t.future) [
  | waiting ↦ (m, none)
  | cancelled ↦ (record m { pending = remove t.tool_use_id m.pending }, some (false, timeout))
  | resolved answer ↦
      let (m', ok) = apply_response write_ok answer t.session_id t.tool_name m in
      (m', some (ok, raw answer))
]

-- The timer of `asyncio.wait_for`: it cancels a future that still waits.
unfoldable pub expire : Ticket → Manager → Manager
expire t m = elim (m.futures t.future) [
  | waiting ↦
      if m.has_timeout then record m { futures = set_future t.future cancelled m.futures } else m
  | done ↦ m
]

-- `future.set_result(answer)` unless it is done.
unfoldable pub settle : ℕ → String → Manager → Manager
settle f answer m = elim (m.futures f) [
  | waiting ↦ record m { futures = set_future f (resolved answer) m.futures }
  | done ↦ m
]

unfoldable pub respond : String → String → Manager → Manager
unfolding settle
respond tool_use_id decision m = elim (lookup tool_use_id m.pending) [
  | none ↦ m
  | some req ↦ settle req.future decision (record m { pending = remove tool_use_id m.pending })
]

-- The keys of the requests of a session, `to_cancel`.
unfoldable pub requests_of : String → List (String × PendingRequest) → List String
requests_of session_id pending = keys_where (λ req. str_eq req.session_id session_id) pending

-- The loop over `to_cancel` pops each request and answers it.
unfoldable pub cancel_all : List String → Manager → Manager
unfolding respond
cancel_all [] m = m
cancel_all (uid ∷ uids) m = cancel_all uids (respond uid "deny_once" m)

unfoldable pub cancel_session : String → Manager → Manager
unfolding cancel_all requests_of
cancel_session session_id m = cancel_all (requests_of session_id m.pending) m

-- `PermissionManager.__init__`: `loaded` is what `load_policy_file` returned, where there is a file.
unfoldable pub new_manager :
    List (String × ToolPolicy) → Option (List (String × Always)) → Bool → Manager
new_manager policies loaded has_timeout = record {
  policies = elim policies [ [] ↦ default_policies | p ∷ ps ↦ p ∷ ps ];
  pending = [];
  session_always = λ _ _. none;
  persistent_always = elim loaded [ none ↦ [] | some always ↦ always ];
  has_policy_file = elim loaded [ none ↦ false | some _ ↦ true ];
  has_timeout = has_timeout;
  saved = loaded;
  futures = λ _. cancelled;
  next_future = 0;
}
