-- ===== src/Permissions/Pending.antt =====
-- The questions that wait for the user: the table stays well formed, a session that goes away leaves none,
-- and an answer "always" is remembered (core/permissions/manager.py).
use claudecode_lite_main.Prelude.{
  ℕ, ◌<◌, String, List, [], ◌∷◌, Option, none, some, Bool, true, false, ◌≡◌, refl, sym, ◌∙◌, ◌≢◌,
  ◌⊎◌, inl, inr, arith, lookup, remove, str_eq, if◌then◌else◌, eq_iff, mem, IsDict, insert-IsDict,
  remove-IsDict, lookup-insert, lookup-remove, mem-keys_where, Bool-cases, Option-cases,
}
use claudecode_lite_main.Permissions.Policy.{ToolPolicy}
use claudecode_lite_main.Permissions.Checks.{is_denied, is_outside}
use claudecode_lite_main.Permissions.Manager.{
  Always, allowed, FutureState, waiting, resolved, PendingRequest, Manager, auto, raw, Ticket,
  decided, check, ask_user, resume, settle, respond, requests_of, cancel_all, cancel_session,
  new_manager,
}

-- The state of the questions: the table is a dictionary, its futures are distinct and registered.
pub record IsValid (m : Manager) : Type 0 where
  pub is_dict : IsDict m.pending
  pub fresh :
      (uid : String) (r : PendingRequest) → lookup uid m.pending ≡ some r → r.future < m.next_future
  pub apart :
      (u v : String) (r s : PendingRequest)
      → lookup u m.pending ≡ some r
      → lookup v m.pending ≡ some s
      → r.future ≡ s.future
      → u ≡ v

abbrev asked : Manager → String → String → PendingRequest
asked m tool session = record { future = m.next_future; session_id = session; tool_name = tool }

ask_user-IsValid :
    (uid tool session : String) (m : Manager) → IsValid m → IsValid (ask_user uid tool session m).0
unfolding ask_user
ask_user-IsValid uid tool session m v = record {
  is_dict = insert-IsDict uid _ m.pending v.is_dict;
  fresh =
      λ u r h. ground (arith, lookup-insert uid u (asked m tool session) m.pending, v.fresh u r);
  apart = λ u w r s h k e. ground (
    arith,
    eq_iff uid u,
    eq_iff uid w,
    v.fresh u r,
    v.fresh w s,
    v.apart u w r s,
    lookup-insert uid u (asked m tool session) m.pending,
    lookup-insert uid w (asked m tool session) m.pending,
  );
}

-- Every call of `check` keeps the table of questions well formed.
pub check-IsValid :
    {V : Type 0} (str : V → String) (re_search : String → String → Bool) (uid tool : String)
    (params : List (String × V)) (session : String) (m : Manager)
    → IsValid m
    → IsValid (check str re_search uid tool params session m).0
unfolding check
check-IsValid str re_search uid tool params session m v =
    ground (arith, ask_user-IsValid uid tool session m v)

abbrev popped : String → Manager → Manager
popped uid m = record m { pending = remove uid m.pending }

popped-IsValid : (uid : String) (m : Manager) → IsValid m → IsValid (popped uid m)
popped-IsValid uid m v = record {
  is_dict = remove-IsDict uid m.pending v.is_dict;
  fresh = λ u r h. ground (arith, lookup-remove uid u m.pending, v.fresh u r);
  apart = λ u w r s h k e.
      ground (arith, v.apart u w r s, lookup-remove uid u m.pending, lookup-remove uid w m.pending);
}

settle-IsValid : (f : ℕ) (answer : String) (m : Manager) → IsValid m → IsValid (settle f answer m)
unfolding settle
settle-IsValid f answer m v = ground arith

pub respond-IsValid :
    (uid answer : String) (m : Manager) → IsValid m → IsValid (respond uid answer m)
unfolding respond
respond-IsValid uid answer m v = elim (Option-cases (lookup uid m.pending)) [
  | inl e ↦ rw (e, respond) v
  | inr (req, e) ↦
      rw (e, respond) (settle-IsValid req.future answer (popped uid m) (popped-IsValid uid m v))
]

-- What `respond` does to a request of the table: the one that is named is taken out and its future
-- is settled; every other one stays, and its future with it.
abbrev pub settled : FutureState → String → FutureState
settled waiting answer = resolved answer
settled done answer = done

respond_entry :
    (uid answer k : String) (r : PendingRequest) (m : Manager)
    → IsValid m
    → lookup k m.pending ≡ some r
    → (lookup k (respond uid answer m).pending ≡ (if str_eq uid k then none else some r))
      × ((respond uid answer m).futures r.future
          ≡ (if str_eq uid k then settled (m.futures r.future) answer else m.futures r.future))
unfolding respond settle
respond_entry uid answer k r m v h = elim (Option-cases (lookup uid m.pending)) [
  | inl e ↦ ground (arith, eq_iff uid k)
  | inr (req, e) ↦
      ground (arith, eq_iff uid k, lookup-remove uid k m.pending, v.apart uid k req r e h)
]

respond_done :
    (uid answer : String) (f : ℕ) (m : Manager)
    → m.futures f ≢ waiting
    → (respond uid answer m).futures f ≡ m.futures f
unfolding respond settle
respond_done uid answer f m d = ground arith

respond_gone :
    (uid answer k : String) (m : Manager)
    → lookup k m.pending ≡ none
    → lookup k (respond uid answer m).pending ≡ none
unfolding respond settle
respond_gone uid answer k m h = ground (arith, lookup-remove uid k m.pending)

cancel_all_done :
    (uids : List String) (f : ℕ) (m : Manager)
    → m.futures f ≢ waiting
    → (cancel_all uids m).futures f ≡ m.futures f
unfolding cancel_all
cancel_all_done [] f m d = refl
cancel_all_done (uid ∷ uids) f m d =
    let e = respond_done uid "deny_once" f m d in
    cancel_all_done uids f (respond uid "deny_once" m) (λ w. d (sym e ∙ w)) ∙ e

cancel_all_gone :
    (uids : List String) (k : String) (m : Manager)
    → lookup k m.pending ≡ none
    → lookup k (cancel_all uids m).pending ≡ none
unfolding cancel_all
cancel_all_gone [] k m h = h
cancel_all_gone (uid ∷ uids) k m h =
    cancel_all_gone uids k (respond uid "deny_once" m) (respond_gone uid "deny_once" k m h)

settled_done : (s : FutureState) (answer : String) → settled s answer ≢ waiting
settled_done waiting answer e = cc
settled_done done answer e = cc

cancel_all_entry :
    (uids : List String) (k : String) (r : PendingRequest) (m : Manager)
    → IsValid m
    → lookup k m.pending ≡ some r
    → (lookup k (cancel_all uids m).pending ≡ (if mem k uids then none else some r))
      × ((cancel_all uids m).futures r.future
          ≡ (if mem k uids then settled (m.futures r.future) "deny_once" else m.futures r.future))
unfolding cancel_all mem
cancel_all_entry [] k r m v h = (h, refl)
cancel_all_entry (uid ∷ uids) k r m v h =
    let m' = respond uid "deny_once" m in
    let (entry, future) = respond_entry uid "deny_once" k r m v h in
    elim (Bool-cases (str_eq uid k)) [
      | inl same ↦
          let gone : lookup k m'.pending ≡ none = rw same at entry in
          let set : m'.futures r.future ≡ settled (m.futures r.future) "deny_once" =
            rw same at future in
          let rest =
            cancel_all_done uids r.future m' (λ w. settled_done _ "deny_once" (sym set ∙ w)) in
          rw same (cancel_all_gone uids k m' gone, rest ∙ set)
      | inr other ↦
          let kept : lookup k m'.pending ≡ some r = rw other at entry in
          let still : m'.futures r.future ≡ m.futures r.future = rw other at future in
          rw (other, ← still)
            (cancel_all_entry uids k r m' (respond-IsValid uid "deny_once" m v) kept)
    ]

-- When a session goes away, each of its questions is taken out and answered "deny_once" if it was
-- still waiting; every question of another session stays as it was.
pub cancel_session_entry :
    (session k : String) (r : PendingRequest) (m : Manager)
    → IsValid m
    → lookup k m.pending ≡ some r
    → (lookup k (cancel_session session m).pending
        ≡ (if str_eq r.session_id session then none else some r))
      × ((cancel_session session m).futures r.future ≡ (
          if str_eq r.session_id session
          then settled (m.futures r.future) "deny_once"
          else m.futures r.future))
unfolding cancel_session requests_of
cancel_session_entry session k r m v h =
    let member = mem-keys_where (λ q. str_eq q.session_id session) k m.pending v.is_dict in
    let all = cancel_all_entry (requests_of session m.pending) k r m v h in
    ground (arith, member, all)

-- An answer "always_allow" passes the waiting call; in the state that it leaves, a call of that tool, in
-- the same session or in a session with no answer of its own, passes with no question, unless its command
-- is denied or reaches outside the working directory. (A later answer can change that.)
pub always_allow_remembered :
    {V : Type 0} (str : V → String) (re_search : String → String → Bool) (write_ok : Bool)
    (t : Ticket) (m : Manager) (uid session : String) (params : List (String × V))
    → m.futures t.future ≡ resolved "always_allow"
    → (session ≡ t.session_id) ⊎ (m.session_always session t.tool_name ≡ none)
    → is_denied str re_search m t.tool_name params ≡ false
    → is_outside str re_search t.tool_name params ≡ false
    → ((resume write_ok t m).1 ≡ some (true, raw "always_allow"))
      × (check str re_search uid t.tool_name params session (resume write_ok t m).0
          ≡ ((resume write_ok t m).0, decided true (auto allowed)))
unfolding resume check
always_allow_remembered str re_search write_ok t m uid session params h s d o = ground (
  arith,
  lookup-insert t.tool_name t.tool_name allowed m.persistent_always,
  eq_iff t.session_id session,
  eq_iff t.tool_name t.tool_name,
)

-- The two answers for one call leave both caches, the policies and the policy file alone.
once_forgotten :
    (write_ok : Bool) (answer : String) (t : Ticket) (m : Manager)
    → m.futures t.future ≡ resolved answer
    → answer ≢ "always_allow"
    → answer ≢ "always_deny"
    → resume write_ok t m ≡ (m, some (str_eq answer "allow_once", raw answer))
unfolding resume
once_forgotten write_ok answer t m h a d =
    ground (arith, eq_iff answer "always_allow", eq_iff answer "always_deny")

-- A new manager has no questions.
pub new_manager-IsValid :
    (policies : List (String × ToolPolicy)) (loaded : Option (List (String × Always)))
    (has_timeout : Bool)
    → IsValid (new_manager policies loaded has_timeout)
unfolding new_manager lookup
new_manager-IsValid policies loaded has_timeout = record {
  is_dict = tt;
  fresh = λ u r h. cc;
  apart = λ u v r s h k e. cc;
}
