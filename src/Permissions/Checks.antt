-- ===== src/Permissions/Checks.antt =====
-- What the permission manager guarantees (core/permissions/manager.py).
use claudecode_lite_main.Prelude.{
  ℕ, ◌+◌, ◌==◌, refl, str_eq, if◌then◌else◌, lookup-insert, String, List, Option, none, some, Bool,
  true, false, ◌&&◌, ◌≡◌, ◌⊎◌, arith, lookup,
}
use claudecode_lite_main.Permissions.Policy.{
  Decision, allow, deny, ask, ToolPolicy, truthy, command_of, hits, matches_outside_cwd, judge,
  judge_or_ask,
}
use claudecode_lite_main.Permissions.Manager.{
  suspended, waiting, Always, allowed, denied, Manager, Label, auto, Outcome, decided,
  deny_patterns_of, allow_patterns_of, decide_inside, check, ask_user, evaluate_for,
}

abbrev pub DefaultAllows : Option ToolPolicy → Type 0
DefaultAllows none = ⊥
DefaultAllows (some p) = p.default ≡ allow

-- The first of the session's cache, the persistent cache, the allow patterns and the default that
-- speaks says "allow".
abbrev pub MayPass : Option Always → Option Always → Bool → Option ToolPolicy → Type 0
MayPass in_session in_file hit policy =
    (in_session ≡ some allowed)
    ⊎ ((in_session ≡ none)
        × ((in_file ≡ some allowed) ⊎ ((in_file ≡ none) × ((hit ≡ true) ⊎ DefaultAllows policy))))

abbrev pub Agrees : Decision → Manager → Manager × Outcome → Manager × Outcome → Type 0
Agrees allow m asked r = r ≡ (m, decided true (auto allowed))
Agrees deny m asked r = r ≡ (m, decided false (auto denied))
Agrees ask m asked r = r ≡ asked

-- The call `uid` waits for an answer, and that is all that has changed.
pub record Asked (uid tool session : String) (m : Manager) (r : Manager × Outcome) : Type 0 where
  pub waits :
      r.1
      ≡ suspended (record {
        future = m.next_future;
        tool_use_id = uid;
        tool_name = tool;
        session_id = session;
      })
  pub registered :
      (other : String)
      → lookup other r.0.pending ≡ (
          if str_eq uid other
          then some (record { future = m.next_future; session_id = session; tool_name = tool })
          else lookup other m.pending)
  pub fresh : (n : ℕ) → r.0.futures n ≡ (if n == m.next_future then waiting else m.futures n)
  pub next : r.0.next_future ≡ m.next_future + 1
  pub rest :
      r.0 ≡ record m { pending = r.0.pending; futures = r.0.futures; next_future = r.0.next_future }

ask_user-Asked :
    (uid tool session : String) (m : Manager)
    → Asked uid tool session m (ask_user uid tool session m)
unfolding ask_user
ask_user-Asked uid tool session m = record {
  waits = refl;
  registered = λ other. lookup-insert uid other _ m.pending;
  fresh = λ n. ground arith;
  next = refl;
  rest = refl;
}

module _ {V : Type 0} (str : V → String) (re_search : String → String → Bool) where
  abbrev command : String → List (String × V) → String
  command tool params = command_of str re_search tool params

  abbrev pub is_denied : Manager → String → List (String × V) → Bool
  is_denied m tool params =
      hits str re_search (deny_patterns_of (lookup tool m.policies)) (command tool params)

  abbrev pub is_outside : String → List (String × V) → Bool
  is_outside tool params =
      truthy (command tool params) && matches_outside_cwd str re_search (command tool params)

  decide_inside_allow :
      (tool cmd session : String) (m : Manager) (l : Label)
      → decide_inside str re_search m tool cmd session ≡ some (decided true l)
      → (l ≡ auto allowed)
        × MayPass
            (m.session_always session tool)
            (lookup tool m.persistent_always)
            (hits str re_search (allow_patterns_of (lookup tool m.policies)) cmd)
            (lookup tool m.policies)
  unfolding decide_inside
  decide_inside_allow tool cmd session m l h = ground arith

  -- A call that passes with no question names no denied pattern, stays inside the working directory,
  -- and rests on the first of the caches, the allow patterns and the default that speaks; nothing
  -- of the manager changes.
  pub check_auto_allow :
      (uid tool : String) (params : List (String × V)) (session : String) (m : Manager) {l : Label}
      → (check str re_search uid tool params session m).1 ≡ decided true l
      → ((check str re_search uid tool params session m).0 ≡ m)
        × (l ≡ auto allowed)
        × (is_denied m tool params ≡ false)
        × (is_outside tool params ≡ false)
        × MayPass
            (m.session_always session tool)
            (lookup tool m.persistent_always)
            (hits str re_search (allow_patterns_of (lookup tool m.policies)) (command tool params))
            (lookup tool m.policies)
  unfolding check
  check_auto_allow uid tool params session m {l} h =
      ground (arith, decide_inside_allow tool (command tool params) session m l)

  check_outside :
      (uid tool : String) (params : List (String × V)) (session : String) (m : Manager)
      → is_denied m tool params ≡ false
      → is_outside tool params ≡ true
      → check str re_search uid tool params session m ≡ ask_user uid tool session m
  unfolding check
  check_outside uid tool params session m h o = ground arith

  -- A command that reaches outside the working directory and is not denied is always put to the
  -- user, whatever the caches and the policy say: the call waits on a fresh future, which stands under
  -- its id with its session and its tool, every other pending question and future is as it was, and the
  -- caches, the policies and the policy file are as they were.
  pub check_outside_asks :
      (uid tool : String) (params : List (String × V)) (session : String) (m : Manager)
      → is_denied m tool params ≡ false
      → is_outside tool params ≡ true
      → Asked uid tool session m (check str re_search uid tool params session m)
  check_outside_asks uid tool params session m h o =
      rw (check_outside uid tool params session m h o) (ask_user-Asked uid tool session m)

  -- With empty caches `check` and `evaluate` agree on a tool that has a policy: the same verdict with
  -- nothing changed, or a registered question where `evaluate` says "ask".
  pub check-evaluate :
      (uid tool : String) (params : List (String × V)) (session : String) (m : Manager)
      → m.session_always session tool ≡ none
      → lookup tool m.persistent_always ≡ none
      → {p : ToolPolicy} → lookup tool m.policies ≡ some p
      → Agrees
          (evaluate_for str re_search m tool params)
          m
          (ask_user uid tool session m)
          (check str re_search uid tool params session m)
  unfolding check evaluate_for judge_or_ask judge
  check-evaluate uid tool params session m s c h = ground arith
