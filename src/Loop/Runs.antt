-- ===== src/Loop/Runs.antt =====
-- What a run of `AgentLoop` (core/loop.py) guarantees: it ends, within its steps, and succeeds only on
-- an answer that says so.
use claudecode_lite_main.Prelude.{
  ℕ, zero, suc, ◌+◌, ◌-◌, ◌≤◌, ◌<◌, List, [], ◌∷◌, ◌++◌, Option, none, some, Bool, true, false,
  if◌then◌else◌, ◌≡◌, refl, ◌≢◌, ◌⊎◌, inl, inr, arith, Bool-cases, Option-cases, max,
}
use claudecode_lite_main.Loop.Admission.{
  Raises, value, ToolCall, Response, Config, no_counts, Ending, responded, request, enough,
}
use claudecode_lite_main.Loop.Steps.{
  running, success, tool_result, Context, is_done, mark_success, mark_failed, Escape,
  cancelled_error, other_error, no_terminal, Tried, World, run_tools, note_response, act, conclude,
  observe, attempt, is_truncated, Left, goes_on, raises, settle, finish, ending_of, step, Outcome,
  returned, raised, out_of_fuel, run, is_tool_use,
}

is_value {ℓ} : {A : Type ℓ} → Raises A → Bool
is_value (value a) = true
is_value _ = false

value-cases {ℓ} : {A : Type ℓ} (r : Raises A) → ((a : A) × (r ≡ value a)) ⊎ (is_value r ≡ false)
unfolding is_value
value-cases (value a) = inl (a, refl)
value-cases _ = inr refl

-- The tools of a step leave the counters and the result alone, and do not turn a run into a success.
pub record Tooled (c d : Context) : Type 0 where
  pub same_step : d.step ≡ c.step
  pub same_max : d.max_steps ≡ c.max_steps
  pub same_result : d.result ≡ c.result
  pub no_success : c.status ≡ running → d.status ≢ success

run_tools-Tooled :
    (w : World) (n : ℕ) (calls : List ToolCall) (c : Context) → Tooled c (run_tools w n calls c).0
unfolding run_tools
run_tools-Tooled w n [] c = record {
  same_step = refl;
  same_max = refl;
  same_result = refl;
  no_success = λ r s. cc;
}
run_tools-Tooled w n (call ∷ calls) c = elim (value-cases (w.tools n)) [
  | inl (r, e) ↦
      let c' : Context = record c {
        messages = c.messages ++ tool_result call.id r.content r.is_error ∷ [];
      } in
      ground (arith, run_tools-Tooled w (n + 1) calls c')
  | inr other ↦ unfold is_value mark_failed in ground arith
]

abbrev pub opened : Context → Context
opened c = record c { step = c.step + 1 }

pub act-Tooled : (w : World) (r : Response) (c : Context) → Tooled c (act w r c).0
unfolding act
act-Tooled w r c = elim (Bool-cases (is_tool_use r.stop_reason)) [
  | inl e ↦ rw (e, act) (run_tools-Tooled w 0 r.tool_calls c)
  | inr e ↦
      rw (e, act)
        (record { same_step = refl; same_max = refl; same_result = refl; no_success = λ run s. cc })
]

-- The `try` block keeps the counters, and leaves an open end only before the last step.
record Proper (k m : ℕ) (t : Tried) : Type 0 where
  same_step : t.context.step ≡ k
  same_max : t.context.max_steps ≡ m
  open_end :
      t.escape ≡ none
      → t.pending ≡ no_terminal
      → (is_done t.context ≡ true) ⊎ (t.context.step < t.context.max_steps)

conclude-Proper :
    (r : Response) (c : Context) (x : Context × Option Escape)
    → Tooled c x.0
    → Proper c.step c.max_steps (conclude r x)
unfolding conclude mark_failed is_done
conclude-Proper r c (d, some cancelled_error) t = ground (arith, t.same_step, t.same_max)
conclude-Proper r c (d, some other_error) t = ground (arith, t.same_step, t.same_max)
conclude-Proper r c (d, none) t = ground (arith, t.same_step, t.same_max)

note_response-kept :
    (r : Response) (c : Context)
    → ((note_response r c).step ≡ c.step)
      × ((note_response r c).max_steps ≡ c.max_steps)
      × ((note_response r c).status ≡ c.status)
unfolding note_response
note_response-kept r c = (refl, refl, refl)

observe-Proper :
    (w : World) (r : Response) (c : Context) → Proper c.step c.max_steps (observe w r c)
unfolding observe
observe-Proper w r c =
    unfold note_response in
    conclude-Proper r (note_response r c) (act w r (note_response r c))
      (act-Tooled w r (note_response r c))

attempt-Proper : (w : World) (e : Ending) (c : Context) → Proper c.step c.max_steps (attempt w e c)
unfolding attempt is_done mark_failed
attempt-Proper w (responded r) c = elim (Bool-cases (is_truncated r)) [
  | inl e ↦ rw (e, attempt) (ground arith)
  | inr e ↦ rw (e, attempt) (observe-Proper w r c)
]
attempt-Proper w _ c = ground arith

pub finish-goes_on :
    (p : Option Escape) (t : Tried) (d : Context)
    → finish p t ≡ goes_on d
    → (t.escape ≡ none) × (d ≡ settle t.pending t.context)
unfolding finish
finish-goes_on p t d h = ground arith

settled_progress :
    (k m : ℕ) (t : Tried) (d : Context)
    → Proper k m t
    → t.escape ≡ none
    → d ≡ settle t.pending t.context
    → (d.step ≡ k) × (d.max_steps ≡ m) × ((is_done d ≡ true) ⊎ (d.step < d.max_steps))
unfolding settle is_done mark_failed mark_success
settled_progress k m t d p e s = ground (arith, p.same_step, p.same_max, p.open_end e)

-- A round that goes on met no exception, and its status was settled behind a published end.
pub step-goes_on :
    (cfg : Config) (w : World) (c d : Context)
    → step cfg w c ≡ goes_on d
    → (w.on_start ≡ none)
      × (finish w.on_finish
            (attempt w (ending_of (request enough cfg no_counts 0 w.passes)) (opened c))
          ≡ goes_on d)
unfolding step
step-goes_on cfg w c d h = elim (Option-cases w.on_start) [
  | inl e ↦ (e, rw (e, step) at h)
  | inr (x, e) ↦ let r : raises x (opened c) ≡ goes_on d = rw (e, step) at h in cc
]

-- A round that goes on counted one step; it is done, or has steps left.
step_progress :
    (cfg : Config) (w : World) (c d : Context)
    → step cfg w c ≡ goes_on d
    → (d.step ≡ c.step + 1)
      × (d.max_steps ≡ c.max_steps)
      × ((is_done d ≡ true) ⊎ (d.step < d.max_steps))
step_progress cfg w c d h =
    let ending = ending_of (request enough cfg no_counts 0 w.passes) in
    let t = attempt w ending (opened c) in
    let (quiet, settled) = finish-goes_on w.on_finish t d (step-goes_on cfg w c d h).1 in
    settled_progress (c.step + 1) c.max_steps t d (attempt-Proper w ending (opened c)) quiet settled

-- The last step that a run from a context can reach.
abbrev pub last_step : Context → ℕ
last_step c = if is_done c then c.step else max (c.step + 1) c.max_steps

abbrev pub Ended : Context → Outcome → Type 0
Ended c (returned d) = (is_done d ≡ true) × (c.step ≤ d.step) × (d.step ≤ last_step c)
Ended c (raised e d) = Unit
Ended c out_of_fuel = ⊥

Ended-next :
    (c d : Context) (o : Outcome)
    → is_done c ≡ false
    → d.step ≡ c.step + 1
    → d.max_steps ≡ c.max_steps
    → (is_done d ≡ true) ⊎ (d.step < d.max_steps)
    → Ended d o
    → Ended c o
Ended-next c d (returned x) run s m p e = ground arith
Ended-next c d (raised x y) run s m p e = tt
Ended-next c d out_of_fuel run s m p e = e

Left-cases :
    (l : Left)
    → ((d : Context) × (l ≡ goes_on d)) ⊎ ((e : Escape) × (d : Context) × (l ≡ raises e d))
Left-cases (goes_on d) = inl (d, refl)
Left-cases (raises e d) = inr (e, d, refl)

run_from :
    (fuel : ℕ) (cfg : Config) (world : ℕ → World) (n : ℕ) (c : Context)
    → (is_done c ≡ true) ⊎ (c.max_steps - c.step < fuel)
    → Ended c (run fuel cfg world n c)
unfolding run
run_from zero cfg world n c h = ground arith
run_from (suc fuel) cfg world n c h = elim (Bool-cases (is_done c)) [
  | inl done ↦ ground arith
  | inr live ↦ elim (Left-cases (step cfg (world n) c)) [
    | inr (e, d, raised_e) ↦ rw (live, run, raised_e) tt
    | inl (d, on) ↦
        let (s, m, p) = step_progress cfg (world n) c d on in
        let rest = run_from fuel cfg world (n + 1) d (ground arith) in
        rw (live, run, on) (Ended-next c d (run fuel cfg world (n + 1) d) live s m p rest)
  ]
]

-- A run whose steps are bounded ends: with fuel for the steps that are left it returns or raises,
-- and what it returns is done and has counted no more than `max_steps` steps, or one.
pub run_total :
    (fuel : ℕ) (cfg : Config) (world : ℕ → World) (c : Context)
    → c.max_steps - c.step < fuel
    → Ended c (run fuel cfg world 0 c)
run_total fuel cfg world c h = run_from fuel cfg world 0 c (inr h)
