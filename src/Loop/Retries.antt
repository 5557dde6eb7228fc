-- ===== src/Loop/Retries.antt =====
-- The retries of one step of `AgentLoop.run` are bounded (core/loop.py).
use claudecode_lite_main.Prelude.{
  ℕ, zero, suc, ◌+◌, ◌-◌, ◌≤◌, ◌<◌, ltb, ◌≡◌, refl, ◌∙◌, ◌⊎◌, inl, inr, arith, Bool-cases, ltb→lt,
}
use claudecode_lite_main.Loop.Admission.{
  Origin, provider, local, Raises, value, overflow, cancel, crash, Reduction, reduced, nothing,
  conflict, Pass, Config, Counters, no_counts, Ending, responded, Verdict, again, ends, react,
  refused, send, after_proactive, priced, pass, request, enough, AdmissionState, Response,
}

-- What is left of the four budgets.
pub budget : Counters → ℕ
budget k =
    (2 - k.admission_reductions)
    + (2 - k.compaction_conflicts)
    + (1 - k.proactive_reductions)
    + (1 - k.provider_overflow_retries)

-- The verdict ends the loop, or uses up some of the budget.
abbrev Falls : ℕ → Verdict → Type 0
Falls b (ends e) = Unit
Falls b (again k) = budget k < b

react-Falls :
    (b : ℕ) (origin : Origin) (k : Counters) (r : Raises Reduction)
    → budget k < b
    → Falls b (react origin k r)
unfolding react budget
react-Falls b origin k r h = ground arith

refused-Falls :
    (cfg : Config) (k : Counters) (origin : Origin) (r : Raises Reduction)
    → Falls (budget k) (refused cfg k origin r)
unfolding refused budget
refused-Falls cfg k provider r = ground arith
refused-Falls cfg k local r = ground arith

send-Falls :
    (cfg : Config) (k : Counters) (p : Pass) (r : Raises Response)
    → Falls (budget k) (send cfg k p r)
unfolding send
send-Falls cfg k p (value r) = tt
send-Falls cfg k p (overflow origin) = refused-Falls cfg k origin p.reactive
send-Falls cfg k p cancel = tt
send-Falls cfg k p crash = tt

Falls-weaken : (b c : ℕ) (v : Verdict) → b ≤ c → Falls b v → Falls c v
Falls-weaken b c (ends e) h f = tt
Falls-weaken b c (again k) h f = omega arith

after_proactive-Falls :
    (cfg : Config) (b : ℕ) (k : Counters) (p : Pass) (r : Raises Reduction)
    → budget k < b
    → Falls b (after_proactive cfg k p r)
unfolding after_proactive
after_proactive-Falls cfg b k p (value reduced) h = h
after_proactive-Falls cfg b k p (value nothing) h =
    Falls-weaken (budget k) b (send cfg k p p.chat) (omega arith) (send-Falls cfg k p p.chat)
after_proactive-Falls cfg b k p (value conflict) h =
    Falls-weaken (budget k) b (send cfg k p p.chat) (omega arith) (send-Falls cfg k p p.chat)
after_proactive-Falls cfg b k p (overflow origin) h =
    Falls-weaken (budget k) b (refused cfg k origin p.reactive) (omega arith)
      (refused-Falls cfg k origin p.reactive)
after_proactive-Falls cfg b k p cancel h = tt
after_proactive-Falls cfg b k p crash h = tt

budget-proactive :
    (k : Counters)
    → k.proactive_reductions < 1
    → budget (record k { proactive_reductions = k.proactive_reductions + 1 }) < budget k
unfolding budget
budget-proactive k h = omega arith

priced-Falls :
    (cfg : Config) (k : Counters) (p : Pass) (r : Raises AdmissionState)
    → Falls (budget k) (priced cfg k p r)
unfolding priced
priced-Falls cfg k p (overflow origin) = refused-Falls cfg k origin p.reactive
priced-Falls cfg k p cancel = tt
priced-Falls cfg k p crash = tt
priced-Falls cfg k p (value state) = elim (Bool-cases (ltb k.proactive_reductions 1)) [
  | inl first ↦
      let k' = record k { proactive_reductions = k.proactive_reductions + 1 } in
      let falls =
        after_proactive-Falls cfg (budget k) k' p p.proactive
          (budget-proactive k (ltb→lt k.proactive_reductions 1 first)) in
      ground (arith, falls, send-Falls cfg k p p.chat)
  | inr used ↦ ground (arith, send-Falls cfg k p p.chat)
]

Verdict-cases : (v : Verdict) → ((k : Counters) × (v ≡ again k)) ⊎ ((e : Ending) × (v ≡ ends e))
Verdict-cases (again k) = inl (k, refl)
Verdict-cases (ends e) = inr (e, refl)

pass-Falls : (cfg : Config) (k : Counters) (p : Pass) → Falls (budget k) (pass cfg k p)
unfolding pass
pass-Falls cfg k p = priced-Falls cfg k p p.admission

-- With more fuel than budget the loop comes to an end.
request-ends :
    (fuel : ℕ) (cfg : Config) (k : Counters) (n : ℕ) (world : ℕ → Pass)
    → budget k < fuel
    → (e : Ending) × (request fuel cfg k n world ≡ ends e)
unfolding request
request-ends zero cfg k n world h = absurd (omega arith)
request-ends (suc fuel) cfg k n world h = elim (Verdict-cases (pass cfg k (world n))) [
  | inr (e, is) ↦ (e, rw (is, request))
  | inl (k', is) ↦
      let falls : Falls (budget k) (again k') = rw is at (pass-Falls cfg k (world n)) in
      let (e, rest) = request-ends fuel cfg k' (n + 1) world (omega arith) in
      (e, rw (is, request) rest)
]

-- Whatever the outside answers, a step makes at most seven requests before it has a response or ends.
pub request_total :
    (cfg : Config) (world : ℕ → Pass)
    → (e : Ending) × (request enough cfg no_counts 0 world ≡ ends e)
request_total cfg world = request-ends enough cfg no_counts 0 world (unfold budget in omega arith)

pass_responded :
    (cfg : Config) (k : Counters) (p : Pass) (a : Response)
    → pass cfg k p ≡ ends (responded a)
    → p.chat ≡ value a
unfolding pass
pass_responded cfg k p a h = ground arith

-- A response that ends the loop is the answer to one of its requests.
pub request_responded :
    (fuel : ℕ) (cfg : Config) (k : Counters) (n : ℕ) (world : ℕ → Pass) (a : Response)
    → request fuel cfg k n world ≡ ends (responded a)
    → (j : ℕ) × (j < n + fuel) × ((world j).chat ≡ value a)
unfolding request
request_responded zero cfg k n world a h = cc
request_responded (suc fuel) cfg k n world a h = elim (Verdict-cases (pass cfg k (world n))) [
  | inr (e, is) ↦
      let same : Verdict.ends e ≡ ends (responded a) = rw (is, request) at h in
      (n, omega arith, pass_responded cfg k (world n) a (is ∙ same))
  | inl (k', is) ↦
      let rest : request fuel cfg k' (n + 1) world ≡ ends (responded a) = rw (is, request) at h in
      let (j, low, answer) = request_responded fuel cfg k' (n + 1) world a rest in
      (j, omega arith, answer)
]
