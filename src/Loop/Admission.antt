-- ===== src/Loop/Admission.antt =====
-- core/loop.py, the inner `while True` of `AgentLoop.run`: a request is priced, perhaps compacted, and
-- sent, until there is a response or the step ends. What the provider, the gateway and the compactor
-- do in one pass is its input, a `Pass`; `compactor.compact` is called at most once in a pass.
use claudecode_lite_main.Prelude.{
  ℕ, zero, suc, ◌+◌, ◌-◌, String, List, Bool, true, false, ◌&&◌, ltb, leb, if◌then◌else◌,
}

-- core/compact/state.py, `CompactionState`, as `admit` reports it.
pub data AdmissionState : Type 0 where
  hard_unsafe soft_pressured safe_above_target at_target : AdmissionState

-- Where a `ContextAdmissionError` comes from.
pub data Origin : Type 0 where
  provider local : Origin

-- A call of the outside: it returns, or raises `ContextAdmissionError`, `CancelledError` or another
-- exception.
pub data Raises {ℓ} (A : Type ℓ) : Type ℓ where
  value : A → Raises A
  overflow : Origin → Raises A
  cancel : Raises A
  crash : Raises A

-- What `_compact_context` gives: a result, `None`, or the exception `CompactionConflict`.
pub data Reduction : Type 0 where
  reduced nothing conflict : Reduction

pub data StopReason : Type 0 where
  end_turn tool_use max_tokens other_stop : StopReason

pub record ToolCall : Type 0 where
  pub id : String
  pub name : String

pub record Response : Type 0 where
  pub stop_reason : StopReason
  pub thinking_blocks : List String
  pub text : String
  pub tool_calls : List ToolCall

-- The answers of the outside in one pass: to `prepare_request` and `admit`, to a proactive compaction,
-- to `chat`, and to the compaction after a refused request.
pub record Pass : Type 0 where
  pub admission : Raises AdmissionState
  pub proactive : Raises Reduction
  pub chat : Raises Response
  pub reactive : Raises Reduction

pub record Config : Type 0 where
  pub has_compactor : Bool
  -- `compact_threshold > 0`
  pub threshold_positive : Bool

pub record Counters : Type 0 where
  pub admission_reductions : ℕ
  pub compaction_conflicts : ℕ
  pub proactive_reductions : ℕ
  pub provider_overflow_retries : ℕ

abbrev pub no_counts : Counters
no_counts = record {
  admission_reductions = 0;
  compaction_conflicts = 0;
  proactive_reductions = 0;
  provider_overflow_retries = 0;
}

-- How the inner loop ends. `exceeded`: the step fails with "CONTEXT_WINDOW_EXCEEDED". `llm_error`: a
-- failed call, noted as the primary failure. `cancelled`: noted as a failure, and raised on.
-- `escaped`: an exception inside the handler of a refused request, raised on with nothing noted.
pub data Ending : Type 0 where
  responded : Response → Ending
  exceeded : Ending
  llm_error : Ending
  cancelled : Ending
  escaped : Ending

pub data Verdict : Type 0 where
  again : Counters → Verdict
  ends : Ending → Verdict

abbrev pub is_soft : AdmissionState → Bool
is_soft soft_pressured = true
is_soft _ = false

-- The compaction behind a refused request, once the retry is counted.
unfoldable pub react : Origin → Counters → Raises Reduction → Verdict
react origin k (value reduced) = again k
react origin k (value nothing) = ends exceeded
react provider k (value conflict) =
    let k' = record k { compaction_conflicts = k.compaction_conflicts + 1 } in
    if leb 2 (k.compaction_conflicts + 1) then ends exceeded else again k'
react local k (value conflict) =
    let k' = record k {
      compaction_conflicts = k.compaction_conflicts + 1;
      admission_reductions = k.admission_reductions - 1;
    } in
    if leb 2 (k.compaction_conflicts + 1) then ends exceeded else again k'
react origin k (overflow o) = ends escaped
react origin k cancel = ends cancelled
react origin k crash = ends escaped

-- `except ContextAdmissionError`.
unfoldable pub refused : Config → Counters → Origin → Raises Reduction → Verdict
unfolding react
refused cfg k provider reactive =
    let k' = record k { provider_overflow_retries = k.provider_overflow_retries + 1 } in
    if leb 1 k.provider_overflow_retries
    then ends exceeded
    else if cfg.has_compactor
    then react provider k' reactive
    else ends exceeded
refused cfg k local reactive =
    let k' = record k { admission_reductions = k.admission_reductions + 1 } in
    if leb 2 k.admission_reductions
    then ends exceeded
    else if cfg.has_compactor
    then react local k' reactive
    else ends exceeded

-- `await self._provider.chat(...)` and its handlers.
unfoldable pub send : Config → Counters → Pass → Raises Response → Verdict
unfolding refused
send cfg k p (value r) = ends (responded r)
send cfg k p (overflow origin) = refused cfg k origin p.reactive
send cfg k p cancel = ends cancelled
send cfg k p crash = ends llm_error

-- A proactive compaction was made; only a reduction starts the pass anew.
unfoldable pub after_proactive : Config → Counters → Pass → Raises Reduction → Verdict
unfolding send
after_proactive cfg k p (value reduced) = again k
after_proactive cfg k p (value nothing) = send cfg k p p.chat
after_proactive cfg k p (value conflict) = send cfg k p p.chat
after_proactive cfg k p (overflow origin) = refused cfg k origin p.reactive
after_proactive cfg k p cancel = ends cancelled
after_proactive cfg k p crash = ends llm_error

unfoldable pub priced : Config → Counters → Pass → Raises AdmissionState → Verdict
unfolding after_proactive
priced cfg k p (value state) =
    let k' = record k { proactive_reductions = k.proactive_reductions + 1 } in
    if is_soft state
      && (cfg.has_compactor && (cfg.threshold_positive && ltb k.proactive_reductions 1))
    then after_proactive cfg k' p p.proactive
    else send cfg k p p.chat
priced cfg k p (overflow origin) = refused cfg k origin p.reactive
priced cfg k p cancel = ends cancelled
priced cfg k p crash = ends llm_error

-- One pass of the loop.
unfoldable pub pass : Config → Counters → Pass → Verdict
unfolding priced
pass cfg k p = priced cfg k p p.admission

-- The loop, with fuel; `none` means that the fuel ran out. `world n` is the n-th pass.
unfoldable pub request : ℕ → Config → Counters → ℕ → (ℕ → Pass) → Verdict
request zero cfg k n world = again k
request (suc fuel) cfg k n world = elim (pass cfg k (world n)) [
  | ends e ↦ ends e
  | again k' ↦ request fuel cfg k' (n + 1) world
]

-- The number of passes that always suffices.
abbrev pub enough : ℕ
enough = 7
