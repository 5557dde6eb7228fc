-- ===== src/Loop/Success.antt =====
-- When a run of `AgentLoop` (core/loop.py) succeeds, and which reason of a failure it keeps.
use claudecode_lite_main.Prelude.{
  ℕ, ◌<◌, String, Option, none, some, false, ◌≡◌, refl, ◌∙◌, ◌≢◌, inl, inr, arith, Bool-cases,
}
use claudecode_lite_main.Loop.Admission.{
  value, end_turn, Response, Config, no_counts, Ending, responded, Verdict, ends, request, enough,
}
use claudecode_lite_main.Loop.Steps.{
  running, success, Context, mark_success, mark_failed, Escape, cancelled_error, other_error,
  Pending, no_terminal, succeeds, runs_out, Tried, World, terminal, note_response, act, conclude,
  attempt, is_truncated, goes_on, settle, finish, ending_of, step,
}
use claudecode_lite_main.Loop.Runs.{Tooled, act-Tooled, opened, finish-goes_on, step-goes_on}
use claudecode_lite_main.Loop.Retries.{request_total, request_responded}

abbrev Answered : Response → String → Type 0
Answered r text = (r.stop_reason ≡ end_turn) × (text ≡ r.text)

terminal-succeeds :
    (r : Response) (c : Context) (text : String) → terminal r c ≡ succeeds text → Answered r text
unfolding terminal
terminal-succeeds r c text h = ground arith

conclude-succeeds :
    (r : Response) (c : Context) (x : Context × Option Escape)
    → c.status ≡ running
    → Tooled c x.0
    → ((conclude r x).context.status ≢ success)
      × ((text : String)
          → (conclude r x).pending ≡ succeeds text
          → Answered r text × ((conclude r x).primary_failure ≡ false))
unfolding conclude mark_failed
conclude-succeeds r c (d, some cancelled_error) live t = (λ e. cc, λ text e. cc)
conclude-succeeds r c (d, some other_error) live t = (t.no_success live, λ text e. cc)
conclude-succeeds r c (d, none) live t =
    (t.no_success live, λ text e. (terminal-succeeds r d text e, refl))

-- Behind the `try` block a step has not succeeded yet; it will if the response ended the turn.
attempt-succeeds :
    (w : World) (e : Ending) (c : Context)
    → c.status ≡ running
    → ((attempt w e c).context.status ≢ success)
      × ((text : String)
          → (attempt w e c).pending ≡ succeeds text
          → (r : Response) × (e ≡ responded r)
            × Answered r text
            × ((attempt w e c).primary_failure ≡ false))
unfolding attempt mark_failed
attempt-succeeds w (responded r) c live = elim (Bool-cases (is_truncated r)) [
  | inl cut ↦ rw (cut, attempt) (λ s. cc, λ text s. cc)
  | inr whole ↦
      let kept : (note_response r c).status ≡ running = unfold note_response in live in
      let (never, when) =
        conclude-succeeds r (note_response r c) (act w r (note_response r c)) kept
          (act-Tooled w r (note_response r c)) in
      rw (whole, attempt) (never, λ text s. (r, refl, (when text s).0, (when text s).1))
]
attempt-succeeds w _ c live = (λ s. cc, λ text s. cc)

settle-success :
    (p : Pending) (c d : Context)
    → d ≡ settle p c
    → d.status ≡ success
    → c.status ≢ success
    → (text : String) × (p ≡ succeeds text) × (d.result ≡ text)
unfolding settle mark_success mark_failed
settle-success no_terminal c d e s never = absurd (never (ground arith))
settle-success (succeeds text) c d e s never = (text, refl, ground arith)
settle-success runs_out c d e s never = ground arith

finish_published :
    (p : Option Escape) (t : Tried) (d : Context)
    → finish p t ≡ goes_on d
    → t.primary_failure ≡ false
    → p ≡ none
unfolding finish
finish_published p t d h k = ground arith

ending_of-responded :
    (v : Verdict) (e : Ending) (r : Response)
    → v ≡ ends e
    → ending_of v ≡ responded r
    → v ≡ ends (responded r)
unfolding ending_of
ending_of-responded v e r h k = ground arith

-- A running step turns into a success only on the answer to one of its requests that ends the turn;
-- the result is the text of that answer, and both events of the step were published.
pub step_success :
    (cfg : Config) (w : World) (c d : Context)
    → c.status ≡ running
    → step cfg w c ≡ goes_on d
    → d.status ≡ success
    → (r : Response) × (j : ℕ) × (j < enough)
      × ((w.passes j).chat ≡ value r)
      × (r.stop_reason ≡ end_turn)
      × (d.result ≡ r.text)
      × (w.on_start ≡ none)
      × (w.on_finish ≡ none)
step_success cfg w c d live h s =
    let (verdict, ended) = request_total cfg w.passes in
    let (started, finished) = step-goes_on cfg w c d h in
    let e = ending_of (request enough cfg no_counts 0 w.passes) in
    let t = attempt w e (opened c) in
    let (quiet, settled) = finish-goes_on w.on_finish t d finished in
    let (never, when) = attempt-succeeds w e (opened c) live in
    let (text, pending_e, result_e) = settle-success t.pending t.context d settled s never in
    let (r, from, answered, clean) = when text pending_e in
    let from_loop =
      ending_of-responded (request enough cfg no_counts 0 w.passes) verdict r ended from in
    let (j, low, sent) = request_responded enough cfg no_counts 0 w.passes r from_loop in
    (
      r,
      j,
      low,
      sent,
      answered.0,
      result_e ∙ answered.1,
      started,
      finish_published w.on_finish t d finished clean,
    )
