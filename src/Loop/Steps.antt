-- ===== src/Loop/Steps.antt =====
-- core/loop.py, `AgentLoop.run` and `_publish_step_finished_once`, over the status part of
-- core/context.py. A step is: publish the start, request a response, note it, run its tools, publish
-- the end, and settle the status. The `try` block gives a `Tried`; `finally` then works on that.
use claudecode_lite_main.Prelude.{
  ℕ, zero, suc, ◌+◌, String, List, [], ◌∷◌, ◌++◌, Option, none, some, Bool, true, false, ◌&&◌, leb,
  if◌then◌else◌,
}
use claudecode_lite_main.Loop.Admission.{
  Raises, value, overflow, cancel, crash, StopReason, end_turn, tool_use, max_tokens, ToolCall,
  Response, Pass, Config, no_counts, Ending, responded, exceeded, llm_error, cancelled, escaped,
  Verdict, again, ends, request, enough,
}

pub data Status : Type 0 where
  running success failed : Status

-- The reasons that the loop gives, and the one that the tool boundary gives.
pub data Reason : Type 0 where
  by_overflow by_llm_error by_cancellation by_max_tokens by_max_steps : Reason
  by_tool : String → Reason

-- What the conversation gains: an assistant message of thinking blocks, text and tool calls, in that
-- order, or the result of a tool call.
pub data Entry : Type 0 where
  assistant : List String → String → List ToolCall → Entry
  tool_result : String → String → Bool → Entry

-- The part of `ExecutionContext` that the loop reads and writes.
pub record Context : Type 0 where
  pub step : ℕ
  pub max_steps : ℕ
  pub status : Status
  pub reason : Option Reason
  pub result : String
  pub messages : List Entry

unfoldable pub is_done : Context → Bool
is_done c = elim c.status [ running ↦ false | other ↦ true ]

unfoldable pub mark_success : Context → Context
mark_success c = record c { status = success }

unfoldable pub mark_failed : Reason → Context → Context
mark_failed reason c = record c { status = failed; reason = some reason }

-- An exception that leaves `run`.
pub data Escape : Type 0 where
  cancelled_error other_error : Escape

pub data Pending : Type 0 where
  no_terminal : Pending
  succeeds : String → Pending
  runs_out : Pending

-- How the `try` block ends: the context, whether a primary failure is noted, the exception that is on
-- its way, and what is to happen behind `finally`. A `continue` leaves nothing to happen.
pub record Tried : Type 0 where
  pub context : Context
  pub primary_failure : Bool
  pub escape : Option Escape
  pub pending : Pending

pub record ToolOutcome : Type 0 where
  pub content : String
  pub is_error : Bool

-- The outside in one step: the publication of `step.started`, the passes of the inner loop, each tool
-- call with the `terminal_reason` behind it, and the publication of `step.finished`.
pub record World : Type 0 where
  pub on_start : Option Escape
  pub passes : ℕ → Pass
  pub tools : ℕ → Raises ToolOutcome
  pub terminal_reasons : ℕ → Option String
  pub on_finish : Option Escape

abbrev pub ends_with : Context → Tried
ends_with c = record { context = c; primary_failure = false; escape = none; pending = no_terminal }

-- An exception inside the block that no inner handler noted.
unfoldable pub escapes : Escape → Context → Tried
unfolding mark_failed
escapes cancelled_error c = record {
  context = mark_failed by_cancellation c;
  primary_failure = true;
  escape = some cancelled_error;
  pending = no_terminal;
}
escapes other_error c = record {
  context = c;
  primary_failure = true;
  escape = some other_error;
  pending = no_terminal;
}

-- The tool loop; the first terminal reason ends it.
unfoldable pub run_tools : World → ℕ → List ToolCall → Context → Context × Option Escape
unfolding mark_failed
run_tools w n [] c = (c, none)
run_tools w n (call ∷ calls) c = elim (w.tools n) [
  | overflow o ↦ (c, some other_error)
  | crash ↦ (c, some other_error)
  | cancel ↦ (c, some cancelled_error)
  | value r ↦
      let c' = record c {
        messages = c.messages ++ tool_result call.id r.content r.is_error ∷ [];
      } in
      elim (w.terminal_reasons n) [
        | some why ↦ (mark_failed (by_tool why) c', none)
        | none ↦ run_tools w (n + 1) calls c'
      ]
]

abbrev pub is_end_turn : StopReason → Bool
is_end_turn end_turn = true
is_end_turn _ = false

abbrev pub is_tool_use : StopReason → Bool
is_tool_use tool_use = true
is_tool_use _ = false

abbrev pub is_max_tokens : StopReason → Bool
is_max_tokens max_tokens = true
is_max_tokens _ = false

abbrev pub some_calls : List ToolCall → Bool
some_calls [] = false
some_calls (c ∷ cs) = true

-- The termination check: `end_turn` wins over `max_steps`.
unfoldable pub terminal : Response → Context → Pending
terminal r c =
    if is_end_turn r.stop_reason
    then succeeds r.text
    else if leb c.max_steps c.step
    then runs_out
    else no_terminal

-- The assistant message of a response, noted in the conversation.
unfoldable pub note_response : Response → Context → Context
note_response r c = record c {
  messages = c.messages ++ assistant r.thinking_blocks r.text r.tool_calls ∷ [];
}

-- Act: the tools run where the response asks for them.
unfoldable pub act : World → Response → Context → Context × Option Escape
act w r c = if is_tool_use r.stop_reason then run_tools w 0 r.tool_calls c else (c, none)

unfoldable pub conclude : Response → Context × Option Escape → Tried
unfolding terminal escapes
conclude r (c, some e) = escapes e c
conclude r (c, none) = record {
  context = c;
  primary_failure = false;
  escape = none;
  pending = terminal r c;
}

-- What follows a response: observe and act.
unfoldable pub observe : World → Response → Context → Tried
unfolding conclude note_response
observe w r c = conclude r (act w r (note_response r c))

-- A response that was cut off inside its tool calls.
unfoldable pub is_truncated : Response → Bool
is_truncated r = is_max_tokens r.stop_reason && some_calls r.tool_calls

-- The `try` block, given how the inner loop ended.
unfoldable pub attempt : World → Ending → Context → Tried
unfolding observe
attempt w (responded r) c =
    if is_truncated r then ends_with (mark_failed by_max_tokens c) else observe w r c
attempt w exceeded c = ends_with (mark_failed by_overflow c)
attempt w llm_error c = record {
  context = mark_failed by_llm_error c;
  primary_failure = true;
  escape = none;
  pending = no_terminal;
}
attempt w cancelled c = escapes cancelled_error c
attempt w escaped c = escapes other_error c

-- How a step leaves `run`'s loop: with a new context, or by an exception.
pub data Left : Type 0 where
  goes_on : Context → Left
  raises : Escape → Context → Left

unfoldable pub settle : Pending → Context → Context
settle no_terminal c = c
settle (succeeds text) c = mark_success (record c { result = text })
settle runs_out c = mark_failed by_max_steps c

-- `finally`: `step.finished` is published; its failure counts only if nothing failed before.
unfoldable pub finish : Option Escape → Tried → Left
unfolding settle
finish published t = elim t.escape [
  | some e ↦ raises e t.context
  | none ↦ elim published [
    | none ↦ goes_on (settle t.pending t.context)
    | some e ↦ if t.primary_failure then goes_on (settle t.pending t.context) else elim e [
      | cancelled_error ↦ raises cancelled_error (mark_failed by_cancellation t.context)
      | other_error ↦ raises other_error t.context
    ]
  ]
]

-- The inner loop always ends (`Loop.Retries`); `again` cannot come back from it.
unfoldable pub ending_of : Verdict → Ending
ending_of (ends e) = e
ending_of (again k) = exceeded

-- One round of `while not context.is_done()`.
unfoldable pub step : Config → World → Context → Left
unfolding finish attempt ending_of is_done
step cfg w c =
    let c' = record c { step = c.step + 1 } in
    elim w.on_start [
      | some e ↦ raises e c'
      | none ↦
          finish w.on_finish (attempt w (ending_of (request enough cfg no_counts 0 w.passes)) c')
    ]

-- The whole run, with fuel; `world n` is the outside in the n-th round.
pub data Outcome : Type 0 where
  returned : Context → Outcome
  raised : Escape → Context → Outcome
  out_of_fuel : Outcome

unfoldable pub run : ℕ → Config → (ℕ → World) → ℕ → Context → Outcome
run zero cfg world n c = if is_done c then returned c else out_of_fuel
run (suc fuel) cfg world n c =
    let rest : Outcome = elim (step cfg (world n) c) [
      | raises e c' ↦ raised e c'
      | goes_on c' ↦ run fuel cfg world (n + 1) c'
    ] in
    if is_done c then returned c else rest
