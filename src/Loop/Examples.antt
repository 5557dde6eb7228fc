-- ===== src/Loop/Examples.antt =====
-- The loop theorems on a run in which a local refusal is compacted away, and on one whose only step
-- ends with a tool's terminal reason.
use claudecode_lite_main.Prelude.{
  ℕ, zero, suc, ◌<◌, String, [], ◌∷◌, Option, none, true, false, ◌≡◌, refl, arith,
}
use claudecode_lite_main.Loop.Admission.{
  value, overflow, reduced, nothing, safe_above_target, local, end_turn, tool_use, ToolCall,
  Response, Pass, Config, Ending, no_counts, ends, react, refused, send, after_proactive, priced,
  pass, request, enough,
}
use claudecode_lite_main.Loop.Retries.{request_total}
use claudecode_lite_main.Loop.Steps.{
  running, success, Entry, Context, is_done, mark_success, mark_failed, World, escapes, run_tools,
  terminal, note_response, act, conclude, observe, is_truncated, attempt, settle, finish, ending_of,
  step, run,
}
use claudecode_lite_main.Loop.Runs.{Ended, run_total}
use claudecode_lite_main.Loop.Success.{step_success}

abbrev cfg : Config
cfg = record { has_compactor = true; threshold_positive = true }

abbrev answer : Response
answer = record { stop_reason = end_turn; thinking_blocks = []; text = "done"; tool_calls = [] }

abbrev call : ToolCall
call = record { id = "t1"; name = "bash" }

abbrev asks : Response
asks = record { stop_reason = tool_use; thinking_blocks = []; text = ""; tool_calls = call ∷ [] }

abbrev too_long : Pass
too_long = record {
  admission = overflow local;
  proactive = value nothing;
  chat = value answer;
  reactive = value reduced;
}

abbrev fits : Response → Pass
fits r = record {
  admission = value safe_above_target;
  proactive = value nothing;
  chat = value r;
  reactive = value nothing;
}

abbrev passes : Response → ℕ → Pass
passes r zero = too_long
passes r (suc n) = fits r

abbrev world : Response → Option String → World
world r why = record {
  on_start = none;
  passes = passes r;
  tools = λ n. value (record { content = "out"; is_error = false });
  terminal_reasons = λ n. why;
  on_finish = none;
}

abbrev start : ℕ → Context
start max_steps = record {
  step = 0;
  max_steps = max_steps;
  status = running;
  reason = none;
  result = "";
  messages = [];
}

program : Unit {0}
unfolding react refused send after_proactive priced pass request is_done mark_success mark_failed
    escapes run_tools terminal note_response act conclude observe is_truncated attempt settle finish
    ending_of step run
program = tt

request_total_example : (e : Ending) × (request enough cfg no_counts 0 (passes asks) ≡ ends e)
request_total_example = request_total cfg (passes asks)

run_total_example : Ended (start 3) (run 4 cfg (λ n. world asks none) 0 (start 3))
run_total_example = run_total 4 cfg (λ n. world asks none) (start 3) (omega arith)

abbrev ended : Context
ended = record {
  step = 1;
  max_steps = 3;
  status = success;
  reason = none;
  result = "done";
  messages = Entry.assistant [] "done" [] ∷ [];
}

step_success_example :
    (r : Response) × (j : ℕ) × (j < enough)
    × ((passes answer j).chat ≡ value r)
    × (r.stop_reason ≡ end_turn)
    × ("done" ≡ r.text)
    × ((world answer none).on_start ≡ none)
    × ((world answer none).on_finish ≡ none)
unfolding program
step_success_example = step_success cfg (world answer none) (start 3) ended refl refl refl
