-- ===== src/Usage/Examples.antt =====
-- The usage theorems on one report of each kind.
use claudecode_lite_main.Prelude.{none, some, ◌≡◌, refl, ◌↔◌, if◌then◌else◌, arith}
use claudecode_lite_main.Prelude.Int.{pos, negsuc, add_clamped, is_zero}
use claudecode_lite_main.Usage.Payload.{Payload, empty, entry, integer, object, text, get}
use claudecode_lite_main.Usage.Normalizer.{
  provider, derived, RawUsageEnvelope, NormalizedUsage, parsed, anthropic_miss, normalize_anthropic,
  deepseek_total, normalize_deepseek_anthropic, chat_total, normalize_deepseek_chat,
  normalize_openai_chat, normalize_responses, parser_of, unwrapped, normalize,
}
use claudecode_lite_main.Usage.Accounting.{AddsUp, usage-AddsUp}
use claudecode_lite_main.Usage.Meter.{
  UsageBaseline, Request, record_usage, estimate, Usable, estimate_exact,
}
use claudecode_lite_main.Usage.Reserve.{first_present, normalize_output_reserve}

program : Unit {0}
unfolding get parsed anthropic_miss normalize_anthropic deepseek_total normalize_deepseek_anthropic
    chat_total normalize_deepseek_chat normalize_openai_chat normalize_responses parser_of normalize
    record_usage estimate first_present normalize_output_reserve
program = tt

abbrev report : Payload
report =
    entry "input_tokens" (integer (pos 120)) (
      entry "input_tokens_details" (object (entry "cached_tokens" (integer (pos 100)) empty)) empty)

abbrev envelope : RawUsageEnvelope
envelope = record {
  usage_schema = "openai_responses_v1";
  payload = entry "usage" (object report) empty;
  route = "r";
  surface_revision = some 3;
  log_revision = none;
  request_envelope_id = "e";
}

abbrev usage : NormalizedUsage
usage = record {
  total_input_tokens = 120;
  cache_hit_tokens = 100;
  cache_miss_tokens = 20;
  output_tokens = 0;
  reasoning_output_tokens = 0;
  confidence = provider;
  usage_schema = "openai_responses_v1";
  measurement_source = "provider";
  route = "r";
  surface_revision = some 3;
  log_revision = none;
  cache_creation_input_tokens = 0;
  request_envelope_id = "e";
}

normalized : normalize envelope ≡ some usage
unfolding program
normalized = refl

unknown_schema : normalize (record envelope { usage_schema = "v9" }) ≡ none
unfolding program
unknown_schema = refl

usage-AddsUp_example : AddsUp (unwrapped envelope.payload) usage
usage-AddsUp_example = usage-AddsUp envelope usage normalized (omega arith)

abbrev request : Request
request = record {
  surface_revision = 3;
  route_epoch = "r";
  prefix_epoch = "p";
  envelope_id = "e";
  continuation_policy_identity = "c";
}

abbrev baseline : UsageBaseline
baseline = record {
  surface_revision = 3;
  route_epoch = "r";
  prefix_epoch = "p";
  envelope_id = "e";
  continuation_policy_identity = "c";
  total_input_tokens = 120;
  confidence = provider;
  usage_schema = "openai_responses_v1";
  measurement_source = "provider";
  log_revision = none;
}

recorded : record_usage usage request "" "provider" none ≡ some baseline
unfolding program
recorded = refl

estimate_exact_example :
    (estimate (some baseline) (record request { surface_revision = 4 }) (negsuc 19)
      ≡ some (100, derived))
    ↔ (Usable baseline (record request { surface_revision = 4 }) (negsuc 19)
        × (100 ≡ add_clamped baseline.total_input_tokens (negsuc 19))
        × (derived ≡ (if is_zero (negsuc 19) then baseline.confidence else derived)))
estimate_exact_example =
    estimate_exact baseline (record request { surface_revision = 4 }) (negsuc 19) 100 derived

abbrev asked : Payload
asked = entry "max_tokens" (integer (pos 1000)) (entry "reasoning_budget" (integer (pos 500)) empty)

abbrev together : Payload
together = entry "certified_worst_case_output" (integer (pos 8000)) empty

abbrev apart : Payload
apart = entry "output_budget_semantics" (text "visible_plus_reasoning") together

reserved : normalize_output_reserve asked apart ≡ 1500
unfolding program
reserved = refl
