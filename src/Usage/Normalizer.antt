-- ===== src/Usage/Normalizer.antt =====
-- core/llm/usage.py, `ProviderUsageNormalizer`: one parser for each wire schema.
use claudecode_lite_main.Prelude.{
  ℕ, ◌+◌, ◌-◌, String, Option, none, some, Bool, not, ◌&&◌, ◌||◌, ◌==◌, leb, str_eq, if◌then◌else◌,
}
use claudecode_lite_main.Usage.Payload.{
  Payload, get, integer_or, integer_of, as_object, nested_integer, or_else,
}

pub data Confidence : Type 0 where
  provider derived estimated : Confidence

pub record RawUsageEnvelope : Type 0 where
  pub usage_schema : String
  pub payload : Payload
  pub route : String
  pub surface_revision : Option ℕ
  pub log_revision : Option ℕ
  pub request_envelope_id : String

pub record NormalizedUsage : Type 0 where
  pub total_input_tokens : ℕ
  pub cache_hit_tokens : ℕ
  pub cache_miss_tokens : ℕ
  pub output_tokens : ℕ
  pub reasoning_output_tokens : ℕ
  pub confidence : Confidence
  pub usage_schema : String
  pub measurement_source : String
  pub route : String
  pub surface_revision : Option ℕ
  pub log_revision : Option ℕ
  pub cache_creation_input_tokens : ℕ
  pub request_envelope_id : String

-- What a parser gives: the defaults of the class stand in the other fields.
unfoldable pub parsed : ℕ → ℕ → ℕ → ℕ → ℕ → ℕ → NormalizedUsage
parsed total hit miss output reasoning creation = record {
  total_input_tokens = total;
  cache_hit_tokens = hit;
  cache_miss_tokens = miss;
  output_tokens = output;
  reasoning_output_tokens = reasoning;
  confidence = provider;
  usage_schema = "";
  measurement_source = "provider";
  route = "";
  surface_revision = none;
  log_revision = none;
  cache_creation_input_tokens = creation;
  request_envelope_id = "";
}

abbrev pub is_set : ℕ → Bool
is_set n = not (n == 0)

-- The misses of `_normalize_anthropic`; where neither of its last branches is taken, `miss` keeps its
-- first value, which the third branch only writes again.
unfoldable pub anthropic_miss : ℕ → ℕ → ℕ → ℕ → ℕ
anthropic_miss input_tokens hit creation prompt =
    if is_set prompt && is_set (hit + creation)
    then prompt - hit
    else if is_set prompt && ((hit + creation) == 0)
    then prompt
    else input_tokens + creation

unfoldable pub normalize_anthropic : Payload → NormalizedUsage
unfolding parsed anthropic_miss
normalize_anthropic p =
    let input_tokens = integer_of p "input_tokens" in
    let hit =
      or_else (integer_of p "cache_read_input_tokens") (integer_of p "prompt_cache_hit_tokens") in
    let creation =
      or_else (integer_of p "cache_creation_input_tokens")
        (integer_of p "prompt_cache_miss_tokens") in
    let prompt = integer_of p "prompt_tokens" in
    parsed (if is_set prompt then prompt else input_tokens + hit + creation) hit
      (anthropic_miss input_tokens hit creation prompt)
      (integer_or p "output_tokens" (integer_of p "completion_tokens"))
      (or_else (integer_of p "reasoning_tokens")
        (nested_integer p "completion_tokens_details" "reasoning_tokens"))
      creation

-- The total and the misses of a DeepSeek-shaped payload, of its hits, misses, prompt and input.
unfoldable pub deepseek_total : ℕ → ℕ → ℕ → ℕ → ℕ × ℕ
deepseek_total hit miss prompt input_tokens =
    if is_set prompt
    then (prompt, if miss == 0 then prompt - hit else miss)
    else if is_set hit && is_set miss
    then (hit + miss, miss)
    else if is_set hit
    then (input_tokens + hit, input_tokens)
    else (miss, miss)

unfoldable pub normalize_deepseek_anthropic : Payload → NormalizedUsage
unfolding parsed deepseek_total normalize_anthropic
normalize_deepseek_anthropic p =
    let hit = integer_of p "prompt_cache_hit_tokens" in
    let miss = integer_of p "prompt_cache_miss_tokens" in
    let prompt = integer_of p "prompt_tokens" in
    let counted = deepseek_total hit miss prompt (integer_of p "input_tokens") in
    if is_set hit || (is_set miss || is_set prompt)
    then parsed counted.0 hit counted.1
        (or_else (integer_of p "output_tokens") (integer_of p "completion_tokens"))
        (or_else (integer_of p "reasoning_tokens")
          (nested_integer p "completion_tokens_details" "reasoning_tokens"))
        0
    else normalize_anthropic p

-- The prompt and the misses of a DeepSeek chat, of its prompt, hits and misses.
unfoldable pub chat_total : ℕ → ℕ → ℕ → ℕ × ℕ
chat_total reported hit miss =
    let prompt = if reported == 0 then hit + miss else reported in
    (prompt, if (miss == 0) && leb hit prompt then prompt - hit else miss)

unfoldable pub normalize_deepseek_chat : Payload → NormalizedUsage
unfolding parsed chat_total
normalize_deepseek_chat p =
    let hit = integer_of p "prompt_cache_hit_tokens" in
    let counted =
      chat_total (integer_of p "prompt_tokens") hit (integer_of p "prompt_cache_miss_tokens") in
    parsed counted.0 hit counted.1
      (or_else (integer_of p "completion_tokens") (integer_of p "output_tokens"))
      (or_else (nested_integer p "completion_tokens_details" "reasoning_tokens")
        (integer_of p "reasoning_tokens"))
      0

-- A count in the details, if these are there, and in the payload otherwise.
abbrev pub detail_or_own : Payload → String → String → ℕ
detail_or_own p details key = elim (as_object (get details p)) [
  | some d ↦ integer_of d key
  | none ↦ integer_of p key
]

unfoldable pub normalize_openai_chat : Payload → NormalizedUsage
unfolding parsed
normalize_openai_chat p =
    let prompt = or_else (integer_of p "prompt_tokens") (integer_of p "input_tokens") in
    let hit = nested_integer p "prompt_tokens_details" "cached_tokens" in
    parsed prompt hit (prompt - hit)
      (or_else (integer_of p "completion_tokens") (integer_of p "output_tokens"))
      (detail_or_own p "completion_tokens_details" "reasoning_tokens") 0

unfoldable pub normalize_responses : Payload → NormalizedUsage
unfolding parsed
normalize_responses p =
    let input_tokens = integer_of p "input_tokens" in
    let hit = nested_integer p "input_tokens_details" "cached_tokens" in
    parsed input_tokens hit (input_tokens - hit) (integer_of p "output_tokens")
      (detail_or_own p "output_tokens_details" "reasoning_tokens") 0

-- The table `parsers`.
unfoldable pub parser_of : String → Option (Payload → NormalizedUsage)
unfolding normalize_deepseek_anthropic normalize_anthropic normalize_deepseek_chat
    normalize_openai_chat normalize_responses
parser_of schema =
    if str_eq schema "deepseek_anthropic_messages_v1"
    then some normalize_deepseek_anthropic
    else if str_eq schema "native_anthropic_v1"
    then some normalize_anthropic
    else if str_eq schema "deepseek_chat_completions_v1"
    then some normalize_deepseek_chat
    else if str_eq schema "openai_chat_completions_v1"
    then some normalize_openai_chat
    else if str_eq schema "deepseek_responses_v1" || str_eq schema "openai_responses_v1"
    then some normalize_responses
    else none

-- The usage object itself, or the one under "usage".
abbrev pub unwrapped : Payload → Payload
unwrapped p = elim (as_object (get "usage" p)) [ none ↦ p | some q ↦ q ]

-- The labels of the envelope on a parser's result.
abbrev pub labelled : RawUsageEnvelope → NormalizedUsage → NormalizedUsage
labelled e u = record u {
  usage_schema = e.usage_schema;
  route = e.route;
  surface_revision = e.surface_revision;
  log_revision = e.log_revision;
  request_envelope_id = e.request_envelope_id;
}

-- `normalize`; `none` stands for the `ValueError` of an unknown schema.
unfoldable pub normalize : RawUsageEnvelope → Option NormalizedUsage
unfolding parser_of
normalize e = elim (parser_of e.usage_schema) [
  | none ↦ none
  | some parser ↦ some (labelled e (parser (unwrapped e.payload)))
]
