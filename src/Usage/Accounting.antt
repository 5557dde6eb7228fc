-- ===== src/Usage/Accounting.antt =====
-- The counts of a normalized usage add up (core/llm/usage.py).
use claudecode_lite_main.Prelude.{
  ℕ, Bool-cases, ◌+◌, ◌≤◌, String, Option, none, some, Bool, true, false, ◌||◌, if◌then◌else◌, ◌≡◌,
  sym, ◌⊎◌, inl, inr, str_eq, arith, Option-cases,
}
use claudecode_lite_main.Usage.Payload.{Payload, integer_of}
use claudecode_lite_main.Usage.Normalizer.{
  is_set, RawUsageEnvelope, NormalizedUsage, parsed, anthropic_miss, normalize_anthropic,
  deepseek_total, normalize_deepseek_anthropic, chat_total, normalize_deepseek_chat,
  normalize_openai_chat, normalize_responses, parser_of, unwrapped, labelled, normalize,
}

-- The provider reports both the prompt and the misses, which are more than none, and the parser keeps
-- what it reports.
pub record ReportsBoth (p : Payload) (u : NormalizedUsage) : Type 0 where
  pub prompt : u.total_input_tokens ≡ integer_of p "prompt_tokens"
  pub prompt_there : 1 ≤ integer_of p "prompt_tokens"
  pub misses_there : 1 ≤ integer_of p "prompt_cache_miss_tokens"
  pub misses : u.cache_miss_tokens ≡ integer_of p "prompt_cache_miss_tokens"

abbrev pub AddsUp : Payload → NormalizedUsage → Type 0
AddsUp p u = (u.cache_hit_tokens + u.cache_miss_tokens ≡ u.total_input_tokens) ⊎ ReportsBoth p u

anthropic-AddsUp :
    (p : Payload)
    → (normalize_anthropic p).cache_hit_tokens ≤ (normalize_anthropic p).total_input_tokens
    → AddsUp p (normalize_anthropic p)
unfolding normalize_anthropic anthropic_miss parsed
anthropic-AddsUp p h = inl (ground arith)

deepseek_total_adds :
    (hit miss prompt input_tokens : ℕ)
    → hit ≤ (deepseek_total hit miss prompt input_tokens).0
    → (hit + (deepseek_total hit miss prompt input_tokens).1
        ≡ (deepseek_total hit miss prompt input_tokens).0)
      ⊎ (((deepseek_total hit miss prompt input_tokens).0 ≡ prompt)
          × (1 ≤ prompt)
          × (1 ≤ miss)
          × ((deepseek_total hit miss prompt input_tokens).1 ≡ miss))
unfolding deepseek_total
deepseek_total_adds hit miss prompt input_tokens h = ground arith

deepseek_anthropic-AddsUp :
    (p : Payload)
    → (normalize_deepseek_anthropic p).cache_hit_tokens
      ≤ (normalize_deepseek_anthropic p).total_input_tokens
    → AddsUp p (normalize_deepseek_anthropic p)
unfolding normalize_deepseek_anthropic parsed
deepseek_anthropic-AddsUp p =
    let hit = integer_of p "prompt_cache_hit_tokens" in
    let miss = integer_of p "prompt_cache_miss_tokens" in
    let prompt = integer_of p "prompt_tokens" in
    elim (Bool-cases (is_set hit || (is_set miss || is_set prompt))) [
      | inr e ↦ rw (e, normalize_deepseek_anthropic) (anthropic-AddsUp p)
      | inl e ↦
          rw (e, normalize_deepseek_anthropic)
            (λ h. elim (deepseek_total_adds hit miss prompt (integer_of p "input_tokens") h) [
              | inl adds ↦ inl adds
              | inr (total, there, missed, kept) ↦ inr (record {
                prompt = total;
                prompt_there = there;
                misses_there = missed;
                misses = kept;
              })
            ])
    ]

deepseek_chat-AddsUp :
    (p : Payload)
    → (normalize_deepseek_chat p).cache_hit_tokens ≤ (normalize_deepseek_chat p).total_input_tokens
    → AddsUp p (normalize_deepseek_chat p)
unfolding normalize_deepseek_chat chat_total parsed
deepseek_chat-AddsUp p h = ground arith

openai_chat-AddsUp :
    (p : Payload)
    → (normalize_openai_chat p).cache_hit_tokens ≤ (normalize_openai_chat p).total_input_tokens
    → AddsUp p (normalize_openai_chat p)
unfolding normalize_openai_chat parsed
openai_chat-AddsUp p h = inl (omega arith)

responses-AddsUp :
    (p : Payload)
    → (normalize_responses p).cache_hit_tokens ≤ (normalize_responses p).total_input_tokens
    → AddsUp p (normalize_responses p)
unfolding normalize_responses parsed
responses-AddsUp p h = inl (omega arith)

abbrev Adds : (Payload → NormalizedUsage) → Type 0
Adds parser =
    (p : Payload)
    → (parser p).cache_hit_tokens ≤ (parser p).total_input_tokens
    → AddsUp p (parser p)

-- One row of the table of parsers.
row-Adds :
    (b : Bool) (f : Payload → NormalizedUsage) (rest : Option (Payload → NormalizedUsage))
    (parser : Payload → NormalizedUsage)
    → Adds f
    → (rest ≡ some parser → Adds parser)
    → (if b then some f else rest) ≡ some parser
    → Adds parser
row-Adds true f rest parser a k e = let same : f ≡ parser = cc in rw (sym same) a
row-Adds false f rest parser a k e = k e

parser-Adds :
    (schema : String) (parser : Payload → NormalizedUsage)
    → parser_of schema ≡ some parser
    → Adds parser
unfolding parser_of
parser-Adds schema parser =
    row-Adds (str_eq schema "deepseek_anthropic_messages_v1") normalize_deepseek_anthropic _ parser
      deepseek_anthropic-AddsUp
      (row-Adds (str_eq schema "native_anthropic_v1") normalize_anthropic _ parser anthropic-AddsUp
        (row-Adds (str_eq schema "deepseek_chat_completions_v1") normalize_deepseek_chat _ parser
          deepseek_chat-AddsUp
          (row-Adds (str_eq schema "openai_chat_completions_v1") normalize_openai_chat _ parser
            openai_chat-AddsUp
            (row-Adds (str_eq schema "deepseek_responses_v1" || str_eq schema "openai_responses_v1")
              normalize_responses none parser responses-AddsUp (λ e. cc)))))

labelled-AddsUp :
    (e : RawUsageEnvelope) (p : Payload) (u : NormalizedUsage)
    → AddsUp p u
    → AddsUp p (labelled e u)
labelled-AddsUp e p u (inl a) = inl a
labelled-AddsUp e p u (inr r) = inr (record {
  prompt = r.prompt;
  prompt_there = r.prompt_there;
  misses_there = r.misses_there;
  misses = r.misses;
})

-- Unless the provider reports more cached tokens than input tokens, the hits and the misses of a
-- normalized usage make up its input, whatever the schema, or else the provider has reported both
-- the prompt and the misses, neither as 0, and the two counts are the ones it reported.
pub usage-AddsUp :
    (e : RawUsageEnvelope) (u : NormalizedUsage)
    → normalize e ≡ some u
    → u.cache_hit_tokens ≤ u.total_input_tokens
    → AddsUp (unwrapped e.payload) u
unfolding normalize
usage-AddsUp e u n h = elim (Option-cases (parser_of e.usage_schema)) [
  | inl f ↦ let failed : none ≡ some u = rw (f, normalize) at n in cc
  | inr (parser, f) ↦
      let adds = parser-Adds e.usage_schema parser f (unwrapped e.payload) in
      let said : some (labelled e (parser (unwrapped e.payload))) ≡ some u =
        rw (f, normalize) at n in
      let same : labelled e (parser (unwrapped e.payload)) ≡ u = cc in
      rw (sym same) (
        labelled-AddsUp e (unwrapped e.payload) (parser (unwrapped e.payload))
          (adds (rw (sym same) at h)))
]
