-- ===== src/Usage/Reserve.antt =====
-- core/llm/usage.py, `normalize_output_reserve`: the tokens that are kept free for the output. The request
-- and the context's specification are mappings here.
use claudecode_lite_main.Prelude.{
  ℕ, ◌+◌, String, List, [], ◌∷◌, Option, none, some, Bool, false, str_eq, if◌then◌else◌, ◌≡◌, inl,
  inr, arith, Option-cases,
}
use claudecode_lite_main.Usage.Payload.{Value, text, null, Payload, get, count_of}

abbrev pub not_null : Option Value → Option Value
not_null none = none
not_null (some null) = none
not_null (some v) = some v

-- A field that is there and not `None`.
abbrev pub value_of : Payload → String → Option Value
value_of p key = not_null (get key p)

unfoldable pub first_present : Payload → List String → Option Value
first_present p [] = none
first_present p (key ∷ keys) = elim (value_of p key) [
  | none ↦ first_present p keys
  | some v ↦ some v
]

-- `_as_nonnegative_int`.
abbrev pub reserve_count : Value → ℕ
reserve_count v = count_of (some v) 0

abbrev pub certified : Payload → ℕ
certified spec = count_of (get "certified_worst_case_output" spec) 0

-- A field's text, where the field is there: `==` with a text fails on any other value.
abbrev pub is_semantics : Option Value → String → String → Bool
is_semantics none default name = str_eq default name
is_semantics (some (text s)) default name = str_eq s name
is_semantics (some _) default name = false

unfoldable pub normalize_output_reserve : Payload → Payload → ℕ
unfolding first_present
normalize_output_reserve request spec =
    let semantics = get "output_budget_semantics" spec in
    if is_semantics semantics "inclusive_total" "inclusive_total"
    then elim (first_present request ("max_output_tokens" ∷ "max_tokens" ∷ [])) [
      | none ↦ certified spec
      | some v ↦ reserve_count v
    ]
    else if is_semantics semantics "inclusive_total" "visible_plus_reasoning"
    then elim (first_present request
        ("visible_output_tokens" ∷ "max_output_tokens" ∷ "max_tokens" ∷ [])) [
          | none ↦ certified spec
          | some v ↦ reserve_count v + count_of (get "reasoning_budget" request) 0
        ]
    else certified spec

-- For a request that does not name its visible tokens apart, the two semantics differ by the budget for
-- reasoning, which is added where the request names a limit; where it names none both keep the certified
-- worst case.
reserve_adds_reasoning :
    (request inclusive split : Payload)
    → get "output_budget_semantics" inclusive ≡ none
    → get "output_budget_semantics" split ≡ some (text "visible_plus_reasoning")
    → certified inclusive ≡ certified split
    → value_of request "visible_output_tokens" ≡ none
    → normalize_output_reserve request split
      ≡ (elim (first_present request ("max_output_tokens" ∷ "max_tokens" ∷ [])) [
        | none ↦ normalize_output_reserve request inclusive
        | some v ↦
            normalize_output_reserve request inclusive + count_of (get "reasoning_budget" request) 0
      ])
unfolding normalize_output_reserve
reserve_adds_reasoning request inclusive split i p c v =
    elim (Option-cases (first_present request ("max_output_tokens" ∷ "max_tokens" ∷ []))) [
      | inl n ↦ rw (n, i, p, v, normalize_output_reserve) (ground arith)
      | inr (w, n) ↦ rw (n, i, p, v, normalize_output_reserve) (ground arith)
    ]
