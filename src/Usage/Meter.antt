-- ===== src/Usage/Meter.antt =====
-- core/llm/usage.py, `ReplayAwareTokenMeter`.
use claudecode_lite_main.Prelude.{
  ℕ, ◌≤◌, String, Option, none, some, false, not, ◌&&◌, ◌||◌, ◌==◌, ltb, str_eq, if◌then◌else◌, ◌≡◌,
  ◌↔◌, ◌⊎◌, eq_iff, arith,
}
use claudecode_lite_main.Prelude.Int.{ℤ, add_clamped, is_zero}
use claudecode_lite_main.Usage.Normalizer.{Confidence, derived, NormalizedUsage}

pub record UsageBaseline : Type 0 where
  pub surface_revision : ℕ
  pub route_epoch : String
  pub prefix_epoch : String
  pub envelope_id : String
  pub continuation_policy_identity : String
  pub total_input_tokens : ℕ
  pub confidence : Confidence
  pub usage_schema : String
  pub measurement_source : String
  pub log_revision : Option ℕ

-- The identities that `record` and `estimate` are given.
pub record Request : Type 0 where
  pub surface_revision : ℕ
  pub route_epoch : String
  pub prefix_epoch : String
  pub envelope_id : String
  pub continuation_policy_identity : String

abbrev pub text_or : String → String → String
text_or a b = if str_eq a "" then b else a

-- The meter's state is its baseline.
unfoldable pub record_usage :
    NormalizedUsage → Request → String → String → Option ℕ → Option UsageBaseline
record_usage u r usage_schema measurement_source log_revision = some (record {
  surface_revision = r.surface_revision;
  route_epoch = r.route_epoch;
  prefix_epoch = r.prefix_epoch;
  envelope_id = r.envelope_id;
  continuation_policy_identity = r.continuation_policy_identity;
  total_input_tokens = u.total_input_tokens;
  confidence = u.confidence;
  usage_schema = text_or usage_schema u.usage_schema;
  measurement_source = text_or measurement_source u.measurement_source;
  log_revision = log_revision;
})

abbrev pub invalidated : Option UsageBaseline
invalidated = none

unfoldable pub estimate : Option UsageBaseline → Request → ℤ → Option (ℕ × Confidence)
estimate none r delta = none
estimate (some b) r delta =
    if not (str_eq b.route_epoch r.route_epoch)
      || (not (str_eq b.prefix_epoch r.prefix_epoch)
          || not (str_eq b.continuation_policy_identity r.continuation_policy_identity))
    then none
    else if not (str_eq b.envelope_id r.envelope_id) && is_zero delta
    then none
    else if not (r.surface_revision == b.surface_revision) && is_zero delta
    then none
    else if ltb r.surface_revision b.surface_revision
    then none
    else some
        (add_clamped b.total_input_tokens delta, if is_zero delta then b.confidence else derived)

-- The request whose price the baseline may stand for.
pub record Compatible (b : UsageBaseline) (r : Request) : Type 0 where
  pub same_route : b.route_epoch ≡ r.route_epoch
  pub same_prefix : b.prefix_epoch ≡ r.prefix_epoch
  pub same_policy : b.continuation_policy_identity ≡ r.continuation_policy_identity
  pub not_older : b.surface_revision ≤ r.surface_revision

-- With no change given, the request must moreover be the one that was measured.
abbrev pub Usable : UsageBaseline → Request → ℤ → Type 0
Usable b r delta =
    Compatible b r
    × ((is_zero delta ≡ false)
        ⊎ ((b.envelope_id ≡ r.envelope_id) × (b.surface_revision ≡ r.surface_revision)))

-- The meter answers just when the baseline is for the same route, prefix and policy, and for no later
-- revision, and a change is given or the envelope and the revision are the measured ones. The answer is
-- the measured total, changed and no less than 0.
pub estimate_exact :
    (b : UsageBaseline) (r : Request) (delta : ℤ) (n : ℕ) (q : Confidence)
    → (estimate (some b) r delta ≡ some (n, q)) ↔ (
        Usable b r delta
        × (n ≡ add_clamped b.total_input_tokens delta)
        × (q ≡ (if is_zero delta then b.confidence else derived)))
unfolding estimate
estimate_exact b r delta n q = ground (
  arith,
  eq_iff b.route_epoch r.route_epoch,
  eq_iff b.prefix_epoch r.prefix_epoch,
  eq_iff b.continuation_policy_identity r.continuation_policy_identity,
  eq_iff b.envelope_id r.envelope_id,
)
