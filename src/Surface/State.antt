-- ===== src/Surface/State.antt =====
-- core/session/surface.py: the state of a conversation's surface, and the candidates for a compaction.
-- `epoch_digest n s` is the start of the SHA-256 digest of the text `n:s`, which the standard library
-- makes. The lock `mutation_lane`, which the callers hold, is left out.
use Prim.Native.String.{◌++◌ as str_append}
use claudecode_lite_main.Prelude.{
  ℕ, ◌+◌, String, List, Option, none, some, Bool, true, false, not, ◌&&◌, ◌==◌, str_eq,
  if◌then◌else◌,
}

pub record SurfaceSnapshot : Type 0 where
  pub surface_revision : ℕ
  pub active_head_id : Option String
  pub contract_version : ℕ
  pub contract_digest : String
  pub pending_reconciliation_watermark : String
  pub active_checkpoint_id : Option String
  pub active_checkpoint_status : String
  pub pending_digest : String

pub record CompactionCandidate : Type 0 where
  pub base_surface_revision : ℕ
  pub base_active_head_id : Option String
  pub base_contract_digest : String
  pub base_pending_watermark : String
  pub base_checkpoint_id : Option String
  pub selected_unit_ids : List String
  pub selected_span_digest : String
  pub route_epoch : String
  pub prefix_epoch : String
  pub request_envelope_id : String
  pub base_contract_version : ℕ
  pub base_pending_digest : String
  pub base_checkpoint_status : String

-- What is chosen once the snapshot is taken.
pub record Selection : Type 0 where
  pub unit_ids : List String
  pub span_digest : String
  pub route : String
  pub prefix : String
  pub envelope_id : String

unfoldable pub from_snapshot : SurfaceSnapshot → Selection → CompactionCandidate
from_snapshot s x = record {
  base_surface_revision = s.surface_revision;
  base_active_head_id = s.active_head_id;
  base_contract_digest = s.contract_digest;
  base_pending_watermark = s.pending_reconciliation_watermark;
  base_checkpoint_id = s.active_checkpoint_id;
  selected_unit_ids = x.unit_ids;
  selected_span_digest = x.span_digest;
  route_epoch = x.route;
  prefix_epoch = x.prefix;
  request_envelope_id = x.envelope_id;
  base_contract_version = s.contract_version;
  base_pending_digest = s.pending_digest;
  base_checkpoint_status = s.active_checkpoint_status;
}

pub record SurfaceState : Type 0 where
  pub surface_revision : ℕ
  pub active_head_id : Option String
  pub contract_version : ℕ
  pub contract_digest : String
  pub pending_reconciliation_watermark : String
  pub pending_digest : String
  pub active_checkpoint_id : Option String
  pub active_checkpoint_status : String
  pub route_epoch : String
  pub prefix_epoch : String
  pub route_counter : ℕ
  pub prefix_counter : ℕ

abbrev pub new_surface : SurfaceState
new_surface = record {
  surface_revision = 0;
  active_head_id = none;
  contract_version = 0;
  contract_digest = "";
  pending_reconciliation_watermark = "";
  pending_digest = "";
  active_checkpoint_id = none;
  active_checkpoint_status = "NONE";
  route_epoch = "route-0";
  prefix_epoch = "prefix-0";
  route_counter = 0;
  prefix_counter = 0;
}

unfoldable pub snapshot : SurfaceState → SurfaceSnapshot
snapshot s = record {
  surface_revision = s.surface_revision;
  active_head_id = s.active_head_id;
  contract_version = s.contract_version;
  contract_digest = s.contract_digest;
  pending_reconciliation_watermark = s.pending_reconciliation_watermark;
  active_checkpoint_id = s.active_checkpoint_id;
  active_checkpoint_status = s.active_checkpoint_status;
  pending_digest = s.pending_digest;
}

-- An argument whose default is `None`, or the marker `_UNSET`: `none` leaves the field alone.
abbrev pub given {ℓ} : {A : Type ℓ} → Option A → A → A
given none old = old
given (some a) old = a

abbrev pub status_text : Option String → String
status_text none = "NONE"
status_text (some s) = s

-- The arguments of `note_surface_mutation`.
pub record Mutation : Type 0 where
  pub active_head_id : Option (Option String)
  pub contract_version : Option ℕ
  pub contract_digest : Option String
  pub pending_watermark : Option String
  pub pending_digest : Option String
  pub checkpoint_id : Option (Option String)
  pub checkpoint_status : Option (Option String)

unfoldable pub note_surface_mutation : Mutation → SurfaceState → SurfaceState
note_surface_mutation m s = record s {
  surface_revision = s.surface_revision + 1;
  active_head_id = given m.active_head_id s.active_head_id;
  contract_version = given m.contract_version s.contract_version;
  contract_digest = given m.contract_digest s.contract_digest;
  pending_reconciliation_watermark = given m.pending_watermark s.pending_reconciliation_watermark;
  pending_digest = given m.pending_digest s.pending_digest;
  active_checkpoint_id = given m.checkpoint_id s.active_checkpoint_id;
  active_checkpoint_status = elim m.checkpoint_status [
    | none ↦ s.active_checkpoint_status
    | some t ↦ status_text t
  ];
}

module _ (epoch_digest : ℕ → String → String) where
  unfoldable pub change_route : String → SurfaceState → SurfaceState
  change_route identity s = record s {
    route_counter = s.route_counter + 1;
    route_epoch = str_append "route-" (epoch_digest (s.route_counter + 1) identity);
  }

  unfoldable pub change_prefix : String → SurfaceState → SurfaceState
  change_prefix identity s = record s {
    prefix_counter = s.prefix_counter + 1;
    prefix_epoch = str_append "prefix-" (epoch_digest (s.prefix_counter + 1) identity);
  }

unfoldable pub synchronize_epochs : String → String → SurfaceState → SurfaceState
synchronize_epochs route prefix s = record s { route_epoch = route; prefix_epoch = prefix }

abbrev pub same_id : Option String → Option String → Bool
same_id none none = true
same_id (some a) (some b) = str_eq a b
same_id _ _ = false

unfoldable pub semantic_surface_matches :
    SurfaceSnapshot → CompactionCandidate → String → String → Bool
semantic_surface_matches s c route prefix =
    (s.surface_revision == c.base_surface_revision)
    && (same_id s.active_head_id c.base_active_head_id
        && ((s.contract_version == c.base_contract_version)
            && (str_eq s.contract_digest c.base_contract_digest
                && (str_eq s.pending_reconciliation_watermark c.base_pending_watermark
                    && (str_eq s.pending_digest c.base_pending_digest
                        && (same_id s.active_checkpoint_id c.base_checkpoint_id
                            && (str_eq s.active_checkpoint_status c.base_checkpoint_status
                                && (str_eq route c.route_epoch
                                    && str_eq prefix c.prefix_epoch))))))))

unfoldable pub candidate_matches : SurfaceState → CompactionCandidate → Bool
unfolding snapshot
candidate_matches self c =
    let s = snapshot self in
    (s.surface_revision == c.base_surface_revision)
    && (same_id s.active_head_id c.base_active_head_id
        && ((s.contract_version == c.base_contract_version)
            && (str_eq s.contract_digest c.base_contract_digest
                && (str_eq s.pending_reconciliation_watermark c.base_pending_watermark
                    && (str_eq s.pending_digest c.base_pending_digest
                        && (same_id s.active_checkpoint_id c.base_checkpoint_id
                            && (str_eq s.active_checkpoint_status c.base_checkpoint_status
                                && (str_eq self.route_epoch c.route_epoch
                                    && str_eq self.prefix_epoch c.prefix_epoch))))))))

unfoldable pub commit_candidate : CompactionCandidate → SurfaceState → SurfaceState × Bool
unfolding candidate_matches
commit_candidate c s = if not (candidate_matches s c) then (s, false) else (
  record s {
    surface_revision = s.surface_revision + 1;
    active_head_id = some c.selected_span_digest;
    active_checkpoint_id = some c.selected_span_digest;
    active_checkpoint_status = "ACTIVE_CHECKPOINT";
  },
  true,
)
