-- ===== src/Store/Reconciles.antt =====
-- What else of crates/heterocloud-store writes services or their events: the reconciliations that
-- changed quotas and GPU devices call for in src/lib.rs, and record_flash_observation in
-- src/flash_operations.rs.
pub mod Observed
pub mod Events
use ipa_rs_hetero_cloud.Prelude.{
  ℕ, String, Bool, true, false, not, ◌&&◌, ◌||◌, Option, none, some, List, [], ◌∷◌, ◌++◌, map,
  filter, if◌then◌else◌, ◌==◌, any, is_none, is_some_and, str_eq,
}
use ipa_rs_hetero_cloud.Domain.Vpc.{Uuid}
use ipa_rs_hetero_cloud.Store.Lifecycle.{
  ServiceState, ready, updating, error, ServiceRow, Topic, reconcile, flash_quota, is_deleting,
  OutboxEvent, Database, ReconcilePayload, new_event, payload_of, find_row, put_row,
}

-- One transaction that posts an event for each of some services, for none without a principal.
-- `principal_of` and `event_id_of` are what the query joins and the new `Uuid`s.
pub record Posting : Type 0 where
  pub topic : Topic
  pub selected : ServiceRow → Bool
  pub principal_of : ServiceRow → Option Uuid
  pub event_id_of : ServiceRow → Uuid
  pub now : ℕ

abbrev pub flash_payload : ServiceRow → Uuid → ReconcilePayload
flash_payload row principal_id = record (payload_of row principal_id) { provider = "flash" }

unfoldable pub post_event : Posting → Option ServiceRow → List OutboxEvent → List OutboxEvent
post_event posting none events = events
post_event posting (some row) events =
    if posting.selected row
    then elim (posting.principal_of row) [
      | none ↦ events
      | some principal_id ↦
          new_event (posting.event_id_of row) posting.topic (flash_payload row principal_id)
            posting.now
          ∷ events
    ]
    else events

-- The loop over the rows of the query, each found by its primary key.
unfoldable pub post_events :
    Posting → List ServiceRow → List Uuid → List OutboxEvent → List OutboxEvent
unfolding post_event find_row
post_events posting services [] events = events
post_events posting services (id ∷ rest) events =
    post_event posting (find_row id services) (post_events posting services rest events)

-- `s.provider = 'flash' AND s.state <> 'deleting' AND ($1::uuid IS NULL OR ...)`
unfoldable pub has_flash_quota : Option Uuid → ServiceRow → Bool
has_flash_quota organization_id row =
    str_eq row.provider "flash"
    && (not (is_deleting row.state)
        && (is_none organization_id
            || is_some_and (λ id. row.organization_id == id) organization_id))

unfoldable pub enqueue_flash_quota_reconcile :
    (ServiceRow → Option Uuid) → (ServiceRow → Uuid) → ℕ → Option Uuid → Database → Database
unfolding has_flash_quota post_events
enqueue_flash_quota_reconcile principal_of event_id_of now organization_id db = record db {
  outbox =
      post_events
        (record {
          topic = flash_quota;
          selected = has_flash_quota organization_id;
          principal_of = principal_of;
          event_id_of = event_id_of;
          now = now;
        })
        db.services (map (λ row. row.id) db.services) db.outbox;
}

-- A row of `flash_gpu_service_requests`.
pub record GpuServiceRequest : Type 0 where
  pub service_instance_id : Uuid
  pub gpu_type : String

abbrev pub is_going_on : ServiceRow → Bool
is_going_on row = not (is_deleting row.state)

-- Without GPU types no request is selected, as behind the early return.
unfoldable pub enqueue_flash_gpu_reconciles :
    (ServiceRow → Option Uuid)
    → (ServiceRow → Uuid)
    → ℕ
    → List String
    → List GpuServiceRequest
    → Database
    → Database
unfolding post_events
enqueue_flash_gpu_reconciles principal_of event_id_of now gpu_types requests db = record db {
  outbox =
      post_events
        (record {
          topic = reconcile;
          selected = is_going_on;
          principal_of = principal_of;
          event_id_of = event_id_of;
          now = now;
        })
        db.services
        (map (λ r. r.service_instance_id)
          (filter (λ (r : GpuServiceRequest). any (λ t. str_eq t r.gpu_type) gpu_types) requests))
        db.outbox;
}

-- `status["phase"].as_str().unwrap_or("provisioning")` as a state.
unfoldable pub state_of_phase : Option String → ServiceState
state_of_phase none = updating
state_of_phase (some phase) =
    if str_eq phase "ready" then ready else if str_eq phase "error" then error else updating

-- `generation=$3 AND provider='flash' AND state<>'deleting'`, and the organization.
unfoldable pub is_observed : ServiceRow → ServiceRow → Bool
is_observed instance row =
    row.organization_id == instance.organization_id
    && (row.generation == instance.generation
        && (str_eq row.provider "flash" && not (is_deleting row.state)))

unfoldable pub observe_row :
    ServiceRow → Option String → String → Database → Option ServiceRow → Database
unfolding state_of_phase is_observed put_row
observe_row instance phase status db none = db
observe_row instance phase status db (some row) =
    if is_observed instance row
    then record db {
      services = put_row (record row { state = state_of_phase phase; status = status }) db.services;
    }
    else db

-- `record_flash_observation`: `instance` was read before, and `status` is the text that is stored.
-- The revisions and the diagnostics that it writes too are other tables.
unfoldable pub record_flash_observation :
    ServiceRow → Option ℕ → Option String → String → Database → Database
unfolding observe_row find_row
record_flash_observation instance observed_generation phase status db =
    if not (is_some_and (λ generation. generation == instance.generation) observed_generation)
    then db
    else observe_row instance phase status db (find_row instance.id db.services)
