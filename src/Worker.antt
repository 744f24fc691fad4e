-- ===== src/Worker.antt =====
-- `deliver` and `process_one` of crates/heterocloud-worker/src/main.rs, for the topics that are
-- about a service. The provider's answer is an argument.
pub mod Safety
pub mod Answers
pub mod Deletion
pub mod Reachable
pub mod Steps
mod Examples
use ipa_rs_hetero_cloud.Prelude.{
  ℕ, String, Bool, true, false, not, ◌&&◌, ◌||◌, Option, none, some, List, [], ◌∷◌, if◌then◌else◌,
  leb, ltb, ◌==◌, within, is_some, Result, ok, err, ◌>>=◌, ◌>>◌, reject_if, str_eq,
}
use ipa_rs_hetero_cloud.Domain.Vpc.{Uuid}
use ipa_rs_hetero_cloud.Store.Lifecycle.{
  ServiceRow, ready, error, ReconcilePayload, OutboxEvent, Database, Topic, is_delete,
  is_flash_quota, reconcile, find_row, complete_delete, mark_service_instance,
}
use ipa_rs_hetero_cloud.Store.Outbox.{mark_outbox_delivered, retry_outbox_event}

pub data WorkerError : Type 0 where
  invalid_payload unsupported_provider missing_instance stale_payload transport : WorkerError
  provider_status : ℕ → WorkerError

-- The answer of a provider. `absent_envelope`: the body is complete JSON within the bound, with
-- the code `not_found` and a message. `operation_status` is what an `AcceptedOperation` says,
-- `none` where the body is none; `message` is the text stored for a rejection.
pub record Response : Type 0 where
  pub status : ℕ
  pub absent_envelope : Bool
  pub operation_status : Option String
  pub is_phase_error : Bool
  pub message : String

-- `ProviderTargets::target`, where only the VPC provider may be missing.
unfoldable pub has_target : Bool → String → Bool
has_target vpc_configured provider =
    str_eq provider "flow"
    || (str_eq provider "flash"
        || (str_eq provider "syouyu" || str_eq provider "vpc" && vpc_configured))

unfoldable pub service_instance_matches_payload : ServiceRow → ReconcilePayload → Bool
service_instance_matches_payload instance payload =
    instance.generation == payload.generation
    && (instance.organization_id == payload.organization_id
        && (instance.project_id == payload.project_id && str_eq instance.provider payload.provider))

unfoldable pub permanent_reconcile_rejection : ℕ → Bool
permanent_reconcile_rejection status = status == 400 || (status == 409 || status == 422)

abbrev pub is_success : ℕ → Bool
is_success status = within 200 299 status

unfoldable pub provider_delete_already_absent : Topic → Response → Bool
provider_delete_already_absent topic response =
    is_delete topic && (response.status == 404 && response.absent_envelope)

-- What precedes the request, on the database as it is then: `none` if there is nothing to delete.
unfoldable pub load_instance :
    Bool → OutboxEvent → Database → Result WorkerError (Option ServiceRow)
unfolding has_target service_instance_matches_payload find_row
load_instance vpc_configured event db = do
  reject_if (not (event.payload.service_instance_id == event.aggregate_id)) invalid_payload
  reject_if (is_flash_quota event.topic && not (str_eq event.payload.provider "flash"))
      invalid_payload
  reject_if (not (has_target vpc_configured event.payload.provider)) unsupported_provider
  elim (find_row event.payload.service_instance_id db.services) [
    | none ↦ if is_delete event.topic then ok none else err missing_instance
    | some instance ↦
        if service_instance_matches_payload instance event.payload
        then ok (some instance)
        else err stale_payload
  ]

-- `if !store.mark(...).await? { return Err(StalePayload) }`
abbrev pub or_stale : Option Database → Result WorkerError Database
or_stale none = err stale_payload
or_stale (some db) = ok db

-- A body that is no `AcceptedOperation` is an error of its decoding.
abbrev pub accepted : Option String → Result WorkerError String
accepted none = err transport
accepted (some status) = ok status

-- The answer that names an operation, for the topics that do not delete.
unfoldable pub finish_reconcile : OutboxEvent → Response → Database → Result WorkerError Database
unfolding mark_service_instance
finish_reconcile event response db = do
  status ← accepted response.operation_status
  if is_flash_quota event.topic
      then ok db
      else or_stale (
          mark_service_instance (if response.is_phase_error then error else ready)
            event.payload.service_instance_id event.payload.provider event.payload.generation status
            db)

unfoldable pub finish_delete :
    OutboxEvent → Bool → Response → Database → Result WorkerError Database
unfolding complete_delete
finish_delete event already_absent response db = do
  status ← if already_absent then ok "" else accepted response.operation_status
  or_stale (
      complete_delete event.payload.service_instance_id event.payload.provider
        event.payload.generation db)

abbrev pub is_reconcile : Topic → Bool
is_reconcile reconcile = true
is_reconcile _ = false

-- What follows the answer, on the database as it is by then.
unfoldable pub handle_response : OutboxEvent → Response → Database → Result WorkerError Database
unfolding provider_delete_already_absent permanent_reconcile_rejection finish_delete
    finish_reconcile mark_service_instance
handle_response event response db =
    if is_delete event.topic
      && (is_success response.status || provider_delete_already_absent event.topic response)
    then finish_delete event (provider_delete_already_absent event.topic response) response db
    else if is_success response.status
    then finish_reconcile event response db
    else if is_reconcile event.topic && permanent_reconcile_rejection response.status
    then or_stale (
        mark_service_instance error event.payload.service_instance_id event.payload.provider
          event.payload.generation response.message db)
    else err (provider_status response.status)

-- The request goes out between the two states of the database; without a response it has failed.
unfoldable pub respond :
    OutboxEvent → Option Response → Database → Option ServiceRow → Result WorkerError Database
unfolding handle_response
respond event response db none = ok db
respond event none db (some instance) = err transport
respond event (some response) db (some instance) = handle_response event response db

unfoldable pub deliver :
    Bool → OutboxEvent → Option Response → Database → Database → Result WorkerError Database
unfolding load_instance respond
deliver vpc_configured event response before after = do
  instance ← load_instance vpc_configured event before
  respond event response after instance

-- `process_one` once an event is claimed.
unfoldable pub settle : OutboxEvent → ℕ → Database → Result WorkerError Database → Database
unfolding mark_outbox_delivered retry_outbox_event
settle event now after (ok db) = mark_outbox_delivered event.id db
settle event now after (err stale_payload) = mark_outbox_delivered event.id after
settle event now after (err e) = retry_outbox_event event.id event.attempts now after

unfoldable pub process_event :
    Bool → OutboxEvent → Option Response → ℕ → Database → Database → Database
unfolding deliver settle
process_event vpc_configured event response now before after =
    settle event now after (deliver vpc_configured event response before after)
