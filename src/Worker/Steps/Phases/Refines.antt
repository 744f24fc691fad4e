-- ===== src/Worker/Steps/Phases/Refines.antt =====
-- The store and the worker implement the life of a service.
use ipa_rs_hetero_cloud.Prelude.{
  ◌≡◌, refl, sym, subst, ℕ, String, Bool, true, false, Option, none, some, arith,
}
use ipa_rs_hetero_cloud.Domain.Vpc.{Uuid}
use ipa_rs_hetero_cloud.Store.Lifecycle.{
  ServiceState, ServiceRow, is_delete, is_deleting, OutboxEvent, Database, find_row, put_row,
  remove_row, matches_key, complete_delete, mark_service_instance,
}
use ipa_rs_hetero_cloud.Store.Lifecycle.Events.{Superseded}
use ipa_rs_hetero_cloud.Store.Reconciles.{
  enqueue_flash_quota_reconcile, enqueue_flash_gpu_reconciles,
}
use ipa_rs_hetero_cloud.Store.Reconciles.Observed.{observed_rows}
use ipa_rs_hetero_cloud.Worker.{Response, process_event}
use ipa_rs_hetero_cloud.Worker.Answers.{handle_leads}
use ipa_rs_hetero_cloud.Worker.Deletion.{process_keeps}
use ipa_rs_hetero_cloud.Worker.Steps.{
  Step, created, updated, deletion_begun, claimed, processed, quotas_enqueued, gpus_enqueued,
  observed, Reachable, Reachable-AllSuperseded,
}
use ipa_rs_hetero_cloud.Worker.Steps.Final.{IsPosted-Superseded, claimed_services}
use ipa_rs_hetero_cloud.Worker.Steps.Phases.{
  Moves, phase_of, Change, same_rows, put, remove, Change-Moves,
}
use ipa_rs_hetero_cloud.Worker.Steps.Phases.Requests.{
  same_key, begin_delete-Change, record_update-Change, record_create-Change,
}

-- An event that deletes nothing is not level with a row that is being deleted.
level_alive :
    (event : OutboxEvent) (row : ServiceRow)
    → is_delete event.topic ≡ false
    → Superseded event (some row)
    → is_deleting row.state ≡ true
    → matches_key event.payload.provider event.payload.generation row ≡ true
    → ⊥
unfolding matches_key
level_alive event row topic superseded dying level = ground arith

marked-Change :
    (event : OutboxEvent) (state : ServiceState) (status : String) (db after : Database)
    → Superseded event (find_row event.payload.service_instance_id db.services)
    → is_delete event.topic ≡ false
    → mark_service_instance state event.payload.service_instance_id event.payload.provider
        event.payload.generation status db
      ≡ some after
    → Change db.services after.services
unfolding mark_service_instance
marked-Change event state status db after superseded topic h =
    by_slot (find_row event.payload.service_instance_id db.services) refl superseded
  where
    by_match :
        (row : ServiceRow) (b : Bool)
        → find_row event.payload.service_instance_id db.services ≡ some row
        → matches_key event.payload.provider event.payload.generation row ≡ b
        → (is_deleting row.state ≡ true → b ≡ true → ⊥)
        → Change db.services after.services
    by_match row false e m alive = absurd (ground arith)
    by_match row true e m alive =
        let same : after.services
            ≡ put_row (record row { state = state; status = status }) db.services =
          ground arith in
        subst (Change db.services) (sym same) (
          put (record row { state = state; status = status }) row
            (same_key event.payload.service_instance_id db.services row e)
            (λ dying. absurd (alive dying refl)))

    by_slot :
        (slot : Option ServiceRow)
        → find_row event.payload.service_instance_id db.services ≡ slot
        → Superseded event slot
        → Change db.services after.services
    by_slot none e s = absurd (ground arith)
    by_slot (some row) e s =
        by_match row (matches_key event.payload.provider event.payload.generation row) e refl
          (level_alive event row topic s)

removed-Change :
    (id : Uuid) (provider : String) (generation : ℕ) (db after : Database)
    → complete_delete id provider generation db ≡ some after
    → Change db.services after.services
unfolding complete_delete
removed-Change id provider generation db after h = by_slot (find_row id db.services) refl
  where
    by_parts :
        (row : ServiceRow) (b c : Bool)
        → find_row id db.services ≡ some row
        → matches_key provider generation row ≡ b
        → is_deleting row.state ≡ c
        → Change db.services after.services
    by_parts row true true e m d =
        let same : after.services ≡ remove_row id db.services = ground arith in
        subst (Change db.services) (sym same) (remove id row e d)
    by_parts row true false e m d = absurd (ground arith)
    by_parts row false c e m d = absurd (ground arith)

    by_slot :
        (slot : Option ServiceRow)
        → find_row id db.services ≡ slot
        → Change db.services after.services
    by_slot none e = absurd (ground arith)
    by_slot (some row) e =
        by_parts row (matches_key provider generation row) (is_deleting row.state) e refl refl

process_event-Change :
    (vpc_configured : Bool) (event : OutboxEvent) (response : Option Response) (now : ℕ)
    (before db : Database)
    → Superseded event (find_row event.payload.service_instance_id db.services)
    → Change db.services (process_event vpc_configured event response now before db).services
process_event-Change vpc_configured event response now before db superseded =
    process_keeps event db (Change db.services) same_rows
      (λ answer after h.
        handle_leads event db (λ d. Change db.services d.services) same_rows
          (λ state status d topic staying marked.
            marked-Change event state status db d superseded topic marked)
          (λ d removed.
            removed-Change event.payload.service_instance_id event.payload.provider
              event.payload.generation db d removed)
          answer after h)
      vpc_configured response now before

-- From a reachable database, every step, which is one of the requests that create, update or
-- delete a service, claims, the ends of deliveries, the events after a change of quotas or of a
-- GPU, and observations of Flash services, moves each service along its life: it appears alive,
-- turns to its deletion, and is gone from there, or stays where it is; new services take ids that
-- no event names.
pub Step-Moves :
    (db after : Database) (k : Uuid)
    → Reachable db
    → Step db after
    → Moves (phase_of (find_row k db.services)) (phase_of (find_row k after.services))
unfolding enqueue_flash_quota_reconcile enqueue_flash_gpu_reconciles
Step-Moves db after k reached step =
    Change-Moves db.services after.services k (change db after reached step)
  where
    change :
        (db after : Database) → Reachable db → Step db after → Change db.services after.services
    change _ _ reached (created event_id now principal_id prepared db after unused h) =
        record_create-Change event_id now principal_id prepared db after h
    change _ _ reached (updated event_id now principal_id expected prepared db after h) =
        record_update-Change event_id now principal_id expected prepared db after h
    change _ _ reached
          (deletion_begun event_id now organization_id id provider principal_id db after h) =
        begin_delete-Change event_id now organization_id id provider principal_id db after h
    change _ _ reached (claimed now db) =
        subst (Change db.services) (sym (claimed_services now db)) same_rows
    change _ _ reached (processed vpc_configured event response now before db posted) =
        process_event-Change vpc_configured event response now before db (
          IsPosted-Superseded event db.services db.outbox posted
            (Reachable-AllSuperseded db reached))
    change _ _ reached (quotas_enqueued principal_of event_id_of now organization_id db) = same_rows
    change _ _ reached (gpus_enqueued principal_of event_id_of now gpu_types requests db) =
        same_rows
    change _ _ reached (observed instance observed_generation phase status db) =
        observed_rows (Change db.services) instance observed_generation phase status db same_rows
          (λ row old here same old_alive alive. put row old here (λ dying. absurd (cc)))
