-- ===== src/Worker/Steps.antt =====
-- Every order of requests and deliveries: the store and the worker as steps on the database.
pub mod Final
pub mod Phases
use ipa_rs_hetero_cloud.Prelude.{
  bind_ok, then_ok, ok_inj, branch, ◌≡◌, ◌≢◌, refl, sym, ap, subst, ◌∙◌, ◌⊎◌, inl, inr, ℕ, String,
  Bool, true, false, Option, none, some, List, [], ◌∷◌, arith, ◌==◌, ◌&&◌, if◌then◌else◌, ==_iff,
  All, All-map, Any, Result, ok, err, str_eq,
}
use ipa_rs_hetero_cloud.Domain.Vpc.{Uuid}
use ipa_rs_hetero_cloud.Store.Lifecycle.{
  ServiceRow, provisioning, reconcile, is_deleting, OutboxEvent, Database, LifecycleError, conflict,
  find_row, new_event, payload_of, begin_delete, record_update, record_create,
}
use ipa_rs_hetero_cloud.Store.Outbox.{claim_outbox_event, next_event, update_event}
use ipa_rs_hetero_cloud.Store.Lifecycle.Events.{
  Superseded, AllSuperseded, begin_delete-AllSuperseded, record_update-AllSuperseded,
}
use ipa_rs_hetero_cloud.Store.Lifecycle.Going.{
  StaysDeleting, unchanged, begin_delete_stays, record_update_stays, record_create_stays,
}
use ipa_rs_hetero_cloud.Store.Reconciles.{
  GpuServiceRequest, enqueue_flash_quota_reconcile, enqueue_flash_gpu_reconciles,
  record_flash_observation,
}
use ipa_rs_hetero_cloud.Store.Reconciles.Events.{
  enqueue_flash_quota_reconcile-AllSuperseded, enqueue_flash_gpu_reconciles-AllSuperseded,
}
use ipa_rs_hetero_cloud.Store.Reconciles.Observed.{record_flash_observation-AllSuperseded}
use ipa_rs_hetero_cloud.Worker.{Response, process_event}
use ipa_rs_hetero_cloud.Worker.Deletion.{process_event-StaysDeleting}
use ipa_rs_hetero_cloud.Worker.Reachable.{claimed_superseded, process_event-AllSuperseded}

-- The event is in the outbox, whatever its attempts and times are by now.
abbrev pub IsPosted : OutboxEvent → Database → Type 0
IsPosted event db =
    Any (λ posted. (posted.topic ≡ event.topic) × (posted.payload ≡ event.payload)) db.outbox

-- No event names the service.
abbrev pub IsUnused : Uuid → Database → Type 0
IsUnused id db = All (λ event. event.payload.service_instance_id ≢ id) db.outbox

-- What writes the rows of services or the events about them: the requests that create, update or
-- delete a service, a claim, the end of a delivery, the events after a change of quotas or of a GPU,
-- and an observation of a Flash service. The worker has read the database `before` at any earlier
-- time, and an observation its `instance`.
pub data Step : Database → Database → Type 0 where
  created :
      (event_id : Uuid) (now : ℕ) (principal_id : Uuid) (prepared : ServiceRow)
      (db after : Database)
      → IsUnused prepared.id db
      → record_create event_id now principal_id prepared db ≡ ok after
      → Step db after
  updated :
      (event_id : Uuid) (now : ℕ) (principal_id : Uuid) (expected : Option ℕ)
      (prepared : ServiceRow) (db after : Database)
      → record_update event_id now principal_id expected prepared db ≡ ok after
      → Step db after
  deletion_begun :
      (event_id : Uuid) (now : ℕ) (organization_id id : Uuid) (provider : String)
      (principal_id : Uuid) (db after : Database)
      → begin_delete event_id now organization_id id provider principal_id db ≡ ok after
      → Step db after
  claimed : (now : ℕ) (db : Database) → Step db (claim_outbox_event now db).0
  processed :
      (vpc_configured : Bool) (event : OutboxEvent) (response : Option Response) (now : ℕ)
      (before db : Database)
      → IsPosted event db
      → Step db (process_event vpc_configured event response now before db)
  quotas_enqueued :
      (principal_of : ServiceRow → Option Uuid) (event_id_of : ServiceRow → Uuid) (now : ℕ)
      (organization_id : Option Uuid) (db : Database)
      → Step db (enqueue_flash_quota_reconcile principal_of event_id_of now organization_id db)
  gpus_enqueued :
      (principal_of : ServiceRow → Option Uuid) (event_id_of : ServiceRow → Uuid) (now : ℕ)
      (gpu_types : List String) (requests : List GpuServiceRequest) (db : Database)
      → Step db (enqueue_flash_gpu_reconciles principal_of event_id_of now gpu_types requests db)
  observed :
      (instance : ServiceRow) (observed_generation : Option ℕ) (phase : Option String)
      (status : String) (db : Database)
      → Step db (record_flash_observation instance observed_generation phase status db)

abbrev pub empty : Database
empty = record { services = []; outbox = [] }

pub data Reachable : Database → Type 0 where
  start : Reachable empty
  next : (db after : Database) → Reachable db → Step db after → Reachable after

created_superseded :
    (event_id : Uuid) (now : ℕ) (principal_id : Uuid) (prepared : ServiceRow) (db after : Database)
    → IsUnused prepared.id db
    → record_create event_id now principal_id prepared db ≡ ok after
    → AllSuperseded db
    → AllSuperseded after
unfolding record_create find_row
created_superseded event_id now principal_id prepared db after unused h all =
    created_row (find_row prepared.id db.services) h
  where
    row : ServiceRow
    row = record prepared { generation = 1; state = provisioning; status = "{}" }

    with_row : Database
    with_row = record {
      services = row ∷ db.services;
      outbox = new_event event_id reconcile (payload_of row principal_id) now ∷ db.outbox;
    }

    other :
        (event : OutboxEvent)
        → event.payload.service_instance_id ≢ prepared.id
        → Superseded event (find_row event.payload.service_instance_id db.services)
        → Superseded event (find_row event.payload.service_instance_id (row ∷ db.services))
    other event apart s =
        subst (Superseded event)
          (sym (behind_row (prepared.id == event.payload.service_instance_id) refl)) s
      where
        behind_row :
            (b : Bool)
            → (prepared.id == event.payload.service_instance_id) ≡ b
            → find_row event.payload.service_instance_id (row ∷ db.services)
              ≡ find_row event.payload.service_instance_id db.services
        behind_row true same =
            absurd (apart (sym ((==_iff prepared.id event.payload.service_instance_id).0 same)))
        behind_row false e = ground arith

    others :
        (events : List OutboxEvent)
        → All (λ event. event.payload.service_instance_id ≢ prepared.id) events
        → All
            (λ event. Superseded event (find_row event.payload.service_instance_id db.services))
            events
        → All
            (λ event.
              Superseded event (find_row event.payload.service_instance_id (row ∷ db.services)))
            events
    others [] u s = tt
    others (event ∷ events) u s = (other event u.0 s.0, others events u.1 s.1)

    first : find_row row.id (row ∷ db.services) ≡ some row
    first = ground arith

    created_row :
        (slot : Option ServiceRow)
        → elim slot [
          | none ↦ ok with_row
          | some old ↦
              if old.organization_id == prepared.organization_id
                && str_eq old.provider prepared.provider
              then ok db
              else err conflict
        ]
          ≡ ok after
        → AllSuperseded after
    created_row none h = subst AllSuperseded (ok_inj h) (
      subst (Superseded (new_event event_id reconcile (payload_of row principal_id) now))
          (sym first) refl,
      others db.outbox unused all,
    )
    created_row (some old) h =
        elim (branch
          (old.organization_id == prepared.organization_id && str_eq old.provider prepared.provider)
          (ok db) (err conflict) after h) [
            | inl (b, same) ↦ subst AllSuperseded (ok_inj same) all
            | inr (b, refused) ↦ absurd (no_result refused)
          ]
      where
        no_result :
            (let left : Result LifecycleError Database = err conflict in left ≡ ok after) → ⊥
        no_result h = cc

Step-AllSuperseded : (db after : Database) → Step db after → AllSuperseded db → AllSuperseded after
Step-AllSuperseded _ _ (created event_id now principal_id prepared db after unused h) all =
    created_superseded event_id now principal_id prepared db after unused h all
Step-AllSuperseded _ _ (updated event_id now principal_id expected prepared db after h) all =
    record_update-AllSuperseded event_id now principal_id expected prepared db after h all
Step-AllSuperseded _ _
      (deletion_begun event_id now organization_id id provider principal_id db after h) all =
    begin_delete-AllSuperseded event_id now organization_id id provider principal_id db after h all
Step-AllSuperseded _ _ (claimed now db) all = claimed_superseded now db all
Step-AllSuperseded _ _ (processed vpc_configured event response now before db posted) all =
    process_event-AllSuperseded event db all vpc_configured response now before
Step-AllSuperseded _ _ (quotas_enqueued principal_of event_id_of now organization_id db) all =
    enqueue_flash_quota_reconcile-AllSuperseded principal_of event_id_of now organization_id db all
Step-AllSuperseded _ _ (gpus_enqueued principal_of event_id_of now gpu_types requests db) all =
    enqueue_flash_gpu_reconciles-AllSuperseded principal_of event_id_of now gpu_types requests db
      all
Step-AllSuperseded _ _ (observed instance observed_generation phase status db) all =
    record_flash_observation-AllSuperseded instance observed_generation phase status db all

-- In every database that is reached from the empty one by the requests that create, update or
-- delete a service, claims, the ends of deliveries, the events after a change of quotas or of a
-- GPU, and observations of Flash services, no event about a service is ahead of the service's
-- row, and only a deletion is level with a row being deleted; new services take ids that no event
-- names.
pub Reachable-AllSuperseded : (db : Database) → Reachable db → AllSuperseded db
Reachable-AllSuperseded _ start = tt
Reachable-AllSuperseded _ (next db after reached step) =
    Step-AllSuperseded db after step (Reachable-AllSuperseded db reached)
