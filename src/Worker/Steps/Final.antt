-- ===== src/Worker/Steps/Final.antt =====
-- A deletion that has begun is final in every order of steps.
use ipa_rs_hetero_cloud.Prelude.{
  ◌+◌, ◌≡◌, refl, sym, subst, inl, inr, ℕ, true, false, Option, none, some, List, [], ◌∷◌, All, Any,
}
use ipa_rs_hetero_cloud.Domain.Vpc.{Uuid}
use ipa_rs_hetero_cloud.Store.Lifecycle.{ServiceRow, is_deleting, OutboxEvent, Database, find_row}
use ipa_rs_hetero_cloud.Store.Outbox.{claim_outbox_event, next_event, update_event}
use ipa_rs_hetero_cloud.Store.Lifecycle.Events.{Superseded}
use ipa_rs_hetero_cloud.Store.Lifecycle.Going.{
  StaysDeleting, unchanged, put_stays, begin_delete_stays, record_update_stays, record_create_stays,
}
use ipa_rs_hetero_cloud.Store.Reconciles.{
  enqueue_flash_quota_reconcile, enqueue_flash_gpu_reconciles,
}
use ipa_rs_hetero_cloud.Store.Reconciles.Observed.{observed_rows}
use ipa_rs_hetero_cloud.Worker.Deletion.{process_event-StaysDeleting}
use ipa_rs_hetero_cloud.Worker.Steps.{
  Step, created, updated, deletion_begun, claimed, processed, quotas_enqueued, gpus_enqueued,
  observed, Reachable, Reachable-AllSuperseded,
}

pub IsPosted-Superseded :
    (event : OutboxEvent) (services : List ServiceRow) (outbox : List OutboxEvent)
    → Any (λ posted. (posted.topic ≡ event.topic) × (posted.payload ≡ event.payload)) outbox
    → All
        (λ posted. Superseded posted (find_row posted.payload.service_instance_id services))
        outbox
    → Superseded event (find_row event.payload.service_instance_id services)
IsPosted-Superseded event services [] posted all = absurd posted
IsPosted-Superseded event services (first ∷ rest) (inl (topic, payload)) all =
    subst (λ p. Superseded event (find_row p.service_instance_id services)) payload
      (same (find_row first.payload.service_instance_id services) all.0)
  where
    same : (slot : Option ServiceRow) → Superseded first slot → Superseded event slot
    same none s = tt
    same (some row) s = cc
IsPosted-Superseded event services (first ∷ rest) (inr posted) all =
    IsPosted-Superseded event services rest posted all.1

pub claimed_services :
    (now : ℕ) (db : Database) → (claim_outbox_event now db).0.services ≡ db.services
unfolding claim_outbox_event
claimed_services now db = same (next_event now db.outbox)
  where
    same :
        (next : Option OutboxEvent)
        → (elim next as (λ n. Database × Option OutboxEvent) [
          | none ↦ (db, none)
          | some event ↦ (
            update_event event.id
                (λ e. record e { locked_at = some now; attempts = e.attempts + 1 })
                db,
            some (record event { locked_at = some now; attempts = event.attempts + 1 }),
          )
        ]).0.services
          ≡ db.services
    same none = refl
    same (some event) = refl

-- From a reachable database, no step takes a service out of its deletion: afterwards its row is
-- still being deleted or is gone, whichever of its kinds the step is.
pub Step-StaysDeleting :
    (db after : Database) (k : Uuid) (row : ServiceRow)
    → Reachable db
    → Step db after
    → find_row k db.services ≡ some row
    → is_deleting row.state ≡ true
    → StaysDeleting (find_row k after.services)
unfolding enqueue_flash_quota_reconcile enqueue_flash_gpu_reconciles
Step-StaysDeleting _ _ k row reached (created event_id now principal_id prepared db after unused h)
      stored going =
    record_create_stays k row db stored going event_id now principal_id prepared after h
Step-StaysDeleting _ _ k row reached
      (updated event_id now principal_id expected prepared db after h) stored going =
    record_update_stays k row db stored going event_id now principal_id expected prepared after h
Step-StaysDeleting _ _ k row reached
      (deletion_begun event_id now organization_id id provider principal_id db after h) stored
      going =
    begin_delete_stays k row db stored going event_id now organization_id id provider principal_id
      after h
Step-StaysDeleting _ _ k row reached (claimed now db) stored going =
    subst (λ rows. StaysDeleting (find_row k rows)) (sym (claimed_services now db))
      (unchanged k row db stored going)
Step-StaysDeleting _ _ k row reached (processed vpc_configured event response now before db posted)
      stored going =
    process_event-StaysDeleting vpc_configured event response now before db k row stored going
      (IsPosted-Superseded event db.services db.outbox posted (Reachable-AllSuperseded db reached))
Step-StaysDeleting _ _ k row reached
      (quotas_enqueued principal_of event_id_of now organization_id db) stored going =
    unchanged k row db stored going
Step-StaysDeleting _ _ k row reached
      (gpus_enqueued principal_of event_id_of now gpu_types requests db) stored going =
    unchanged k row db stored going
Step-StaysDeleting _ _ k row reached (observed instance observed_generation phase status db) stored
      going =
    observed_rows (λ rows. StaysDeleting (find_row k rows)) instance observed_generation phase
      status db (unchanged k row db stored going)
      (λ new old here same old_alive alive.
        put_stays k row db stored going new old here
          (λ path. absurd (clash new old here old_alive path)))
  where
    clash :
        (new old : ServiceRow)
        → find_row new.id db.services ≡ some old
        → is_deleting old.state ≡ false
        → new.id ≡ k
        → ⊥
    clash new old here alive path =
        let same : old ≡ row = cc in
        let dead : is_deleting old.state ≡ true =
          subst (λ (r : ServiceRow). is_deleting r.state ≡ true) (sym same) going in
        cc
