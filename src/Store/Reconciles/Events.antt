-- ===== src/Store/Reconciles/Events.antt =====
-- The events that are posted name the generation of their rows.
use ipa_rs_hetero_cloud.Prelude.{
  ◌≡◌, refl, sym, ap, subst, ◌∙◌, ℕ, String, Bool, true, false, not, ◌&&◌, Option, none, some, List,
  [], ◌∷◌, map, arith, if◌then◌else◌, All,
}
use ipa_rs_hetero_cloud.Domain.Vpc.{Uuid}
use ipa_rs_hetero_cloud.Store.Lifecycle.{
  ServiceRow, Topic, is_deleting, OutboxEvent, Database, find_row, new_event,
}
use ipa_rs_hetero_cloud.Store.Lifecycle.Rows.{find_row_id}
use ipa_rs_hetero_cloud.Store.Lifecycle.Events.{Superseded, AllSuperseded}
use ipa_rs_hetero_cloud.Store.Reconciles.{
  Posting, flash_payload, post_event, post_events, has_flash_quota, enqueue_flash_quota_reconcile,
  GpuServiceRequest, is_going_on, enqueue_flash_gpu_reconciles,
}

-- A posting that leaves out the services that are being deleted.
abbrev pub SparesDeleted : Posting → Type 0
SparesDeleted posting =
    (row : ServiceRow) → posting.selected row ≡ true → is_deleting row.state ≡ false

level_Superseded :
    (event_id : Uuid) (topic : Topic) (principal_id : Uuid) (now : ℕ) (row : ServiceRow)
    → is_deleting row.state ≡ false
    → Superseded (new_event event_id topic (flash_payload row principal_id) now) (some row)
level_Superseded event_id topic principal_id now row alive = ground arith

module _ (posting : Posting) (spares : SparesDeleted posting) (services : List ServiceRow) where
  abbrev Behind : OutboxEvent → Type 0
  Behind event = Superseded event (find_row event.payload.service_instance_id services)

  post_event-Behind :
      (id : Uuid) (events : List OutboxEvent)
      → All Behind events
      → All Behind (post_event posting (find_row id services) events)
  unfolding post_event
  post_event-Behind id events all = by_slot (find_row id services) refl
    where
      by_parts :
          (row : ServiceRow) (b : Bool) (principal : Option Uuid)
          → find_row id services ≡ some row
          → posting.selected row ≡ b
          → All Behind (
              if b
              then elim principal [
                | none ↦ events
                | some principal_id ↦
                    new_event
                      (posting.event_id_of row)
                      posting.topic
                      (flash_payload row principal_id)
                      posting.now
                    ∷ events
              ]
              else events)
      by_parts row false principal e s = all
      by_parts row true none e s = all
      by_parts row true (some principal_id) e s =
          let here : find_row row.id services ≡ some row =
            ap (λ key. find_row key services) (find_row_id id services row e) ∙ e in
          (
            subst
                (Superseded (
                  new_event (posting.event_id_of row) posting.topic (flash_payload row principal_id)
                    posting.now))
                (sym here)
                (level_Superseded (posting.event_id_of row) posting.topic principal_id posting.now
                  row (spares row s)),
            all,
          )

      by_slot :
          (slot : Option ServiceRow)
          → find_row id services ≡ slot
          → All Behind (post_event posting slot events)
      by_slot none e = all
      by_slot (some row) e = by_parts row (posting.selected row) (posting.principal_of row) e refl

  pub post_events-Behind :
      (ids : List Uuid) (events : List OutboxEvent)
      → All Behind events
      → All Behind (post_events posting services ids events)
  unfolding post_events
  post_events-Behind [] events all = all
  post_events-Behind (id ∷ rest) events all =
      post_event-Behind id (post_events posting services rest events)
        (post_events-Behind rest events all)

has_flash_quota-alive :
    (organization_id : Option Uuid) (row : ServiceRow)
    → has_flash_quota organization_id row ≡ true
    → is_deleting row.state ≡ false
unfolding has_flash_quota
has_flash_quota-alive organization_id row h = first_two _ _ _ h
  where
    first_two : (a d b : Bool) → (a && (not d && b)) ≡ true → d ≡ false
    first_two a d b h = ground arith

is_going_on-alive : (row : ServiceRow) → is_going_on row ≡ true → is_deleting row.state ≡ false
is_going_on-alive row h = turned (is_deleting row.state) h
  where
    turned : (d : Bool) → not d ≡ true → d ≡ false
    turned d h = ground arith

pub enqueue_flash_quota_reconcile-AllSuperseded :
    (principal_of : ServiceRow → Option Uuid) (event_id_of : ServiceRow → Uuid) (now : ℕ)
    (organization_id : Option Uuid) (db : Database)
    → AllSuperseded db
    → AllSuperseded (enqueue_flash_quota_reconcile principal_of event_id_of now organization_id db)
unfolding enqueue_flash_quota_reconcile
enqueue_flash_quota_reconcile-AllSuperseded principal_of event_id_of now organization_id db all =
    post_events-Behind _ (has_flash_quota-alive organization_id) db.services
      (map (λ row. row.id) db.services) db.outbox all

pub enqueue_flash_gpu_reconciles-AllSuperseded :
    (principal_of : ServiceRow → Option Uuid) (event_id_of : ServiceRow → Uuid) (now : ℕ)
    (gpu_types : List String) (requests : List GpuServiceRequest) (db : Database)
    → AllSuperseded db
    → AllSuperseded
        (enqueue_flash_gpu_reconciles principal_of event_id_of now gpu_types requests db)
unfolding enqueue_flash_gpu_reconciles
enqueue_flash_gpu_reconciles-AllSuperseded principal_of event_id_of now gpu_types requests db all =
    post_events-Behind _ is_going_on-alive db.services _ db.outbox all
