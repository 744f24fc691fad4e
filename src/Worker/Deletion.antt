-- ===== src/Worker/Deletion.antt =====
-- What a delivery does to the rows.
use ipa_rs_hetero_cloud.Prelude.{
  ok_inj, ◌≡◌, refl, sym, ap, subst, ◌∙◌, ℕ, String, Bool, true, false, ◌&&◌, ◌||◌, Option, none,
  some, List, arith, ltb, if◌then◌else◌, Result, ok, err, ◌>>=◌,
}
use ipa_rs_hetero_cloud.Domain.Vpc.{Uuid}
use ipa_rs_hetero_cloud.Store.Lifecycle.{
  ServiceRow, Topic, reconcile, delete, flash_quota, is_delete, is_deleting, is_flash_quota,
  OutboxEvent, Database, find_row,
}
use ipa_rs_hetero_cloud.Store.Outbox.{mark_outbox_delivered, retry_outbox_event}
use ipa_rs_hetero_cloud.Store.Lifecycle.Events.{Superseded}
use ipa_rs_hetero_cloud.Worker.{
  WorkerError, Response, accepted, is_success, finish_reconcile, finish_delete, handle_response,
  respond, deliver, load_instance, settle, process_event, provider_delete_already_absent,
  permanent_reconcile_rejection, is_reconcile, provider_status, stale_payload, invalid_payload,
  unsupported_provider, missing_instance, transport,
}
use ipa_rs_hetero_cloud.Worker.Answers.{handle_leads}
use ipa_rs_hetero_cloud.Store.Lifecycle.Going.{StaysDeleting, unchanged}
use ipa_rs_hetero_cloud.Worker.Safety.{mark_keeps, complete_keeps}

module _ (k : Uuid) (row : ServiceRow) (event : OutboxEvent) (db : Database) where
  -- The row is being deleted, and the event is no newer than the rows allow.
  module _ (deleting_row : find_row k db.services ≡ some row)
      (is_going : is_deleting row.state ≡ true)
      (superseded : Superseded event (find_row event.payload.service_instance_id db.services)) where
    older :
        is_delete event.topic ≡ false
        → event.payload.service_instance_id ≡ k
        → ltb event.payload.generation row.generation ≡ true
    older topic path =
        let here : Superseded event (some row) =
          subst (Superseded event) (ap (λ id. find_row id db.services) path ∙ deleting_row)
            superseded in
        ground arith

    handle_keeps :
        (response : Response) (after : Database)
        → handle_response event response db ≡ ok after
        → StaysDeleting (find_row k after.services)
    handle_keeps response after h =
        handle_leads event db (λ d. StaysDeleting (find_row k d.services))
          (unchanged k row db deleting_row is_going)
          (λ state status d topic staying marked.
            mark_keeps k row db deleting_row is_going state event.payload.service_instance_id
              event.payload.provider event.payload.generation status d (older topic) marked)
          (λ d removed.
            complete_keeps k row db deleting_row is_going event.payload.service_instance_id
              event.payload.provider event.payload.generation d removed)
          response after h

-- What holds of the rows, and of those that an answer leads to, holds once the event is settled.
module _ (event : OutboxEvent) (db : Database) (P : List ServiceRow → Type 0) where
  module _ (now : P db.services)
      (later : (response : Response) (after : Database)
        → handle_response event response db ≡ ok after
        → P after.services) where
    settle_keeps :
        (time : ℕ) (result : Result WorkerError Database)
        → ((after : Database) → result ≡ ok after → P after.services)
        → P (settle event time db result).services
    unfolding settle mark_outbox_delivered retry_outbox_event
    settle_keeps time (ok after) keeps = keeps after refl
    settle_keeps time (err stale_payload) keeps = now
    settle_keeps time (err invalid_payload) keeps = now
    settle_keeps time (err unsupported_provider) keeps = now
    settle_keeps time (err missing_instance) keeps = now
    settle_keeps time (err transport) keeps = now
    settle_keeps time (err (provider_status n)) keeps = now

    respond_keeps :
        (time : ℕ) (loaded : Result WorkerError (Option ServiceRow)) (response : Option Response)
        → P (settle event time db (loaded >>= respond event response db)).services
    unfolding respond
    respond_keeps time (err e) response = settle_keeps time (err e) (λ after h. absurd (cc))
    respond_keeps time (ok none) response =
        settle_keeps time (ok db) (λ after h. subst (λ d. P d.services) (ok_inj h) now)
    respond_keeps time (ok (some instance)) none =
        settle_keeps time (err transport) (λ after h. absurd (cc))
    respond_keeps time (ok (some instance)) (some answer) =
        settle_keeps time (handle_response event answer db) (later answer)

    pub process_keeps :
        (vpc_configured : Bool) (response : Option Response) (time : ℕ) (before : Database)
        → P (process_event vpc_configured event response time before db).services
    unfolding process_event deliver
    process_keeps vpc_configured response time before =
        respond_keeps time (load_instance vpc_configured event before) response

-- Whatever the provider answers, and whatever has happened since the instance was read, a
-- service that is being deleted is afterwards still being deleted or gone, if the event is no
-- newer than the row that it names, and older if that row is being deleted and the event is not
-- for its deletion.
pub process_event-StaysDeleting :
    (vpc_configured : Bool) (event : OutboxEvent) (response : Option Response) (now : ℕ)
    (before db : Database) (k : Uuid) (row : ServiceRow)
    → find_row k db.services ≡ some row
    → is_deleting row.state ≡ true
    → Superseded event (find_row event.payload.service_instance_id db.services)
    → StaysDeleting
        (find_row k (process_event vpc_configured event response now before db).services)
process_event-StaysDeleting vpc_configured event response now before db k row d g s =
    process_keeps event db (λ rows. StaysDeleting (find_row k rows)) (unchanged k row db d g)
      (handle_keeps k row event db d g s) vpc_configured response now before

quota_keeps :
    (event : OutboxEvent) (db : Database)
    → event.topic ≡ flash_quota
    → (response : Response) (after : Database) → handle_response event response db ≡ ok after
    → after.services ≡ db.services
unfolding handle_response finish_reconcile
quota_keeps event db topic response after h =
    as_quota event.topic topic (is_success response.status)
      (provider_delete_already_absent event.topic response)
      (permanent_reconcile_rejection response.status)
      (finish_delete event (provider_delete_already_absent event.topic response) response db)
      (accepted response.operation_status) _ _ h
  where
    as_quota :
        (t : Topic)
        → t ≡ flash_quota
        → (success absent permanent : Bool) (deletion : Result WorkerError Database)
          (operation : Result WorkerError String) (mark : String → Result WorkerError Database)
          (rejection : Result WorkerError Database)
        → (if is_delete t && (success || absent)
            then deletion
            else if success
            then operation >>= (λ status. if is_flash_quota t then ok db else mark status)
            else if is_reconcile t && permanent
            then rejection
            else err (provider_status response.status))
          ≡ ok after
        → after.services ≡ db.services
    as_quota reconcile e success absent permanent deletion operation mark rejection h = cc
    as_quota delete e success absent permanent deletion operation mark rejection h = cc
    as_quota flash_quota e true absent permanent deletion (ok status) mark rejection h =
        ap (λ d. d.services) (sym (ok_inj h))
    as_quota flash_quota e true absent permanent deletion (err x) mark rejection h = cc
    as_quota flash_quota e false absent permanent deletion operation mark rejection h = cc

-- The delivery of a quota event never changes the row of a service, whatever the provider answers.
pub process_event-flash_quota :
    (vpc_configured : Bool) (event : OutboxEvent) (response : Option Response) (now : ℕ)
    (before db : Database)
    → event.topic ≡ flash_quota
    → (process_event vpc_configured event response now before db).services ≡ db.services
process_event-flash_quota vpc_configured event response now before db topic =
    process_keeps event db (λ rows. rows ≡ db.services) refl (quota_keeps event db topic)
      vpc_configured response now before
