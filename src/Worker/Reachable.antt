-- ===== src/Worker/Reachable.antt =====
-- Every order of requests and deliveries: the steps of the store and the worker.
use ipa_rs_hetero_cloud.Prelude.{
  ok_inj, ◌+◌, ◌≡◌, refl, subst, ℕ, Bool, true, false, Option, none, some, Result, ok, err, ◌>>=◌,
  if◌then◌else◌,
}
use ipa_rs_hetero_cloud.Domain.Vpc.{Uuid}
use ipa_rs_hetero_cloud.Store.Lifecycle.{ServiceRow, OutboxEvent, Database}
use ipa_rs_hetero_cloud.Store.Outbox.{
  claim_outbox_event, next_event, mark_outbox_delivered, retry_outbox_event, update_event,
  delay_seconds,
}
use ipa_rs_hetero_cloud.Store.Lifecycle.Events.{AllSuperseded}
use ipa_rs_hetero_cloud.Store.Lifecycle.Marks.{
  mark_service_instance-AllSuperseded, complete_delete-AllSuperseded, update_event-AllSuperseded,
}
use ipa_rs_hetero_cloud.Worker.{
  WorkerError, Response, handle_response, respond, deliver, load_instance, settle, process_event,
  provider_status, stale_payload, invalid_payload, unsupported_provider, missing_instance,
  transport,
}
use ipa_rs_hetero_cloud.Worker.Answers.{handle_leads}

delivered_superseded :
    (id : Uuid) (db : Database) → AllSuperseded db → AllSuperseded (mark_outbox_delivered id db)
unfolding mark_outbox_delivered
delivered_superseded id db all =
    update_event-AllSuperseded id (λ event. record event { locked_at = none; is_delivered = true })
      db (λ event. refl) (λ event. refl) all

retried_superseded :
    (id : Uuid) (attempts now : ℕ) (db : Database)
    → AllSuperseded db
    → AllSuperseded (retry_outbox_event id attempts now db)
unfolding retry_outbox_event
retried_superseded id attempts now db all =
    update_event-AllSuperseded id retry db (λ event. same_topic event event.is_delivered)
      (λ event. same_payload event event.is_delivered) all
  where
    retried : OutboxEvent → Bool → OutboxEvent
    retried event b =
        if b
        then event
        else record event { locked_at = none; available_at = now + delay_seconds attempts }

    retry : OutboxEvent → OutboxEvent
    retry event = retried event event.is_delivered

    same_topic : (event : OutboxEvent) (b : Bool) → (retried event b).topic ≡ event.topic
    same_topic event true = refl
    same_topic event false = refl

    same_payload : (event : OutboxEvent) (b : Bool) → (retried event b).payload ≡ event.payload
    same_payload event true = refl
    same_payload event false = refl

pub claimed_superseded :
    (now : ℕ) (db : Database) → AllSuperseded db → AllSuperseded (claim_outbox_event now db).0
unfolding claim_outbox_event
claimed_superseded now db all = claimed (next_event now db.outbox)
  where
    claimed :
        (next : Option OutboxEvent)
        → AllSuperseded
            (elim next as (λ n. Database × Option OutboxEvent) [
              | none ↦ (db, none)
              | some event ↦ (
                update_event event.id
                    (λ e. record e { locked_at = some now; attempts = e.attempts + 1 })
                    db,
                some (record event { locked_at = some now; attempts = event.attempts + 1 }),
              )
            ]).0
    claimed none = all
    claimed (some event) =
        update_event-AllSuperseded event.id
          (λ e. record e { locked_at = some now; attempts = e.attempts + 1 }) db (λ event. refl)
          (λ event. refl) all

module _ (event : OutboxEvent) (db : Database) (all : AllSuperseded db) where
  answered_superseded :
      (response : Response) (after : Database)
      → handle_response event response db ≡ ok after
      → AllSuperseded after
  answered_superseded response after h =
      handle_leads event db AllSuperseded all
        (λ state status d topic staying marked.
          mark_service_instance-AllSuperseded state event.payload.service_instance_id
            event.payload.provider event.payload.generation status db d staying marked all)
        (λ d removed.
          complete_delete-AllSuperseded event.payload.service_instance_id event.payload.provider
            event.payload.generation db d removed all)
        response after h

  settled_superseded :
      (now : ℕ) (result : Result WorkerError Database)
      → ((after : Database) → result ≡ ok after → AllSuperseded after)
      → AllSuperseded (settle event now db result)
  unfolding settle
  settled_superseded now (ok after) keeps = delivered_superseded event.id after (keeps after refl)
  settled_superseded now (err stale_payload) keeps = delivered_superseded event.id db all
  settled_superseded now (err invalid_payload) keeps =
      retried_superseded event.id event.attempts now db all
  settled_superseded now (err unsupported_provider) keeps =
      retried_superseded event.id event.attempts now db all
  settled_superseded now (err missing_instance) keeps =
      retried_superseded event.id event.attempts now db all
  settled_superseded now (err transport) keeps =
      retried_superseded event.id event.attempts now db all
  settled_superseded now (err (provider_status n)) keeps =
      retried_superseded event.id event.attempts now db all

  responded_superseded :
      (now : ℕ) (loaded : Result WorkerError (Option ServiceRow)) (response : Option Response)
      → AllSuperseded (settle event now db (loaded >>= respond event response db))
  unfolding respond
  responded_superseded now (err e) response =
      settled_superseded now (err e) (λ after h. absurd (cc))
  responded_superseded now (ok none) response =
      settled_superseded now (ok db) (λ after h. subst AllSuperseded (ok_inj h) all)
  responded_superseded now (ok (some instance)) none =
      settled_superseded now (err transport) (λ after h. absurd (cc))
  responded_superseded now (ok (some instance)) (some answer) =
      settled_superseded now (handle_response event answer db) (answered_superseded answer)

  pub process_event-AllSuperseded :
      (vpc_configured : Bool) (response : Option Response) (now : ℕ) (before : Database)
      → AllSuperseded (process_event vpc_configured event response now before db)
  unfolding process_event deliver
  process_event-AllSuperseded vpc_configured response now before =
      responded_superseded now (load_instance vpc_configured event before) response
