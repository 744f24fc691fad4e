-- ===== src/Worker/Answers.antt =====
-- What the answer of a provider leads to: a mark, the removal of a row, or nothing.
use ipa_rs_hetero_cloud.Prelude.{
  bind_ok, ok_inj, branch, arith, ◌≡◌, refl, subst, inl, inr, String, Bool, true, false, Option,
  none, some, Result, ok, err, if◌then◌else◌, ◌&&◌, ◌||◌,
}
use ipa_rs_hetero_cloud.Store.Lifecycle.{
  ServiceState, ready, error, Topic, reconcile, delete, flash_quota, is_delete, is_deleting,
  is_flash_quota, OutboxEvent, Database, mark_service_instance, complete_delete,
}
use ipa_rs_hetero_cloud.Worker.{
  WorkerError, Response, or_stale, accepted, is_success, is_reconcile, finish_reconcile,
  finish_delete, handle_response, provider_delete_already_absent, permanent_reconcile_rejection,
  provider_status,
}

pub or_stale-some : (m : Option Database) (d : Database) → or_stale m ≡ ok d → m ≡ some d
or_stale-some none d h = cc
or_stale-some (some e) d h = cc

-- What holds of a database and of what each mark makes of it holds of what an answer leads to.
module _ (event : OutboxEvent) (db : Database) (P : Database → Type 0) where
  module _ (now : P db)
      (marks : (state : ServiceState) (status : String) (after : Database)
        → is_delete event.topic ≡ false
        → is_deleting state ≡ false
        → mark_service_instance state event.payload.service_instance_id event.payload.provider
            event.payload.generation status db
          ≡ some after
        → P after)
      (removes : (after : Database)
        → complete_delete event.payload.service_instance_id event.payload.provider
            event.payload.generation db
          ≡ some after
        → P after) where
    finish_delete_leads :
        (absent : Bool) (response : Response) (after : Database)
        → finish_delete event absent response db ≡ ok after
        → P after
    unfolding finish_delete
    finish_delete_leads absent response after h =
        let (status, taken, stale) =
          bind_ok (if absent then ok "" else accepted response.operation_status)
            (λ status. or_stale (
              complete_delete event.payload.service_instance_id event.payload.provider
                event.payload.generation db))
            after h in
        removes after (or_stale-some _ after stale)

    finish_reconcile_leads :
        (response : Response) (after : Database)
        → is_delete event.topic ≡ false
        → finish_reconcile event response db ≡ ok after
        → P after
    unfolding finish_reconcile
    finish_reconcile_leads response after topic h =
        let new_state : ServiceState = if response.is_phase_error then error else ready in
        let mark : String → Result WorkerError Database = λ status. or_stale (
          mark_service_instance new_state event.payload.service_instance_id event.payload.provider
            event.payload.generation status db) in
        let (status, taken, chosen) =
          bind_ok (accepted response.operation_status)
            (λ status. if is_flash_quota event.topic then ok db else mark status) after h in
        elim (branch (is_flash_quota event.topic) (ok db) (mark status) after chosen) [
          | inl (e, same) ↦ subst P (ok_inj same) now
          | inr (e, marked) ↦
              marks new_state status after topic (not_deleting response.is_phase_error)
                (or_stale-some _ after marked)
        ]
      where
        not_deleting : (b : Bool) → is_deleting (if b then error else ready) ≡ false
        not_deleting true = refl
        not_deleting false = refl

    pub handle_leads :
        (response : Response) (after : Database)
        → handle_response event response db ≡ ok after
        → P after
    unfolding handle_response
    handle_leads response after h =
        let absent : Bool = provider_delete_already_absent event.topic response in
        let deletion : Result WorkerError Database = finish_delete event absent response db in
        let completion : Result WorkerError Database = finish_reconcile event response db in
        let rejection : Result WorkerError Database = or_stale (
          mark_service_instance error event.payload.service_instance_id event.payload.provider
            event.payload.generation response.message db) in
        let failure : Result WorkerError Database = err (provider_status response.status) in
        let refusal : Bool =
          is_reconcile event.topic && permanent_reconcile_rejection response.status in
        let unfinished : Result WorkerError Database = if refusal then rejection else failure in
        let other : Result WorkerError Database =
          if is_success response.status then completion else unfinished in
        elim (branch (is_delete event.topic && (is_success response.status || absent)) deletion
          other after h) [
            | inl (e, deleted) ↦ finish_delete_leads absent response after deleted
            | inr (e, others) ↦
                elim (branch (is_success response.status) completion unfinished after others) [
                  | inl (s, reconciled) ↦
                      finish_reconcile_leads response after (not_delete e s) reconciled
                  | inr (s, failed) ↦ elim (branch refusal rejection failure after failed) [
                    | inl (r, marked) ↦
                        marks error response.message after (reconciles r) refl
                          (or_stale-some _ after marked)
                    | inr (r, refused) ↦ absurd (no_result refused)
                  ]
                ]
          ]
      where
        not_delete :
            (is_delete event.topic
                && (is_success response.status
                    || provider_delete_already_absent event.topic response))
              ≡ false
            → is_success response.status ≡ true
            → is_delete event.topic ≡ false
        not_delete e s = ground arith

        topics :
            (topic : Topic) (b : Bool) → (is_reconcile topic && b) ≡ true → is_delete topic ≡ false
        topics reconcile b r = refl
        topics flash_quota b r = refl
        topics delete b r = cc

        reconciles :
            (is_reconcile event.topic && permanent_reconcile_rejection response.status) ≡ true
            → is_delete event.topic ≡ false
        reconciles r = topics event.topic (permanent_reconcile_rejection response.status) r

        no_result :
            (let left : Result WorkerError Database = err (provider_status response.status) in
              left ≡ ok after)
            → ⊥
        no_result h = cc
