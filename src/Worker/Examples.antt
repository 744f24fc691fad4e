-- ===== src/Worker/Examples.antt =====
-- Deliveries to a service that is being deleted.
use ipa_rs_hetero_cloud.Prelude.{inl, inr, ◌≡◌, refl, true, false, none, some, [], ◌∷◌, ok, err}
use ipa_rs_hetero_cloud.Store.Lifecycle.{
  ServiceRow, Database, deleting, provisioning, record_create, begin_delete, ready, OutboxEvent,
  reconcile, delete, flash_quota, error, find_row, new_event, payload_of,
}
use ipa_rs_hetero_cloud.Store.Lifecycle.Events.{Superseded, AllSuperseded}
use ipa_rs_hetero_cloud.Store.Examples.{service, going, running, stopping}
use ipa_rs_hetero_cloud.Store.Reconciles.{
  enqueue_flash_quota_reconcile, enqueue_flash_gpu_reconciles, record_flash_observation,
}
use ipa_rs_hetero_cloud.Worker.{Response, process_event, stale_payload, deliver}
use ipa_rs_hetero_cloud.Store.Lifecycle.Going.{StaysDeleting}
use ipa_rs_hetero_cloud.Worker.Steps.{
  created, deletion_begun, processed, empty, Reachable, start, next, Reachable-AllSuperseded,
}
use ipa_rs_hetero_cloud.Worker.Steps.Phases.{Moves, phase_of}
use ipa_rs_hetero_cloud.Worker.Steps.Phases.Refines.{Step-Moves}
use ipa_rs_hetero_cloud.Worker.Deletion.{process_event-StaysDeleting}

-- The event for the generation before the deletion.
abbrev pub old_event : OutboxEvent
old_event = new_event 100 reconcile (payload_of service 9) 0

abbrev pub done : Response
done = record {
  status = 200;
  absent_envelope = false;
  operation_status = some "{}";
  is_phase_error = false;
  message = "";
}

-- The deletion begins while the request is under way: the answer changes nothing.
stale : deliver true old_event (some done) running stopping ≡ err stale_payload
unfolding deliver
stale = refl

-- Without a deletion the service becomes ready.
finished :
    find_row 7 (process_event true old_event (some done) 60 running running).services
    ≡ some (record service { state = ready })
unfolding process_event
finished = refl

-- A provider that knows nothing of the service has deleted it.
absent :
    (process_event true
      (new_event 101 delete (payload_of going 9) 50)
      (some (record done { status = 404; absent_envelope = true }))
      60
      stopping
      stopping).services
    ≡ []
unfolding process_event
absent = refl

found : find_row 7 stopping.services ≡ some going
unfolding find_row
found = refl

older : Superseded old_event (find_row old_event.payload.service_instance_id stopping.services)
unfolding find_row
older = refl

process_event-StaysDeleting_example :
    StaysDeleting
      (find_row 7 (process_event true old_event (some done) 60 running stopping).services)
process_event-StaysDeleting_example =
    process_event-StaysDeleting true old_event (some done) 60 running stopping 7 going found refl
      older

-- The service is created and its deletion begins before the first delivery ends.
abbrev pub new_service : ServiceRow
new_service = record service { generation = 1; state = provisioning }

abbrev pub first_event : OutboxEvent
first_event = new_event 100 reconcile (payload_of new_service 9) 0

abbrev pub after_create : Database
after_create = record { services = new_service ∷ []; outbox = first_event ∷ [] }

abbrev pub going_first : ServiceRow
going_first = record service { generation = 2; state = deleting }

abbrev pub after_delete : Database
after_delete = record {
  services = going_first ∷ [];
  outbox = new_event 101 delete (payload_of going_first 9) 50 ∷ first_event ∷ [];
}

creates : record_create 100 0 9 service empty ≡ ok after_create
unfolding record_create
creates = refl

deletes : begin_delete 101 50 1 7 "flash" 9 after_create ≡ ok after_delete
unfolding begin_delete
deletes = refl

found_going : find_row 7 after_delete.services ≡ some going_first
unfolding find_row
found_going = refl

after_delete-Reachable : Reachable after_delete
after_delete-Reachable =
    next after_create after_delete
      (next empty after_create start (created 100 0 9 service empty after_create tt creates))
      (deletion_begun 101 50 1 7 "flash" 9 after_create after_delete deletes)

Reachable-AllSuperseded_example : AllSuperseded after_delete
Reachable-AllSuperseded_example = Reachable-AllSuperseded after_delete after_delete-Reachable

Step-Moves_example : Moves (phase_of (find_row 7 after_delete.services)) (
    phase_of (
      find_row 7
        (process_event true first_event (some done) 60 after_create after_delete).services))
Step-Moves_example =
    Step-Moves after_delete
      (process_event true first_event (some done) 60 after_create after_delete) 7
      after_delete-Reachable
      (processed true first_event (some done) 60 after_create after_delete (inr (inl (refl, refl))))

-- The service that is not being deleted gets an event for its quota, and the state that is observed;
-- the one that is being deleted gets neither.
quota_event :
    (enqueue_flash_quota_reconcile (λ row. some 9) (λ row. 102) 70 none running).outbox
    ≡ new_event 102 flash_quota (payload_of service 9) 70 ∷ running.outbox
unfolding enqueue_flash_quota_reconcile
quota_event = refl

no_quota_event :
    enqueue_flash_quota_reconcile (λ row. some 9) (λ row. 102) 70 none stopping ≡ stopping
unfolding enqueue_flash_quota_reconcile
no_quota_event = refl

gpu_event :
    (enqueue_flash_gpu_reconciles
      (λ row. some 9)
      (λ row. 102)
      70
      ("l4" ∷ [])
      (record { service_instance_id = 7; gpu_type = "l4" } ∷ [])
      running).outbox
    ≡ new_event 102 reconcile (payload_of service 9) 70 ∷ running.outbox
unfolding enqueue_flash_gpu_reconciles
gpu_event = refl

observed_error :
    (record_flash_observation service (some 3) (some "error") "{}" running).services
    ≡ record service { state = error } ∷ []
unfolding record_flash_observation
observed_error = refl

observed_going : record_flash_observation going (some 4) (some "ready") "{}" stopping ≡ stopping
unfolding record_flash_observation
observed_going = refl
