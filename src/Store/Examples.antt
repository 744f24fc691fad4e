-- ===== src/Store/Examples.antt =====
-- A tenant with one service beside the requested one, and a deletion.
use ipa_rs_hetero_cloud.Prelude.{
  ◌≡◌, refl, ℕ, ◌≤◌, Bool, true, false, Option, none, some, List, [], ◌∷◌, map, All, arith, Result,
  ok, err, Distinct, NotIn,
}
use ipa_rs_hetero_cloud.Domain.Vpc.{tcp, udp}
use ipa_rs_hetero_cloud.Domain.Quota.{default_limits}
use ipa_rs_hetero_cloud.Domain.Flash.{FlashPort, FlashSpec}
use ipa_rs_hetero_cloud.Domain.Flash.Ports.{slot, at_container_ports, holds}
use ipa_rs_hetero_cloud.Domain.Flash.Validate.{validate}
use ipa_rs_hetero_cloud.Domain.Examples.{plain_crates, gpu_service, web_port}
use ipa_rs_hetero_cloud.Store.Allocation.{Tenant, occupied_ports, with_ports, prepare_flash_spec}
use ipa_rs_hetero_cloud.Store.Allocation.Ports.{StoreError, assigned_port, assign_ports}
use ipa_rs_hetero_cloud.Store.Allocation.Slots.{SamePorts, InRange}
use ipa_rs_hetero_cloud.Store.Allocation.Totals.{prepare_flash_spec_slots}
use ipa_rs_hetero_cloud.Store.Lifecycle.{
  ServiceRow, OutboxEvent, ready, deleting, updating, Database, LifecycleError, begin_delete,
  record_update, new_event, payload_of, delete, reconcile,
}
use ipa_rs_hetero_cloud.Store.Outbox.{retry_outbox_event}
use ipa_rs_hetero_cloud.Store.Outbox.Delay.{Delayed, retry_outbox_event-Delayed}

abbrev pub taken_port : FlashPort
taken_port = record web_port { service_port = 30000 }

-- The other service holds port 30000.
abbrev pub tenant : Tenant
tenant = record {
  organization_id = 1;
  user_id = none;
  excluded_service_id = none;
  devices = record { gpu_type = "l4"; is_open = true; assigned_users = [] } ∷ [];
  rows =
      record { id = 5; organization_id = 1; spec = with_ports gpu_service (taken_port ∷ []) } ∷ [];
  quota = default_limits.flash;
}

abbrev pub requested : FlashSpec
requested = with_ports gpu_service (record web_port { service_port = 0 } ∷ [])

prepared : prepare_flash_spec plain_crates tenant none requested ≡ ok gpu_service
unfolding prepare_flash_spec ipa_rs_hetero_cloud.Domain.Flash.Validate.validate_request
    ipa_rs_hetero_cloud.Prelude.utf8 ipa_rs_hetero_cloud.Domain.Names.valid_flash_gpu_type
    ipa_rs_hetero_cloud.Domain.Flash.Ports.validate_ports
    ipa_rs_hetero_cloud.Domain.Names.valid_flash_port_name
    ipa_rs_hetero_cloud.Domain.Flash.Networks.validate_flash_source_cidrs
    ipa_rs_hetero_cloud.Domain.Flash.Networks.validate_flash_egress
    ipa_rs_hetero_cloud.Domain.Flash.Environment.validate_environment
    ipa_rs_hetero_cloud.Domain.Names.valid_flash_env_name
    ipa_rs_hetero_cloud.Domain.Flash.Environment.env_char ipa_rs_hetero_cloud.Prelude.same_text
    ipa_rs_hetero_cloud.Domain.Flash.reserved_replicas
    ipa_rs_hetero_cloud.Store.Allocation.Ports.assign_ports validate
prepared = refl

forwarded : at_container_ports requested ≡ false
unfolding at_container_ports
forwarded = refl

-- The port of before is taken by now, and another one is assigned.
moved : assigned_port ((tcp, 30000) ∷ []) (taken_port ∷ []) web_port ≡ some 30001
unfolding assigned_port holds
moved = refl

prepare_flash_spec_slots_example :
    (validate plain_crates gpu_service ≡ ok tt)
    × SamePorts requested.ports gpu_service.ports
    × All InRange (map slot gpu_service.ports)
    × Distinct (map slot gpu_service.ports)
    × All
        (λ s. NotIn s (occupied_ports tenant.excluded_service_id tenant.rows))
        (map slot gpu_service.ports)
prepare_flash_spec_slots_example =
    prepare_flash_spec_slots plain_crates tenant none requested gpu_service forwarded prepared

-- A name under both protocols.
abbrev both_ports : List FlashPort
both_ports =
    record web_port { service_port = 0 } ∷ record web_port { service_port = 0; protocol = udp } ∷ []

abbrev both_assigned : List FlashPort
both_assigned =
    record web_port { service_port = 30001 }
    ∷ record web_port { service_port = 30000; protocol = udp }
    ∷ []

-- A new port that is named before an old one takes the old one's service port.
old_one_moved :
    assign_ports false
      (taken_port ∷ [])
      []
      (record web_port { name = "admin" } ∷ record taken_port { service_port = 0 } ∷ [])
    ≡ ok (
        record web_port { name = "admin"; service_port = 30000 }
        ∷ record taken_port { service_port = 30001 }
        ∷ [])
unfolding assign_ports holds
old_one_moved = refl

abbrev pub service : ServiceRow
service = record {
  id = 7;
  organization_id = 1;
  project_id = 2;
  provider = "flash";
  generation = 3;
  state = ready;
  spec = "{}";
  status = "{}";
  attached_vpc = none;
}

abbrev pub first_event : OutboxEvent
first_event = new_event 100 reconcile (payload_of service 9) 0

abbrev pub running : Database
running = record { services = service ∷ []; outbox = first_event ∷ [] }

-- The row and the event that a deletion leaves.
abbrev pub going : ServiceRow
going = record service { generation = 4; state = deleting }

abbrev pub stopping : Database
stopping = record {
  services = going ∷ [];
  outbox = new_event 101 delete (payload_of going 9) 50 ∷ running.outbox;
}

begun : begin_delete 101 50 1 7 "flash" 9 running ≡ ok stopping
unfolding begin_delete
begun = refl

foreign : begin_delete 101 50 2 7 "flash" 9 running ≡ err LifecycleError.not_found
unfolding begin_delete
foreign = refl

too_late : record_update 102 60 9 none service stopping ≡ err LifecycleError.conflict
unfolding record_update
too_late = refl

-- The same service after an update.
abbrev pub updated : ServiceRow
updated = record service { generation = 4; state = updating; spec = "{\"stopped\":true}" }

abbrev pub after_update : Database
after_update = record {
  services = updated ∷ [];
  outbox = new_event 102 reconcile (payload_of updated 9) 60 ∷ running.outbox;
}

update_recorded :
    record_update 102 60 9 (some 3) (record service { spec = "{\"stopped\":true}" }) running
    ≡ ok after_update
unfolding record_update
update_recorded = refl

retry_outbox_event-Delayed_example :
    All (Delayed 100 61 316) (retry_outbox_event 100 20 60 running).outbox
retry_outbox_event-Delayed_example =
    retry_outbox_event-Delayed 100 20 60 61 316 running (omega arith) (omega arith)
