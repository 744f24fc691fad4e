-- ===== src/Store/Lifecycle.antt =====
-- The rows of services and the outbox in crates/heterocloud-store/src/lib.rs: the transactions
-- that move a service from one state to the next and leave an event for the worker.
pub mod Rows
pub mod Events
pub mod Marks
pub mod Going
use ipa_rs_hetero_cloud.Prelude.{
  ℕ, ◌+◌, ◌^◌, String, Bool, true, false, not, ◌&&◌, ◌||◌, Option, none, some, List, [], ◌∷◌, map,
  min, max, if◌then◌else◌, ltb, leb, ◌==◌, any, is_some_and, Result, ok, err, ◌>>=◌, ◌>>◌,
  reject_if, str_eq,
}
use ipa_rs_hetero_cloud.Domain.Vpc.{Uuid}

pub data ServiceState : Type 0 where
  provisioning ready updating deleting error : ServiceState

abbrev pub is_deleting : ServiceState → Bool
is_deleting deleting = true
is_deleting _ = false

-- `ServiceRow` without its name and times. `spec` and `status` are JSON texts, and
-- `attached_vpc` is `spec #>> '{network,vpc_id}'`.
pub record ServiceRow : Type 0 where
  pub id : Uuid
  pub organization_id : Uuid
  pub project_id : Uuid
  pub provider : String
  pub generation : ℕ
  pub state : ServiceState
  pub spec : String
  pub status : String
  pub attached_vpc : Option Uuid

-- The topics of the outbox that are about a service.
pub data Topic : Type 0 where
  reconcile delete flash_quota : Topic

abbrev pub is_delete : Topic → Bool
is_delete delete = true
is_delete _ = false

abbrev pub is_flash_quota : Topic → Bool
is_flash_quota flash_quota = true
is_flash_quota _ = false

pub record ReconcilePayload : Type 0 where
  pub service_instance_id : Uuid
  pub organization_id : Uuid
  pub project_id : Uuid
  pub principal_id : Uuid
  pub provider : String
  pub generation : ℕ

-- `OutboxEvent` with the columns that claims read; times are seconds.
pub record OutboxEvent : Type 0 where
  pub id : Uuid
  pub topic : Topic
  pub aggregate_id : Uuid
  pub payload : ReconcilePayload
  pub attempts : ℕ
  pub available_at : ℕ
  pub locked_at : Option ℕ
  pub is_delivered : Bool

pub record Database : Type 0 where
  pub services : List ServiceRow
  pub outbox : List OutboxEvent

pub data LifecycleError : Type 0 where
  not_found conflict vpc_in_use generation_overflow : LifecycleError

-- The row with this primary key.
unfoldable pub find_row : Uuid → List ServiceRow → Option ServiceRow
find_row id [] = none
find_row id (row ∷ rest) = let found = find_row id rest in if row.id == id then some row else found

-- `UPDATE ... WHERE id = $1`, and `DELETE`.
unfoldable pub put_row : ServiceRow → List ServiceRow → List ServiceRow
put_row row rows = map (λ old. if old.id == row.id then row else old) rows

unfoldable pub remove_row : Uuid → List ServiceRow → List ServiceRow
remove_row id [] = []
remove_row id (row ∷ rest) =
    let kept = remove_row id rest in if row.id == id then kept else row ∷ kept

-- `checked_add(1)` on an `i64`.
unfoldable pub next_generation : ℕ → Result LifecycleError ℕ
next_generation generation =
    if ltb (generation + 1) (2 ^ 63) then ok (generation + 1) else err generation_overflow

-- A new event, with the defaults of its columns.
abbrev pub new_event : Uuid → Topic → ReconcilePayload → ℕ → OutboxEvent
new_event event_id topic payload now = record {
  id = event_id;
  topic = topic;
  aggregate_id = payload.service_instance_id;
  payload = payload;
  attempts = 0;
  available_at = now;
  locked_at = none;
  is_delivered = false;
}

abbrev pub payload_of : ServiceRow → Uuid → ReconcilePayload
payload_of row principal_id = record {
  service_instance_id = row.id;
  organization_id = row.organization_id;
  project_id = row.project_id;
  principal_id = principal_id;
  provider = row.provider;
  generation = row.generation;
}

-- The write of a row and the event for it, in one transaction.
unfoldable pub write_with_event : Uuid → Topic → Uuid → ℕ → ServiceRow → Database → Database
unfolding put_row
write_with_event event_id topic principal_id now row db = record {
  services = put_row row db.services;
  outbox = new_event event_id topic (payload_of row principal_id) now ∷ db.outbox;
}

-- `SELECT ... WHERE id = $1 AND organization_id = $2 AND provider = $3 FOR UPDATE`
unfoldable pub owned : Uuid → String → Option ServiceRow → Result LifecycleError ServiceRow
owned organization_id provider none = err not_found
owned organization_id provider (some row) =
    if row.organization_id == organization_id && str_eq row.provider provider
    then ok row
    else err not_found

unfoldable pub vpc_attached : Uuid → Uuid → List ServiceRow → Bool
vpc_attached organization_id id rows =
    any
      (λ row.
        row.organization_id == organization_id
        && (str_eq row.provider "flash" && is_some_and (λ vpc. vpc == id) row.attached_vpc))
      rows

unfoldable pub delete_row : Uuid → Uuid → ℕ → Database → ServiceRow → Result LifecycleError Database
unfolding next_generation write_with_event
delete_row event_id principal_id now db row = if is_deleting row.state then ok db else do
  generation ← next_generation row.generation
  ok (
      write_with_event event_id delete principal_id now
        (record row { generation = generation; state = deleting; status = "{}" }) db)

-- `begin_delete_service_instance`; `event_id` is the new `Uuid`.
unfoldable pub begin_delete :
    Uuid → ℕ → Uuid → Uuid → String → Uuid → Database → Result LifecycleError Database
unfolding find_row owned vpc_attached delete_row
begin_delete event_id now organization_id id provider principal_id db = do
  reject_if (str_eq provider "vpc" && vpc_attached organization_id id db.services) vpc_in_use
  row ← owned organization_id provider (find_row id db.services)
  delete_row event_id principal_id now db row

unfoldable pub update_row :
    Uuid → ℕ → Uuid → Option ℕ → ServiceRow → Database → ServiceRow → Result LifecycleError Database
unfolding next_generation write_with_event
update_row event_id now principal_id expected prepared db row = do
  reject_if (is_some_and (λ g. not (g == row.generation)) expected || is_deleting row.state)
      conflict
  generation ← next_generation row.generation
  ok (
      write_with_event event_id reconcile principal_id now
        (record prepared { generation = generation; state = updating; status = "{}" }) db)

-- `update_service_instance_checked`, and `set_flash_service_stopped` with no generation expected:
-- `prepared` is the row with its new specification and project, which have passed their tests.
unfoldable pub record_update :
    Uuid → ℕ → Uuid → Option ℕ → ServiceRow → Database → Result LifecycleError Database
unfolding find_row owned update_row
record_update event_id now principal_id expected prepared db = do
  row ← owned prepared.organization_id prepared.provider (find_row prepared.id db.services)
  update_row event_id now principal_id expected prepared db row

-- `create_service_instance_with_id_for_user`, once the specification has passed its tests: a
-- second call with the same id changes nothing.
unfoldable pub record_create :
    Uuid → ℕ → Uuid → ServiceRow → Database → Result LifecycleError Database
unfolding find_row
record_create event_id now principal_id prepared db =
    let row : ServiceRow = record prepared {
      generation = 1;
      state = provisioning;
      status = "{}";
    } in
    elim (find_row prepared.id db.services) [
      | none ↦ ok (record {
        services = row ∷ db.services;
        outbox = new_event event_id reconcile (payload_of row principal_id) now ∷ db.outbox;
      })
      | some old ↦
          if old.organization_id == prepared.organization_id
            && str_eq old.provider prepared.provider
          then ok db
          else err conflict
    ]

-- `WHERE id = $1 AND generation = $2 AND provider = $3`
unfoldable pub matches_key : String → ℕ → ServiceRow → Bool
matches_key provider generation row = row.generation == generation && str_eq row.provider provider

-- `complete_delete_service_instance`; `none` where no row was affected.
unfoldable pub complete_delete : Uuid → String → ℕ → Database → Option Database
unfolding find_row remove_row matches_key
complete_delete id provider generation db = elim (find_row id db.services) [
  | none ↦ none
  | some row ↦
      if matches_key provider generation row && is_deleting row.state
      then some (record db { services = remove_row id db.services })
      else none
]

-- `mark_service_instance_ready` and `mark_service_instance_error`, by the new state.
unfoldable pub mark_service_instance :
    ServiceState → Uuid → String → ℕ → String → Database → Option Database
unfolding find_row put_row matches_key
mark_service_instance state id provider generation status db = elim (find_row id db.services) [
  | none ↦ none
  | some row ↦
      if matches_key provider generation row
      then some (record db {
        services = put_row (record row { state = state; status = status }) db.services;
      })
      else none
]
