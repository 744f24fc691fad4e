-- ===== src/Store/Lifecycle/Events.antt =====
-- The events of the outbox against the rows that they name.
use ipa_rs_hetero_cloud.Prelude.{
  bind_ok, then_ok, ok_inj, branch, ◌≡◌, ◌≢◌, refl, sym, ap, subst, ◌∙◌, inl, inr, ℕ, String, Bool,
  true, false, not, ◌&&◌, ◌||◌, Option, none, some, List, arith, leb, ltb, ◌==◌, ==_iff, Bool-cases,
  All, All-map, Result, ok, ◌>>=◌,
}
use ipa_rs_hetero_cloud.Domain.Vpc.{Uuid}
use ipa_rs_hetero_cloud.Store.Lifecycle.{
  deleting, updating, ServiceRow, Topic, reconcile, delete, is_delete, is_deleting, OutboxEvent,
  Database, LifecycleError, find_row, put_row, next_generation, new_event, payload_of,
  write_with_event, owned, delete_row, begin_delete, update_row, record_update,
}
use ipa_rs_hetero_cloud.Store.Lifecycle.Rows.{find_row_id, find_row-put_row, find_row-put_row_same}

abbrev pub behind : OutboxEvent → ServiceRow → Bool
behind event row =
    leb event.payload.generation row.generation
    && (is_delete event.topic
        || (not (is_deleting row.state) || ltb event.payload.generation row.generation))

-- The event belongs to the row's generation or an older one, and to an older one if the row is
-- being deleted and the event does not delete it.
abbrev pub Superseded : OutboxEvent → Option ServiceRow → Type 0
Superseded event none = Unit
Superseded event (some row) = behind event row ≡ true

-- No event is ahead of its row, and none but its deletion is level with a row being deleted.
abbrev pub AllSuperseded : Database → Type 0
AllSuperseded db =
    All (λ event. Superseded event (find_row event.payload.service_instance_id db.services))
      db.outbox

module _ (row old : ServiceRow) (services : List ServiceRow) where
  module _ (stored : find_row row.id services ≡ some old)
      (below : (event : OutboxEvent)
        → Superseded event (some old)
        → Superseded event (some row)) where
    pub put_row-Superseded :
        (event : OutboxEvent)
        → Superseded event (find_row event.payload.service_instance_id services)
        → Superseded event (find_row event.payload.service_instance_id (put_row row services))
    put_row-Superseded event h = elim (Bool-cases (event.payload.service_instance_id == row.id)) [
      | inl e ↦ same_row ((==_iff event.payload.service_instance_id row.id).0 e)
      | inr e ↦
          subst (Superseded event)
            (sym (find_row-put_row event.payload.service_instance_id row services (differ e))) h
    ]
      where
        differ :
            (event.payload.service_instance_id == row.id) ≡ false
            → row.id ≢ event.payload.service_instance_id
        differ e path = ground (arith, ==_iff event.payload.service_instance_id row.id)

        same_row :
            event.payload.service_instance_id ≡ row.id
            → Superseded event (find_row event.payload.service_instance_id (put_row row services))
        same_row path =
            subst (Superseded event)
              (sym (
                ap (λ id. find_row id (put_row row services)) path
                ∙ find_row-put_row_same row old services stored))
              (below event
                (subst (Superseded event) (ap (λ id. find_row id services) path ∙ stored) h))

newer-Superseded :
    (row old : ServiceRow)
    → ltb old.generation row.generation ≡ true
    → (event : OutboxEvent) → Superseded event (some old)
    → Superseded event (some row)
newer-Superseded row old newer event h = ground arith

write_with_event-AllSuperseded :
    (event_id : Uuid) (topic : Topic) (principal_id : Uuid) (now : ℕ) (row old : ServiceRow)
    (db : Database)
    → find_row row.id db.services ≡ some old
    → ltb old.generation row.generation ≡ true
    → (is_delete topic || not (is_deleting row.state)) ≡ true
    → AllSuperseded db
    → AllSuperseded (write_with_event event_id topic principal_id now row db)
unfolding write_with_event
write_with_event-AllSuperseded event_id topic principal_id now row old db stored newer suits h = (
  subst (Superseded (new_event event_id topic (payload_of row principal_id) now))
      (sym (find_row-put_row_same row old db.services stored)) level,
  All-map (put_row-Superseded row old db.services stored (newer-Superseded row old newer)) db.outbox
      h,
)
  where
    level : Superseded (new_event event_id topic (payload_of row principal_id) now) (some row)
    level = ground arith

pub owned_row :
    (organization_id : Uuid) (provider : String) (slot : Option ServiceRow) (row : ServiceRow)
    → owned organization_id provider slot ≡ ok row
    → slot ≡ some row
unfolding owned
owned_row organization_id provider none row h = cc
owned_row organization_id provider (some found) row h = ground arith

next_generation_above :
    (generation next : ℕ) → next_generation generation ≡ ok next → ltb generation next ≡ true
unfolding next_generation
next_generation_above generation next h = ground arith

delete_row-AllSuperseded :
    (event_id principal_id : Uuid) (now : ℕ) (db after : Database) (row : ServiceRow)
    → find_row row.id db.services ≡ some row
    → delete_row event_id principal_id now db row ≡ ok after
    → AllSuperseded db
    → AllSuperseded after
unfolding delete_row
delete_row-AllSuperseded event_id principal_id now db after row stored h all =
    let write : ℕ → Database = λ generation.
      write_with_event event_id delete principal_id now
        (record row { generation = generation; state = deleting; status = "{}" }) db in
    let step : ℕ → Result LifecycleError Database = λ generation. ok (write generation) in
    elim (branch (is_deleting row.state) (ok db) (next_generation row.generation >>= step) after
      h) [
        | inl (going, path) ↦ subst AllSuperseded (ok_inj path) all
        | inr (staying, written) ↦
            let (generation, next, path) =
              bind_ok (next_generation row.generation) step after written in
            subst AllSuperseded (ok_inj path) (
              write_with_event-AllSuperseded event_id delete principal_id now
                (record row { generation = generation; state = deleting; status = "{}" }) row db
                stored (next_generation_above row.generation generation next) refl all)
      ]

-- If no event is ahead of its row, and none but a deletion level with a row being deleted, so it
-- is after the transaction that begins a deletion.
pub begin_delete-AllSuperseded :
    (event_id : Uuid) (now : ℕ) (organization_id id : Uuid) (provider : String)
    (principal_id : Uuid) (db after : Database)
    → begin_delete event_id now organization_id id provider principal_id db ≡ ok after
    → AllSuperseded db
    → AllSuperseded after
unfolding begin_delete
begin_delete-AllSuperseded event_id now organization_id id provider principal_id db after h all =
    let step : ServiceRow → Result LifecycleError Database =
      delete_row event_id principal_id now db in
    let (allowed, rest) = then_ok _ _ after h in
    let (row, found, written) =
      bind_ok (owned organization_id provider (find_row id db.services)) step after rest in
    let stored : find_row id db.services ≡ some row =
      owned_row organization_id provider (find_row id db.services) row found in
    delete_row-AllSuperseded event_id principal_id now db after row
      (ap (λ key. find_row key db.services) (find_row_id id db.services row stored) ∙ stored)
      written all

-- If no event is ahead of its row, and none but a deletion level with a row being deleted, so it
-- is after an update that succeeds.
pub record_update-AllSuperseded :
    (event_id : Uuid) (now : ℕ) (principal_id : Uuid) (expected : Option ℕ) (prepared : ServiceRow)
    (db after : Database)
    → record_update event_id now principal_id expected prepared db ≡ ok after
    → AllSuperseded db
    → AllSuperseded after
unfolding record_update update_row
record_update-AllSuperseded event_id now principal_id expected prepared db after h all =
    let write : ℕ → Database = λ generation.
      write_with_event event_id reconcile principal_id now
        (record prepared { generation = generation; state = updating; status = "{}" }) db in
    let step : ℕ → Result LifecycleError Database = λ generation. ok (write generation) in
    let (row, found, updated) =
      bind_ok (owned prepared.organization_id prepared.provider (find_row prepared.id db.services))
        (update_row event_id now principal_id expected prepared db) after h in
    let stored : find_row prepared.id db.services ≡ some row =
      owned_row prepared.organization_id prepared.provider (find_row prepared.id db.services) row
        found in
    let (allowed, rest) = then_ok _ _ after updated in
    let (generation, next, path) = bind_ok (next_generation row.generation) step after rest in
    subst AllSuperseded (ok_inj path) (
      write_with_event-AllSuperseded event_id reconcile principal_id now
        (record prepared { generation = generation; state = updating; status = "{}" }) row db stored
        (next_generation_above row.generation generation next) refl all)
