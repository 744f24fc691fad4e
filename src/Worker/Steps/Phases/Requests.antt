-- ===== src/Worker/Steps/Phases/Requests.antt =====
-- The requests of users change the rows within the life of a service.
use ipa_rs_hetero_cloud.Prelude.{
  bind_ok, then_ok, ◌≡◌, refl, sym, ap, subst, ◌∙◌, ℕ, String, Bool, true, false, not, Option, none,
  some, List, ◌∷◌, arith, ◌==◌, Result, ok, err, is_some_and,
}
use ipa_rs_hetero_cloud.Domain.Vpc.{Uuid}
use ipa_rs_hetero_cloud.Store.Lifecycle.{
  deleting, updating, provisioning, ServiceRow, is_deleting, Database, LifecycleError, find_row,
  put_row, next_generation, write_with_event, delete_row, begin_delete, update_row, record_update,
  record_create,
}
use ipa_rs_hetero_cloud.Store.Lifecycle.Rows.{find_row_id}
use ipa_rs_hetero_cloud.Store.Lifecycle.Events.{owned_row}
use ipa_rs_hetero_cloud.Worker.Steps.Phases.{Change, same_rows, put, add}

pub same_key :
    (id : Uuid) (rows : List ServiceRow) (row : ServiceRow)
    → find_row id rows ≡ some row
    → find_row row.id rows ≡ some row
same_key id rows row here = ap (λ key. find_row key rows) (find_row_id id rows row here) ∙ here

delete_row-Change :
    (event_id : Uuid) (principal_id : Uuid) (now : ℕ) (db after : Database) (row : ServiceRow)
    → find_row row.id db.services ≡ some row
    → delete_row event_id principal_id now db row ≡ ok after
    → Change db.services after.services
unfolding delete_row write_with_event
delete_row-Change event_id principal_id now db after row here h =
    by_parts (is_deleting row.state) (next_generation row.generation) refl refl
  where
    by_parts :
        (b : Bool) (next : Result LifecycleError ℕ)
        → is_deleting row.state ≡ b
        → next_generation row.generation ≡ next
        → Change db.services after.services
    by_parts true next e n =
        let same : db ≡ after = ground arith in
        subst (λ d. Change db.services d.services) same same_rows
    by_parts false (err x) e n = absurd (ground arith)
    by_parts false (ok generation) e n =
        let same : after.services
            ≡ put_row (record row { generation = generation; state = deleting; status = "{}" })
                db.services =
          ground arith in
        subst (Change db.services) (sym same) (
          put (record row { generation = generation; state = deleting; status = "{}" }) row here
            (λ d. refl))

pub begin_delete-Change :
    (event_id : Uuid) (now : ℕ) (organization_id id : Uuid) (provider : String)
    (principal_id : Uuid) (db after : Database)
    → begin_delete event_id now organization_id id provider principal_id db ≡ ok after
    → Change db.services after.services
unfolding begin_delete
begin_delete-Change event_id now organization_id id provider principal_id db after h =
    let (allowed, rest) = then_ok _ _ after h in
    let (row, found, written) = bind_ok _ _ after rest in
    delete_row-Change event_id principal_id now db after row
      (same_key id db.services row
        (owned_row organization_id provider (find_row id db.services) row found))
      written

update_row-Change :
    (event_id : Uuid) (now : ℕ) (principal_id : Uuid) (expected : Option ℕ)
    (prepared row : ServiceRow) (db after : Database)
    → find_row prepared.id db.services ≡ some row
    → update_row event_id now principal_id expected prepared db row ≡ ok after
    → Change db.services after.services
unfolding update_row write_with_event
update_row-Change event_id now principal_id expected prepared row db after here h =
    by_parts (next_generation row.generation)
      (is_some_and (λ g. not (g == row.generation)) expected) refl refl
  where
    by_parts :
        (next : Result LifecycleError ℕ) (b : Bool)
        → next_generation row.generation ≡ next
        → is_some_and (λ g. not (g == row.generation)) expected ≡ b
        → Change db.services after.services
    by_parts (err x) b n e = absurd (ground arith)
    by_parts (ok generation) true n e = absurd (ground arith)
    by_parts (ok generation) false n e =
        let same : after.services
            ≡ put_row (record prepared { generation = generation; state = updating; status = "{}" })
                db.services =
          ground arith in
        let staying : is_deleting row.state ≡ false = ground arith in
        subst (Change db.services) (sym same) (
          put (record prepared { generation = generation; state = updating; status = "{}" }) row
            here (λ d. absurd (cc)))

pub record_update-Change :
    (event_id : Uuid) (now : ℕ) (principal_id : Uuid) (expected : Option ℕ) (prepared : ServiceRow)
    (db after : Database)
    → record_update event_id now principal_id expected prepared db ≡ ok after
    → Change db.services after.services
unfolding record_update
record_update-Change event_id now principal_id expected prepared db after h =
    let (row, found, written) = bind_ok _ _ after h in
    update_row-Change event_id now principal_id expected prepared row db after
      (owned_row prepared.organization_id prepared.provider (find_row prepared.id db.services) row
        found)
      written

pub record_create-Change :
    (event_id : Uuid) (now : ℕ) (principal_id : Uuid) (prepared : ServiceRow) (db after : Database)
    → record_create event_id now principal_id prepared db ≡ ok after
    → Change db.services after.services
unfolding record_create
record_create-Change event_id now principal_id prepared db after h =
    by_slot (find_row prepared.id db.services) refl
  where
    row : ServiceRow
    row = record prepared { generation = 1; state = provisioning; status = "{}" }

    by_slot :
        (slot : Option ServiceRow)
        → find_row prepared.id db.services ≡ slot
        → Change db.services after.services
    by_slot none e =
        let same : after.services ≡ row ∷ db.services = ground arith in
        subst (Change db.services) (sym same) (add row e refl)
    by_slot (some old) e =
        let same : db ≡ after = ground arith in
        subst (λ d. Change db.services d.services) same same_rows
