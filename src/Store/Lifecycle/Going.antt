-- ===== src/Store/Lifecycle/Going.antt =====
-- The transactions of the store on a row that is being deleted, and the first event of a service.
use ipa_rs_hetero_cloud.Prelude.{
  bind_ok, then_ok, ok_inj, branch, ◌≡◌, ◌≢◌, refl, sym, ap, subst, ◌∙◌, inl, inr, ℕ, String, Bool,
  true, false, not, ◌&&◌, ◌||◌, Option, none, some, ◌∷◌, arith, ◌==◌, if◌then◌else◌, ==_iff,
  Bool-cases, Result, ok, err, ◌>>=◌, reject_if, str_eq, is_some_and,
}
use ipa_rs_hetero_cloud.Domain.Vpc.{Uuid}
use ipa_rs_hetero_cloud.Store.Lifecycle.{
  deleting, updating, provisioning, ServiceRow, reconcile, delete, is_deleting, Database,
  LifecycleError, find_row, put_row, next_generation, write_with_event, new_event, payload_of,
  owned, delete_row, begin_delete, update_row, record_update, record_create, conflict, vpc_attached,
  vpc_in_use,
}
use ipa_rs_hetero_cloud.Store.Lifecycle.Rows.{find_row_id, find_row-put_row, find_row-put_row_same}
use ipa_rs_hetero_cloud.Store.Lifecycle.Events.{owned_row}

-- The row is gone, or still being deleted.
abbrev pub StaysDeleting : Option ServiceRow → Type 0
StaysDeleting none = Unit
StaysDeleting (some row) = is_deleting row.state ≡ true

module _ (k : Uuid) (going : ServiceRow) (db : Database) where
  module _ (stored : find_row k db.services ≡ some going)
      (is_going : is_deleting going.state ≡ true) where
    pub unchanged : StaysDeleting (find_row k db.services)
    unchanged = subst StaysDeleting (sym stored) is_going

    pub put_stays :
        (row old : ServiceRow)
        → find_row row.id db.services ≡ some old
        → (row.id ≡ k → is_deleting row.state ≡ true)
        → StaysDeleting (find_row k (put_row row db.services))
    put_stays row old found deletes = elim (Bool-cases (row.id == k)) [
      | inl e ↦
          let path : row.id ≡ k = (==_iff row.id k).0 e in
          subst (λ x. StaysDeleting (find_row x (put_row row db.services))) path
            (subst StaysDeleting (sym (find_row-put_row_same row old db.services found))
              (deletes path))
      | inr e ↦
          subst StaysDeleting (sym (find_row-put_row k row db.services (λ path. differ e path)))
            unchanged
    ]
      where
        differ : (row.id == k) ≡ false → row.id ≢ k
        differ e path = ground (arith, ==_iff row.id k)

    pub begin_delete_stays :
        (event_id : Uuid) (now : ℕ) (organization_id id : Uuid) (provider : String)
        (principal_id : Uuid) (after : Database)
        → begin_delete event_id now organization_id id provider principal_id db ≡ ok after
        → StaysDeleting (find_row k after.services)
    unfolding begin_delete delete_row write_with_event
    begin_delete_stays event_id now organization_id id provider principal_id after h =
        let write : ServiceRow → ℕ → Database = λ row generation.
          write_with_event event_id delete principal_id now
            (record row { generation = generation; state = deleting; status = "{}" }) db in
        let step : ServiceRow → ℕ → Result LifecycleError Database =
          λ row generation. ok (write row generation) in
        let attached : Bool =
          str_eq provider "vpc" && vpc_attached organization_id id db.services in
        let (allowed, rest) = then_ok (reject_if attached vpc_in_use) _ after h in
        let (row, found, written) =
          bind_ok (owned organization_id provider (find_row id db.services))
            (delete_row event_id principal_id now db) after rest in
        let here : find_row id db.services ≡ some row =
          owned_row organization_id provider (find_row id db.services) row found in
        elim (branch (is_deleting row.state) (ok db) (next_generation row.generation >>= step row)
          after written) [
            | inl (e, same) ↦
                subst (λ d. StaysDeleting (find_row k d.services)) (ok_inj same) unchanged
            | inr (e, raised) ↦
                let (generation, next, path) =
                  bind_ok (next_generation row.generation) (step row) after raised in
                subst (λ d. StaysDeleting (find_row k d.services)) (ok_inj path)
                  (put_stays
                    (record row { generation = generation; state = deleting; status = "{}" }) row
                    (ap (λ key. find_row key db.services) (find_row_id id db.services row here)
                      ∙ here)
                    (λ same. refl))
          ]

    pub record_update_stays :
        (event_id : Uuid) (now : ℕ) (principal_id : Uuid) (expected : Option ℕ)
        (prepared : ServiceRow) (after : Database)
        → record_update event_id now principal_id expected prepared db ≡ ok after
        → StaysDeleting (find_row k after.services)
    unfolding record_update update_row write_with_event
    record_update_stays event_id now principal_id expected prepared after h =
        let write : ℕ → Database = λ generation.
          write_with_event event_id reconcile principal_id now
            (record prepared { generation = generation; state = updating; status = "{}" }) db in
        let step : ℕ → Result LifecycleError Database = λ generation. ok (write generation) in
        let (row, found, updated) =
          bind_ok
            (owned prepared.organization_id prepared.provider (find_row prepared.id db.services))
            (update_row event_id now principal_id expected prepared db) after h in
        let here : find_row prepared.id db.services ≡ some row =
          owned_row prepared.organization_id prepared.provider (find_row prepared.id db.services)
            row found in
        let (allowed, rest) = then_ok _ _ after updated in
        let (generation, next, path) = bind_ok (next_generation row.generation) step after rest in
        subst (λ d. StaysDeleting (find_row k d.services)) (ok_inj path)
          (put_stays (record prepared { generation = generation; state = updating; status = "{}" })
            row here
            (λ same. absurd (
              refused row (alike row here same)
                (is_some_and (λ g. not (g == row.generation)) expected) allowed)))
      where
        alike :
            (row : ServiceRow)
            → find_row prepared.id db.services ≡ some row
            → prepared.id ≡ k
            → row ≡ going
        alike row here same = cc

        refused :
            (row : ServiceRow)
            → row ≡ going
            → (b : Bool) → reject_if (b || is_deleting row.state) conflict ≡ ok tt
            → ⊥
        refused row path true h = cc
        refused row path false h =
            let gone : is_deleting row.state ≡ true =
              ap (λ r. is_deleting r.state) path ∙ is_going in
            ground arith

    pub record_create_stays :
        (event_id : Uuid) (now : ℕ) (principal_id : Uuid) (prepared : ServiceRow) (after : Database)
        → record_create event_id now principal_id prepared db ≡ ok after
        → StaysDeleting (find_row k after.services)
    unfolding record_create find_row
    record_create_stays event_id now principal_id prepared after h =
        created (find_row prepared.id db.services) refl h
      where
        row : ServiceRow
        row = record prepared { generation = 1; state = provisioning; status = "{}" }

        with_row : Database
        with_row = record {
          services = row ∷ db.services;
          outbox = new_event event_id reconcile (payload_of row principal_id) now ∷ db.outbox;
        }

        apart : find_row prepared.id db.services ≡ none → prepared.id ≡ k → ⊥
        apart e same = cc

        new_row :
            find_row prepared.id db.services ≡ none → StaysDeleting (find_row k with_row.services)
        new_row e = subst StaysDeleting (sym (behind_row (prepared.id == k) refl)) unchanged
          where
            behind_row :
                (b : Bool)
                → (prepared.id == k) ≡ b
                → find_row k (row ∷ db.services) ≡ find_row k db.services
            behind_row true same = absurd (apart e ((==_iff prepared.id k).0 same))
            behind_row false other = ground arith

        created :
            (slot : Option ServiceRow)
            → find_row prepared.id db.services ≡ slot
            → elim slot [
              | none ↦ ok with_row
              | some old ↦
                  if old.organization_id == prepared.organization_id
                    && str_eq old.provider prepared.provider
                  then ok db
                  else err conflict
            ]
              ≡ ok after
            → StaysDeleting (find_row k after.services)
        created none e h = subst (λ d. StaysDeleting (find_row k d.services)) (ok_inj h) (new_row e)
        created (some old) e h =
            elim (branch
              (old.organization_id == prepared.organization_id
                && str_eq old.provider prepared.provider)
              (ok db) (err conflict) after h) [
                | inl (b, same) ↦
                    subst (λ d. StaysDeleting (find_row k d.services)) (ok_inj same) unchanged
                | inr (b, refused) ↦ absurd (no_result refused)
              ]
          where
            no_result :
                (let left : Result LifecycleError Database = err conflict in left ≡ ok after) → ⊥
            no_result h = cc
