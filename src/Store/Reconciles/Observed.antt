-- ===== src/Store/Reconciles/Observed.antt =====
-- An observation of a Flash service revives nothing.
use ipa_rs_hetero_cloud.Prelude.{
  ◌≡◌, refl, sym, ap, subst, ◌∙◌, ℕ, String, Bool, true, false, not, ◌&&◌, Option, none, some, List,
  arith, ◌==◌, if◌then◌else◌, All, All-map, is_some_and, str_eq,
}
use ipa_rs_hetero_cloud.Store.Lifecycle.{
  ServiceRow, is_deleting, OutboxEvent, Database, find_row, put_row,
}
use ipa_rs_hetero_cloud.Store.Lifecycle.Rows.{find_row_id}
use ipa_rs_hetero_cloud.Store.Lifecycle.Events.{Superseded, AllSuperseded, put_row-Superseded}
use ipa_rs_hetero_cloud.Store.Reconciles.{
  state_of_phase, is_observed, observe_row, record_flash_observation,
}

state_of_phase-alive : (phase : Option String) → is_deleting (state_of_phase phase) ≡ false
unfolding state_of_phase
state_of_phase-alive none = refl
state_of_phase-alive (some text) = ground arith

is_observed-alive :
    (instance row : ServiceRow) → is_observed instance row ≡ true → is_deleting row.state ≡ false
unfolding is_observed
is_observed-alive instance row h =
    last (row.organization_id == instance.organization_id) (row.generation == instance.generation)
      (str_eq row.provider "flash") (is_deleting row.state) h
  where
    last : (a b c d : Bool) → (a && (b && (c && not d))) ≡ true → d ≡ false
    last a b c d h = ground arith

-- An observation leaves all rows, or writes one that is not being deleted, and keeps it so.
pub observed_rows :
    (P : List ServiceRow → Type 0) (instance : ServiceRow) (observed_generation : Option ℕ)
    (phase : Option String) (status : String) (db : Database)
    → P db.services
    → ((row old : ServiceRow)
        → find_row row.id db.services ≡ some old
        → row.generation ≡ old.generation
        → is_deleting old.state ≡ false
        → is_deleting row.state ≡ false
        → P (put_row row db.services))
    → P (record_flash_observation instance observed_generation phase status db).services
unfolding record_flash_observation observe_row
observed_rows P instance observed_generation phase status db same put =
    by_guard
      (not (is_some_and (λ generation. generation == instance.generation) observed_generation))
      (by_slot (find_row instance.id db.services) refl)
  where
    by_match :
        (row : ServiceRow) (b : Bool)
        → find_row instance.id db.services ≡ some row
        → is_observed instance row ≡ b
        → P
            (if b
              then record db {
                services =
                    put_row
                      (record row { state = state_of_phase phase; status = status })
                      db.services;
              }
              else db).services
    by_match row false e m = same
    by_match row true e m =
        put (record row { state = state_of_phase phase; status = status }) row
          (ap (λ key. find_row key db.services) (find_row_id instance.id db.services row e) ∙ e)
          refl (is_observed-alive instance row m) (state_of_phase-alive phase)

    by_slot :
        (slot : Option ServiceRow)
        → find_row instance.id db.services ≡ slot
        → P (observe_row instance phase status db slot).services
    by_slot none e = same
    by_slot (some row) e = by_match row (is_observed instance row) e refl

    by_guard :
        (b : Bool)
        → P (observe_row instance phase status db (find_row instance.id db.services)).services
        → P
            (if b
              then db
              else observe_row instance phase status db (find_row instance.id db.services)).services
    by_guard true observed = same
    by_guard false observed = observed

same_generation :
    (row old : ServiceRow)
    → row.generation ≡ old.generation
    → is_deleting old.state ≡ false
    → is_deleting row.state ≡ false
    → (event : OutboxEvent) → Superseded event (some old)
    → Superseded event (some row)
same_generation row old same old_alive alive event h = ground arith

observed_outbox :
    (instance : ServiceRow) (observed_generation : Option ℕ) (phase : Option String)
    (status : String) (db : Database)
    → (record_flash_observation instance observed_generation phase status db).outbox ≡ db.outbox
unfolding record_flash_observation observe_row
observed_outbox instance observed_generation phase status db =
    by_guard
      (not (is_some_and (λ generation. generation == instance.generation) observed_generation))
      (find_row instance.id db.services)
  where
    by_match :
        (row : ServiceRow) (b : Bool)
        → (if b
            then record db {
              services =
                  put_row
                    (record row { state = state_of_phase phase; status = status })
                    db.services;
            }
            else db).outbox
          ≡ db.outbox
    by_match row true = refl
    by_match row false = refl

    by_guard :
        (b : Bool) (slot : Option ServiceRow)
        → (if b then db else observe_row instance phase status db slot).outbox ≡ db.outbox
    by_guard true slot = refl
    by_guard false none = refl
    by_guard false (some row) = by_match row (is_observed instance row)

pub record_flash_observation-AllSuperseded :
    (instance : ServiceRow) (observed_generation : Option ℕ) (phase : Option String)
    (status : String) (db : Database)
    → AllSuperseded db
    → AllSuperseded (record_flash_observation instance observed_generation phase status db)
record_flash_observation-AllSuperseded instance observed_generation phase status db all =
    subst
      (λ events.
        All
          (λ event. Superseded event (
            find_row event.payload.service_instance_id
              (record_flash_observation instance observed_generation phase status db).services))
          events)
      (sym (observed_outbox instance observed_generation phase status db))
      (observed_rows
        (λ services.
          All (λ event. Superseded event (find_row event.payload.service_instance_id services))
            db.outbox)
        instance observed_generation phase status db all
        (λ row old here same old_alive alive.
          All-map
            (put_row-Superseded row old db.services here
              (same_generation row old same old_alive alive))
            db.outbox all))
