-- ===== src/Store/Lifecycle/Marks.antt =====
-- The marks, the removal of a row and the changes of events, against the events.
use ipa_rs_hetero_cloud.Prelude.{
  ◌≡◌, ◌≢◌, refl, sym, ap, subst, ◌∙◌, inl, inr, ℕ, String, Bool, true, false, ◌&&◌, Option, none,
  some, List, [], ◌∷◌, map, arith, ◌==◌, if◌then◌else◌, ==_iff, Bool-cases, All, All-map,
}
use ipa_rs_hetero_cloud.Domain.Vpc.{Uuid}
use ipa_rs_hetero_cloud.Store.Lifecycle.{
  ServiceState, ServiceRow, is_deleting, OutboxEvent, Database, find_row, put_row, remove_row,
  matches_key, complete_delete, mark_service_instance,
}
use ipa_rs_hetero_cloud.Store.Outbox.{update_event}
use ipa_rs_hetero_cloud.Store.Lifecycle.Rows.{
  find_row_id, find_row-remove_row, find_row-remove_row_same,
}
use ipa_rs_hetero_cloud.Store.Lifecycle.Events.{Superseded, AllSuperseded, put_row-Superseded}

taken :
    (b : Bool) (d after : Database)
    → (if b then some d else none) ≡ some after
    → (b ≡ true) × (d ≡ after)
taken true d after h = (refl, cc)
taken false d after h = cc

level-Superseded :
    (state : ServiceState) (status : String) (old : ServiceRow)
    → is_deleting state ≡ false
    → (event : OutboxEvent) → Superseded event (some old)
    → Superseded event (some (record old { state = state; status = status }))
level-Superseded state status old staying event h = ground arith

pub mark_service_instance-AllSuperseded :
    (state : ServiceState) (id : Uuid) (provider : String) (generation : ℕ) (status : String)
    (db after : Database)
    → is_deleting state ≡ false
    → mark_service_instance state id provider generation status db ≡ some after
    → AllSuperseded db
    → AllSuperseded after
unfolding mark_service_instance
mark_service_instance-AllSuperseded state id provider generation status db after staying h all =
    found (find_row id db.services) refl h
  where
    written : ServiceRow → Database
    written old = record db {
      services = put_row (record old { state = state; status = status }) db.services;
    }

    marked : (old : ServiceRow) → find_row id db.services ≡ some old → AllSuperseded (written old)
    marked old f =
        All-map
          (put_row-Superseded (record old { state = state; status = status }) old db.services
            (ap (λ key. find_row key db.services) (find_row_id id db.services old f) ∙ f)
            (level-Superseded state status old staying))
          db.outbox all

    found :
        (slot : Option ServiceRow)
        → find_row id db.services ≡ slot
        → elim slot [
          | none ↦ none
          | some old ↦ if matches_key provider generation old then some (written old) else none
        ]
          ≡ some after
        → AllSuperseded after
    found none f h = cc
    found (some old) f h =
        let (matching, path) = taken (matches_key provider generation old) (written old) after h in
        subst AllSuperseded path (marked old f)

pub complete_delete-AllSuperseded :
    (id : Uuid) (provider : String) (generation : ℕ) (db after : Database)
    → complete_delete id provider generation db ≡ some after
    → AllSuperseded db
    → AllSuperseded after
unfolding complete_delete
complete_delete-AllSuperseded id provider generation db after h all =
    found (find_row id db.services) h
  where
    removed :
        (event : OutboxEvent)
        → Superseded event (find_row event.payload.service_instance_id db.services)
        → Superseded event (find_row event.payload.service_instance_id (remove_row id db.services))
    removed event s = elim (Bool-cases (id == event.payload.service_instance_id)) [
      | inl e ↦
          let path : id ≡ event.payload.service_instance_id =
            (==_iff id event.payload.service_instance_id).0 e in
          subst (λ x. Superseded event (find_row x (remove_row id db.services))) path
            (subst (Superseded event) (sym (find_row-remove_row_same id db.services)) tt)
      | inr e ↦
          subst (Superseded event)
            (sym (
              find_row-remove_row event.payload.service_instance_id id db.services
                (λ path. differ e path)))
            s
    ]
      where
        differ :
            (id == event.payload.service_instance_id) ≡ false
            → id ≢ event.payload.service_instance_id
        differ e path = ground (arith, ==_iff id event.payload.service_instance_id)

    found :
        (slot : Option ServiceRow)
        → elim slot [
          | none ↦ none
          | some old ↦
              if matches_key provider generation old && is_deleting old.state
              then some (record db { services = remove_row id db.services })
              else none
        ]
          ≡ some after
        → AllSuperseded after
    found none h = cc
    found (some old) h =
        let (matching, path) =
          taken (matches_key provider generation old && is_deleting old.state)
            (record db { services = remove_row id db.services }) after h in
        subst AllSuperseded path (All-map removed db.outbox all)

All-of_map :
    {A : Type 0} (P : A → Type 0) (f : A → A) (xs : List A)
    → All (λ x. P (f x)) xs
    → All P (map f xs)
All-of_map P f [] h = tt
All-of_map P f (x ∷ xs) h = (h.0, All-of_map P f xs h.1)

-- A change of an event that keeps its topic and payload.
pub update_event-AllSuperseded :
    (id : Uuid) (change : OutboxEvent → OutboxEvent) (db : Database)
    → ((event : OutboxEvent) → (change event).topic ≡ event.topic)
    → ((event : OutboxEvent) → (change event).payload ≡ event.payload)
    → AllSuperseded db
    → AllSuperseded (update_event id change db)
update_event-AllSuperseded id change db topic payload all =
    All-of_map (λ event. Superseded event (find_row event.payload.service_instance_id db.services))
      (λ event. if event.id == id then change event else event) db.outbox
      (All-map (λ event s. kept event (event.id == id) s) db.outbox all)
  where
    moved :
        (event other : OutboxEvent) (slot : Option ServiceRow)
        → other.topic ≡ event.topic
        → other.payload ≡ event.payload
        → Superseded event slot
        → Superseded other slot
    moved event other none t p s = tt
    moved event other (some row) t p s = cc

    kept :
        (event : OutboxEvent) (b : Bool)
        → Superseded event (find_row event.payload.service_instance_id db.services)
        → Superseded
            (if b then change event else event)
            (find_row (if b then change event else event).payload.service_instance_id db.services)
    kept event false s = s
    kept event true s =
        subst (λ p. Superseded (change event) (find_row p.service_instance_id db.services))
          (sym (payload event))
          (moved event (change event) (find_row event.payload.service_instance_id db.services)
            (topic event) (payload event) s)
