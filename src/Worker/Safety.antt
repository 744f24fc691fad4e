-- ===== src/Worker/Safety.antt =====
-- A service that is being deleted is not brought back by a delivery.
use ipa_rs_hetero_cloud.Prelude.{
  ◌≡◌, ◌≢◌, refl, sym, ap, subst, ◌∙◌, inl, inr, ℕ, String, Bool, true, false, ◌&&◌, Option, none,
  some, arith, ltb, ◌==◌, if◌then◌else◌, ==_iff, Bool-cases,
}
use ipa_rs_hetero_cloud.Domain.Vpc.{Uuid}
use ipa_rs_hetero_cloud.Store.Lifecycle.{
  ServiceState, ServiceRow, is_deleting, Database, find_row, put_row, remove_row, matches_key,
  complete_delete, mark_service_instance,
}
use ipa_rs_hetero_cloud.Store.Lifecycle.Going.{StaysDeleting, unchanged}
use ipa_rs_hetero_cloud.Store.Lifecycle.Rows.{
  find_row_id, find_row-put_row, find_row-remove_row, find_row-remove_row_same,
}

module _ (k : Uuid) (row : ServiceRow) (db : Database) where
  module _ (deleting_row : find_row k db.services ≡ some row)
      (is_going : is_deleting row.state ≡ true) where
    pub mark_keeps :
        (state : ServiceState) (id : Uuid) (provider : String) (generation : ℕ) (status : String)
        (after : Database)
        → (id ≡ k → ltb generation row.generation ≡ true)
        → mark_service_instance state id provider generation status db ≡ some after
        → StaysDeleting (find_row k after.services)
    unfolding mark_service_instance matches_key
    mark_keeps state id provider generation status after older h =
        found (find_row id db.services) refl h
      where
        same_row : (old : ServiceRow) → id ≡ k → find_row id db.services ≡ some old → old ≡ row
        same_row old e f = cc

        marked :
            (old : ServiceRow)
            → find_row id db.services ≡ some old
            → (old.generation == generation) ≡ true
            → find_row k (put_row (record old { state = state; status = status }) db.services)
              ≡ find_row k db.services
        marked old f g =
            find_row-put_row k (record old { state = state; status = status }) db.services
              (λ e. clash old f g (sym (find_row_id id db.services old f) ∙ e))
          where
            clash :
                (r : ServiceRow)
                → find_row id db.services ≡ some r
                → (r.generation == generation) ≡ true
                → id ≡ k
                → ⊥
            clash r f g e =
                let path : r.generation ≡ row.generation =
                  ap (λ x. x.generation) (same_row r e f) in
                let less : ltb generation row.generation ≡ true = older e in
                ground (arith, ==_iff r.generation generation)

        taken :
            (b : Bool) {d : Database}
            → (if b then some d else none) ≡ some after
            → (b ≡ true) × (d ≡ after)
        taken true h = (refl, cc)
        taken false h = cc

        first_key :
            (old : ServiceRow)
            → matches_key provider generation old ≡ true
            → (old.generation == generation) ≡ true
        first_key old h = ground arith

        found :
            (slot : Option ServiceRow)
            → find_row id db.services ≡ slot
            → elim slot [
              | none ↦ none
              | some old ↦
                  if matches_key provider generation old
                  then some (record db {
                    services = put_row (record old { state = state; status = status }) db.services;
                  })
                  else none
            ]
              ≡ some after
            → StaysDeleting (find_row k after.services)
        found none f h = cc
        found (some old) f h =
            let (matching, path) = taken (matches_key provider generation old) h in
            subst (λ d. StaysDeleting (find_row k d.services)) path
              (subst StaysDeleting (sym (marked old f (first_key old matching)))
                (unchanged k row db deleting_row is_going))

    pub complete_keeps :
        (id : Uuid) (provider : String) (generation : ℕ) (after : Database)
        → complete_delete id provider generation db ≡ some after
        → StaysDeleting (find_row k after.services)
    unfolding complete_delete
    complete_keeps id provider generation after h = found (find_row id db.services) h
      where
        removed : StaysDeleting (find_row k (remove_row id db.services))
        removed = elim (Bool-cases (id == k)) [
          | inl e ↦
              let path : id ≡ k = (==_iff id k).0 e in
              subst (λ x. StaysDeleting (find_row x (remove_row id db.services))) path
                (subst StaysDeleting (sym (find_row-remove_row_same id db.services)) tt)
          | inr e ↦
              subst StaysDeleting (sym (find_row-remove_row k id db.services (differ e)))
                (unchanged k row db deleting_row is_going)
        ]
          where
            differ : (id == k) ≡ false → id ≢ k
            differ e path = ground (arith, ==_iff id k)

        taken : (b : Bool) {d : Database} → (if b then some d else none) ≡ some after → d ≡ after
        taken true h = cc
        taken false h = cc

        found :
            (slot : Option ServiceRow)
            → elim slot [
              | none ↦ none
              | some old ↦
                  if matches_key provider generation old && is_deleting old.state
                  then some (record db { services = remove_row id db.services })
                  else none
            ]
              ≡ some after
            → StaysDeleting (find_row k after.services)
        found none h = cc
        found (some old) h =
            subst (λ d. StaysDeleting (find_row k d.services))
              (taken (matches_key provider generation old && is_deleting old.state) h) removed
