-- ===== src/Store/Outbox/Leases.antt =====
-- For how long no other claim takes an event that has been claimed.
use ipa_rs_hetero_cloud.Prelude.{
  ◌≡◌, refl, sym, subst, inl, inr, ℕ, ◌+◌, ◌≤◌, Bool, true, false, Option, none, some, List, [],
  ◌∷◌, map, arith, ◌==◌, is_some_and, All, Any, filter, if◌then◌else◌,
}
use ipa_rs_hetero_cloud.Domain.Vpc.{Uuid}
use ipa_rs_hetero_cloud.Store.Lifecycle.{OutboxEvent, Database}
use ipa_rs_hetero_cloud.Store.Outbox.{
  claimable, claim_outbox_event, update_event, mark_outbox_delivered, retry_outbox_event,
  delay_seconds,
}
use ipa_rs_hetero_cloud.Store.Outbox.Claims.{lock, Claims, claim_outbox_event-Claims}
use ipa_rs_hetero_cloud.Store.Outbox.Holds.{
  is_held, Held, Meanwhile, update_event-Held, other_held, claim-Held, nothing, claimed, delivered,
  retried, posted, rows_changed,
}

retried_id :
    (event : OutboxEvent) (available_at : ℕ) (b : Bool)
    → (if b then event else record event { locked_at = none; available_at = available_at }).id
      ≡ event.id
retried_id event available_at true = refl
retried_id event available_at false = refl

Meanwhile-Held :
    (id : Uuid) (since : ℕ) (db after : Database)
    → Meanwhile id since db after
    → Held id since db
    → Held id since after
unfolding mark_outbox_delivered retry_outbox_event
Meanwhile-Held id since _ _ (nothing db) held = held
Meanwhile-Held id since _ _ (claimed now db after late rest) held =
    Meanwhile-Held id since (claim_outbox_event now db).0 after rest
      (claim-Held id since now db late held)
Meanwhile-Held id since _ _ (delivered other db after apart rest) held =
    Meanwhile-Held id since (mark_outbox_delivered other db) after rest (
      update_event-Held id other since _ (λ e same h. other_held id other since e _ apart same refl)
        db.outbox held)
Meanwhile-Held id since _ _ (retried other attempts now db after apart rest) held =
    Meanwhile-Held id since (retry_outbox_event other attempts now db) after rest (
      update_event-Held id other since _
        (λ e same h.
          other_held id other since e _ apart same
            (retried_id e (now + delay_seconds attempts) e.is_delivered))
        db.outbox held)
Meanwhile-Held id since _ _ (posted event db after apart rest) held =
    Meanwhile-Held id since (record db { outbox = event ∷ db.outbox }) after rest
      (other_held id event.id since event event apart refl refl, held)
Meanwhile-Held id since _ _ (rows_changed rows db after rest) held =
    Meanwhile-Held id since (record db { services = rows }) after rest held

locked-Held :
    (id : Uuid) (since : ℕ) (events : List OutboxEvent)
    → All
        (λ event. is_held id since event ≡ true)
        (map (λ event. if event.id == id then lock since event else event) events)
unfolding is_held
locked-Held id since [] = tt
locked-Held id since (event ∷ rest) = (by_id (event.id == id) refl, locked-Held id since rest)
  where
    by_id :
        (b : Bool)
        → (event.id == id) ≡ b
        → is_held id since (if b then lock since event else event) ≡ true
    by_id true e = ground arith
    by_id false e = ground arith

held_unclaimable :
    (id : Uuid) (since now : ℕ) (event : OutboxEvent)
    → now ≤ since + 120
    → is_held id since event ≡ true
    → claimable now event ≡ true
    → (event.id == id) ≡ false
unfolding is_held claimable
held_unclaimable id since now event soon held free = by_lock event.locked_at refl
  where
    by_lock : (slot : Option ℕ) → event.locked_at ≡ slot → (event.id == id) ≡ false
    by_lock none e = ground arith
    by_lock (some locked) e = ground arith

claimable-apart :
    (id : Uuid) (since now : ℕ) (first : OutboxEvent) (events : List OutboxEvent)
    → now ≤ since + 120
    → All (λ event. is_held id since event ≡ true) events
    → Any (λ other. other ≡ first) (filter (claimable now) events)
    → (first.id == id) ≡ false
claimable-apart id since now first [] soon held found = absurd found
claimable-apart id since now first (event ∷ rest) soon held found =
    by_test (claimable now event) refl (claimable-apart id since now first rest soon held.1) found
  where
    by_test :
        (b : Bool)
        → claimable now event ≡ b
        → (Any (λ other. other ≡ first) (filter (claimable now) rest) → (first.id == id) ≡ false)
        → Any
            (λ other. other ≡ first)
            (elim b [
              | true ↦ event ∷ filter (claimable now) rest
              | false ↦ filter (claimable now) rest
            ])
        → (first.id == id) ≡ false
    by_test true e ih (inl same) =
        subst (λ x. (x.id == id) ≡ false) same (held_unclaimable id since now event soon held.0 e)
    by_test true e ih (inr later) = ih later
    by_test false e ih later = ih later

-- An event that a claim has taken is taken by no claim of the next 120 seconds, whatever others do
-- meanwhile, if they neither end its delivery nor post an event with its id and the clock does not
-- go back behind the claim.
pub claim_outbox_event-claim_outbox_event :
    (since now : ℕ) (db later : Database) (event : OutboxEvent)
    → (claim_outbox_event since db).1 ≡ some event
    → Meanwhile event.id since (claim_outbox_event since db).0 later
    → now ≤ since + 120
    → is_some_and (λ other. other.id == event.id) (claim_outbox_event now later).1 ≡ false
claim_outbox_event-claim_outbox_event since now db later event taken meanwhile soon =
    other (claim_outbox_event now later) (claim_outbox_event-Claims now later)
  where
    locked :
        (result : Database × Option OutboxEvent)
        → Claims since db result
        → result.1 ≡ some event
        → Held event.id since result.0
    locked (after, none) claims same = absurd (cc)
    locked (after, some got) (first, found, lock_path, path) same =
        let id_path : first.id ≡ event.id = cc in
        subst (Held event.id since) (sym path) (
          subst (λ id. Held id since (update_event first.id (lock since) db)) id_path
            (locked-Held first.id since db.outbox))

    held : Held event.id since later
    held =
        Meanwhile-Held event.id since (claim_outbox_event since db).0 later meanwhile
          (locked (claim_outbox_event since db) (claim_outbox_event-Claims since db) taken)

    other :
        (result : Database × Option OutboxEvent)
        → Claims now later result
        → is_some_and (λ got. got.id == event.id) result.1 ≡ false
    other (after, none) claims = refl
    other (after, some got) (first, found, lock_path, path) =
        subst (λ x. (x.id == event.id) ≡ false) (sym lock_path)
          (claimable-apart event.id since now first later.outbox soon held found.0)
