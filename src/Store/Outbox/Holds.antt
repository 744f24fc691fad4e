-- ===== src/Store/Outbox/Holds.antt =====
-- Which events somebody holds, and what leaves them held.
use ipa_rs_hetero_cloud.Prelude.{
  ◌≡◌, ◌≢◌, refl, sym, ◌∙◌, ℕ, ◌≤◌, Bool, true, false, not, Option, none, some, List, [], ◌∷◌, map,
  arith, ◌==◌, ==_iff, leb, is_some_and, All, if◌then◌else◌, ◌||◌,
}
use ipa_rs_hetero_cloud.Domain.Vpc.{Uuid}
use ipa_rs_hetero_cloud.Store.Lifecycle.{ServiceRow, OutboxEvent, Database}
use ipa_rs_hetero_cloud.Store.Outbox.{
  next_event, claim_outbox_event, update_event, mark_outbox_delivered, retry_outbox_event,
}
use ipa_rs_hetero_cloud.Store.Outbox.Claims.{lock}

-- The event is another one, or locked since `since` or later.
unfoldable pub is_held : Uuid → ℕ → OutboxEvent → Bool
is_held id since event =
    not (event.id == id) || is_some_and (λ locked. leb since locked) event.locked_at

abbrev pub Held : Uuid → ℕ → Database → Type 0
Held id since db = All (λ event. is_held id since event ≡ true) db.outbox

-- What others do to the database while one of them holds an event: claims after `since`, the ends of
-- other deliveries, new events and any change of the rows of services.
pub data Meanwhile (id : Uuid) (since : ℕ) : Database → Database → Type 0 where
  nothing : (db : Database) → Meanwhile id since db db
  claimed :
      (now : ℕ) (db after : Database)
      → since ≤ now
      → Meanwhile id since (claim_outbox_event now db).0 after
      → Meanwhile id since db after
  delivered :
      (other : Uuid) (db after : Database)
      → other ≢ id
      → Meanwhile id since (mark_outbox_delivered other db) after
      → Meanwhile id since db after
  retried :
      (other : Uuid) (attempts now : ℕ) (db after : Database)
      → other ≢ id
      → Meanwhile id since (retry_outbox_event other attempts now db) after
      → Meanwhile id since db after
  posted :
      (event : OutboxEvent) (db after : Database)
      → event.id ≢ id
      → Meanwhile id since (record db { outbox = event ∷ db.outbox }) after
      → Meanwhile id since db after
  rows_changed :
      (rows : List ServiceRow) (db after : Database)
      → Meanwhile id since (record db { services = rows }) after
      → Meanwhile id since db after

-- A change of the events with one id keeps another event held, and so does one that keeps locks.
pub update_event-Held :
    (id other : Uuid) (since : ℕ) (change : OutboxEvent → OutboxEvent)
    → ((event : OutboxEvent)
        → event.id ≡ other
        → is_held id since event ≡ true
        → is_held id since (change event) ≡ true)
    → (events : List OutboxEvent) → All (λ event. is_held id since event ≡ true) events
    → All
        (λ event. is_held id since event ≡ true)
        (map (λ event. if event.id == other then change event else event) events)
update_event-Held id other since change keeps [] held = tt
update_event-Held id other since change keeps (event ∷ rest) held =
    (by_id (event.id == other) refl, update_event-Held id other since change keeps rest held.1)
  where
    by_id :
        (b : Bool)
        → (event.id == other) ≡ b
        → is_held id since (if b then change event else event) ≡ true
    by_id true e = keeps event ((==_iff event.id other).0 e) held.0
    by_id false e = held.0

lock_held :
    (id : Uuid) (since now : ℕ) (event : OutboxEvent)
    → since ≤ now
    → is_held id since (lock now event) ≡ true
unfolding is_held
lock_held id since now event late = ground arith

pub other_held :
    (id other : Uuid) (since : ℕ) (event changed : OutboxEvent)
    → other ≢ id
    → event.id ≡ other
    → changed.id ≡ event.id
    → is_held id since changed ≡ true
unfolding is_held
other_held id other since event changed apart same kept =
    let differ : (changed.id == id) ≡ false =
      differs changed.id id (λ path. apart (sym same ∙ sym kept ∙ path)) in
    ground arith
  where
    differs : (a b : Uuid) → a ≢ b → (a == b) ≡ false
    differs a b apart = ground (arith, ==_iff a b)

pub claim-Held :
    (id : Uuid) (since now : ℕ) (db : Database)
    → since ≤ now
    → Held id since db
    → Held id since (claim_outbox_event now db).0
unfolding claim_outbox_event
claim-Held id since now db late held = by_next (next_event now db.outbox)
  where
    by_next :
        (next : Option OutboxEvent)
        → Held id since
            (elim next as (λ n. Database × Option OutboxEvent) [
              | none ↦ (db, none)
              | some event ↦ (update_event event.id (lock now) db, some (lock now event))
            ]).0
    by_next none = held
    by_next (some event) =
        update_event-Held id event.id since (lock now) (λ e same h. lock_held id since now e late)
          db.outbox held
