-- ===== src/Store/Outbox/Delay.antt =====
-- How long a failed delivery waits.
use ipa_rs_hetero_cloud.Prelude.{
  ◌≡◌, refl, ℕ, zero, suc, ◌+◌, ◌≤◌, ◌<◌, ◌^◌, min, max, arith, Bool, true, false, not, ◌&&◌, ◌==◌,
  leb, if◌then◌else◌, none, List, [], ◌∷◌, map, All,
}
use ipa_rs_hetero_cloud.Domain.Vpc.{Uuid}
use ipa_rs_hetero_cloud.Store.Lifecycle.{OutboxEvent, Database}
use ipa_rs_hetero_cloud.Store.Outbox.{claimable, delay_seconds, retry_outbox_event}

short : (n : ℕ) → 1 ≤ n → n ≤ 8 → (2 ≤ min (2 ^ n) 300) × (min (2 ^ n) 300 ≤ 256)
short zero lower upper = absurd (omega arith)
short (suc zero) lower upper = (omega arith, omega arith)
short (suc (suc zero)) lower upper = (omega arith, omega arith)
short (suc (suc (suc zero))) lower upper = (omega arith, omega arith)
short (suc (suc (suc (suc zero)))) lower upper = (omega arith, omega arith)
short (suc (suc (suc (suc (suc zero))))) lower upper = (omega arith, omega arith)
short (suc (suc (suc (suc (suc (suc zero)))))) lower upper = (omega arith, omega arith)
short (suc (suc (suc (suc (suc (suc (suc zero))))))) lower upper = (omega arith, omega arith)
short (suc (suc (suc (suc (suc (suc (suc (suc zero)))))))) lower upper = (omega arith, omega arith)
short (suc (suc (suc (suc (suc (suc (suc (suc (suc n))))))))) lower upper = absurd (omega arith)

delay_seconds_lem : (attempts : ℕ) → (2 ≤ delay_seconds attempts) × (delay_seconds attempts ≤ 256)
unfolding delay_seconds
delay_seconds_lem attempts = short (min (max attempts 1) 8) (omega arith) (omega arith)

-- The event is another one; or it is not claimed at the time `early`, and at the time `late` it is,
-- unless it has been delivered.
abbrev pub Delayed : Uuid → ℕ → ℕ → OutboxEvent → Type 0
Delayed id early late event =
    ((event.id == id && claimable early event) ≡ false)
    × ((event.id == id && claimable late event) ≡ (event.id == id && not event.is_delivered))

retried_Delayed :
    (id : Uuid) (attempts now early late : ℕ) (event : OutboxEvent)
    → early < now + 2
    → now + 256 ≤ late
    → event.is_delivered ≡ false
    → Delayed id early late
        (record event { locked_at = none; available_at = now + delay_seconds attempts })
unfolding claimable
retried_Delayed id attempts now early late event soon enough waiting =
    let (lower, upper) = delay_seconds_lem attempts in
    let unavailable : leb (now + delay_seconds attempts) early ≡ false = ground arith in
    let available : leb (now + delay_seconds attempts) late ≡ true = ground arith in
    rw (unavailable, available, waiting) (ground arith, ground arith)

delivered_Delayed :
    (id : Uuid) (early late : ℕ) (event : OutboxEvent)
    → event.is_delivered ≡ true
    → Delayed id early late event
unfolding claimable
delivered_Delayed id early late event closed = rw closed (ground arith, ground arith)

other_Delayed :
    (id : Uuid) (early late : ℕ) (event : OutboxEvent)
    → (event.id == id) ≡ false
    → Delayed id early late event
other_Delayed id early late event apart = rw apart (refl, refl)

-- Behind a failed delivery the event with its id, if it has not been delivered otherwise, is not
-- claimable within 2 seconds, and is claimable once 256 seconds have passed, however often it has
-- failed.
pub retry_outbox_event-Delayed :
    (id : Uuid) (attempts now early late : ℕ) (db : Database)
    → early < now + 2
    → now + 256 ≤ late
    → All (Delayed id early late) (retry_outbox_event id attempts now db).outbox
unfolding retry_outbox_event
retry_outbox_event-Delayed id attempts now early late db soon enough = each db.outbox
  where
    retried : OutboxEvent → OutboxEvent
    retried event =
        if event.is_delivered
        then event
        else record event { locked_at = none; available_at = now + delay_seconds attempts }

    by_delivery :
        (event : OutboxEvent) (b : Bool)
        → event.is_delivered ≡ b
        → Delayed id early late (
            if b
            then event
            else record event { locked_at = none; available_at = now + delay_seconds attempts })
    by_delivery event true e = delivered_Delayed id early late event e
    by_delivery event false e = retried_Delayed id attempts now early late event soon enough e

    by_id :
        (event : OutboxEvent) (b : Bool)
        → (event.id == id) ≡ b
        → Delayed id early late (if b then retried event else event)
    by_id event true e = by_delivery event event.is_delivered refl
    by_id event false e = other_Delayed id early late event e

    each :
        (events : List OutboxEvent)
        → All
            (Delayed id early late)
            (map (λ event. if event.id == id then retried event else event) events)
    each [] = tt
    each (event ∷ rest) = (by_id event (event.id == id) refl, each rest)
