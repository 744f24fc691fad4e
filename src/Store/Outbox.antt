-- ===== src/Store/Outbox.antt =====
-- The outbox of crates/heterocloud-store/src/lib.rs: claims, deliveries and retries of events.
pub mod Delay
pub mod Claims
pub mod Holds
pub mod Leases
use ipa_rs_hetero_cloud.Prelude.{
  ℕ, ◌+◌, ◌^◌, String, Bool, true, false, not, ◌&&◌, ◌||◌, Option, none, some, List, [], ◌∷◌, map,
  min, max, if◌then◌else◌, ltb, leb, ◌==◌, any, is_some_and, Result, ok, err, ◌>>=◌, ◌>>◌,
  reject_if, str_eq,
}
use ipa_rs_hetero_cloud.Domain.Vpc.{Uuid}
use ipa_rs_hetero_cloud.Store.Lifecycle.{OutboxEvent, Database}

abbrev pub update_event : Uuid → (OutboxEvent → OutboxEvent) → Database → Database
update_event id change db = record db {
  outbox = map (λ event. if event.id == id then change event else event) db.outbox;
}

-- `delivered_at IS NULL AND available_at <= now() AND (locked_at IS NULL OR ...)`
unfoldable pub claimable : ℕ → OutboxEvent → Bool
claimable now event =
    not event.is_delivered
    && (leb event.available_at now
        && not (is_some_and (λ locked. leb now (locked + 120)) event.locked_at))

-- `ORDER BY available_at, id LIMIT 1`
unfoldable pub comes_first : OutboxEvent → OutboxEvent → Bool
comes_first a b =
    ltb a.available_at b.available_at || a.available_at == b.available_at && leb a.id b.id

unfoldable pub next_event : ℕ → List OutboxEvent → Option OutboxEvent
unfolding claimable comes_first
next_event now [] = none
next_event now (event ∷ rest) =
    let later = next_event now rest in
    if claimable now event
    then elim later [
      | none ↦ some event
      | some other ↦ some (if comes_first event other then event else other)
    ]
    else later

-- `claim_outbox_event`: the database afterwards and the event that was claimed.
unfoldable pub claim_outbox_event : ℕ → Database → Database × Option OutboxEvent
unfolding next_event
claim_outbox_event now db = elim (next_event now db.outbox) [
  | none ↦ (db, none)
  | some event ↦ (
    update_event event.id (λ e. record e { locked_at = some now; attempts = e.attempts + 1 }) db,
    some (record event { locked_at = some now; attempts = event.attempts + 1 }),
  )
]

unfoldable pub mark_outbox_delivered : Uuid → Database → Database
mark_outbox_delivered id db =
    update_event id (λ event. record event { locked_at = none; is_delivered = true }) db

-- `2_i32.saturating_pow(attempts.clamp(1, 8)).min(300)`
unfoldable pub delay_seconds : ℕ → ℕ
delay_seconds attempts = min (2 ^ min (max attempts 1) 8) 300

unfoldable pub retry_outbox_event : Uuid → ℕ → ℕ → Database → Database
unfolding delay_seconds
retry_outbox_event id attempts now db =
    update_event id
      (λ event.
        if event.is_delivered
        then event
        else record event { locked_at = none; available_at = now + delay_seconds attempts })
      db
