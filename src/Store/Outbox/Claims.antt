-- ===== src/Store/Outbox/Claims.antt =====
-- Which event a claim takes, and for how long no other claim takes it: `claim_outbox_event`.
use ipa_rs_hetero_cloud.Prelude.{
  ◌≡◌, refl, sym, subst, inl, inr, ℕ, ◌+◌, Bool, true, false, Option, none, some, if◌then◌else◌,
  List, [], ◌∷◌, arith, All, Any, filter,
}
use ipa_rs_hetero_cloud.Store.Lifecycle.{OutboxEvent, Database}
use ipa_rs_hetero_cloud.Store.Outbox.{
  claimable, comes_first, next_event, claim_outbox_event, update_event,
}

-- The event is one of these, and none of them comes before it.
abbrev pub FirstOf : Option OutboxEvent → List OutboxEvent → Type 0
FirstOf none events = events ≡ []
FirstOf (some event) events =
    Any (λ other. other ≡ event) events × All (λ other. comes_first event other ≡ true) events

comes_first_self : (event : OutboxEvent) → comes_first event event ≡ true
unfolding comes_first
comes_first_self event = ground arith

comes_first_trans :
    (a b c : OutboxEvent) → comes_first a b ≡ true → comes_first b c ≡ true → comes_first a c ≡ true
unfolding comes_first
comes_first_trans a b c = ground arith

comes_first_total : (a b : OutboxEvent) → comes_first a b ≡ false → comes_first b a ≡ true
unfolding comes_first
comes_first_total a b = ground arith

first_behind :
    (a b : OutboxEvent) (events : List OutboxEvent)
    → comes_first a b ≡ true
    → All (λ other. comes_first b other ≡ true) events
    → All (λ other. comes_first a other ≡ true) events
first_behind a b [] before all = tt
first_behind a b (c ∷ rest) before all =
    (comes_first_trans a b c before all.0, first_behind a b rest before all.1)

next_event-FirstOf :
    (now : ℕ) (events : List OutboxEvent)
    → FirstOf (next_event now events) (filter (claimable now) events)
unfolding next_event
next_event-FirstOf now [] = refl
next_event-FirstOf now (event ∷ rest) =
    by_cases (claimable now event) (next_event now rest) (filter (claimable now) rest)
      (next_event-FirstOf now rest)
  where
    by_cases :
        (b : Bool) (later : Option OutboxEvent) (others : List OutboxEvent)
        → FirstOf later others
        → FirstOf
            (if b
              then elim later [
                | none ↦ some event
                | some other ↦ some (if comes_first event other then event else other)
              ]
              else later)
            (elim b [ true ↦ event ∷ others | false ↦ others ])
    by_cases false later others first = first
    by_cases true none others first =
        subst (λ l. FirstOf (some event) (event ∷ l)) (sym first)
          (inl refl, (comes_first_self event, tt))
    by_cases true (some other) others first = by_order (comes_first event other) refl
      where
        by_order :
            (b : Bool)
            → comes_first event other ≡ b
            → FirstOf (some (if b then event else other)) (event ∷ others)
        by_order true e =
            (inl refl, (comes_first_self event, first_behind event other others e first.1))
        by_order false e = (inr first.0, (comes_first_total event other e, first.1))

abbrev pub lock : ℕ → OutboxEvent → OutboxEvent
lock now event = record event { locked_at = some now; attempts = event.attempts + 1 }

-- A claim leaves everything as it is if no event is claimable, and otherwise locks the first one.
abbrev pub Claims : ℕ → Database → Database × Option OutboxEvent → Type 0
Claims now db (after, none) = (after ≡ db) × FirstOf none (filter (claimable now) db.outbox)
Claims now db (after, some claimed) =
    (event : OutboxEvent) × FirstOf (some event) (filter (claimable now) db.outbox)
    × (claimed ≡ lock now event)
    × (after ≡ update_event event.id (lock now) db)

-- A claim takes nothing and changes nothing if no event is claimable. Otherwise it takes a claimable
-- event that no other claimable one comes before, by its time and then its id, and locks it.
pub claim_outbox_event-Claims :
    (now : ℕ) (db : Database) → Claims now db (claim_outbox_event now db)
unfolding claim_outbox_event
claim_outbox_event-Claims now db =
    by_next (next_event now db.outbox) (next_event-FirstOf now db.outbox)
  where
    by_next :
        (next : Option OutboxEvent)
        → FirstOf next (filter (claimable now) db.outbox)
        → Claims now db (elim next [
          | none ↦ (db, none)
          | some event ↦ (update_event event.id (lock now) db, some (lock now event))
        ])
    by_next none first = (refl, first)
    by_next (some event) first = (event, first, refl, refl)
