-- ===== src/Store/OutboxExamples.antt =====
-- Two events and three claims.
use ipa_rs_hetero_cloud.Prelude.{◌≡◌, refl, true, false, some, arith, ◌==◌, is_some_and}
use ipa_rs_hetero_cloud.Store.Lifecycle.{OutboxEvent, Database}
use ipa_rs_hetero_cloud.Store.Outbox.{claim_outbox_event, mark_outbox_delivered}
use ipa_rs_hetero_cloud.Store.Outbox.Claims.{Claims, lock, claim_outbox_event-Claims}
use ipa_rs_hetero_cloud.Store.Outbox.Leases.{claim_outbox_event-claim_outbox_event}
use ipa_rs_hetero_cloud.Store.Outbox.Holds.{Meanwhile, nothing, claimed, delivered}
use ipa_rs_hetero_cloud.Store.Examples.{stopping, first_event}

abbrev pub held_event : OutboxEvent
held_event = lock 60 first_event

-- Behind the first claim.
abbrev pub one_held : Database
one_held = (claim_outbox_event 60 stopping).0

abbrev pub both_held : Database
both_held = (claim_outbox_event 70 one_held).0

first_taken : (claim_outbox_event 60 stopping).1 ≡ some held_event
unfolding claim_outbox_event
first_taken = refl

claim_outbox_event-Claims_example : Claims 60 stopping (claim_outbox_event 60 stopping)
claim_outbox_event-Claims_example = claim_outbox_event-Claims 60 stopping

other_delivered :
    Meanwhile held_event.id 60
      (claim_outbox_event 60 stopping).0
      (mark_outbox_delivered 101 both_held)
other_delivered = claimed 70 one_held (mark_outbox_delivered 101 both_held) (omega arith) (
    delivered 101 both_held (mark_outbox_delivered 101 both_held) (omega arith)
      (nothing (mark_outbox_delivered 101 both_held)))

claim_outbox_event-claim_outbox_event_example :
    is_some_and
      (λ other. other.id == held_event.id)
      (claim_outbox_event 180 (mark_outbox_delivered 101 both_held)).1
    ≡ false
claim_outbox_event-claim_outbox_event_example =
    claim_outbox_event-claim_outbox_event 60 180 stopping (mark_outbox_delivered 101 both_held)
      held_event first_taken other_delivered (omega arith)

-- Two minutes and a second after the claim, the event is free again.
taken_again :
    is_some_and
      (λ other. other.id == held_event.id)
      (claim_outbox_event 181 (mark_outbox_delivered 101 both_held)).1
    ≡ true
unfolding claim_outbox_event mark_outbox_delivered
taken_again = refl
