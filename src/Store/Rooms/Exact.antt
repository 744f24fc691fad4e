-- ===== src/Store/Rooms/Exact.antt =====
-- The tests of Flow reservations by exact sums, in any order of the rows.
use ipa_rs_hetero_cloud.Prelude.{
  ◌≡◌, ◌↔◌, refl, sym, ap, subst, ℕ, ◌+◌, ◌<◌, ◌≤◌, ◌^◌, Bool, true, false, Option, List, [], ◌∷◌,
  Perm, arith, min, if◌then◌else◌, ltb, ok, ◌>>◌, ◌⊗◌, passes_iff, ◌⨾◌, checked_iff, ltb-false_iff,
  ◌||◌, sum_of, sum-perm,
}
use ipa_rs_hetero_cloud.Domain.Vpc.{Uuid}
use ipa_rs_hetero_cloud.Domain.Quota.{FlowQuotaLimits, ResourceQuotaLimits, validate}
use ipa_rs_hetero_cloud.Domain.Quota.Consistent.{validate-Consistent}
use ipa_rs_hetero_cloud.Domain.Flow.{FlowSpec}
use ipa_rs_hetero_cloud.Store.Rooms.{
  u64_max, saturating_add, FlowAllocationRow, FlowRejection, rooms_per_service, participants,
  rate_limit, FlowUsage, is_left_out, flow_usage, check_flow_service, check_flow_usage,
  prepare_flow_spec,
}

-- The services of the rows that count, and their rooms.
abbrev pub counted : Option Uuid → List FlowAllocationRow → ℕ
counted excluded = sum_of (λ row. if is_left_out excluded row.id then 0 else 1)

abbrev pub rooms_of : Option Uuid → List FlowAllocationRow → ℕ
rooms_of excluded = sum_of (λ row. if is_left_out excluded row.id then 0 else row.spec.max_rooms)

abbrev added : FlowUsage → FlowAllocationRow → FlowUsage
added usage row = record {
  services = usage.services + 1;
  rooms = saturating_add usage.rooms row.spec.max_rooms;
}

flow_usage-exact :
    (excluded : Option Uuid) (usage : FlowUsage) (rows : List FlowAllocationRow)
    → usage.rooms ≤ u64_max
    → ((flow_usage excluded usage rows).services ≡ usage.services + counted excluded rows)
      × ((flow_usage excluded usage rows).rooms
          ≡ min (usage.rooms + rooms_of excluded rows) u64_max)
unfolding flow_usage
flow_usage-exact excluded usage [] h = (omega arith, omega arith)
flow_usage-exact excluded usage (row ∷ rest) h =
    by_test (is_left_out excluded row.id) refl (flow_usage-exact excluded usage rest h)
      (flow_usage-exact excluded (added usage row) rest (omega arith))
  where
    Counts : FlowUsage → Type 0
    Counts u =
        (u.services ≡ usage.services + counted excluded (row ∷ rest))
        × (u.rooms ≡ min (usage.rooms + rooms_of excluded (row ∷ rest)) u64_max)

    step :
        (b : Bool)
        → is_left_out excluded row.id ≡ b
        → flow_usage excluded usage (row ∷ rest)
          ≡ flow_usage excluded (if b then usage else added usage row) rest
    step b e = ap (λ t. flow_usage excluded (if t then usage else added usage row) rest) e

    by_test :
        (b : Bool)
        → is_left_out excluded row.id ≡ b
        → ((flow_usage excluded usage rest).services ≡ usage.services + counted excluded rest)
          × ((flow_usage excluded usage rest).rooms
              ≡ min (usage.rooms + rooms_of excluded rest) u64_max)
        → ((flow_usage excluded (added usage row) rest).services
            ≡ usage.services + 1 + counted excluded rest)
          × ((flow_usage excluded (added usage row) rest).rooms
              ≡ min ((added usage row).rooms + rooms_of excluded rest) u64_max)
        → Counts (flow_usage excluded usage (row ∷ rest))
    by_test true e same more = subst Counts (sym (step true e)) (rw e (omega arith))
    by_test false e same more = subst Counts (sym (step false e)) (rw e (omega arith))

abbrev pub Fits : Option Uuid → FlowQuotaLimits → List FlowAllocationRow → FlowSpec → Type 0
Fits excluded quota rows requested =
    ((requested.max_rooms ≤ quota.max_rooms_per_service)
      ⊗ (requested.max_participants ≤ quota.max_participants_per_service)
      ⊗ ((requested.rate_limit.requests_per_second ≤ quota.max_rate_limit_requests_per_second)
          × (requested.rate_limit.burst ≤ quota.max_rate_limit_burst)))
    ⊗ (1 + counted excluded rows ≤ quota.max_services)
    ⊗ (requested.max_rooms + rooms_of excluded rows ≤ quota.max_total_rooms)

either_over : (a b c d : ℕ) → ((ltb a b || ltb c d) ≡ false) ↔ ((b ≤ a) × (d ≤ c))
either_over a b c d = ground arith

service_iff :
    (quota : FlowQuotaLimits) (requested : FlowSpec)
    → (check_flow_service quota requested ≡ ok tt) ↔ (
        (requested.max_rooms ≤ quota.max_rooms_per_service)
        ⊗ (requested.max_participants ≤ quota.max_participants_per_service)
        ⊗ ((requested.rate_limit.requests_per_second ≤ quota.max_rate_limit_requests_per_second)
            × (requested.rate_limit.burst ≤ quota.max_rate_limit_burst)))
unfolding check_flow_service
service_iff quota requested =
    passes_iff rooms_per_service (ltb-false_iff quota.max_rooms_per_service requested.max_rooms)
    ⨾ passes_iff participants
        (ltb-false_iff quota.max_participants_per_service requested.max_participants)
    ⨾ passes_iff rate_limit (
        either_over quota.max_rate_limit_requests_per_second
          requested.rate_limit.requests_per_second quota.max_rate_limit_burst
          requested.rate_limit.burst)

usage_iff :
    (quota : FlowQuotaLimits) (usage : FlowUsage) (services rooms : ℕ)
    → usage.services ≡ services
    → usage.rooms ≡ min rooms u64_max
    → quota.max_total_rooms < u64_max
    → (check_flow_usage quota usage ≡ ok tt)
      ↔ ((services ≤ quota.max_services) ⊗ (rooms ≤ quota.max_total_rooms))
unfolding check_flow_usage
usage_iff quota usage services rooms s r bound =
    passes_iff FlowRejection.services (services_iff quota.max_services usage.services s)
    ⨾ passes_iff FlowRejection.total_rooms (rooms_iff quota.max_total_rooms usage.rooms r bound)
  where
    services_iff : (limit n : ℕ) → n ≡ services → (ltb limit n ≡ false) ↔ (services ≤ limit)
    services_iff limit n e = ground arith

    rooms_iff :
        (limit n : ℕ)
        → n ≡ min rooms u64_max
        → limit < u64_max
        → (ltb limit n ≡ false) ↔ (rooms ≤ limit)
    rooms_iff limit n e below = ground arith

-- A Flow specification is accepted exactly when it keeps to the limits of one service, and the
-- services and rooms of the tenant, added up without a bound, keep to the limits of the tenant; the
-- limits are valid ones, and the requested rooms are a 32-bit number.
pub prepare_flow_spec_iff :
    (excluded : Option Uuid) (limits : ResourceQuotaLimits) (rows : List FlowAllocationRow)
    (requested : FlowSpec)
    → validate limits ≡ ok tt
    → requested.max_rooms < 2 ^ 32
    → (prepare_flow_spec excluded limits.flow rows requested ≡ ok requested)
      ↔ Fits excluded limits.flow rows requested
unfolding prepare_flow_spec
prepare_flow_spec_iff excluded limits rows requested valid word =
    let first : FlowUsage = record { services = 1; rooms = requested.max_rooms } in
    let (services, rooms) = flow_usage-exact excluded first rows (omega arith) in
    let flow = ((validate-Consistent limits).0 valid).0 in
    let bound : limits.flow.max_total_rooms < u64_max = omega arith in
    let tests =
      service_iff limits.flow requested
      ⨾ usage_iff limits.flow (flow_usage excluded first rows) _ _ services rooms bound in
    let checked =
      checked_iff (check_flow_service limits.flow requested)
        (check_flow_usage limits.flow (flow_usage excluded first rows)) requested in
    (λ h. tests.0 (checked.0 h), λ fits. checked.1 (tests.1 fits))

-- The answer to a 32-bit number of rooms does not depend on the order in which the rows come.
pub prepare_flow_spec-perm :
    (excluded : Option Uuid) (quota : FlowQuotaLimits) (rows others : List FlowAllocationRow)
    (requested : FlowSpec)
    → requested.max_rooms < 2 ^ 32
    → Perm rows others
    → prepare_flow_spec excluded quota rows requested
      ≡ prepare_flow_spec excluded quota others requested
unfolding prepare_flow_spec
prepare_flow_spec-perm excluded quota rows others requested word d =
    let first : FlowUsage = record { services = 1; rooms = requested.max_rooms } in
    let (s, r) = flow_usage-exact excluded first rows (omega arith) in
    let (s', r') = flow_usage-exact excluded first others (omega arith) in
    let services = sum-perm (λ row. if is_left_out excluded row.id then 0 else 1) d in
    let rooms = sum-perm (λ row. if is_left_out excluded row.id then 0 else row.spec.max_rooms) d in
    let same : flow_usage excluded first rows ≡ flow_usage excluded first others = ground arith in
    ap (λ u. check_flow_service quota requested >> (check_flow_usage quota u >> ok requested)) same
