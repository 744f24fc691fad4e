-- ===== src/Store/Rooms.antt =====
-- What Flow services reserve for a tenant: `prepare_flow_spec` of crates/heterocloud-store/src/lib.rs.
pub mod Exact
use ipa_rs_hetero_cloud.Prelude.{
  ℕ, ◌+◌, ◌^◌, ◌-◌, Bool, ◌||◌, Option, List, [], ◌∷◌, min, if◌then◌else◌, ltb, ◌==◌, is_some_and,
  Result, ok, err, ◌>>◌, reject_if,
}
use ipa_rs_hetero_cloud.Domain.Vpc.{Uuid}
use ipa_rs_hetero_cloud.Domain.Quota.{FlowQuotaLimits}
use ipa_rs_hetero_cloud.Domain.Flow.{FlowSpec}

-- `u64::MAX` and `u64::saturating_add`
abbrev pub u64_max : ℕ
u64_max = 2 ^ 64 - 1

abbrev pub saturating_add : ℕ → ℕ → ℕ
saturating_add a b = min (a + b) u64_max

pub record FlowAllocationRow : Type 0 where
  pub id : Uuid
  pub spec : FlowSpec

-- The messages of `RequestRejected`, by the limit that they name.
pub data FlowRejection : Type 0 where
  rooms_per_service participants rate_limit services total_rooms : FlowRejection

pub record FlowUsage : Type 0 where
  pub services : ℕ
  pub rooms : ℕ

-- `excluded_service_id.is_some_and(|id| id.0 == row.id)`
abbrev pub is_left_out : Option Uuid → Uuid → Bool
is_left_out excluded id = is_some_and (λ e. e == id) excluded

-- The loop over the tenant's rows that are not being deleted. The number of services is a `u64` too,
-- and counts rows.
unfoldable pub flow_usage : Option Uuid → FlowUsage → List FlowAllocationRow → FlowUsage
flow_usage excluded usage [] = usage
flow_usage excluded usage (row ∷ rest) =
    flow_usage excluded
      (if is_left_out excluded row.id then usage else record {
        services = usage.services + 1;
        rooms = saturating_add usage.rooms row.spec.max_rooms;
      })
      rest

unfoldable pub check_flow_service : FlowQuotaLimits → FlowSpec → Result FlowRejection (Unit {0})
check_flow_service quota requested = do
  reject_if (ltb quota.max_rooms_per_service requested.max_rooms) rooms_per_service
  reject_if (ltb quota.max_participants_per_service requested.max_participants) participants
  reject_if
      (ltb quota.max_rate_limit_requests_per_second requested.rate_limit.requests_per_second
        || ltb quota.max_rate_limit_burst requested.rate_limit.burst)
      rate_limit

unfoldable pub check_flow_usage : FlowQuotaLimits → FlowUsage → Result FlowRejection (Unit {0})
check_flow_usage quota usage = do
  reject_if (ltb quota.max_services usage.services) services
  reject_if (ltb quota.max_total_rooms usage.rooms) total_rooms

unfoldable pub prepare_flow_spec :
    Option Uuid
    → FlowQuotaLimits
    → List FlowAllocationRow
    → FlowSpec
    → Result FlowRejection FlowSpec
unfolding flow_usage check_flow_service check_flow_usage
prepare_flow_spec excluded quota rows requested = do
  check_flow_service quota requested
  check_flow_usage quota
      (flow_usage excluded (record { services = 1; rooms = requested.max_rooms }) rows)
  ok requested
