-- ===== src/Store/QuotaExamples.antt =====
-- An organization with the default limits and two members.
use ipa_rs_hetero_cloud.Prelude.{◌≡◌, refl, ℕ, true, false, some, [], ◌∷◌, ok, err, arith, none}
use ipa_rs_hetero_cloud.Domain.Quota.{ResourceQuotaLimits, default_limits, validate}
use ipa_rs_hetero_cloud.Domain.Flow.{FlowSpec}
use ipa_rs_hetero_cloud.Store.MemberAllocation.{flow, AllocationError, validate_member_allocation}
use ipa_rs_hetero_cloud.Store.MemberAllocation.Smaller.{validate_member_allocation-Smaller}
use ipa_rs_hetero_cloud.Store.LoginState.{is_member}
use ipa_rs_hetero_cloud.Store.MemberQuotas.{
  MemberStore, MemberQuotaError, member_quota_in_transaction,
}
use ipa_rs_hetero_cloud.Store.MemberQuotas.Settings.{set_member_resource_quota}
use ipa_rs_hetero_cloud.Store.MemberQuotas.Allotted.{
  AllValid, Allotted, member_quota_in_transaction-Allotted,
}
use ipa_rs_hetero_cloud.Store.MemberQuotas.Current.{
  member_quota_in_transaction-set_member_resource_quota,
}

abbrev pub with_services : ℕ → ResourceQuotaLimits
with_services n = record default_limits { flow = record default_limits.flow { max_services = n } }

-- The second member's limit on services is from a time when the organization had more of them.
abbrev pub members : MemberStore
members = record {
  memberships =
      record { organization_id = 1; user_id = 2; is_enabled = true; is_active = true }
      ∷ record { organization_id = 1; user_id = 3; is_enabled = true; is_active = true }
      ∷ [];
  overrides = record { organization_id = 1; user_id = 3; limits = with_services 200 } ∷ [];
}

abbrev pub with_personal : MemberStore
with_personal = record members {
  overrides =
      record { organization_id = 1; user_id = 2; limits = with_services 50 } ∷ members.overrides;
}

capped_services : member_quota_in_transaction 1 3 default_limits members ≡ ok default_limits
unfolding member_quota_in_transaction
capped_services = refl

stranger : member_quota_in_transaction 1 4 default_limits members ≡ err MemberQuotaError.no_member
unfolding member_quota_in_transaction
stranger = refl

too_much :
    set_member_resource_quota 1 2 default_limits false (some (with_services 101)) members
    ≡ err MemberQuotaError.above_organization
unfolding set_member_resource_quota
too_much = refl

defaults_valid : validate default_limits ≡ ok tt
unfolding validate
defaults_valid = refl

all_valid : AllValid members.overrides
unfolding validate
all_valid = (refl, tt)

third_member : is_member 1 3 members.memberships ≡ true
unfolding is_member
third_member = refl

member_quota_in_transaction-Allotted_example :
    Allotted default_limits (member_quota_in_transaction 1 3 default_limits members)
member_quota_in_transaction-Allotted_example =
    member_quota_in_transaction-Allotted 1 3 default_limits members defaults_valid all_valid
      third_member

set_personal :
    set_member_resource_quota 1 2 default_limits false (some (with_services 50)) members
    ≡ ok (with_services 50, with_personal)
unfolding set_member_resource_quota
set_personal = refl

member_quota_in_transaction-set_member_resource_quota_example :
    member_quota_in_transaction 1 2 default_limits with_personal ≡ ok (with_services 50)
member_quota_in_transaction-set_member_resource_quota_example =
    member_quota_in_transaction-set_member_resource_quota 1 2 2 default_limits false
      (some (with_services 50)) members with_personal (with_services 50) set_personal

-- A service of 500,000 rooms, from before the organization's limit was lowered to 1000.
abbrev pub rooms_spec : ℕ → FlowSpec
rooms_spec rooms = record {
  region = "ap";
  max_participants = 10;
  max_rooms = rooms;
  rate_limit = record { requests_per_second = 10; burst = 10 };
  metadata_is_object = true;
}

abbrev pub lowered : ResourceQuotaLimits
lowered = record default_limits {
  flow = record default_limits.flow { max_rooms_per_service = 1000; max_total_rooms = 1000 };
}

own_limits : member_quota_in_transaction 1 2 lowered members ≡ ok lowered
unfolding member_quota_in_transaction
own_limits = refl

validate_member_allocation-Smaller_example :
    validate_member_allocation 1 2 lowered members
      (flow (rooms_spec 600) ∷ [])
      (some (flow (rooms_spec 500000)))
      (flow (rooms_spec 400000))
    ≡ ok tt
validate_member_allocation-Smaller_example =
    validate_member_allocation-Smaller 1 2 lowered lowered members (flow (rooms_spec 600) ∷ [])
      (flow (rooms_spec 500000)) (flow (rooms_spec 400000)) own_limits
      (omega arith, omega arith, omega arith, omega arith)

-- The same is refused where no reduction is allowed, as for a start.
start_refused :
    validate_member_allocation 1 2 lowered members
      (flow (rooms_spec 600) ∷ [])
      none
      (flow (rooms_spec 400000))
    ≡ err AllocationError.exceeds_quota
unfolding validate_member_allocation
start_refused = refl
