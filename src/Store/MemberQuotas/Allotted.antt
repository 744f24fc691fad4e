-- ===== src/Store/MemberQuotas/Allotted.antt =====
-- What the members are allotted: limits within the organization's.
use ipa_rs_hetero_cloud.Prelude.{
  ◌≡◌, sym, ap, subst, ◌∙◌, Bool, true, false, not, ◌&&◌, Result, ok, err, ◌>>◌, ◌>>=◌, List, [],
  ◌∷◌, Option, none, some, All, ◌==◌, if◌then◌else◌, reject_if,
}
use ipa_rs_hetero_cloud.Domain.Vpc.{Uuid}
use ipa_rs_hetero_cloud.Domain.Quota.{ResourceQuotaLimits, validate}
use ipa_rs_hetero_cloud.Store.LoginState.{is_member}
use ipa_rs_hetero_cloud.Store.MemberQuotas.{
  OverrideRow, MemberStore, MemberQuotaError, no_member, capped_limits, find_override,
  effective_limits, member_quota_in_transaction,
}
use ipa_rs_hetero_cloud.Store.MemberQuotas.Capped.{
  AtMost, AtMost-same, shared-AtMost, capped_limits_lem, parse_valid,
}

abbrev pub AllValid : List OverrideRow → Type 0
AllValid rows = All (λ row. validate row.limits ≡ ok tt) rows

-- The limits of a member are valid and nowhere above those of the organization.
abbrev pub Allotted : ResourceQuotaLimits → Result MemberQuotaError ResourceQuotaLimits → Type 0
Allotted organization (err e) = ⊥
Allotted organization (ok limits) = (validate limits ≡ ok tt) × AtMost limits organization

abbrev pub ValidIfAny : Option ResourceQuotaLimits → Type 0
ValidIfAny none = Unit
ValidIfAny (some limits) = validate limits ≡ ok tt

pub effective_limits-Allotted :
    (organization : ResourceQuotaLimits) (slot : Option ResourceQuotaLimits)
    → validate organization ≡ ok tt
    → ValidIfAny slot
    → Allotted organization (effective_limits organization slot)
unfolding effective_limits
effective_limits-Allotted organization none org own = (org, AtMost-same organization)
effective_limits-Allotted organization (some stored) org own =
    let (capped, valid) = capped_limits_lem organization stored org own in
    subst (Allotted organization)
      (sym (ap (λ m. m >>= capped_limits organization) (parse_valid stored own) ∙ capped))
      (valid, shared-AtMost stored organization)

find_override-ValidIfAny :
    (organization_id user_id : Uuid) (rows : List OverrideRow)
    → AllValid rows
    → ValidIfAny (find_override organization_id user_id rows)
unfolding find_override
find_override-ValidIfAny organization_id user_id [] valid = tt
find_override-ValidIfAny organization_id user_id (row ∷ rest) valid =
    by_key (row.organization_id == organization_id && row.user_id == user_id)
      (find_override-ValidIfAny organization_id user_id rest valid.1)
  where
    by_key :
        (b : Bool)
        → ValidIfAny (find_override organization_id user_id rest)
        → ValidIfAny (if b then some row.limits else find_override organization_id user_id rest)
    by_key true later = valid.0
    by_key false later = later

-- If the limits of the organization and all stored personal limits are valid, every member has
-- limits: they are valid, and none of them is above the organization's, whatever it was when the
-- personal limits were stored.
pub member_quota_in_transaction-Allotted :
    (organization_id user_id : Uuid) (organization : ResourceQuotaLimits) (db : MemberStore)
    → validate organization ≡ ok tt
    → AllValid db.overrides
    → is_member organization_id user_id db.memberships ≡ true
    → Allotted organization (member_quota_in_transaction organization_id user_id organization db)
unfolding member_quota_in_transaction
member_quota_in_transaction-Allotted organization_id user_id organization db org valid member =
    subst
      (λ b. Allotted organization (
        reject_if (not b) no_member
        >> effective_limits organization (find_override organization_id user_id db.overrides)))
      (sym member)
      (effective_limits-Allotted organization (find_override organization_id user_id db.overrides)
        org (find_override-ValidIfAny organization_id user_id db.overrides valid))
