-- ===== src/Store/MemberQuotas/Current.antt =====
-- Which limits hold for the members after a change.
use ipa_rs_hetero_cloud.Prelude.{
  then_ok, ok_inj, ◌≡◌, refl, sym, ap, subst, ◌∙◌, Bool, true, false, not, ◌&&◌, arith, Result, ok,
  ◌>>◌, List, Option, none, some, ◌==◌, ==_iff, if◌then◌else◌, reject_if, reject_if_ok,
}
use ipa_rs_hetero_cloud.Domain.Vpc.{Uuid}
use ipa_rs_hetero_cloud.Domain.Quota.{ResourceQuotaLimits}
use ipa_rs_hetero_cloud.Store.LoginState.{is_member, keep_rows}
use ipa_rs_hetero_cloud.Store.MemberQuotas.{
  OverrideRow, MemberStore, MemberQuotaError, no_member, find_override, effective_limits,
  member_quota_in_transaction,
}
use ipa_rs_hetero_cloud.Store.MemberQuotas.Settings.{
  is_override, put_override, check_limits, set_member_resource_quota,
}
use ipa_rs_hetero_cloud.Store.MemberQuotas.Checked.{not_false_lem, check_limits-capped}
use ipa_rs_hetero_cloud.Store.MemberQuotas.Overrides.{
  find_override-keep_rows_same, find_override-keep_rows,
}

module _ (organization_id user_id other : Uuid) (organization : ResourceQuotaLimits)
    (db : MemberStore) where
  -- What the other one has in this table, if the member has these limits in it.
  abbrev pub Holds : ResourceQuotaLimits → List OverrideRow → Type 0
  Holds effective rows =
      effective_limits organization (find_override organization_id other rows) ≡ (
        if user_id == other
        then ok effective
        else effective_limits organization (find_override organization_id other db.overrides))

  removed-Holds : Holds organization (keep_rows (is_override organization_id user_id) db.overrides)
  unfolding effective_limits
  removed-Holds = by_user (user_id == other) refl
    where
      by_user :
          (b : Bool)
          → (user_id == other) ≡ b
          → effective_limits organization (
              find_override organization_id other
                (keep_rows (is_override organization_id user_id) db.overrides))
            ≡ (if b
                then ok organization
                else effective_limits organization
                    (find_override organization_id other db.overrides))
      by_user true e = ap (effective_limits organization) (
          ap
            (λ key.
              find_override organization_id key
                (keep_rows (is_override organization_id user_id) db.overrides))
            (sym ((==_iff user_id other).0 e))
          ∙ find_override-keep_rows_same organization_id user_id db.overrides)
      by_user false e =
          ap (effective_limits organization)
            (find_override-keep_rows organization_id user_id other db.overrides e)

  put-Holds :
      (limits : ResourceQuotaLimits)
      → effective_limits organization (some limits) ≡ ok limits
      → Holds limits (put_override organization_id user_id limits db.overrides)
  unfolding put_override find_override
  put-Holds limits own = by_user (user_id == other) refl
    where
      same_organization : (organization_id == organization_id) ≡ true
      same_organization = (==_iff organization_id organization_id).1 refl

      by_user :
          (b : Bool)
          → (user_id == other) ≡ b
          → effective_limits organization (
              if organization_id == organization_id && user_id == other
              then some limits
              else find_override organization_id other
                  (keep_rows (is_override organization_id user_id) db.overrides))
            ≡ (if b
                then ok limits
                else effective_limits organization
                    (find_override organization_id other db.overrides))
      by_user true e =
          let both : (organization_id == organization_id && user_id == other) ≡ true =
            ground arith in
          subst
            (λ c.
              effective_limits organization (
                if c
                then some limits
                else find_override organization_id other
                    (keep_rows (is_override organization_id user_id) db.overrides))
              ≡ ok limits)
            (sym both) own
      by_user false e =
          let both : (organization_id == organization_id && user_id == other) ≡ false =
            ground arith in
          ap
            (λ c. effective_limits organization (
              if c
              then some limits
              else find_override organization_id other
                  (keep_rows (is_override organization_id user_id) db.overrides)))
            both
          ∙ ap (effective_limits organization)
              (find_override-keep_rows organization_id user_id other db.overrides e)

  Holds_lem :
      (effective : ResourceQuotaLimits) (rows : List OverrideRow)
      → is_member organization_id user_id db.memberships ≡ true
      → Holds effective rows
      → member_quota_in_transaction organization_id other organization
          (record db { overrides = rows })
        ≡ (if user_id == other
            then ok effective
            else member_quota_in_transaction organization_id other organization db)
  unfolding member_quota_in_transaction
  Holds_lem effective rows member holds = by_user (user_id == other) refl holds
    where
      by_user :
          (b : Bool)
          → (user_id == other) ≡ b
          → effective_limits organization (find_override organization_id other rows) ≡ (
              if b
              then ok effective
              else effective_limits organization (find_override organization_id other db.overrides))
          → member_quota_in_transaction organization_id other organization
              (record db { overrides = rows })
            ≡ (if b
                then ok effective
                else member_quota_in_transaction organization_id other organization db)
      by_user true e path =
          let is_other : is_member organization_id other db.memberships ≡ true =
            subst (λ key. is_member organization_id key db.memberships ≡ true)
              ((==_iff user_id other).0 e) member in
          ap
            (λ b.
              reject_if (not b) no_member
              >> effective_limits organization (find_override organization_id other rows))
            is_other
          ∙ path
      by_user false e path =
          ap (λ m. reject_if (not (is_member organization_id other db.memberships)) no_member >> m)
            path

-- A member has from then on the limits that an accepted change of them answers with, and each other
-- member of the organization those from before, as long as the organization's limits stay.
pub member_quota_in_transaction-set_member_resource_quota :
    (organization_id user_id other : Uuid) (organization : ResourceQuotaLimits) (unassigned : Bool)
    (wanted : Option ResourceQuotaLimits) (db after : MemberStore) (effective : ResourceQuotaLimits)
    → set_member_resource_quota organization_id user_id organization unassigned wanted db
      ≡ ok (effective, after)
    → member_quota_in_transaction organization_id other organization after ≡ (
        if user_id == other
        then ok effective
        else member_quota_in_transaction organization_id other organization db)
unfolding set_member_resource_quota
member_quota_in_transaction-set_member_resource_quota organization_id user_id other organization
      unassigned wanted db after effective h =
    let (allowed, rest) = then_ok _ _ (effective, after) h in
    by_wanted wanted (not_false_lem _ (reject_if_ok _ no_member allowed)) rest
  where
    Answered : ResourceQuotaLimits → MemberStore → Type 0
    Answered effective after =
        member_quota_in_transaction organization_id other organization after ≡ (
          if user_id == other
          then ok effective
          else member_quota_in_transaction organization_id other organization db)

    by_wanted :
        (wanted : Option ResourceQuotaLimits)
        → is_member organization_id user_id db.memberships ≡ true
        → elim wanted as (λ w. Result MemberQuotaError (ResourceQuotaLimits × MemberStore)) [
          | none ↦ ok (
            organization,
            record db { overrides = keep_rows (is_override organization_id user_id) db.overrides },
          )
          | some limits ↦
              (check_limits organization unassigned limits
                >> ok (
                  limits,
                  record db {
                    overrides = put_override organization_id user_id limits db.overrides;
                  },
                ))
        ]
          ≡ ok (effective, after)
        → Answered effective after
    by_wanted none member h =
        subst (λ pair. Answered pair.0 pair.1) (ok_inj h)
          (Holds_lem organization_id user_id other organization db organization _ member
            (removed-Holds organization_id user_id other organization db))
    by_wanted (some limits) member h =
        let (checked, path) = then_ok _ _ (effective, after) h in
        subst (λ pair. Answered pair.0 pair.1) (ok_inj path)
          (Holds_lem organization_id user_id other organization db limits _ member (
            put-Holds organization_id user_id other organization db limits
              (check_limits-capped organization limits unassigned checked)))
