-- ===== src/Store/MemberQuotas/Overrides.antt =====
-- The table of personal limits behind a deletion.
use ipa_rs_hetero_cloud.Prelude.{
  ◌≡◌, refl, Bool, true, false, arith, List, [], ◌∷◌, none, ◌==◌, ==_iff, if◌then◌else◌,
}
use ipa_rs_hetero_cloud.Domain.Vpc.{Uuid}
use ipa_rs_hetero_cloud.Store.LoginState.{keep_rows}
use ipa_rs_hetero_cloud.Store.MemberQuotas.{OverrideRow, find_override}
use ipa_rs_hetero_cloud.Store.MemberQuotas.Settings.{is_override}
use ipa_rs_hetero_cloud.Store.MemberQuotas.Checked.{both_true}

pub find_override-keep_rows_same :
    (organization_id user_id : Uuid) (rows : List OverrideRow)
    → find_override organization_id user_id (keep_rows (is_override organization_id user_id) rows)
      ≡ none
unfolding find_override keep_rows
find_override-keep_rows_same organization_id user_id [] = refl
find_override-keep_rows_same organization_id user_id (row ∷ rest) =
    by_key (is_override organization_id user_id row) refl
      (find_override-keep_rows_same organization_id user_id rest)
  where
    by_key :
        (b : Bool)
        → is_override organization_id user_id row ≡ b
        → find_override organization_id user_id
            (keep_rows (is_override organization_id user_id) rest)
          ≡ none
        → find_override organization_id user_id (
            if b
            then keep_rows (is_override organization_id user_id) rest
            else row ∷ keep_rows (is_override organization_id user_id) rest)
          ≡ none
    by_key true e ih = ih
    by_key false e ih = ground arith

pub find_override-keep_rows :
    (organization_id user_id other : Uuid) (rows : List OverrideRow)
    → (user_id == other) ≡ false
    → find_override organization_id other (keep_rows (is_override organization_id user_id) rows)
      ≡ find_override organization_id other rows
unfolding find_override keep_rows
find_override-keep_rows organization_id user_id other [] apart = refl
find_override-keep_rows organization_id user_id other (row ∷ rest) apart =
    by_key (is_override organization_id user_id row) refl
      (find_override-keep_rows organization_id user_id other rest apart)
  where
    not_both : (row.user_id == user_id) ≡ true → (row.user_id == other) ≡ false
    not_both e = ground (arith, ==_iff row.user_id user_id)

    by_key :
        (b : Bool)
        → is_override organization_id user_id row ≡ b
        → find_override organization_id other (keep_rows (is_override organization_id user_id) rest)
          ≡ find_override organization_id other rest
        → find_override organization_id other (
            if b
            then keep_rows (is_override organization_id user_id) rest
            else row ∷ keep_rows (is_override organization_id user_id) rest)
          ≡ find_override organization_id other (row ∷ rest)
    by_key true e ih =
        let own =
          (both_true (row.organization_id == organization_id) (row.user_id == user_id) e).1 in
        let not_other = not_both own in ground arith
    by_key false e ih = ground arith
