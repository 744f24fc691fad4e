-- ===== src/Store/DeviceLogin/Rows.antt =====
-- What holds of every row, through the queries and updates of the device login.
use ipa_rs_hetero_cloud.Prelude.{
  ◌≡◌, ◌≢◌, refl, subst, inl, inr, Bool, true, false, some, List, [], ◌∷◌, map, arith, ◌==◌, ==_iff,
  All, if◌then◌else◌, Bool-cases,
}
use ipa_rs_hetero_cloud.Domain.Vpc.{Uuid}
use ipa_rs_hetero_cloud.Store.LoginState.{
  DeviceAuthorization, LoginStore, select, update_authorization, keep_rows,
}

pub All-update :
    {P Q : DeviceAuthorization → Type 0} (id : Uuid)
    (change : DeviceAuthorization → DeviceAuthorization) (db : LoginStore)
    → ((row : DeviceAuthorization) → P row → row.id ≡ id → Q (change row))
    → ((row : DeviceAuthorization) → P row → row.id ≢ id → Q row)
    → All P db.authorizations
    → All Q (update_authorization id change db).authorizations
unfolding update_authorization
All-update {P} {Q} id change db here there all = over db.authorizations all
  where
    one :
        (row : DeviceAuthorization) (b : Bool)
        → (row.id == id) ≡ b
        → P row
        → Q (if b then change row else row)
    one row true e p = here row p ((==_iff row.id id).0 e)
    one row false e p = there row p (λ same. let t = (==_iff row.id id).1 same in cc)

    over :
        (rows : List DeviceAuthorization)
        → All P rows
        → All Q (map (λ row. if row.id == id then change row else row) rows)
    over [] h = tt
    over (row ∷ rest) h = (one row (row.id == id) refl h.0, over rest h.1)

pub All-keep_rows :
    (P : DeviceAuthorization → Type 0) (deleted : DeviceAuthorization → Bool)
    (rows : List DeviceAuthorization)
    → All P rows
    → All P (keep_rows deleted rows)
unfolding keep_rows
All-keep_rows P deleted [] h = tt
All-keep_rows P deleted (row ∷ rest) h = choose (deleted row) (All-keep_rows P deleted rest h.1)
  where
    choose :
        (b : Bool)
        → All P (keep_rows deleted rest)
        → All P (if b then keep_rows deleted rest else row ∷ keep_rows deleted rest)
    choose true kept = kept
    choose false kept = (h.0, kept)

pub All-select :
    (P : DeviceAuthorization → Type 0) (test : DeviceAuthorization → Bool)
    (rows : List DeviceAuthorization) (row : DeviceAuthorization)
    → All P rows
    → select test rows ≡ some row
    → P row
unfolding select
All-select P test [] row all h = absurd (ground arith)
All-select P test (first ∷ rest) row all h = elim (Bool-cases (test first)) [
  | inl e ↦ let same : first ≡ row = ground arith in subst P same all.0
  | inr e ↦ All-select P test rest row all.1 (ground arith)
]

-- The row that a query finds, behind an update that the query does not see.
pub select-map :
    (test : DeviceAuthorization → Bool) (change : DeviceAuthorization → DeviceAuthorization)
    (rows : List DeviceAuthorization) (row : DeviceAuthorization)
    → ((r : DeviceAuthorization) → test (change r) ≡ test r)
    → select test rows ≡ some row
    → select test (map change rows) ≡ some (change row)
unfolding select
select-map test change [] row same h = cc
select-map test change (first ∷ rest) row same h =
    let here = same first in
    elim (Bool-cases (test first)) [
      | inl e ↦ ground arith
      | inr e ↦ let ih = select-map test change rest row same (ground arith) in ground arith
    ]
