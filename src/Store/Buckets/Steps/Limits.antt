-- ===== src/Store/Buckets/Steps/Limits.antt =====
-- Every order of transactions keeps names apart and tenants within their limits.
use ipa_rs_hetero_cloud.Prelude.{
  ◌≡◌, ◌≢◌, refl, sym, subst, ℕ, ◌≤◌, true, false, Option, none, some, List, ◌∷◌, map, arith,
  if◌then◌else◌, ◌==◌, ==_iff, All-map, ok, NotIn, Distinct, is_some_and, Bool-cases, inl, inr,
}
use ipa_rs_hetero_cloud.Domain.Vpc.{Uuid}
use ipa_rs_hetero_cloud.Domain.Quota.{ResourceQuotaLimits, SyouyuQuotaLimits, validate}
use ipa_rs_hetero_cloud.Domain.Syouyu.{SyouyuSpec}
use ipa_rs_hetero_cloud.Store.Buckets.{BucketRow, is_foreign}
use ipa_rs_hetero_cloud.Store.Buckets.Exact.{
  counts, count_of, bytes_of, Accepted, prepare_syouyu_spec-Accepted, name_owner-none,
}
use ipa_rs_hetero_cloud.Store.Buckets.Steps.{
  new_bucket, change_bucket, with_spec, begin_deletion, remove_bucket, id_of, name_of, BucketStep,
  created, updated, deletion_begun, removed, BucketRun, no_bucket, step_after, limits_changed,
  higher, Below, WithinLimits,
}
use ipa_rs_hetero_cloud.Store.Buckets.Steps.Update.{updated-WithinLimits}
use ipa_rs_hetero_cloud.Store.Buckets.Steps.Rows.{
  All-of_map, sum_map, sum_remove, remove-Distinct, map_same, All-always,
}

-- The changes of one step.
unowned : (o : Option Uuid) → is_some_and (is_foreign none) o ≡ false → o ≡ none
unowned none h = refl
unowned (some id) h = cc

created-WithinLimits :
    (limits : Uuid → ResourceQuotaLimits) (rows : List BucketRow) (id organization_id : Uuid)
    (quota : SyouyuQuotaLimits) (requested : SyouyuSpec)
    → NotIn id (map id_of rows)
    → Below quota (limits organization_id)
    → Accepted organization_id none quota rows requested
    → WithinLimits limits rows
    → WithinLimits limits (new_bucket id organization_id requested ∷ rows)
created-WithinLimits limits rows id organization_id quota requested new below accepted w = record {
  ids = (new, w.ids);
  names = (
    All-of_map (λ name. requested.bucket_name ≢ name) name_of rows
        (All-map (λ row apart e. apart (sym e)) rows
          (name_owner-none requested.bucket_name rows (unowned _ accepted.name_free))),
    w.names,
  );
  count = λ other. elim (Bool-cases (organization_id == other)) [
    | inl e ↦
        subst (λ o. count_of o none (row ∷ rows) ≤ (limits o).syouyu.max_buckets)
          ((==_iff organization_id other).0 e) own_count
    | inr e ↦ let old = w.count other in rw e (omega arith)
  ];
  total = λ other. elim (Bool-cases (organization_id == other)) [
    | inl e ↦
        subst (λ o. bytes_of o none (row ∷ rows) ≤ (limits o).syouyu.max_total_bytes)
          ((==_iff organization_id other).0 e) own_total
    | inr e ↦ let old = w.total other in rw e (omega arith)
  ];
}
  where
    row : BucketRow
    row = new_bucket id organization_id requested

    self : (organization_id == organization_id) ≡ true
    self = (==_iff organization_id organization_id).1 refl

    own_count :
        count_of organization_id none (row ∷ rows) ≤ (limits organization_id).syouyu.max_buckets
    own_count = let fits = accepted.count in rw self (omega arith)

    own_total :
        bytes_of organization_id none (row ∷ rows) ≤ (limits organization_id).syouyu.max_total_bytes
    own_total = let fits = accepted.total in rw self (omega arith)

removed-WithinLimits :
    (limits : Uuid → ResourceQuotaLimits) (rows : List BucketRow) (id : Uuid)
    → WithinLimits limits rows
    → WithinLimits limits (remove_bucket id rows)
removed-WithinLimits limits rows id w = record {
  ids = remove-Distinct id_of id rows w.ids;
  names = remove-Distinct name_of id rows w.names;
  count = λ o.
      let old = w.count o in
      let fewer = sum_remove (λ row. if counts o none row then 1 else 0) id rows in omega arith;
  total = λ o.
      let old = w.total o in
      let fewer =
        sum_remove (λ row. if counts o none row then row.spec.quota_bytes else 0) id rows in
      omega arith;
}

deletion-WithinLimits :
    (limits : Uuid → ResourceQuotaLimits) (rows : List BucketRow) (id : Uuid)
    → WithinLimits limits rows
    → WithinLimits limits (change_bucket id begin_deletion rows)
deletion-WithinLimits limits rows id w = record {
  ids = subst Distinct (sym (map_same id_of change rows (All-always _ rows same_id))) w.ids;
  names = subst Distinct (sym (map_same name_of change rows (All-always _ rows same_name))) w.names;
  count = λ o.
      let old = w.count o in
      let fewer =
        sum_map (λ row. if counts o none row then 1 else 0) change rows
          (All-always _ rows (fewer_of (λ row. 1) (λ row. refl) o)) in
      omega arith;
  total = λ o.
      let old = w.total o in
      let fewer =
        sum_map (λ row. if counts o none row then row.spec.quota_bytes else 0) change rows
          (All-always _ rows (fewer_of (λ row. row.spec.quota_bytes) (λ row. refl) o)) in
      omega arith;
}
  where
    change : BucketRow → BucketRow
    change row = if row.id == id then begin_deletion row else row

    same_id : (row : BucketRow) → id_of (change row) ≡ id_of row
    same_id row = elim (Bool-cases (row.id == id)) [ inl e ↦ rw e | inr e ↦ rw e ]

    same_name : (row : BucketRow) → name_of (change row) ≡ name_of row
    same_name row = elim (Bool-cases (row.id == id)) [ inl e ↦ rw e | inr e ↦ rw e ]

    fewer_of :
        (f : BucketRow → ℕ)
        → ((row : BucketRow) → f (begin_deletion row) ≡ f row)
        → (o : Uuid) (row : BucketRow)
        → (if counts o none (change row) then f (change row) else 0)
          ≤ (if counts o none row then f row else 0)
    fewer_of f same o row = elim (Bool-cases (row.id == id)) [
      | inl e ↦ rw e (ground arith)
      | inr e ↦ rw e (omega arith)
    ]

raised-WithinLimits :
    (highest changed : Uuid → ResourceQuotaLimits) (rows : List BucketRow)
    → WithinLimits highest rows
    → WithinLimits
        (λ organization_id. higher (highest organization_id) (changed organization_id))
        rows
raised-WithinLimits highest changed rows w = record {
  ids = w.ids;
  names = w.names;
  count = λ o. let old = w.count o in omega arith;
  total = λ o. let old = w.total o in omega arith;
}

-- The limits of now are valid, and no higher than the highest.
BucketRun-Below :
    (limits highest : Uuid → ResourceQuotaLimits) (rows : List BucketRow)
    → BucketRun limits highest rows
    → (organization_id : Uuid)
    → (validate (limits organization_id) ≡ ok tt)
      × Below (limits organization_id).syouyu (highest organization_id)
BucketRun-Below _ _ _ (no_bucket limits valid) organization_id =
    (valid organization_id, (omega arith, omega arith))
BucketRun-Below _ _ _ (step_after limits highest rows after run step) organization_id =
    BucketRun-Below limits highest rows run organization_id
BucketRun-Below _ _ _ (limits_changed limits highest changed rows valid run) organization_id =
    (valid organization_id, (omega arith, omega arith))

-- In every table of buckets that creations, updates, deletions and changes of limits to valid
-- ones reach, no id and no name stands twice, and the live buckets of each tenant keep to the
-- highest limits on buckets and on bytes that the tenant has had; new buckets take ids that no
-- bucket has.
pub BucketRun-WithinLimits :
    (limits highest : Uuid → ResourceQuotaLimits) (rows : List BucketRow)
    → BucketRun limits highest rows
    → WithinLimits highest rows
BucketRun-WithinLimits _ _ _ (no_bucket limits valid) = record {
  ids = tt;
  names = tt;
  count = λ o. omega arith;
  total = λ o. omega arith;
}
BucketRun-WithinLimits _ _ _ (limits_changed limits highest changed rows valid run) =
    raised-WithinLimits highest changed rows (BucketRun-WithinLimits limits highest rows run)
BucketRun-WithinLimits _ _ _ (step_after limits highest rows after run step) =
    kept rows after step (BucketRun-WithinLimits limits highest rows run)
  where
    now :
        (organization_id : Uuid)
        → (validate (limits organization_id) ≡ ok tt)
          × Below (limits organization_id).syouyu (highest organization_id)
    now = BucketRun-Below limits highest rows run

    kept :
        (before later : List BucketRow)
        → BucketStep limits before later
        → WithinLimits highest before
        → WithinLimits highest later
    kept _ _ (created before id organization_id requested spec new word h) w =
        let (valid, below) = now organization_id in
        let (same, accepted) =
          prepare_syouyu_spec-Accepted organization_id none (limits organization_id) before
            requested spec valid word h in
        subst (λ s. WithinLimits highest (new_bucket id organization_id s ∷ before)) same
          (created-WithinLimits highest before id organization_id (limits organization_id).syouyu
            requested new below accepted w)
    kept _ _ (updated before row requested spec found going word h) w =
        let (valid, below) = now row.organization_id in
        let (same, accepted) =
          prepare_syouyu_spec-Accepted row.organization_id (some row.id)
            (limits row.organization_id) before requested spec valid word h in
        subst (λ s. WithinLimits highest (change_bucket row.id (with_spec s) before)) same
          (updated-WithinLimits highest (limits row.organization_id).syouyu before row requested
            found going below accepted w)
    kept _ _ (deletion_begun before id) w = deletion-WithinLimits highest before id w
    kept _ _ (removed before id) w = removed-WithinLimits highest before id w
