-- ===== src/Store/Buckets/Steps/Update.antt =====
-- An update of a bucket, whose name stays and whose bytes fit.
use ipa_rs_hetero_cloud.Prelude.{
  ◌≡◌, ◌≢◌, refl, sym, ap, subst, ◌∙◌, ◌+◌, ◌≤◌, Bool, true, false, not, ◌&&◌, none, some, List, [],
  ◌∷◌, map, arith, if◌then◌else◌, ◌==◌, ==_iff, All, All-map, NotIn, Distinct, Bool-cases, inl, inr,
}
use ipa_rs_hetero_cloud.Domain.Vpc.{Uuid}
use ipa_rs_hetero_cloud.Domain.Quota.{ResourceQuotaLimits, SyouyuQuotaLimits}
use ipa_rs_hetero_cloud.Domain.Syouyu.{SyouyuSpec}
use ipa_rs_hetero_cloud.Store.Rooms.{is_left_out}
use ipa_rs_hetero_cloud.Store.Buckets.{BucketRow, is_live}
use ipa_rs_hetero_cloud.Store.Buckets.Exact.{counts, bytes_of, Kept, Accepted}
use ipa_rs_hetero_cloud.Store.Buckets.Steps.{
  find_bucket, change_bucket, with_spec, id_of, name_of, WithinLimits, Below,
}
use ipa_rs_hetero_cloud.Store.Buckets.Steps.Rows.{All-from_map, sum_map, map_same, All-always}

found_one :
    (id : Uuid) (rows : List BucketRow) (row : BucketRow)
    → Distinct (map id_of rows)
    → find_bucket id rows ≡ some row
    → All (λ r. r.id ≡ id → r ≡ row) rows
unfolding find_bucket
found_one id [] row d h = tt
found_one id (first ∷ rest) row d h = elim (Bool-cases (first.id == id)) [
  | inl e ↦
      let same : first ≡ row = ground arith in
      let here = (==_iff first.id id).0 e in
      (
        λ k. same,
        All-map (λ r apart k. absurd (apart (here ∙ sym k))) rest
            (All-from_map (λ i. first.id ≢ i) id_of rest d.0),
      )
  | inr e ↦ (
    λ k. let t = (==_iff first.id id).1 k in absurd (cc),
    found_one id rest row d.1 (ground arith),
  )
]

-- The bytes of the other buckets, and the new ones of the updated bucket.
unnamed_bytes :
    (o id : Uuid) (spec : SyouyuSpec) (rows : List BucketRow)
    → NotIn id (map id_of rows)
    → bytes_of o none (change_bucket id (with_spec spec) rows) ≡ bytes_of o (some id) rows
unnamed_bytes o id spec [] h = refl
unnamed_bytes o id spec (row ∷ rest) h =
    let ih = unnamed_bytes o id spec rest h.1 in
    let apart = not_same row.id (λ e. h.0 (sym e)) in
    let other = not_left_out row.id h.0 in rw (apart, other) (omega arith)
  where
    not_same : (i : Uuid) → i ≢ id → (i == id) ≡ false
    not_same i h = ground arith

    not_left_out : (i : Uuid) → id ≢ i → is_left_out (some id) i ≡ false
    not_left_out i h = ground arith

replaced_bytes :
    (o id : Uuid) (spec : SyouyuSpec) (rows : List BucketRow)
    → Distinct (map id_of rows)
    → bytes_of o none (change_bucket id (with_spec spec) rows)
      ≤ spec.quota_bytes + bytes_of o (some id) rows
replaced_bytes o id spec [] d = omega arith
replaced_bytes o id spec (row ∷ rest) d = elim (Bool-cases (row.id == id)) [
  | inl e ↦
      let same = (==_iff row.id id).0 e in
      let others = unnamed_bytes o id spec rest (subst (λ i. NotIn i (map id_of rest)) same d.0) in
      let mine : is_left_out (some id) row.id ≡ true = (==_iff id row.id).1 (sym same) in
      rw (e, mine) (changed_first others)
  | inr e ↦
      let ih = replaced_bytes o id spec rest d.1 in
      let other = not_left_out e in rw (e, other) (omega arith)
]
  where
    not_left_out : (row.id == id) ≡ false → is_left_out (some id) row.id ≡ false
    not_left_out e = ground arith

    changed_first :
        bytes_of o none (change_bucket id (with_spec spec) rest) ≡ bytes_of o (some id) rest
        → (if counts o none (with_spec spec row) then spec.quota_bytes else 0)
            + bytes_of o none (change_bucket id (with_spec spec) rest)
          ≤ spec.quota_bytes
            + ((if is_live o row && not true then row.spec.quota_bytes else 0)
                + bytes_of o (some id) rest)
    changed_first others = elim (Bool-cases (counts o none row)) [
      | inl c ↦ rw c (omega arith)
      | inr c ↦ rw c (omega arith)
    ]

-- The rows that the update touches belong to the tenant, so no other tenant's sums change.
other_bytes :
    (row : BucketRow) (o : Uuid) (spec : SyouyuSpec) (rows : List BucketRow)
    → row.organization_id ≢ o
    → All (λ r. r.id ≡ row.id → r ≡ row) rows
    → bytes_of o none (change_bucket row.id (with_spec spec) rows) ≤ bytes_of o none rows
other_bytes row o spec [] apart h = omega arith
other_bytes row o spec (first ∷ rest) apart h =
    let ih = other_bytes row o spec rest apart h.1 in
    elim (Bool-cases (first.id == row.id)) [
      | inl e ↦
          let foreign = not_counted (h.0 ((==_iff first.id row.id).0 e)) in
          rw (e, foreign) (omega arith)
      | inr e ↦ rw e (omega arith)
    ]
  where
    not_equal : first.organization_id ≢ o → counts o none first ≡ false
    not_equal h = ground arith

    not_counted : first ≡ row → counts o none first ≡ false
    not_counted same =
        not_equal (λ e. apart (sym (ap (λ (r : BucketRow). r.organization_id) same) ∙ e))

same_names :
    (row : BucketRow) (spec : SyouyuSpec) (rows : List BucketRow)
    → row.is_deleting ≡ false
    → All (λ r. r.id ≡ row.id → r ≡ row) rows
    → All (Kept row.organization_id (some row.id) spec) rows
    → All (λ r. name_of (if r.id == row.id then with_spec spec r else r) ≡ name_of r) rows
same_names row spec [] going one kept = tt
same_names row spec (first ∷ rest) going one kept =
    (here (first.id == row.id) refl, same_names row spec rest going one.1 kept.1)
  where
    live : first ≡ row → is_live row.organization_id first ≡ true
    live same =
        subst (λ (r : BucketRow). is_live row.organization_id r ≡ true) (sym same)
          (let self = (==_iff row.organization_id row.organization_id).1 refl in
            rw (self, going) refl)

    here :
        (b : Bool)
        → (first.id == row.id) ≡ b
        → name_of (if first.id == row.id then with_spec spec first else first) ≡ name_of first
    here true e =
        let same = (==_iff first.id row.id).0 e in
        let mine : is_left_out (some row.id) first.id ≡ true =
          (==_iff row.id first.id).1 (sym same) in
        rw e (kept.0 (live (one.0 same)) mine).0
    here false e = rw e

pub updated-WithinLimits :
    (limits : Uuid → ResourceQuotaLimits) (quota : SyouyuQuotaLimits) (rows : List BucketRow)
    (row : BucketRow) (requested : SyouyuSpec)
    → find_bucket row.id rows ≡ some row
    → row.is_deleting ≡ false
    → Below quota (limits row.organization_id)
    → Accepted row.organization_id (some row.id) quota rows requested
    → WithinLimits limits rows
    → WithinLimits limits (change_bucket row.id (with_spec requested) rows)
updated-WithinLimits limits quota rows row requested found going below accepted w = record {
  ids = subst Distinct (sym (map_same id_of change rows (All-always _ rows same_id))) w.ids;
  names =
      subst Distinct
        (sym (map_same name_of change rows (same_names row requested rows going one accepted.kept)))
        w.names;
  count = λ o.
      let old = w.count o in
      let fewer =
        sum_map (λ r. if counts o none r then 1 else 0) change rows
          (All-always _ rows (same_count o)) in
      omega arith;
  total = λ o. elim (Bool-cases (row.organization_id == o)) [
    | inl e ↦
        subst
          (λ p.
            bytes_of p none (change_bucket row.id (with_spec requested) rows)
            ≤ (limits p).syouyu.max_total_bytes)
          ((==_iff row.organization_id o).0 e) own_total
    | inr e ↦
        let old = w.total o in
        let fewer = other_bytes row o requested rows (differ o e) one in omega arith
  ];
}
  where
    change : BucketRow → BucketRow
    change r = if r.id == row.id then with_spec requested r else r

    one : All (λ r. r.id ≡ row.id → r ≡ row) rows
    one = found_one row.id rows row w.ids found

    same_id : (r : BucketRow) → id_of (change r) ≡ id_of r
    same_id r = elim (Bool-cases (r.id == row.id)) [ inl e ↦ rw e | inr e ↦ rw e ]

    same_count :
        (o : Uuid) (r : BucketRow)
        → (if counts o none (change r) then 1 else 0) ≤ (if counts o none r then 1 else 0)
    same_count o r = elim (Bool-cases (r.id == row.id)) [
      | inl e ↦ rw e (omega arith)
      | inr e ↦ rw e (omega arith)
    ]

    differ : (o : Uuid) → (row.organization_id == o) ≡ false → row.organization_id ≢ o
    differ o e = λ k. let t = (==_iff row.organization_id o).1 k in cc

    own_total :
        bytes_of row.organization_id none (change_bucket row.id (with_spec requested) rows)
        ≤ (limits row.organization_id).syouyu.max_total_bytes
    own_total =
        let fits = accepted.total in
        let replaced = replaced_bytes row.organization_id row.id requested rows w.ids in omega arith
