-- ===== src/Iam/RoleTrust/Permits.antt =====
-- Whom a role's trust policy lets in.
use ipa_rs_hetero_cloud.Prelude.{
  ◌≡◌, ◌↔◌, ◌⊎◌, inl, inr, String, Bool, true, false, List, [], ◌∷◌, arith, Any, Result, ok, err,
  ◌>>◌, IsOk,
}
use ipa_rs_hetero_cloud.Iam.Policy.{PolicyEffect}
use ipa_rs_hetero_cloud.Iam.RoleTrust.{
  items, TrustStatement, RoleTrustDocument, validate, statement_matches, scan, permits,
}

then-ok_iff :
    {E : Type 0} (m : Result E (Unit {0})) (b : Bool)
    → ((m >> ok b) ≡ ok true) ↔ (IsOk m × (b ≡ true))
then-ok_iff (ok u) b = (λ h. (tt, cc), λ h. cc)
then-ok_iff (err e) b = (λ h. cc, λ h. absurd h.0)

module _ (account arn : String) where
  -- Some statement with this effect covers `sts:AssumeRole` and names the caller.
  abbrev pub Names : PolicyEffect → RoleTrustDocument → Type 0
  Names effect document =
      Any (λ st. (st.effect ≡ effect) × (statement_matches account arn st ≡ true))
        (items document.statements)

  -- The loop allows exactly if a statement allows, or one before it has, and none denies.
  scan_iff :
      (statements : List TrustStatement) (allowed : Bool)
      → (scan account arn statements allowed ≡ true) ↔ (
          ((allowed ≡ true)
            ⊎ Any
                (λ st. (st.effect ≡ PolicyEffect.allow) × (statement_matches account arn st ≡ true))
                statements)
          × ¬ Any
              (λ st. (st.effect ≡ PolicyEffect.deny) × (statement_matches account arn st ≡ true))
              statements)
  unfolding scan
  scan_iff [] allowed = ground arith
  scan_iff (st ∷ rest) allowed = ground (arith, scan_iff rest allowed, scan_iff rest true)

  -- A trust policy lets a caller in exactly if it is valid, an allow statement that covers
  -- sts:AssumeRole names the caller, and no deny statement that covers sts:AssumeRole does. The
  -- loop returns at the first deny.
  pub permits_iff :
      (document : RoleTrustDocument)
      → (permits account arn document ≡ ok true) ↔ (
          IsOk (validate document)
          × Names PolicyEffect.allow document
          × ¬ Names PolicyEffect.deny document)
  unfolding permits
  permits_iff document =
      let (split, join) =
        then-ok_iff (validate document) (scan account arn (items document.statements) false) in
      let (named, unnamed) = scan_iff (items document.statements) false in
      (
        λ h.
            let (valid, let_in) = split h in
            let (granted, undenied) = named let_in in (valid, from_start granted, undenied),
        λ (valid, granted, undenied). join (valid, unnamed (inr granted, undenied)),
      )
    where
      from_start : {P : Type 0} → (false ≡ true) ⊎ P → P
      from_start (inl h) = cc
      from_start (inr h) = h
