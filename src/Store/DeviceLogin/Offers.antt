-- ===== src/Store/DeviceLogin/Offers.antt =====
-- Which approved authorizations issue a token: `issue_token`.
use ipa_rs_hetero_cloud.Prelude.{
  ◌≡◌, ◌≢◌, ◌↔◌, refl, ℕ, ◌+◌, ◌<◌, ◌≤◌, Bool, true, false, Option, none, some, List, [], ◌∷◌,
  arith, ◌==◌, ◌&&◌, ◌||◌, ==_iff, All, Any, any, any_iff, Any-map, or_false_iff, false_iff_not,
  is_some_and, Result, ok, err, str_eq, eq_iff, ltb,
}
use ipa_rs_hetero_cloud.Domain.Vpc.{Uuid}
use ipa_rs_hetero_cloud.Store.LoginState.{
  seconds, approved, DeviceAuthorization, MemberRow, AccessToken, LoginStore, LoginError, issued,
  is_member,
}
use ipa_rs_hetero_cloud.Store.DeviceLogin.{
  TokenOffer, token_row, insert_token, polled_too_soon, issue_token,
}

abbrev pub IsMember : Uuid → Uuid → LoginStore → Type 0
IsMember organization_id user_id db =
    Any (λ m. (m.organization_id ≡ organization_id) × (m.user_id ≡ user_id)) db.memberships

-- The last poll, if there was one, is the interval or more ago.
abbrev pub Waited : ℕ → DeviceAuthorization → Type 0
Waited now row =
    (last : ℕ) → row.last_polled_at ≡ some last → last + seconds row.interval_seconds ≤ now

abbrev pub IsNewToken : TokenOffer → LoginStore → Type 0
IsNewToken offer db =
    All (λ old. (old.prefix ≢ offer.prefix) × (old.token_hash ≢ offer.token_hash)) db.tokens

pub is_member_iff :
    (organization_id user_id : Uuid) (db : LoginStore)
    → (is_member organization_id user_id db.memberships ≡ true)
      ↔ IsMember organization_id user_id db
unfolding is_member
is_member_iff organization_id user_id db =
    let (split, join) = any_iff test db.memberships in
    (
      λ h. Any-map (λ m e. (fields m).0 e) db.memberships (split h),
      λ h. join (Any-map (λ m e. (fields m).1 e) db.memberships h),
    )
  where
    test : MemberRow → Bool
    test m = m.organization_id == organization_id && m.user_id == user_id

    fields :
        (m : MemberRow)
        → (test m ≡ true) ↔ ((m.organization_id ≡ organization_id) × (m.user_id ≡ user_id))
    fields m = ground arith

pub polled_too_soon_iff :
    (now : ℕ) (row : DeviceAuthorization) → (polled_too_soon now row ≡ false) ↔ Waited now row
unfolding polled_too_soon
polled_too_soon_iff now row = by_last row.last_polled_at
  where
    by_last :
        (last : Option ℕ)
        → (is_some_and (λ t. ltb now (t + seconds row.interval_seconds)) last ≡ false)
          ↔ ((t : ℕ) → last ≡ some t → t + seconds row.interval_seconds ≤ now)
    by_last none = (λ h t e. cc, λ h. refl)
    by_last (some l) = (λ h t e. ground arith, λ h. ground (arith, h l refl))

pub record MayIssue (now : ℕ) (offer : TokenOffer) (db : LoginStore) (user_id : Uuid)
    (row : DeviceAuthorization) : Type 0 where
  pub in_time : now < row.expires_at
  pub is_approved : row.status ≡ approved
  pub by_user : row.approved_user_id ≡ some user_id
  pub is_member_still : IsMember row.organization_id user_id db
  pub waited : Waited now row
  pub is_new : IsNewToken offer db

abbrev pub with_token : TokenOffer → Uuid → Uuid → LoginStore → LoginStore
with_token offer user_id organization_id db = record db {
  tokens = token_row offer user_id organization_id ∷ db.tokens;
}

clash : TokenOffer → AccessToken → Bool
clash offer old = str_eq old.prefix offer.prefix || old.token_hash == offer.token_hash

clash_iff :
    (offer : TokenOffer) (old : AccessToken)
    → (clash offer old ≡ false)
      ↔ ((old.prefix ≢ offer.prefix) × (old.token_hash ≢ offer.token_hash))
unfolding clash
clash_iff offer old =
    let (split, join) =
      or_false_iff (str_eq old.prefix offer.prefix) (old.token_hash == offer.token_hash) in
    let (p, p') = false_iff_not (str_eq old.prefix offer.prefix) (eq_iff old.prefix offer.prefix) in
    let (q, q') =
      false_iff_not (old.token_hash == offer.token_hash) (==_iff old.token_hash offer.token_hash) in
    (λ h. (p (split h).0, q (split h).1), λ h. join (p' h.0, q' h.1))

none_clash :
    (offer : TokenOffer) (tokens : List AccessToken)
    → (any (clash offer) tokens ≡ false)
      ↔ All (λ old. (old.prefix ≢ offer.prefix) × (old.token_hash ≢ offer.token_hash)) tokens
none_clash offer [] = (λ h. tt, λ h. refl)
none_clash offer (old ∷ rest) =
    let (split, join) = or_false_iff (clash offer old) (any (clash offer) rest) in
    let (every, no_clash) = none_clash offer rest in
    let (apart, differ) = clash_iff offer old in
    (λ h. (apart (split h).0, every (split h).1), λ h. join (differ h.0, no_clash h.1))

pub insert_token_new :
    (offer : TokenOffer) (user_id organization_id : Uuid) (db : LoginStore)
    → IsNewToken offer db
    → insert_token offer user_id organization_id db
      ≡ ok (with_token offer user_id organization_id db)
unfolding insert_token clash
insert_token_new offer user_id organization_id db new =
    let free = (none_clash offer db.tokens).1 new in ground arith

pub new_insert_token :
    (offer : TokenOffer) (user_id organization_id : Uuid) (db after : LoginStore)
    → insert_token offer user_id organization_id db ≡ ok after
    → IsNewToken offer db
unfolding insert_token clash
new_insert_token offer user_id organization_id db after h =
    by_test (any (clash offer) db.tokens) refl
  where
    by_test : (b : Bool) → any (clash offer) db.tokens ≡ b → IsNewToken offer db
    by_test true e = absurd (ground arith)
    by_test false e = (none_clash offer db.tokens).0 e

pub issue_token-issued :
    (offer : TokenOffer) (db polled : LoginStore) (row : DeviceAuthorization) (user_id t u o : Uuid)
    (e : ℕ) (after : LoginStore)
    → issue_token offer db polled row user_id ≡ ok (issued t u o e, after)
    → (u ≡ user_id)
      × (o ≡ row.organization_id)
      × (t ≡ offer.token_id)
      × (e ≡ offer.expires_at)
      × (is_member row.organization_id user_id db.memberships ≡ true)
      × ((with_token : LoginStore) × (insert_token offer user_id row.organization_id polled
            ≡ ok with_token))
unfolding issue_token
issue_token-issued offer db polled row user_id t u o e after h =
    by_parts (is_member row.organization_id user_id db.memberships)
      (insert_token offer user_id row.organization_id polled) refl refl h
  where
    by_parts :
        (b : Bool) (inserted : Result LoginError LoginStore)
        → is_member row.organization_id user_id db.memberships ≡ b
        → insert_token offer user_id row.organization_id polled ≡ inserted
        → issue_token offer db polled row user_id ≡ ok (issued t u o e, after)
        → (u ≡ user_id)
          × (o ≡ row.organization_id)
          × (t ≡ offer.token_id)
          × (e ≡ offer.expires_at)
          × (is_member row.organization_id user_id db.memberships ≡ true)
          × ((with_token : LoginStore) × (insert_token offer user_id row.organization_id polled
                ≡ ok with_token))
    by_parts true (ok with_token) m i h = ground arith
    by_parts true (err x) m i h = ground arith
    by_parts false inserted m i h = ground arith
