-- ===== src/Store/DeviceLogin/Issue.antt =====
-- When `exchange_cli_device_authorization` issues an access token.
use ipa_rs_hetero_cloud.Prelude.{
  ◌≡◌, ◌↔◌, refl, sym, ℕ, Bool, true, false, Option, none, some, arith, ok,
}
use ipa_rs_hetero_cloud.Domain.Vpc.{Uuid}
use ipa_rs_hetero_cloud.Store.LoginState.{
  Digest, DeviceStatus, pending, approved, denied, consumed, unknown_status, DeviceAuthorization,
  LoginStore, issued, update_authorization,
}
use ipa_rs_hetero_cloud.Store.DeviceLogin.{
  TokenOffer, polled_too_soon, issue_token, exchange_polled, exchange_found, exchange_authorization,
  by_device_code, poll_row, consume_row,
}
use ipa_rs_hetero_cloud.Store.DeviceLogin.Offers.{
  is_member_iff, polled_too_soon_iff, MayIssue, with_token, insert_token_new, new_insert_token,
  issue_token-issued,
}

pub exchange_found-issued :
    (now : ℕ) (offer : TokenOffer) (db : LoginStore) (row : DeviceAuthorization) (t u o : Uuid)
    (e : ℕ) (after : LoginStore)
    → exchange_found now offer db row ≡ ok (issued t u o e, after)
    → MayIssue now offer db u row
      × (o ≡ row.organization_id)
      × (t ≡ offer.token_id)
      × (e ≡ offer.expires_at)
unfolding exchange_found exchange_polled update_authorization
exchange_found-issued now offer db row t u o e after h =
    by_parts row.status row.approved_user_id (polled_too_soon now row) refl refl refl h
  where
    polled : LoginStore
    polled = update_authorization row.id (poll_row now) db

    by_parts :
        (status : DeviceStatus) (user : Option Uuid) (soon : Bool)
        → row.status ≡ status
        → row.approved_user_id ≡ user
        → polled_too_soon now row ≡ soon
        → exchange_found now offer db row ≡ ok (issued t u o e, after)
        → MayIssue now offer db u row
          × (o ≡ row.organization_id)
          × (t ≡ offer.token_id)
          × (e ≡ offer.expires_at)
    by_parts approved (some user_id) false is by s h =
        let known = issue_token-issued offer db polled row user_id t u o e after (ground arith) in
        (
          record {
            in_time = ground arith;
            is_approved = is;
            by_user = ground arith;
            is_member_still = (is_member_iff row.organization_id u db).0 (ground arith);
            waited = (polled_too_soon_iff now row).0 s;
            is_new = new_insert_token offer user_id row.organization_id polled known.5.0 known.5.1;
          },
          known.1,
          known.2,
          known.3,
        )
    by_parts approved none false is by s h = absurd (ground arith)
    by_parts status user true is by s h = absurd (ground arith)
    by_parts pending user false is by s h = absurd (ground arith)
    by_parts denied user false is by s h = absurd (ground arith)
    by_parts consumed user false is by s h = absurd (ground arith)
    by_parts unknown_status user false is by s h = absurd (ground arith)

-- The store that an exchange leaves when it issues a token.
abbrev pub issued_store : ℕ → TokenOffer → Uuid → DeviceAuthorization → LoginStore → LoginStore
issued_store now offer user_id row db =
    update_authorization row.id consume_row
      (with_token offer user_id row.organization_id (update_authorization row.id (poll_row now) db))

pub exchange_found-MayIssue :
    (now : ℕ) (offer : TokenOffer) (db : LoginStore) (user_id : Uuid) (row : DeviceAuthorization)
    → MayIssue now offer db user_id row
    → exchange_found now offer db row
      ≡ ok (
        issued offer.token_id user_id row.organization_id offer.expires_at,
        issued_store now offer user_id row db,
      )
unfolding exchange_found exchange_polled issue_token update_authorization
exchange_found-MayIssue now offer db user_id row m =
    let member = (is_member_iff row.organization_id user_id db).1 m.is_member_still in
    let waited = (polled_too_soon_iff now row).1 m.waited in
    let inserted =
      insert_token_new offer user_id row.organization_id
        (update_authorization row.id (poll_row now) db) m.is_new in
    ground arith

-- A token is issued exactly when the row found by the device code is unexpired, approved by a user
-- who is still a member of its organization, was last polled at least its interval ago, and prefix
-- and digest of the token are new. It is for that user and organization.
pub exchange_authorization-issued_iff :
    (now : ℕ) (device_code_hash : Digest) (offer : TokenOffer) (db : LoginStore)
    (user_id organization_id : Uuid)
    → ((after : LoginStore) × (exchange_authorization now device_code_hash offer db
          ≡ ok (issued offer.token_id user_id organization_id offer.expires_at, after)))
      ↔ ((row : DeviceAuthorization) × (by_device_code device_code_hash db ≡ some row)
          × (row.organization_id ≡ organization_id)
          × MayIssue now offer db user_id row)
unfolding exchange_authorization
exchange_authorization-issued_iff now device_code_hash offer db user_id organization_id =
    by_row (by_device_code device_code_hash db) refl
  where
    by_row :
        (slot : Option DeviceAuthorization)
        → by_device_code device_code_hash db ≡ slot
        → ((after : LoginStore) × (exchange_authorization now device_code_hash offer db
              ≡ ok (issued offer.token_id user_id organization_id offer.expires_at, after)))
          ↔ ((row : DeviceAuthorization) × (by_device_code device_code_hash db ≡ some row)
              × (row.organization_id ≡ organization_id)
              × MayIssue now offer db user_id row)
    by_row none e = (λ h. let r = h.1 in absurd (ground arith), λ h. let r = h.1 in absurd (cc))
    by_row (some row) e = (
      λ h.
          let r = h.1 in
          let known =
            exchange_found-issued now offer db row offer.token_id user_id organization_id
              offer.expires_at h.0 (ground arith) in
          (row, e, sym known.1, known.0),
      λ h.
          let r = h.1 in
          let same : row ≡ h.0 = cc in
          let found = exchange_found-MayIssue now offer db user_id h.0 h.3 in
          (issued_store now offer user_id h.0 db, ground arith),
    )
