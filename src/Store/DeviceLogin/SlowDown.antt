-- ===== src/Store/DeviceLogin/SlowDown.antt =====
-- Polls in quick succession.
use ipa_rs_hetero_cloud.Prelude.{
  ◌≡◌, refl, ap, ℕ, ◌+◌, ◌<◌, Option, none, some, arith, ◌==◌, ◌∙◌, Result, ok, err, if◌then◌else◌,
}
use ipa_rs_hetero_cloud.Domain.Vpc.{Uuid}
use ipa_rs_hetero_cloud.Store.LoginState.{
  Digest, seconds, pending, DeviceAuthorization, LoginStore, LoginError, still_pending, slow_down,
  update_authorization,
}
use ipa_rs_hetero_cloud.Store.DeviceLogin.{
  TokenOffer, by_device_code, poll_row, polled_too_soon, exchange_polled, exchange_found,
  insert_token, issue_token, exchange_authorization,
}
use ipa_rs_hetero_cloud.Store.DeviceLogin.Rows.{select-map}

pending_lem :
    (now : ℕ) (offer : TokenOffer) (db after : LoginStore) (row : DeviceAuthorization)
    → exchange_found now offer db row ≡ ok (still_pending, after)
    → (row.status ≡ pending) × (after ≡ update_authorization row.id (poll_row now) db)
unfolding exchange_found exchange_polled issue_token
pending_lem now offer db after row h = by_user row.approved_user_id refl
  where
    polled : LoginStore
    polled = update_authorization row.id (poll_row now) db

    by_parts :
        (user_id : Uuid) (inserted : Result LoginError LoginStore)
        → row.approved_user_id ≡ some user_id
        → insert_token offer user_id row.organization_id polled ≡ inserted
        → (row.status ≡ pending) × (after ≡ polled)
    by_parts user_id (ok with_token) by i = ground arith
    by_parts user_id (err x) by i = ground arith

    by_user :
        (user : Option Uuid)
        → row.approved_user_id ≡ user
        → (row.status ≡ pending) × (after ≡ polled)
    by_user none by = ground arith
    by_user (some user_id) by =
        by_parts user_id (insert_token offer user_id row.organization_id polled) by refl

polled_row :
    (now : ℕ) (hash : Digest) (db : LoginStore) (row : DeviceAuthorization)
    → by_device_code hash db ≡ some row
    → by_device_code hash (update_authorization row.id (poll_row now) db) ≡ some (poll_row now row)
unfolding by_device_code update_authorization
polled_row now hash db row found =
    let moved =
      select-map (λ r. r.device_code_hash == hash) change db.authorizations row blind found in
    ground arith
  where
    change : DeviceAuthorization → DeviceAuthorization
    change r = if r.id == row.id then poll_row now r else r

    blind :
        (r : DeviceAuthorization)
        → ((change r).device_code_hash == hash) ≡ (r.device_code_hash == hash)
    blind r = ground arith

-- A poll that comes less than the interval after a poll that was answered by pending, and before
-- the expiry of the row found by the device code, is told to slow down and changes nothing.
pub exchange_authorization-exchange_authorization_early :
    (polled_at now : ℕ) (hash : Digest) (first offer : TokenOffer) (row : DeviceAuthorization)
    (db after : LoginStore)
    → by_device_code hash db ≡ some row
    → exchange_authorization polled_at hash first db ≡ ok (still_pending, after)
    → now < row.expires_at
    → now < polled_at + seconds row.interval_seconds
    → exchange_authorization now hash offer after ≡ ok (slow_down, after)
unfolding exchange_authorization exchange_found polled_too_soon
exchange_authorization-exchange_authorization_early polled_at now hash first offer row db after
      found h in_time early =
    let (is, shape) = pending_lem polled_at first db after row (ground arith) in
    let again = polled_row polled_at hash db row found in
    let found_again : by_device_code hash after ≡ some (poll_row polled_at row) =
      ap (by_device_code hash) shape ∙ again in
    ground arith
