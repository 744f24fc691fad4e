-- ===== src/Store/DeviceLogin.antt =====
-- The device login of the command line in crates/heterocloud-store/src/lib.rs: an authorization is
-- created, approved in the browser and exchanged for an access token.
pub mod Offers
pub mod Issue
pub mod Rows
pub mod Runs
pub mod LogIn
pub mod Completes
pub mod SlowDown
pub mod Revoked
use ipa_rs_hetero_cloud.Prelude.{
  ℕ, ◌+◌, ◌*◌, String, Bool, true, false, not, ◌&&◌, ◌||◌, Option, none, some, List, [], ◌∷◌, map,
  if◌then◌else◌, ltb, leb, ◌==◌, any, is_some_and, is_none, Result, ok, err, ◌>>=◌, ◌>>◌, reject_if,
  str_eq,
}
use ipa_rs_hetero_cloud.Domain.Vpc.{Uuid}
use ipa_rs_hetero_cloud.Store.LoginState.{
  Digest, seconds, week, DeviceStatus, pending, approved, denied, consumed, unknown_status,
  DeviceAuthorization, AccessToken, MemberRow, LoginStore, LoginError, not_found, unique_violation,
  unknown_state, no_approved_user, ApprovalOutcome, approval_given, approval_not_found,
  approval_expired, invalid_state, forbidden, ExchangeOutcome, still_pending, slow_down,
  exchange_expired, access_denied, invalid_device_code, issued, is_pending, is_denied, is_consumed,
  is_member, select, update_authorization, keep_rows,
}

-- What is past its time when a new authorization is asked for.
unfoldable pub purge : ℕ → LoginStore → LoginStore
unfolding keep_rows
purge now db = record db {
  authorizations = keep_rows (λ row. leb row.expires_at now) db.authorizations;
  tokens =
      keep_rows
        (λ token.
          leb (token.expires_at + week) now
          || is_some_and (λ revoked. leb (revoked + week) now) token.revoked_at)
        db.tokens;
}

-- The columns that the insertion gives, with the defaults of the others.
abbrev pub new_authorization : Uuid → Digest → Digest → Uuid → ℕ → ℕ → DeviceAuthorization
new_authorization id device_code_hash user_code_hash organization_id interval expires_at = record {
  id = id;
  device_code_hash = device_code_hash;
  user_code_hash = user_code_hash;
  organization_id = organization_id;
  approved_user_id = none;
  status = pending;
  interval_seconds = interval;
  expires_at = expires_at;
  last_polled_at = none;
}

-- `create_cli_device_authorization` of a new row; the digests are unique in the table. Where the
-- insertion fails, nothing is deleted either.
unfoldable pub create_authorization :
    ℕ → DeviceAuthorization → LoginStore → Result LoginError LoginStore
unfolding purge
create_authorization now row db = do
  reject_if (not (any (λ id. id == row.organization_id) db.organizations)) not_found
  reject_if
      (any
        (λ old.
          old.device_code_hash == row.device_code_hash || old.user_code_hash == row.user_code_hash)
        (purge now db).authorizations)
      unique_violation
  ok (record (purge now db) { authorizations = row ∷ (purge now db).authorizations })

unfoldable pub by_user_code : Digest → LoginStore → Option DeviceAuthorization
unfolding select
by_user_code hash db = select (λ row. row.user_code_hash == hash) db.authorizations

unfoldable pub by_device_code : Digest → LoginStore → Option DeviceAuthorization
unfolding select
by_device_code hash db = select (λ row. row.device_code_hash == hash) db.authorizations

abbrev pub approve_row : Uuid → DeviceAuthorization → DeviceAuthorization
approve_row user_id row = record row { status = approved; approved_user_id = some user_id }

-- `approve_cli_device_authorization`, once the row is locked; the outcome and the store behind it.
unfoldable pub approve_found :
    ℕ → Uuid → LoginStore → DeviceAuthorization → ApprovalOutcome × LoginStore
unfolding is_member update_authorization
approve_found now user_id db row =
    if leb row.expires_at now
    then (approval_expired, db)
    else if not (is_pending row.status)
    then (invalid_state, db)
    else if not (is_member row.organization_id user_id db.memberships)
    then (forbidden, db)
    else (approval_given, update_authorization row.id (approve_row user_id) db)

unfoldable pub approve_authorization : ℕ → Digest → Uuid → LoginStore → ApprovalOutcome × LoginStore
unfolding by_user_code approve_found
approve_authorization now user_code_hash user_id db = elim (by_user_code user_code_hash db) [
  | none ↦ (approval_not_found, db)
  | some row ↦ approve_found now user_id db row
]

-- The token that an exchange offers, drawn before the transaction.
pub record TokenOffer : Type 0 where
  pub token_id : Uuid
  pub prefix : String
  pub token_hash : Digest
  pub expires_at : ℕ

abbrev pub token_row : TokenOffer → Uuid → Uuid → AccessToken
token_row offer user_id organization_id = record {
  id = offer.token_id;
  user_id = user_id;
  organization_id = organization_id;
  prefix = offer.prefix;
  token_hash = offer.token_hash;
  expires_at = offer.expires_at;
  last_used_at = none;
  revoked_at = none;
}

-- `INSERT INTO cli_access_tokens`; prefix and digest are unique in the table.
unfoldable pub insert_token : TokenOffer → Uuid → Uuid → LoginStore → Result LoginError LoginStore
insert_token offer user_id organization_id db = do
  reject_if
      (any (λ old. str_eq old.prefix offer.prefix || old.token_hash == offer.token_hash) db.tokens)
      unique_violation
  ok (record db { tokens = token_row offer user_id organization_id ∷ db.tokens })

-- `last + Duration::seconds(interval) > now`
unfoldable pub polled_too_soon : ℕ → DeviceAuthorization → Bool
polled_too_soon now row =
    is_some_and (λ last. ltb now (last + seconds row.interval_seconds)) row.last_polled_at

abbrev pub poll_row : ℕ → DeviceAuthorization → DeviceAuthorization
poll_row now row = record row { last_polled_at = some now }

abbrev pub consume_row : DeviceAuthorization → DeviceAuthorization
consume_row row = record row { status = consumed }

-- The approved row is exchanged: `polled` is the store with the time of this poll.
unfoldable pub issue_token :
    TokenOffer
    → LoginStore
    → LoginStore
    → DeviceAuthorization
    → Uuid
    → Result LoginError (ExchangeOutcome × LoginStore)
unfolding is_member insert_token update_authorization
issue_token offer db polled row user_id =
    if not (is_member row.organization_id user_id db.memberships)
    then ok (access_denied, db)
    else (insert_token offer user_id row.organization_id polled >>= λ with_token. ok (
      issued offer.token_id user_id row.organization_id offer.expires_at,
      update_authorization row.id consume_row with_token,
    ))

-- What follows the write of `last_polled_at`. An error rolls the transaction back.
unfoldable pub exchange_polled :
    TokenOffer
    → LoginStore
    → LoginStore
    → DeviceAuthorization
    → Result LoginError (ExchangeOutcome × LoginStore)
unfolding issue_token
exchange_polled offer db polled row = elim row.status [
  | pending ↦ ok (still_pending, polled)
  | approved ↦ elim row.approved_user_id [
    | none ↦ err no_approved_user
    | some user_id ↦ issue_token offer db polled row user_id
  ]
  | _ ↦ err unknown_state
]

-- `exchange_cli_device_authorization`, once the row is locked.
unfoldable pub exchange_found :
    ℕ
    → TokenOffer
    → LoginStore
    → DeviceAuthorization
    → Result LoginError (ExchangeOutcome × LoginStore)
unfolding polled_too_soon update_authorization exchange_polled
exchange_found now offer db row =
    if leb row.expires_at now
    then ok (exchange_expired, db)
    else if is_denied row.status
    then ok (access_denied, db)
    else if is_consumed row.status
    then ok (invalid_device_code, db)
    else if polled_too_soon now row
    then ok (slow_down, db)
    else exchange_polled offer db (update_authorization row.id (poll_row now) db) row

unfoldable pub exchange_authorization :
    ℕ → Digest → TokenOffer → LoginStore → Result LoginError (ExchangeOutcome × LoginStore)
unfolding by_device_code exchange_found
exchange_authorization now device_code_hash offer db = elim (by_device_code device_code_hash db) [
  | none ↦ ok (invalid_device_code, db)
  | some row ↦ exchange_found now offer db row
]

-- The condition of `authenticate_cli_access_token`: a live token of an active user with an enabled
-- principal in the organization.
unfoldable pub admits : ℕ → String → Digest → LoginStore → AccessToken → Bool
admits now prefix token_hash db token =
    str_eq token.prefix prefix
    && token.token_hash == token_hash
    && is_none token.revoked_at
    && ltb now token.expires_at
    && any
        (λ m.
          m.user_id == token.user_id
          && m.organization_id == token.organization_id
          && m.is_enabled
          && m.is_active)
        db.memberships

unfoldable pub first_token : (AccessToken → Bool) → List AccessToken → Option AccessToken
first_token test [] = none
first_token test (t ∷ rest) = let found = first_token test rest in if test t then some t else found

-- `authenticate_cli_access_token`: the token that it answers for. Its user exists, since
-- `cli_access_tokens.user_id` refers to it.
unfoldable pub authenticate_token :
    ℕ → String → Digest → LoginStore → Option AccessToken × LoginStore
unfolding admits first_token
authenticate_token now prefix token_hash db = (
  first_token (admits now prefix token_hash db) db.tokens,
  record db {
    tokens =
        map
          (λ t.
            if admits now prefix token_hash db t then record t { last_used_at = some now } else t)
          db.tokens;
  },
)

-- `revoke_cli_access_token`
unfoldable pub revoke_token : ℕ → Uuid → LoginStore → LoginStore
revoke_token now token_id db = record db {
  tokens =
      map
        (λ t.
          if t.id == token_id && is_none t.revoked_at
          then record t { revoked_at = some now }
          else t)
        db.tokens;
}
