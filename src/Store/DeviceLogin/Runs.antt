-- ===== src/Store/DeviceLogin/Runs.antt =====
-- Device logins in any order: the store with the log of its approvals and issued tokens.
pub mod Shapes
pub mod Sound
use ipa_rs_hetero_cloud.Prelude.{
  ◌≡◌, ◌≢◌, refl, sym, ap, subst, ◌⊎◌, inl, inr, ℕ, String, Bool, true, false, Option, none, some,
  List, [], ◌∷◌, map, arith, ◌==◌, ==_iff, All, All-map, Any, Result, ok, err, ◌⊗◌, if◌then◌else◌,
  Bool-cases, leb, is_some_and,
}
use ipa_rs_hetero_cloud.Domain.Vpc.{Uuid}
use ipa_rs_hetero_cloud.Store.LoginState.{
  Digest, DeviceStatus, pending, approved, denied, consumed, unknown_status, DeviceAuthorization,
  AccessToken, MemberRow, LoginStore, LoginError, ApprovalOutcome, approval_given, ExchangeOutcome,
  still_pending, slow_down, exchange_expired, access_denied, invalid_device_code, issued, select,
  update_authorization, keep_rows,
}
use ipa_rs_hetero_cloud.Store.DeviceLogin.{
  TokenOffer, purge, new_authorization, create_authorization, by_user_code, by_device_code,
  approve_row, approve_found, approve_authorization, poll_row, consume_row, insert_token,
  issue_token, exchange_polled, exchange_found, exchange_authorization, authenticate_token,
  revoke_token,
}
use ipa_rs_hetero_cloud.Store.DeviceLogin.Issue.{exchange_found-issued}
use ipa_rs_hetero_cloud.Store.DeviceLogin.Offers.{MayIssue}

pub data LoginEvent : Type 0 where
  approved_by issued_to : (authorization_id user_id : Uuid) → LoginEvent

abbrev pub authorization_of : LoginEvent → Uuid
authorization_of (approved_by id user_id) = id
authorization_of (issued_to id user_id) = id

abbrev pub IsUnspent : Uuid → List LoginEvent → Type 0
IsUnspent id [] = Unit
IsUnspent id (approved_by other user_id ∷ log) = IsUnspent id log
IsUnspent id (issued_to other user_id ∷ log) = (other ≢ id) × IsUnspent id log

abbrev pub IsNot : ExchangeOutcome → Type 0
IsNot (issued token_id user_id organization_id expires_at) = ⊥
IsNot _ = Unit

-- The latest event of the log stands first. Members come and go at any time; an operation that
-- fails rolls back, and is no step.
pub data Run : LoginStore → List LoginEvent → Type 0 where
  start : (db : LoginStore) → db.authorizations ≡ [] → Run db []
  creation :
      (db after : LoginStore) (log : List LoginEvent) (now : ℕ) (id : Uuid)
      (device_code_hash user_code_hash : Digest) (organization_id : Uuid) (interval expires_at : ℕ)
      → Run db log
      → All (λ event. authorization_of event ≢ id) log
      → create_authorization now
          (new_authorization id device_code_hash user_code_hash organization_id interval expires_at)
          db
        ≡ ok after
      → Run after log
  approval :
      (db after : LoginStore) (log : List LoginEvent) (now : ℕ) (user_code_hash : Digest)
      (user_id : Uuid) (row : DeviceAuthorization)
      → Run db log
      → by_user_code user_code_hash db ≡ some row
      → approve_authorization now user_code_hash user_id db ≡ (approval_given, after)
      → Run after (approved_by row.id user_id ∷ log)
  refusal :
      (db after : LoginStore) (log : List LoginEvent) (now : ℕ) (user_code_hash : Digest)
      (user_id : Uuid) (outcome : ApprovalOutcome)
      → Run db log
      → outcome ≢ approval_given
      → approve_authorization now user_code_hash user_id db ≡ (outcome, after)
      → Run after log
  issue :
      (db after : LoginStore) (log : List LoginEvent) (now : ℕ) (device_code_hash : Digest)
      (offer : TokenOffer) (row : DeviceAuthorization) (token_id user_id organization_id : Uuid)
      (expires_at : ℕ)
      → Run db log
      → by_device_code device_code_hash db ≡ some row
      → exchange_authorization now device_code_hash offer db
        ≡ ok (issued token_id user_id organization_id expires_at, after)
      → Run after (issued_to row.id user_id ∷ log)
  poll :
      (db after : LoginStore) (log : List LoginEvent) (now : ℕ) (device_code_hash : Digest)
      (offer : TokenOffer) (outcome : ExchangeOutcome)
      → Run db log
      → IsNot outcome
      → exchange_authorization now device_code_hash offer db ≡ ok (outcome, after)
      → Run after log
  authentication :
      (db : LoginStore) (log : List LoginEvent) (now : ℕ) (prefix : String) (token_hash : Digest)
      → Run db log
      → Run (authenticate_token now prefix token_hash db).1 log
  revocation :
      (db : LoginStore) (log : List LoginEvent) (now : ℕ) (token_id : Uuid)
      → Run db log
      → Run (revoke_token now token_id db) log
  membership :
      (db : LoginStore) (log : List LoginEvent) (organizations : List Uuid)
      (memberships : List MemberRow)
      → Run db log
      → Run (record db { organizations = organizations; memberships = memberships }) log

-- Each token was issued for an authorization that had not been exchanged before, and that the
-- token's user had approved before.
abbrev pub IsSound : List LoginEvent → Type 0
IsSound [] = Unit
IsSound (approved_by id user_id ∷ log) = IsSound log
IsSound (issued_to id user_id ∷ log) =
    IsUnspent id log ⊗ Any (λ event. event ≡ approved_by id user_id) log ⊗ IsSound log
