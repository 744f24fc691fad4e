-- ===== src/Store/LoginState.antt =====
-- The rows of the command line's device login in crates/heterocloud-store/src/lib.rs: authorizations,
-- the access tokens that they are exchanged for, and the members whom they stand for.
use ipa_rs_hetero_cloud.Prelude.{
  ℕ, ◌*◌, String, Bool, true, false, ◌&&◌, Option, none, some, List, [], ◌∷◌, map, if◌then◌else◌,
  ◌==◌, any,
}
use ipa_rs_hetero_cloud.Domain.Vpc.{Uuid}

-- A SHA-256 digest, as a number.
abbrev pub Digest : Type 0
Digest = ℕ

-- Times and durations are microseconds.
abbrev pub seconds : ℕ → ℕ
seconds n = n * 1000000

pub data DeviceStatus : Type 0 where
  pending approved denied consumed unknown_status : DeviceStatus

pub record DeviceAuthorization : Type 0 where
  pub id : Uuid
  pub device_code_hash : Digest
  pub user_code_hash : Digest
  pub organization_id : Uuid
  pub approved_user_id : Option Uuid
  pub status : DeviceStatus
  pub interval_seconds : ℕ
  pub expires_at : ℕ
  pub last_polled_at : Option ℕ

pub record AccessToken : Type 0 where
  pub id : Uuid
  pub user_id : Uuid
  pub organization_id : Uuid
  pub prefix : String
  pub token_hash : Digest
  pub expires_at : ℕ
  pub last_used_at : Option ℕ
  pub revoked_at : Option ℕ

-- A row of `organization_memberships` with `enabled` of its principal and whether its user is active.
pub record MemberRow : Type 0 where
  pub organization_id : Uuid
  pub user_id : Uuid
  pub is_enabled : Bool
  pub is_active : Bool

pub record LoginStore : Type 0 where
  pub organizations : List Uuid
  pub memberships : List MemberRow
  pub authorizations : List DeviceAuthorization
  pub tokens : List AccessToken

pub data LoginError : Type 0 where
  not_found unique_violation unknown_state no_approved_user : LoginError

pub data ApprovalOutcome : Type 0 where
  approval_given approval_not_found approval_expired invalid_state forbidden : ApprovalOutcome

pub data ExchangeOutcome : Type 0 where
  still_pending slow_down exchange_expired access_denied invalid_device_code : ExchangeOutcome
  issued : (token_id user_id organization_id : Uuid) (expires_at : ℕ) → ExchangeOutcome

abbrev pub is_pending : DeviceStatus → Bool
is_pending pending = true
is_pending _ = false

abbrev pub is_denied : DeviceStatus → Bool
is_denied denied = true
is_denied _ = false

abbrev pub is_consumed : DeviceStatus → Bool
is_consumed consumed = true
is_consumed _ = false

-- `SELECT EXISTS (SELECT 1 FROM organization_memberships WHERE ...)`
unfoldable pub is_member : Uuid → Uuid → List MemberRow → Bool
is_member organization_id user_id members =
    any (λ m. m.organization_id == organization_id && m.user_id == user_id) members

-- The first row that passes a test.
unfoldable pub select :
    (DeviceAuthorization → Bool) → List DeviceAuthorization → Option DeviceAuthorization
select test [] = none
select test (row ∷ rest) = let found = select test rest in if test row then some row else found

-- `UPDATE cli_device_authorizations SET ... WHERE id = $1`
unfoldable pub update_authorization :
    Uuid → (DeviceAuthorization → DeviceAuthorization) → LoginStore → LoginStore
update_authorization id change db = record db {
  authorizations = map (λ row. if row.id == id then change row else row) db.authorizations;
}

-- The rows that `DELETE ... WHERE` leaves.
unfoldable pub keep_rows {ℓ} : {A : Type ℓ} → (A → Bool) → List A → List A
keep_rows deleted [] = []
keep_rows deleted (row ∷ rest) =
    let kept = keep_rows deleted rest in if deleted row then kept else row ∷ kept

abbrev pub week : ℕ
week = seconds 604800
