-- ===== src/Store/DeviceLogin/LogIn.antt =====
-- A whole login: the authorization, its approval, the exchange and the first request.
use ipa_rs_hetero_cloud.Prelude.{
  ◌≡◌, ◌≢◌, ℕ, true, Option, some, List, ◌∷◌, map, arith, ◌==◌, All, Any, Result, ok, ◌>>=◌,
  if◌then◌else◌,
}
use ipa_rs_hetero_cloud.Domain.Vpc.{Uuid}
use ipa_rs_hetero_cloud.Store.LoginState.{
  DeviceAuthorization, AccessToken, LoginStore, LoginError, ExchangeOutcome, select,
  update_authorization,
}
use ipa_rs_hetero_cloud.Store.DeviceLogin.{
  TokenOffer, create_authorization, by_user_code, by_device_code, approve_authorization,
  exchange_authorization, authenticate_token,
}

-- The member with an enabled principal and an active user.
abbrev pub IsActiveMember : Uuid → Uuid → LoginStore → Type 0
IsActiveMember organization_id user_id db =
    Any
      (λ m.
        (m.organization_id ≡ organization_id)
        × (m.user_id ≡ user_id)
        × (m.is_enabled ≡ true)
        × (m.is_active ≡ true))
      db.memberships

abbrev pub NewDigests : DeviceAuthorization → LoginStore → Type 0
NewDigests row db =
    All
      (λ old.
        (old.device_code_hash ≢ row.device_code_hash) × (old.user_code_hash ≢ row.user_code_hash))
      db.authorizations

-- The authorization is created, polled once, approved and polled again; the last value is the
-- token that the offered prefix and digest authenticate.
unfoldable pub log_in :
    (created_at polled_at approved_at exchanged_at used_at : ℕ) (row : DeviceAuthorization)
    (user_id : Uuid) (first offer : TokenOffer)
    → LoginStore
    → Result LoginError (ExchangeOutcome × ExchangeOutcome × Option AccessToken)
unfolding create_authorization exchange_authorization approve_authorization authenticate_token
log_in created_at polled_at approved_at exchanged_at used_at row user_id first offer db = do
  created ← create_authorization created_at row db
  polled ← exchange_authorization polled_at row.device_code_hash first created
  let accepted = (approve_authorization approved_at row.user_code_hash user_id polled.1).1
  exchanged ← exchange_authorization exchanged_at row.device_code_hash offer accepted
  ok (
    polled.0,
    exchanged.0,
    (authenticate_token used_at offer.prefix offer.token_hash exchanged.1).0,
  )

-- The row stands first in its table.
abbrev pub Heads : DeviceAuthorization → LoginStore → Type 0
Heads row db = (rest : List DeviceAuthorization) × (db.authorizations ≡ row ∷ rest)

pub Heads-update :
    (row : DeviceAuthorization) (change : DeviceAuthorization → DeviceAuthorization)
    (db : LoginStore)
    → Heads row db
    → Heads (change row) (update_authorization row.id change db)
unfolding update_authorization
Heads-update row change db h =
    (map (λ r. if r.id == row.id then change r else r) h.0, let e = h.1 in ground arith)

pub Heads-by_device_code :
    (row : DeviceAuthorization) (db : LoginStore)
    → Heads row db
    → by_device_code row.device_code_hash db ≡ some row
unfolding by_device_code select
Heads-by_device_code row db h = let e = h.1 in ground arith

pub Heads-by_user_code :
    (row : DeviceAuthorization) (db : LoginStore)
    → Heads row db
    → by_user_code row.user_code_hash db ≡ some row
unfolding by_user_code select
Heads-by_user_code row db h = let e = h.1 in ground arith
