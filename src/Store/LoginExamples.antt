-- ===== src/Store/LoginExamples.antt =====
-- A device login on a small store, and the theorems about logins at concrete inputs.
use ipa_rs_hetero_cloud.Prelude.{
  ◌≡◌, ◌≢◌, ◌↔◌, refl, inl, ◌<◌, true, none, some, [], ◌∷◌, arith, ok, err,
}
use ipa_rs_hetero_cloud.Store.LoginState.{
  seconds, approved, consumed, DeviceAuthorization, LoginStore, not_found, unique_violation,
  approval_given, approval_not_found, approval_expired, invalid_state, forbidden, still_pending,
  slow_down, invalid_device_code, issued,
}
use ipa_rs_hetero_cloud.Store.DeviceLogin.{
  TokenOffer, token_row, new_authorization, create_authorization, approve_authorization,
  by_device_code, by_user_code, exchange_authorization, authenticate_token, revoke_token, purge,
}
use ipa_rs_hetero_cloud.Store.DeviceLogin.Issue.{exchange_authorization-issued_iff}
use ipa_rs_hetero_cloud.Store.DeviceLogin.Offers.{MayIssue}
use ipa_rs_hetero_cloud.Store.DeviceLogin.Completes.{log_in_completes}
use ipa_rs_hetero_cloud.Store.DeviceLogin.LogIn.{log_in}
use ipa_rs_hetero_cloud.Store.DeviceLogin.SlowDown.{
  exchange_authorization-exchange_authorization_early,
}
use ipa_rs_hetero_cloud.Store.DeviceLogin.Revoked.{authenticate_token-revoke_token}
use ipa_rs_hetero_cloud.Store.DeviceLogin.Runs.{
  approved_by, issued_to, Run, start, creation, approval, issue, IsSound,
}
use ipa_rs_hetero_cloud.Store.DeviceLogin.Runs.Sound.{Run-IsSound}

-- Organization 1 with the member 7, and no login yet.
abbrev accounts : LoginStore
accounts = record {
  organizations = 1 ∷ [];
  memberships =
      record { organization_id = 1; user_id = 7; is_enabled = true; is_active = true } ∷ [];
  authorizations = [];
  tokens = [];
}

abbrev requested : DeviceAuthorization
requested = new_authorization 50 100 200 1 5 (seconds 600)

abbrev offer : TokenOffer
offer = record {
  token_id = 60;
  prefix = "0123456789abcdef";
  token_hash = 300;
  expires_at = seconds 9000;
}

abbrev waiting : LoginStore
waiting = record accounts { authorizations = requested ∷ [] }

abbrev accepted_row : DeviceAuthorization
accepted_row = record requested { approved_user_id = some 7; status = approved }

abbrev accepted : LoginStore
accepted = record accounts { authorizations = accepted_row ∷ [] }

creation_test : create_authorization 0 requested accounts ≡ ok waiting
unfolding create_authorization
creation_test = refl

no_organization_test :
    create_authorization 0 (record requested { organization_id = 2 }) accounts ≡ err not_found
unfolding create_authorization
no_organization_test = refl

same_digest_test : create_authorization 0 requested waiting ≡ err unique_violation
unfolding create_authorization
same_digest_test = refl

-- What has expired is gone.
purge_test : (purge (seconds 600) waiting).authorizations ≡ []
unfolding purge
purge_test = refl

approval_test : approve_authorization (seconds 9) 200 7 waiting ≡ (approval_given, accepted)
unfolding approve_authorization
approval_test = refl

outsider_test : (approve_authorization (seconds 9) 200 8 waiting).0 ≡ forbidden
unfolding approve_authorization
outsider_test = refl

late_approval_test : (approve_authorization (seconds 600) 200 7 waiting).0 ≡ approval_expired
unfolding approve_authorization
late_approval_test = refl

unknown_code_test : (approve_authorization (seconds 9) 201 7 waiting).0 ≡ approval_not_found
unfolding approve_authorization
unknown_code_test = refl

second_approval_test : (approve_authorization (seconds 10) 200 7 accepted).0 ≡ invalid_state
unfolding approve_authorization
second_approval_test = refl

abbrev polled : LoginStore
polled = record accounts {
  authorizations = record requested { last_polled_at = some (seconds 1) } ∷ [];
}

pending_test : exchange_authorization (seconds 1) 100 offer waiting ≡ ok (still_pending, polled)
unfolding exchange_authorization
pending_test = refl

abbrev exchanged : LoginStore
exchanged = record accounts {
  authorizations =
      record accepted_row { status = consumed; last_polled_at = some (seconds 10) } ∷ [];
  tokens = token_row offer 7 1 ∷ [];
}

issue_test :
    exchange_authorization (seconds 10) 100 offer accepted
    ≡ ok (issued 60 7 1 (seconds 9000), exchanged)
unfolding exchange_authorization
issue_test = refl

used_code_test :
    exchange_authorization (seconds 20) 100 offer exchanged ≡ ok (invalid_device_code, exchanged)
unfolding exchange_authorization
used_code_test = refl

waiting_found : by_device_code 100 waiting ≡ some requested
unfolding by_device_code
waiting_found = refl

waiting_by_user : by_user_code 200 waiting ≡ some requested
unfolding by_user_code
waiting_by_user = refl

accepted_found : by_device_code 100 accepted ≡ some accepted_row
unfolding by_device_code
accepted_found = refl

exchange_authorization-issued_iff_example :
    ((after : LoginStore) × (exchange_authorization (seconds 10) 100 offer accepted
        ≡ ok (issued offer.token_id 7 1 offer.expires_at, after)))
    ↔ ((row : DeviceAuthorization) × (by_device_code 100 accepted ≡ some row)
        × (row.organization_id ≡ 1)
        × MayIssue (seconds 10) offer accepted 7 row)
exchange_authorization-issued_iff_example =
    exchange_authorization-issued_iff (seconds 10) 100 offer accepted 7 1

log_in_completes_example :
    log_in 0 (seconds 1) (seconds 9) (seconds 10) (seconds 11) requested 7 offer offer accounts
    ≡ ok (still_pending, issued 60 7 1 (seconds 9000), some (token_row offer 7 1))
unfolding purge
log_in_completes_example =
    log_in_completes 0 (seconds 1) (seconds 9) (seconds 10) (seconds 11) 50 100 200 1 5
      (seconds 600) 7 offer offer accounts (inl refl) tt (omega arith) (omega arith) (omega arith)
      (omega arith) (inl (refl, refl, refl, refl)) tt (omega arith)

exchange_authorization-exchange_authorization_early_example :
    exchange_authorization (seconds 3) 100 offer polled ≡ ok (slow_down, polled)
exchange_authorization-exchange_authorization_early_example =
    exchange_authorization-exchange_authorization_early (seconds 1) (seconds 3) 100 offer offer
      requested waiting polled waiting_found pending_test (omega arith) (omega arith)

-- Two tokens, of which the first is revoked; the other one still authenticates.
abbrev other : TokenOffer
other = record {
  token_id = 61;
  prefix = "fedcba9876543210";
  token_hash = 301;
  expires_at = seconds 9000;
}

abbrev two_tokens : LoginStore
two_tokens = record accounts { tokens = token_row offer 7 1 ∷ token_row other 7 1 ∷ [] }

still_live :
    (authenticate_token
      (seconds 12)
      "fedcba9876543210"
      301
      (revoke_token (seconds 11) 60 two_tokens)).0
    ≡ some (token_row other 7 1)
unfolding authenticate_token revoke_token
still_live = refl

authenticate_token-revoke_token_example :
    ((token_row other 7 1).id ≢ 60)
    × ((token_row other 7 1).revoked_at ≡ none)
    × (seconds 12 < (token_row other 7 1).expires_at)
authenticate_token-revoke_token_example =
    authenticate_token-revoke_token (seconds 11) (seconds 12) 60 "fedcba9876543210" 301 two_tokens
      (token_row other 7 1) still_live

abbrev full_run : Run exchanged (issued_to 50 7 ∷ approved_by 50 7 ∷ [])
full_run =
    issue accepted exchanged (approved_by 50 7 ∷ []) (seconds 10) 100 offer accepted_row 60 7 1
      (seconds 9000)
      (approval waiting accepted [] (seconds 9) 200 7 requested
        (creation accounts waiting [] 0 50 100 200 1 5 (seconds 600) (start accounts refl) tt
          creation_test)
        waiting_by_user approval_test)
      accepted_found issue_test

Run-IsSound_example : IsSound (issued_to 50 7 ∷ approved_by 50 7 ∷ [])
Run-IsSound_example = Run-IsSound exchanged (issued_to 50 7 ∷ approved_by 50 7 ∷ []) full_run
