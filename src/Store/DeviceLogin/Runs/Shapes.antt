-- ===== src/Store/DeviceLogin/Runs/Shapes.antt =====
-- What approvals and exchanges write, by their outcomes.
use ipa_rs_hetero_cloud.Prelude.{◌≡◌, ◌≢◌, refl, ◌⊎◌, ℕ, Option, none, some, arith, Result, ok, err}
use ipa_rs_hetero_cloud.Domain.Vpc.{Uuid}
use ipa_rs_hetero_cloud.Store.LoginState.{
  pending, DeviceAuthorization, LoginStore, LoginError, ApprovalOutcome, approval_given,
  ExchangeOutcome, issued, update_authorization,
}
use ipa_rs_hetero_cloud.Store.DeviceLogin.{
  TokenOffer, approve_row, approve_found, poll_row, consume_row, insert_token, issue_token,
  exchange_polled, exchange_found,
}
use ipa_rs_hetero_cloud.Store.DeviceLogin.Runs.{IsNot}
use ipa_rs_hetero_cloud.Store.DeviceLogin.Issue.{exchange_found-issued}
use ipa_rs_hetero_cloud.Store.DeviceLogin.Offers.{MayIssue}

pub approve_given :
    (now : ℕ) (user_id : Uuid) (db after : LoginStore) (row : DeviceAuthorization)
    → approve_found now user_id db row ≡ (approval_given, after)
    → (row.status ≡ pending) × (after ≡ update_authorization row.id (approve_row user_id) db)
unfolding approve_found
approve_given now user_id db after row h = ground arith

pub approve_refused :
    (now : ℕ) (user_id : Uuid) (db after : LoginStore) (row : DeviceAuthorization)
    (outcome : ApprovalOutcome)
    → outcome ≢ approval_given
    → approve_found now user_id db row ≡ (outcome, after)
    → after ≡ db
unfolding approve_found
approve_refused now user_id db after row outcome apart h = ground arith

insert_token_authorizations :
    (offer : TokenOffer) (user_id organization_id : Uuid) (db after : LoginStore)
    → insert_token offer user_id organization_id db ≡ ok after
    → after.authorizations ≡ db.authorizations
unfolding insert_token
insert_token_authorizations offer user_id organization_id db after h = ground arith

issue_token_shape :
    (offer : TokenOffer) (db polled : LoginStore) (row : DeviceAuthorization) (user_id t u o : Uuid)
    (e : ℕ) (after : LoginStore)
    → issue_token offer db polled row user_id ≡ ok (issued t u o e, after)
    → after.authorizations ≡ (update_authorization row.id consume_row polled).authorizations
unfolding issue_token update_authorization
issue_token_shape offer db polled row user_id t u o e after h =
    by_parts (insert_token offer user_id row.organization_id polled) refl
  where
    by_parts :
        (inserted : Result LoginError LoginStore)
        → insert_token offer user_id row.organization_id polled ≡ inserted
        → after.authorizations ≡ (update_authorization row.id consume_row polled).authorizations
    by_parts (ok with_token) i =
        ground
          (arith, insert_token_authorizations offer user_id row.organization_id polled with_token i)
    by_parts (err x) i = absurd (ground arith)

pub exchange_issued :
    (now : ℕ) (offer : TokenOffer) (db : LoginStore) (row : DeviceAuthorization) (t u o : Uuid)
    (e : ℕ) (after : LoginStore)
    → exchange_found now offer db row ≡ ok (issued t u o e, after)
    → after.authorizations
      ≡ (update_authorization row.id consume_row
          (update_authorization row.id (poll_row now) db)).authorizations
unfolding exchange_found exchange_polled
exchange_issued now offer db row t u o e after h =
    by_parts row.approved_user_id refl (exchange_found-issued now offer db row t u o e after h).0
  where
    polled : LoginStore
    polled = update_authorization row.id (poll_row now) db

    by_parts :
        (user : Option Uuid)
        → row.approved_user_id ≡ user
        → MayIssue now offer db u row
        → after.authorizations ≡ (update_authorization row.id consume_row polled).authorizations
    by_parts none by may = let b = may.by_user in absurd (cc)
    by_parts (some user_id) by may =
        let is = may.is_approved in
        issue_token_shape offer db polled row user_id t u o e after (ground arith)

-- An answer without a token leaves the store, or the store with the time of the poll.
pub exchange_unissued :
    (now : ℕ) (offer : TokenOffer) (db : LoginStore) (row : DeviceAuthorization)
    (outcome : ExchangeOutcome) (after : LoginStore)
    → IsNot outcome
    → exchange_found now offer db row ≡ ok (outcome, after)
    → (after ≡ db) ⊎ (after ≡ update_authorization row.id (poll_row now) db)
unfolding exchange_found exchange_polled issue_token
exchange_unissued now offer db row outcome after unissued h = by_user row.approved_user_id refl
  where
    polled : LoginStore
    polled = update_authorization row.id (poll_row now) db

    by_parts :
        (user_id : Uuid) (inserted : Result LoginError LoginStore)
        → row.approved_user_id ≡ some user_id
        → insert_token offer user_id row.organization_id polled ≡ inserted
        → (after ≡ db) ⊎ (after ≡ update_authorization row.id (poll_row now) db)
    by_parts user_id (ok with_token) by i = ground arith
    by_parts user_id (err x) by i = ground arith

    by_user :
        (user : Option Uuid)
        → row.approved_user_id ≡ user
        → (after ≡ db) ⊎ (after ≡ update_authorization row.id (poll_row now) db)
    by_user none by = ground arith
    by_user (some user_id) by =
        by_parts user_id (insert_token offer user_id row.organization_id polled) by refl
