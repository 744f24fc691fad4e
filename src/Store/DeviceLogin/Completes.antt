-- ===== src/Store/DeviceLogin/Completes.antt =====
-- A login from its creation to the first use of its token.
use ipa_rs_hetero_cloud.Prelude.{
  ◌≡◌, ◌≢◌, refl, ℕ, ◌+◌, ◌<◌, ◌≤◌, Bool, true, false, none, some, List, [], ◌∷◌, arith, ◌==◌, ◌&&◌,
  ◌||◌, ==_iff, All, Any, any, any_iff, Any-map, ok, eq_iff,
}
use ipa_rs_hetero_cloud.Domain.Vpc.{Uuid}
use ipa_rs_hetero_cloud.Store.LoginState.{
  Digest, seconds, pending, DeviceAuthorization, MemberRow, LoginStore, approval_given,
  still_pending, issued, is_member, update_authorization,
}
use ipa_rs_hetero_cloud.Store.DeviceLogin.{
  TokenOffer, token_row, purge, new_authorization, create_authorization, approve_row, approve_found,
  approve_authorization, poll_row, polled_too_soon, exchange_polled, exchange_found,
  exchange_authorization, admits, first_token, authenticate_token,
}
use ipa_rs_hetero_cloud.Store.DeviceLogin.Issue.{exchange_found-MayIssue, issued_store}
use ipa_rs_hetero_cloud.Store.DeviceLogin.Offers.{IsMember, IsNewToken, MayIssue, is_member_iff}
use ipa_rs_hetero_cloud.Store.DeviceLogin.LogIn.{
  IsActiveMember, NewDigests, log_in, Heads, Heads-update, Heads-by_device_code, Heads-by_user_code,
}

created_lem :
    (now : ℕ) (row : DeviceAuthorization) (db : LoginStore)
    → Any (λ id. id ≡ row.organization_id) db.organizations
    → NewDigests row (purge now db)
    → create_authorization now row db
      ≡ ok (record (purge now db) { authorizations = row ∷ (purge now db).authorizations })
unfolding create_authorization
created_lem now row db organization new =
    let known =
      (any_iff (λ id. id == row.organization_id) db.organizations).1
        (Any-map (λ id e. (==_iff id row.organization_id).1 e) db.organizations organization) in
    let free = no_old (purge now db).authorizations new in ground arith
  where
    no_old :
        (rows : List DeviceAuthorization)
        → All
            (λ old.
              (old.device_code_hash ≢ row.device_code_hash)
              × (old.user_code_hash ≢ row.user_code_hash))
            rows
        → any
            (λ old.
              old.device_code_hash == row.device_code_hash
              || old.user_code_hash == row.user_code_hash)
            rows
          ≡ false
    no_old [] h = refl
    no_old (old ∷ rest) h = let ih = no_old rest h.1 in ground arith

first_poll_lem :
    (now : ℕ) (offer : TokenOffer) (row : DeviceAuthorization) (db : LoginStore)
    → row.status ≡ pending
    → row.last_polled_at ≡ none
    → now < row.expires_at
    → Heads row db
    → exchange_authorization now row.device_code_hash offer db
      ≡ ok (still_pending, update_authorization row.id (poll_row now) db)
unfolding exchange_authorization exchange_found polled_too_soon exchange_polled
first_poll_lem now offer row db is never in_time heads =
    let found = Heads-by_device_code row db heads in ground arith

approved_lem :
    (now : ℕ) (user_id : Uuid) (row : DeviceAuthorization) (db : LoginStore)
    → row.status ≡ pending
    → now < row.expires_at
    → is_member row.organization_id user_id db.memberships ≡ true
    → Heads row db
    → approve_authorization now row.user_code_hash user_id db
      ≡ (approval_given, update_authorization row.id (approve_row user_id) db)
unfolding approve_authorization approve_found
approved_lem now user_id row db is in_time member heads =
    let found = Heads-by_user_code row db heads in ground arith

exchanged_lem :
    (now : ℕ) (offer : TokenOffer) (user_id : Uuid) (row : DeviceAuthorization) (db : LoginStore)
    → MayIssue now offer db user_id row
    → Heads row db
    → exchange_authorization now row.device_code_hash offer db
      ≡ ok (
        issued offer.token_id user_id row.organization_id offer.expires_at,
        issued_store now offer user_id row db,
      )
unfolding exchange_authorization
exchanged_lem now offer user_id row db may heads =
    let found = Heads-by_device_code row db heads in
    let issue = exchange_found-MayIssue now offer db user_id row may in ground arith

used_lem :
    (now used_at : ℕ) (offer : TokenOffer) (user_id : Uuid) (row : DeviceAuthorization)
    (db : LoginStore)
    → IsActiveMember row.organization_id user_id db
    → used_at < offer.expires_at
    → (authenticate_token used_at offer.prefix offer.token_hash
        (issued_store now offer user_id row db)).0
      ≡ some (token_row offer user_id row.organization_id)
unfolding authenticate_token admits first_token update_authorization
used_lem now used_at offer user_id row db active in_time =
    let member =
      (any_iff test db.memberships).1 (Any-map (λ m e. passes m e) db.memberships active) in
    let same = (eq_iff offer.prefix offer.prefix).1 refl in ground arith
  where
    test : MemberRow → Bool
    test m =
        m.user_id == user_id
        && m.organization_id == row.organization_id
        && m.is_enabled
        && m.is_active

    passes :
        (m : MemberRow)
        → (m.organization_id ≡ row.organization_id)
          × (m.user_id ≡ user_id)
          × (m.is_enabled ≡ true)
          × (m.is_active ≡ true)
        → test m ≡ true
    passes m e = ground arith

-- A login under a new pair of digests for an existing organization completes: polled before its
-- expiry it is pending; approved in time by an active member with an enabled principal, and polled
-- again in time and at least the interval after the first poll, with an offer whose prefix and digest
-- no kept token has, it yields that member's token, which authenticates until it expires.
pub log_in_completes :
    (created_at polled_at approved_at exchanged_at used_at : ℕ) (id : Uuid)
    (device_code_hash user_code_hash : Digest) (organization_id : Uuid) (interval expires_at : ℕ)
    (user_id : Uuid) (first offer : TokenOffer) (db : LoginStore)
    → Any (λ o. o ≡ organization_id) db.organizations
    → NewDigests
        (new_authorization id device_code_hash user_code_hash organization_id interval expires_at)
        (purge created_at db)
    → polled_at < expires_at
    → approved_at < expires_at
    → exchanged_at < expires_at
    → polled_at + seconds interval ≤ exchanged_at
    → IsActiveMember organization_id user_id db
    → IsNewToken offer (purge created_at db)
    → used_at < offer.expires_at
    → log_in created_at polled_at approved_at exchanged_at used_at
        (new_authorization id device_code_hash user_code_hash organization_id interval expires_at)
        user_id
        first
        offer
        db
      ≡ ok (
        still_pending,
        issued offer.token_id user_id organization_id offer.expires_at,
        some (token_row offer user_id organization_id),
      )
unfolding log_in purge update_authorization
log_in_completes created_at polled_at approved_at exchanged_at used_at id device_code_hash
      user_code_hash organization_id interval expires_at user_id first offer db organization new
      poll_in_time approve_in_time exchange_in_time waited active new_token use_in_time =
    let created = created_lem created_at row0 db organization new in
    let polled = first_poll_lem polled_at first row0 store1 refl refl poll_in_time (_, refl) in
    let accepted =
      approved_lem approved_at user_id row1 store2 refl approve_in_time
        ((is_member_iff organization_id user_id db).1 member) heads2 in
    let exchanged =
      exchanged_lem exchanged_at offer user_id row2 store3
        (record {
          in_time = exchange_in_time;
          is_approved = refl;
          by_user = refl;
          is_member_still = member;
          waited = λ last e. ground arith;
          is_new = new_token;
        })
        heads3 in
    let used = used_lem exchanged_at used_at offer user_id row2 store3 active use_in_time in
    ground arith
  where
    row0 : DeviceAuthorization
    row0 = new_authorization id device_code_hash user_code_hash organization_id interval expires_at

    row1 : DeviceAuthorization
    row1 = poll_row polled_at row0

    row2 : DeviceAuthorization
    row2 = approve_row user_id row1

    store1 : LoginStore
    store1 = record (purge created_at db) {
      authorizations = row0 ∷ (purge created_at db).authorizations;
    }

    store2 : LoginStore
    store2 = update_authorization row0.id (poll_row polled_at) store1

    store3 : LoginStore
    store3 = update_authorization row1.id (approve_row user_id) store2

    heads2 : Heads row1 store2
    heads2 = Heads-update row0 (poll_row polled_at) store1 (_, refl)

    heads3 : Heads row2 store3
    heads3 = Heads-update row1 (approve_row user_id) store2 heads2

    member : IsMember organization_id user_id db
    member = Any-map (λ m e. (e.0, e.1)) db.memberships active
