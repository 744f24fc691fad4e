-- ===== src/Store/DeviceLogin/Runs/Sound.antt =====
-- What every run of device logins keeps: the log is sound, and agrees with the rows.
use ipa_rs_hetero_cloud.Prelude.{
  ◌≡◌, ◌≢◌, refl, sym, subst, inl, inr, ℕ, Option, none, some, List, [], ◌∷◌, arith, ◌==◌, All, Any,
  ok, ◌⊗◌, leb,
}
use ipa_rs_hetero_cloud.Domain.Vpc.{Uuid}
use ipa_rs_hetero_cloud.Store.LoginState.{
  Digest, pending, approved, consumed, DeviceAuthorization, LoginStore, ApprovalOutcome,
  approval_given, ExchangeOutcome, issued, update_authorization,
}
use ipa_rs_hetero_cloud.Store.DeviceLogin.{
  TokenOffer, purge, new_authorization, create_authorization, by_user_code, by_device_code,
  approve_row, approve_authorization, poll_row, consume_row, exchange_found, exchange_authorization,
  authenticate_token, revoke_token,
}
use ipa_rs_hetero_cloud.Store.DeviceLogin.Rows.{All-update, All-keep_rows, All-select}
use ipa_rs_hetero_cloud.Store.DeviceLogin.Runs.{
  LoginEvent, approved_by, issued_to, authorization_of, IsUnspent, IsNot, Run, start, creation,
  approval, refusal, issue, poll, authentication, revocation, membership, IsSound,
}
use ipa_rs_hetero_cloud.Store.DeviceLogin.Runs.Shapes.{
  approve_given, approve_refused, exchange_issued, exchange_unissued,
}
use ipa_rs_hetero_cloud.Store.DeviceLogin.Issue.{exchange_found-issued}

-- What the log says about a row.
pub record Agrees (log : List LoginEvent) (row : DeviceAuthorization) : Type 0 where
  pub unspent : row.status ≢ consumed → IsUnspent row.id log
  pub approver :
      (user_id : Uuid)
      → row.status ≡ approved
      → row.approved_user_id ≡ some user_id
      → Any (λ event. event ≡ approved_by row.id user_id) log

abbrev AllAgree : List LoginEvent → LoginStore → Type 0
AllAgree log db = All (Agrees log) db.authorizations

-- The steps on one row.
weaken_approved :
    (log : List LoginEvent) (id user_id : Uuid) (row : DeviceAuthorization)
    → Agrees log row
    → Agrees (approved_by id user_id ∷ log) row
weaken_approved log id user_id row a = record {
  unspent = a.unspent;
  approver = λ u is by. inr (a.approver u is by);
}

approve_row-Agrees :
    (log : List LoginEvent) (user_id : Uuid) (found row : DeviceAuthorization)
    → Agrees log found
    → found.status ≡ pending
    → row.id ≡ found.id
    → Agrees (approved_by found.id user_id ∷ log) (approve_row user_id row)
approve_row-Agrees log user_id found row a is same = record {
  unspent = λ h. subst (λ id. IsUnspent id log) (sym same) (a.unspent (λ e. ground arith));
  approver = λ u h by. inl (ground arith);
}

poll_row-Agrees :
    (log : List LoginEvent) (now : ℕ) (row : DeviceAuthorization)
    → Agrees log row
    → Agrees log (poll_row now row)
poll_row-Agrees log now row a = record { unspent = a.unspent; approver = a.approver }

consume_row-Agrees :
    (log : List LoginEvent) (row : DeviceAuthorization) → Agrees log (consume_row row)
consume_row-Agrees log row = record {
  unspent = λ h. absurd (h refl);
  approver = λ u h by. absurd (ground arith);
}

weaken_issued :
    (log : List LoginEvent) (id user_id : Uuid) (row : DeviceAuthorization)
    → Agrees log row
    → row.id ≢ id
    → Agrees (issued_to id user_id ∷ log) row
weaken_issued log id user_id row a apart = record {
  unspent = λ h. ((λ e. apart (sym e)), a.unspent h);
  approver = λ u is by. inr (a.approver u is by);
}

-- A new row under an id that the log does not name.
IsUnspent-new :
    (id : Uuid) (log : List LoginEvent)
    → All (λ event. authorization_of event ≢ id) log
    → IsUnspent id log
IsUnspent-new id [] h = tt
IsUnspent-new id (approved_by other user_id ∷ log) h = IsUnspent-new id log h.1
IsUnspent-new id (issued_to other user_id ∷ log) h = (h.0, IsUnspent-new id log h.1)

-- The stores that the operations leave.
purge-AllAgree :
    (log : List LoginEvent) (now : ℕ) (db : LoginStore)
    → AllAgree log db
    → AllAgree log (purge now db)
unfolding purge
purge-AllAgree log now db all =
    All-keep_rows (Agrees log) (λ row. leb row.expires_at now) db.authorizations all

create_AllAgree :
    (log : List LoginEvent) (now : ℕ) (row : DeviceAuthorization) (db after : LoginStore)
    → create_authorization now row db ≡ ok after
    → Agrees log row
    → AllAgree log db
    → AllAgree log after
unfolding create_authorization
create_AllAgree log now row db after h fresh all =
    let shape : after.authorizations ≡ row ∷ (purge now db).authorizations = ground arith in
    subst (All (Agrees log)) (sym shape) (fresh, purge-AllAgree log now db all)

approve_AllAgree :
    (log : List LoginEvent) (now : ℕ) (hash : Digest) (user_id : Uuid) (row : DeviceAuthorization)
    (db after : LoginStore)
    → by_user_code hash db ≡ some row
    → approve_authorization now hash user_id db ≡ (approval_given, after)
    → AllAgree log db
    → AllAgree (approved_by row.id user_id ∷ log) after
unfolding by_user_code approve_authorization
approve_AllAgree log now hash user_id row db after found h all =
    let agrees =
      All-select (Agrees log) (λ r. r.user_code_hash == hash) db.authorizations row all found in
    let (is, shape) = approve_given now user_id db after row (ground arith) in
    subst (AllAgree (approved_by row.id user_id ∷ log)) (sym shape) (
      All-update row.id (approve_row user_id) db
        (λ r a same. approve_row-Agrees log user_id row r agrees is same)
        (λ r a apart. weaken_approved log row.id user_id r a) all)

issue_AllAgree :
    (log : List LoginEvent) (now : ℕ) (hash : Digest) (offer : TokenOffer)
    (row : DeviceAuthorization) (t u o : Uuid) (e : ℕ) (db after : LoginStore)
    → by_device_code hash db ≡ some row
    → exchange_authorization now hash offer db ≡ ok (issued t u o e, after)
    → AllAgree log db
    → (IsUnspent row.id log ⊗ Any (λ event. event ≡ approved_by row.id u) log)
      ⊗ AllAgree (issued_to row.id u ∷ log) after
unfolding by_device_code exchange_authorization
issue_AllAgree log now hash offer row t u o e db after found h all =
    let agrees =
      All-select (Agrees log) (λ r. r.device_code_hash == hash) db.authorizations row all found in
    let h' : exchange_found now offer db row ≡ ok (issued t u o e, after) = ground arith in
    let may = (exchange_found-issued now offer db row t u o e after h').0 in
    let polled = update_authorization row.id (poll_row now) db in
    let is = may.is_approved in
    (
      (agrees.unspent (λ c. ground arith), agrees.approver u is may.by_user),
      subst (All (Agrees (issued_to row.id u ∷ log)))
          (sym (exchange_issued now offer db row t u o e after h'))
          (All-update row.id consume_row polled
            (λ r a same. consume_row-Agrees (issued_to row.id u ∷ log) r)
            (λ r a apart. weaken_issued log row.id u r a apart)
            (All-update row.id (poll_row now) db (λ r a same. poll_row-Agrees log now r a)
              (λ r a apart. a) all)),
    )

poll_AllAgree :
    (log : List LoginEvent) (now : ℕ) (hash : Digest) (offer : TokenOffer)
    (outcome : ExchangeOutcome) (db after : LoginStore)
    → IsNot outcome
    → exchange_authorization now hash offer db ≡ ok (outcome, after)
    → AllAgree log db
    → AllAgree log after
unfolding exchange_authorization
poll_AllAgree log now hash offer outcome db after unissued h all =
    by_row (by_device_code hash db) refl
  where
    by_row :
        (slot : Option DeviceAuthorization) → by_device_code hash db ≡ slot → AllAgree log after
    by_row none e = let same : db ≡ after = ground arith in subst (AllAgree log) same all
    by_row (some row) e =
        elim (exchange_unissued now offer db row outcome after unissued (ground arith)) [
          | inl same ↦ subst (AllAgree log) (sym same) all
          | inr polled ↦ subst (AllAgree log) (sym polled) (
              All-update row.id (poll_row now) db (λ r a same. poll_row-Agrees log now r a)
                (λ r a apart. a) all)
        ]

refused_AllAgree :
    (log : List LoginEvent) (now : ℕ) (hash : Digest) (user_id : Uuid) (outcome : ApprovalOutcome)
    (db after : LoginStore)
    → outcome ≢ approval_given
    → approve_authorization now hash user_id db ≡ (outcome, after)
    → AllAgree log db
    → AllAgree log after
unfolding approve_authorization
refused_AllAgree log now hash user_id outcome db after apart h all =
    by_row (by_user_code hash db) refl
  where
    by_row : (slot : Option DeviceAuthorization) → by_user_code hash db ≡ slot → AllAgree log after
    by_row none e = let same : db ≡ after = ground arith in subst (AllAgree log) same all
    by_row (some row) e =
        subst (AllAgree log)
          (sym (approve_refused now user_id db after row outcome apart (ground arith))) all

Run_kept : (db : LoginStore) (log : List LoginEvent) → Run db log → IsSound log ⊗ AllAgree log db
unfolding authenticate_token revoke_token
Run_kept _ _ (start db none_yet) = (tt, subst (All (Agrees [])) (sym none_yet) tt)
Run_kept _ _ (creation db after log now id device user organization interval expires run fresh h) =
    let (sound, all) = Run_kept db log run in
    (
      sound,
      create_AllAgree log now (new_authorization id device user organization interval expires) db
          after h
          (record {
            unspent = λ c. IsUnspent-new id log fresh;
            approver = λ u is by. absurd (ground arith);
          })
          all,
    )
Run_kept _ _ (approval db after log now hash user_id row run found h) =
    let (sound, all) = Run_kept db log run in
    (sound, approve_AllAgree log now hash user_id row db after found h all)
Run_kept _ _ (refusal db after log now hash user_id outcome run apart h) =
    let (sound, all) = Run_kept db log run in
    (sound, refused_AllAgree log now hash user_id outcome db after apart h all)
Run_kept _ _ (issue db after log now hash offer row t u o e run found h) =
    let (sound, all) = Run_kept db log run in
    let (facts, agree) = issue_AllAgree log now hash offer row t u o e db after found h all in
    ((facts.0, (facts.1, sound)), agree)
Run_kept _ _ (poll db after log now hash offer outcome run unissued h) =
    let (sound, all) = Run_kept db log run in
    (sound, poll_AllAgree log now hash offer outcome db after unissued h all)
Run_kept _ _ (authentication db log now prefix token_hash run) = Run_kept db log run
Run_kept _ _ (revocation db log now token_id run) = Run_kept db log run
Run_kept _ _ (membership db log organizations memberships run) = Run_kept db log run

-- In every run of creations, approvals, exchanges, authentications, revocations and changes of
-- members, each token was issued for an authorization that had issued none before, and that the
-- token's user had approved before.
pub Run-IsSound : (db : LoginStore) (log : List LoginEvent) → Run db log → IsSound log
Run-IsSound db log run = (Run_kept db log run).0
