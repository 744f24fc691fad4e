-- ===== src/Store/DeviceLogin/Revoked.antt =====
-- Tokens that are revoked.
use ipa_rs_hetero_cloud.Prelude.{
  ◌≡◌, ◌≢◌, subst, inl, inr, ℕ, ◌<◌, String, Bool, true, false, none, some, List, [], ◌∷◌, map,
  arith, ◌==◌, ◌&&◌, All, if◌then◌else◌, Bool-cases, is_none,
}
use ipa_rs_hetero_cloud.Domain.Vpc.{Uuid}
use ipa_rs_hetero_cloud.Store.LoginState.{Digest, AccessToken, LoginStore}
use ipa_rs_hetero_cloud.Store.DeviceLogin.{admits, first_token, authenticate_token, revoke_token}

first_token-passes :
    (test : AccessToken → Bool) (tokens : List AccessToken) (token : AccessToken)
    → first_token test tokens ≡ some token
    → test token ≡ true
unfolding first_token
first_token-passes test [] token h = cc
first_token-passes test (t ∷ rest) token h = elim (Bool-cases (test t)) [
  | inl e ↦ ground arith
  | inr e ↦ first_token-passes test rest token (ground arith)
]

first_token-All :
    (P : AccessToken → Type 0) (test : AccessToken → Bool) (tokens : List AccessToken)
    (token : AccessToken)
    → All P tokens
    → first_token test tokens ≡ some token
    → P token
unfolding first_token
first_token-All P test [] token all h = absurd (ground arith)
first_token-All P test (t ∷ rest) token all h = elim (Bool-cases (test t)) [
  | inl e ↦ let same : t ≡ token = ground arith in subst P same all.0
  | inr e ↦ first_token-All P test rest token all.1 (ground arith)
]

abbrev pub IsRevoked : Uuid → AccessToken → Type 0
IsRevoked token_id token = token.id ≡ token_id → is_none token.revoked_at ≡ false

revoke_token-All :
    (now : ℕ) (token_id : Uuid) (db : LoginStore)
    → All (IsRevoked token_id) (revoke_token now token_id db).tokens
unfolding revoke_token
revoke_token-All now token_id db = over db.tokens
  where
    change : AccessToken → AccessToken
    change t =
        if t.id == token_id && is_none t.revoked_at then record t { revoked_at = some now } else t

    over : (tokens : List AccessToken) → All (IsRevoked token_id) (map change tokens)
    over [] = tt
    over (t ∷ rest) = (λ e. ground arith, over rest)

-- What a request authenticates behind the revocation of a token is another token, not revoked and
-- unexpired.
pub authenticate_token-revoke_token :
    (revoked_at now : ℕ) (token_id : Uuid) (prefix : String) (token_hash : Digest) (db : LoginStore)
    (token : AccessToken)
    → (authenticate_token now prefix token_hash (revoke_token revoked_at token_id db)).0
      ≡ some token
    → (token.id ≢ token_id) × (token.revoked_at ≡ none) × (now < token.expires_at)
unfolding authenticate_token admits
authenticate_token-revoke_token revoked_at now token_id prefix token_hash db token h =
    let revoked = revoke_token revoked_at token_id db in
    let live = first_token-passes (admits now prefix token_hash revoked) revoked.tokens token h in
    let off =
      first_token-All (IsRevoked token_id) (admits now prefix token_hash revoked) revoked.tokens
        token (revoke_token-All revoked_at token_id db) h in
    ((λ e. let r = off e in ground arith), ground arith, ground arith)
