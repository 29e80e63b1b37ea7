-- ===== src/Provider.antt =====
-- oidcprovider/storage.go: the storage that the OP library calls, over the OAuth store. The hash, the
-- random identifiers and the clock are arguments; a warning that is logged has no counterpart.
pub mod Requests
pub mod Rotation
pub mod Tokens
pub mod Ended
pub mod Swept
pub mod Calls
pub mod Replay
pub mod Codes
pub mod Pkce
pub mod Race
pub mod Lifetimes
use go_auth_x.Base.{
  Bool, List, [], false, if◌then◌else◌, inl, inr, list_eq, nat_eq, none, not, refl, some, true, ℕ,
  ◌&&◌, ◌+◌, ◌||◌, ◌≡◌, ◌⊎◌,
}
use go_auth_x.Map.{Map, get, is_some, put}
use go_auth_x.Memory.Oauth.{
  create_oauth_access_token, create_oauth_refresh_token, revoke_oauth_grants, touch_oauth_client,
  use_oauth_refresh_token,
}
use go_auth_x.Memory.Store.{Store}
use go_auth_x.OauthTypes.{OauthAccessToken, OauthGrant, OauthGrantFilter, OauthRefreshToken}
use go_auth_x.Text.{Text}
use go_auth_x.Types.{Time, after, before, err, is_zero, oauth_token_used, ok}

-- The configuration that the storage reads: the lifetimes, and the library's answer for a user who
-- may not sign in, which is the error of Auth.UserBySub.
pub record ProviderConfig : Type 0 where
  pub access_token_ttl : ℕ
  pub refresh_token_ttl : ℕ
  pub auth_request_ttl : ℕ
  pub code_ttl : ℕ
  pub may_sign_in : Text → Bool

pub data ProviderError : Type 0 where
  invalid_refresh_token invalid_grant invalid_token : ProviderError
  invalid_client invalid_request : ProviderError
  access_denied not_found store_failed : ProviderError

pub data Issued {ℓ} (A : Type ℓ) : Type ℓ where
  issued : A → Issued A
  denied : ProviderError → Issued A

pub Issued-cases {ℓ} :
    {A : Type ℓ} (r : Issued A)
    → ((a : A) × (r ≡ issued a)) ⊎ ((e : ProviderError) × (r ≡ denied e))
Issued-cases (issued a) = inl (a, refl)
Issued-cases (denied e) = inr (e, refl)

abbrev pub given {ℓ κ} : {A : Type ℓ} {B : Type κ} → Issued A → (A → Issued B) → Issued B
given (issued a) f = f a
given (denied e) f = denied e

-- capTime
unfoldable pub cap_time : Time → Time → Time
cap_time t limit = if not (is_zero limit) && before limit t then limit else t

-- userOK
abbrev pub user_ok : ProviderConfig → Text → Issued (Unit {0})
user_ok cfg sub = if cfg.may_sign_in sub then issued tt else denied access_denied

-- live
unfoldable pub live : ProviderConfig → OauthGrant → Time → Issued (Unit {0})
live cfg g now =
    if is_some g.revoked_at || (not (is_zero g.expires_at) && after now g.expires_at)
    then denied invalid_refresh_token
    else user_ok cfg g.subject

-- refreshRequest
pub record RefreshRequest : Type 0 where
  pub token : OauthRefreshToken
  pub grant : OauthGrant
  pub scopes : List Text

abbrev pub by_id : Text → OauthGrantFilter
by_id id = record { id = id; ref = []; client_id = []; subject = [] }

-- revokeGrant
unfoldable pub revoke_by_id : Store → Text → Time → Store
unfolding revoke_oauth_grants
revoke_by_id st id now = (revoke_oauth_grants st (by_id id) now).0

abbrev pub grant_of : ProviderConfig → Store → OauthRefreshToken → Time → Issued RefreshRequest
grant_of cfg st t now = elim (get st.oauth_grants t.grant_id) [
  | none ↦ denied invalid_refresh_token
  | some g ↦ elim (live cfg g now) [
    | denied _ ↦ denied invalid_refresh_token
    | issued _ ↦ issued (record { token = t; grant = g; scopes = t.scopes })
  ]
]

-- TokenRequestByRefreshToken; `hash` is the hash of the token
unfoldable pub token_request_by_refresh_token :
    ProviderConfig → Store → Text → Time → Store × Issued RefreshRequest
unfolding revoke_by_id live
token_request_by_refresh_token cfg st hash now = elim (get st.oauth_refresh hash) [
  | none ↦ (st, denied invalid_refresh_token)
  | some t ↦
      if is_some t.used_at
      then (revoke_by_id st t.grant_id now, denied invalid_refresh_token)
      else (if after now t.expires_at
          then (st, denied invalid_refresh_token)
          else (st, grant_of cfg st t now))
]

-- The identifiers that the code draws for the tokens of one answer.
pub record Fresh : Type 0 where
  pub access_id : Text
  pub refresh_hash : Text

-- The token that accessToken makes.
abbrev pub new_access : ProviderConfig → OauthGrant → List Text → Text → Time → OauthAccessToken
new_access cfg g scopes id now = record {
  id = id;
  grant_id = g.id;
  client_id = g.client_id;
  subject = g.subject;
  scopes = scopes;
  expires_at = cap_time (now + cfg.access_token_ttl) g.expires_at;
  created_at = now;
}

-- accessToken; TouchOAuthClient only logs its error
unfoldable pub access_token :
    ProviderConfig → Store → OauthGrant → List Text → Text → Bool → Time → Store × Issued Time
unfolding create_oauth_access_token touch_oauth_client
access_token cfg st g scopes id metadata_client now =
    let t = new_access cfg g scopes id now in
    let (st', made) = create_oauth_access_token st t in
    elim made [
      | err _ ↦ (st', denied store_failed)
      | ok _ ↦ (
        if metadata_client then st' else (touch_oauth_client st' g.client_id now).0,
        issued t.expires_at,
      )
    ]

-- What CreateAccessAndRefreshTokens does once it has a grant.
unfoldable pub issue_pair :
    ProviderConfig → Store → OauthGrant → List Text → Fresh → Bool → Time → Store × Issued Time
unfolding access_token create_oauth_refresh_token cap_time
issue_pair cfg st g scopes fresh metadata_client now =
    let (st', access) = access_token cfg st g scopes fresh.access_id metadata_client now in
    elim access [
      | denied e ↦ (st', denied e)
      | issued expires ↦
          let (st'', made) = create_oauth_refresh_token st' (record {
            hash = fresh.refresh_hash;
            grant_id = g.id;
            client_id = g.client_id;
            subject = g.subject;
            scopes = scopes;
            expires_at = cap_time (now + cfg.refresh_token_ttl) g.expires_at;
            created_at = now;
            used_at = none;
          }) in
          (st'', elim made [ ok _ ↦ issued expires | err _ ↦ denied store_failed ])
    ]
