-- ===== src/Provider/Rotation.antt =====
-- oidcprovider/storage.go: CreateAccessAndRefreshTokens for a refresh request, and what it does for
-- a token that is unknown, used or unused.
-- What a refresh request does once its token is used up.
use go_auth_x.Base.{Bool, ap, false, list_eq, nat_eq, none, refl, some, true, ◌≡◌}
use go_auth_x.Map.{get, is_some, put}
use go_auth_x.Memory.Oauth.{use_oauth_refresh_token}
use go_auth_x.Memory.Store.{Store}
use go_auth_x.OauthTypes.{OauthRefreshToken}
use go_auth_x.Provider.{
  Fresh, Issued, ProviderConfig, RefreshRequest, denied, invalid_refresh_token, issue_pair, issued,
  live, revoke_by_id,
}
use go_auth_x.Text.{Text}
use go_auth_x.Types.{Result, Time, err, oauth_not_found, oauth_token_used, ok}

unfoldable pub issue_live :
    ProviderConfig → Store → RefreshRequest → Fresh → Bool → Time → Store × Issued Time
unfolding live issue_pair
issue_live cfg st rr fresh metadata_client now = elim (live cfg rr.grant now) [
  | denied e ↦ (st, denied e)
  | issued _ ↦ issue_pair cfg st rr.grant rr.scopes fresh metadata_client now
]

-- What follows the use of the presented token: losing the race for it ends the grant.
after_use :
    ProviderConfig
    → RefreshRequest
    → Fresh
    → Bool
    → Time
    → Store × Result (Unit {0})
    → Store × Issued Time
unfolding revoke_by_id issue_live
after_use cfg rr fresh metadata_client now (st, err oauth_token_used) =
    (revoke_by_id st rr.grant.id now, denied invalid_refresh_token)
after_use cfg rr fresh metadata_client now (st, err _) = (st, denied invalid_refresh_token)
after_use cfg rr fresh metadata_client now (st, ok _) =
    issue_live cfg st rr fresh metadata_client now

-- CreateAccessAndRefreshTokens for a refresh request; `hash` is the hash of the presented token
unfoldable pub rotate :
    ProviderConfig → Store → RefreshRequest → Text → Fresh → Bool → Time → Store × Issued Time
unfolding use_oauth_refresh_token after_use
rotate cfg st rr hash fresh metadata_client now =
    after_use cfg rr fresh metadata_client now (use_oauth_refresh_token st hash now)

abbrev pub spent : Store → Text → OauthRefreshToken → Time → Store
spent st hash t now = record st {
  oauth_refresh = put st.oauth_refresh hash (record t { used_at = some now });
}

module _ (st : Store) (hash : Text) (now : Time) where
  use_unknown :
      get st.oauth_refresh hash ≡ none
      → use_oauth_refresh_token st hash now ≡ (st, err oauth_not_found)
  unfolding use_oauth_refresh_token
  use_unknown e = rw (e, use_oauth_refresh_token) refl

  use_used :
      (t : OauthRefreshToken)
      → get st.oauth_refresh hash ≡ some t
      → is_some t.used_at ≡ true
      → use_oauth_refresh_token st hash now ≡ (st, err oauth_token_used)
  unfolding use_oauth_refresh_token
  use_used t e h = rw (e, h, use_oauth_refresh_token) refl

  use_unused :
      (t : OauthRefreshToken)
      → get st.oauth_refresh hash ≡ some t
      → is_some t.used_at ≡ false
      → use_oauth_refresh_token st hash now ≡ (spent st hash t now, ok tt)
  unfolding use_oauth_refresh_token
  use_unused t e h = rw (e, h, use_oauth_refresh_token) refl

module _ (cfg : ProviderConfig) (st : Store) (rr : RefreshRequest) (hash : Text) (fresh : Fresh)
    (metadata_client : Bool) (now : Time) where
  pub rotate_unknown :
      get st.oauth_refresh hash ≡ none
      → rotate cfg st rr hash fresh metadata_client now ≡ (st, denied invalid_refresh_token)
  unfolding rotate after_use
  rotate_unknown e = ap (after_use cfg rr fresh metadata_client now) (use_unknown st hash now e)

  pub rotate_used :
      (t : OauthRefreshToken)
      → get st.oauth_refresh hash ≡ some t
      → is_some t.used_at ≡ true
      → rotate cfg st rr hash fresh metadata_client now
        ≡ (revoke_by_id st rr.grant.id now, denied invalid_refresh_token)
  unfolding rotate after_use
  rotate_used t e h = ap (after_use cfg rr fresh metadata_client now) (use_used st hash now t e h)

  pub rotate_unused :
      (t : OauthRefreshToken)
      → get st.oauth_refresh hash ≡ some t
      → is_some t.used_at ≡ false
      → rotate cfg st rr hash fresh metadata_client now
        ≡ issue_live cfg (spent st hash t now) rr fresh metadata_client now
  unfolding rotate after_use
  rotate_unused t e h =
      ap (after_use cfg rr fresh metadata_client now) (use_unused st hash now t e h)
