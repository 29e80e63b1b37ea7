-- ===== src/Provider/Requests.antt =====
-- oidcprovider/storage.go: authorization requests, their codes, and the grant that an approved one
-- becomes.
use go_auth_x.Base.{
  Bool, if◌then◌else◌, inl, inr, list_eq, ltb, nat_eq, none, not, ℕ, ◌+◌, ◌||◌, ◌⊎◌,
}
use go_auth_x.Map.{Map, delete_if, get, is_some, put}
use go_auth_x.Memory.Oauth.{
  create_oauth_grant, oauth_auth_request, oauth_auth_request_by_code, save_oauth_auth_request,
}
use go_auth_x.Memory.Store.{Store}
use go_auth_x.OauthTypes.{OauthAuthRequest, OauthGrant}
use go_auth_x.Org.Joining.{grant}
use go_auth_x.Provider.{
  Fresh, Issued, ProviderConfig, RefreshRequest, access_token, denied, invalid_grant, issue_pair,
  issued, live, not_found, store_failed, user_ok,
}
use go_auth_x.Text.{Text}
use go_auth_x.Types.{Time, err, ok}

-- storage: the OAuth store, and the codes that this process has exchanged
pub record Storage : Type 0 where
  pub st : Store
  pub codes : Map Text Time

-- time.Since(t) > ttl, at the time `now`
abbrev pub is_older : Time → ℕ → Time → Bool
is_older t ttl now = ltb (t + ttl) now

-- request
unfoldable pub request : ProviderConfig → Store → Text → Time → Issued OauthAuthRequest
request cfg st id now = elim (oauth_auth_request st id) [
  | err _ ↦ denied not_found
  | ok r ↦ if is_older r.created_at cfg.auth_request_ttl now then denied not_found else issued r
]

-- The request under a code, where the code is not too old.
abbrev pub request_of : ProviderConfig → Store → Text → Time → Issued OauthAuthRequest
request_of cfg st hash now = elim (oauth_auth_request_by_code st hash) [
  | err _ ↦ denied not_found
  | ok r ↦
      if not r.done
        || (is_older r.code_at cfg.code_ttl now || is_older r.created_at cfg.auth_request_ttl now)
      then denied invalid_grant
      else issued r
]

-- AuthRequestByCode; `hash` is the hash of the code
unfoldable pub auth_request_by_code :
    ProviderConfig → Storage → Text → Time → Storage × Issued OauthAuthRequest
auth_request_by_code cfg s hash now =
    if is_some (get s.codes hash)
    then (s, denied invalid_grant)
    else (record s { codes = put s.codes hash now }, request_of cfg s.st hash now)

-- forgetCodes
unfoldable pub forget_codes : ProviderConfig → Storage → Time → Storage
forget_codes cfg s now = record s {
  codes = delete_if (λ _ at_time. is_older at_time cfg.auth_request_ttl now) s.codes;
}

-- SaveAuthCode; `hash` is the hash of the code
unfoldable pub save_auth_code :
    ProviderConfig → Store → Text → Text → Time → Store × Issued (Unit {0})
unfolding request save_oauth_auth_request
save_auth_code cfg st id hash now = elim (request cfg st id now) [
  | denied e ↦ (st, denied e)
  | issued r ↦
      (save_oauth_auth_request st (record r { code_hash = hash; code_at = now }), issued tt)
]

-- grantFor for an approved request; `id` is the identifier that the code draws
unfoldable pub grant_for :
    ProviderConfig → Store → OauthAuthRequest → Text → Time → Store × Issued OauthGrant
unfolding create_oauth_grant
grant_for cfg st r id now =
    if not r.done then (st, denied invalid_grant) else (elim (user_ok cfg r.subject) [
      | denied e ↦ (st, denied e)
      | issued _ ↦
          let g : OauthGrant = record {
            id = id;
            client_id = r.client_id;
            subject = r.subject;
            scopes = r.scopes;
            resources = r.resources;
            ref = r.ref;
            auth_time = r.auth_time;
            created_at = now;
            expires_at = r.grant_expires_at;
            revoked_at = none;
          } in
          let (st', made) = create_oauth_grant st g in
          (st', elim made [ ok _ ↦ issued g | err _ ↦ denied store_failed ])
    ])

-- CreateAccessAndRefreshTokens for the exchange of a code
unfoldable pub exchange :
    ProviderConfig → Store → OauthAuthRequest → Text → Fresh → Bool → Time → Store × Issued Time
unfolding grant_for issue_pair
exchange cfg st r grant_id fresh metadata_client now =
    let (st', g) = grant_for cfg st r grant_id now in
    elim g [
      | denied e ↦ (st', denied e)
      | issued grant ↦ issue_pair cfg st' grant r.scopes fresh metadata_client now
    ]

-- CreateAccessToken, for an approved request or for a refresh request
unfoldable pub create_access_token :
    ProviderConfig
    → Store
    → OauthAuthRequest ⊎ RefreshRequest
    → Text
    → Text
    → Bool
    → Time
    → Store × Issued Time
unfolding grant_for access_token live
create_access_token cfg st (inl r) grant_id id metadata_client now =
    let (st', g) = grant_for cfg st r grant_id now in
    elim g [
      | denied e ↦ (st', denied e)
      | issued grant ↦ access_token cfg st' grant r.scopes id metadata_client now
    ]
create_access_token cfg st (inr rr) grant_id id metadata_client now = elim (live cfg rr.grant now) [
  | denied e ↦ (st, denied e)
  | issued _ ↦ access_token cfg st rr.grant rr.scopes id metadata_client now
]
