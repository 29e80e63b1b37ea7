-- ===== src/Memory/Oauth.antt =====
-- store/memory/oauth.go: clients, authorization requests, grants, tokens and signing keys. The
-- values are immutable here, so the copies that the code makes have no counterpart.
pub mod Tokens
pub mod Clients
use go_auth_x.Base.{
  Bool, Option, [], any, change_first, false, if◌then◌else◌, keep, list_eq, nat_eq, none, not, some,
  ℕ, ◌!=◌, ◌&&◌, ◌++◌, ◌==◌, ◌||◌, ◌∷◌,
}
use go_auth_x.Map.{Map, change_all, count, delete, delete_if, find_value, get, is_some, put}
use go_auth_x.Memory.Store.{Store}
use go_auth_x.OauthTypes.{
  OauthAccessToken, OauthAuthRequest, OauthClient, OauthGrant, OauthGrantFilter, OauthRefreshToken,
  OauthSigningKey, is_empty_filter,
}
use go_auth_x.Text.{Text}
use go_auth_x.Types.{
  Result, Time, before, duplicate_oauth, err, is_zero, oauth_not_found, oauth_token_used, ok, ok_or,
}

-- CreateOAuthClient
unfoldable pub create_oauth_client : Store → OauthClient → Store × Result (Unit {0})
create_oauth_client s c = elim (get s.oauth_clients c.id) [
  | some other ↦ (s, err duplicate_oauth)
  | none ↦ (record s { oauth_clients = put s.oauth_clients c.id c }, ok tt)
]

-- OAuthClient
unfoldable pub oauth_client : Store → Text → Result OauthClient
oauth_client s id = ok_or (get s.oauth_clients id) oauth_not_found

-- TouchOAuthClient
unfoldable pub touch_oauth_client : Store → Text → Time → Store × Result (Unit {0})
touch_oauth_client s id at_time = elim (get s.oauth_clients id) [
  | none ↦ (s, err oauth_not_found)
  | some c ↦ (
    record s { oauth_clients = put s.oauth_clients id (record c { last_used_at = at_time }) },
    ok tt,
  )
]

-- deleteGrantLocked
unfoldable pub delete_grant : Store → Text → Store
delete_grant s id = record s {
  oauth_grants = delete s.oauth_grants id;
  oauth_access = delete_if (λ _ t. t.grant_id == id) s.oauth_access;
  oauth_refresh = delete_if (λ _ t. t.grant_id == id) s.oauth_refresh;
}

-- The grants that pass a test are deleted with their tokens: a token goes where the grant under
-- its grant's key passes.
unfoldable pub delete_grants_if : (OauthGrant → Bool) → Store → Store
delete_grants_if p s =
    let doomed : Text → Bool = λ id. elim (get s.oauth_grants id) [ none ↦ false | some g ↦ p g ] in
    record s {
      oauth_grants = delete_if (λ _. p) s.oauth_grants;
      oauth_access = delete_if (λ _ t. doomed t.grant_id) s.oauth_access;
      oauth_refresh = delete_if (λ _ t. doomed t.grant_id) s.oauth_refresh;
    }

-- deleteClientLocked
unfoldable pub delete_client : Store → Text → Store
unfolding delete_grants_if
delete_client s id =
    let s' =
      delete_grants_if (λ g. g.client_id == id)
        (record s {
          oauth_clients = delete s.oauth_clients id;
          oauth_requests = delete_if (λ _ r. r.client_id == id) s.oauth_requests;
        }) in
    record s' {
      oauth_access = delete_if (λ _ t. t.client_id == id) s'.oauth_access;
      oauth_refresh = delete_if (λ _ t. t.client_id == id) s'.oauth_refresh;
    }

-- DeleteOAuthClient; the error is always nil
unfoldable pub delete_oauth_client : Store → Text → Store
unfolding delete_client
delete_oauth_client s id = delete_client s id

-- SaveOAuthAuthRequest; the error is always nil
unfoldable pub save_oauth_auth_request : Store → OauthAuthRequest → Store
save_oauth_auth_request s r = record s { oauth_requests = put s.oauth_requests r.id r }

-- OAuthAuthRequest
unfoldable pub oauth_auth_request : Store → Text → Result OauthAuthRequest
oauth_auth_request s id = ok_or (get s.oauth_requests id) oauth_not_found

-- OAuthAuthRequestByCode
unfoldable pub oauth_auth_request_by_code : Store → Text → Result OauthAuthRequest
oauth_auth_request_by_code s code_hash =
    if code_hash == []
    then err oauth_not_found
    else ok_or (find_value (λ r. r.code_hash == code_hash) s.oauth_requests) oauth_not_found

-- DeleteOAuthAuthRequest; the error is always nil
unfoldable pub delete_oauth_auth_request : Store → Text → Store
delete_oauth_auth_request s id = record s { oauth_requests = delete s.oauth_requests id }

-- CreateOAuthGrant
unfoldable pub create_oauth_grant : Store → OauthGrant → Store × Result (Unit {0})
create_oauth_grant s g = elim (get s.oauth_grants g.id) [
  | some other ↦ (s, err duplicate_oauth)
  | none ↦ (record s { oauth_grants = put s.oauth_grants g.id g }, ok tt)
]

-- OAuthGrant
unfoldable pub oauth_grant : Store → Text → Result OauthGrant
oauth_grant s id = ok_or (get s.oauth_grants id) oauth_not_found

-- f.X != "" && g.X != f.X
abbrev pub misses : Text → Text → Bool
misses wanted have = wanted != [] && have != wanted

-- The condition under which RevokeOAuthGrants passes over a grant.
unfoldable pub is_skipped : OauthGrantFilter → OauthGrant → Bool
is_skipped f g =
    is_some g.revoked_at
    || (misses f.id g.id
        || (misses f.ref g.ref || (misses f.client_id g.client_id || misses f.subject g.subject)))

abbrev pub revoke_grant : OauthGrantFilter → Time → OauthGrant → OauthGrant
revoke_grant f at_time g = if is_skipped f g then g else record g { revoked_at = some at_time }

-- RevokeOAuthGrants, with the number of grants that it revokes
unfoldable pub revoke_oauth_grants : Store → OauthGrantFilter → Time → Store × ℕ
unfolding is_empty_filter is_skipped
revoke_oauth_grants s f at_time = if is_empty_filter f then (s, 0) else (
  record s { oauth_grants = change_all (λ _. revoke_grant f at_time) s.oauth_grants },
  count (λ _ g. not (is_skipped f g)) s.oauth_grants,
)

-- CreateOAuthAccessToken
unfoldable pub create_oauth_access_token : Store → OauthAccessToken → Store × Result (Unit {0})
create_oauth_access_token s t = elim (get s.oauth_access t.id) [
  | some other ↦ (s, err duplicate_oauth)
  | none ↦ (record s { oauth_access = put s.oauth_access t.id t }, ok tt)
]

-- OAuthAccessToken
unfoldable pub oauth_access_token : Store → Text → Result OauthAccessToken
oauth_access_token s id = ok_or (get s.oauth_access id) oauth_not_found

-- DeleteOAuthAccessToken; the error is always nil
unfoldable pub delete_oauth_access_token : Store → Text → Store
delete_oauth_access_token s id = record s { oauth_access = delete s.oauth_access id }

-- CreateOAuthRefreshToken
unfoldable pub create_oauth_refresh_token : Store → OauthRefreshToken → Store × Result (Unit {0})
create_oauth_refresh_token s t = elim (get s.oauth_refresh t.hash) [
  | some other ↦ (s, err duplicate_oauth)
  | none ↦ (record s { oauth_refresh = put s.oauth_refresh t.hash t }, ok tt)
]

-- OAuthRefreshToken
unfoldable pub oauth_refresh_token : Store → Text → Result OauthRefreshToken
oauth_refresh_token s hash = ok_or (get s.oauth_refresh hash) oauth_not_found

-- UseOAuthRefreshToken
unfoldable pub use_oauth_refresh_token : Store → Text → Time → Store × Result (Unit {0})
use_oauth_refresh_token s hash at_time = elim (get s.oauth_refresh hash) [
  | none ↦ (s, err oauth_not_found)
  | some t ↦ if is_some t.used_at then (s, err oauth_token_used) else (
    record s { oauth_refresh = put s.oauth_refresh hash (record t { used_at = some at_time }) },
    ok tt,
  )
]

abbrev pub has_key_id : Text → OauthSigningKey → Bool
has_key_id id k = k.id == id

-- AddOAuthSigningKey; the error is always nil
unfoldable pub add_oauth_signing_key : Store → OauthSigningKey → Store
add_oauth_signing_key s k = record s {
  oauth_keys =
      if any (has_key_id k.id) s.oauth_keys
      then change_first (has_key_id k.id) (λ _. k) s.oauth_keys
      else s.oauth_keys ++ k ∷ [];
}

abbrev pub retire : Time → OauthSigningKey → OauthSigningKey
retire at_time k = if is_some k.retired_at then k else record k { retired_at = some at_time }

-- RetireOAuthSigningKey
unfoldable pub retire_oauth_signing_key : Store → Text → Time → Store × Result (Unit {0})
retire_oauth_signing_key s id at_time =
    if any (has_key_id id) s.oauth_keys
    then (
      record s { oauth_keys = change_first (has_key_id id) (retire at_time) s.oauth_keys },
      ok tt,
    )
    else (s, err oauth_not_found)

-- DeleteOAuthSigningKey; the error is always nil
unfoldable pub delete_oauth_signing_key : Store → Text → Store
delete_oauth_signing_key s id = record s {
  oauth_keys = keep (λ k. not (has_key_id id k)) s.oauth_keys;
}

abbrev pub is_past : Time → Option Time → Bool
is_past now none = false
is_past now (some t) = before t now

-- A grant that was revoked, or ended, before `now`.
unfoldable pub is_over : Time → OauthGrant → Bool
is_over now g = is_past now g.revoked_at || (not (is_zero g.expires_at) && before g.expires_at now)

abbrev pub last_use : OauthClient → Time
last_use c = if is_zero c.last_used_at then c.created_at else c.last_used_at

-- A dynamic client that has not been used since `clients_before`.
unfoldable pub is_stale : Time → OauthClient → Bool
is_stale clients_before c = c.dynamic && before (last_use c) clients_before

-- The loop over the clients in DeleteExpiredOAuth: everything of a stale client goes, a token also
-- where its grant is of a stale client.
unfoldable pub delete_clients_if : (OauthClient → Bool) → Store → Store
unfolding delete_grants_if
delete_clients_if p s =
    let doomed : Text → Bool =
      λ id. elim (get s.oauth_clients id) [ none ↦ false | some c ↦ p c ] in
    let s' =
      delete_grants_if (λ g. doomed g.client_id)
        (record s {
          oauth_clients = delete_if (λ _. p) s.oauth_clients;
          oauth_requests = delete_if (λ _ r. doomed r.client_id) s.oauth_requests;
        }) in
    record s' {
      oauth_access = delete_if (λ _ t. doomed t.client_id) s'.oauth_access;
      oauth_refresh = delete_if (λ _ t. doomed t.client_id) s'.oauth_refresh;
    }

-- DeleteExpiredOAuth; the error is always nil
unfoldable pub delete_expired_oauth : Store → Time → Time → Time → Store
unfolding delete_grants_if delete_clients_if is_over is_stale
delete_expired_oauth s now requests_before clients_before =
    let s' = record s {
      oauth_requests = delete_if (λ _ r. before r.created_at requests_before) s.oauth_requests;
      oauth_access = delete_if (λ _ t. before t.expires_at now) s.oauth_access;
      oauth_refresh = delete_if (λ _ t. before t.expires_at now) s.oauth_refresh;
    } in
    delete_clients_if (is_stale clients_before) (delete_grants_if (is_over now) s')
