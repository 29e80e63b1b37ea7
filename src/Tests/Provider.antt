-- ===== src/Tests/Provider.antt =====
-- The theorems on the provider's storage, at one grant and its tokens.
use go_auth_x.Base.{
  List, Option, [], arith, false, list_beq, list_eq, nat_eq, none, refl, some, true, ◌∷◌, ◌≡◌, ◌≢◌,
  ◌≤◌, ◌⊎◌,
}
use go_auth_x.Examples.{two_users}
use go_auth_x.Map.{change_all, delete_if, empty, find, find_value, get, put}
use go_auth_x.Memory.Oauth.{oauth_auth_request_by_code, revoke_oauth_grants}
use go_auth_x.Memory.Store.{Store}
use go_auth_x.Memory.Users.{create_local_user}
use go_auth_x.OauthTypes.{
  OauthAccessToken, OauthAuthRequest, OauthClient, OauthGrant, OauthRefreshToken, is_empty_filter,
}
use go_auth_x.Org.Gate.{answer}
use go_auth_x.Provider.{
  Fresh, ProviderConfig, ProviderError, RefreshRequest, denied, invalid_refresh_token,
  invalid_token, issue_pair, revoke_by_id, token_request_by_refresh_token,
}
use go_auth_x.Provider.Calls.{Call, clean_up, drop_client, present, redeem, serve, serve_all}
use go_auth_x.Provider.Codes.{code_once}
use go_auth_x.Provider.Ended.{is_ended}
use go_auth_x.Provider.Lifetimes.{issue_pair_bounds, stored_end}
use go_auth_x.Provider.Pkce.{
  Authorize, auth_method_none, create_auth_request, create_auth_request_challenge, new_request,
  s256,
}
use go_auth_x.Provider.Race.{second_use_ends_grant}
use go_auth_x.Provider.Replay.{HasGrant, replay_is_final}
use go_auth_x.Provider.Requests.{Storage, auth_request_by_code, exchange, forget_codes}
use go_auth_x.Provider.Rotation.{rotate}
use go_auth_x.Provider.Tokens.{introspect}
use go_auth_x.Text.{codes}
use go_auth_x.Types.{Time}

abbrev config : ProviderConfig
config = record {
  access_token_ttl = 10;
  refresh_token_ttl = 100;
  auth_request_ttl = 20;
  code_ttl = 5;
  may_sign_in = λ _. true;
}

abbrev grant : OauthGrant
grant = record {
  id = codes "g";
  client_id = codes "c";
  subject = codes "local:a1";
  scopes = [];
  resources = [];
  ref = [];
  auth_time = 1;
  created_at = 1;
  expires_at = 50;
  revoked_at = none;
}

abbrev refresh : Option Time → OauthRefreshToken
refresh used_at = record {
  hash = codes "r";
  grant_id = codes "g";
  client_id = codes "c";
  subject = codes "local:a1";
  scopes = [];
  expires_at = 40;
  created_at = 1;
  used_at = used_at;
}

abbrev access : OauthAccessToken
access = record {
  id = codes "a";
  grant_id = codes "g";
  client_id = codes "c";
  subject = codes "local:a1";
  scopes = [];
  expires_at = 30;
  created_at = 1;
}

abbrev pending : OauthAuthRequest
pending = record {
  id = codes "q";
  client_id = codes "c";
  redirect_uri = [];
  state = [];
  nonce = [];
  scopes = [];
  response_type = [];
  response_mode = [];
  code_challenge = codes "x";
  code_challenge_method = codes "S256";
  resources = [];
  prompt = [];
  subject = codes "local:a1";
  ref = [];
  grant_expires_at = 50;
  auth_time = 2;
  done = true;
  code_hash = codes "h";
  code_at = 3;
  created_at = 2;
}

abbrev granted : Option Time → Store
granted used_at = record two_users {
  oauth_grants = put empty (codes "g") grant;
  oauth_refresh = put empty (codes "r") (refresh used_at);
  oauth_access = put empty (codes "a") access;
  oauth_requests = put empty (codes "q") pending;
}

granted-HasGrant : HasGrant (granted none).oauth_grants (codes "g")
unfolding get put empty list_beq
granted-HasGrant = (λ e. ground arith, grant, refl, refl)

abbrev fresh : Fresh
fresh = record { access_id = codes "a2"; refresh_hash = codes "r2" }

abbrev held : RefreshRequest
held = record { token = refresh none; grant = grant; scopes = [] }

abbrev again : List Call
again =
    present (codes "r") 6
    ∷ clean_up 5 0 0
    ∷ redeem pending (codes "g2") fresh false 6
    ∷ drop_client (codes "d")
    ∷ []

replay_is_final_example :
    let (st', answer) = token_request_by_refresh_token config (granted (some 4)) (codes "r") 5 in
    let end = serve_all config st' again in
    (answer ≡ denied invalid_refresh_token)
    × ((token_request_by_refresh_token config end (codes "r") 7).1 ≡ denied invalid_refresh_token)
    × (introspect end (codes "a") (codes "local:a1") 7 ≡ denied invalid_token)
unfolding get put empty list_beq token_request_by_refresh_token serve_all serve revoke_by_id
    revoke_oauth_grants is_empty_filter delete_if exchange change_all create_local_user find_value
replay_is_final_example =
    replay_is_final config (granted (some 4)) (codes "r") (refresh (some 4)) 5 again (codes "r")
      (refresh (some 4)) (codes "a") (codes "local:a1") access 7 refl refl granted-HasGrant
      (tt, (tt, (λ e. ground arith, (tt, tt)))) refl refl refl refl

second_use_ends_grant_example :
    let st' = (rotate config (granted none) held (codes "r") fresh false 5).0 in
    let (st'', answer) = rotate config st' held (codes "r") fresh false 6 in
    (answer ≡ denied invalid_refresh_token) × (is_ended st'' (codes "g") ≡ true)
unfolding get put empty list_beq
second_use_ends_grant_example =
    second_use_ends_grant config (granted none) (codes "r") (refresh none) held held fresh fresh
      false 5 6 refl refl granted-HasGrant

abbrev storage : Storage
storage = record { st = granted none; codes = empty }

code_once_example :
    let s' = (auth_request_by_code config storage (codes "h") 4).0 in
    let s'' = forget_codes config (record s' { st = granted none }) 30 in
    (e : ProviderError) × ((auth_request_by_code config s'' (codes "h") 31).1 ≡ denied e)
unfolding get put empty list_beq auth_request_by_code oauth_auth_request_by_code find_value find
code_once_example =
    code_once config storage (granted none) (codes "h") pending 4 30 31 refl (λ r' e. ground arith)
      (omega arith)

issue_pair_bounds_example :
    let (st', answer) = issue_pair config (granted none) grant [] fresh false 5 in
    (stored_end st' (codes "a2") ≡ some 15)
    × (15 ≤ 15)
    × ((grant.expires_at ≡ 0) ⊎ (15 ≤ grant.expires_at))
unfolding get put empty list_beq issue_pair create_local_user find_value
issue_pair_bounds_example = issue_pair_bounds config (granted none) grant [] fresh false 5 15 refl

abbrev public_client : OauthClient
public_client = record {
  id = codes "c";
  secret_hash = [];
  name = [];
  uri = [];
  logo_uri = [];
  redirect_uris = [];
  grant_types = codes "refresh_token" ∷ [];
  auth_method = codes "none";
  dynamic = true;
  created_at = 1;
  last_used_at = 1;
}

abbrev asked : Authorize
asked = record {
  client_id = codes "c";
  redirect_uri = [];
  state = [];
  nonce = [];
  scopes = [];
  response_type = [];
  response_mode = [];
  code_challenge = codes "x";
  code_challenge_method = codes "S256";
  prompt = [];
}

create_auth_request_challenge_example :
    let (st', answer) =
      create_auth_request (granted none) (some public_client) asked [] (codes "q2") 6 in
    (get st'.oauth_requests (codes "q2") ≡ some (new_request public_client asked [] (codes "q2") 6))
    × (false ≡ false)
    × ((codes "none" ≢ auth_method_none) ⊎ (codes "x" ≢ []))
    × ((codes "x" ≡ []) ⊎ (codes "S256" ≡ s256))
unfolding create_auth_request list_beq
create_auth_request_challenge_example =
    create_auth_request_challenge (granted none) public_client asked [] (codes "q2") 6
      (new_request public_client asked [] (codes "q2") 6) refl
