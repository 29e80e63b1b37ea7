-- ===== src/Provider/Calls.antt =====
-- oidcprovider: the writers of the OAuth store, in any order.
use go_auth_x.Base.{Bool, List, Option, [], arith, refl, true, ◌∷◌, ◌≡◌, ◌≢◌, ◌⊎◌}
use go_auth_x.Memory.Oauth.{
  add_oauth_signing_key, create_oauth_client, delete_expired_oauth, delete_oauth_auth_request,
  delete_oauth_client, delete_oauth_signing_key, retire_oauth_signing_key, revoke_oauth_grants,
  save_oauth_auth_request,
}
use go_auth_x.Memory.Store.{Store}
use go_auth_x.OauthTypes.{OauthAuthRequest, OauthClient, OauthGrantFilter, OauthSigningKey}
use go_auth_x.Provider.{Fresh, ProviderConfig, RefreshRequest, token_request_by_refresh_token}
use go_auth_x.Provider.Ended.{
  exchange-Keeps, give_up-Keeps, is_dead, present-Keeps, revoke_oauth_grants-Keeps, rotate-Keeps,
  same_grants, save_code-Keeps, sign_out-Keeps,
}
use go_auth_x.Provider.Pkce.{Authorize, create_auth_request}
use go_auth_x.Provider.Requests.{create_access_token, exchange, save_auth_code}
use go_auth_x.Provider.Rotation.{rotate}
use go_auth_x.Provider.Swept.{
  access_only-Keeps, ask-Keeps, create_client-Keeps, delete_expired_oauth-Keeps,
  delete_oauth_client-Keeps,
}
use go_auth_x.Provider.Tokens.{revoke_token, terminate_session}
use go_auth_x.Text.{Text}
use go_auth_x.Types.{Time}

-- A step that may change the OAuth store, with what it read before and what it draws: the requests
-- that the OP library makes of the storage, what consent.go, register.go and provider.go do to the
-- store, and the deletion of a client.
pub data Call : Type 0 where
  present : Text → Time → Call
  spend : RefreshRequest → Text → Fresh → Bool → Time → Call
  redeem : OauthAuthRequest → Text → Fresh → Bool → Time → Call
  access_only : OauthAuthRequest ⊎ RefreshRequest → Text → Text → Bool → Time → Call
  ask : Option OauthClient → Authorize → List Text → Text → Time → Call
  save_request : OauthAuthRequest → Call
  drop_request : Text → Call
  save_code : Text → Text → Time → Call
  sign_out : Text → Text → Time → Call
  give_up : Text → Text → Text → Time → Call
  revoke : OauthGrantFilter → Time → Call
  register : OauthClient → Call
  drop_client : Text → Call
  clean_up : Time → Time → Time → Call
  add_key : OauthSigningKey → Call
  retire_key : Text → Time → Call
  drop_key : Text → Call

unfoldable pub serve : ProviderConfig → Store → Call → Store
unfolding create_access_token create_auth_request save_oauth_auth_request delete_oauth_auth_request
    revoke_oauth_grants create_oauth_client delete_oauth_client delete_expired_oauth
    add_oauth_signing_key retire_oauth_signing_key delete_oauth_signing_key
serve cfg st (present hash now) = (token_request_by_refresh_token cfg st hash now).0
serve cfg st (spend rr hash fresh metadata_client now) =
    (rotate cfg st rr hash fresh metadata_client now).0
serve cfg st (redeem r grant_id fresh metadata_client now) =
    (exchange cfg st r grant_id fresh metadata_client now).0
serve cfg st (access_only req grant_id token_id metadata_client now) =
    (create_access_token cfg st req grant_id token_id metadata_client now).0
serve cfg st (ask c ar resources id now) = (create_auth_request st c ar resources id now).0
serve cfg st (save_request r) = save_oauth_auth_request st r
serve cfg st (drop_request id) = delete_oauth_auth_request st id
serve cfg st (save_code id hash now) = (save_auth_code cfg st id hash now).0
serve cfg st (sign_out user_id client_id now) = terminate_session st user_id client_id now
serve cfg st (give_up token user_id client_id now) = revoke_token st token user_id client_id now
serve cfg st (revoke f now) = (revoke_oauth_grants st f now).0
serve cfg st (register c) = (create_oauth_client st c).0
serve cfg st (drop_client id) = delete_oauth_client st id
serve cfg st (clean_up now requests_before clients_before) =
    delete_expired_oauth st now requests_before clients_before
serve cfg st (add_key k) = add_oauth_signing_key st k
serve cfg st (retire_key id now) = (retire_oauth_signing_key st id now).0
serve cfg st (drop_key id) = delete_oauth_signing_key st id

unfoldable pub serve_all : ProviderConfig → Store → List Call → Store
serve_all cfg st [] = st
serve_all cfg st (c ∷ cs) = serve_all cfg (serve cfg st c) cs

-- A call that makes no grant under `id`: the identifier that it draws for one is another.
abbrev pub DrawsOther : Text → Call → Type 0
DrawsOther id (redeem r grant_id fresh metadata_client now) = grant_id ≢ id
DrawsOther id (access_only req grant_id token_id metadata_client now) = grant_id ≢ id
DrawsOther id _ = Unit {0}

abbrev pub AllDrawOther : Text → List Call → Type 0
AllDrawOther id [] = Unit {0}
AllDrawOther id (c ∷ cs) = DrawsOther id c × AllDrawOther id cs

serve-Keeps :
    (cfg : ProviderConfig) (st : Store) (id : Text) (c : Call)
    → DrawsOther id c
    → is_dead st id ≡ true
    → is_dead (serve cfg st c) id ≡ true
unfolding serve
serve-Keeps cfg st id (present hash now) _ h = present-Keeps cfg st hash now id h
serve-Keeps cfg st id (spend rr hash fresh metadata_client now) _ h =
    rotate-Keeps cfg st rr hash fresh metadata_client now id h
serve-Keeps cfg st id (redeem r grant_id fresh metadata_client now) other h =
    exchange-Keeps cfg st r grant_id fresh metadata_client now id other h
serve-Keeps cfg st id (access_only req grant_id token_id metadata_client now) other h =
    access_only-Keeps cfg st req grant_id token_id metadata_client now id other h
serve-Keeps cfg st id (ask c ar resources rid now) _ h = ask-Keeps st c ar resources rid now id h
serve-Keeps cfg st id (save_request r) _ h =
    same_grants st (save_oauth_auth_request st r) (unfold save_oauth_auth_request in refl) id h
serve-Keeps cfg st id (drop_request rid) _ h =
    same_grants st (delete_oauth_auth_request st rid) (unfold delete_oauth_auth_request in refl) id
      h
serve-Keeps cfg st id (save_code rid hash now) _ h = save_code-Keeps cfg st rid hash now id h
serve-Keeps cfg st id (sign_out user_id client_id now) _ h =
    sign_out-Keeps st user_id client_id now id h
serve-Keeps cfg st id (give_up token user_id client_id now) _ h =
    give_up-Keeps st token user_id client_id now id h
serve-Keeps cfg st id (revoke f now) _ h = revoke_oauth_grants-Keeps st f now id h
serve-Keeps cfg st id (register c) _ h = create_client-Keeps st c id h
serve-Keeps cfg st id (drop_client cid) _ h = delete_oauth_client-Keeps st cid id h
serve-Keeps cfg st id (clean_up now requests_before clients_before) _ h =
    delete_expired_oauth-Keeps st now requests_before clients_before id h
serve-Keeps cfg st id (add_key k) _ h =
    same_grants st (add_oauth_signing_key st k) (unfold add_oauth_signing_key in refl) id h
serve-Keeps cfg st id (retire_key kid now) _ h =
    same_grants st (retire_oauth_signing_key st kid now).0
      (unfold retire_oauth_signing_key in ground arith) id h
serve-Keeps cfg st id (drop_key kid) _ h =
    same_grants st (delete_oauth_signing_key st kid) (unfold delete_oauth_signing_key in refl) id h

-- What is dead stays so, unless a grant is made under its identifier.
pub serve_all-Keeps :
    (cfg : ProviderConfig) (st : Store) (id : Text) (calls : List Call)
    → AllDrawOther id calls
    → is_dead st id ≡ true
    → is_dead (serve_all cfg st calls) id ≡ true
unfolding serve_all
serve_all-Keeps cfg st id [] _ h = h
serve_all-Keeps cfg st id (c ∷ cs) (other, others) h =
    serve_all-Keeps cfg (serve cfg st c) id cs others (serve-Keeps cfg st id c other h)
