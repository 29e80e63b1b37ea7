-- ===== src/Provider/Swept.antt =====
-- The other writers of the OAuth store: CreateAccessToken, the client records, and the clean-up.
use go_auth_x.Base.{
  Bool, Bool-cases, List, Option, Option-cases, arith, false, inl, inr, list_eq, nat_eq, none, refl,
  some, ◌==◌, ◌⊎◌,
}
use go_auth_x.Map.{delete, delete_if, get, get-delete_if}
use go_auth_x.Memory.Oauth.{
  create_oauth_client, delete_client, delete_clients_if, delete_expired_oauth, delete_grants_if,
  delete_oauth_client, is_over, is_stale, save_oauth_auth_request,
}
use go_auth_x.Memory.Store.{Store}
use go_auth_x.OauthTypes.{OauthAuthRequest, OauthClient, OauthGrant}
use go_auth_x.Provider.{Issued-cases, ProviderConfig, RefreshRequest, live}
use go_auth_x.Provider.Ended.{
  Keeps, KeepsBut, access_token-grants, grant_for-Keeps, is_dead, same_grants,
}
use go_auth_x.Provider.Pkce.{Authorize, create_auth_request}
use go_auth_x.Provider.Requests.{create_access_token, grant_for}
use go_auth_x.Text.{Text}
use go_auth_x.Types.{Time, before}

module _ (p : OauthGrant → Bool) (st : Store) where
  pub delete_grants_if-Keeps : Keeps st (delete_grants_if p st)
  unfolding delete_grants_if is_dead
  delete_grants_if-Keeps id h = elim (Option-cases (get st.oauth_grants id)) [
    | inl e ↦ ground (arith, get-delete_if (λ (_ : Text). p) st.oauth_grants id)
    | inr (g, e) ↦ elim (Bool-cases (p g)) [
      | inl b ↦ ground (arith, get-delete_if (λ (_ : Text). p) st.oauth_grants id)
      | inr b ↦ ground (arith, get-delete_if (λ (_ : Text). p) st.oauth_grants id)
    ]
  ]

pub delete_oauth_client-Keeps : (st : Store) (cid : Text) → Keeps st (delete_oauth_client st cid)
unfolding delete_oauth_client delete_client is_dead
delete_oauth_client-Keeps st cid id h =
    let s1 = record st {
      oauth_clients = delete st.oauth_clients cid;
      oauth_requests = delete_if (λ _ r. r.client_id == cid) st.oauth_requests;
    } in
    delete_grants_if-Keeps (λ g. g.client_id == cid) s1 id h

delete_clients_if-Keeps : (p : OauthClient → Bool) (st : Store) → Keeps st (delete_clients_if p st)
unfolding delete_clients_if is_dead
delete_clients_if-Keeps p st id h =
    let doomed : Text → Bool =
      λ cid. elim (get st.oauth_clients cid) [ none ↦ false | some c ↦ p c ] in
    let s1 = record st {
      oauth_clients = delete_if (λ _. p) st.oauth_clients;
      oauth_requests = delete_if (λ _ r. doomed r.client_id) st.oauth_requests;
    } in
    delete_grants_if-Keeps (λ g. doomed g.client_id) s1 id h

pub delete_expired_oauth-Keeps :
    (st : Store) (now requests_before clients_before : Time)
    → Keeps st (delete_expired_oauth st now requests_before clients_before)
unfolding delete_expired_oauth is_dead
delete_expired_oauth-Keeps st now requests_before clients_before id h =
    let s1 = record st {
      oauth_requests = delete_if (λ _ r. before r.created_at requests_before) st.oauth_requests;
      oauth_access = delete_if (λ _ t. before t.expires_at now) st.oauth_access;
      oauth_refresh = delete_if (λ _ t. before t.expires_at now) st.oauth_refresh;
    } in
    delete_clients_if-Keeps (is_stale clients_before) (delete_grants_if (is_over now) s1) id
      (delete_grants_if-Keeps (is_over now) s1 id h)

pub create_client-Keeps : (st : Store) (c : OauthClient) → Keeps st (create_oauth_client st c).0
unfolding create_oauth_client
create_client-Keeps st c = same_grants st _ (ground arith)

pub ask-Keeps :
    (st : Store) (c : Option OauthClient) (ar : Authorize) (resources : List Text) (rid : Text)
    (now : Time)
    → Keeps st (create_auth_request st c ar resources rid now).0
unfolding create_auth_request save_oauth_auth_request
ask-Keeps st none ar resources rid now = same_grants st st refl
ask-Keeps st (some c) ar resources rid now = same_grants st _ (ground arith)

pub access_only-Keeps :
    (cfg : ProviderConfig) (st : Store) (req : OauthAuthRequest ⊎ RefreshRequest)
    (grant_id token_id : Text) (metadata_client : Bool) (now : Time)
    → KeepsBut grant_id st (create_access_token cfg st req grant_id token_id metadata_client now).0
unfolding create_access_token
access_only-Keeps cfg st (inl r) grant_id token_id metadata_client now id other h =
    let kept = grant_for-Keeps cfg st r grant_id now id other h in
    elim (Issued-cases (grant_for cfg st r grant_id now).1) [
      | inl (g, e) ↦
          rw (e, create_access_token)
            (same_grants _ _
              (access_token-grants cfg (grant_for cfg st r grant_id now).0 g r.scopes token_id
                metadata_client now)
              id kept)
      | inr (x, e) ↦ rw (e, create_access_token) kept
    ]
access_only-Keeps cfg st (inr rr) grant_id token_id metadata_client now id other h =
    elim (Issued-cases (live cfg rr.grant now)) [
      | inl (g, e) ↦
          rw (e, create_access_token)
            (same_grants _ _
              (access_token-grants cfg st rr.grant rr.scopes token_id metadata_client now) id h)
      | inr (x, e) ↦ rw (e, create_access_token) h
    ]
