-- ===== src/Provider/Ended.antt =====
-- oidcprovider/storage.go: grants that have ended, over the operations of the provider.
use go_auth_x.Base.{
  Bool, Bool-cases, List, Option-cases, [], arith, false, inl, inr, list_beq_iff, list_eq, nat_eq,
  none, some, true, ◌≡◌, ◌≢◌,
}
use go_auth_x.Map.{get, get-change_all, get-put, is_some}
use go_auth_x.Memory.Oauth.{
  create_oauth_access_token, create_oauth_grant, create_oauth_refresh_token,
  delete_oauth_access_token, is_skipped, revoke_grant, revoke_oauth_grants, save_oauth_auth_request,
  touch_oauth_client,
}
use go_auth_x.Memory.Store.{Store}
use go_auth_x.OauthTypes.{OauthAuthRequest, OauthGrant, OauthGrantFilter}
use go_auth_x.Provider.{
  Fresh, Issued-cases, ProviderConfig, RefreshRequest, access_token, by_id, issue_pair,
  revoke_by_id, token_request_by_refresh_token,
}
use go_auth_x.Provider.Requests.{exchange, grant_for, save_auth_code}
use go_auth_x.Provider.Rotation.{
  issue_live, rotate, rotate_unknown, rotate_unused, rotate_used, spent,
}
use go_auth_x.Provider.Tokens.{
  cut_rt, revoke_access, revoke_refresh, revoke_token, terminate_session,
}
use go_auth_x.Text.{Text}
use go_auth_x.Types.{Time}

-- The grant under an identifier exists and was revoked.
unfoldable pub is_ended : Store → Text → Bool
is_ended st id = elim (get st.oauth_grants id) [ none ↦ false | some g ↦ is_some g.revoked_at ]

-- No grant under an identifier is live: there is none, or it was revoked.
unfoldable pub is_dead : Store → Text → Bool
is_dead st id = elim (get st.oauth_grants id) [ none ↦ true | some g ↦ is_some g.revoked_at ]

pub ended_is_dead : (st : Store) (id : Text) → is_ended st id ≡ true → is_dead st id ≡ true
unfolding is_ended is_dead
ended_is_dead st id h = elim (Option-cases (get st.oauth_grants id)) [
  | inl e ↦ ground arith
  | inr (g, e) ↦ ground arith
]

-- What is dead in `st` is dead in `st'`, but for a grant that may be made under `made`.
abbrev pub KeepsBut : Text → Store → Store → Type 0
KeepsBut made st st' = (id : Text) → made ≢ id → is_dead st id ≡ true → is_dead st' id ≡ true

abbrev pub Keeps : Store → Store → Type 0
Keeps st st' = (id : Text) → is_dead st id ≡ true → is_dead st' id ≡ true

pub same_grants : (st st' : Store) → st'.oauth_grants ≡ st.oauth_grants → Keeps st st'
unfolding is_dead
same_grants st st' e id h = rw e h

revoke_grant-revoked :
    (f : OauthGrantFilter) (now : Time) (g : OauthGrant)
    → is_some g.revoked_at ≡ true
    → is_some (revoke_grant f now g).revoked_at ≡ true
unfolding is_skipped
revoke_grant-revoked f now g h = ground arith

pub revoke_oauth_grants-Keeps :
    (st : Store) (f : OauthGrantFilter) (now : Time) → Keeps st (revoke_oauth_grants st f now).0
unfolding revoke_oauth_grants is_dead
revoke_oauth_grants-Keeps st f now id h = elim (Option-cases (get st.oauth_grants id)) [
  | inl e ↦ ground (arith, get-change_all (λ _. revoke_grant f now) st.oauth_grants id)
  | inr (g, e) ↦ ground (
    arith,
    get-change_all (λ _. revoke_grant f now) st.oauth_grants id,
    revoke_grant-revoked f now g,
  )
]

revoke_by_id-Keeps : (st : Store) (id : Text) (now : Time) → Keeps st (revoke_by_id st id now)
unfolding revoke_by_id
revoke_by_id-Keeps st id now = revoke_oauth_grants-Keeps st (by_id id) now

create_oauth_grant-Keeps :
    (st : Store) (g : OauthGrant) → KeepsBut g.id st (create_oauth_grant st g).0
unfolding create_oauth_grant is_dead
create_oauth_grant-Keeps st g id other h = elim (Option-cases (get st.oauth_grants g.id)) [
  | inl e ↦ ground (arith, get-put st.oauth_grants g.id g id, list_beq_iff g.id id)
  | inr (old, e) ↦ ground arith
]

pub access_token-grants :
    (cfg : ProviderConfig) (st : Store) (g : OauthGrant) (scopes : List Text) (id : Text)
    (metadata_client : Bool) (now : Time)
    → (access_token cfg st g scopes id metadata_client now).0.oauth_grants ≡ st.oauth_grants
unfolding access_token create_oauth_access_token touch_oauth_client
access_token-grants cfg st g scopes id metadata_client now = ground arith

pub issue_pair-grants :
    (cfg : ProviderConfig) (st : Store) (g : OauthGrant) (scopes : List Text) (fresh : Fresh)
    (metadata_client : Bool) (now : Time)
    → (issue_pair cfg st g scopes fresh metadata_client now).0.oauth_grants ≡ st.oauth_grants
unfolding issue_pair create_oauth_refresh_token
issue_pair-grants cfg st g scopes fresh metadata_client now =
    ground (arith, access_token-grants cfg st g scopes fresh.access_id metadata_client now)

pub issue_live-grants :
    (cfg : ProviderConfig) (st : Store) (rr : RefreshRequest) (fresh : Fresh)
    (metadata_client : Bool) (now : Time)
    → (issue_live cfg st rr fresh metadata_client now).0.oauth_grants ≡ st.oauth_grants
unfolding issue_live
issue_live-grants cfg st rr fresh metadata_client now =
    ground (arith, issue_pair-grants cfg st rr.grant rr.scopes fresh metadata_client now)

pub present-Keeps :
    (cfg : ProviderConfig) (st : Store) (hash : Text) (now : Time)
    → Keeps st (token_request_by_refresh_token cfg st hash now).0
unfolding token_request_by_refresh_token
present-Keeps cfg st hash now id h = elim (Option-cases (get st.oauth_refresh hash)) [
  | inl e ↦ ground arith
  | inr (t, e) ↦ ground (arith, revoke_by_id-Keeps st t.grant_id now id h)
]

pub rotate-Keeps :
    (cfg : ProviderConfig) (st : Store) (rr : RefreshRequest) (hash : Text) (fresh : Fresh)
    (metadata_client : Bool) (now : Time)
    → Keeps st (rotate cfg st rr hash fresh metadata_client now).0
rotate-Keeps cfg st rr hash fresh metadata_client now id h =
    elim (Option-cases (get st.oauth_refresh hash)) [
      | inl e ↦ rw (rotate_unknown cfg st rr hash fresh metadata_client now e) h
      | inr (t, e) ↦ elim (Bool-cases (is_some t.used_at)) [
        | inl b ↦
            rw (rotate_used cfg st rr hash fresh metadata_client now t e b)
              (revoke_by_id-Keeps st rr.grant.id now id h)
        | inr b ↦ rw (rotate_unused cfg st rr hash fresh metadata_client now t e b) (
            same_grants st _
              (issue_live-grants cfg (spent st hash t now) rr fresh metadata_client now) id h)
      ]
    ]

pub grant_for-Keeps :
    (cfg : ProviderConfig) (st : Store) (r : OauthAuthRequest) (grant_id : Text) (now : Time)
    → KeepsBut grant_id st (grant_for cfg st r grant_id now).0
unfolding grant_for
grant_for-Keeps cfg st r grant_id now id other h = elim (Bool-cases r.done) [
  | inl b ↦ elim (Bool-cases (cfg.may_sign_in r.subject)) [
    | inl u ↦ rw (b, grant_for) (rw u (create_oauth_grant-Keeps st _ id other h))
    | inr u ↦ rw (b, grant_for) (rw u h)
  ]
  | inr b ↦ rw (b, grant_for) h
]

pub exchange-Keeps :
    (cfg : ProviderConfig) (st : Store) (r : OauthAuthRequest) (grant_id : Text) (fresh : Fresh)
    (metadata_client : Bool) (now : Time)
    → KeepsBut grant_id st (exchange cfg st r grant_id fresh metadata_client now).0
unfolding exchange
exchange-Keeps cfg st r grant_id fresh metadata_client now id other h =
    let kept = grant_for-Keeps cfg st r grant_id now id other h in
    elim (Issued-cases (grant_for cfg st r grant_id now).1) [
      | inl (g, e) ↦
          rw (e, exchange)
            (same_grants _ _
              (issue_pair-grants cfg (grant_for cfg st r grant_id now).0 g r.scopes fresh
                metadata_client now)
              id kept)
      | inr (x, e) ↦ rw (e, exchange) kept
    ]

pub sign_out-Keeps :
    (st : Store) (user_id client_id : Text) (now : Time)
    → Keeps st (terminate_session st user_id client_id now)
unfolding terminate_session
sign_out-Keeps st user_id client_id now id h =
    let f : OauthGrantFilter = record {
      id = [];
      ref = [];
      client_id = client_id;
      subject = user_id;
    } in
    ground (arith, revoke_oauth_grants-Keeps st f now id h)

pub save_code-Keeps :
    (cfg : ProviderConfig) (st : Store) (rid hash : Text) (now : Time)
    → Keeps st (save_auth_code cfg st rid hash now).0
unfolding save_auth_code save_oauth_auth_request
save_code-Keeps cfg st rid hash now id h = same_grants st _ (ground arith) id h

revoke_access-Keeps :
    (st : Store) (token user_id client_id : Text)
    → Keeps st (revoke_access st token user_id client_id)
unfolding delete_oauth_access_token
revoke_access-Keeps st token user_id client_id id h = same_grants st _ (ground arith) id h

revoke_refresh-Keeps :
    (st : Store) (hash client_id : Text) (now : Time)
    → Keeps st (revoke_refresh st hash client_id now)
unfolding revoke_by_id
revoke_refresh-Keeps st hash client_id now id h = elim (Option-cases (get st.oauth_refresh hash)) [
  | inl m ↦ ground arith
  | inr (t, m) ↦ ground (arith, revoke_by_id-Keeps st t.grant_id now id h)
]

pub give_up-Keeps :
    (st : Store) (token user_id client_id : Text) (now : Time)
    → Keeps st (revoke_token st token user_id client_id now)
unfolding revoke_token
give_up-Keeps st token user_id client_id now id h = elim (Option-cases (cut_rt token)) [
  | inl e ↦ rw (e, revoke_token) (revoke_access-Keeps st token user_id client_id id h)
  | inr (hash, e) ↦ rw (e, revoke_token) (revoke_refresh-Keeps st hash client_id now id h)
]
