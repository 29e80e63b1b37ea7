-- ===== src/Provider/Race.antt =====
-- Two requests that use one refresh token: the second ends the grant.
use go_auth_x.Base.{
  Bool, List, arith, beq_refl, false, inl, inr, list_beq_iff, list_eq, nat_eq, refl, some, subst,
  sym, true, ◌≡◌,
}
use go_auth_x.Map.{get, get-put, is_some}
use go_auth_x.Memory.Oauth.{
  create_oauth_access_token, create_oauth_refresh_token, touch_oauth_client,
}
use go_auth_x.Memory.Store.{Store}
use go_auth_x.OauthTypes.{OauthGrant, OauthRefreshToken}
use go_auth_x.Org.Gate.{answer}
use go_auth_x.Provider.{
  Fresh, Issued-cases, ProviderConfig, RefreshRequest, access_token, denied, invalid_refresh_token,
  issue_pair,
}
use go_auth_x.Provider.Ended.{is_ended, issue_live-grants}
use go_auth_x.Provider.Replay.{HasGrant, revoke_by_id-ends}
use go_auth_x.Provider.Rotation.{issue_live, rotate, rotate_unused, rotate_used, spent}
use go_auth_x.Text.{Text}
use go_auth_x.Types.{Time}

create_token-keeps :
    (st : Store) (n : OauthRefreshToken) (hash : Text) (t : OauthRefreshToken)
    → get st.oauth_refresh hash ≡ some t
    → get (create_oauth_refresh_token st n).0.oauth_refresh hash ≡ some t
unfolding create_oauth_refresh_token
create_token-keeps st n hash t h =
    ground (arith, get-put st.oauth_refresh n.hash n hash, list_beq_iff n.hash hash)

access_token-refresh :
    (cfg : ProviderConfig) (st : Store) (g : OauthGrant) (scopes : List Text) (id : Text)
    (metadata_client : Bool) (now : Time)
    → (access_token cfg st g scopes id metadata_client now).0.oauth_refresh ≡ st.oauth_refresh
unfolding access_token create_oauth_access_token touch_oauth_client
access_token-refresh cfg st g scopes id metadata_client now = ground arith

issue_pair-keeps :
    (cfg : ProviderConfig) (st : Store) (g : OauthGrant) (scopes : List Text) (fresh : Fresh)
    (metadata_client : Bool) (now : Time) (hash : Text) (t : OauthRefreshToken)
    → get st.oauth_refresh hash ≡ some t
    → get (issue_pair cfg st g scopes fresh metadata_client now).0.oauth_refresh hash ≡ some t
unfolding issue_pair
issue_pair-keeps cfg st g scopes fresh metadata_client now hash t h =
    let st' = (access_token cfg st g scopes fresh.access_id metadata_client now).0 in
    let kept : get st'.oauth_refresh hash ≡ some t =
      rw (access_token-refresh cfg st g scopes fresh.access_id metadata_client now) h in
    elim (Issued-cases (access_token cfg st g scopes fresh.access_id metadata_client now).1) [
      | inl (end, e) ↦ rw (issue_pair, e) (create_token-keeps st' _ hash t kept)
      | inr (x, e) ↦ rw (issue_pair, e) kept
    ]

issue_live-keeps :
    (cfg : ProviderConfig) (st : Store) (rr : RefreshRequest) (fresh : Fresh)
    (metadata_client : Bool) (now : Time) (hash : Text) (t : OauthRefreshToken)
    → get st.oauth_refresh hash ≡ some t
    → get (issue_live cfg st rr fresh metadata_client now).0.oauth_refresh hash ≡ some t
unfolding issue_live
issue_live-keeps cfg st rr fresh metadata_client now hash t h =
    ground (arith, issue_pair-keeps cfg st rr.grant rr.scopes fresh metadata_client now hash t h)

-- Where two requests were both given the same unused refresh token and its grant is stored, then
-- whatever became of the first, the second is denied and ends the grant that it holds.
pub second_use_ends_grant :
    (cfg : ProviderConfig) (st : Store) (hash : Text) (t : OauthRefreshToken)
    (holder other : RefreshRequest) (fresh fresh' : Fresh) (metadata_client : Bool)
    (now later : Time)
    → get st.oauth_refresh hash ≡ some t
    → is_some t.used_at ≡ false
    → HasGrant st.oauth_grants other.grant.id
    → let st' = (rotate cfg st holder hash fresh metadata_client now).0 in
      let (st'', answer) = rotate cfg st' other hash fresh' metadata_client later in
      (answer ≡ denied invalid_refresh_token) × (is_ended st'' other.grant.id ≡ true)
second_use_ends_grant cfg st hash t holder other fresh fresh' metadata_client now later e unused
      has =
    let mid = spent st hash t now in
    let t' = record t { used_at = some now } in
    let st' = (issue_live cfg mid holder fresh metadata_client now).0 in
    let in_mid : get mid.oauth_refresh hash ≡ some t' =
      ground (arith, get-put st.oauth_refresh hash t' hash, beq_refl hash) in
    let there = issue_live-keeps cfg mid holder fresh metadata_client now hash t' in_mid in
    let grants : st'.oauth_grants ≡ st.oauth_grants =
      issue_live-grants cfg mid holder fresh metadata_client now in
    let ends =
      revoke_by_id-ends st' other.grant.id later
        (subst (λ m. HasGrant m other.grant.id) (sym grants) has) in
    let lost = rotate_used cfg st' other hash fresh' metadata_client later t' there refl in
    rw (rotate_unused cfg st holder hash fresh metadata_client now t e unused)
      (rw lost (refl, ends))
