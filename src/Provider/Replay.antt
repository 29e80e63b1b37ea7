-- ===== src/Provider/Replay.antt =====
-- oidcprovider/storage.go: a refresh token that is presented again, and what comes after.
use go_auth_x.Base.{
  Bool-cases, List, Option-cases, [], ap, arith, beq_refl, false, inl, inr, list_beq, list_beq_iff,
  list_eq, nat_eq, refl, some, subst, true, ◌≡◌, ◌≢◌,
}
use go_auth_x.Map.{Map, change_all, get, get-change_all, is_some}
use go_auth_x.Memory.Oauth.{is_skipped, misses, revoke_grant, revoke_oauth_grants}
use go_auth_x.Memory.Store.{Store}
use go_auth_x.OauthTypes.{
  OauthAccessToken, OauthGrant, OauthGrantFilter, OauthRefreshToken, is_empty_filter,
}
use go_auth_x.Org.Directory.Runs.{calls}
use go_auth_x.Org.Gate.{answer}
use go_auth_x.Provider.{
  ProviderConfig, by_id, denied, grant_of, invalid_refresh_token, invalid_token, live, revoke_by_id,
  token_request_by_refresh_token,
}
use go_auth_x.Provider.Calls.{AllDrawOther, Call, serve_all, serve_all-Keeps}
use go_auth_x.Provider.Ended.{ended_is_dead, is_dead, is_ended}
use go_auth_x.Provider.Tokens.{introspect}
use go_auth_x.Text.{Text}
use go_auth_x.Types.{Time, after}

-- A grant is stored under its own identifier, which is not empty.
abbrev pub HasGrant : Map Text OauthGrant → Text → Type 0
HasGrant table id = (id ≢ []) × (g : OauthGrant) × (get table id ≡ some g) × (g.id ≡ id)

revokes_all :
    (st : Store) (f : OauthGrantFilter) (now : Time)
    → is_empty_filter f ≡ false
    → (revoke_oauth_grants st f now).0.oauth_grants
      ≡ change_all (λ _. revoke_grant f now) st.oauth_grants
unfolding revoke_oauth_grants
revokes_all st f now h = rw (h, revoke_oauth_grants) refl

revoke_grant-skips :
    (f : OauthGrantFilter) (now : Time) (g : OauthGrant)
    → is_some g.revoked_at ≡ true
    → revoke_grant f now g ≡ g
unfolding is_skipped
revoke_grant-skips f now g h = rw (revoke_grant, is_skipped, h) refl

not_missed : (x : Text) → misses x x ≡ false
not_missed x = ground (arith, beq_refl x)

not_skipped : (g : OauthGrant) → is_some g.revoked_at ≡ false → is_skipped (by_id g.id) g ≡ false
unfolding is_skipped list_beq
not_skipped g h = rw (is_skipped, h, not_missed g.id) refl

revokes_own :
    (g : OauthGrant) (now : Time) → is_some (revoke_grant (by_id g.id) now g).revoked_at ≡ true
unfolding is_skipped
revokes_own g now = elim (Bool-cases (is_some g.revoked_at)) [
  | inl b ↦ rw (revoke_grant-skips (by_id g.id) now g b) b
  | inr b ↦ rw (revoke_grant, not_skipped g b) refl
]

pub revoke_by_id-ends :
    (st : Store) (id : Text) (now : Time)
    → HasGrant st.oauth_grants id
    → is_ended (revoke_by_id st id now) id ≡ true
unfolding revoke_by_id is_empty_filter is_ended
revoke_by_id-ends st id now (named, g, e, own) =
    let some_id : is_empty_filter (by_id id) ≡ false = ground (arith, list_beq_iff id []) in
    let revoked : is_some (revoke_grant (by_id id) now g).revoked_at ≡ true =
      subst (λ k. is_some (revoke_grant (by_id k) now g).revoked_at ≡ true) own
        (revokes_own g now) in
    rw (revokes_all st (by_id id) now some_id, is_ended, revoke_by_id)
      (rw (get-change_all (λ _. revoke_grant (by_id id) now) st.oauth_grants id) (rw e revoked))

dead_grant :
    (cfg : ProviderConfig) (st : Store) (t : OauthRefreshToken) (now : Time)
    → is_dead st t.grant_id ≡ true
    → grant_of cfg st t now ≡ denied invalid_refresh_token
unfolding is_dead live
dead_grant cfg st t now h = elim (Option-cases (get st.oauth_grants t.grant_id)) [
  | inl m ↦ rw (m, grant_of) refl
  | inr (g, m) ↦
      let revoked : is_some g.revoked_at ≡ true = ground arith in
      let stopped : live cfg g now ≡ denied invalid_refresh_token = rw (revoked, live) refl in
      rw (m, stopped, grant_of) refl
]

module _ (cfg : ProviderConfig) (st : Store) (hash : Text) (t : OauthRefreshToken)
    (now : Time) where
  used_is_replay :
      get st.oauth_refresh hash ≡ some t
      → is_some t.used_at ≡ true
      → token_request_by_refresh_token cfg st hash now
        ≡ (revoke_by_id st t.grant_id now, denied invalid_refresh_token)
  unfolding token_request_by_refresh_token
  used_is_replay e used = rw (e, used, token_request_by_refresh_token) refl

  dead_is_denied :
      get st.oauth_refresh hash ≡ some t
      → is_dead st t.grant_id ≡ true
      → (token_request_by_refresh_token cfg st hash now).1 ≡ denied invalid_refresh_token
  unfolding token_request_by_refresh_token
  dead_is_denied e h = elim (Bool-cases (is_some t.used_at)) [
    | inl b ↦ ap (λ r. r.1) (used_is_replay e b)
    | inr b ↦
        let over = dead_grant cfg st t now h in
        elim (Bool-cases (after now t.expires_at)) [
          | inl late ↦ rw (e, b, late, token_request_by_refresh_token) refl
          | inr early ↦ rw (e, b, early, token_request_by_refresh_token) over
        ]
  ]

dead_is_inactive :
    (st : Store) (token_id subject : Text) (t : OauthAccessToken) (now : Time)
    → get st.oauth_access token_id ≡ some t
    → is_dead st t.grant_id ≡ true
    → introspect st token_id subject now ≡ denied invalid_token
unfolding introspect is_dead
dead_is_inactive st token_id subject t now e h = ground arith

replay_ends :
    (cfg : ProviderConfig) (st : Store) (hash : Text) (t : OauthRefreshToken) (now : Time)
    (calls : List Call)
    → get st.oauth_refresh hash ≡ some t
    → is_some t.used_at ≡ true
    → HasGrant st.oauth_grants t.grant_id
    → AllDrawOther t.grant_id calls
    → is_dead (serve_all cfg (token_request_by_refresh_token cfg st hash now).0 calls) t.grant_id
      ≡ true
replay_ends cfg st hash t now calls e used has others =
    serve_all-Keeps cfg _ t.grant_id calls others (
      rw (used_is_replay cfg st hash t now e used)
        (ended_is_dead _ t.grant_id (revoke_by_id-ends st t.grant_id now has)))

-- Where a refresh token that was used is presented again and its grant is stored, the request is
-- denied; and after any further operations of the provider on its store, clean-ups and the deletion
-- of clients included, that draw other identifiers for new grants, a refresh token of that grant is
-- denied as well, and introspection finds no access token of the grant active.
pub replay_is_final :
    (cfg : ProviderConfig) (st : Store) (hash : Text) (t : OauthRefreshToken) (now : Time)
    (calls : List Call) (hash' : Text) (t' : OauthRefreshToken) (token_id subject : Text)
    (a : OauthAccessToken) (later : Time)
    → get st.oauth_refresh hash ≡ some t
    → is_some t.used_at ≡ true
    → HasGrant st.oauth_grants t.grant_id
    → AllDrawOther t.grant_id calls
    → let (st', answer) = token_request_by_refresh_token cfg st hash now in
      let end = serve_all cfg st' calls in
      get end.oauth_refresh hash' ≡ some t'
      → t'.grant_id ≡ t.grant_id
      → get end.oauth_access token_id ≡ some a
      → a.grant_id ≡ t.grant_id
      → (answer ≡ denied invalid_refresh_token)
        × ((token_request_by_refresh_token cfg end hash' later).1 ≡ denied invalid_refresh_token)
        × (introspect end token_id subject later ≡ denied invalid_token)
replay_is_final cfg st hash t now calls hash' t' token_id subject a later e used has others e' same
      ea own =
    let dead = replay_ends cfg st hash t now calls e used has others in
    (
      ap (λ r. r.1) (used_is_replay cfg st hash t now e used),
      dead_is_denied cfg _ hash' t' later e' (rw same dead),
      dead_is_inactive _ token_id subject a later ea (rw own dead),
    )
