-- ===== src/Provider/Lifetimes.antt =====
-- An access token does not outlive its grant.
use go_auth_x.Base.{
  Bool, List, Option, Option-cases, arith, beq_refl, inl, inr, list_eq, nat_beq_iff, nat_eq, some,
  ◌+◌, ◌≡◌, ◌≤◌, ◌⊎◌,
}
use go_auth_x.Map.{get, get-put, map_option}
use go_auth_x.Memory.Oauth.{
  create_oauth_access_token, create_oauth_refresh_token, touch_oauth_client,
}
use go_auth_x.Memory.Store.{Store}
use go_auth_x.OauthTypes.{OauthGrant}
use go_auth_x.Org.Gate.{answer}
use go_auth_x.Provider.{
  Fresh, Issued-cases, ProviderConfig, access_token, cap_time, issue_pair, issued, new_access,
}
use go_auth_x.Text.{Text}
use go_auth_x.Types.{Time}

abbrev access_end : ProviderConfig → OauthGrant → Time → Time
access_end cfg g now = cap_time (now + cfg.access_token_ttl) g.expires_at

cap_time_bounds :
    (t limit : Time) → (cap_time t limit ≤ t) × ((limit ≡ 0) ⊎ (cap_time t limit ≤ limit))
unfolding cap_time
cap_time_bounds t limit = ground (arith, nat_beq_iff limit 0)

-- The end of the access token that is stored under an identifier.
abbrev pub stored_end : Store → Text → Option Time
stored_end st id = map_option (λ t. t.expires_at) (get st.oauth_access id)

access_token_end :
    (cfg : ProviderConfig) (st : Store) (g : OauthGrant) (scopes : List Text) (id : Text)
    (metadata_client : Bool) (now expires : Time)
    → let r = access_token cfg st g scopes id metadata_client now in
      r.1 ≡ issued expires → (expires ≡ access_end cfg g now) × (stored_end r.0 id ≡ some expires)
unfolding access_token create_oauth_access_token touch_oauth_client
access_token_end cfg st g scopes id metadata_client now expires h =
    elim (Option-cases (get st.oauth_access id)) [
      | inl e ↦
          ground
            (arith, beq_refl id, get-put st.oauth_access id (new_access cfg g scopes id now) id)
      | inr (t, e) ↦ absurd (ground arith)
    ]

-- Where a pair of tokens is issued, the access token is stored under its identifier with the expiry
-- that is answered, which is at most the configured lifetime from now, and not after the end of a
-- grant that has one.
pub issue_pair_bounds :
    (cfg : ProviderConfig) (st : Store) (g : OauthGrant) (scopes : List Text) (fresh : Fresh)
    (metadata_client : Bool) (now expires : Time)
    → let (st', answer) = issue_pair cfg st g scopes fresh metadata_client now in
      answer ≡ issued expires
      → (stored_end st' fresh.access_id ≡ some expires)
        × (expires ≤ now + cfg.access_token_ttl)
        × ((g.expires_at ≡ 0) ⊎ (expires ≤ g.expires_at))
unfolding issue_pair create_oauth_refresh_token
issue_pair_bounds cfg st g scopes fresh metadata_client now expires h =
    elim (Issued-cases (access_token cfg st g scopes fresh.access_id metadata_client now).1) [
      | inl (end, e) ↦
          let (same, kept) =
            access_token_end cfg st g scopes fresh.access_id metadata_client now end e in
          let bounds = cap_time_bounds (now + cfg.access_token_ttl) g.expires_at in
          let answered : end ≡ expires = ground arith in (ground arith, ground arith, ground arith)
      | inr (x, e) ↦ absurd (ground arith)
    ]
