-- ===== src/Provider/Tokens.antt =====
-- oidcprovider/storage.go: ending sessions, revoking tokens, and introspection.
use go_auth_x.Base.{
  List, Option, [], if◌then◌else◌, list_eq, nat_eq, none, some, ◌!=◌, ◌&&◌, ◌==◌, ◌||◌, ◌∷◌,
}
use go_auth_x.Map.{get, is_some}
use go_auth_x.Memory.Oauth.{delete_oauth_access_token, revoke_oauth_grants}
use go_auth_x.Memory.Store.{Store}
use go_auth_x.Provider.{Issued, denied, invalid_refresh_token, invalid_token, issued, revoke_by_id}
use go_auth_x.Text.{Text}
use go_auth_x.Types.{Time, after}

-- TerminateSession
unfoldable pub terminate_session : Store → Text → Text → Time → Store
unfolding revoke_oauth_grants
terminate_session st user_id client_id now =
    if user_id == [] || client_id == []
    then st
    else (revoke_oauth_grants st
        (record { id = []; ref = []; client_id = client_id; subject = user_id }) now).0

-- GetRefreshTokenInfo: the subject, and the name of the token for revocation
unfoldable pub refresh_token_info : Store → Text → Text → Issued (Text × Text)
refresh_token_info st client_id hash = elim (get st.oauth_refresh hash) [
  | none ↦ denied invalid_refresh_token
  | some t ↦
      if t.client_id == client_id
      then issued (t.subject, b'r' ∷ b't' ∷ b':' ∷ t.hash)
      else denied invalid_refresh_token
]

-- strings.CutPrefix(s, "rt:")
unfoldable pub cut_rt : Text → Option Text
cut_rt (a ∷ b ∷ c ∷ rest) = if a == b'r' && (b == b't' && c == b':') then some rest else none
cut_rt _ = none

abbrev pub revoke_refresh : Store → Text → Text → Time → Store
unfolding revoke_by_id
revoke_refresh st hash client_id now = elim (get st.oauth_refresh hash) [
  | none ↦ st
  | some t ↦ if t.client_id == client_id then revoke_by_id st t.grant_id now else st
]

abbrev pub revoke_access : Store → Text → Text → Text → Store
unfolding delete_oauth_access_token
revoke_access st id user_id client_id = elim (get st.oauth_access id) [
  | none ↦ st
  | some t ↦
      if t.client_id != client_id || (user_id != [] && t.subject != user_id)
      then st
      else delete_oauth_access_token st t.id
]

-- RevokeToken; the memory store does not fail to delete a token
unfoldable pub revoke_token : Store → Text → Text → Text → Time → Store
unfolding cut_rt
revoke_token st token user_id client_id now = elim (cut_rt token) [
  | some hash ↦ revoke_refresh st hash client_id now
  | none ↦ revoke_access st token user_id client_id
]

-- What SetIntrospectionFromToken writes into an active answer.
pub record Introspection : Type 0 where
  pub scope : List Text
  pub client_id : Text
  pub subject : Text
  pub expiration : Time
  pub issued_at : Time
  pub audience : List Text

-- SetIntrospectionFromToken
unfoldable pub introspect : Store → Text → Text → Time → Issued Introspection
introspect st token_id subject now = elim (get st.oauth_access token_id) [
  | none ↦ denied invalid_token
  | some t ↦
      if t.subject != subject || after now t.expires_at
      then denied invalid_token
      else (elim (get st.oauth_grants t.grant_id) [
        | none ↦ denied invalid_token
        | some g ↦
            if is_some g.revoked_at
            then denied invalid_token
            else (issued (record {
              scope = t.scopes;
              client_id = t.client_id;
              subject = subject;
              expiration = t.expires_at;
              issued_at = t.created_at;
              audience = t.client_id ∷ g.resources;
            }))
      ])
]
