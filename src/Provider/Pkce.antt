-- ===== src/Provider/Pkce.antt =====
-- oidcprovider/storage.go: CreateAuthRequest, and what it asks of a client without a secret.
use go_auth_x.Base.{
  Bool, Bool-cases, List, Option, [], arith, beq_refl, contains, false, if◌then◌else◌, inl, inr,
  list_beq_iff, list_eq, nat_eq, none, not, refl, some, sym, ◌!=◌, ◌&&◌, ◌++◌, ◌==◌, ◌∷◌, ◌≡◌, ◌≢◌,
  ◌⊎◌,
}
use go_auth_x.Map.{get, get-put}
use go_auth_x.Memory.Oauth.{save_oauth_auth_request}
use go_auth_x.Memory.Oauth.Clients.{differs}
use go_auth_x.Memory.Store.{Store}
use go_auth_x.OauthTypes.{OauthAuthRequest, OauthClient}
use go_auth_x.Org.Gate.{answer}
use go_auth_x.Provider.{Issued, denied, invalid_client, invalid_request, issued}
use go_auth_x.Text.{Text, codes}
use go_auth_x.Types.{Time}

-- The library's request, oidc.AuthRequest, as far as the code reads it.
pub record Authorize : Type 0 where
  pub client_id : Text
  pub redirect_uri : Text
  pub state : Text
  pub nonce : Text
  pub scopes : List Text
  pub response_type : Text
  pub response_mode : Text
  pub code_challenge : Text
  pub code_challenge_method : Text
  pub prompt : List Text

abbrev refresh_grant : Text
refresh_grant = codes "refresh_token"

abbrev offline_access : Text
offline_access = codes "offline_access"

abbrev pub auth_method_none : Text
auth_method_none = codes "none"

abbrev pub s256 : Text
s256 = codes "S256"

-- The scopes that are stored: a client that may refresh gets a refresh token without asking.
abbrev granted_scopes : OauthClient → List Text → List Text
granted_scopes c scopes =
    if contains c.grant_types refresh_grant && not (contains scopes offline_access)
    then scopes ++ offline_access ∷ []
    else scopes

abbrev pub new_request : OauthClient → Authorize → List Text → Text → Time → OauthAuthRequest
new_request c ar resources id now = record {
  id = id;
  client_id = ar.client_id;
  redirect_uri = ar.redirect_uri;
  state = ar.state;
  nonce = ar.nonce;
  scopes = granted_scopes c ar.scopes;
  response_type = ar.response_type;
  response_mode = ar.response_mode;
  code_challenge = ar.code_challenge;
  code_challenge_method = ar.code_challenge_method;
  resources = resources;
  prompt = ar.prompt;
  subject = [];
  ref = [];
  grant_expires_at = 0;
  auth_time = 0;
  done = false;
  code_hash = [];
  code_at = 0;
  created_at = now;
}

abbrev lacks_challenge : OauthClient → Authorize → Bool
lacks_challenge c ar = ar.code_challenge == [] && c.auth_method == auth_method_none

abbrev weak_challenge : Authorize → Bool
weak_challenge ar = ar.code_challenge != [] && ar.code_challenge_method != s256

-- CreateAuthRequest; the argument after the store is the client, where it was found
unfoldable pub create_auth_request :
    Store
    → Option OauthClient
    → Authorize
    → List Text
    → Text
    → Time
    → Store × Issued OauthAuthRequest
unfolding save_oauth_auth_request
create_auth_request st none ar resources id now = (st, denied invalid_client)
create_auth_request st (some c) ar resources id now =
    let r = new_request c ar resources id now in
    if lacks_challenge c ar
    then (st, denied invalid_request)
    else (if weak_challenge ar
        then (st, denied invalid_request)
        else (save_oauth_auth_request st r, issued r))

-- A request that is answered is stored under its identifier as it was made, not yet approved; one
-- of a client without a secret carries an S256 challenge; and a challenge of any client is an S256
-- one.
pub create_auth_request_challenge :
    (st : Store) (c : OauthClient) (ar : Authorize) (resources : List Text) (id : Text) (now : Time)
    (r : OauthAuthRequest)
    → let (st', answer) = create_auth_request st (some c) ar resources id now in
      answer ≡ issued r
      → (get st'.oauth_requests id ≡ some r)
        × (r.done ≡ false)
        × ((c.auth_method ≢ auth_method_none) ⊎ (r.code_challenge ≢ []))
        × ((r.code_challenge ≡ []) ⊎ (r.code_challenge_method ≡ s256))
unfolding create_auth_request save_oauth_auth_request
create_auth_request_challenge st c ar resources id now r h =
    let passed : (lacks_challenge c ar ≡ false) × (weak_challenge ar ≡ false) =
      elim (Bool-cases (lacks_challenge c ar)) [
        | inl b ↦ absurd (ground arith)
        | inr b ↦ elim (Bool-cases (weak_challenge ar)) [
          | inl w ↦ absurd (ground arith)
          | inr w ↦ (b, w)
        ]
      ] in
    let made = new_request c ar resources id now in
    let run : create_auth_request st (some c) ar resources id now
        ≡ (save_oauth_auth_request st made, issued made) =
      rw (create_auth_request, passed.0, passed.1) refl in
    let same : made ≡ r = ground arith in
    rw (run, sym same)
      (
        ground (arith, get-put st.oauth_requests id made id, beq_refl id),
        refl,
        elim (Bool-cases (ar.code_challenge == [])) [
          | inl b ↦ inl (differs c.auth_method auth_method_none (ground arith))
          | inr b ↦ inr (differs ar.code_challenge [] b)
        ],
        elim (Bool-cases (ar.code_challenge == [])) [
          | inl b ↦ inl (ground (arith, list_beq_iff ar.code_challenge []))
          | inr b ↦ inr (ground (arith, list_beq_iff ar.code_challenge_method s256))
        ],
      )
