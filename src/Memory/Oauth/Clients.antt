-- ===== src/Memory/Oauth/Clients.antt =====
-- A client goes with everything that was issued to it, and nothing else goes.
use go_auth_x.Base.{
  Bool, Bool-cases, Option-cases, arith, beq_refl, false, inl, inr, list_beq_iff, list_eq, nat_eq,
  none, some, ◌==◌, ◌≡◌, ◌≢◌,
}
use go_auth_x.Map.{Map, delete_if, get, get-delete, get-delete_if}
use go_auth_x.Memory.Oauth.{delete_client, delete_grants_if, delete_oauth_client}
use go_auth_x.Memory.Store.{Store}
use go_auth_x.OauthTypes.{OauthAccessToken, OauthAuthRequest, OauthGrant, OauthRefreshToken}
use go_auth_x.Text.{Text}

-- Nothing of the client `id` is left, nor a token under a grant that it had in the store `s`.
pub record IsCleared (id : Text) (s s' : Store) : Type 0 where
  pub client : get s'.oauth_clients id ≡ none
  pub requests :
      (k : Text) (r : OauthAuthRequest) → get s'.oauth_requests k ≡ some r → r.client_id ≢ id
  pub grants : (k : Text) (g : OauthGrant) → get s'.oauth_grants k ≡ some g → g.client_id ≢ id
  pub access : (k : Text) (t : OauthAccessToken) → get s'.oauth_access k ≡ some t → t.client_id ≢ id
  pub refresh :
      (k : Text) (t : OauthRefreshToken) → get s'.oauth_refresh k ≡ some t → t.client_id ≢ id
  pub granted_access :
      (k : Text) (t : OauthAccessToken) (g : OauthGrant)
      → get s'.oauth_access k ≡ some t
      → get s.oauth_grants t.grant_id ≡ some g
      → g.client_id ≢ id
  pub granted_refresh :
      (k : Text) (t : OauthRefreshToken) (g : OauthGrant)
      → get s'.oauth_refresh k ≡ some t
      → get s.oauth_grants t.grant_id ≡ some g
      → g.client_id ≢ id

module _ {V : Type 0} (p : V → Bool) (m : Map Text V) where
  -- What is left where the entries that pass a test were deleted does not pass it.
  left_fails :
      (k : Text) (v : V)
      → get (delete_if (λ _. p) m) k ≡ some v
      → (p v ≡ false) × (get m k ≡ some v)
  left_fails k v h = elim (Option-cases (get m k)) [
    | inl e ↦ absurd (ground (arith, get-delete_if (λ _. p) m k))
    | inr (w, e) ↦ elim (Bool-cases (p w)) [
      | inl b ↦ absurd (ground (arith, get-delete_if (λ _. p) m k))
      | inr b ↦
          (ground (arith, get-delete_if (λ _. p) m k), ground (arith, get-delete_if (λ _. p) m k))
    ]
  ]

abbrev is_doomed : Store → Text → Text → Bool
is_doomed s id grant_id = elim (get s.oauth_grants grant_id) [
  | none ↦ false
  | some g ↦ g.client_id == id
]

pub differs : (a b : Text) → (a == b) ≡ false → a ≢ b
differs a b h e = absurd (ground (arith, list_beq_iff a b))

spared :
    (s : Store) (id : Text) (g : OauthGrant) (grant_id : Text)
    → get s.oauth_grants grant_id ≡ some g
    → is_doomed s id grant_id ≡ false
    → g.client_id ≢ id
spared s id g grant_id e h = differs g.client_id id (ground arith)

-- After DeleteOAuthClient there is no client, request, grant or token of that identifier, and no
-- token under a grant that the client had.
pub delete_oauth_client-IsCleared :
    (s : Store) (id : Text) → IsCleared id s (delete_oauth_client s id)
unfolding delete_oauth_client delete_client delete_grants_if
delete_oauth_client-IsCleared s id = record {
  client = ground (arith, get-delete s.oauth_clients id id, beq_refl id);
  requests = λ k r h.
      differs r.client_id id (left_fails (λ r. r.client_id == id) s.oauth_requests k r h).0;
  grants =
      λ k g h. differs g.client_id id (left_fails (λ g. g.client_id == id) s.oauth_grants k g h).0;
  access = λ k t h. differs t.client_id id (left_fails (λ t. t.client_id == id) _ k t h).0;
  refresh = λ k t h. differs t.client_id id (left_fails (λ t. t.client_id == id) _ k t h).0;
  granted_access = λ k t g h e.
      spared s id g t.grant_id e
        (left_fails (λ t. is_doomed s id t.grant_id) s.oauth_access k t
          (left_fails (λ t. t.client_id == id) _ k t h).1).0;
  granted_refresh = λ k t g h e.
      spared s id g t.grant_id e
        (left_fails (λ t. is_doomed s id t.grant_id) s.oauth_refresh k t
          (left_fails (λ t. t.client_id == id) _ k t h).1).0;
}
