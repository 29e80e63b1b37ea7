-- ===== src/OauthTypes.antt =====
-- The records of the OAuth provider's store: oauthstore.go.
use go_auth_x.Base.{Bool, List, Option, [], list_eq, nat_eq, ◌&&◌, ◌==◌}
use go_auth_x.Text.{Bytes, Text}
use go_auth_x.Types.{Time}

-- OAuthClient
pub record OauthClient : Type 0 where
  pub id : Text
  pub secret_hash : Text
  pub name : Text
  pub uri : Text
  pub logo_uri : Text
  pub redirect_uris : List Text
  pub grant_types : List Text
  pub auth_method : Text
  pub dynamic : Bool
  pub created_at : Time
  pub last_used_at : Time

-- OAuthAuthRequest
pub record OauthAuthRequest : Type 0 where
  pub id : Text
  pub client_id : Text
  pub redirect_uri : Text
  pub state : Text
  pub nonce : Text
  pub scopes : List Text
  pub response_type : Text
  pub response_mode : Text
  pub code_challenge : Text
  pub code_challenge_method : Text
  pub resources : List Text
  pub prompt : List Text
  pub subject : Text
  pub ref : Text
  pub grant_expires_at : Time
  pub auth_time : Time
  pub done : Bool
  pub code_hash : Text
  pub code_at : Time
  pub created_at : Time

-- OAuthGrant
pub record OauthGrant : Type 0 where
  pub id : Text
  pub client_id : Text
  pub subject : Text
  pub scopes : List Text
  pub resources : List Text
  pub ref : Text
  pub auth_time : Time
  pub created_at : Time
  pub expires_at : Time
  pub revoked_at : Option Time

-- OAuthAccessToken
pub record OauthAccessToken : Type 0 where
  pub id : Text
  pub grant_id : Text
  pub client_id : Text
  pub subject : Text
  pub scopes : List Text
  pub expires_at : Time
  pub created_at : Time

-- OAuthRefreshToken
pub record OauthRefreshToken : Type 0 where
  pub hash : Text
  pub grant_id : Text
  pub client_id : Text
  pub subject : Text
  pub scopes : List Text
  pub expires_at : Time
  pub created_at : Time
  pub used_at : Option Time

-- OAuthSigningKey
pub record OauthSigningKey : Type 0 where
  pub id : Text
  pub algorithm : Text
  pub private_pem : Bytes
  pub created_at : Time
  pub retired_at : Option Time

-- OAuthGrantFilter
pub record OauthGrantFilter : Type 0 where
  pub id : Text
  pub ref : Text
  pub client_id : Text
  pub subject : Text

-- OAuthGrantFilter.Empty
unfoldable pub is_empty_filter : OauthGrantFilter → Bool
is_empty_filter f = f.id == [] && (f.ref == [] && (f.client_id == [] && f.subject == []))
