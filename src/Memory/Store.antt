-- ===== src/Memory/Store.antt =====
-- store/memory/memory.go: the records of the in-memory store. A method takes the store that it
-- locks, and returns the store that it leaves; the lock makes each method one step. The time and
-- the random values that a method reads are its arguments.
use go_auth_x.Base.{Bool, List, Option, [], list_eq, nat_eq, ℕ, ◌%◌, ◌+◌}
use go_auth_x.Map.{Map, empty}
use go_auth_x.OauthTypes.{
  OauthAccessToken, OauthAuthRequest, OauthClient, OauthGrant, OauthRefreshToken, OauthSigningKey,
}
use go_auth_x.Text.{Bytes, Text, u64}
use go_auth_x.Types.{ApiKeyInfo, Group, OrgInvite, Passkey, SessionRecord, Time}

-- user
pub record User : Type 0 where
  pub id : ℕ
  pub sub : Text
  pub email : Text
  pub name : Text
  pub email_verified : Bool
  pub disabled : Bool
  pub banned : Bool
  pub banned_until : Time
  pub ban_reason : Text
  pub webauthn_handle : Bytes
  pub created_at : Time
  pub updated_at : Time

-- passkey
pub record StoredPasskey : Type 0 where
  pub p : Passkey
  pub user_id : ℕ

-- token
pub record Token : Type 0 where
  pub purpose : Text
  pub user_id : ℕ
  pub email : Text
  pub hash : Bytes
  pub expires_at : Time
  pub consumed_at : Option Time

-- emailOTP
pub record EmailOtp : Type 0 where
  pub code_hash : Bytes
  pub attempts : ℕ
  pub max_attempts : ℕ
  pub expires_at : Time

-- sessionRec
pub record SessionRec : Type 0 where
  pub rec : SessionRecord
  pub revoked : Bool

-- audit
pub record Audit : Type 0 where
  pub user_id : ℕ
  pub email : Text
  pub success : Bool
  pub created_at : Time

-- The struct that holds a password hash.
pub record PasswordEntry : Type 0 where
  pub hash : Text
  pub algo : Text

-- totpRec
pub record TotpRec : Type 0 where
  pub secret : Text
  pub enabled : Bool
  pub last_step : ℕ

-- apiKey
pub record ApiKey : Type 0 where
  pub info : ApiKeyInfo
  pub hash : Bytes

-- org and orgInvite of orgs.go
pub record OrgRec : Type 0 where
  pub id : ℕ
  pub slug : Text
  pub name : Text
  pub created_at : Time
  pub updated_at : Time

pub record OrgInviteRec : Type 0 where
  pub inv : OrgInvite
  pub hash : Bytes
  pub consumed : Bool

-- Store. The lazily created OAuth maps are empty from the start; a nil map reads as an empty one.
pub record Store : Type 0 where
  pub seq : ℕ
  pub users : Map ℕ User
  pub passwords : Map ℕ PasswordEntry
  pub passkeys : Map ℕ StoredPasskey
  pub pk_seq : ℕ
  pub oauth : Map Text ℕ
  pub tokens : List Token
  pub otps : Map Text EmailOtp
  pub sessions : Map Text SessionRec
  pub audits : List Audit
  pub groups : Map ℕ Group
  pub group_seq : ℕ
  pub memberships : Map ℕ (Map ℕ Bool)
  pub apikeys : Map ℕ ApiKey
  pub api_seq : ℕ
  pub orgs : Map ℕ OrgRec
  pub org_seq : ℕ
  pub org_members : Map ℕ (Map ℕ Text)
  pub org_invites : Map ℕ OrgInviteRec
  pub invite_seq : ℕ
  pub totp : Map ℕ TotpRec
  pub recovery : Map ℕ (List Text)
  pub oauth_clients : Map Text OauthClient
  pub oauth_requests : Map Text OauthAuthRequest
  pub oauth_grants : Map Text OauthGrant
  pub oauth_access : Map Text OauthAccessToken
  pub oauth_refresh : Map Text OauthRefreshToken
  pub oauth_keys : List OauthSigningKey

-- New
abbrev pub new_store : Store
new_store = record {
  seq = 0;
  users = empty;
  passwords = empty;
  passkeys = empty;
  pk_seq = 0;
  oauth = empty;
  tokens = [];
  otps = empty;
  sessions = empty;
  audits = [];
  groups = empty;
  group_seq = 0;
  memberships = empty;
  apikeys = empty;
  api_seq = 0;
  orgs = empty;
  org_seq = 0;
  org_members = empty;
  org_invites = empty;
  invite_seq = 0;
  totp = empty;
  recovery = empty;
  oauth_clients = empty;
  oauth_requests = empty;
  oauth_grants = empty;
  oauth_access = empty;
  oauth_refresh = empty;
  oauth_keys = [];
}

-- s.seq++ on a 64-bit counter
abbrev pub next_id : ℕ → ℕ
next_id n = (n + 1) % u64
