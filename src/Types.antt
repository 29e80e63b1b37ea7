-- ===== src/Types.antt =====
-- The storage-agnostic records and errors of the authx package: credstore.go, directory.go, orgs.go,
-- sessions.go, twofactor.go and oauthstore.go. Times are nanoseconds, and 0 is the zero time.
use go_auth_x.Base.{Bool, List, Option, inl, inr, ltb, nat_beq, none, refl, some, ℕ, ◌≡◌, ◌⊎◌}
use go_auth_x.Text.{Bytes, Text}

abbrev pub Time : Type 0
Time = ℕ

-- t.After(u), t.Before(u), t.IsZero()
abbrev pub after : Time → Time → Bool
after t u = ltb u t

abbrev pub before : Time → Time → Bool
before t u = ltb t u

abbrev pub is_zero : Time → Bool
is_zero t = nat_beq t 0

-- The sentinel errors of the interfaces, and the three that the in-memory stores add.
pub data Error : Type 0 where
  no_user no_credential token_invalid email_conflict user_blocked : Error
  no_group no_org not_org_member : Error
  oauth_not_found oauth_token_used : Error
  duplicate_credential duplicate_group duplicate_org duplicate_oauth : Error

pub data Result {ℓ} (A : Type ℓ) : Type ℓ where
  ok : A → Result A
  err : Error → Result A

pub Result-cases {ℓ} :
    {A : Type ℓ} (r : Result A) → ((a : A) × (r ≡ ok a)) ⊎ ((e : Error) × (r ≡ err e))
Result-cases (ok a) = inl (a, refl)
Result-cases (err e) = inr (e, refl)

abbrev pub ok_or {ℓ} : {A : Type ℓ} → Option A → Error → Result A
ok_or none e = err e
ok_or (some a) e = ok a

-- AuthUser
pub record AuthUser : Type 0 where
  pub id : Text
  pub sub : Text
  pub email : Text
  pub name : Text
  pub email_verified : Bool
  pub disabled : Bool
  pub banned : Bool
  pub banned_until : Time
  pub ban_reason : Text
  pub created_at : Time
  pub updated_at : Time

-- TokenClaim
pub record TokenClaim : Type 0 where
  pub user_id : Text
  pub email : Text

-- Passkey
pub record Passkey : Type 0 where
  pub id : Text
  pub credential_id : Bytes
  pub public_key : Bytes
  pub attestation_type : Text
  pub aaguid : Bytes
  pub sign_count : ℕ
  pub transports : Text
  pub backup_eligible : Bool
  pub backup_state : Bool
  pub name : Text
  pub created_at : Time
  pub last_used_at : Time

-- SessionRecord
pub record SessionRecord : Type 0 where
  pub sid : Text
  pub subject : Text
  pub user_id : Text
  pub user_agent : Text
  pub ip : Text
  pub created_at : Time
  pub expires_at : Time
  pub current : Bool

-- TOTPInfo
pub record TotpInfo : Type 0 where
  pub secret : Text
  pub enabled : Bool
  pub last_step : ℕ

-- Group
pub record Group : Type 0 where
  pub id : Text
  pub name : Text
  pub description : Text
  pub created_at : Time
  pub updated_at : Time
  pub org_id : Text

-- APIKeyInfo
pub record ApiKeyInfo : Type 0 where
  pub id : Text
  pub name : Text
  pub prefix : Text
  pub groups : List Text
  pub scopes : List Text
  pub expires_at : Option Time
  pub created_at : Time
  pub last_used_at : Option Time
  pub org_id : Text

-- Org, UserOrg, OrgMember, OrgInvite
pub record Org : Type 0 where
  pub id : Text
  pub slug : Text
  pub name : Text
  pub created_at : Time
  pub updated_at : Time

pub record UserOrg : Type 0 where
  pub org : Org
  pub role : Text

pub record OrgMember : Type 0 where
  pub user : AuthUser
  pub role : Text

pub record OrgInvite : Type 0 where
  pub id : Text
  pub org_id : Text
  pub email : Text
  pub role : Text
  pub invited_by : Text
  pub expires_at : Time
  pub created_at : Time
