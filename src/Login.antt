-- ===== src/Login.antt =====
-- login.go, sessions.go and twofactor.go: the funnel in which every sign-in ends, over one store that
-- has every interface. The authorizer, random identifiers and the clock are arguments; a cookie is
-- its claims.
pub mod Factors
pub mod Passwords
pub mod Links
pub mod Reset
pub mod Gated
pub mod SignIns
pub mod Lockout
pub mod Rewind
pub mod Stale
use go_auth_x.Base.{
  Bool, List, Option, [], false, if◌then◌else◌, keep, list_eq, map, nat_eq, none, some, take, true,
  ℕ, ◌*◌, ◌+◌, ◌==◌,
}
use go_auth_x.Handler.{Handler}
use go_auth_x.Memory.Listings.{user_groups}
use go_auth_x.Memory.Sessions.{record_session}
use go_auth_x.Memory.Store.{Store}
use go_auth_x.Memory.TwoFactor.{totp}
use go_auth_x.Memory.Users.{user_by_sub}
use go_auth_x.Org.{default_org_claims}
use go_auth_x.Org.Gate.{Gate, deny, go}
use go_auth_x.Session.{
  SessionClaims, aud_pending, can_sign, mint_session_with, remember_ttl, second, session_ttl,
}
use go_auth_x.Text.{Bytes, Text}
use go_auth_x.Types.{AuthUser, Group, Result, Time, err, ok}

-- What the sign-in handlers read of the configuration.
pub record LoginConfig : Type 0 where
  pub owner_email : Text
  pub session_secret : Bytes
  pub hash_token : Text → Bytes

-- Identity
pub record Identity : Type 0 where
  pub subject : Text
  pub email : Text
  pub name : Text
  pub email_verified : Bool
  pub groups : List Text

-- The authorizer that may be wired: the role, or an error.
abbrev pub Authorizer : Type 0
Authorizer = Option (Identity → Store → Store × Result Text)

-- What the answer takes from the request and from the random source: newSessionID, the agent and
-- the address of the client.
pub record Client : Type 0 where
  pub sid : Text
  pub agent : Text
  pub ip : Text

-- pendingClaims, with the registered claims
pub record PendingClaims : Type 0 where
  pub subject : Text
  pub email : Text
  pub name : Text
  pub groups : List Text
  pub role : Text
  pub remember : Bool
  pub first_factor_cred : Bytes
  pub audience : Text
  pub issued_at : Time
  pub expires_at : Time

-- The cookie that a sign-in sets.
pub data SignIn : Type 0 where
  session : SessionClaims → SignIn
  pending : PendingClaims → SignIn

-- twoFactorPendingTTL, five minutes
abbrev pub pending_ttl : ℕ
pending_ttl = 300 * second

-- The names of the groups that belong to no organization: groupNames of directory.go over
-- globalGroups of orgdirectory.go
abbrev pub group_names : List Group → List Text
group_names gs = map (λ g. g.name) gs

unfoldable pub global_groups : List Group → List Group
global_groups gs = keep (λ g. g.org_id == []) gs

-- recordSession of sessions.go, where a session store is wired; `agent` and `ip` are those of the
-- request
unfoldable pub note_session : Text → Text → Text → Text → Text → ℕ → Time → Store → Store
unfolding record_session
note_session sid subject user_id agent ip ttl now s =
    if sid == []
    then s
    else record_session s
        (record {
          sid = sid;
          subject = subject;
          user_id = user_id;
          user_agent = take 400 agent;
          ip = ip;
          created_at = now;
          expires_at = now + ttl;
          current = false;
        })
        now

abbrev pub blank_claims : SessionClaims
blank_claims = record {
  subject = [];
  email = [];
  name = [];
  groups = [];
  role = [];
  id_token = [];
  sid = [];
  impersonated_by = [];
  org = [];
  org_role = [];
  audience = [];
  issued_at = none;
  expires_at = none;
}

-- userHasTOTP
unfoldable pub user_has_totp : Store → Text → Bool
unfolding totp
user_has_totp s user_id = elim (totp s user_id) [ err _ ↦ false | ok info ↦ info.enabled ]

-- mintPending; nothing where the secret is too short to sign
unfoldable pub mint_pending : Bytes → Identity → Text → Bool → Bytes → Time → Option PendingClaims
mint_pending secret id role remember first_factor_cred now =
    if can_sign secret
    then some (record {
      subject = id.subject;
      email = id.email;
      name = id.name;
      groups = id.groups;
      role = role;
      remember = remember;
      first_factor_cred = first_factor_cred;
      audience = aud_pending;
      issued_at = now;
      expires_at = now + pending_ttl;
    })
    else none

abbrev pub ttl_of : Bool → ℕ
ttl_of remember = if remember then remember_ttl else session_ttl

abbrev pub claims_of_login : Identity → Text → Text → Text × Text → SessionClaims
claims_of_login id role sid (org, org_role) = record blank_claims {
  email = id.email;
  name = id.name;
  groups = id.groups;
  role = role;
  sid = sid;
  org = org;
  org_role = org_role;
}

-- The session is recorded before its cookie is set; `uid` is empty where there is no local user.
abbrev pub start_session :
    LoginConfig
    → Client
    → Identity
    → Text
    → Bool
    → Text
    → Time
    → Store
    → Store × Option SessionClaims
start_session config client id role remember uid now s =
    let org = if uid == [] then ([], []) else default_org_claims s uid in
    elim (mint_session_with config.session_secret (claims_of_login id role client.sid org)
      id.subject now (ttl_of remember)) [
        | none ↦ (s, none)
        | some sc ↦ (
          note_session client.sid id.subject uid client.agent client.ip (ttl_of remember) now s,
          some sc,
        )
      ]

-- The groups that a session carries: those of the identity, or the global ones of the user.
abbrev pub enriched : Store → AuthUser → Identity → Identity
enriched s u id =
    if id.groups == []
    then record id { groups = group_names (global_groups (user_groups s u.id)) }
    else id

abbrev pub as_session : Store × Option SessionClaims → Store × Option SignIn
as_session (s, none) = (s, none)
as_session (s, some sc) = (s, some (session sc))

abbrev pub as_pending : Option PendingClaims → Option SignIn
as_pending none = none
as_pending (some pc) = some (pending pc)

-- completeLogin behind the authorizer: nothing where it fails
unfoldable pub finish_login :
    LoginConfig → Client → Identity → Text → Bool → Bytes → Time → Store → Store × Option SignIn
unfolding user_by_sub user_groups global_groups user_has_totp mint_pending default_org_claims
    mint_session_with note_session
finish_login config client id role remember first_factor_cred now s =
    elim (user_by_sub s id.subject) [
      | err _ ↦ as_session (start_session config client id role remember [] now s)
      | ok u ↦
          if user_has_totp s u.id
          then (
            s,
            as_pending (
                mint_pending config.session_secret (enriched s u id) role remember first_factor_cred
                  now),
          )
          else as_session (start_session config client (enriched s u id) role remember u.id now s)
    ]

-- completeLogin
unfoldable pub complete_login :
    LoginConfig
    → Authorizer
    → Client
    → Identity
    → Bool
    → Bytes
    → Time
    → Store
    → Store × Option SignIn
unfolding finish_login
complete_login config none client id remember first_factor_cred now s =
    finish_login config client id [] remember first_factor_cred now s
complete_login config (some authorizer) client id remember first_factor_cred now s =
    let (s', r) = authorizer id s in
    elim r [
      | err _ ↦ (s', none)
      | ok role ↦ finish_login config client id role remember first_factor_cred now s'
    ]

abbrev pub uid_or_none : Result AuthUser → Text
uid_or_none (err e) = []
uid_or_none (ok u) = u.id

-- completePendingLogin
unfoldable pub complete_pending_login :
    LoginConfig → Client → PendingClaims → Time → Store → Store × Option SessionClaims
unfolding user_by_sub default_org_claims mint_session_with note_session
complete_pending_login config client pc now s =
    start_session config client
      (record {
        subject = pc.subject;
        email = pc.email;
        name = pc.name;
        email_verified = false;
        groups = pc.groups;
      })
      pc.role pc.remember (uid_or_none (user_by_sub s pc.subject)) now s

-- A sign-in that fails behind its checks is answered with a status.
abbrev pub or_status {ℓ} : {A : Type ℓ} → ℕ → Store × Option A → Store × Gate A
or_status status (s, none) = (s, deny status)
or_status status (s, some a) = (s, go a)

-- The identity that the handlers sign in.
abbrev pub identity_of : AuthUser → Identity
identity_of u = record {
  subject = u.sub;
  email = u.email;
  name = u.name;
  email_verified = true;
  groups = [];
}
