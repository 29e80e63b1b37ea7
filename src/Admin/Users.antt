-- ===== src/Admin/Users.antt =====
-- admin_users.go: the handlers of the admin API on accounts, bans, impersonation and sessions.
-- bcrypt, the breach checker and random values are arguments.
use go_auth_x.Admin.{AdminConfig, Caller, admin_guard, validate_api_key}
use go_auth_x.Admin.Groups.{cut_sessions, time_or_400}
use go_auth_x.Base.{
  Bool, List, Option, [], if◌then◌else◌, list_eq, nat_eq, none, some, true, ℕ, ◌!=◌, ◌&&◌, ◌*◌,
  ◌++◌, ◌==◌,
}
use go_auth_x.Csrf.{bearer_token}
use go_auth_x.Handler.{
  Handler, always, attempt, change, fetch, gate, gets, refuse_if, reply_with, ◌>>=◌, ◌>>◌,
}
use go_auth_x.Login.{blank_claims, global_groups, group_names, note_session}
use go_auth_x.Map.{is_some}
use go_auth_x.Memory.Audits.{record_audit}
use go_auth_x.Memory.Erase.{delete_user}
use go_auth_x.Memory.Listings.{list_sessions_for_user, user_groups}
use go_auth_x.Memory.Sessions.{revoke_all_for_user, revoke_session}
use go_auth_x.Memory.Users.{
  create_local_user, set_email_verified, set_password_hash, set_user_ban, user_by_id,
}
use go_auth_x.Org.{default_org_claims}
use go_auth_x.Org.Gate.{Gate, deny, go, param_id}
use go_auth_x.Org.Joining.{norm_email, valid_email}
use go_auth_x.Password.{PasswordTools, password_policy_error}
use go_auth_x.Session.{SessionClaims, mint_session_with, second}
use go_auth_x.Text.{Text, codes, trim_space}
use go_auth_x.Types.{AuthUser, Error, Result, SessionRecord, Time, email_conflict, err, ok}

-- impersonationTTL, 30 minutes
abbrev pub impersonation_ttl : ℕ
impersonation_ttl = 1800 * second

-- The body of adminCreateUser; a field that is not there is empty.
pub record UserBody : Type 0 where
  pub email : Text
  pub name : Text
  pub password : Text
  pub email_verified : Bool

abbrev pub user_body_or_400 : Option UserBody → Gate UserBody
user_body_or_400 none = deny 400
user_body_or_400 (some body) = if valid_email (norm_email body.email) then go body else deny 400

abbrev pub is_weak : PasswordTools → Text → Text → Bool
is_weak tools pw email = is_some (password_policy_error tools.breach pw email)

-- The password of a new account; the account is deleted where the password cannot be hashed.
abbrev pub first_password : PasswordTools → Text → Text → Handler (Unit {0})
first_password tools id pw s = if pw == [] then (s, go tt) else (elim (tools.hash_password pw) [
  | none ↦ (delete_user s id, deny 500)
  | some hash ↦ (set_password_hash s id hash (codes "bcrypt"), go tt)
])

abbrev pub first_verification : Bool → AuthUser → Time → Handler AuthUser
first_verification verified u now s =
    if verified
    then (set_email_verified s u.id true now, go (record u { email_verified = true }))
    else (s, go u)

abbrev pub conflict_409 : Error → ℕ
conflict_409 email_conflict = 409
conflict_409 _ = 500

-- adminCreateUser; `rand` is what the store draws for the subject
unfoldable pub admin_create_user :
    AdminConfig → PasswordTools → Caller → Option UserBody → Text → Time → Handler AuthUser
unfolding admin_guard valid_email norm_email password_policy_error create_local_user delete_user
    set_password_hash set_email_verified
admin_create_user config tools caller body rand now = do
  admin_guard config caller now
  b ← gate (user_body_or_400 body)
  let email = norm_email b.email
  refuse_if (b.password != [] && is_weak tools b.password email) 400
  u ← attempt (λ s. create_local_user s email (trim_space b.name) rand now) conflict_409
  first_password tools u.id b.password
  first_verification b.email_verified u now

-- A password that passed the policy is hashed and stored.
abbrev pub store_password : PasswordTools → Text → Text → Handler (Unit {0})
store_password tools id pw s = elim (tools.hash_password pw) [
  | none ↦ (s, deny 500)
  | some hash ↦ (set_password_hash s id hash (codes "bcrypt"), go tt)
]

-- adminSetPassword
unfoldable pub admin_set_password :
    AdminConfig → PasswordTools → Caller → Text → Text → Time → Handler (Unit {0})
unfolding admin_guard param_id user_by_id password_policy_error set_password_hash record_audit
admin_set_password config tools caller raw_id pw now = do
  admin_guard config caller now
  id ← gate (param_id raw_id)
  u ← fetch (λ s. user_by_id s id) (always 404)
  refuse_if (is_weak tools pw u.email) 400
  store_password tools id pw
  change λ s. record_audit s id u.email true now

-- adminDeleteUser
unfoldable pub admin_delete_user : AdminConfig → Caller → Text → Time → Handler (Unit {0})
unfolding admin_guard param_id user_by_id delete_user revoke_all_for_user
admin_delete_user config caller raw_id now = do
  admin_guard config caller now
  id ← gate (param_id raw_id)
  u ← gets λ s. user_by_id s id
  change λ s. delete_user s id
  change (cut_sessions u)

abbrev pub email_or_none : Result AuthUser → Text
email_or_none (ok u) = u.email
email_or_none (err e) = []

-- adminSetBan; the body is a flag, a reason and an optional end
unfoldable pub admin_set_ban :
    AdminConfig → Caller → (Text → Option Time) → Text → Bool → Text → Text → Time → Handler Bool
unfolding admin_guard param_id set_user_ban user_by_id record_audit revoke_all_for_user
admin_set_ban config caller parse raw_id banned reason until now = do
  admin_guard config caller now
  id ← gate (param_id raw_id)
  end ← gate (time_or_400 parse until)
  change λ s. set_user_ban s id banned end (trim_space reason)
  u ← gets λ s. user_by_id s id
  change λ s. record_audit s id (email_or_none u) true now
  change λ s. if banned then cut_sessions u s else s
  reply_with banned

-- The marker of the admin: the subject of his session, or the ID of his key.
unfoldable pub admin_sub : AdminConfig → Caller → Time → Handler Text
unfolding validate_api_key bearer_token
admin_sub config caller now s = elim caller.session [
  | some sc ↦ (s, go sc.subject)
  | none ↦
      let key = bearer_token caller.authorization in
      if key == []
      then (s, go [])
      else let (s', valid) = validate_api_key config.hash_token s key now in
        (s', go (elim valid [ none ↦ [] | some info ↦ codes "apikey:" ++ info.id ]))
]

abbrev pub signed_or_500 : Option SessionClaims → Gate SessionClaims
signed_or_500 none = deny 500
signed_or_500 (some sc) = go sc

-- The claims that adminImpersonate signs.
abbrev pub impersonating : AuthUser → List Text → Text → Text → Text × Text → SessionClaims
impersonating target groups sid marker (org, role) = record blank_claims {
  email = target.email;
  name = target.name;
  groups = groups;
  sid = sid;
  impersonated_by = marker;
  org = org;
  org_role = role;
}

-- adminImpersonate from the marker on
unfoldable pub impersonate_as :
    AdminConfig → Text → AuthUser → Text → Text → Text → Text → Time → Handler SessionClaims
unfolding user_groups global_groups default_org_claims mint_session_with note_session record_audit
impersonate_as config id target marker sid agent ip now = do
  refuse_if (marker == []) 403
  groups ← gets λ s. group_names (global_groups (user_groups s id))
  org ← gets λ s. default_org_claims s id
  sc ← gate (
      signed_or_500 (
        mint_session_with config.session_secret (impersonating target groups sid marker org)
          target.sub now impersonation_ttl))
  change (note_session sid target.sub id agent ip impersonation_ttl now)
  change λ s. record_audit s id target.email true now
  reply_with sc

-- adminImpersonate: the session that the answer sets; `sid` is what newSessionID returns
unfoldable pub admin_impersonate :
    AdminConfig → Caller → Text → Text → Text → Text → Time → Handler SessionClaims
unfolding admin_guard param_id user_by_id admin_sub impersonate_as
admin_impersonate config caller raw_id sid agent ip now = do
  admin_guard config caller now
  id ← gate (param_id raw_id)
  target ← fetch (λ s. user_by_id s id) (always 404)
  marker ← admin_sub config caller now
  impersonate_as config id target marker sid agent ip now

-- StopImpersonating; the session cookie is cleared
unfoldable pub stop_impersonating : Option SessionClaims → Time → Handler (Unit {0})
unfolding revoke_session record_audit
stop_impersonating none now s = (s, deny 400)
stop_impersonating (some sc) now s =
    if sc.impersonated_by == []
    then (s, deny 400)
    else let s' = if sc.sid != [] then revoke_session s sc.sid else s in
      (record_audit s' [] sc.email true now, go tt)

-- adminListUserSessions
unfoldable pub admin_list_user_sessions :
    AdminConfig → Caller → Text → Time → Handler (List SessionRecord)
unfolding admin_guard param_id user_by_id list_sessions_for_user
admin_list_user_sessions config caller raw_id now = do
  admin_guard config caller now
  id ← gate (param_id raw_id)
  u ← fetch (λ s. user_by_id s id) (always 404)
  gets λ s. list_sessions_for_user s u.sub now

-- adminRevokeUserSessions
unfoldable pub admin_revoke_user_sessions : AdminConfig → Caller → Text → Time → Handler (Unit {0})
unfolding admin_guard param_id user_by_id revoke_all_for_user
admin_revoke_user_sessions config caller raw_id now = do
  admin_guard config caller now
  id ← gate (param_id raw_id)
  u ← fetch (λ s. user_by_id s id) (always 404)
  change λ s. revoke_all_for_user s u.sub
