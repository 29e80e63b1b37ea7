-- ===== src/Login/Passwords.antt =====
-- password.go: sign-up and sign-in with a password. A body that cannot be read is `none`; a
-- limiter's answer and what a mail needs are arguments, and mails leave nothing in the store.
use go_auth_x.Base.{
  Bool, Option, [], false, if◌then◌else◌, leb, list_eq, nat_eq, none, not, some, true, ℕ, ◌!=◌,
  ◌&&◌, ◌*◌, ◌+◌, ◌-◌, ◌==◌,
}
use go_auth_x.Handler.{
  Handler, always, attempt, change, follow, gate, gets, refuse, refuse_if, ◌>>=◌, ◌>>◌,
}
use go_auth_x.Login.{
  Authorizer, Client, LoginConfig, SignIn, complete_login, identity_of, or_status,
}
use go_auth_x.Map.{is_some}
use go_auth_x.Memory.Audits.{recent_failures, record_audit}
use go_auth_x.Memory.Store.{PasswordEntry, Store}
use go_auth_x.Memory.Tokens.{create_token}
use go_auth_x.Memory.Users.{
  create_local_user, login_blocked, password_hash, set_password_hash, user_by_email,
}
use go_auth_x.Org.Gate.{Gate, deny, go}
use go_auth_x.Org.Joining.{norm_email, valid_email}
use go_auth_x.Password.{PasswordTools, password_policy_error}
use go_auth_x.Session.{second}
use go_auth_x.Text.{Bytes, Text, codes, trim_space}
use go_auth_x.Types.{AuthUser, Result, Time, err, no_credential, no_user, ok}

-- purposeVerifyEmail, purposePasswordReset and their lifetimes
abbrev pub verify_purpose : Text
verify_purpose = codes "verify_email"

abbrev pub reset_purpose : Text
reset_purpose = codes "password_reset"

abbrev pub ttl_verify_email : ℕ
ttl_verify_email = 86400 * second

abbrev pub ttl_password_reset : ℕ
ttl_password_reset = 3600 * second

-- sendVerifyEmail of magic.go; `hash` is that of the token which is drawn
unfoldable pub send_verify_email : Text → Text → Bytes → Time → Store → Store
unfolding create_token
send_verify_email user_id email hash now s =
    create_token s verify_purpose user_id email hash (now + ttl_verify_email)

abbrev pub body_or_400 {ℓ} : {A : Type ℓ} → Option A → Gate A
body_or_400 none = deny 400
body_or_400 (some body) = go body

abbrev pub deny_unless : Bool → ℕ → Gate (Unit {0})
deny_unless b status = if b then go tt else deny status

-- The body of PasswordSignup
pub record SignupBody : Type 0 where
  pub email : Text
  pub password : Text
  pub name : Text

-- A sign-up for an account that is new or not verified sets its password.
abbrev pub set_signup_password :
    PasswordTools → AuthUser → Text → Text → Bytes → Time → Handler (Unit {0})
set_signup_password tools u email pw hash now s = elim (tools.hash_password pw) [
  | none ↦ (s, deny 500)
  | some stored ↦
      let s1 = set_password_hash s u.id stored (codes "bcrypt") in
      (record_audit (send_verify_email u.id email hash now s1) u.id email true now, go tt)
]

-- PasswordSignup behind the checks of the body, by the account that has the address
unfoldable pub signup_account :
    PasswordTools → SignupBody → Text → Result AuthUser → Text → Bytes → Time → Handler (Unit {0})
unfolding create_local_user set_password_hash record_audit send_verify_email
signup_account tools body email (ok u) rand hash now s =
    if u.email_verified
    then (record_audit s u.id email false now, go tt)
    else set_signup_password tools u email body.password hash now s
signup_account tools body email (err no_user) rand hash now s =
    follow
      (attempt (λ s'. create_local_user s' email (trim_space body.name) rand now) (always 500) s)
      λ u. set_signup_password tools u email body.password hash now
signup_account tools body email (err _) rand hash now s = (s, deny 500)

-- PasswordSignup; `allowed` is what the limiter answers, `rand` the subject that the store draws
unfoldable pub password_signup :
    PasswordTools → Option SignupBody → Bool → Text → Bytes → Time → Handler (Unit {0})
unfolding norm_email valid_email password_policy_error signup_account user_by_email
password_signup tools body allowed rand hash now = do
  b ← gate (body_or_400 body)
  let email = norm_email b.email
  gate (deny_unless (valid_email email) 400)
  gate (deny_unless allowed 429)
  refuse_if (is_some (password_policy_error tools.breach b.password email)) 400
  u ← gets λ s. user_by_email s email
  signup_account tools b email u rand hash now

-- The body of PasswordLogin
pub record LoginBody : Type 0 where
  pub email : Text
  pub password : Text
  pub remember : Bool

-- isOwnerEmail
unfoldable pub is_owner_email : LoginConfig → Text → Bool
unfolding norm_email
is_owner_email config email = config.owner_email != [] && norm_email email == config.owner_email

-- 15 minutes, and the number of failures within them that locks an account
abbrev pub lockout_window : ℕ
lockout_window = 900 * second

abbrev pub lockout_failures : ℕ
lockout_failures = 5

-- The soft lockout of PasswordLogin; now - 15 minutes stops at 0, before which nothing is recorded
unfoldable pub is_locked : LoginConfig → Store → Text → Time → Bool
unfolding is_owner_email recent_failures
is_locked config s email now =
    not (is_owner_email config email)
    && leb lockout_failures (recent_failures s email (now - lockout_window))

-- The failures of PasswordLogin are recorded, and answered alike.
abbrev pub login_failed {ℓ} : {A : Type ℓ} → Text → Text → Time → Handler A
login_failed uid email now s = (record_audit s uid email false now, deny 401)

-- A stored hash of a lower cost is replaced.
abbrev pub rehash : PasswordTools → Text → Text → Text → Store → Store
rehash tools uid hash pw s = elim (tools.is_outdated hash) [
  | false ↦ s
  | true ↦ elim (tools.hash_password pw) [
    | none ↦ s
    | some new_hash ↦ set_password_hash s uid new_hash (codes "bcrypt")
  ]
]

-- What remains of PasswordLogin where the password is right.
unfoldable pub admit_login :
    LoginConfig
    → Authorizer
    → PasswordTools
    → Client
    → LoginBody
    → Text
    → AuthUser
    → Text
    → Bool
    → Bytes
    → Time
    → Handler SignIn
unfolding login_blocked complete_login record_audit send_verify_email set_password_hash
admit_login config authorizer tools client body email u hash resend token_hash now = do
  change (rehash tools u.id hash body.password)
  refuse_if (login_blocked u now) 403
  change λ s.
      if not u.email_verified && resend then send_verify_email u.id email token_hash now s else s
  refuse_if (not u.email_verified) 403
  change λ s. record_audit s u.id email true now
  λ s.
      or_status 500 (complete_login config authorizer client (identity_of u) body.remember [] now s)

abbrev pub with_password :
    LoginConfig
    → Authorizer
    → PasswordTools
    → Client
    → LoginBody
    → Text
    → AuthUser
    → Result PasswordEntry
    → Bool
    → Bytes
    → Time
    → Handler SignIn
with_password config authorizer tools client body email u (err no_credential) resend token_hash now
      s =
    login_failed u.id email now s
with_password config authorizer tools client body email u (err _) resend token_hash now s =
    refuse 500 s
with_password config authorizer tools client body email u (ok stored) resend token_hash now s =
    if tools.compare_password stored.hash body.password
    then admit_login config authorizer tools client body email u stored.hash resend token_hash now s
    else login_failed u.id email now s

abbrev pub with_account :
    LoginConfig
    → Authorizer
    → PasswordTools
    → Client
    → LoginBody
    → Text
    → Result AuthUser
    → Bool
    → Bytes
    → Time
    → Handler SignIn
with_account config authorizer tools client body email (err no_user) resend token_hash now s =
    login_failed [] email now s
with_account config authorizer tools client body email (err _) resend token_hash now s =
    refuse 500 s
with_account config authorizer tools client body email (ok u) resend token_hash now s =
    with_password config authorizer tools client body email u (password_hash s u.id) resend
      token_hash now s

-- PasswordLogin; `allowed` is what the limiter of addresses answers, `resend` that of accounts
unfoldable pub password_login :
    LoginConfig
    → Authorizer
    → PasswordTools
    → Client
    → Option LoginBody
    → Bool
    → Bool
    → Bytes
    → Time
    → Handler SignIn
unfolding norm_email is_locked user_by_email password_hash admit_login record_audit
password_login config authorizer tools client body allowed resend token_hash now = do
  b ← gate (body_or_400 body)
  let email = norm_email b.email
  gate (deny_unless allowed 429)
  locked ← gets λ s. is_locked config s email now
  refuse_if locked 429
  u ← gets λ s. user_by_email s email
  with_account config authorizer tools client b email u resend token_hash now
