-- ===== src/Login/Factors.antt =====
-- twofactor_handlers.go, twofactor.go and stepup.go: enrolment and removal of a second factor, the
-- second step of a sign-in, and the proof of a recent factor. `session` is what the session cookie
-- parses to, `pending` what parsePending returns.
use go_auth_x.Admin.Groups.{found}
use go_auth_x.Base.{
  Bool, List, Option, [], false, if◌then◌else◌, leb, list_eq, map, nat_eq, none, not, some, true, ℕ,
  ◌!=◌, ◌&&◌, ◌*◌, ◌+◌, ◌-◌, ◌==◌,
}
use go_auth_x.Handler.{Handler, change, gate, gets, refuse_if, reply_with, ◌>>=◌, ◌>>◌}
use go_auth_x.Login.{Client, LoginConfig, PendingClaims, complete_pending_login, or_status}
use go_auth_x.Login.Links.{signed_account}
use go_auth_x.Login.Passwords.{body_or_400, deny_unless}
use go_auth_x.Memory.Audits.{record_audit}
use go_auth_x.Memory.Sessions.{is_revoked}
use go_auth_x.Memory.Store.{Store}
use go_auth_x.Memory.TwoFactor.{
  disable_totp, enable_totp, replace_recovery_codes, set_totp_last_step, set_totp_secret, totp,
}
use go_auth_x.Memory.Users.{login_blocked, password_hash, user_by_sub}
use go_auth_x.Org.Gate.{Gate, deny, go}
use go_auth_x.Password.{PasswordTools}
use go_auth_x.Session.{SessionClaims, can_sign, second}
use go_auth_x.Text.{Bytes, Text}
use go_auth_x.Totp.{recovery_hash, totp_validate, verify_second_factor}
use go_auth_x.Types.{AuthUser, Result, Time, TotpInfo, err, ok}

-- The hash functions of second factors.
pub record FactorTools : Type 0 where
  pub mac : Bytes → Bytes → Bytes
  pub b32_decode : Text → Option Bytes
  pub sha256 : Text → Bytes

-- currentAuthUser of webauthn.go, with sessionRevoked of sessions.go
unfoldable pub session_revoked : Store → SessionClaims → Bool
unfolding is_revoked
session_revoked s sc = sc.sid != [] && is_revoked s sc.sid

unfoldable pub current_auth_user : Store → Option SessionClaims → Option AuthUser
unfolding session_revoked user_by_sub
current_auth_user s none = none
current_auth_user s (some sc) =
    if session_revoked s sc
    then none
    else (elim (user_by_sub s sc.subject) [ err _ ↦ none | ok u ↦ some u ])

abbrev pub user_or_401 : Option AuthUser → Gate AuthUser
user_or_401 none = deny 401
user_or_401 (some u) = go u

abbrev pub is_enabled : Result TotpInfo → Bool
is_enabled (err e) = false
is_enabled (ok info) = info.enabled

-- TOTPBegin; `secret` is what newTOTPSecret draws
unfoldable pub totp_begin : Option SessionClaims → Text → Handler Text
unfolding current_auth_user totp set_totp_secret
totp_begin session secret = do
  u ← λ s. (s, user_or_401 (current_auth_user s session))
  enabled ← gets λ s. is_enabled (totp s u.id)
  refuse_if enabled 409
  change λ s. set_totp_secret s u.id secret
  reply_with secret

-- The enrolment that TOTPConfirm finishes: one with a secret.
abbrev pub enrolled_or_400 : Result TotpInfo → Gate TotpInfo
enrolled_or_400 (err e) = deny 400
enrolled_or_400 (ok info) = if info.secret == [] then deny 400 else go info

abbrev pub step_or_400 : Option ℕ → Gate ℕ
step_or_400 none = deny 400
step_or_400 (some step) = go step

-- TOTPConfirm; `recovery` are the codes that newRecoveryCodes draws
unfoldable pub totp_confirm :
    FactorTools → Option SessionClaims → Option Text → List Text → Time → Handler (List Text)
unfolding current_auth_user totp totp_validate enable_totp replace_recovery_codes recovery_hash
    set_totp_last_step record_audit
totp_confirm tools session body recovery now = do
  u ← λ s. (s, user_or_401 (current_auth_user s session))
  code ← gate (body_or_400 body)
  info ← λ s. (s, enrolled_or_400 (totp s u.id))
  step ← gate (step_or_400 (totp_validate tools.mac tools.b32_decode info.secret code now))
  change λ s. enable_totp s u.id
  change λ s. replace_recovery_codes s u.id (map (recovery_hash tools.sha256) recovery)
  change λ s. set_totp_last_step s u.id step
  change λ s. record_audit s u.id u.email true now
  reply_with recovery

abbrev pub enabled_or_400 : Result TotpInfo → Gate TotpInfo
enabled_or_400 (err e) = deny 400
enabled_or_400 (ok info) = if info.enabled then go info else deny 400

-- verifySecondFactor, as a step
abbrev pub check_factor : FactorTools → Text → TotpInfo → Text → Time → Store → Store × Bool
check_factor tools uid info code now s =
    verify_second_factor tools.mac tools.b32_decode tools.sha256 s uid info code now

abbrev pub stepped {ℓ} : {A : Type ℓ} → Store × A → Store × Gate A
stepped (s, a) = (s, go a)

-- TOTPDisable; `allowed` is what the limiter answers, and a code that cannot be read is empty
unfoldable pub totp_disable :
    FactorTools → Option SessionClaims → Bool → Text → Time → Handler (Unit {0})
unfolding current_auth_user totp verify_second_factor disable_totp record_audit
totp_disable tools session allowed code now = do
  u ← λ s. (s, user_or_401 (current_auth_user s session))
  gate (deny_unless allowed 429)
  info ← λ s. (s, enabled_or_400 (totp s u.id))
  valid ← λ s. stepped (check_factor tools u.id info code now s)
  refuse_if (not valid) 403
  change λ s. disable_totp s u.id
  change λ s. record_audit s u.id u.email true now

abbrev pub pending_or_401 : Option PendingClaims → Gate PendingClaims
pending_or_401 none = deny 401
pending_or_401 (some pc) = go pc

-- TwoFactorVerify; the arguments `ip_allowed` and `account_allowed` are what the limiters answer
unfoldable pub two_factor_verify :
    LoginConfig
    → FactorTools
    → Client
    → Option PendingClaims
    → Bool
    → Bool
    → Option Text
    → Time
    → Handler SessionClaims
unfolding user_by_sub login_blocked totp verify_second_factor complete_pending_login record_audit
two_factor_verify config tools client pending_cookie ip_allowed account_allowed body now = do
  gate (deny_unless ip_allowed 429)
  pc ← gate (pending_or_401 pending_cookie)
  gate (deny_unless account_allowed 429)
  found ← gets λ s. user_by_sub s pc.subject
  u ← gate (signed_account found now 401 403)
  code ← gate (body_or_400 body)
  info ← λ s. (s, enabled_or_400 (totp s u.id))
  valid ← λ s. stepped (check_factor tools u.id info code now s)
  change λ s. if valid then s else record_audit s u.id u.email false now
  refuse_if (not valid) 401
  sc ← λ s. or_status 500 (complete_pending_login config client pc now s)
  change λ s. record_audit s u.id u.email true now
  reply_with sc

-- stepUpClaims, and the lifetime of their cookie, 30 minutes
pub record StepUpClaims : Type 0 where
  pub subject : Text
  pub issued_at : Option Time
  pub expires_at : Time

abbrev pub step_up_ttl : ℕ
step_up_ttl = 1800 * second

-- setStepUpCookie; no cookie where the secret is too short to sign
unfoldable pub set_step_up_cookie : Bytes → Text → Time → Option StepUpClaims
set_step_up_cookie secret sub now =
    if can_sign secret
    then some (record { subject = sub; issued_at = some now; expires_at = now + step_up_ttl })
    else none

-- StepUpFresh; `proof` is what the step-up cookie parses to
unfoldable pub step_up_fresh : Store → Option SessionClaims → Option StepUpClaims → ℕ → Time → Bool
unfolding session_revoked
step_up_fresh s none proof max_age now = false
step_up_fresh s (some sc) none max_age now = false
step_up_fresh s (some sc) (some p) max_age now =
    not (session_revoked s sc)
    && (p.subject == sc.subject
        && elim p.issued_at [ none ↦ false | some at ↦ leb (now - at) max_age ])

abbrev pub password_proves : PasswordTools → Store → Text → Text → Bool
password_proves tools s uid pw = pw != [] && elim (password_hash s uid) [
  | err e ↦ false
  | ok stored ↦ tools.compare_password stored.hash pw
]

-- The second factor of ReAuth, where the password did not do.
abbrev pub factor_proves :
    FactorTools → Bool → Result TotpInfo → Text → Text → Time → Store → Store × Bool
factor_proves tools true info uid code now s = (s, true)
factor_proves tools false (err e) uid code now s = (s, false)
factor_proves tools false (ok info) uid code now s =
    if code != [] && info.enabled then check_factor tools uid info code now s else (s, false)

-- ReAuth; a body that cannot be read is empty
unfoldable pub re_auth :
    LoginConfig
    → PasswordTools
    → FactorTools
    → Option SessionClaims
    → Bool
    → Text
    → Text
    → Time
    → Handler (Option StepUpClaims)
unfolding current_auth_user password_hash totp verify_second_factor set_step_up_cookie record_audit
re_auth config tools factors session allowed pw code now = do
  u ← λ s. (s, user_or_401 (current_auth_user s session))
  gate (deny_unless allowed 429)
  proved ← gets λ s. password_proves tools s u.id pw
  valid ← λ s. stepped (factor_proves factors proved (totp s u.id) u.id code now s)
  change λ s. record_audit s u.id u.email valid now
  refuse_if (not valid) 403
  reply_with (set_step_up_cookie config.session_secret u.sub now)
