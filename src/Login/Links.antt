-- ===== src/Login/Links.antt =====
-- magic.go and emailotp.go: sign-in with a mailed link or a mailed code. A redirect to the login page
-- with a message is the status 302; what runs off the request path is a step of its own.
use go_auth_x.Admin.Groups.{found}
use go_auth_x.Base.{
  Bool, Option, [], if◌then◌else◌, list_eq, nat_eq, none, not, some, true, ℕ, ◌*◌, ◌++◌, ◌+◌, ◌==◌,
  ◌||◌,
}
use go_auth_x.Handler.{Handler, always, attempt, change, gate, gets, refuse_if, ◌>>=◌, ◌>>◌}
use go_auth_x.Login.{
  Authorizer, Client, LoginConfig, SignIn, complete_login, identity_of, or_status,
}
use go_auth_x.Login.Passwords.{body_or_400, deny_unless}
use go_auth_x.Memory.Audits.{record_audit}
use go_auth_x.Memory.Otps.{create_email_otp, verify_email_otp}
use go_auth_x.Memory.Store.{Store}
use go_auth_x.Memory.Tokens.{consume_token, create_token}
use go_auth_x.Memory.Users.{login_blocked, set_email_verified, user_by_email}
use go_auth_x.Org.Gate.{Gate, deny, go}
use go_auth_x.Org.Joining.{norm_email, valid_email}
use go_auth_x.Session.{second}
use go_auth_x.Text.{Bytes, Text, codes, trim_space}
use go_auth_x.Types.{AuthUser, Result, Time, err, ok}

-- purposeMagicLogin, purposeEmailOTP, their lifetimes, and the guesses that a code allows
abbrev pub magic_purpose : Text
magic_purpose = codes "magic_login"

abbrev pub otp_purpose : Text
otp_purpose = codes "email_otp"

abbrev pub ttl_magic_login : ℕ
ttl_magic_login = 900 * second

abbrev pub ttl_email_otp : ℕ
ttl_email_otp = 600 * second

abbrev pub max_otp_attempts : ℕ
max_otp_attempts = 5

-- The account of a request that may sign in by mail.
abbrev pub mailable : Store → Text → Time → Option AuthUser
mailable s email now = elim (user_by_email s email) [
  | err _ ↦ none
  | ok u ↦ if login_blocked u now then none else some u
]

-- EmailRequest: the token of the link, where the limiters allow it
unfoldable pub email_request : Text → Bool → Bool → Bytes → Time → Store → Store
unfolding norm_email valid_email user_by_email login_blocked create_token
email_request raw_email ip_allowed account_allowed hash now s =
    let email = norm_email raw_email in
    if not (valid_email email) || (not ip_allowed || not account_allowed)
    then s
    else (elim (mailable s email now) [
      | none ↦ s
      | some u ↦ create_token s magic_purpose u.id email hash (now + ttl_magic_login)
    ])

-- The account that a redeemed token names, if it may sign in.
abbrev pub signed_account : Result AuthUser → Time → ℕ → ℕ → Gate AuthUser
signed_account (err _) now missing blocked = deny missing
signed_account (ok u) now missing blocked = if login_blocked u now then deny blocked else go u

-- redeemAndLogin, which EmailLogin and EmailVerify call with their purpose, and mark_verified true
unfoldable pub redeem_and_login :
    LoginConfig → Authorizer → Client → Text → Bool → Text → Bool → Time → Handler SignIn
unfolding consume_token set_email_verified user_by_email login_blocked record_audit complete_login
redeem_and_login config authorizer client purpose marks token remember now = do
  refuse_if (token == []) 302
  claim ← attempt (λ s. consume_token s purpose (config.hash_token token) now) (always 302)
  change λ s. if marks then set_email_verified s claim.user_id true now else s
  found ← gets λ s. user_by_email s claim.email
  u ← gate (signed_account found now 302 302)
  change λ s. record_audit s u.id u.email true now
  λ s. or_status 302 (complete_login config authorizer client (identity_of u) remember [] now s)

-- otpHash; `sha256` is the hash
unfoldable pub otp_hash : (Text → Bytes) → Text → Text → Bytes
unfolding norm_email
otp_hash sha256 email code = sha256 (norm_email email ++ (codes ":" ++ trim_space code))

-- EmailOTPSend: the code of the mail, where the limiters allow it; `mailer` says that mail is
-- configured
unfoldable pub email_otp_send :
    (Text → Bytes) → Text → Bool → Bool → Bool → Text → Time → Store → Store
unfolding norm_email valid_email user_by_email login_blocked otp_hash create_email_otp
email_otp_send sha256 raw_email mailer ip_allowed account_allowed code now s =
    let email = norm_email raw_email in
    if not (valid_email email) || (not mailer || (not ip_allowed || not account_allowed))
    then s
    else (elim (mailable s email now) [
      | none ↦ s
      | some u ↦
          create_email_otp s otp_purpose email (otp_hash sha256 email code) (now + ttl_email_otp)
            max_otp_attempts
    ])

-- The body of EmailOTPVerify
pub record OtpBody : Type 0 where
  pub email : Text
  pub code : Text
  pub remember : Bool

-- EmailOTPVerify
unfoldable pub email_otp_verify :
    LoginConfig
    → Authorizer
    → (Text → Bytes)
    → Client
    → Option OtpBody
    → Bool
    → Time
    → Handler SignIn
unfolding norm_email valid_email otp_hash verify_email_otp user_by_email login_blocked
    set_email_verified record_audit complete_login
email_otp_verify config authorizer sha256 client body allowed now = do
  b ← gate (body_or_400 body)
  let email = norm_email b.email
  gate (deny_unless allowed 429)
  refuse_if (not (valid_email email) || trim_space b.code == []) 400
  claim ←
      attempt (λ s. verify_email_otp s otp_purpose email (otp_hash sha256 email b.code) now)
        (always 401)
  found ← gets λ s. user_by_email s claim.email
  u ← gate (signed_account found now 401 403)
  change λ s. set_email_verified s u.id true now
  change λ s. record_audit s u.id u.email true now
  λ s. or_status 500 (complete_login config authorizer client (identity_of u) b.remember [] now s)
