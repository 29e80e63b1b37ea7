-- ===== src/Login/Reset.antt =====
-- password.go: the reset of a password by a mailed token.
use go_auth_x.Base.{
  Bool, Option, [], if◌then◌else◌, list_eq, nat_eq, none, not, some, true, ◌+◌, ◌==◌, ◌||◌,
}
use go_auth_x.Handler.{Handler, always, attempt, fetch, gate, refuse_if, ◌>>=◌, ◌>>◌}
use go_auth_x.Login.{LoginConfig}
use go_auth_x.Login.Passwords.{body_or_400, reset_purpose, ttl_password_reset}
use go_auth_x.Map.{is_some}
use go_auth_x.Memory.Audits.{record_audit}
use go_auth_x.Memory.Store.{Store}
use go_auth_x.Memory.Tokens.{consume_token, create_token, peek_token}
use go_auth_x.Memory.Users.{login_blocked, set_email_verified, set_password_hash, user_by_email}
use go_auth_x.Org.Gate.{deny, go}
use go_auth_x.Org.Joining.{norm_email, valid_email}
use go_auth_x.Password.{PasswordTools, password_policy_error}
use go_auth_x.Text.{Bytes, Text, codes}
use go_auth_x.Types.{Time, TokenClaim, err, ok}

-- What PasswordResetRequest leaves to the background: the token of the mail
unfoldable pub reset_request_job : Text → Bytes → Time → Store → Store
unfolding user_by_email login_blocked create_token
reset_request_job email hash now s = elim (user_by_email s email) [
  | err _ ↦ s
  | ok u ↦
      if login_blocked u now
      then s
      else create_token s reset_purpose u.id email hash (now + ttl_password_reset)
]

-- PasswordResetRequest, answered alike in every case; the limiters' answers are arguments
unfoldable pub password_reset_request : Text → Bool → Bool → Bytes → Time → Store → Store
unfolding norm_email valid_email reset_request_job
password_reset_request raw_email ip_allowed account_allowed hash now s =
    let email = norm_email raw_email in
    if not (valid_email email) || (not ip_allowed || not account_allowed)
    then s
    else reset_request_job email hash now s

-- A reset behind the policy: the token is used up, then the password is set.
abbrev pub store_reset : PasswordTools → TokenClaim → Text → Time → Handler (Unit {0})
store_reset tools claim pw now s = elim (tools.hash_password pw) [
  | none ↦ (s, deny 500)
  | some hash ↦
      let s1 = set_password_hash s claim.user_id hash (codes "bcrypt") in
      let s2 = set_email_verified s1 claim.user_id true now in
      (record_audit s2 claim.user_id claim.email true now, go tt)
]

-- PasswordResetConfirm; the body is a token and a password
unfoldable pub password_reset_confirm :
    LoginConfig → PasswordTools → Option (Text × Text) → Time → Handler (Unit {0})
unfolding peek_token password_policy_error consume_token set_password_hash set_email_verified
    record_audit
password_reset_confirm config tools body now = do
  (token, pw) ← gate (body_or_400 body)
  refuse_if (token == []) 400
  claim ← fetch (λ s. peek_token s reset_purpose (config.hash_token token) now) (always 400)
  refuse_if (is_some (password_policy_error tools.breach pw claim.email)) 400
  used ← attempt (λ s. consume_token s reset_purpose (config.hash_token token) now) (always 400)
  store_reset tools claim pw now
