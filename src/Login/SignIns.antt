-- ===== src/Login/SignIns.antt =====
-- password.go, magic.go and emailotp.go: the handlers that end in completeLogin, and what their
-- answers set.
use go_auth_x.Base.{
  Bool, Bool-cases, Option, [], false, if◌then◌else◌, inl, inr, list_eq, nat_eq, not, true, ℕ, ◌==◌,
  ◌||◌, ◌≡◌,
}
use go_auth_x.Handler.{Handler, always, attempt, follow}
use go_auth_x.Login.{
  Authorizer, Client, LoginConfig, SignIn, complete_login, identity_of, or_status,
}
use go_auth_x.Login.Gated.{
  Gates, IsGated, complete_login-Sets, follow-Gates, or_status-Gates, refuse-Gates,
}
use go_auth_x.Login.Links.{
  OtpBody, email_otp_verify, otp_hash, otp_purpose, redeem_and_login, signed_account,
}
use go_auth_x.Login.Passwords.{
  LoginBody, admit_login, body_or_400, deny_unless, is_locked, password_login, rehash,
  send_verify_email, with_account, with_password,
}
use go_auth_x.Memory.Audits.{record_audit}
use go_auth_x.Memory.Otps.{verify_email_otp}
use go_auth_x.Memory.Store.{PasswordEntry, Store}
use go_auth_x.Memory.Tokens.{consume_token}
use go_auth_x.Memory.Users.{login_blocked, password_hash, set_email_verified, user_by_email}
use go_auth_x.Org.Gate.{Gate, deny, go}
use go_auth_x.Org.Joining.{norm_email, valid_email}
use go_auth_x.Password.{PasswordTools}
use go_auth_x.Text.{Bytes, Text, trim_space}
use go_auth_x.Types.{AuthUser, Result, Time, TokenClaim, err, no_credential, no_user, ok}

-- A sign-in with a first factor: PasswordLogin, a redeemed link, EmailOTPVerify.
pub data SignInCall : Type 0 where
  by_password : Option LoginBody → Bool → Bool → Bytes → SignInCall
  by_link : Text → Text → Bool → SignInCall
  by_code : Option OtpBody → Bool → SignInCall

module _ (config : LoginConfig) (authorizer : Authorizer) (tools : PasswordTools)
    (sha256 : Text → Bytes) (client : Client) (now : Time) where
  unfoldable pub sign_in : SignInCall → Handler SignIn
  unfolding password_login redeem_and_login email_otp_verify
  sign_in (by_password body allowed resend token_hash) =
      password_login config authorizer tools client body allowed resend token_hash now
  sign_in (by_link purpose token remember) =
      redeem_and_login config authorizer client purpose true token remember now
  sign_in (by_code body allowed) = email_otp_verify config authorizer sha256 client body allowed now

  ends :
      (status : ℕ) (u : AuthUser) (remember : Bool) (s : Store)
      → Gates (
          or_status status
            (complete_login config authorizer client (identity_of u) remember [] now s))
  ends status u remember s =
      or_status-Gates status _
        (complete_login-Sets config authorizer client (identity_of u) remember [] now s)

  admit_login-Gates :
      (body : LoginBody) (email : Text) (u : AuthUser) (hash : Text) (resend : Bool)
      (token_hash : Bytes) (s : Store)
      → Gates (admit_login config authorizer tools client body email u hash resend token_hash now s)
  unfolding admit_login
  admit_login-Gates body email u hash resend token_hash s =
      let s1 = rehash tools u.id hash body.password s in
      let mailed = if resend then send_verify_email u.id email token_hash now s1 else s1 in
      elim (Bool-cases (login_blocked u now)) [
        | inl b ↦ rw (b, admit_login) (refuse-Gates s1 403)
        | inr b ↦ elim (Bool-cases u.email_verified) [
          | inl c ↦
              rw (b, admit_login)
                (rw c (ends 500 u body.remember (record_audit s1 u.id email true now)))
          | inr c ↦ rw (b, admit_login) (rw c (refuse-Gates mailed 403))
        ]
      ]

  with_password-Gates :
      (body : LoginBody) (email : Text) (u : AuthUser) (r : Result PasswordEntry) (resend : Bool)
      (token_hash : Bytes) (s : Store)
      → Gates (with_password config authorizer tools client body email u r resend token_hash now s)
  unfolding record_audit
  with_password-Gates body email u (err no_credential) resend token_hash s =
      refuse-Gates (record_audit s u.id email false now) 401
  with_password-Gates body email u (err _) resend token_hash s = refuse-Gates s 500
  with_password-Gates body email u (ok stored) resend token_hash s =
      elim (Bool-cases (tools.compare_password stored.hash body.password)) [
        | inl b ↦ rw b (admit_login-Gates body email u stored.hash resend token_hash s)
        | inr b ↦ rw b (refuse-Gates (record_audit s u.id email false now) 401)
      ]

  with_account-Gates :
      (body : LoginBody) (email : Text) (r : Result AuthUser) (resend : Bool) (token_hash : Bytes)
      (s : Store)
      → Gates (with_account config authorizer tools client body email r resend token_hash now s)
  with_account-Gates body email (err no_user) resend token_hash s =
      refuse-Gates (record_audit s [] email false now) 401
  with_account-Gates body email (err _) resend token_hash s = refuse-Gates s 500
  with_account-Gates body email (ok u) resend token_hash s =
      with_password-Gates body email u (password_hash s u.id) resend token_hash s

  password_login-Gates :
      (body : Option LoginBody) (allowed resend : Bool) (token_hash : Bytes) (s : Store)
      → Gates (password_login config authorizer tools client body allowed resend token_hash now s)
  unfolding password_login
  password_login-Gates body allowed resend token_hash s =
      let look_up : LoginBody → Unit {0} → Handler SignIn = λ b _ t.
        with_account config authorizer tools client b (norm_email b.email)
          (user_by_email t (norm_email b.email)) resend token_hash now t in
      let locked : LoginBody → Store → Store × Gate (Unit {0}) =
        λ b t. (t, if is_locked config t (norm_email b.email) now then deny 429 else go tt) in
      let limited : LoginBody → Unit {0} → Handler SignIn =
        λ b _ t. follow (locked b t) (look_up b) in
      let rest : LoginBody → Handler SignIn =
        λ b t. follow (t, deny_unless allowed 429) (limited b) in
      follow-Gates (s, body_or_400 body) rest
        λ b t.
          follow-Gates (t, deny_unless allowed 429) (limited b)
            λ _ t'. follow-Gates (locked b t') (look_up b) λ _ t''.
              with_account-Gates b (norm_email b.email) (user_by_email t'' (norm_email b.email))
                resend token_hash t''

  redeem-Gates :
      (purpose token : Text) (remember : Bool) (s : Store)
      → Gates (redeem_and_login config authorizer client purpose true token remember now s)
  unfolding redeem_and_login
  redeem-Gates purpose token remember s =
      let last : AuthUser → Handler SignIn = λ u t. or_status 302 (
        complete_login config authorizer client (identity_of u) remember [] now
          (record_audit t u.id u.email true now)) in
      let account : TokenClaim → Store → Store × Gate AuthUser = λ claim t.
        let t' = set_email_verified t claim.user_id true now in
        (t', signed_account (user_by_email t' claim.email) now 302 302) in
      let land : TokenClaim → Handler SignIn = λ claim t. follow (account claim t) last in
      let consumed : Store → Store × Gate TokenClaim = λ t.
        attempt (λ t'. consume_token t' purpose (config.hash_token token) now) (always 302) t in
      let rest : Unit {0} → Handler SignIn = λ _ t. follow (consumed t) land in
      follow-Gates (s, if token == [] then deny 302 else go tt) rest
        λ _ t. follow-Gates (consumed t) land λ claim t'.
          follow-Gates (account claim t') last
            λ u t''. ends 302 u remember (record_audit t'' u.id u.email true now)

  email_otp-Gates :
      (body : Option OtpBody) (allowed : Bool) (s : Store)
      → Gates (email_otp_verify config authorizer sha256 client body allowed now s)
  unfolding email_otp_verify
  email_otp-Gates body allowed s =
      let last : OtpBody → AuthUser → Handler SignIn = λ b u t. or_status 500 (
        complete_login config authorizer client (identity_of u) b.remember [] now
          (record_audit (set_email_verified t u.id true now) u.id u.email true now)) in
      let account : TokenClaim → Store → Store × Gate AuthUser =
        λ claim t. (t, signed_account (user_by_email t claim.email) now 401 403) in
      let claimed : OtpBody → TokenClaim → Handler SignIn =
        λ b claim t. follow (account claim t) (last b) in
      let verified : OtpBody → Store → Store × Gate TokenClaim = λ b t.
        attempt
          (λ t'.
            verify_email_otp t' otp_purpose (norm_email b.email)
              (otp_hash sha256 (norm_email b.email) b.code) now)
          (always 401) t in
      let checked : OtpBody → Unit {0} → Handler SignIn =
        λ b _ t. follow (verified b t) (claimed b) in
      let plausible : OtpBody → Store → Store × Gate (Unit {0}) = λ b t. (
        t,
        if not (valid_email (norm_email b.email)) || trim_space b.code == []
            then deny 400
            else go tt,
      ) in
      let limited : OtpBody → Unit {0} → Handler SignIn =
        λ b _ t. follow (plausible b t) (checked b) in
      let rest : OtpBody → Handler SignIn =
        λ b t. follow (t, deny_unless allowed 429) (limited b) in
      follow-Gates (s, body_or_400 body) rest
        λ b t.
          follow-Gates (t, deny_unless allowed 429) (limited b)
            λ _ t1. follow-Gates (plausible b t1) (checked b) λ _ t2.
              follow-Gates (verified b t2) (claimed b) λ claim t3.
                follow-Gates (account claim t3) (last b) λ u t4.
                  ends 500 u b.remember
                    (record_audit (set_email_verified t4 u.id true now) u.id u.email true now)

  -- What PasswordLogin, redeemAndLogin or EmailOTPVerify set for any store and request is a session
  -- of a subject that has no confirmed second factor in the store that they leave, or a pending
  -- cookie of a subject that has one, whatever the authorizer does.
  pub sign_in-IsGated :
      (c : SignInCall) (s : Store) (x : SignIn) → (sign_in c s).1 ≡ go x → IsGated (sign_in c s).0 x
  unfolding sign_in
  sign_in-IsGated (by_password body allowed resend token_hash) s =
      password_login-Gates body allowed resend token_hash s
  sign_in-IsGated (by_link purpose token remember) s = redeem-Gates purpose token remember s
  sign_in-IsGated (by_code body allowed) s = email_otp-Gates body allowed s
