-- ===== src/Memory/Otps.antt =====
-- store/memory/memory.go: emailed one-time codes.
pub mod Attempts
use go_auth_x.Base.{
  [], if◌then◌else◌, leb, list_eq, nat_eq, none, not, some, ℕ, ◌++◌, ◌+◌, ◌==◌, ◌||◌,
}
use go_auth_x.Map.{delete, get, put}
use go_auth_x.Memory.Store.{EmailOtp, Store}
use go_auth_x.Text.{Bytes, Text, codes, norm}
use go_auth_x.Types.{Result, Time, TokenClaim, after, err, ok, token_invalid}

-- purpose + "|" + norm(email)
abbrev pub otp_key : Text → Text → Text
otp_key purpose email = purpose ++ (codes "|" ++ norm email)

-- CreateEmailOTP; the error is always nil
unfoldable pub create_email_otp : Store → Text → Text → Bytes → Time → ℕ → Store
create_email_otp s purpose email code_hash expires_at max_attempts = record s {
  otps = put s.otps (otp_key purpose email) (record {
    code_hash = code_hash;
    attempts = 0;
    max_attempts = max_attempts;
    expires_at = expires_at;
  });
}

-- A check of a code that has not expired: it ends the code if it matches, or was the last attempt.
unfoldable pub check_code : Store → Text → Text → EmailOtp → Bytes → Store × Result TokenClaim
check_code s key email o code_hash =
    let match = o.code_hash == code_hash in
    let last = leb o.max_attempts (o.attempts + 1) in
    if match || last
    then (
      record s { otps = delete s.otps key },
      if not match then err token_invalid else ok (record { user_id = []; email = norm email }),
    )
    else (
      record s { otps = put s.otps key (record o { attempts = o.attempts + 1 }) },
      err token_invalid,
    )

-- VerifyEmailOTP
unfoldable pub verify_email_otp : Store → Text → Text → Bytes → Time → Store × Result TokenClaim
unfolding check_code
verify_email_otp s purpose email code_hash now =
    let key = otp_key purpose email in
    elim (get s.otps key) [
      | none ↦ (s, err token_invalid)
      | some o ↦
          if after now o.expires_at
          then (record s { otps = delete s.otps key }, err token_invalid)
          else check_code s key email o code_hash
    ]
