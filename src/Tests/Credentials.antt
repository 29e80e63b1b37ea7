-- ===== src/Tests/Credentials.antt =====
-- The theorems on tokens, codes, passkeys, sessions and second factors at small stores.
use go_auth_x.Base.{
  List, [], arith, contains, false, first, if◌then◌else◌, list_beq, list_eq, nat_eq, refl, true,
  ◌==◌, ◌∷◌, ◌≡◌,
}
use go_auth_x.Examples.{ann_mail, furnished}
use go_auth_x.Map.{empty, get, put}
use go_auth_x.Memory.Erase.{delete_user}
use go_auth_x.Memory.Otps.{create_email_otp, verify_email_otp}
use go_auth_x.Memory.Otps.Attempts.{guesses, guesses_run_out}
use go_auth_x.Memory.Sessions.{is_revoked, prune_sessions, record_session, revoke_session}
use go_auth_x.Memory.Sessions.Revoked.{Run, Run-revoked, Step, is_revoked-record_session}
use go_auth_x.Memory.Store.{EmailOtp, Store, StoredPasskey, new_store}
use go_auth_x.Memory.Tokens.{consume_token}
use go_auth_x.Memory.Tokens.SingleUse.{consume_token_once}
use go_auth_x.Memory.TwoFactor.{claim_totp_step, replace_recovery_codes, set_totp_secret}
use go_auth_x.Memory.TwoFactor.Replay.{IsRising, claims, claims-IsRising, last_claimed}
use go_auth_x.Text.{Bytes, codes, norm, parse_id, user_id_str}
use go_auth_x.Types.{Passkey, SessionRecord, Time, err, token_invalid}

consume_token_once_example :
    let s' = (consume_token furnished (codes "reset") (1 ∷ 2 ∷ []) 20).0 in
    consume_token s' (codes "reset") (1 ∷ 2 ∷ []) 21 ≡ (s', err token_invalid)
unfolding consume_token first list_beq
consume_token_once_example =
    consume_token_once furnished (codes "reset") (1 ∷ 2 ∷ []) 20 21
      (record { user_id = codes "1"; email = codes "ann@example.org" }) (unfold user_id_str in refl)

abbrev mailed : Store
mailed = create_email_otp new_store (codes "login") ann_mail (4 ∷ []) 60 2

abbrev mailed_code : EmailOtp
mailed_code = record { code_hash = 4 ∷ []; attempts = 0; max_attempts = 2; expires_at = 60 }

abbrev two_guesses : List (Bytes × Time)
two_guesses = (5 ∷ [], 10) ∷ (6 ∷ [], 11) ∷ []

guesses_run_out_example :
    verify_email_otp
      (guesses mailed (codes "login") ann_mail two_guesses)
      (codes "login")
      ann_mail
      (4 ∷ [])
      12
    ≡ (guesses mailed (codes "login") ann_mail two_guesses, err token_invalid)
unfolding create_email_otp put list_beq norm get
guesses_run_out_example =
    guesses_run_out (codes "login") ann_mail mailed mailed_code two_guesses (4 ∷ []) 12 refl
      (omega arith) (omega arith)

abbrev no_sessions : Store
no_sessions = revoke_session furnished (codes "s1")

Run-revoked_example : is_revoked (delete_user no_sessions (codes "1")) (codes "s1") ≡ true
unfolding is_revoked revoke_session put list_beq get empty
Run-revoked_example =
    Run-revoked (codes "s1") (Run.extend Run.start (Step.erases (codes "1")) tt) refl

abbrev login_record : SessionRecord
login_record = record {
  sid = codes "s2";
  subject = codes "local:a1";
  user_id = codes "1";
  user_agent = [];
  ip = [];
  created_at = 7;
  expires_at = 700;
  current = false;
}

is_revoked-record_session_example :
    is_revoked (record_session furnished login_record 7) (codes "s2") ≡ (
      if codes "s2" == codes "s2"
      then false
      else is_revoked (prune_sessions furnished 7) (codes "s2"))
is_revoked-record_session_example = is_revoked-record_session furnished login_record 7 (codes "s2")

-- A confirmed factor, whose last claimed step is 2.
abbrev with_factor : Store
with_factor = record furnished {
  totp = put empty 1 (record { secret = codes "JBSW"; enabled = true; last_step = 2 });
}

claims-IsRising_example : IsRising 2 (9 ∷ 12 ∷ [])
unfolding claims claim_totp_step last_claimed parse_id put get empty
claims-IsRising_example = claims-IsRising with_factor (codes "1") (2 ∷ 9 ∷ 9 ∷ 8 ∷ 12 ∷ 9 ∷ [])

abbrev with_codes : Store
with_codes = replace_recovery_codes furnished (codes "1") ((1 ∷ []) ∷ (2 ∷ []) ∷ [])

-- Of two tries of step 9 and one of step 8, one is granted.
claims_run : claims (set_totp_secret furnished (codes "1") []) (codes "1") (9 ∷ 9 ∷ 8 ∷ []) ≡ 9 ∷ []
unfolding claims claim_totp_step set_totp_secret parse_id put get contains
claims_run = refl

abbrev laptop : Passkey
laptop = record {
  id = [];
  credential_id = 7 ∷ 7 ∷ [];
  public_key = [];
  attestation_type = [];
  aaguid = [];
  sign_count = 4;
  transports = [];
  backup_eligible = false;
  backup_state = false;
  name = codes "laptop";
  created_at = 0;
  last_used_at = 0;
}

abbrev laptop_row : StoredPasskey
laptop_row = record {
  p = record laptop { id = codes "1"; created_at = 5; last_used_at = 5 };
  user_id = 1;
}
