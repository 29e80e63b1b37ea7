-- ===== src/Memory/TwoFactor.antt =====
-- store/memory/twofactor.go: TOTP enrolment and recovery codes.
pub mod Replay
use go_auth_x.Base.{
  Bool, List, [], contains, false, if◌then◌else◌, keep, leb, length, list_eq, ltb, nat_eq, none,
  some, true, ℕ, ◌!=◌, ◌%◌, ◌+◌, ◌-◌, ◌/◌, ◌∷◌,
}
use go_auth_x.Map.{delete, get, put}
use go_auth_x.Memory.Store.{Store, TotpRec}
use go_auth_x.Memory.Users.{with_id}
use go_auth_x.Text.{Bytes, Text}
use go_auth_x.Types.{Result, TotpInfo, err, no_credential, ok}

-- TOTP
unfoldable pub totp : Store → Text → Result TotpInfo
totp s user_id = with_id user_id (err no_credential) λ n. elim (get s.totp n) [
  | none ↦ err no_credential
  | some r ↦ ok (record { secret = r.secret; enabled = r.enabled; last_step = r.last_step })
]

-- SetTOTPSecret; the error is always nil
unfoldable pub set_totp_secret : Store → Text → Text → Store
set_totp_secret s user_id secret = with_id user_id s λ n. record s {
  totp = put s.totp n (record { secret = secret; enabled = false; last_step = 0 });
}

abbrev pub change_totp : Store → ℕ → (TotpRec → TotpRec) → Store
change_totp s n f = elim (get s.totp n) [
  | none ↦ s
  | some r ↦ record s { totp = put s.totp n (f r) }
]

-- EnableTOTP; the error is always nil
unfoldable pub enable_totp : Store → Text → Store
enable_totp s user_id = with_id user_id s λ n. change_totp s n λ r. record r { enabled = true }

-- DisableTOTP; the error is always nil
unfoldable pub disable_totp : Store → Text → Store
disable_totp s user_id =
    with_id user_id s λ n. record s { totp = delete s.totp n; recovery = delete s.recovery n }

-- SetTOTPLastStep; the error is always nil
unfoldable pub set_totp_last_step : Store → Text → ℕ → Store
set_totp_last_step s user_id step =
    with_id user_id s λ n. change_totp s n λ r. record r { last_step = step }

-- ClaimTOTPStep
unfoldable pub claim_totp_step : Store → Text → ℕ → Store × Result Bool
claim_totp_step s user_id step =
    with_id user_id (s, err no_credential)
      λ n. elim (get s.totp n) [
        | none ↦ (s, err no_credential)
        | some r ↦
            if leb step r.last_step
            then (s, ok false)
            else (record s { totp = put s.totp n (record r { last_step = step }) }, ok true)
      ]

-- A Go set of strings: set[k] = true, and delete(set, k).
unfoldable pub set_insert : Text → List Text → List Text
set_insert k xs = if contains xs k then xs else k ∷ xs

unfoldable pub set_remove : Text → List Text → List Text
set_remove k xs = keep (λ x. x != k) xs

hex_digit : ℕ → ℕ
hex_digit d = if ltb d 10 then b'0' + d else b'a' + (d - 10)

-- hex.EncodeToString
unfoldable pub hex_encode : Bytes → Text
unfolding hex_digit
hex_encode [] = []
hex_encode (b ∷ bs) = hex_digit (b / 16) ∷ hex_digit (b % 16) ∷ hex_encode bs

unfoldable pub hash_set : List Bytes → List Text → List Text
unfolding set_insert hex_encode
hash_set [] set = set
hash_set (h ∷ hs) set = hash_set hs (set_insert (hex_encode h) set)

-- ReplaceRecoveryCodes; the error is always nil
unfoldable pub replace_recovery_codes : Store → Text → List Bytes → Store
unfolding hash_set
replace_recovery_codes s user_id hashes =
    with_id user_id s λ n. record s { recovery = put s.recovery n (hash_set hashes []) }

-- ConsumeRecoveryCode; the error is always nil
unfoldable pub consume_recovery_code : Store → Text → Bytes → Store × Bool
unfolding set_remove hex_encode
consume_recovery_code s user_id hash =
    with_id user_id (s, false)
      λ n. elim (get s.recovery n) [
        | none ↦ (s, false)
        | some set ↦
            if contains set (hex_encode hash)
            then (record s { recovery = put s.recovery n (set_remove (hex_encode hash) set) }, true)
            else (s, false)
      ]

-- RecoveryCodesRemaining; the error is always nil
unfoldable pub recovery_codes_remaining : Store → Text → ℕ
recovery_codes_remaining s user_id =
    with_id user_id 0 λ n. elim (get s.recovery n) [ none ↦ 0 | some set ↦ length set ]
