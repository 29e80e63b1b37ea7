-- ===== src/Tests/Factors.antt =====
-- The theorems on one-time codes, with a MAC and a decoder for the runs.
use go_auth_x.Base.{
  Option, [], false, length, list_beq, list_eq, nat_eq, refl, some, true, ◌%◌, ◌*◌, ◌+◌, ◌-◌, ◌/◌,
  ◌∷◌, ◌≡◌, ◌⊎◌,
}
use go_auth_x.Examples.{one_user}
use go_auth_x.Map.{empty, get, put}
use go_auth_x.Memory.Store.{Store}
use go_auth_x.Memory.TwoFactor.{claim_totp_step}
use go_auth_x.Session.{second}
use go_auth_x.Text.{Bytes, Text, codes, parse_id, to_upper, trim_space, u64}
use go_auth_x.Totp.{
  accept_factor, first_four, hotp, last, match_step, padded, totp_digits, totp_period,
  totp_validate, uint32_at, unix, verify_second_factor,
}
use go_auth_x.Totp.Once.{totp_validate_window, verify_second_factor_once}
use go_auth_x.Types.{Time, TotpInfo}

abbrev mac : Bytes → Bytes → Bytes
mac key message =
    1 ∷ 2 ∷ 3 ∷ 4 ∷ 5 ∷ 6 ∷ 7 ∷ 8 ∷ 9 ∷ 10 ∷ 11 ∷ 12 ∷ 13 ∷ 14 ∷ 15 ∷ 16 ∷ 17 ∷ 18 ∷ 19 ∷ 3 ∷ []

abbrev decode : Text → Option Bytes
decode s = some s

hotp_run : hotp mac [] 7 ≡ some (codes "438087")
unfolding hotp last uint32_at first_four padded
hotp_run = refl

-- Half a minute after the start of the year 1970: the second step.
abbrev moment : Time
moment = 62135596830 * second

abbrev secret : Text
secret = codes "JBSW"

totp_validate_window_example :
    let now = unix moment / totp_period in
    (length (trim_space (codes " 438087")) ≡ totp_digits)
    × ((1 ≡ now) ⊎ (1 ≡ (now + (u64 - 1)) % u64))
    × ((key : Bytes) × (decode (to_upper (trim_space secret)) ≡ some key)
        × (hotp mac key 1 ≡ some (trim_space (codes " 438087"))))
unfolding totp_validate match_step hotp last uint32_at first_four padded unix trim_space list_beq
totp_validate_window_example =
    totp_validate_window mac decode secret (codes " 438087") moment 1 refl

abbrev enrolled : Store
enrolled = record one_user {
  totp = put empty 1 (record { secret = secret; enabled = true; last_step = 0 });
}

abbrev factor : TotpInfo
factor = record { secret = secret; enabled = true; last_step = 0 }

verify_second_factor_once_example :
    let r =
      verify_second_factor mac decode
        (λ x. x)
        enrolled
        (codes "1")
        factor
        (codes "438087")
        moment in
    verify_second_factor mac decode (λ x. x) r.0 (codes "1") factor (codes "438087") moment
    ≡ (r.0, false)
unfolding verify_second_factor accept_factor totp_validate match_step hotp last uint32_at first_four
    padded unix trim_space list_beq claim_totp_step get put empty parse_id
verify_second_factor_once_example =
    verify_second_factor_once mac decode (λ x. x) enrolled (codes "1") factor (codes "438087")
      moment refl
