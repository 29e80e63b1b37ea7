-- ===== src/Totp.antt =====
-- totp.go, recoveryHash of twofactor.go and verifySecondFactor of twofactor_handlers.go: one-time
-- codes. The MAC (HMAC-SHA1), the base32 decoder and the hash (SHA-256) are arguments.
pub mod Codes
pub mod Once
use go_auth_x.Base.{
  Bool, List, Option, [], false, if◌then◌else◌, keep, length, list_eq, nat_eq, none, not, some, suc,
  zero, ℕ, ◌!=◌, ◌%◌, ◌*◌, ◌++◌, ◌+◌, ◌-◌, ◌/◌, ◌==◌, ◌^◌, ◌||◌, ◌∷◌,
}
use go_auth_x.Memory.Store.{Store}
use go_auth_x.Memory.TwoFactor.{claim_totp_step, consume_recovery_code}
use go_auth_x.Session.{second}
use go_auth_x.Text.{Bytes, Text, to_lower, to_upper, trim_space, u64}
use go_auth_x.Types.{Result, Time, TotpInfo, err, ok}

-- totpDigits and totpPeriod
abbrev pub totp_digits : ℕ
totp_digits = 6

abbrev pub totp_period : ℕ
totp_period = 30

-- binary.BigEndian.PutUint64: the `n` low bytes of a number, the highest first
unfoldable pub big_endian : ℕ → ℕ → Bytes
big_endian zero x = []
big_endian (suc n) x = big_endian n (x / 256) ++ x % 256 ∷ []

unfoldable pub first_four : Bytes → Option ℕ
first_four (a ∷ b ∷ c ∷ d ∷ rest) = some (((a * 256 + b) * 256 + c) * 256 + d)
first_four _ = none

-- sum[off : off+4] as a number, `none` where the slice is out of range
unfoldable pub uint32_at : Bytes → ℕ → Option ℕ
unfolding first_four
uint32_at sum zero = first_four sum
uint32_at [] (suc off) = none
uint32_at (a ∷ rest) (suc off) = uint32_at rest off

-- sum[len(sum)-1]
unfoldable pub last : Bytes → Option ℕ
last [] = none
last (a ∷ []) = some a
last (a ∷ b ∷ rest) = last (b ∷ rest)

-- %06d of a number below 10 ^ 6: the `n` low decimal digits
unfoldable pub padded : ℕ → ℕ → Text
padded zero x = []
padded (suc n) x = padded n (x / 10) ++ (b'0' + x % 10) ∷ []

-- hotp, `none` where an index is out of range
unfoldable pub hotp : (Bytes → Bytes → Bytes) → Bytes → ℕ → Option Text
unfolding big_endian uint32_at last padded
hotp mac secret counter =
    let sum = mac secret (big_endian 8 counter) in
    elim (last sum) [
      | none ↦ none
      | some low ↦ elim (uint32_at sum (low % 16)) [
        | none ↦ none
        | some word ↦ some (padded totp_digits (word % 2 ^ 31 % 1000000))
      ]
    ]

-- uint64(t.Unix()); the zero time is in the year 1
unfoldable pub unix : Time → ℕ
unix t = (t / second + (u64 - 62135596800)) % u64

abbrev pub is_code : Option Text → Text → Bool
is_code none code = false
is_code (some right) code = right == code

-- The loop of totpValidate: the first step whose code is the given one, if any.
unfoldable pub match_step : (Bytes → Bytes → Bytes) → Bytes → Text → List ℕ → Option ℕ
unfolding hotp
match_step mac secret code [] = none
match_step mac secret code (c ∷ cs) =
    let rest = match_step mac secret code cs in
    if is_code (hotp mac secret c) code then some c else rest

-- The steps that totpValidate tries: the current one and the one before.
abbrev pub tried_steps : Time → List ℕ
tried_steps t = let now = unix t / totp_period in now ∷ (now + (u64 - 1)) % u64 ∷ []

-- totpValidate, with the step that matches
unfoldable pub totp_validate :
    (Bytes → Bytes → Bytes) → (Text → Option Bytes) → Text → Text → Time → Option ℕ
unfolding unix match_step
totp_validate mac b32_decode secret_b32 raw t =
    let code = trim_space raw in
    if length code != totp_digits
    then none
    else (elim (b32_decode (to_upper (trim_space secret_b32))) [
      | none ↦ none
      | some secret ↦ match_step mac secret code (tried_steps t)
    ])

-- recoveryHash; `sha256` is the hash
unfoldable pub recovery_hash : (Text → Bytes) → Text → Bytes
recovery_hash sha256 code =
    sha256 (keep (λ c. not (c == b' ' || c == b'-')) (to_lower (trim_space code)))

-- err == nil && claimed
abbrev pub accepted : Result Bool → Bool
accepted (ok b) = b
accepted (err _) = false

-- The branches of verifySecondFactor, by the step that the code matches.
unfoldable pub accept_factor : (Text → Bytes) → Store → Text → Text → Option ℕ → Store × Bool
unfolding recovery_hash claim_totp_step consume_recovery_code
accept_factor sha256 s user_id code (some step) =
    let (s', claimed) = claim_totp_step s user_id step in (s', accepted claimed)
accept_factor sha256 s user_id code none =
    consume_recovery_code s user_id (recovery_hash sha256 code)

-- verifySecondFactor
unfoldable pub verify_second_factor :
    (Bytes → Bytes → Bytes)
    → (Text → Option Bytes)
    → (Text → Bytes)
    → Store
    → Text
    → TotpInfo
    → Text
    → Time
    → Store × Bool
unfolding totp_validate accept_factor
verify_second_factor mac b32_decode sha256 s user_id info code now =
    accept_factor sha256 s user_id code (totp_validate mac b32_decode info.secret code now)
