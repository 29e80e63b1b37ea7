-- ===== src/Totp/Once.antt =====
-- The steps that totpValidate accepts, and that a second factor is not accepted twice.
use go_auth_x.Base.{
  Bool, Bool-cases, Option, Option-cases, [], ap, arith, false, inl, inr, length, list_beq_iff,
  list_eq, nat_beq_iff, nat_eq, none, refl, some, subst, sym, true, ℕ, ◌%◌, ◌+◌, ◌-◌, ◌/◌, ◌==◌,
  ◌∷◌, ◌≡◌, ◌≢◌, ◌⊎◌,
}
use go_auth_x.Memory.Store.{Store}
use go_auth_x.Memory.TwoFactor.{claim_totp_step}
use go_auth_x.Memory.TwoFactor.Replay.{claim_cases, consume_recovery_code_once}
use go_auth_x.Text.{Bytes, Text, to_upper, trim_space, u64}
use go_auth_x.Totp.{
  accept_factor, accepted, hotp, is_code, match_step, recovery_hash, totp_digits, totp_period,
  totp_validate, tried_steps, unix, verify_second_factor,
}
use go_auth_x.Types.{Result, Time, TotpInfo, err, ok}

match_step_sound :
    (mac : Bytes → Bytes → Bytes) (secret : Bytes) (code : Text) (c d step : ℕ)
    → match_step mac secret code (c ∷ d ∷ []) ≡ some step
    → ((step ≡ c) ⊎ (step ≡ d)) × (is_code (hotp mac secret step) code ≡ true)
unfolding match_step
match_step_sound mac secret code c d step h = elim (Bool-cases (is_code (hotp mac secret c) code)) [
  | inl b ↦
      let e : c ≡ step = ground arith in
      (inl (sym e), subst (λ k. is_code (hotp mac secret k) code ≡ true) e b)
  | inr b ↦ elim (Bool-cases (is_code (hotp mac secret d) code)) [
    | inl b' ↦
        let e : d ≡ step = ground arith in
        (inr (sym e), subst (λ k. is_code (hotp mac secret k) code ≡ true) e b')
    | inr b' ↦ absurd (ground arith)
  ]
]

is_code_sound : (x : Option Text) (code : Text) → is_code x code ≡ true → x ≡ some code
is_code_sound none code h = absurd (ground arith)
is_code_sound (some right) code h = ground (arith, list_beq_iff right code)

-- A code that totpValidate accepts has six characters once it is trimmed, and is what hotp computes
-- under the decoded secret for the step that is answered, which is the current step or the one
-- before: the code of a later step is not accepted.
pub totp_validate_window :
    (mac : Bytes → Bytes → Bytes) (b32_decode : Text → Option Bytes) (secret_b32 raw : Text)
    (t : Time) (step : ℕ)
    → totp_validate mac b32_decode secret_b32 raw t ≡ some step
    → let now = unix t / totp_period in
      (length (trim_space raw) ≡ totp_digits)
      × ((step ≡ now) ⊎ (step ≡ (now + (u64 - 1)) % u64))
      × ((secret : Bytes) × (b32_decode (to_upper (trim_space secret_b32)) ≡ some secret)
          × (hotp mac secret step ≡ some (trim_space raw)))
unfolding totp_validate
totp_validate_window mac b32_decode secret_b32 raw t step h =
    let code = trim_space raw in
    elim (Bool-cases (length code == totp_digits)) [
      | inr b ↦ absurd (ground arith)
      | inl b ↦ elim (Option-cases (b32_decode (to_upper (trim_space secret_b32)))) [
        | inl m ↦ absurd (ground arith)
        | inr (secret, m) ↦
            let now = unix t / totp_period in
            let found : match_step mac secret code (tried_steps t) ≡ some step = ground arith in
            let (place, right) =
              match_step_sound mac secret code now ((now + (u64 - 1)) % u64) step found in
            (
              ground (arith, nat_beq_iff (length code) totp_digits),
              place,
              (secret, m, is_code_sound _ code right),
            )
      ]
    ]

accepted-true : (r : Result Bool) → accepted r ≡ true → r ≡ ok true
accepted-true (ok b) h = ap ok h
accepted-true (err _) h = absurd (ground arith)

accepted-false : (r : Result Bool) → r ≢ ok true → accepted r ≡ false
accepted-false (ok true) h = absurd (h refl)
accepted-false (ok false) h = refl
accepted-false (err _) h = refl

claim_once :
    (s : Store) (user_id : Text) (step : ℕ)
    → let r = claim_totp_step s user_id step in
      accepted r.1 ≡ true
      → let r' = claim_totp_step r.0 user_id step in (r'.0 ≡ r.0) × (accepted r'.1 ≡ false)
claim_once s user_id step h =
    let s' = (claim_totp_step s user_id step).0 in
    elim (claim_cases s user_id step) [
      | inr (lost, _) ↦ absurd (lost (accepted-true _ h))
      | inl (_, _, claimed) ↦ elim (claim_cases s' user_id step) [
        | inl (_, above, _) ↦ absurd (omega (arith, above, claimed))
        | inr (lost, same) ↦ (same, accepted-false _ lost)
      ]
    ]

accept_once :
    (sha256 : Text → Bytes) (s : Store) (user_id code : Text) (matched : Option ℕ)
    → let r = accept_factor sha256 s user_id code matched in
      r.1 ≡ true → accept_factor sha256 r.0 user_id code matched ≡ (r.0, false)
unfolding accept_factor
accept_once sha256 s user_id code none h =
    consume_recovery_code_once s user_id (recovery_hash sha256 code) h
accept_once sha256 s user_id code (some step) h =
    let (same, refused) = claim_once s user_id step h in rw (same, refused) refl

-- A second factor that was accepted is not accepted again at that time: neither a one-time code nor
-- a recovery code, and the second attempt changes nothing.
pub verify_second_factor_once :
    (mac : Bytes → Bytes → Bytes) (b32_decode : Text → Option Bytes) (sha256 : Text → Bytes)
    (s : Store) (user_id : Text) (info : TotpInfo) (code : Text) (now : Time)
    → let r = verify_second_factor mac b32_decode sha256 s user_id info code now in
      r.1 ≡ true
      → verify_second_factor mac b32_decode sha256 r.0 user_id info code now ≡ (r.0, false)
unfolding verify_second_factor
verify_second_factor_once mac b32_decode sha256 s user_id info code now h =
    accept_once sha256 s user_id code (totp_validate mac b32_decode info.secret code now) h
