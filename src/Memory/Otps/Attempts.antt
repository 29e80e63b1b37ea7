-- ===== src/Memory/Otps/Attempts.antt =====
-- An emailed code is checked at most `max_attempts` times, and redeemed at most once.
use go_auth_x.Base.{
  Bool-cases, List, Option, Option-cases, [], arith, beq_refl, inl, inr, leb, length, list_beq_iff,
  list_eq, nat_eq, none, refl, some, true, ℕ, ◌+◌, ◌-◌, ◌<◌, ◌==◌, ◌||◌, ◌∷◌, ◌≡◌, ◌≤◌, ◌⊎◌,
}
use go_auth_x.Map.{get, get-delete, get-put}
use go_auth_x.Memory.Otps.{check_code, otp_key, verify_email_otp}
use go_auth_x.Memory.Store.{EmailOtp, Store}
use go_auth_x.Text.{Bytes, Text, norm}
use go_auth_x.Types.{Time, TokenClaim, after, err, ok, token_invalid}

-- A run of guesses at one code, and the answers to them.
unfoldable pub guesses : Store → Text → Text → List (Bytes × Time) → Store
guesses s purpose email [] = s
guesses s purpose email ((code_hash, now) ∷ rest) =
    guesses (verify_email_otp s purpose email code_hash now).0 purpose email rest

-- The checks of the code that are left.
abbrev pub left : Option EmailOtp → ℕ
left none = 0
left (some o) = o.max_attempts - o.attempts

module _ (s : Store) (purpose email : Text) (code_hash : Bytes) (now : Time) where
  absent_is_refused :
      get s.otps (otp_key purpose email) ≡ none
      → verify_email_otp s purpose email code_hash now ≡ (s, err token_invalid)
  unfolding verify_email_otp
  absent_is_refused e = rw (e, verify_email_otp) refl

  -- A guess ends the code, or uses up one of its checks and is refused.
  pub guess_cases :
      (o : EmailOtp)
      → get s.otps (otp_key purpose email) ≡ some o
      → let r = verify_email_otp s purpose email code_hash now in
        (get r.0.otps (otp_key purpose email) ≡ none)
        ⊎ ((get r.0.otps (otp_key purpose email) ≡ some (record o { attempts = o.attempts + 1 }))
            × (o.attempts + 1 < o.max_attempts)
            × (r.1 ≡ err token_invalid))
  unfolding verify_email_otp check_code
  guess_cases o e = elim (Bool-cases (after now o.expires_at)) [
    | inl b ↦
        rw (e, verify_email_otp)
          (rw b (
            inl (
              ground (
                arith,
                get-delete s.otps (otp_key purpose email) (otp_key purpose email),
                beq_refl (otp_key purpose email),
              ))))
    | inr b ↦ elim (Bool-cases (o.code_hash == code_hash || leb o.max_attempts (o.attempts + 1))) [
      | inl c ↦
          rw (e, verify_email_otp)
            (rw b (
              rw c (
                inl (
                  ground (
                    arith,
                    get-delete s.otps (otp_key purpose email) (otp_key purpose email),
                    beq_refl (otp_key purpose email),
                  )))))
      | inr c ↦
          rw (e, verify_email_otp)
            (rw b (
              rw c (
                inr (
                  ground (
                    arith,
                    get-put s.otps (otp_key purpose email) (record o { attempts = o.attempts + 1 })
                        (otp_key purpose email),
                    beq_refl (otp_key purpose email),
                  ),
                  ground arith,
                  refl,
                ))))
    ]
  ]

module _ (purpose email : Text) where
  absent_stays :
      (s : Store) (tries : List (Bytes × Time))
      → get s.otps (otp_key purpose email) ≡ none
      → get (guesses s purpose email tries).otps (otp_key purpose email) ≡ none
  unfolding guesses
  absent_stays s [] e = e
  absent_stays s ((c, t) ∷ rest) e =
      rw (absent_is_refused s purpose email c t e, guesses) (absent_stays s rest e)

  run_out :
      (s : Store) (o : EmailOtp) (tries : List (Bytes × Time))
      → get s.otps (otp_key purpose email) ≡ some o
      → o.max_attempts ≤ o.attempts + length tries
      → 0 < length tries
      → get (guesses s purpose email tries).otps (otp_key purpose email) ≡ none
  unfolding guesses
  run_out s o [] e enough some_try = absurd (omega arith)
  run_out s o ((c, t) ∷ rest) e enough some_try = elim (guess_cases s purpose email c t o e) [
    | inl gone ↦ absent_stays (verify_email_otp s purpose email c t).0 rest gone
    | inr (again, more, _) ↦
        run_out (verify_email_otp s purpose email c t).0 (record o { attempts = o.attempts + 1 })
          rest again (omega arith) (omega arith)
  ]

  -- After as many guesses as the code had checks left, right or wrong, and at least one, every code
  -- is refused, the right one too.
  pub guesses_run_out :
      (s : Store) (o : EmailOtp) (tries : List (Bytes × Time)) (code_hash : Bytes) (now : Time)
      → get s.otps (otp_key purpose email) ≡ some o
      → o.max_attempts ≤ o.attempts + length tries
      → 0 < length tries
      → verify_email_otp (guesses s purpose email tries) purpose email code_hash now
        ≡ (guesses s purpose email tries, err token_invalid)
  guesses_run_out s o tries code_hash now e enough some_try =
      absent_is_refused (guesses s purpose email tries) purpose email code_hash now
        (run_out s o tries e enough some_try)

  -- A guess succeeds only with the code of the latest mail to that address, in time, and the code is
  -- gone afterwards.
  pub verify_email_otp_ok :
      (s : Store) (code_hash : Bytes) (now : Time) (claim : TokenClaim)
      → (verify_email_otp s purpose email code_hash now).1 ≡ ok claim
      → (o : EmailOtp) × (get s.otps (otp_key purpose email) ≡ some o)
        × (o.code_hash ≡ code_hash)
        × (now ≤ o.expires_at)
        × (claim.email ≡ norm email)
        × (get (verify_email_otp s purpose email code_hash now).0.otps (otp_key purpose email)
            ≡ none)
  unfolding verify_email_otp check_code
  verify_email_otp_ok s code_hash now claim h =
      elim (Option-cases (get s.otps (otp_key purpose email))) [
        | inl e ↦ absurd (ground arith)
        | inr (o, e) ↦
            let found : o.code_hash == code_hash ≡ true = ground arith in
            (
              o,
              e,
              (list_beq_iff o.code_hash code_hash).0 found,
              ground arith,
              ground arith,
              elim (guess_cases s purpose email code_hash now o e) [
                | inl gone ↦ gone
                | inr (again, more, no_claim) ↦ absurd (ground arith)
              ],
            )
      ]
