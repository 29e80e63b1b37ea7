-- ===== src/Login/Rewind.antt =====
-- twofactor_handlers.go: TOTPConfirm on an account whose second factor is already confirmed.
use go_auth_x.Base.{
  Bool-cases, List, Option, [], ap, arith, beq_refl, false, inl, inr, leb, list_beq_iff, list_eq,
  map, nat_eq, not, refl, some, true, ℕ, ◌<◌, ◌==◌, ◌∙◌, ◌≡◌, ◌≢◌, ◌≤◌,
}
use go_auth_x.Login.Factors.{FactorTools, current_auth_user, totp_confirm}
use go_auth_x.Map.{get, get-put}
use go_auth_x.Memory.Audits.{record_audit}
use go_auth_x.Memory.Store.{Store, TotpRec}
use go_auth_x.Memory.TwoFactor.{
  change_totp, claim_totp_step, enable_totp, replace_recovery_codes, set_totp_last_step, totp,
}
use go_auth_x.Memory.Users.{with_id}
use go_auth_x.Session.{SessionClaims}
use go_auth_x.Text.{Bytes, Text, parse_id}
use go_auth_x.Totp.{recovery_hash, totp_validate}
use go_auth_x.Types.{AuthUser, Time, ok}

module _ (tools : FactorTools) (session : Option SessionClaims) (code : Text) (recovery : List Text)
    (now : Time) (s : Store) (u : AuthUser) (n step : ℕ) (r : TotpRec)
    (is_u : current_auth_user s session ≡ some u) (e : parse_id u.id ≡ some n)
    (row : get s.totp n ≡ some r) (has_secret : r.secret ≢ [])
    (matched : totp_validate tools.mac tools.b32_decode r.secret code now ≡ some step) where
  abbrev confirmed : TotpRec
  confirmed = record r { enabled = true; last_step = step }

  stored_info :
      totp s u.id ≡ ok (record { secret = r.secret; enabled = r.enabled; last_step = r.last_step })
  unfolding totp
  stored_info = rw (e, totp, with_id) (rw row refl)

  enabled_row :
      (t : Store) (x : TotpRec)
      → get t.totp n ≡ some x
      → get (enable_totp t u.id).totp n ≡ some (record x { enabled = true })
  unfolding enable_totp
  enabled_row t x h =
      rw (e, enable_totp, with_id)
        (rw (h, change_totp)
          (ground (arith, get-put t.totp n (record x { enabled = true }) n, beq_refl n)))

  kept_row :
      (t : Store) (hashes : List Bytes) → (replace_recovery_codes t u.id hashes).totp ≡ t.totp
  unfolding replace_recovery_codes
  kept_row t hashes = rw (e, replace_recovery_codes, with_id) refl

  stepped_row :
      (t : Store) (x : TotpRec)
      → get t.totp n ≡ some x
      → get (set_totp_last_step t u.id step).totp n ≡ some (record x { last_step = step })
  unfolding set_totp_last_step
  stepped_row t x h =
      rw (e, set_totp_last_step, with_id)
        (rw (h, change_totp)
          (ground (arith, get-put t.totp n (record x { last_step = step }) n, beq_refl n)))

  claim_by_row :
      (t : Store) (x : TotpRec) (old : ℕ)
      → get t.totp n ≡ some x
      → (claim_totp_step t u.id old).1 ≡ ok (not (leb old x.last_step))
  unfolding claim_totp_step
  claim_by_row t x old h =
      rw (e, claim_totp_step, with_id)
        (rw h (elim (Bool-cases (leb old x.last_step)) [ inl b ↦ rw b refl | inr b ↦ rw b refl ]))

  -- TOTPConfirm with a code of any step, on an account whose factor may be confirmed already, sets
  -- the last step to that of the code: a step that was claimed before, and is later, can be claimed
  -- again.
  pub totp_confirm_rewinds :
      (old : ℕ)
      → step < old
      → old ≤ r.last_step
      → let t = (totp_confirm tools session (some code) recovery now s).0 in
        ((claim_totp_step s u.id old).1 ≡ ok false) × ((claim_totp_step t u.id old).1 ≡ ok true)
  unfolding totp_confirm record_audit
  totp_confirm_rewinds old later claimed =
      let hashes = map (recovery_hash tools.sha256) recovery in
      let s1 = enable_totp s u.id in
      let s2 = replace_recovery_codes s1 u.id hashes in
      let s3 = set_totp_last_step s2 u.id step in
      let here =
        stepped_row s2 (record r { enabled = true })
          (ap (λ m. get m n) (kept_row s1 hashes) ∙ enabled_row s r row) in
      (
        claim_by_row s r old row ∙ ground arith,
        rw (is_u, totp_confirm)
            (rw (stored_info, totp_confirm)
              (elim (Bool-cases (r.secret == [])) [
                | inl b ↦ absurd (has_secret ((list_beq_iff r.secret []).0 b))
                | inr b ↦ rw b (
                    rw matched (
                      claim_by_row (record_audit s3 u.id u.email true now) confirmed old here
                      ∙ ground arith))
              ])),
      )
