-- ===== src/Memory/TwoFactor/Replay.antt =====
-- A TOTP step is claimed at most once, and a recovery code is consumed at most once.
use go_auth_x.Base.{
  Bool, Bool-cases, List, Option-cases, [], arith, beq_refl, contains, false, inl, inr, keep, leb,
  list_beq_iff, list_eq, nat_eq, none, refl, some, subst, true, ℕ, ◌<◌, ◌∷◌, ◌≡◌, ◌≢◌, ◌⊎◌,
}
use go_auth_x.Map.{get, get-put}
use go_auth_x.Memory.Store.{Store}
use go_auth_x.Memory.TwoFactor.{claim_totp_step, consume_recovery_code, hex_encode, set_remove}
use go_auth_x.Memory.Users.{with_id}
use go_auth_x.Text.{Bytes, Text, parse_id}
use go_auth_x.Types.{Result, err, ok}

abbrev granted : Result Bool → ℕ → List ℕ → List ℕ
granted (ok true) step later = step ∷ later
granted _ step later = later

granted_not :
    (r : Result Bool) (step : ℕ) (later : List ℕ) → r ≢ ok true → granted r step later ≡ later
granted_not (ok true) step later h = absurd (h refl)
granted_not (ok false) step later h = refl
granted_not (err e) step later h = refl

-- A sequence of claims for one user, and the steps that were granted.
unfoldable pub claims : Store → Text → List ℕ → List ℕ
claims s user_id [] = []
claims s user_id (step ∷ rest) =
    let (s', r) = claim_totp_step s user_id step in granted r step (claims s' user_id rest)

-- Each step is above `n` and above the ones before it.
abbrev pub IsRising : ℕ → List ℕ → Type 0
IsRising n [] = Unit {0}
IsRising n (x ∷ xs) = (n < x) × IsRising x xs

-- The last step that was claimed, as it is stored.
unfoldable pub last_claimed : Store → Text → ℕ
last_claimed s user_id =
    with_id user_id 0 λ n. elim (get s.totp n) [ none ↦ 0 | some r ↦ r.last_step ]

pub claim_cases :
    (s : Store) (user_id : Text) (step : ℕ)
    → let r = claim_totp_step s user_id step in
      ((r.1 ≡ ok true) × (last_claimed s user_id < step) × (last_claimed r.0 user_id ≡ step))
      ⊎ ((r.1 ≢ ok true) × (r.0 ≡ s))
unfolding claim_totp_step last_claimed
claim_cases s user_id step = elim (Option-cases (parse_id user_id)) [
  | inl e ↦ rw (e, claim_totp_step, last_claimed, with_id) (inr (λ h. ground arith, refl))
  | inr (n, e) ↦ elim (Option-cases (get s.totp n)) [
    | inl m ↦ rw (e, m, claim_totp_step, last_claimed, with_id) (inr (λ h. ground arith, refl))
    | inr (r, m) ↦ elim (Bool-cases (leb step r.last_step)) [
      | inl b ↦ rw (e, m, b, claim_totp_step, last_claimed, with_id) (inr (λ h. ground arith, refl))
      | inr b ↦
          rw (e, m, b, claim_totp_step, last_claimed, with_id)
            (inl (
              refl,
              ground arith,
              ground (arith, get-put s.totp n (record r { last_step = step }) n, beq_refl n),
            ))
    ]
  ]
]

-- Of any sequence of claims, the steps that are granted rise from the last one that was claimed
-- before: no step is granted twice, and none that is older than one already granted.
pub claims-IsRising :
    (s : Store) (user_id : Text) (steps : List ℕ)
    → IsRising (last_claimed s user_id) (claims s user_id steps)
unfolding claims
claims-IsRising s user_id [] = tt
claims-IsRising s user_id (step ∷ rest) =
    let s' = (claim_totp_step s user_id step).0 in
    let later = claims-IsRising s' user_id rest in
    elim (claim_cases s user_id step) [
      | inl (yes_granted, above, now) ↦
          rw (yes_granted, claims)
            (above, subst (λ k. IsRising k (claims s' user_id rest)) now later)
      | inr (not_granted, same) ↦
          rw (granted_not _ step (claims s' user_id rest) not_granted)
            (subst (λ t. IsRising (last_claimed t user_id) (claims s' user_id rest)) same later)
    ]

keep_removes : (k : Text) (xs : List Text) → contains (set_remove k xs) k ≡ false
unfolding set_remove keep contains
keep_removes k [] = refl
keep_removes k (x ∷ xs) = ground (arith, keep_removes k xs, list_beq_iff x k, list_beq_iff k x)

abbrev lists_code : Store → ℕ → Text → Bool
lists_code s n key = elim (get s.recovery n) [ none ↦ false | some set ↦ contains set key ]

unlisted_is_refused :
    (s : Store) (user_id : Text) (hash : Bytes) (n : ℕ)
    → parse_id user_id ≡ some n
    → lists_code s n (hex_encode hash) ≡ false
    → consume_recovery_code s user_id hash ≡ (s, false)
unfolding consume_recovery_code
unlisted_is_refused s user_id hash n e h = elim (Option-cases (get s.recovery n)) [
  | inl m ↦ rw (e, m, consume_recovery_code, with_id) refl
  | inr (set, m) ↦
      let gone : contains set (hex_encode hash) ≡ false = ground arith in
      rw (e, m, consume_recovery_code, with_id) (rw gone refl)
]

consumed_is_unlisted :
    (s : Store) (user_id : Text) (hash : Bytes) (n : ℕ)
    → parse_id user_id ≡ some n
    → (consume_recovery_code s user_id hash).1 ≡ true
    → lists_code (consume_recovery_code s user_id hash).0 n (hex_encode hash) ≡ false
unfolding consume_recovery_code
consumed_is_unlisted s user_id hash n e h = elim (Option-cases (get s.recovery n)) [
  | inl m ↦ absurd (ground arith)
  | inr (set, m) ↦
      let key = hex_encode hash in
      let there : contains set key ≡ true = ground arith in
      rw (e, m, consume_recovery_code, with_id)
        (rw there (
          ground
            (arith, get-put s.recovery n (set_remove key set) n, beq_refl n, keep_removes key set)))
]

-- A recovery code that was consumed is refused afterwards, and nothing changes.
pub consume_recovery_code_once :
    (s : Store) (user_id : Text) (hash : Bytes)
    → (consume_recovery_code s user_id hash).1 ≡ true
    → consume_recovery_code (consume_recovery_code s user_id hash).0 user_id hash
      ≡ ((consume_recovery_code s user_id hash).0, false)
consume_recovery_code_once s user_id hash h = elim (Option-cases (parse_id user_id)) [
  | inl e ↦ absurd (unfold consume_recovery_code in ground arith)
  | inr (n, e) ↦
      unlisted_is_refused (consume_recovery_code s user_id hash).0 user_id hash n e
        (consumed_is_unlisted s user_id hash n e h)
]
