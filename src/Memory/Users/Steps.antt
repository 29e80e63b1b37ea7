-- ===== src/Memory/Users/Steps.antt =====
-- Each method on user rows keeps the user table valid.
use go_auth_x.Base.{
  Bool, Bool-cases, Option, Option-cases, [], arith, inl, inr, list_beq_iff, list_eq, nat_eq, none,
  refl, some, sym, true, ℕ, ◌!=◌, ◌&&◌, ◌++◌, ◌+◌, ◌<◌, ◌==◌, ◌∙◌, ◌≡◌,
}
use go_auth_x.Map.{find_value, find_value_complete, get}
use go_auth_x.Memory.Store.{Store, User, next_id}
use go_auth_x.Memory.Users.{
  change_user, create_local_user, ensure_webauthn_handle, find_by_email, find_by_sub, local_user,
  set_email, set_email_verified, set_user_ban, set_user_disabled, with_id_cases,
}
use go_auth_x.Memory.Users.Invariant.{IsValid-change, IsValid-put}
use go_auth_x.Memory.Users.Lookup.{Valid, find_by_email-none, find_by_sub-none}
use go_auth_x.Text.{Bytes, Text, codes, norm, u64}
use go_auth_x.Text.Norm.{norm-norm}
use go_auth_x.Types.{Result, Time}

module _ (s : Store) (valid : Valid s) where
  pub create_local_user-Valid :
      (email name rand : Text) (now : Time)
      → s.seq + 1 < u64
      → find_by_sub s (codes "local:" ++ rand) ≡ none
      → Valid (create_local_user s email name rand now).0
  unfolding create_local_user
  create_local_user-Valid email name rand now room fresh =
      elim (Option-cases (find_by_email s email)) [
        | inr (other, e) ↦ rw (e, create_local_user) valid
        | inl e ↦
            rw (e, create_local_user)
              (IsValid-put valid (next_id s.seq) (local_user (next_id s.seq) rand email name now)
                (omega arith) (omega arith) (omega arith) (omega arith) (norm-norm email)
                (λ k w g q. absurd (find_by_email-none s email k w e g q))
                (λ k w g q. absurd (find_by_sub-none s _ k w fresh g q)))
      ]

  -- A change of a row that keeps its key, address and subject.
  pub change_user-Valid :
      (n : ℕ) (f : User → User)
      → ((u : User) → (f u).id ≡ u.id)
      → ((u : User) → (f u).email ≡ u.email)
      → ((u : User) → (f u).sub ≡ u.sub)
      → Valid (change_user s n f)
  change_user-Valid n f fid femail fsub = elim (Option-cases (get s.users n)) [
    | inl e ↦ rw (e, change_user) valid
    | inr (u, e) ↦
        rw (e, change_user) (IsValid-change valid n u (f u) e (fid u) (femail u) (fsub u))
  ]

  pub set_email_verified-Valid :
      (user_id : Text) (verified : Bool) (now : Time)
      → Valid (set_email_verified s user_id verified now)
  unfolding set_email_verified
  set_email_verified-Valid user_id verified now =
      with_id_cases Valid user_id valid
        λ n e. change_user-Valid n _ (λ u. refl) (λ u. refl) (λ u. refl)

  pub set_user_disabled-Valid :
      (user_id : Text) (disabled : Bool) → Valid (set_user_disabled s user_id disabled)
  unfolding set_user_disabled
  set_user_disabled-Valid user_id disabled =
      with_id_cases Valid user_id valid
        λ n e. change_user-Valid n _ (λ u. refl) (λ u. refl) (λ u. refl)

  pub set_user_ban-Valid :
      (user_id : Text) (banned : Bool) (until : Option Time) (reason : Text)
      → Valid (set_user_ban s user_id banned until reason)
  unfolding set_user_ban
  set_user_ban-Valid user_id banned until reason =
      with_id_cases Valid user_id valid
        λ n e. change_user-Valid n _ (λ u. ground arith) (λ u. ground arith) (λ u. ground arith)

  pub ensure_webauthn_handle-Valid :
      (user_id : Text) (rand : Bytes) → Valid (ensure_webauthn_handle s user_id rand).0
  unfolding ensure_webauthn_handle
  ensure_webauthn_handle-Valid user_id rand =
      with_id_cases (λ (r : Store × Result Bytes). Valid r.0) user_id valid
        λ n e. elim (Option-cases (get s.users n)) [
          | inl m ↦ rw m valid
          | inr (u, m) ↦ elim (Bool-cases (u.webauthn_handle == [])) [
            | inl b ↦ rw m (
                rw b
                  (IsValid-change valid n u (record u { webauthn_handle = rand }) m refl refl refl))
            | inr b ↦ rw m (rw b valid)
          ]
        ]

  set_email-free :
      (n : ℕ) (new_email : Text) (k : ℕ) (w : User)
      → find_value (λ u. u.email == norm new_email && u.id != n) s.users ≡ none
      → get s.users k ≡ some w
      → w.email ≡ norm new_email
      → k ≡ n
  set_email-free n new_email k w e g q = ground (
    arith,
    find_value_complete (λ u. u.email == norm new_email && u.id != n) s.users k w,
    list_beq_iff w.email (norm new_email),
    valid.keyed k w,
  )

  set_email-change :
      (n : ℕ) (new_email : Text) (now : Time)
      → find_value (λ u. u.email == norm new_email && u.id != n) s.users ≡ none
      → Valid (
          change_user s n
            λ u. record u { email = norm new_email; email_verified = true; updated_at = now })
  set_email-change n new_email now e = elim (Option-cases (get s.users n)) [
    | inl m ↦ rw (m, change_user) valid
    | inr (u, m) ↦
        let same = valid.keyed n u m in
        rw (m, change_user)
          (rw (← same) (
            IsValid-put valid s.seq
              (record u { email = norm new_email; email_verified = true; updated_at = now })
              valid.counter (omega arith) (ground (arith, valid.positive n u))
              (ground (arith, valid.issued n u)) (norm-norm new_email)
              (λ k w g q. set_email-free n new_email k w e g q ∙ sym same)
              (λ k w g q. valid.one_sub k n w u g m q ∙ sym same)))
  ]

  pub set_email-Valid :
      (user_id new_email : Text) (now : Time) → Valid (set_email s user_id new_email now).0
  unfolding set_email
  set_email-Valid user_id new_email now =
      with_id_cases (λ (r : Store × Result (Unit {0})). Valid r.0) user_id valid
        λ n e.
          elim (Option-cases (find_value (λ u. u.email == norm new_email && u.id != n) s.users)) [
            | inr (o, m) ↦ rw m valid
            | inl m ↦ rw m (set_email-change n new_email now m)
          ]
