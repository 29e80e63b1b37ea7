-- ===== src/Memory/Upsert/Valid.antt =====
-- A login keeps the user table valid, and returns the row of its subject.
use go_auth_x.Base.{
  Bool, Bool-cases, Option-cases, [], arith, false, inl, inr, list_beq_iff, list_eq, nat_eq, none,
  not, some, sym, ℕ, ◌!=◌, ◌&&◌, ◌+◌, ◌<◌, ◌==◌, ◌||◌, ◌∙◌, ◌≡◌, ◌≢◌,
}
use go_auth_x.Map.{get, get-delete}
use go_auth_x.Memory.Erase.{delete_user, delete_user_cascade, email_of}
use go_auth_x.Memory.Store.{Store, User, next_id}
use go_auth_x.Memory.Upsert.{
  adopt, insert_login, is_bootstrap, is_taken, login_user, mark_verified, replace_user,
  update_known, upsert_user_on_login,
}
use go_auth_x.Memory.Users.{find_by_email, find_by_sub, with_id_cases}
use go_auth_x.Memory.Users.Invariant.{IsValid-delete, IsValid-put}
use go_auth_x.Memory.Users.Lookup.{
  Valid, find_by_email-none, find_by_email-some, find_by_sub-none, find_by_sub-some,
}
use go_auth_x.Text.{Text, norm, u64}
use go_auth_x.Text.Norm.{norm-norm}
use go_auth_x.Types.{Time}

module _ (s : Store) (valid : Valid s) where
  pub delete_user_cascade-Valid : (id : ℕ) → Valid (delete_user_cascade s id)
  unfolding delete_user_cascade
  delete_user_cascade-Valid id = IsValid-delete valid id

  pub delete_user-Valid : (user_id : Text) → Valid (delete_user s user_id)
  unfolding delete_user
  delete_user-Valid user_id = with_id_cases Valid user_id valid λ n e.
      elim (Bool-cases (email_of (get s.users n) != [])) [
        | inl b ↦ rw b (IsValid-delete valid n)
        | inr b ↦ rw b (IsValid-delete valid n)
      ]

  email_owner :
      (u : User) (email : Text)
      → get s.users u.id ≡ some u
      → norm email ≡ email
      → is_taken s u email ≡ false
      → (k : ℕ) (w : User) → get s.users k ≡ some w
      → w.email ≡ email
      → k ≡ u.id
  email_owner u email h fixed free k w g q = elim (Bool-cases (email == u.email)) [
    | inl b ↦ valid.one_email k u.id w u g h (q ∙ (list_beq_iff email u.email).0 b)
    | inr b ↦ elim (Option-cases (find_by_email s email)) [
      | inl e ↦ absurd (find_by_email-none s email k w e g (q ∙ sym fixed))
      | inr (o, e) ↦
          let (ho, po) = find_by_email-some s valid email o e in
          let same : o.id ≡ u.id = ground arith in
          valid.one_email k o.id w o g ho (q ∙ sym fixed ∙ sym po) ∙ same
    ]
  ]

  -- A row is replaced by one with its key, and with a free address and subject.
  replace_user-Valid :
      (u u' : User)
      → get s.users u.id ≡ some u
      → u'.id ≡ u.id
      → norm u'.email ≡ u'.email
      → ((k : ℕ) (w : User) → get s.users k ≡ some w → w.email ≡ u'.email → k ≡ u'.id)
      → ((k : ℕ) (w : User) → get s.users k ≡ some w → w.sub ≡ u'.sub → k ≡ u'.id)
      → Valid (replace_user s u')
  replace_user-Valid u u' h same fixed email_free sub_free =
      IsValid-put valid s.seq u' valid.counter (omega arith) (ground (arith, valid.positive u.id u))
        (ground (arith, valid.issued u.id u)) fixed email_free sub_free

  update_known-Valid :
      (u : User) (email name : Text) (verified : Bool)
      → get s.users u.id ≡ some u
      → norm email ≡ email
      → Valid (update_known s u email name verified).0
  unfolding update_known
  update_known-Valid u email name verified h fixed = elim (Bool-cases (is_taken s u email)) [
    | inl b ↦ rw (b, update_known) valid
    | inr b ↦
        rw (b, update_known)
          (replace_user-Valid u (mark_verified verified (record u { email = email; name = name })) h
            (ground arith) (ground arith)
            (λ k w g q. email_owner u email h fixed b k w g (ground arith) ∙ ground arith)
            (λ k w g q. valid.one_sub k u.id w u g h (ground arith) ∙ ground arith))
  ]

  pub insert_login-Valid :
      (sub email name : Text) (verified : Bool) (now : Time)
      → s.seq + 1 < u64
      → norm email ≡ email
      → ((k : ℕ) (w : User) → get s.users k ≡ some w → w.email ≢ email)
      → ((k : ℕ) (w : User) → get s.users k ≡ some w → w.sub ≢ sub)
      → Valid (insert_login s sub email name verified now).0
  unfolding insert_login
  insert_login-Valid sub email name verified now room fixed email_free sub_free =
      IsValid-put valid (next_id s.seq) (login_user (next_id s.seq) sub email name verified now)
        (omega arith) (omega arith) (omega arith) (omega arith) fixed
        (λ k w g q. absurd (email_free k w g q)) (λ k w g q. absurd (sub_free k w g q))

module _ (s : Store) (valid : Valid s) where
  adopt-Valid :
      (existing : User) (sub email name : Text) (verified : Bool) (now : Time)
      → s.seq + 1 < u64
      → find_by_sub s sub ≡ none
      → get s.users existing.id ≡ some existing
      → existing.email ≡ email
      → norm email ≡ email
      → Valid (adopt s existing sub email name verified now).0
  unfolding adopt
  adopt-Valid x sub email name verified now room new h at_email fixed =
      elim (Bool-cases (is_bootstrap x || x.email_verified)) [
        | inl b ↦ elim (Bool-cases (not (is_bootstrap x) && not verified)) [
          | inl c ↦ rw b (rw c valid)
          | inr c ↦ rw b (
              rw c (
                replace_user-Valid s valid x
                  (mark_verified verified (record x { sub = sub; name = name })) h (ground arith)
                  (ground (arith, valid.normal x.id x))
                  (λ k w g q. valid.one_email k x.id w x g h (ground arith) ∙ ground arith)
                  (λ k w g q. absurd (find_by_sub-none s sub k w new g (ground arith)))))
        ]
        | inr b ↦ elim (Bool-cases (not verified)) [
          | inl c ↦ rw b (rw c valid)
          | inr c ↦ rw b (
              rw c (
                insert_login-Valid (delete_user_cascade s x.id)
                  (delete_user_cascade-Valid s valid x.id) sub email name verified now room fixed
                  (λ k w g q. ground (arith, get-delete s.users x.id k, valid.one_email k x.id w x))
                  (λ k w g q.
                    find_by_sub-none s sub k w new (ground (arith, get-delete s.users x.id k)) q)))
        ]
      ]

  -- A login keeps one row for each address and each subject.
  pub upsert_user_on_login-Valid :
      (sub email name : Text) (verified : Bool) (now : Time)
      → s.seq + 1 < u64
      → Valid (upsert_user_on_login s sub email name verified now).0
  unfolding upsert_user_on_login
  upsert_user_on_login-Valid sub email name verified now room =
      elim (Option-cases (find_by_sub s sub)) [
        | inr (u, e) ↦
            rw (e, upsert_user_on_login)
              (update_known-Valid s valid u (norm email) name verified
                (find_by_sub-some s valid sub u e).0 (norm-norm email))
        | inl e ↦ elim (Option-cases (find_by_email s (norm email))) [
          | inr (x, m) ↦
              let (h, q) = find_by_email-some s valid (norm email) x m in
              rw (e, m, upsert_user_on_login)
                (adopt-Valid x sub (norm email) name verified now room e h (q ∙ norm-norm email)
                  (norm-norm email))
          | inl m ↦
              rw (e, m, upsert_user_on_login)
                (insert_login-Valid s valid sub (norm email) name verified now room
                  (norm-norm email)
                  (λ k w g q. find_by_email-none s (norm email) k w m g (q ∙ sym (norm-norm email)))
                  (λ k w g q. find_by_sub-none s sub k w e g q))
        ]
      ]
