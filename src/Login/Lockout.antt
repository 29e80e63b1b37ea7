-- ===== src/Login/Lockout.antt =====
-- password.go: the lockout of PasswordLogin.
use go_auth_x.Base.{
  Bool-cases, List, [], arith, beq_refl, false, inl, inr, keep, length, length-keep-append,
  length-keep_mono, list_eq, nat_eq, refl, some, subst, sym, true, ◌+◌, ◌-◌, ◌∷◌, ◌≡◌, ◌≤◌,
}
use go_auth_x.Login.{Authorizer, Client, LoginConfig, SignIn}
use go_auth_x.Login.Passwords.{is_locked, is_owner_email, lockout_window, password_login}
use go_auth_x.Memory.Audits.{is_failure, recent_failures, record_audit}
use go_auth_x.Memory.Store.{PasswordEntry, Store}
use go_auth_x.Memory.Users.{find_by_email, password_hash, user_by_email}
use go_auth_x.Org.Gate.{Gate, deny}
use go_auth_x.Org.Joining.{norm_email}
use go_auth_x.Password.{PasswordTools}
use go_auth_x.Text.{Bytes, Text, norm, parse_user_id}
use go_auth_x.Types.{AuthUser, Time, ok}

module _ (config : LoginConfig) (authorizer : Authorizer) (tools : PasswordTools) (client : Client)
    (raw : Text) (token_hash : Bytes) (u : AuthUser) (stored : PasswordEntry)
    (ordinary : is_owner_email config (norm_email raw) ≡ false) where
  abbrev address : Text
  address = norm_email raw

  abbrev login : Store → Text → Time → Store × Gate SignIn
  login s pw t =
      password_login config authorizer tools client
        (some (record { email = raw; password = pw; remember = false })) true true token_hash t s

  -- A sequence of attempts, each a password and its time.
  unfoldable pub attempts : Store → List (Text × Time) → Store
  unfolding password_login
  attempts s [] = s
  attempts s ((pw, t) ∷ rest) = attempts (login s pw t).0 rest

  -- The address belongs to the account with the stored hash.
  abbrev IsAccount : Store → Type 0
  IsAccount s = (user_by_email s address ≡ ok u) × (password_hash s u.id ≡ ok stored)

  -- No attempt has the password, and each lies in the window.
  abbrev pub AllWrong : Time → List (Text × Time) → Type 0
  AllWrong since [] = Unit
  AllWrong since ((pw, t) ∷ rest) =
      (tools.compare_password stored.hash pw ≡ false) × (since ≤ t) × AllWrong since rest

  locked_answer :
      (s : Store) (pw : Text) (t : Time)
      → is_locked config s address t ≡ true
      → login s pw t ≡ (s, deny 429)
  unfolding password_login
  locked_answer s pw t h = rw (h, password_login) refl

  wrong_answer :
      (s : Store) (pw : Text) (t : Time)
      → IsAccount s
      → is_locked config s address t ≡ false
      → tools.compare_password stored.hash pw ≡ false
      → login s pw t ≡ (record_audit s u.id address false t, deny 401)
  unfolding password_login
  wrong_answer s pw t (is_u, kept) unlocked wrong =
      rw (unlocked, is_u, kept, wrong, password_login) refl

  failure_counts :
      (s : Store) (since t : Time)
      → since ≤ t
      → recent_failures (record_audit s u.id address false t) address since
        ≡ recent_failures s address since + 1
  unfolding recent_failures record_audit keep
  failure_counts s since t h = ground (
    arith,
    length-keep-append (is_failure address since) s.audits (
        record {
          user_id = parse_user_id u.id;
          email = norm address;
          success = false;
          created_at = t;
        }
        ∷ []),
    beq_refl (norm address),
  )

  older_counts :
      (s : Store) (since : Time) → recent_failures s address since ≤ recent_failures s address 0
  unfolding recent_failures
  older_counts s since =
      length-keep_mono (is_failure address since) (is_failure address 0) s.audits
        λ a h. ground arith

  still-IsAccount :
      (s : Store) (t : Time) → IsAccount s → IsAccount (record_audit s u.id address false t)
  unfolding user_by_email find_by_email password_hash record_audit
  still-IsAccount s t (is_u, kept) = (is_u, kept)

  locked_count :
      (s : Store) (t : Time)
      → is_locked config s address t ≡ true
      → 5 ≤ recent_failures s address (t - lockout_window)
  unfolding is_locked
  locked_count s t h = ground arith

  attempts_lock :
      (since : Time) (s : Store) (gs : List (Text × Time))
      → IsAccount s
      → AllWrong since gs
      → 5 ≤ recent_failures s address since + length gs
      → recent_failures s address 0 ≤ recent_failures s address since
      → 5 ≤ recent_failures (attempts s gs) address since
  unfolding attempts
  attempts_lock since s [] account wrong enough all = omega arith
  attempts_lock since s ((pw, t) ∷ rest) account (wrong, late, others) enough all =
      let Locks =
        λ (p : Store × Gate SignIn). 5 ≤ recent_failures (attempts p.0 rest) address since in
      elim (Bool-cases (is_locked config s address t)) [
        | inl b ↦
            let count = locked_count s t b in
            let older = older_counts s (t - lockout_window) in
            subst Locks (sym (locked_answer s pw t b))
              (attempts_lock since s rest account others (omega arith) all)
        | inr b ↦
            let s' = record_audit s u.id address false t in
            let counted = failure_counts s since t late in
            let counted_all = failure_counts s 0 t (omega arith) in
            subst Locks (sym (wrong_answer s pw t account b wrong)) (
              attempts_lock since s' rest (still-IsAccount s t account) others (omega arith)
                (omega arith))
      ]

  -- After five attempts or more with wrong passwords within the last 15 minutes, on an account of no
  -- owner without earlier failures, the next attempt is refused with 429 and changes nothing,
  -- whatever its password.
  pub five_failures_lock :
      (s : Store) (gs : List (Text × Time)) (now : Time) (pw : Text)
      → user_by_email s (norm_email raw) ≡ ok u
      → password_hash s u.id ≡ ok stored
      → recent_failures s (norm_email raw) 0 ≡ 0
      → AllWrong (now - lockout_window) gs
      → 5 ≤ length gs
      → login (attempts s gs) pw now ≡ (attempts s gs, deny 429)
  unfolding is_locked
  five_failures_lock s gs now pw is_u kept fresh wrong enough =
      let count =
        attempts_lock (now - lockout_window) s gs (is_u, kept) wrong (omega arith) (omega arith) in
      locked_answer (attempts s gs) pw now (ground arith)
