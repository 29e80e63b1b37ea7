-- ===== src/Memory/Upsert/Safety.antt =====
-- No takeover: what a login leaves alone, and what it returns.
use go_auth_x.Base.{
  Bool, arith, beq_refl, false, list_eq, nat_eq, refl, some, true, ℕ, ◌&&◌, ◌+◌, ◌<◌, ◌≡◌, ◌≢◌,
}
use go_auth_x.Map.{delete, get, get-put}
use go_auth_x.Memory.Erase.{delete_user_cascade}
use go_auth_x.Memory.Store.{Store, User, next_id}
use go_auth_x.Memory.Upsert.{
  insert_login, is_bootstrap, login_user, replace_user, upsert_user_on_login,
}
use go_auth_x.Memory.Upsert.Outcome.{
  Outcome, adopted, created, known, reclaimed, refused, upsert_user_on_login-Outcome,
}
use go_auth_x.Memory.Upsert.Valid.{upsert_user_on_login-Valid}
use go_auth_x.Memory.Users.{user_by_sub, view}
use go_auth_x.Memory.Users.Lookup.{Valid, find_by_sub_unique}
use go_auth_x.Text.{Text, norm, u64}
use go_auth_x.Types.{AuthUser, Result, Time, email_conflict, err, ok}

module _ (s : Store) (sub email name : Text) (now : Time) where
  kept :
      {r : Store × Result AuthUser} (k : ℕ) (w : User)
      → s.seq + 1 < u64
      → Valid s
      → get s.users k ≡ some w
      → w.sub ≢ sub
      → is_bootstrap w ≡ false
      → Outcome s sub email name false now r
      → get r.0.users k ≡ some w
  kept k w room valid g other real (refused e) = rw e g
  kept k w room valid g other real (known u u' h q p e) =
      rw e (ground (arith, get-put s.users u'.id u' k))
  kept k w room valid g other real (adopted x x' h q c p e) =
      rw e (ground (arith, get-put s.users x'.id x' k))
  kept k w room valid g other real (reclaimed x h q c b y e) = absurd (ground arith)
  kept k w room valid g other real (created e m p) = rw p (
      unfold insert_login in
      ground (
        arith,
        get-put s.users (next_id s.seq) (login_user (next_id s.seq) sub (norm email) name false now)
            k,
        valid.issued k w,
      ))

  -- A login whose address is not verified leaves every row as it is but those of its own subject
  -- and the bootstrap placeholders.
  pub unverified_login_keeps :
      (k : ℕ) (w : User)
      → s.seq + 1 < u64
      → Valid s
      → get s.users k ≡ some w
      → w.sub ≢ sub
      → is_bootstrap w ≡ false
      → get (upsert_user_on_login s sub email name false now).0.users k ≡ some w
  unverified_login_keeps k w room valid g other real =
      kept k w room valid g other real
        (upsert_user_on_login-Outcome s valid sub email name false now)

module _ (s : Store) (sub email name : Text) (verified : Bool) (now : Time) where
  -- What a login may answer: a conflict, with nothing changed; or the row that is then found under
  -- the subject, with its address, and marked verified if the login proved it.
  abbrev pub Answers : Store → Result AuthUser → Type 0
  Answers s' (err e) = (s' ≡ s) × (e ≡ email_conflict)
  Answers s' (ok a) =
      (user_by_sub s' sub ≡ ok a)
      × (a.sub ≡ sub)
      × (a.email ≡ norm email)
      × ((verified && a.email_verified) ≡ verified)

  abbrev pub Answer : Store × Result AuthUser → Type 0
  Answer r = Answers r.0 r.1

  Answer-of_row :
      (s' : Store) (u : User)
      → Valid s'
      → get s'.users u.id ≡ some u
      → u.sub ≡ sub
      → u.email ≡ norm email
      → (verified ≡ true → u.email_verified ≡ true)
      → Answer (s', ok (view u))
  unfolding user_by_sub
  Answer-of_row s' u valid g q p c =
      (rw (find_by_sub_unique s' valid sub u.id u g q) refl, q, p, ground (arith, c))

  Answer-of :
      {r : Store × Result AuthUser} → Valid r.0 → Outcome s sub email name verified now r → Answer r
  unfolding insert_login delete_user_cascade
  Answer-of valid (refused e) = rw e (refl, refl)
  Answer-of valid (known u u' h q p e) = rw e (
      Answer-of_row (replace_user s u') u' (rw e at valid)
        (ground (arith, get-put s.users u'.id u' u'.id, beq_refl u'.id)) (ground arith)
        (ground arith) (λ y. ground arith))
  Answer-of valid (adopted x x' h q c p e) = rw e (
      Answer-of_row (replace_user s x') x' (rw e at valid)
        (ground (arith, get-put s.users x'.id x' x'.id, beq_refl x'.id)) (ground arith)
        (ground arith) (λ y. ground arith))
  Answer-of valid (reclaimed x h q c b y e) =
      let u = login_user (next_id s.seq) sub (norm email) name verified now in
      rw e (
        Answer-of_row _ u (rw e at valid)
          (ground (arith, get-put (delete s.users x.id) u.id u u.id, beq_refl u.id)) refl refl
          (λ z. z))
  Answer-of valid (created e m p) =
      let u = login_user (next_id s.seq) sub (norm email) name verified now in
      rw p (
        Answer-of_row _ u (rw p at valid)
          (ground (arith, get-put s.users u.id u u.id, beq_refl u.id)) refl refl (λ z. z))

  -- A login of a valid store either fails with `email_conflict` and changes nothing, or returns the
  -- row that is then found under its subject, with the normal form of its address, and marked
  -- verified if the login proved the address.
  pub upsert_user_on_login-Answer :
      Valid s → s.seq + 1 < u64 → Answer (upsert_user_on_login s sub email name verified now)
  upsert_user_on_login-Answer valid room =
      Answer-of (upsert_user_on_login-Valid s valid sub email name verified now room)
        (upsert_user_on_login-Outcome s valid sub email name verified now)
