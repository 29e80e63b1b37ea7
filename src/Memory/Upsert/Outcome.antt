-- ===== src/Memory/Upsert/Outcome.antt =====
-- The five ends of a login: what the safe linking rule allows.
use go_auth_x.Base.{
  Bool, Bool-cases, Option-cases, arith, false, inl, inr, list_eq, nat_eq, none, not, refl, some,
  true, ◌&&◌, ◌||◌, ◌∙◌, ◌≡◌, ◌⊎◌,
}
use go_auth_x.Map.{get}
use go_auth_x.Memory.Erase.{delete_user_cascade}
use go_auth_x.Memory.Store.{Store, User}
use go_auth_x.Memory.Upsert.{
  adopt, insert_login, is_bootstrap, is_taken, mark_verified, replace_user, update_known,
  upsert_user_on_login,
}
use go_auth_x.Memory.Users.{find_by_email, find_by_sub, view}
use go_auth_x.Memory.Users.Lookup.{Valid, find_by_email-some, find_by_sub-some}
use go_auth_x.Text.{Text, norm}
use go_auth_x.Text.Norm.{norm-norm}
use go_auth_x.Types.{AuthUser, Result, Time, email_conflict, err, ok}

-- What is left of `s` after a login of the subject `sub`, and what the login returns.
pub data Outcome (s : Store) (sub email name : Text) (verified : Bool) (now : Time)
    (r : Store × Result AuthUser) : Type 0 where
  refused : r ≡ (s, err email_conflict) → Outcome s sub email name verified now r
  known :
      (u u' : User)
      → get s.users u.id ≡ some u
      → u.sub ≡ sub
      → u' ≡ mark_verified verified (record u { email = norm email; name = name })
      → r ≡ (replace_user s u', ok (view u'))
      → Outcome s sub email name verified now r
  adopted :
      (x x' : User)
      → get s.users x.id ≡ some x
      → x.email ≡ norm email
      → (is_bootstrap x ≡ true) ⊎ (verified ≡ true)
      → x' ≡ mark_verified verified (record x { sub = sub; name = name })
      → r ≡ (replace_user s x', ok (view x'))
      → Outcome s sub email name verified now r
  reclaimed :
      (x : User)
      → get s.users x.id ≡ some x
      → x.email ≡ norm email
      → x.email_verified ≡ false
      → is_bootstrap x ≡ false
      → verified ≡ true
      → r ≡ insert_login (delete_user_cascade s x.id) sub (norm email) name verified now
      → Outcome s sub email name verified now r
  created :
      find_by_sub s sub ≡ none
      → find_by_email s (norm email) ≡ none
      → r ≡ insert_login s sub (norm email) name verified now
      → Outcome s sub email name verified now r

module _ (s : Store) (valid : Valid s) (sub email name : Text) (verified : Bool) (now : Time) where
  abbrev Ends : Store × Result AuthUser → Type 0
  Ends = Outcome s sub email name verified now

  known-Outcome :
      (u : User) → find_by_sub s sub ≡ some u → Ends (update_known s u (norm email) name verified)
  unfolding update_known
  known-Outcome u e = elim (Bool-cases (is_taken s u (norm email))) [
    | inl b ↦ refused (rw b)
    | inr b ↦ let (h, q) = find_by_sub-some s valid sub u e in known u _ h q refl (rw b)
  ]

  adopt-Outcome :
      (x : User)
      → find_by_email s (norm email) ≡ some x
      → Ends (adopt s x sub (norm email) name verified now)
  unfolding adopt
  adopt-Outcome x e = elim (Bool-cases (is_bootstrap x || x.email_verified)) [
    | inl b ↦ elim (Bool-cases (not (is_bootstrap x) && not verified)) [
      | inl c ↦ refused (rw b (rw c))
      | inr c ↦
          let (h, q) = find_by_email-some s valid (norm email) x e in
          adopted x _ h (q ∙ norm-norm email) (ground arith) refl (rw b (rw c))
    ]
    | inr b ↦ elim (Bool-cases verified) [
      | inr c ↦ refused (rw b (rw c))
      | inl c ↦
          let (h, q) = find_by_email-some s valid (norm email) x e in
          reclaimed x h (q ∙ norm-norm email) (ground arith) (ground arith) c (ground arith)
    ]
  ]

  -- Every login ends in one of the five ways.
  pub upsert_user_on_login-Outcome :
      Outcome s sub email name verified now (upsert_user_on_login s sub email name verified now)
  unfolding upsert_user_on_login
  upsert_user_on_login-Outcome = elim (Option-cases (find_by_sub s sub)) [
    | inr (u, e) ↦ rw (e, upsert_user_on_login) (known-Outcome u e)
    | inl e ↦ elim (Option-cases (find_by_email s (norm email))) [
      | inr (x, m) ↦ rw (e, m, upsert_user_on_login) (adopt-Outcome x m)
      | inl m ↦ created e m (rw (e, m, upsert_user_on_login))
    ]
  ]
