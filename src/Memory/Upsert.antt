-- ===== src/Memory/Upsert.antt =====
-- store/memory/memory.go: UpsertUserOnLogin, the safe account-linking rule.
pub mod Safety
pub mod Outcome
pub mod Valid
use go_auth_x.Base.{
  Bool, [], false, if◌then◌else◌, list_eq, nat_eq, none, not, some, true, ℕ, ◌!=◌, ◌&&◌, ◌||◌,
}
use go_auth_x.Map.{put}
use go_auth_x.Memory.Erase.{delete_user_cascade}
use go_auth_x.Memory.Store.{Store, User, next_id}
use go_auth_x.Memory.Users.{blank_user, find_by_email, find_by_sub, view}
use go_auth_x.Text.{Text, codes, has_prefix, norm}
use go_auth_x.Types.{AuthUser, Result, Time, email_conflict, err, ok}

-- The row that a login adds.
abbrev pub login_user : ℕ → Text → Text → Text → Bool → Time → User
login_user id sub email name verified now = record blank_user {
  id = id;
  sub = sub;
  email = email;
  name = name;
  email_verified = verified;
  created_at = now;
  updated_at = now;
}

abbrev pub mark_verified : Bool → User → User
mark_verified verified u = if verified then record u { email_verified = true } else u

abbrev pub is_bootstrap : User → Bool
is_bootstrap u = has_prefix u.sub (codes "bootstrap:")

abbrev pub replace_user : Store → User → Store
replace_user s u = record s { users = put s.users u.id u }

-- Another row owns the address that the row `u` would move to.
abbrev pub is_taken : Store → User → Text → Bool
is_taken s u email =
    email != u.email
    && elim (find_by_email s email) [ none ↦ false | some other ↦ other.id != u.id ]

-- The subject is known: its row takes the address and the name.
unfoldable pub update_known : Store → User → Text → Text → Bool → Store × Result AuthUser
unfolding find_by_email view
update_known s u email name verified =
    if is_taken s u email
    then (s, err email_conflict)
    else let u' = mark_verified verified (record u { email = email; name = name }) in
      (replace_user s u', ok (view u'))

unfoldable pub insert_login : Store → Text → Text → Text → Bool → Time → Store × Result AuthUser
unfolding view
insert_login s sub email name verified now =
    let u = login_user (next_id s.seq) sub email name verified now in
    (record s { seq = next_id s.seq; users = put s.users u.id u }, ok (view u))

-- Another subject's row has the address.
unfoldable pub adopt : Store → User → Text → Text → Text → Bool → Time → Store × Result AuthUser
unfolding view insert_login delete_user_cascade
adopt s existing sub email name verified now =
    if is_bootstrap existing || existing.email_verified
    then (if not (is_bootstrap existing) && not verified
        then (s, err email_conflict)
        else let u' = mark_verified verified (record existing { sub = sub; name = name }) in
          (replace_user s u', ok (view u')))
    else (if not verified
        then (s, err email_conflict)
        else insert_login (delete_user_cascade s existing.id) sub email name verified now)

-- UpsertUserOnLogin
unfoldable pub upsert_user_on_login :
    Store → Text → Text → Text → Bool → Time → Store × Result AuthUser
unfolding find_by_sub find_by_email update_known adopt insert_login
upsert_user_on_login s sub email name verified now =
    let email' = norm email in
    elim (find_by_sub s sub) [
      | some u ↦ update_known s u email' name verified
      | none ↦ elim (find_by_email s email') [
        | some existing ↦ adopt s existing sub email' name verified now
        | none ↦ insert_login s sub email' name verified now
      ]
    ]

-- UpsertExternalUser
unfoldable pub upsert_external_user :
    Store → Text → Text → Text → Bool → Time → Store × Result AuthUser
unfolding upsert_user_on_login
upsert_external_user s sub email name verified now =
    upsert_user_on_login s sub email name verified now

-- authorizer.Authorize: the role is always empty, and the error that of the upsert.
unfoldable pub authorize : Store → Text → Text → Text → Bool → Time → Store × Result Text
unfolding upsert_user_on_login
authorize s subject email name verified now =
    let (s', r) = upsert_user_on_login s subject email name verified now in
    (s', elim r [ ok _ ↦ ok [] | err e ↦ err e ])
