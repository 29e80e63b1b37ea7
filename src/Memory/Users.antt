-- ===== src/Memory/Users.antt =====
-- store/memory/memory.go and directory.go: user rows and passwords.
pub mod Reach
pub mod Invariant
pub mod Lookup
pub mod Steps
use go_auth_x.Base.{
  Bool, Option, Option-cases, [], false, if◌then◌else◌, inl, inr, list_eq, nat_eq, none, some, true,
  ℕ, ◌!=◌, ◌&&◌, ◌++◌, ◌==◌, ◌||◌, ◌≡◌,
}
use go_auth_x.Map.{find_value, get, put}
use go_auth_x.Memory.Store.{PasswordEntry, Store, User, next_id}
use go_auth_x.Text.{Bytes, Text, codes, id_str, norm, parse_id}
use go_auth_x.Types.{
  AuthUser, Result, Time, before, email_conflict, err, is_zero, no_credential, no_user, ok, ok_or,
}

-- if n, ok := parseID(s); !ok { return miss }
abbrev pub with_id {ℓ} : {A : Type ℓ} → Text → A → (ℕ → A) → A
with_id s miss f = elim (parse_id s) [ none ↦ miss | some n ↦ f n ]

pub with_id_cases {ℓ κ} :
    {A : Type ℓ} (P : A → Type κ) (s : Text) {miss : A} {f : ℕ → A}
    → P miss
    → ((n : ℕ) → parse_id s ≡ some n → P (f n))
    → P (with_id s miss f)
with_id_cases P s missed hit = elim (Option-cases (parse_id s)) [
  | inl e ↦ rw (e, with_id) missed
  | inr (n, e) ↦ rw (e, with_id) (hit n e)
]

-- view
unfoldable pub view : User → AuthUser
view u = record {
  id = id_str u.id;
  sub = u.sub;
  email = u.email;
  name = u.name;
  email_verified = u.email_verified;
  disabled = u.disabled;
  banned = u.banned;
  banned_until = u.banned_until;
  ban_reason = u.ban_reason;
  created_at = u.created_at;
  updated_at = u.updated_at;
}

abbrev pub view_or {ℓ} : {A : Type ℓ} → Option User → (AuthUser → A) → A → A
view_or none f e = e
view_or (some u) f e = f (view u)

-- findByEmail
unfoldable pub find_by_email : Store → Text → Option User
find_by_email s email = find_value (λ u. u.email == norm email) s.users

-- findBySub
unfoldable pub find_by_sub : Store → Text → Option User
find_by_sub s sub = find_value (λ u. u.sub == sub) s.users

-- UserByEmail
unfoldable pub user_by_email : Store → Text → Result AuthUser
unfolding view
user_by_email s email = view_or (find_by_email s email) ok (err no_user)

-- UserBySub
unfoldable pub user_by_sub : Store → Text → Result AuthUser
unfolding view
user_by_sub s sub = view_or (find_by_sub s sub) ok (err no_user)

-- UserByID
unfoldable pub user_by_id : Store → Text → Result AuthUser
unfolding view
user_by_id s id = with_id id (err no_user) λ n. view_or (get s.users n) ok (err no_user)

abbrev pub blank_user : User
blank_user = record {
  id = 0;
  sub = [];
  email = [];
  name = [];
  email_verified = false;
  disabled = false;
  banned = false;
  banned_until = 0;
  ban_reason = [];
  webauthn_handle = [];
  created_at = 0;
  updated_at = 0;
}

-- The row that CreateLocalUser adds.
abbrev pub local_user : ℕ → Text → Text → Text → Time → User
local_user id rand email name now = record blank_user {
  id = id;
  sub = codes "local:" ++ rand;
  email = norm email;
  name = name;
  created_at = now;
  updated_at = now;
}

-- CreateLocalUser; `rand` is what randID returns
unfoldable pub create_local_user : Store → Text → Text → Text → Time → Store × Result AuthUser
unfolding find_by_email view
create_local_user s email name rand now = elim (find_by_email s email) [
  | some other ↦ (s, err email_conflict)
  | none ↦
      let u = local_user (next_id s.seq) rand email name now in
      (record s { seq = next_id s.seq; users = put s.users u.id u }, ok (view u))
]

-- if u := s.users[n]; u != nil { *u = f(*u) }
abbrev pub change_user : Store → ℕ → (User → User) → Store
change_user s n f = elim (get s.users n) [
  | none ↦ s
  | some u ↦ record s { users = put s.users n (f u) }
]

-- SetEmailVerified; the error is always nil
unfoldable pub set_email_verified : Store → Text → Bool → Time → Store
set_email_verified s user_id verified now =
    with_id user_id s
      λ n. change_user s n λ u. record u { email_verified = verified; updated_at = now }

-- SetEmail
unfoldable pub set_email : Store → Text → Text → Time → Store × Result (Unit {0})
set_email s user_id new_email now =
    with_id user_id (s, ok tt)
      λ n. elim (find_value (λ u. u.email == norm new_email && u.id != n) s.users) [
        | some other ↦ (s, err email_conflict)
        | none ↦ (
          change_user s n
              (λ u. record u { email = norm new_email; email_verified = true; updated_at = now }),
          ok tt,
        )
      ]

-- EnsureWebauthnHandle; `rand` is the 32 random bytes
unfoldable pub ensure_webauthn_handle : Store → Text → Bytes → Store × Result Bytes
ensure_webauthn_handle s user_id rand =
    with_id user_id (s, err no_user)
      λ n. elim (get s.users n) [
        | none ↦ (s, err no_user)
        | some u ↦
            if u.webauthn_handle == []
            then (record s { users = put s.users n (record u { webauthn_handle = rand }) }, ok rand)
            else (s, ok u.webauthn_handle)
      ]

-- UserByWebauthnHandle
unfoldable pub user_by_webauthn_handle : Store → Bytes → Result AuthUser
unfolding view
user_by_webauthn_handle s handle =
    view_or (find_value (λ u. u.webauthn_handle == handle) s.users) ok (err no_user)

-- SetUserDisabled; the error is always nil
unfoldable pub set_user_disabled : Store → Text → Bool → Store
set_user_disabled s user_id disabled =
    with_id user_id s λ n. change_user s n λ u. record u { disabled = disabled }

abbrev pub until_or_zero : Option Time → Time
until_or_zero none = 0
until_or_zero (some t) = t

-- SetUserBan; the error is always nil
unfoldable pub set_user_ban : Store → Text → Bool → Option Time → Text → Store
set_user_ban s user_id banned until reason = with_id user_id s λ n. change_user s n λ u.
    if banned
    then record u { banned = true; ban_reason = reason; banned_until = until_or_zero until }
    else record u { banned = false; ban_reason = []; banned_until = 0 }

-- AuthUser.loginBlocked of credstore.go, without the text of the reason
unfoldable pub login_blocked : AuthUser → Time → Bool
login_blocked u now =
    u.disabled || (u.banned && (is_zero u.banned_until || before now u.banned_until))

-- PasswordHash
unfoldable pub password_hash : Store → Text → Result PasswordEntry
password_hash s user_id =
    with_id user_id (err no_credential) λ n. ok_or (get s.passwords n) no_credential

-- SetPasswordHash; the error is always nil
unfoldable pub set_password_hash : Store → Text → Text → Text → Store
set_password_hash s user_id hash algo =
    with_id user_id s
      λ n. record s { passwords = put s.passwords n (record { hash = hash; algo = algo }) }
