-- ===== src/Memory/Erase.antt =====
-- store/memory/memory.go: deleteUserCascadeLocked and DeleteUser.
pub mod Cascade
use go_auth_x.Base.{
  Option, [], if◌then◌else◌, keep, list_eq, map, nat_eq, none, some, true, ℕ, ◌!=◌, ◌++◌, ◌==◌,
}
use go_auth_x.Map.{change_all, delete, delete_if, get}
use go_auth_x.Memory.Store.{Audit, SessionRec, Store, User}
use go_auth_x.Memory.Users.{with_id}
use go_auth_x.Text.{Text, codes, has_suffix, id_str}

abbrev pub tombstone : Text → SessionRec → SessionRec
tombstone owner r = if r.rec.user_id == owner then record r { revoked = true } else r

-- deleteUserCascadeLocked
unfoldable pub delete_user_cascade : Store → ℕ → Store
delete_user_cascade s id = record s {
  users = delete s.users id;
  passwords = delete s.passwords id;
  memberships = delete s.memberships id;
  totp = delete s.totp id;
  recovery = delete s.recovery id;
  org_members = change_all (λ _ members. delete members id) s.org_members;
  passkeys = delete_if (λ _ pk. pk.user_id == id) s.passkeys;
  oauth = delete_if (λ _ uid. uid == id) s.oauth;
  tokens = keep (λ t. t.user_id != id) s.tokens;
  sessions = change_all (λ _. tombstone (id_str id)) s.sessions;
}

abbrev pub email_of : Option User → Text
email_of none = []
email_of (some u) = u.email

abbrev pub anonymize : ℕ → Audit → Audit
anonymize n a = if a.user_id == n then record a { email = [] } else a

abbrev pub erase_email : Store → Text → Store
erase_email s email =
    if email != []
    then record s {
      otps = delete_if (λ k _. has_suffix k (codes "|" ++ email)) s.otps;
      org_invites = delete_if (λ _ rec. rec.inv.email == email) s.org_invites;
    }
    else s

-- DeleteUser; the error is always nil
unfoldable pub delete_user : Store → Text → Store
unfolding delete_user_cascade
delete_user s user_id = with_id user_id s λ n.
    let s' = erase_email (delete_user_cascade s n) (email_of (get s.users n)) in
    record s' { audits = map (anonymize n) s'.audits }
