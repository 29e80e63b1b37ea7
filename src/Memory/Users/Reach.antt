-- ===== src/Memory/Users/Reach.antt =====
-- The user table after any history of the methods that write to it.
use go_auth_x.Base.{Bool, Option, list_eq, nat_eq, none, ◌++◌, ◌+◌, ◌<◌, ◌≡◌}
use go_auth_x.Memory.Erase.{delete_user}
use go_auth_x.Memory.Store.{Store, new_store}
use go_auth_x.Memory.Upsert.{upsert_user_on_login}
use go_auth_x.Memory.Upsert.Valid.{delete_user-Valid, upsert_user_on_login-Valid}
use go_auth_x.Memory.Users.{
  create_local_user, ensure_webauthn_handle, find_by_sub, set_email, set_email_verified,
  set_user_ban, set_user_disabled,
}
use go_auth_x.Memory.Users.Invariant.{IsValid-empty}
use go_auth_x.Memory.Users.Lookup.{Valid}
use go_auth_x.Memory.Users.Steps.{
  create_local_user-Valid, ensure_webauthn_handle-Valid, set_email-Valid, set_email_verified-Valid,
  set_user_ban-Valid, set_user_disabled-Valid,
}
use go_auth_x.Text.{Bytes, Text, codes, u64}
use go_auth_x.Types.{Time}

-- The stores that are reached from the empty one. A new row wants a key below 2^64, and a local
-- account a random subject that no row has.
pub data Reachable : Store → Type 0 where
  initial : Reachable new_store
  creates :
      {s : Store} (email name rand : Text) (now : Time)
      → s.seq + 1 < u64
      → find_by_sub s (codes "local:" ++ rand) ≡ none
      → Reachable s
      → Reachable (create_local_user s email name rand now).0
  logs_in :
      {s : Store} (sub email name : Text) (verified : Bool) (now : Time)
      → s.seq + 1 < u64
      → Reachable s
      → Reachable (upsert_user_on_login s sub email name verified now).0
  moves :
      {s : Store} (user_id email : Text) (now : Time)
      → Reachable s
      → Reachable (set_email s user_id email now).0
  verifies :
      {s : Store} (user_id : Text) (verified : Bool) (now : Time)
      → Reachable s
      → Reachable (set_email_verified s user_id verified now)
  disables :
      {s : Store} (user_id : Text) (disabled : Bool)
      → Reachable s
      → Reachable (set_user_disabled s user_id disabled)
  bans :
      {s : Store} (user_id : Text) (banned : Bool) (until : Option Time) (reason : Text)
      → Reachable s
      → Reachable (set_user_ban s user_id banned until reason)
  handles :
      {s : Store} (user_id : Text) (rand : Bytes)
      → Reachable s
      → Reachable (ensure_webauthn_handle s user_id rand).0
  deletes : {s : Store} (user_id : Text) → Reachable s → Reachable (delete_user s user_id)

-- Whatever the history, each key is the identifier of its row and was issued, each address is in
-- normal form, and no two rows share an address or a subject.
pub Reachable-Valid : {s : Store} → Reachable s → Valid s
Reachable-Valid initial = IsValid-empty
Reachable-Valid (creates {s} email name rand now room fresh r) =
    create_local_user-Valid s (Reachable-Valid r) email name rand now room fresh
Reachable-Valid (logs_in {s} sub email name verified now room r) =
    upsert_user_on_login-Valid s (Reachable-Valid r) sub email name verified now room
Reachable-Valid (moves {s} user_id email now r) =
    set_email-Valid s (Reachable-Valid r) user_id email now
Reachable-Valid (verifies {s} user_id verified now r) =
    set_email_verified-Valid s (Reachable-Valid r) user_id verified now
Reachable-Valid (disables {s} user_id disabled r) =
    set_user_disabled-Valid s (Reachable-Valid r) user_id disabled
Reachable-Valid (bans {s} user_id banned until reason r) =
    set_user_ban-Valid s (Reachable-Valid r) user_id banned until reason
Reachable-Valid (handles {s} user_id rand r) =
    ensure_webauthn_handle-Valid s (Reachable-Valid r) user_id rand
Reachable-Valid (deletes {s} user_id r) = delete_user-Valid s (Reachable-Valid r) user_id
