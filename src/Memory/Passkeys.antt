-- ===== src/Memory/Passkeys.antt =====
-- store/memory/memory.go: passkeys.
pub mod Counts
use go_auth_x.Base.{Bool, if◌then◌else◌, list_eq, ltb, nat_eq, none, some, ℕ, ◌==◌}
use go_auth_x.Map.{change_all, delete, find, get, put}
use go_auth_x.Memory.Store.{Store, StoredPasskey, next_id}
use go_auth_x.Memory.Users.{with_id}
use go_auth_x.Text.{Bytes, Text, id_str}
use go_auth_x.Types.{Passkey, Result, Time, duplicate_credential, err, no_user, ok}

abbrev pub same_credential : Bytes → ℕ → StoredPasskey → Bool
same_credential credential_id _ pk = pk.p.credential_id == credential_id

-- AddPasskey
unfoldable pub add_passkey : Store → Text → Passkey → Time → Store × Result (Unit {0})
add_passkey s user_id p now =
    with_id user_id (s, err no_user)
      λ n. elim (find (same_credential p.credential_id) s.passkeys) [
        | some other ↦ (s, err duplicate_credential)
        | none ↦
            let id = next_id s.pk_seq in
            let p' = record p { id = id_str id; created_at = now; last_used_at = now } in
            (
              record s {
                pk_seq = id;
                passkeys = put s.passkeys id (record { p = p'; user_id = n });
              },
              ok tt,
            )
      ]

-- The row of a passkey after an assertion: a count never falls.
unfoldable pub touch : Bytes → ℕ → Time → StoredPasskey → StoredPasskey
touch credential_id sign_count now pk =
    if pk.p.credential_id == credential_id
    then record pk {
      p = record (pk.p) {
        sign_count = if ltb pk.p.sign_count sign_count then sign_count else pk.p.sign_count;
        last_used_at = now;
      };
    }
    else pk

-- TouchPasskey; the error is always nil
unfoldable pub touch_passkey : Store → Bytes → ℕ → Time → Store
unfolding touch
touch_passkey s credential_id sign_count now = record s {
  passkeys = change_all (λ _. touch credential_id sign_count now) s.passkeys;
}

-- RemovePasskey; the error is always nil
unfoldable pub remove_passkey : Store → Text → Text → Store
remove_passkey s user_id id = with_id user_id s λ uid. with_id id s λ pid.
    elim (get s.passkeys pid) [
      | none ↦ s
      | some pk ↦ if pk.user_id == uid then record s { passkeys = delete s.passkeys pid } else s
    ]

-- RenamePasskey; the error is always nil
unfoldable pub rename_passkey : Store → Text → Text → Text → Store
rename_passkey s user_id id name = with_id user_id s λ uid. with_id id s λ pid.
    elim (get s.passkeys pid) [
      | none ↦ s
      | some pk ↦
          if pk.user_id == uid
          then record s {
            passkeys = put s.passkeys pid (record pk { p = record (pk.p) { name = name } });
          }
          else s
    ]
