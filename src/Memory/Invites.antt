-- ===== src/Memory/Invites.antt =====
-- store/memory/orgs.go: invitations to an organization.
pub mod Pending
use go_auth_x.Base.{
  Bool, Option, false, if◌then◌else◌, list_eq, nat_eq, none, not, some, true, ℕ, ◌&&◌, ◌==◌,
}
use go_auth_x.Map.{delete, delete_if, find, get, put}
use go_auth_x.Memory.Orgs.{change_at}
use go_auth_x.Memory.Store.{OrgInviteRec, Store, next_id}
use go_auth_x.Memory.Users.{with_id}
use go_auth_x.Text.{Bytes, Text, id_str}
use go_auth_x.Types.{OrgInvite, Result, Time, before, err, no_org, ok, token_invalid}

abbrev pub is_pending_for : Text → Text → OrgInviteRec → Bool
is_pending_for org_id email rec =
    rec.inv.org_id == org_id && (rec.inv.email == email && not rec.consumed)

-- CreateOrgInvite
unfoldable pub create_org_invite :
    Store → Text → Text → Text → Text → Bytes → Time → Time → Store × Result OrgInvite
create_org_invite s org_id email role invited_by token_hash expires_at now =
    with_id org_id (s, err no_org)
      λ n. elim (get s.orgs n) [
        | none ↦ (s, err no_org)
        | some o ↦
            let iid = next_id s.invite_seq in
            let inv : OrgInvite = record {
              id = id_str iid;
              org_id = org_id;
              email = email;
              role = role;
              invited_by = invited_by;
              expires_at = expires_at;
              created_at = now;
            } in
            let rec : OrgInviteRec = record { inv = inv; hash = token_hash; consumed = false } in
            (
              record s {
                invite_seq = iid;
                org_invites =
                    put (delete_if (λ _. is_pending_for org_id email) s.org_invites) iid rec;
              },
              ok inv,
            )
      ]

-- RevokeOrgInvite; the error is always nil
unfoldable pub revoke_org_invite : Store → Text → Text → Store
revoke_org_invite s org_id id = with_id id s λ iid. elim (get s.org_invites iid) [
  | none ↦ s
  | some rec ↦
      if rec.inv.org_id == org_id then record s { org_invites = delete s.org_invites iid } else s
]

abbrev pub is_valid_invite : Bytes → Time → OrgInviteRec → Bool
is_valid_invite token_hash now rec =
    rec.hash == token_hash && (not rec.consumed && before now rec.inv.expires_at)

-- findValidInviteLocked, as the key of the record
unfoldable pub find_valid_invite : Store → Bytes → Time → Option ℕ
find_valid_invite s token_hash now = find (λ _. is_valid_invite token_hash now) s.org_invites

abbrev pub invite_at : Store → ℕ → Result OrgInvite
invite_at s iid = elim (get s.org_invites iid) [ none ↦ err token_invalid | some rec ↦ ok rec.inv ]

-- PeekOrgInvite
unfoldable pub peek_org_invite : Store → Bytes → Time → Result OrgInvite
unfolding find_valid_invite
peek_org_invite s token_hash now = elim (find_valid_invite s token_hash now) [
  | none ↦ err token_invalid
  | some iid ↦ invite_at s iid
]

-- ConsumeOrgInvite
unfoldable pub consume_org_invite : Store → Bytes → Time → Store × Result OrgInvite
unfolding find_valid_invite
consume_org_invite s token_hash now = elim (find_valid_invite s token_hash now) [
  | none ↦ (s, err token_invalid)
  | some iid ↦ (
    record s { org_invites = change_at s.org_invites iid (λ rec. record rec { consumed = true }) },
    invite_at s iid,
  )
]
