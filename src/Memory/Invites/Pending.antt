-- ===== src/Memory/Invites/Pending.antt =====
-- Invitations: one pending for each address of an organization, each accepted at most once.
use go_auth_x.Base.{
  Option-cases, ap, arith, false, inl, inr, list_beq_iff, list_eq, nat_eq, none, refl, some, true,
  ℕ, ◌+◌, ◌<◌, ◌≡◌, ◌≤◌,
}
use go_auth_x.Map.{Map, delete_if, find, find_sound, get, get-delete_if, get-put, put}
use go_auth_x.Memory.Invites.{
  consume_org_invite, create_org_invite, find_valid_invite, is_pending_for, is_valid_invite,
}
use go_auth_x.Memory.Orgs.{change_at}
use go_auth_x.Memory.Store.{OrgInviteRec, Store, next_id}
use go_auth_x.Memory.Users.{with_id}
use go_auth_x.Text.{Bytes, Text, id_str, parse_id, u64}
use go_auth_x.Types.{OrgInvite, Time, err, ok, token_invalid}

pub record IsValidInvites (seq : ℕ) (invites : Map ℕ OrgInviteRec) : Type 0 where
  pub issued : (k : ℕ) (rec : OrgInviteRec) → get invites k ≡ some rec → k ≤ seq
  pub one_pending :
      (j k : ℕ) (a b : OrgInviteRec)
      → get invites j ≡ some a
      → get invites k ≡ some b
      → a.consumed ≡ false
      → b.consumed ≡ false
      → a.inv.org_id ≡ b.inv.org_id
      → a.inv.email ≡ b.inv.email
      → j ≡ k

-- Inviting an address again replaces its pending invitation, so that there is never a second one.
pub create_org_invite-IsValidInvites :
    (s : Store) (org_id email role invited_by : Text) (token_hash : Bytes) (expires_at now : Time)
    → IsValidInvites s.invite_seq s.org_invites
    → s.invite_seq + 1 < u64
    → let s' = (create_org_invite s org_id email role invited_by token_hash expires_at now).0 in
      IsValidInvites s'.invite_seq s'.org_invites
unfolding create_org_invite
create_org_invite-IsValidInvites s org_id email role invited_by token_hash expires_at now valid
      room =
    elim (Option-cases (parse_id org_id)) [
      | inl e ↦ rw (e, with_id) valid
      | inr (n, e) ↦ elim (Option-cases (get s.orgs n)) [
        | inl m ↦ rw (e, with_id) (rw m valid)
        | inr (o, m) ↦
            let iid = next_id s.invite_seq in
            let rec : OrgInviteRec = record {
              inv = record {
                id = id_str iid;
                org_id = org_id;
                email = email;
                role = role;
                invited_by = invited_by;
                expires_at = expires_at;
                created_at = now;
              };
              hash = token_hash;
              consumed = false;
            } in
            let rest = delete_if (λ _. is_pending_for org_id email) s.org_invites in
            let left = get-delete_if (λ _. is_pending_for org_id email) s.org_invites in
            rw (e, with_id)
              (rw m (record {
                issued = λ k a h. ground (arith, get-put rest iid rec k, left k, valid.issued k a);
                one_pending = λ j k a b hj hk ca cb o' e'. ground (
                  arith,
                  get-put rest iid rec j,
                  get-put rest iid rec k,
                  left j,
                  left k,
                  valid.one_pending j k a b,
                  list_beq_iff a.inv.org_id org_id,
                  list_beq_iff a.inv.email email,
                  list_beq_iff b.inv.org_id org_id,
                  list_beq_iff b.inv.email email,
                );
              }))
      ]
    ]

-- No two invitations have the same token.
abbrev pub OneHash : Store → Type 0
OneHash s =
    (j k : ℕ) (a b : OrgInviteRec)
    → get s.org_invites j ≡ some a
    → get s.org_invites k ≡ some b
    → a.hash ≡ b.hash
    → j ≡ k

absent_is_refused :
    (s : Store) (token_hash : Bytes) (now : Time)
    → find_valid_invite s token_hash now ≡ none
    → consume_org_invite s token_hash now ≡ (s, err token_invalid)
unfolding consume_org_invite
absent_is_refused s token_hash now e = rw (e, consume_org_invite) refl

accepted :
    (s : Store) (token_hash : Bytes) (now : Time) (inv : OrgInvite)
    → (consume_org_invite s token_hash now).1 ≡ ok inv
    → (iid : ℕ) × (rec : OrgInviteRec) × (get s.org_invites iid ≡ some rec)
      × (rec.hash ≡ token_hash)
      × ((consume_org_invite s token_hash now).0.org_invites
          ≡ put s.org_invites iid (record rec { consumed = true }))
unfolding consume_org_invite find_valid_invite
accepted s token_hash now inv h =
    elim (Option-cases (find (λ _. is_valid_invite token_hash now) s.org_invites)) [
      | inl e ↦ absurd (ground arith)
      | inr (iid, e) ↦
          let (rec, g, q) = find_sound (λ _. is_valid_invite token_hash now) s.org_invites iid e in
          (
            iid,
            rec,
            g,
            ground (arith, list_beq_iff rec.hash token_hash),
            rw (e, consume_org_invite, find_valid_invite) (rw (g, change_at) refl),
          )
    ]

-- An invitation that was accepted is refused from then on, and nothing changes.
pub consume_org_invite_once :
    (s : Store) (token_hash : Bytes) (now later : Time) (inv : OrgInvite)
    → OneHash s
    → (consume_org_invite s token_hash now).1 ≡ ok inv
    → consume_org_invite (consume_org_invite s token_hash now).0 token_hash later
      ≡ ((consume_org_invite s token_hash now).0, err token_invalid)
consume_org_invite_once s token_hash now later inv one h =
    let s' = (consume_org_invite s token_hash now).0 in
    let (iid, rec, g, q, e) = accepted s token_hash now inv h in
    absent_is_refused s' token_hash later
      (elim (Option-cases (find_valid_invite s' token_hash later)) [
        | inl free ↦ free
        | inr (k, found) ↦
            let (x, gx, qx) =
              find_sound (λ _. is_valid_invite token_hash later) s'.org_invites k
                (unfold find_valid_invite in found) in
            absurd (
              ground (
                arith,
                ap (λ (m : Map ℕ OrgInviteRec). get m k) e,
                get-put s.org_invites iid (record rec { consumed = true }) k,
                one iid k rec x,
                list_beq_iff x.hash token_hash,
              ))
      ])
