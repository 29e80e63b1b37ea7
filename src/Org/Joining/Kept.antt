-- ===== src/Org/Joining/Kept.antt =====
-- What an invitation does to the roles that members have.
use go_auth_x.Base.{
  Bool-cases, Option, Option-cases, [], ap, arith, inl, inr, list_eq, nat_beq_iff, nat_eq, none,
  refl, some, ℕ, ◌!=◌, ◌==◌, ◌≡◌, ◌⊎◌,
}
use go_auth_x.Map.{get, get-put, put}
use go_auth_x.Memory.Audits.{record_audit}
use go_auth_x.Memory.Invites.{consume_org_invite, peek_org_invite}
use go_auth_x.Memory.Orgs.{members_of, org_by_id, org_role, set_org_member}
use go_auth_x.Memory.Orgs.Membership.{org_role_by, set_missing, set_state}
use go_auth_x.Memory.Store.{OrgRec, Store}
use go_auth_x.Memory.Users.{set_email_verified, user_by_sub, with_id}
use go_auth_x.Org.Joining.{grant, land, norm_email, org_invite_accept, redeem_invite}
use go_auth_x.Session.{SessionClaims}
use go_auth_x.Text.{Bytes, Text, parse_id}
use go_auth_x.Types.{
  AuthUser, Org, OrgInvite, Result, Result-cases, Time, duplicate_credential, duplicate_group,
  duplicate_oauth, duplicate_org, email_conflict, err, no_credential, no_group, no_org, no_user,
  not_org_member, oauth_not_found, oauth_token_used, ok, token_invalid, user_blocked,
}

-- Whoever has a role in an organization keeps it.
abbrev pub KeepsRoles : Store → Store → Type 0
KeepsRoles s s' =
    (m v : ℕ) (role : Text)
    → get (members_of s m) v ≡ some role
    → get (members_of s' m) v ≡ some role

same_members : (s s' : Store) → s'.org_members ≡ s.org_members → KeepsRoles s s'
same_members s s' e m v role h = rw e h

put_new :
    (s : Store) (n k : ℕ) (role : Text)
    → get (members_of s n) k ≡ none
    → KeepsRoles s (record s { org_members = put s.org_members n (put (members_of s n) k role) })
put_new s n k role absent m v old h = ground (
  arith,
  get-put s.org_members n (put (members_of s n) k role) m,
  get-put (members_of s n) k role v,
  nat_beq_iff n m,
  nat_beq_iff k v,
)

pub no_role :
    (s : Store) (org_id uid : Text) (n k : ℕ) (o : OrgRec)
    → parse_id org_id ≡ some n
    → parse_id uid ≡ some k
    → get s.orgs n ≡ some o
    → org_role s org_id uid ≡ err not_org_member
    → get (members_of s n) k ≡ none
no_role s org_id uid n k o e eu eo h = elim (Option-cases (get (members_of s n) k)) [
  | inl absent ↦ absent
  | inr (role, row) ↦
      let has = org_role_by org_id uid n k e eu s o (ok role) eo (rw row refl) in
      absurd (ground arith)
]

set_org_member-KeepsRoles :
    (s : Store) (org_id uid role : Text)
    → org_role s org_id uid ≡ err not_org_member
    → KeepsRoles s (set_org_member s org_id uid role).0
unfolding set_org_member
set_org_member-KeepsRoles s org_id uid role h m v old held = elim (Option-cases (parse_id org_id)) [
  | inl e ↦ rw (e, set_org_member, with_id) held
  | inr (n, e) ↦ elim (Option-cases (get s.orgs n)) [
    | inl eo ↦ rw (e, eo, set_org_member, with_id) held
    | inr (o, eo) ↦ elim (Option-cases (parse_id uid)) [
      | inl eu ↦ rw (e, eo, eu, set_org_member, with_id) held
      | inr (k, eu) ↦ elim (Option-cases (get s.users k)) [
        | inl missing ↦ rw (set_missing org_id uid n k e eu s role o eo missing) held
        | inr (u, row) ↦
            rw (set_state org_id uid n k e eu s role o u eo row)
              (put_new s n k role (no_role s org_id uid n k o e eu eo h) m v old held)
      ]
    ]
  ]
]

grant_cases :
    (s : Store) (org_id uid : Text) (r : Result Text) (role : Text)
    → ((grant s org_id uid r role).0 ≡ s) ⊎ (r ≡ err not_org_member)
grant_cases s org_id uid (ok r) role = inl refl
grant_cases s org_id uid (err not_org_member) role = inr refl
grant_cases s org_id uid (err no_user) role = inl refl
grant_cases s org_id uid (err no_credential) role = inl refl
grant_cases s org_id uid (err token_invalid) role = inl refl
grant_cases s org_id uid (err email_conflict) role = inl refl
grant_cases s org_id uid (err user_blocked) role = inl refl
grant_cases s org_id uid (err no_group) role = inl refl
grant_cases s org_id uid (err no_org) role = inl refl
grant_cases s org_id uid (err oauth_not_found) role = inl refl
grant_cases s org_id uid (err oauth_token_used) role = inl refl
grant_cases s org_id uid (err duplicate_credential) role = inl refl
grant_cases s org_id uid (err duplicate_group) role = inl refl
grant_cases s org_id uid (err duplicate_org) role = inl refl
grant_cases s org_id uid (err duplicate_oauth) role = inl refl

grant-KeepsRoles :
    (s : Store) (org_id uid role : Text)
    → KeepsRoles s (grant s org_id uid (org_role s org_id uid) role).0
grant-KeepsRoles s org_id uid role = elim (grant_cases s org_id uid (org_role s org_id uid) role) [
  | inl e ↦
      same_members s (grant s org_id uid (org_role s org_id uid) role).0 (ap (λ t. t.org_members) e)
  | inr e ↦ rw e (set_org_member-KeepsRoles s org_id uid role e)
]

land-members :
    (secret : Bytes) (sc : SessionClaims) (u : AuthUser) (org_id : Text) (s : Store)
    (r : Result Text) (now : Time)
    → (land secret sc u org_id (s, r) now).0.org_members ≡ s.org_members
unfolding set_email_verified record_audit
land-members secret sc u org_id s (ok role) now = ground arith
land-members secret sc u org_id s (err e) now = refl

consume-members :
    (s : Store) (hash : Bytes) (now : Time)
    → (consume_org_invite s hash now).0.org_members ≡ s.org_members
unfolding consume_org_invite
consume-members s hash now = ground arith

redeem-KeepsRoles :
    (s : Store) (secret : Bytes) (sc : SessionClaims) (u : AuthUser) (o : Org) (hash : Bytes)
    (inv : OrgInvite) (now : Time)
    → KeepsRoles s (redeem_invite s secret sc u o hash inv now).0
unfolding redeem_invite
redeem-KeepsRoles s secret sc u o hash inv now m v role h =
    let s' = (consume_org_invite s hash now).0 in
    let kept : get (members_of s' m) v ≡ some role =
      same_members s s' (consume-members s hash now) m v role h in
    let granted = grant s' o.id u.id (org_role s' o.id u.id) inv.role in
    let held = grant-KeepsRoles s' o.id u.id inv.role m v role kept in
    elim (Result-cases (consume_org_invite s hash now).1) [
      | inr (x, e) ↦ rw (redeem_invite, e) kept
      | inl (used, e) ↦
          rw (redeem_invite, e)
            (same_members granted.0 (land secret sc u o.id granted now).0
              (land-members secret sc u o.id granted.0 granted.1 now) m v role held)
    ]

-- OrgInviteAccept changes no role that is held in any organization: an old invitation neither
-- demotes nor promotes a member.
pub org_invite_accept_keeps :
    (s : Store) (secret : Bytes) (session : Option SessionClaims) (token : Text) (hash : Bytes)
    (now : Time) (m v : ℕ) (role : Text)
    → get (members_of s m) v ≡ some role
    → get (members_of (org_invite_accept s secret session token hash now).0 m) v ≡ some role
unfolding org_invite_accept
org_invite_accept_keeps s secret session token hash now m v role h =
    elim (Bool-cases (token == [])) [
      | inl b ↦ rw (org_invite_accept, b) h
      | inr b ↦ elim (Option-cases session) [
        | inl e ↦ rw (org_invite_accept, b, e) h
        | inr (sc, e) ↦ elim (Result-cases (user_by_sub s sc.subject)) [
          | inr (x, eu) ↦ rw (org_invite_accept, b, e, eu) h
          | inl (u, eu) ↦ elim (Result-cases (peek_org_invite s hash now)) [
            | inr (x, ei) ↦ rw (org_invite_accept, b, e, eu, ei) h
            | inl (inv, ei) ↦ elim (Bool-cases (norm_email u.email != norm_email inv.email)) [
              | inl d ↦ rw (org_invite_accept, b, e, eu, ei, d) h
              | inr d ↦ elim (Result-cases (org_by_id s inv.org_id)) [
                | inr (x, eo) ↦ rw (org_invite_accept, b, e, eu, ei, d, eo) h
                | inl (o, eo) ↦
                    rw (org_invite_accept, b, e, eu, ei, d, eo)
                      (redeem-KeepsRoles s secret sc u o hash inv now m v role h)
              ]
            ]
          ]
        ]
      ]
    ]
