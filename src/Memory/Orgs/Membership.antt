-- ===== src/Memory/Orgs/Membership.antt =====
-- Membership of an organization, and what ends it.
use go_auth_x.Base.{
  Bool, Eq, Option-cases, arith, beq_refl, false, if◌then◌else◌, inl, inr, list_eq, nat_eq, none,
  refl, some, ℕ, ◌≡◌, ◌≢◌,
}
use go_auth_x.Map.{
  Map, delete, delete_if, get, get-delete, get-delete_if, get-empty, get-put, map_option, put,
}
use go_auth_x.Memory.Groups.{is_member}
use go_auth_x.Memory.Orgs.{
  belongs_to, change_at, members_of, org_role, remove_org_member, set_org_member,
}
use go_auth_x.Memory.Store.{OrgRec, Store, User}
use go_auth_x.Memory.Users.{with_id}
use go_auth_x.Text.{Text, parse_id}
use go_auth_x.Types.{Group, Result, err, no_user, not_org_member, ok, ok_or}

pub get-change_at {ℓ κ} :
    {K : Type ℓ} {V : Type κ} ⦃e : Eq K⦄ (m : Map K V) (k : K) (f : V → V) (j : K)
    → get (change_at m k f) j ≡ (if e.beq k j then map_option f (get m j) else get m j)
get-change_at ⦃e⦄ m k f j = elim (Option-cases (get m k)) [
  | inl h ↦ rw (h, change_at) (ground (arith, e.beq_iff k j))
  | inr (v, h) ↦ rw (h, change_at) (ground (arith, get-put m k (f v) j, e.beq_iff k j))
]

module _ (org_id user_id : Text) (n uid : ℕ) (eo : parse_id org_id ≡ some n)
    (eu : parse_id user_id ≡ some uid) where
  pub org_role_by :
      (s : Store) (o : OrgRec) (r : Result Text)
      → get s.orgs n ≡ some o
      → ok_or (get (members_of s n) uid) not_org_member ≡ r
      → org_role s org_id user_id ≡ r
  unfolding org_role
  org_role_by s o r h e = rw (eo, with_id) (rw h (rw (eu, with_id) e))

  pub set_state :
      (s : Store) (role : Text) (o : OrgRec) (u : User)
      → get s.orgs n ≡ some o
      → get s.users uid ≡ some u
      → set_org_member s org_id user_id role
        ≡ (record s { org_members = put s.org_members n (put (members_of s n) uid role) }, ok tt)
  unfolding set_org_member
  set_state s role o u ho hu = rw (eo, with_id) (rw ho (rw (eu, with_id) (rw hu refl)))

  pub set_missing :
      (s : Store) (role : Text) (o : OrgRec)
      → get s.orgs n ≡ some o
      → get s.users uid ≡ none
      → set_org_member s org_id user_id role ≡ (s, err no_user)
  unfolding set_org_member
  set_missing s role o ho hu = rw (eo, with_id) (rw ho (rw (eu, with_id) (rw hu refl)))

  -- The test of RemoveOrgMember on a group of a membership set.
  abbrev pub is_dropped : Store → ℕ → Bool → Bool
  is_dropped s gid _ = elim (get s.groups gid) [ none ↦ false | some g ↦ belongs_to n g ]

  pub remove_state :
      (s : Store)
      → remove_org_member s org_id user_id ≡ record s {
        org_members = change_at s.org_members n (λ set. delete set uid);
        memberships = change_at s.memberships uid (delete_if (is_dropped s));
      }
  unfolding remove_org_member
  remove_state s = rw (eo, with_id) (rw (eu, with_id) refl)

  -- A member has the role that was set last.
  pub org_role-set_org_member :
      (s : Store) (role : Text) (o : OrgRec) (u : User)
      → get s.orgs n ≡ some o
      → get s.users uid ≡ some u
      → org_role (set_org_member s org_id user_id role).0 org_id user_id ≡ ok role
  org_role-set_org_member s role o u ho hu = rw (set_state s role o u ho hu) (
      org_role_by _ o _ ho (
        ground (
          arith,
          get-put s.org_members n (put (members_of s n) uid role) n,
          get-put (members_of s n) uid role uid,
          beq_refl n,
          beq_refl uid,
        )))

  pub org_role-remove_org_member :
      (s : Store) (o : OrgRec)
      → get s.orgs n ≡ some o
      → org_role (remove_org_member s org_id user_id) org_id user_id ≡ err not_org_member
  org_role-remove_org_member s o ho = rw (remove_state s) (
      org_role_by _ o _ ho (elim (Option-cases (get s.org_members n)) [
        | inl e ↦ ground (
          arith,
          get-change_at s.org_members n (λ set. delete set uid) n,
          beq_refl n,
          get-empty {V = Text} uid,
        )
        | inr (set, e) ↦ ground (
          arith,
          get-change_at s.org_members n (λ set. delete set uid) n,
          beq_refl n,
          get-delete set uid uid,
          beq_refl uid,
        )
      ]))

  is_member-remove_org_member :
      (s : Store) (gid : ℕ) (g : Group)
      → get s.groups gid ≡ some g
      → parse_id g.org_id ≡ some n
      → is_member (remove_org_member s org_id user_id) uid gid ≡ false
  unfolding is_member
  is_member-remove_org_member s gid g hg hp =
      rw (remove_state s) (elim (Option-cases (get s.memberships uid)) [
        | inl e ↦ ground (
          arith,
          get-change_at s.memberships uid (delete_if (is_dropped s)) uid,
          beq_refl uid,
          get-empty {V = Bool} gid,
        )
        | inr (set, e) ↦ ground (
          arith,
          get-change_at s.memberships uid (delete_if (is_dropped s)) uid,
          beq_refl uid,
          get-delete_if (is_dropped s) set gid,
          beq_refl n,
        )
      ])

  -- After RemoveOrgMember with well-formed identifiers of an existing organization, the user has no
  -- role in it, and is in none of its groups, however a group spells the organization.
  pub remove_org_member-leaves :
      (s : Store) (o : OrgRec) (gid : ℕ) (g : Group)
      → get s.orgs n ≡ some o
      → get s.groups gid ≡ some g
      → parse_id g.org_id ≡ some n
      → let s' = remove_org_member s org_id user_id in
        (org_role s' org_id user_id ≡ err not_org_member) × (is_member s' uid gid ≡ false)
  remove_org_member-leaves s o gid g ho hg hp =
      (org_role-remove_org_member s o ho, is_member-remove_org_member s gid g hg hp)

  -- Another user keeps his roles and groups.
  pub others-remove_org_member :
      (s : Store) (o v : ℕ)
      → v ≢ uid
      → (get (members_of (remove_org_member s org_id user_id) o) v ≡ get (members_of s o) v)
        × (get (remove_org_member s org_id user_id).memberships v ≡ get s.memberships v)
  others-remove_org_member s o v other = rw (remove_state s) (
    elim (Option-cases (get s.org_members o)) [
      | inl e ↦ ground (arith, get-change_at s.org_members n (λ set. delete set uid) o)
      | inr (set, e) ↦
          ground
            (arith, get-change_at s.org_members n (λ set. delete set uid) o, get-delete set uid v)
    ],
    ground (arith, get-change_at s.memberships uid (delete_if (is_dropped s)) v),
  )
