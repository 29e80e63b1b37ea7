-- ===== src/Memory/Orgs.antt =====
-- store/memory/orgs.go: organizations and their members.
pub mod Deletion
pub mod Membership
use go_auth_x.Base.{Bool, Eq, Option, false, list_eq, nat_eq, none, some, ℕ, ◌==◌}
use go_auth_x.Map.{Map, change_all, delete, delete_if, empty, find_value, get, put}
use go_auth_x.Memory.Store.{OrgRec, Store, next_id}
use go_auth_x.Memory.Users.{with_id}
use go_auth_x.Text.{Text, id_str, parse_id}
use go_auth_x.Types.{
  Group, Org, Result, Time, duplicate_org, err, no_org, no_user, not_org_member, ok, ok_or,
}

-- org.view
unfoldable pub view_org : OrgRec → Org
view_org o = record {
  id = id_str o.id;
  slug = o.slug;
  name = o.name;
  created_at = o.created_at;
  updated_at = o.updated_at;
}

-- CreateOrg
unfoldable pub create_org : Store → Text → Text → Time → Store × Result Org
unfolding view_org
create_org s slug name now = elim (find_value (λ o. o.slug == slug) s.orgs) [
  | some other ↦ (s, err duplicate_org)
  | none ↦
      let id = next_id s.org_seq in
      let o : OrgRec = record {
        id = id;
        slug = slug;
        name = name;
        created_at = now;
        updated_at = now;
      } in
      (record s { org_seq = id; orgs = put s.orgs id o }, ok (view_org o))
]

abbrev view_org_or : Option OrgRec → Result Org
view_org_or none = err no_org
view_org_or (some o) = ok (view_org o)

-- OrgByID
unfoldable pub org_by_id : Store → Text → Result Org
unfolding view_org
org_by_id s id = with_id id (err no_org) λ n. view_org_or (get s.orgs n)

-- OrgBySlug
unfoldable pub org_by_slug : Store → Text → Result Org
unfolding view_org
org_by_slug s slug = view_org_or (find_value (λ o. o.slug == slug) s.orgs)

-- RenameOrg
unfoldable pub rename_org : Store → Text → Text → Time → Store × Result (Unit {0})
rename_org s id name now =
    with_id id (s, err no_org)
      λ n. elim (get s.orgs n) [
        | none ↦ (s, err no_org)
        | some o ↦
            (record s { orgs = put s.orgs n (record o { name = name; updated_at = now }) }, ok tt)
      ]

-- A group is deleted from every membership set where its organization is deleted.
abbrev pub drop_org_groups : Map ℕ Group → Text → Map ℕ (Map ℕ Bool) → Map ℕ (Map ℕ Bool)
drop_org_groups groups org_id = change_all (λ _ set.
    delete_if (λ gid _. elim (get groups gid) [ none ↦ false | some g ↦ g.org_id == org_id ]) set)

-- DeleteOrg; the error is always nil
unfoldable pub delete_org : Store → Text → Store
delete_org s id = with_id id s λ n.
    let canonical = id_str n in
    record s {
      orgs = delete s.orgs n;
      org_members = delete s.org_members n;
      groups = delete_if (λ _ g. g.org_id == canonical) s.groups;
      memberships = drop_org_groups s.groups canonical s.memberships;
      org_invites = delete_if (λ _ rec. rec.inv.org_id == canonical) s.org_invites;
      apikeys = delete_if (λ _ k. k.info.org_id == canonical) s.apikeys;
    }

-- s.orgMembers[n], an empty map where there is none
abbrev pub members_of : Store → ℕ → Map ℕ Text
members_of s n = elim (get s.org_members n) [ none ↦ empty | some set ↦ set ]

-- SetOrgMember
unfoldable pub set_org_member : Store → Text → Text → Text → Store × Result (Unit {0})
set_org_member s org_id user_id role =
    with_id org_id (s, err no_org)
      λ n. elim (get s.orgs n) [
        | none ↦ (s, err no_org)
        | some o ↦
            with_id user_id (s, err no_user)
              λ uid. elim (get s.users uid) [
                | none ↦ (s, err no_user)
                | some u ↦ (
                  record s { org_members = put s.org_members n (put (members_of s n) uid role) },
                  ok tt,
                )
              ]
      ]

-- if set := m[k]; set != nil { m[k] = f(set) }
abbrev pub change_at {ℓ κ} : {K : Type ℓ} {V : Type κ} ⦃e : Eq K⦄ → Map K V → K → (V → V) → Map K V
change_at m k f = elim (get m k) [ none ↦ m | some v ↦ put m k (f v) ]

-- gn, gok := parseID(g.OrgID); gok && gn == n
abbrev pub belongs_to : ℕ → Group → Bool
belongs_to n g = elim (parse_id g.org_id) [ none ↦ false | some gn ↦ gn == n ]

-- RemoveOrgMember; the error is always nil
unfoldable pub remove_org_member : Store → Text → Text → Store
remove_org_member s org_id user_id = with_id org_id s λ n. with_id user_id s λ uid. record s {
  org_members = change_at s.org_members n (λ set. delete set uid);
  memberships =
      change_at s.memberships uid
        (delete_if (λ gid _. elim (get s.groups gid) [ none ↦ false | some g ↦ belongs_to n g ]));
}

-- OrgRole
unfoldable pub org_role : Store → Text → Text → Result Text
org_role s org_id user_id = with_id org_id (err no_org) λ n. elim (get s.orgs n) [
  | none ↦ err no_org
  | some o ↦
      with_id user_id (err not_org_member) λ uid. ok_or (get (members_of s n) uid) not_org_member
]
