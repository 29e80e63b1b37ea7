-- ===== src/Memory/Groups.antt =====
-- store/memory/directory.go and orgs.go: groups, global and of an organization, and memberships.
pub mod Names
pub mod Sets
use go_auth_x.Base.{Bool, List, [], list_eq, nat_eq, none, some, true, ℕ, ◌&&◌, ◌==◌, ◌∷◌}
use go_auth_x.Map.{Map, change_all, delete, empty, find_value, get, is_some, put}
use go_auth_x.Memory.Store.{Store, next_id}
use go_auth_x.Memory.Users.{with_id}
use go_auth_x.Text.{Text, id_str, trim_space}
use go_auth_x.Types.{Group, Result, Time, duplicate_group, err, no_group, no_org, ok, ok_or}

-- The loops that refuse a second group of one name in one namespace.
abbrev pub group_named : Text → Text → Group → Bool
group_named org_id name g = g.org_id == org_id && g.name == name

-- The common part of CreateGroup (org_id = "") and CreateOrgGroup.
unfoldable pub insert_group : Store → Text → Text → Text → Time → Store × Result Group
insert_group s org_id name description now =
    let trimmed = trim_space name in
    elim (find_value (group_named org_id trimmed) s.groups) [
      | some other ↦ (s, err duplicate_group)
      | none ↦
          let gid = next_id s.group_seq in
          let g : Group = record {
            id = id_str gid;
            name = trimmed;
            description = description;
            created_at = now;
            updated_at = now;
            org_id = org_id;
          } in
          (record s { group_seq = gid; groups = put s.groups gid g }, ok g)
    ]

-- CreateGroup
unfoldable pub create_group : Store → Text → Text → Time → Store × Result Group
unfolding insert_group
create_group s name description now = insert_group s [] name description now

-- CreateOrgGroup
unfoldable pub create_org_group : Store → Text → Text → Text → Time → Store × Result Group
unfolding insert_group
create_org_group s org_id name description now =
    with_id org_id (s, err no_org)
      λ n. elim (get s.orgs n) [
        | none ↦ (s, err no_org)
        | some o ↦ insert_group s (id_str n) name description now
      ]

-- GroupByName
unfoldable pub group_by_name : Store → Text → Result Group
group_by_name s name = ok_or (find_value (group_named [] (trim_space name)) s.groups) no_group

-- OrgGroupByName
unfoldable pub org_group_by_name : Store → Text → Text → Result Group
org_group_by_name s org_id name =
    ok_or (find_value (group_named org_id (trim_space name)) s.groups) no_group

-- OrgOfGroup
unfoldable pub org_of_group : Store → Text → Result Text
org_of_group s group_id =
    with_id group_id (err no_group)
      λ n. elim (get s.groups n) [ none ↦ err no_group | some g ↦ ok g.org_id ]

-- for _, set := range s.memberships { delete(set, gid) }
abbrev pub drop_group : ℕ → Map ℕ (Map ℕ Bool) → Map ℕ (Map ℕ Bool)
drop_group gid = change_all (λ _ set. delete set gid)

-- DeleteGroup; the error is always nil
unfoldable pub delete_group : Store → Text → Store
delete_group s id =
    with_id id s
      λ n. record s { groups = delete s.groups n; memberships = drop_group n s.memberships }

-- s.memberships[uid], an empty set where there is none
abbrev pub groups_of : Map ℕ (Map ℕ Bool) → ℕ → Map ℕ Bool
groups_of memberships uid = elim (get memberships uid) [ none ↦ empty | some set ↦ set ]

abbrev pub add_member : ℕ → ℕ → Map ℕ (Map ℕ Bool) → Map ℕ (Map ℕ Bool)
add_member uid gid memberships = put memberships uid (put (groups_of memberships uid) gid true)

abbrev pub drop_member : ℕ → ℕ → Map ℕ (Map ℕ Bool) → Map ℕ (Map ℕ Bool)
drop_member uid gid memberships = elim (get memberships uid) [
  | none ↦ memberships
  | some set ↦ put memberships uid (delete set gid)
]

-- AddUserToGroup; the error is always nil
unfoldable pub add_user_to_group : Store → Text → Text → Store
add_user_to_group s user_id group_id =
    with_id user_id s
      λ uid. with_id group_id s λ gid. record s { memberships = add_member uid gid s.memberships }

-- RemoveUserFromGroup; the error is always nil
unfoldable pub remove_user_from_group : Store → Text → Text → Store
remove_user_from_group s user_id group_id =
    with_id user_id s
      λ uid. with_id group_id s λ gid. record s { memberships = drop_member uid gid s.memberships }

pub add_members : ℕ → List Text → Map ℕ (Map ℕ Bool) → Map ℕ (Map ℕ Bool)
add_members gid [] memberships = memberships
add_members gid (id ∷ ids) memberships =
    add_members gid ids (with_id id memberships λ uid. add_member uid gid memberships)

-- AddUsersToGroup; the error is always nil
unfoldable pub add_users_to_group : Store → List Text → Text → Store
unfolding add_members
add_users_to_group s user_ids group_id =
    with_id group_id s λ gid. record s { memberships = add_members gid user_ids s.memberships }

pub drop_members : ℕ → List Text → Map ℕ (Map ℕ Bool) → Map ℕ (Map ℕ Bool)
drop_members gid [] memberships = memberships
drop_members gid (id ∷ ids) memberships =
    drop_members gid ids (with_id id memberships λ uid. drop_member uid gid memberships)

-- RemoveUsersFromGroup; the error is always nil
unfoldable pub remove_users_from_group : Store → List Text → Text → Store
unfolding drop_members
remove_users_from_group s user_ids group_id =
    with_id group_id s λ gid. record s { memberships = drop_members gid user_ids s.memberships }

-- The test of UserGroups and GroupMembers: the user is in the group, which exists.
unfoldable pub is_member : Store → ℕ → ℕ → Bool
is_member s uid gid = is_some (get (groups_of s.memberships uid) gid)
