-- ===== src/Org/Directory.antt =====
-- orgdirectory.go: the view of the store that one organization's identity provider works through.
-- `org_id` is the organization of the view; a name ends in `_in` where the store has the method too.
pub mod Confined
pub mod Accounts
pub mod Roles
pub mod Grouping
pub mod Frame
pub mod Runs
pub mod Joined
pub mod Subjects
pub mod Lookups
use go_auth_x.Base.{
  Bool, List, Option, [], any, false, if◌then◌else◌, keep, length, list_eq, ltb, map, nat_eq, none,
  not, some, true, ℕ, ◌!=◌, ◌++◌, ◌==◌, ◌∷◌,
}
use go_auth_x.Memory.Groups.{
  add_user_to_group, add_users_to_group, create_org_group, delete_group, org_group_by_name,
  org_of_group, remove_user_from_group, remove_users_from_group,
}
use go_auth_x.Memory.Listings.{group_members, list_org_members, org_groups, user_org_groups}
use go_auth_x.Memory.Orgs.{org_by_id, org_role, remove_org_member, set_org_member}
use go_auth_x.Memory.Store.{Store}
use go_auth_x.Memory.Upsert.{upsert_external_user}
use go_auth_x.Memory.Users.{user_by_email, user_by_id}
use go_auth_x.Org.{member, owner}
use go_auth_x.Text.{Bytes, Text, codes, cut_prefix, has_prefix}
use go_auth_x.Types.{
  ApiKeyInfo, AuthUser, Error, Group, Result, Time, email_conflict, err, no_credential, no_group,
  no_user, not_org_member, ok,
}

-- What the view answers beside the errors of the store: errOrgView and ErrOrgOwnerDeprovision.
pub data ViewError : Type 0 where
  stored : Error → ViewError
  not_through_view owner_deprovision : ViewError

-- errors.Is(err, ErrNotOrgMember), errors.Is(err, ErrNoUser)
abbrev pub is_not_member : Error → Bool
is_not_member not_org_member = true
is_not_member _ = false

abbrev pub is_no_user : Error → Bool
is_no_user no_user = true
is_no_user _ = false

abbrev pub is_ok {ℓ} : {A : Type ℓ} → Result A → Bool
is_ok (ok a) = true
is_ok (err e) = false

-- NewOrgScopedDirectory, for a store that has every interface: whether there is a view
unfoldable pub new_org_scoped_directory : Store → Text → Result (Unit {0})
new_org_scoped_directory s org_id = elim (org_by_id s org_id) [ ok o ↦ ok tt | err e ↦ err e ]

-- orgSubPrefix
unfoldable pub org_sub_prefix : Text → Text
org_sub_prefix org_id = codes "scim:org" ++ (org_id ++ codes ":")

-- nsSub
unfoldable pub ns_sub : Text → Text → Text
unfolding org_sub_prefix
ns_sub org_id sub =
    if has_prefix sub (org_sub_prefix org_id) then sub else elim (cut_prefix sub (codes "scim:")) [
      | some rest ↦ org_sub_prefix org_id ++ rest
      | none ↦ sub
    ]

-- isMember, with memberRole
unfoldable pub is_member_in : Store → Text → Text → Bool
is_member_in s org_id user_id = is_ok (org_role s org_id user_id)

-- ensureMember
unfoldable pub ensure_member : Store → Text → Text → Store × Result (Unit {0})
ensure_member s org_id user_id = elim (org_role s org_id user_id) [
  | ok _ ↦ (s, ok tt)
  | err e ↦ if is_not_member e then set_org_member s org_id user_id member else (s, err e)
]

-- ListUsers
unfoldable pub list_users_in : Store → Text → Result (List AuthUser)
list_users_in s org_id = elim (list_org_members s org_id) [
  | err e ↦ err e
  | ok members ↦ ok (map (λ m. m.user) members)
]

abbrev only_member : Store → Text → Result AuthUser → Result AuthUser
only_member s org_id (err e) = err e
only_member s org_id (ok u) = if is_member_in s org_id u.id then ok u else err no_user

-- UserByID
unfoldable pub user_by_id_in : Store → Text → Text → Result AuthUser
unfolding is_member_in
user_by_id_in s org_id id = only_member s org_id (user_by_id s id)

-- UserByEmail
unfoldable pub user_by_email_in : Store → Text → Text → Result AuthUser
unfolding is_member_in
user_by_email_in s org_id email = only_member s org_id (user_by_email s email)

-- What UpsertExternalUser refuses an address for: another account has it, or the store failed.
abbrev pub email_refusal : Result AuthUser → Text → Option Error
email_refusal (ok existing) ns = if existing.sub != ns then some email_conflict else none
email_refusal (err e) ns = if is_no_user e then none else some e

abbrev pub with_user : AuthUser → Store × Result (Unit {0}) → Store × Result AuthUser
with_user u (s, ok _) = (s, ok u)
with_user u (s, err e) = (s, err e)

-- The account that the store's upsert returned becomes a member.
abbrev pub enrol : Text → Store × Result AuthUser → Store × Result AuthUser
enrol org_id (s, err e) = (s, err e)
enrol org_id (s, ok u) = with_user u (ensure_member s org_id u.id)

-- UpsertExternalUser
unfoldable pub upsert_external_user_in :
    Store → Text → Text → Text → Text → Bool → Time → Store × Result AuthUser
unfolding ensure_member
upsert_external_user_in s org_id sub email name verified now =
    let ns = ns_sub org_id sub in
    if not (has_prefix ns (org_sub_prefix org_id))
    then (s, err email_conflict)
    else elim (email_refusal (user_by_email s email) ns) [
      | some e ↦ (s, err e)
      | none ↦ enrol org_id (upsert_external_user s ns email name verified now)
    ]

-- SetUserDisabled; `none` for a nil error
unfoldable pub set_user_disabled_in : Store → Text → Text → Bool → Store × Option ViewError
set_user_disabled_in s org_id user_id disabled = elim (org_role s org_id user_id) [
  | err e ↦
      if is_not_member e
      then (if disabled then (s, none) else (s, some (stored no_user)))
      else (s, some (stored e))
  | ok role ↦
      if not disabled
      then (s, none)
      else (if role == owner
          then (s, some owner_deprovision)
          else (remove_org_member s org_id user_id, none))
]

-- SetUserBan, CreateAPIKey, ListAPIKeys, RevokeAPIKey and TouchAPIKey refuse and do nothing.
abbrev pub refused_in : Store → Store × Option ViewError
refused_in s = (s, some not_through_view)

-- APIKeyByHash
abbrev pub api_key_by_hash_in : Bytes → Result ApiKeyInfo
api_key_by_hash_in hash = err no_credential

-- CreateGroup
unfoldable pub create_group_in : Store → Text → Text → Text → Time → Store × Result Group
create_group_in s org_id name description now = create_org_group s org_id name description now

-- Groups
unfoldable pub groups_in : Store → Text → List Group
groups_in s org_id = org_groups s org_id

-- GroupByName
unfoldable pub group_by_name_in : Store → Text → Text → Result Group
group_by_name_in s org_id name = org_group_by_name s org_id name

abbrev pub own_group : Text → Result Text → Option Error
own_group org_id (err e) = some e
own_group org_id (ok org) = if org != org_id then some no_group else none

-- groupInOrg
unfoldable pub group_in_org : Store → Text → Text → Option Error
group_in_org s org_id group_id = own_group org_id (org_of_group s group_id)

-- The change that follows where the group is the organization's.
abbrev pub gated : Store → Option Error → Store × Result (Unit {0}) → Store × Result (Unit {0})
gated s (some e) rest = (s, err e)
gated s none rest = rest

-- DeleteGroup
unfoldable pub delete_group_in : Store → Text → Text → Store × Result (Unit {0})
delete_group_in s org_id id = gated s (group_in_org s org_id id) (delete_group s id, ok tt)

-- AddUserToGroup
unfoldable pub add_user_to_group_in : Store → Text → Text → Text → Store × Result (Unit {0})
unfolding is_member_in
add_user_to_group_in s org_id user_id group_id = gated s (group_in_org s org_id group_id) (
    if not (is_member_in s org_id user_id)
    then (s, err no_user)
    else (add_user_to_group s user_id group_id, ok tt))

-- RemoveUserFromGroup
unfoldable pub remove_user_from_group_in : Store → Text → Text → Text → Store × Result (Unit {0})
remove_user_from_group_in s org_id user_id group_id =
    gated s (group_in_org s org_id group_id) (remove_user_from_group s user_id group_id, ok tt)

-- orgMemberScanMin
abbrev pub org_member_scan_min : ℕ
org_member_scan_min = 16

-- The loop of orgMembersOf that looks each ID up.
unfoldable pub lookup_members : Store → Text → List Text → Result (List Text)
lookup_members s org_id [] = ok []
lookup_members s org_id (uid ∷ uids) =
    let rest = lookup_members s org_id uids in
    elim (org_role s org_id uid) [
      | ok _ ↦ elim rest [ ok out ↦ ok (uid ∷ out) | err e ↦ err e ]
      | err e ↦ if is_not_member e then rest else err e
    ]

-- The loop of orgMembersOf over the IDs that reads the set of all members.
unfoldable pub scan_members : Store → Text → List Text → Result (List Text)
scan_members s org_id uids = elim (list_org_members s org_id) [
  | err e ↦ err e
  | ok members ↦ ok (keep (λ uid. any (λ m. m.user.id == uid) members) uids)
]

-- orgMembersOf
unfoldable pub org_members_of : Store → Text → List Text → Result (List Text)
unfolding lookup_members scan_members
org_members_of s org_id uids =
    if ltb (length uids) org_member_scan_min
    then lookup_members s org_id uids
    else scan_members s org_id uids

-- AddGroupMembers and RemoveGroupMembers of directory.go, on a store that has the batch methods
unfoldable pub add_group_members : Store → List Text → Text → Store
add_group_members s [] group_id = s
add_group_members s (u ∷ us) group_id = add_users_to_group s (u ∷ us) group_id

unfoldable pub remove_group_members : Store → List Text → Text → Store
remove_group_members s [] group_id = s
remove_group_members s (u ∷ us) group_id = remove_users_from_group s (u ∷ us) group_id

abbrev add_found : Store → Text → Result (List Text) → Store × Result (Unit {0})
add_found s group_id (err e) = (s, err e)
add_found s group_id (ok members) = (add_group_members s members group_id, ok tt)

-- AddUsersToGroup
unfoldable pub add_users_to_group_in : Store → Text → List Text → Text → Store × Result (Unit {0})
add_users_to_group_in s org_id user_ids group_id =
    gated s (group_in_org s org_id group_id)
      (add_found s group_id (org_members_of s org_id user_ids))

-- RemoveUsersFromGroup
unfoldable pub remove_users_from_group_in :
    Store → Text → List Text → Text → Store × Result (Unit {0})
remove_users_from_group_in s org_id user_ids group_id =
    gated s (group_in_org s org_id group_id) (remove_group_members s user_ids group_id, ok tt)

-- GroupMembers
unfoldable pub group_members_in : Store → Text → Text → Result (List AuthUser)
group_members_in s org_id group_id = elim (group_in_org s org_id group_id) [
  | some e ↦ err e
  | none ↦ ok (group_members s group_id)
]

-- UserGroups
unfoldable pub user_groups_in : Store → Text → Text → List Group
user_groups_in s org_id user_id = user_org_groups s org_id user_id
