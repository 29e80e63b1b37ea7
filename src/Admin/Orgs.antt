-- ===== src/Admin/Orgs.antt =====
-- admin_orgs.go: the verbs of the admin API on organizations, for stores that have every interface.
use go_auth_x.Admin.{AdminConfig, Caller, admin_guard}
use go_auth_x.Admin.Groups.{found, name_or_400, no_org_404}
use go_auth_x.Base.{
  Bool, List, Option, [], if◌then◌else◌, list_eq, ltb, nat_eq, none, not, some, ℕ, ◌!=◌, ◌==◌, ◌||◌,
}
use go_auth_x.Handler.{
  Handler, always, attempt, change, fetch, gate, gets, refuse_if, reply_with, ◌>>=◌, ◌>>◌,
}
use go_auth_x.Memory.Groups.{
  add_user_to_group, create_org_group, delete_group, org_group_by_name, org_of_group,
  remove_user_from_group,
}
use go_auth_x.Memory.Listings.{all_orgs, group_members, list_org_members, org_groups}
use go_auth_x.Memory.Orgs.{
  create_org, delete_org, org_by_id, org_by_slug, org_role, remove_org_member, rename_org,
  set_org_member,
}
use go_auth_x.Org.{member, valid_org_slug}
use go_auth_x.Org.Gate.{Gate, deny, go, norm_org_role, param_id}
use go_auth_x.Text.{Text, byte_length, to_lower, trim_space}
use go_auth_x.Types.{
  AuthUser, Error, Group, Org, OrgMember, Result, Time, err, no_group, no_org, no_user, ok,
}

-- paramOrgID is paramID on the path parameter "id".

abbrev pub own_or_404 : Text → Text → Result Text → Gate Text
own_or_404 org_id gid (ok org) = if org != org_id then deny 404 else go gid
own_or_404 org_id gid (err no_group) = deny 404
own_or_404 org_id gid (err _) = deny 500

-- orgGroupInOrg
unfoldable pub org_group_in_org : Text → Text → Handler Text
unfolding param_id org_of_group
org_group_in_org org_id raw_gid = do
  gid ← gate (param_id raw_gid)
  λ s. (s, own_or_404 org_id gid (org_of_group s gid))

-- adminOrgGroups
unfoldable pub admin_org_groups : AdminConfig → Caller → Text → Time → Handler (List Group)
unfolding admin_guard param_id org_groups
admin_org_groups config caller raw_id now = do
  admin_guard config caller now
  id ← gate (param_id raw_id)
  gets λ s. org_groups s id

-- adminCreateOrgGroup
unfoldable pub admin_create_org_group :
    AdminConfig → Caller → Text → Option (Text × Text) → Time → Handler Group
unfolding admin_guard param_id org_by_id org_group_by_name create_org_group
admin_create_org_group config caller raw_id body now = do
  admin_guard config caller now
  id ← gate (param_id raw_id)
  o ← fetch (λ s. org_by_id s id) (always 404)
  (name, description) ← gate (name_or_400 body)
  existing ← gets λ s. found (org_group_by_name s id (trim_space name))
  refuse_if existing 409
  attempt (λ s. create_org_group s id (trim_space name) description now) (always 500)

-- adminDeleteOrgGroup
unfoldable pub admin_delete_org_group :
    AdminConfig → Caller → Text → Text → Time → Handler (Unit {0})
unfolding admin_guard param_id org_group_in_org delete_group
admin_delete_org_group config caller raw_id raw_gid now = do
  admin_guard config caller now
  id ← gate (param_id raw_id)
  gid ← org_group_in_org id raw_gid
  change λ s. delete_group s gid

-- adminOrgGroupMembers
unfoldable pub admin_org_group_members :
    AdminConfig → Caller → Text → Text → Time → Handler (List AuthUser)
unfolding admin_guard param_id org_group_in_org group_members
admin_org_group_members config caller raw_id raw_gid now = do
  admin_guard config caller now
  id ← gate (param_id raw_id)
  gid ← org_group_in_org id raw_gid
  gets λ s. group_members s gid

-- adminAddOrgGroupMember
unfoldable pub admin_add_org_group_member :
    AdminConfig → Caller → Text → Text → Text → Time → Handler (Unit {0})
unfolding admin_guard param_id org_group_in_org org_role add_user_to_group
admin_add_org_group_member config caller raw_id raw_gid raw_uid now = do
  admin_guard config caller now
  id ← gate (param_id raw_id)
  gid ← org_group_in_org id raw_gid
  uid ← gate (param_id raw_uid)
  role ← fetch (λ s. org_role s id uid) (always 409)
  change λ s. add_user_to_group s uid gid

-- adminRemoveOrgGroupMember
unfoldable pub admin_remove_org_group_member :
    AdminConfig → Caller → Text → Text → Text → Time → Handler (Unit {0})
unfolding admin_guard param_id org_group_in_org remove_user_from_group
admin_remove_org_group_member config caller raw_id raw_gid raw_uid now = do
  admin_guard config caller now
  id ← gate (param_id raw_id)
  gid ← org_group_in_org id raw_gid
  uid ← gate (param_id raw_uid)
  change λ s. remove_user_from_group s uid gid

-- adminListOrgs
unfoldable pub admin_list_orgs : AdminConfig → Caller → Time → Handler (List Org)
unfolding admin_guard all_orgs
admin_list_orgs config caller now = do admin_guard config caller now; gets all_orgs

abbrev pub bound_or_400 {ℓ} : {A : Type ℓ} → Option A → Gate A
bound_or_400 none = deny 400
bound_or_400 (some body) = go body

-- The name of an organization is 1 to 128 bytes.
abbrev pub is_bad_name : Text → Bool
is_bad_name name = name == [] || ltb 128 (byte_length name)

-- adminCreateOrg; the body is a slug and a name
unfoldable pub admin_create_org : AdminConfig → Caller → Option (Text × Text) → Time → Handler Org
unfolding admin_guard valid_org_slug org_by_slug create_org byte_length
admin_create_org config caller body now = do
  admin_guard config caller now
  (raw_slug, raw_name) ← gate (bound_or_400 body)
  let slug = to_lower (trim_space raw_slug)
  let name = trim_space raw_name
  refuse_if (not (valid_org_slug slug)) 400
  refuse_if (is_bad_name name) 400
  existing ← gets λ s. found (org_by_slug s slug)
  refuse_if existing 409
  attempt (λ s. create_org s slug name now) (always 500)

-- adminRenameOrg
unfoldable pub admin_rename_org : AdminConfig → Caller → Text → Text → Time → Handler Text
unfolding admin_guard param_id rename_org byte_length
admin_rename_org config caller raw_id raw_name now = do
  admin_guard config caller now
  id ← gate (param_id raw_id)
  let name = trim_space raw_name
  refuse_if (is_bad_name name) 400
  attempt (λ s. rename_org s id name now) no_org_404
  reply_with name

-- adminDeleteOrg
unfoldable pub admin_delete_org : AdminConfig → Caller → Text → Time → Handler (Unit {0})
unfolding admin_guard param_id delete_org
admin_delete_org config caller raw_id now = do
  admin_guard config caller now
  id ← gate (param_id raw_id)
  change λ s. delete_org s id

-- adminOrgMembers
unfoldable pub admin_org_members : AdminConfig → Caller → Text → Time → Handler (List OrgMember)
unfolding admin_guard param_id list_org_members
admin_org_members config caller raw_id now = do
  admin_guard config caller now
  id ← gate (param_id raw_id)
  fetch (λ s. list_org_members s id) no_org_404

abbrev pub missing_404 : Error → ℕ
missing_404 no_org = 404
missing_404 no_user = 404
missing_404 _ = 500

-- adminSetOrgMember
unfoldable pub admin_set_org_member :
    AdminConfig → Caller → Text → Text → Text → Time → Handler Text
unfolding admin_guard param_id norm_org_role set_org_member
admin_set_org_member config caller raw_id raw_uid raw_role now = do
  admin_guard config caller now
  id ← gate (param_id raw_id)
  uid ← gate (param_id raw_uid)
  role ← gate (norm_org_role raw_role member)
  attempt (λ s. set_org_member s id uid role) missing_404
  reply_with role

-- adminRemoveOrgMember
unfoldable pub admin_remove_org_member :
    AdminConfig → Caller → Text → Text → Time → Handler (Unit {0})
unfolding admin_guard param_id remove_org_member
admin_remove_org_member config caller raw_id raw_uid now = do
  admin_guard config caller now
  id ← gate (param_id raw_id)
  uid ← gate (param_id raw_uid)
  change λ s. remove_org_member s id uid
