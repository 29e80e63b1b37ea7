-- ===== src/Admin/Groups.antt =====
-- admin.go: the handlers of the admin API on groups, users and API keys. A body that cannot be read
-- is `none`; time.Parse and the random key are arguments.
use go_auth_x.Admin.{AdminConfig, Caller, admin_guard, generate_api_key}
use go_auth_x.Base.{
  Bool, List, Option, [], false, if◌then◌else◌, list_eq, nat_eq, none, some, true, ℕ, ◌==◌, ◌∷◌,
}
use go_auth_x.Handler.{
  Handler, always, attempt, change, fetch, gate, gets, refuse_if, reply_with, ◌>>=◌, ◌>>◌,
}
use go_auth_x.Memory.ApiKeys.{create_api_key, create_org_api_key, revoke_api_key}
use go_auth_x.Memory.Groups.{
  add_user_to_group, create_group, delete_group, group_by_name, remove_user_from_group,
}
use go_auth_x.Memory.Listings.{all_groups, group_members, list_api_keys, list_users}
use go_auth_x.Memory.Sessions.{revoke_all_for_user}
use go_auth_x.Memory.Store.{Store}
use go_auth_x.Memory.Users.{set_user_disabled, user_by_id}
use go_auth_x.Org.{resolve_org}
use go_auth_x.Org.Gate.{Gate, deny, go, param_id}
use go_auth_x.Text.{Bytes, Text, trim_space}
use go_auth_x.Types.{ApiKeyInfo, AuthUser, Error, Group, Result, Time, err, no_org, ok}

-- adminListGroups
unfoldable pub admin_list_groups : AdminConfig → Caller → Time → Handler (List Group)
unfolding admin_guard all_groups
admin_list_groups config caller now = do admin_guard config caller now; gets all_groups

abbrev pub name_or_400 : Option (Text × Text) → Gate (Text × Text)
name_or_400 none = deny 400
name_or_400 (some (name, description)) =
    if trim_space name == [] then deny 400 else go (name, description)

abbrev pub found {ℓ} : {A : Type ℓ} → Result A → Bool
found (ok a) = true
found (err e) = false

-- adminCreateGroup; the body is a name and a description
unfoldable pub admin_create_group :
    AdminConfig → Caller → Option (Text × Text) → Time → Handler Group
unfolding admin_guard group_by_name create_group
admin_create_group config caller body now = do
  admin_guard config caller now
  (name, description) ← gate (name_or_400 body)
  existing ← gets λ s. found (group_by_name s (trim_space name))
  refuse_if existing 409
  attempt (λ s. create_group s name description now) (always 500)

-- adminDeleteGroup
unfoldable pub admin_delete_group : AdminConfig → Caller → Text → Time → Handler (Unit {0})
unfolding admin_guard param_id delete_group
admin_delete_group config caller raw_id now = do
  admin_guard config caller now
  id ← gate (param_id raw_id)
  change λ s. delete_group s id

-- adminAddMember
unfoldable pub admin_add_member : AdminConfig → Caller → Text → Text → Time → Handler (Unit {0})
unfolding admin_guard param_id add_user_to_group
admin_add_member config caller raw_uid raw_gid now = do
  admin_guard config caller now
  uid ← gate (param_id raw_uid)
  gid ← gate (param_id raw_gid)
  change λ s. add_user_to_group s uid gid

-- adminRemoveMember
unfoldable pub admin_remove_member : AdminConfig → Caller → Text → Text → Time → Handler (Unit {0})
unfolding admin_guard param_id remove_user_from_group
admin_remove_member config caller raw_uid raw_gid now = do
  admin_guard config caller now
  uid ← gate (param_id raw_uid)
  gid ← gate (param_id raw_gid)
  change λ s. remove_user_from_group s uid gid

-- adminGroupMembers
unfoldable pub admin_group_members : AdminConfig → Caller → Text → Time → Handler (List AuthUser)
unfolding admin_guard param_id group_members
admin_group_members config caller raw_id now = do
  admin_guard config caller now
  id ← gate (param_id raw_id)
  gets λ s. group_members s id

-- adminListUsers
unfoldable pub admin_list_users : AdminConfig → Caller → Time → Handler (List AuthUser)
unfolding admin_guard list_users
admin_list_users config caller now = do admin_guard config caller now; gets list_users

-- The sessions of the user with the ID are revoked, if there is one.
abbrev pub cut_sessions : Result AuthUser → Store → Store
cut_sessions (ok u) s = revoke_all_for_user s u.sub
cut_sessions (err e) s = s

-- adminSetDisabled; `disabled` is that of the body
unfoldable pub admin_set_disabled : AdminConfig → Caller → Text → Bool → Time → Handler Bool
unfolding admin_guard param_id set_user_disabled user_by_id revoke_all_for_user
admin_set_disabled config caller raw_id disabled now = do
  admin_guard config caller now
  id ← gate (param_id raw_id)
  change λ s. set_user_disabled s id disabled
  change λ s. if disabled then cut_sessions (user_by_id s id) s else s
  reply_with disabled

-- adminListKeys
unfoldable pub admin_list_keys : AdminConfig → Caller → Time → Handler (List ApiKeyInfo)
unfolding admin_guard list_api_keys
admin_list_keys config caller now = do admin_guard config caller now; gets list_api_keys

-- The body of adminCreateKey; a field that is not there is empty.
pub record KeyBody : Type 0 where
  pub name : Text
  pub groups : List Text
  pub scopes : List Text
  pub expires_at : Text
  pub org : Text

abbrev pub key_body_or_400 : Option KeyBody → Gate KeyBody
key_body_or_400 none = deny 400
key_body_or_400 (some body) = if trim_space body.name == [] then deny 400 else go body

-- An optional time in RFC 3339
abbrev pub time_or_400 : (Text → Option Time) → Text → Gate (Option Time)
time_or_400 parse text =
    if text == [] then go none else (elim (parse text) [ none ↦ deny 400 | some t ↦ go (some t) ])

abbrev pub no_org_404 : Error → ℕ
no_org_404 no_org = 404
no_org_404 _ = 500

-- The key that adminCreateKey stores: bound to an organization where the body names one.
abbrev pub store_key : KeyBody → Text → Bytes → Option Time → Time → Text → Handler ApiKeyInfo
store_key body prefix hash expires now [] =
    attempt (λ s. create_api_key s body.name body.groups body.scopes prefix hash expires now)
      (always 500)
store_key body prefix hash expires now (c ∷ cs) = do
  o ← fetch (λ s. resolve_org s (c ∷ cs)) no_org_404
  attempt (λ s. create_org_api_key s o.id body.name body.groups body.scopes prefix hash expires now)
      (always 500)

-- adminCreateKey: the raw key and what is stored of it
unfoldable pub admin_create_key :
    AdminConfig
    → Caller
    → (Text → Option Time)
    → Option KeyBody
    → Text
    → Time
    → Handler (Text × ApiKeyInfo)
unfolding admin_guard generate_api_key create_api_key create_org_api_key resolve_org
admin_create_key config caller parse body rand now = do
  admin_guard config caller now
  b ← gate (key_body_or_400 body)
  expires ← gate (time_or_400 parse b.expires_at)
  let (raw, prefix, hash) = generate_api_key config.hash_token rand
  info ← store_key b prefix hash expires now (trim_space b.org)
  reply_with (raw, info)

-- adminRevokeKey
unfoldable pub admin_revoke_key : AdminConfig → Caller → Text → Time → Handler (Unit {0})
unfolding admin_guard param_id revoke_api_key
admin_revoke_key config caller raw_id now = do
  admin_guard config caller now
  id ← gate (param_id raw_id)
  change λ s. revoke_api_key s id
