-- ===== src/Admin.antt =====
-- admin.go: API keys, the group gates and the guard of the admin API. The hash of a raw key is an
-- argument; `session` is what the cookie of the request parses to.
pub mod Groups
pub mod Users
pub mod Orgs
pub mod Guarded
pub mod Refused
pub mod Actor
pub mod Impersonation
pub mod Keys
pub mod CutOff
use go_auth_x.Base.{
  Bool, List, Option, [], any, contains, false, if◌then◌else◌, length, list_eq, ltb, nat_eq, none,
  some, take, true, ◌!=◌, ◌&&◌, ◌++◌, ◌==◌, ◌||◌, ◌∷◌,
}
use go_auth_x.Csrf.{bearer_token}
use go_auth_x.Handler.{Handler}
use go_auth_x.Memory.ApiKeys.{api_key_by_hash, key_has_scope, touch_api_key}
use go_auth_x.Memory.Store.{Store}
use go_auth_x.Org.Gate.{Gate, deny, go}
use go_auth_x.Session.{SessionClaims}
use go_auth_x.Text.{Bytes, Text, codes, equal_fold, trim_space}
use go_auth_x.Types.{ApiKeyInfo, Time, after, err, ok}

-- What the admin API reads of the configuration.
pub record AdminConfig : Type 0 where
  pub owner_email : Text
  pub session_secret : Bytes
  pub hash_token : Text → Bytes

-- What the guards read of a request; a header that is not there is empty.
pub record Caller : Type 0 where
  pub authorization : Text
  pub session : Option SessionClaims

-- info.ExpiresAt != nil && time.Now().After(*info.ExpiresAt)
abbrev pub is_expired : ApiKeyInfo → Time → Bool
is_expired info now = elim info.expires_at [ none ↦ false | some e ↦ after now e ]

-- ValidateAPIKey
unfoldable pub validate_api_key : (Text → Bytes) → Store → Text → Time → Store × Option ApiKeyInfo
validate_api_key hash s raw now =
    if raw == [] then (s, none) else (elim (api_key_by_hash s (hash raw)) [
      | err _ ↦ (s, none)
      | ok info ↦
          if is_expired info now then (s, none) else (touch_api_key s info.id now, some info)
    ])

abbrev pub key_passes : (ApiKeyInfo → Bool) → Store × Option ApiKeyInfo → Store × Bool
key_passes p (s, none) = (s, false)
key_passes p (s, some info) = (s, p info)

-- The key is bound to no organization.
abbrev pub is_global : ApiKeyInfo → Bool
is_global info = info.org_id == []

-- ValidateAPIKeyScope
unfoldable pub validate_api_key_scope : (Text → Bytes) → Store → Text → Text → Time → Store × Bool
unfolding validate_api_key key_has_scope
validate_api_key_scope hash s raw scope now =
    key_passes (λ info. key_has_scope info scope && is_global info)
      (validate_api_key hash s raw now)

-- ValidateOrgAPIKeyScope of orgdirectory.go
unfoldable pub validate_org_api_key_scope :
    (Text → Bytes) → Store → Text → Text → Text → Time → Store × Bool
unfolding validate_api_key key_has_scope
validate_org_api_key_scope hash s raw scope org_id now =
    key_passes (λ info. key_has_scope info scope && (is_global info || info.org_id == org_id))
      (validate_api_key hash s raw now)

-- generateAPIKey: the raw key, its prefix and its hash; `rand` is what randToken returns
unfoldable pub generate_api_key : (Text → Bytes) → Text → Text × Text × Bytes
generate_api_key hash rand =
    let raw = codes "axk_" ++ rand in
    (raw, (if ltb 12 (length raw) then take 12 raw else raw), hash raw)

-- hasAnyGroup of directory.go
unfoldable pub has_any_group : List Text → List Text → Bool
has_any_group have [] = true
has_any_group have (w ∷ want) = any (λ g. contains have g) (w ∷ want)

-- authenticated
unfoldable pub authenticated : (Text → Bytes) → Store → Caller → Time → Store × Bool
unfolding validate_api_key bearer_token
authenticated hash s caller now = elim caller.session [
  | some sc ↦ (s, true)
  | none ↦
      let key = bearer_token caller.authorization in
      if key == [] then (s, false) else key_passes is_global (validate_api_key hash s key now)
]

abbrev pub session_groups : Option SessionClaims → List Text
session_groups none = []
session_groups (some sc) = sc.groups

abbrev key_groups : List Text → Store × Option ApiKeyInfo → Store × List Text
key_groups have (s, none) = (s, have)
key_groups have (s, some info) = (s, if is_global info then have ++ info.groups else have)

-- requestGroups, with GroupsFromRequest
unfoldable pub request_groups : (Text → Bytes) → Store → Caller → Time → Store × List Text
unfolding validate_api_key bearer_token
request_groups hash s caller now =
    let have = session_groups caller.session in
    let key = bearer_token caller.authorization in
    if key == [] then (s, have) else key_groups have (validate_api_key hash s key now)

abbrev admits : List Text → Store × List Text → Store × Bool
admits want (s, have) = (s, has_any_group have want)

-- RequireGroupsHTTP: whether the request reaches the handler behind it; it is answered 403 if not
unfoldable pub require_groups : (Text → Bytes) → Store → Caller → List Text → Time → Store × Bool
unfolding authenticated request_groups has_any_group
require_groups hash s caller [] now = authenticated hash s caller now
require_groups hash s caller (g ∷ gs) now = admits (g ∷ gs) (request_groups hash s caller now)

-- The session of the instance owner, who is not impersonated.
abbrev pub is_owner_session : AdminConfig → Option SessionClaims → Bool
is_owner_session config none = false
is_owner_session config (some sc) =
    sc.impersonated_by == []
    && (config.owner_email != [] && equal_fold (trim_space sc.email) config.owner_email)

-- What the key of a request is to the guard: the three flags of adminGuard.
pub data Presented : Type 0 where
  no_key rejected lacks_scope grants : Presented

abbrev pub judge : Store × Option ApiKeyInfo → Store × Presented
judge (s, none) = (s, rejected)
judge (s, some info) =
    (s, if key_has_scope info (codes "admin") && is_global info then grants else lacks_scope)

unfoldable pub present : AdminConfig → Store → Caller → Time → Store × Presented
unfolding validate_api_key bearer_token key_has_scope
present config s caller now =
    let key = bearer_token caller.authorization in
    if key == [] then (s, no_key) else judge (validate_api_key config.hash_token s key now)

abbrev pub admit : Bool → Store × Presented → Store × Gate (Unit {0})
admit is_owner (s, grants) = (s, go tt)
admit is_owner (s, lacks_scope) = (s, if is_owner then go tt else deny 403)
admit is_owner (s, rejected) = (s, if is_owner then go tt else deny 401)
admit is_owner (s, no_key) = (s, if is_owner then go tt else deny 401)

-- adminGuard
unfoldable pub admin_guard : AdminConfig → Caller → Time → Handler (Unit {0})
unfolding present
admin_guard config caller now s =
    admit (is_owner_session config caller.session) (present config s caller now)
