-- ===== src/Org.antt =====
-- orgs.go: roles, handles, and the live membership checks over the store.
pub mod Gate
pub mod Members
pub mod Owners
pub mod Joining
pub mod Directory
use go_auth_x.Base.{
  Bool, List, [], any, false, if◌then◌else◌, leb, length, list_eq, ltb, nat_eq, not, ℕ, ◌&&◌, ◌==◌,
  ◌||◌, ◌∷◌,
}
use go_auth_x.Memory.Listings.{user_orgs}
use go_auth_x.Memory.Orgs.{org_by_id, org_by_slug, org_role}
use go_auth_x.Memory.Store.{Store}
use go_auth_x.Memory.Users.{user_by_sub}
use go_auth_x.Session.{SessionClaims}
use go_auth_x.Text.{Text, codes}
use go_auth_x.Types.{Org, Result, UserOrg, err, no_org, not_org_member, ok}

-- OrgRoleOwner, OrgRoleAdmin, OrgRoleMember
abbrev pub owner : Text
owner = codes "owner"

abbrev pub admin : Text
admin = codes "admin"

abbrev pub member : Text
member = codes "member"

abbrev is_slug_char : ℕ → Bool
is_slug_char c = (leb b'a' c && leb c b'z') || ((leb b'0' c && leb c b'9') || c == b'-')

abbrev last_of : ℕ → Text → ℕ
last_of c [] = c
last_of c (d ∷ ds) = last_of d ds

-- validOrgSlug
unfoldable pub valid_org_slug : Text → Bool
valid_org_slug [] = false
valid_org_slug (c ∷ cs) =
    if ltb 63 (length (c ∷ cs)) || (c == b'-' || last_of c cs == b'-')
    then false
    else not (any (λ d. not (is_slug_char d)) (c ∷ cs))

-- validOrgRole
unfoldable pub valid_org_role : Text → Bool
valid_org_role r =
    if r == [] || ltb 32 (length r)
    then false
    else not (any (λ c. not (is_slug_char c || c == b'_')) r)

-- orgRoleIsManager
abbrev pub is_manager : Text → Bool
is_manager role = role == owner || role == admin

abbrev sole : List UserOrg → Text × Text
sole (m ∷ []) = (m.org.id, m.role)
sole _ = ([], [])

-- defaultOrgClaims
unfoldable pub default_org_claims : Store → Text → Text × Text
unfolding user_orgs
default_org_claims s user_id = sole (user_orgs s user_id)

-- resolveOrg
unfoldable pub resolve_org : Store → Text → Result Org
resolve_org s id_or_slug = elim (org_by_id s id_or_slug) [
  | ok o ↦ ok o
  | err no_org ↦ org_by_slug s id_or_slug
  | err e ↦ err e
]

-- liveOrgRole
unfoldable pub live_org_role : Store → SessionClaims → Result Text
live_org_role s sc =
    if sc.org == []
    then err not_org_member
    else elim (user_by_sub s sc.subject) [ err e ↦ err e | ok u ↦ org_role s sc.org u.id ]
