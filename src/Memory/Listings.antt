-- ===== src/Memory/Listings.antt =====
-- store/memory: the methods that list records. A loop over a map collects them in one of the orders
-- that Go may choose; the sort that follows makes the order definite but for ties.
use go_auth_x.Base.{
  Bool, List, Option, [], distinct, false, if◌then◌else◌, list_eq, ltb, nat_eq, none, not, some,
  sort_by, true, ℕ, ◌&&◌, ◌++◌, ◌==◌, ◌∷◌,
}
use go_auth_x.Map.{Map, empty, get}
use go_auth_x.Map.Listing.{collect}
use go_auth_x.Memory.Orgs.{members_of, view_org}
use go_auth_x.Memory.Store.{Store}
use go_auth_x.Memory.Users.{view, with_id}
use go_auth_x.OauthTypes.{OauthSigningKey}
use go_auth_x.Text.{Text, parse_id, text_ltb}
use go_auth_x.Types.{
  ApiKeyInfo, AuthUser, Group, Org, OrgInvite, OrgMember, Passkey, Result, SessionRecord, Time,
  UserOrg, after, before, err, no_org, ok,
}

abbrev pub when {ℓ} : {W : Type ℓ} → Bool → W → Option W
when true w = some w
when false w = none

-- idLess
unfoldable pub id_less : Text → Text → Bool
unfolding parse_id
id_less a b = ltb (number a) (number b)
  where
    number : Text → ℕ
    number t = elim (parse_id t) [ none ↦ 0 | some n ↦ n ]

abbrev pub by_name : Group → Group → Bool
by_name g h = text_ltb g.name h.name

abbrev pub by_email : AuthUser → AuthUser → Bool
by_email u v = text_ltb u.email v.email

-- Groups
unfoldable pub all_groups : Store → List Group
all_groups s = sort_by by_name (collect (λ _ g. when (g.org_id == []) g) s.groups)

-- OrgGroups
unfoldable pub org_groups : Store → Text → List Group
org_groups s org_id = sort_by by_name (collect (λ _ g. when (g.org_id == org_id) g) s.groups)

abbrev pub groups_of : Store → ℕ → Map ℕ Bool
groups_of s uid = elim (get s.memberships uid) [ none ↦ empty | some set ↦ set ]

-- UserGroups
unfoldable pub user_groups : Store → Text → List Group
user_groups s user_id =
    with_id user_id [] λ n. sort_by by_name (collect (λ gid _. get s.groups gid) (groups_of s n))

-- UserOrgGroups
unfoldable pub user_org_groups : Store → Text → Text → List Group
user_org_groups s org_id user_id = with_id user_id [] λ n. sort_by by_name (
    collect
      (λ gid _. elim (get s.groups gid) [ none ↦ none | some g ↦ when (g.org_id == org_id) g ])
      (groups_of s n))

abbrev view_at : Store → ℕ → Option AuthUser
view_at s uid = elim (get s.users uid) [ none ↦ none | some u ↦ some (view u) ]

abbrev in_set : Map ℕ Bool → ℕ → Bool
in_set set n = elim (get set n) [ none ↦ false | some b ↦ b ]

-- GroupMembers
unfoldable pub group_members : Store → Text → List AuthUser
unfolding view
group_members s group_id = with_id group_id [] λ n.
    sort_by by_email (
      collect (λ uid set. elim (in_set set n) [ true ↦ view_at s uid | false ↦ none ])
        s.memberships)

-- ListUsers
unfoldable pub list_users : Store → List AuthUser
unfolding view
list_users s = sort_by by_email (collect (λ _ u. some (view u)) s.users)

-- ListAPIKeys
unfoldable pub list_api_keys : Store → List ApiKeyInfo
unfolding id_less
list_api_keys s = sort_by (λ a b. id_less b.id a.id) (collect (λ _ k. some k.info) s.apikeys)

-- ListOrgAPIKeys
unfoldable pub list_org_api_keys : Store → Text → List ApiKeyInfo
unfolding id_less
list_org_api_keys s org_id =
    sort_by (λ a b. id_less b.id a.id)
      (collect (λ _ k. when (k.info.org_id == org_id) k.info) s.apikeys)

-- Orgs
unfoldable pub all_orgs : Store → List Org
unfolding view_org
all_orgs s = sort_by (λ a b. text_ltb a.slug b.slug) (collect (λ _ o. some (view_org o)) s.orgs)

-- UserOrgs
unfoldable pub user_orgs : Store → Text → List UserOrg
unfolding view_org
user_orgs s user_id = with_id user_id [] λ uid.
    sort_by (λ a b. text_ltb a.org.slug b.org.slug)
      (collect
        (λ oid members. elim (get members uid) [
          | none ↦ none
          | some role ↦ elim (get s.orgs oid) [
            | none ↦ none
            | some o ↦ some (record { org = view_org o; role = role })
          ]
        ])
        s.org_members)

abbrev pub member_at : Store → ℕ → Text → Option OrgMember
member_at s uid role = elim (get s.users uid) [
  | none ↦ none
  | some u ↦ some (record { user = view u; role = role })
]

-- OrgMembers
unfoldable pub list_org_members : Store → Text → Result (List OrgMember)
unfolding view
list_org_members s org_id = with_id org_id (err no_org) λ n. elim (get s.orgs n) [
  | none ↦ err no_org
  | some o ↦ ok (sort_by (λ a b. by_email a.user b.user) (collect (member_at s) (members_of s n)))
]

-- OrgInvites
unfoldable pub list_org_invites : Store → Text → Time → Result (List OrgInvite)
unfolding id_less
list_org_invites s org_id now = with_id org_id (err no_org) λ n. elim (get s.orgs n) [
  | none ↦ err no_org
  | some o ↦ ok (
      sort_by (λ a b. id_less a.id b.id)
        (collect
          (λ _ rec.
            when (rec.inv.org_id == org_id && (not rec.consumed && before now rec.inv.expires_at))
              rec.inv)
          s.org_invites))
]

-- ListSessionsForUser
unfoldable pub list_sessions_for_user : Store → Text → Time → List SessionRecord
list_sessions_for_user s subject now =
    sort_by (λ a b. after a.created_at b.created_at)
      (collect
        (λ _ r.
          when (r.rec.subject == subject && (not r.revoked && after r.rec.expires_at now)) r.rec)
        s.sessions)

-- Passkeys
unfoldable pub passkeys_of : Store → Text → List Passkey
passkeys_of s user_id =
    with_id user_id [] λ n. collect (λ _ pk. when (pk.user_id == n) pk.p) s.passkeys

-- OAuthSigningKeys
unfoldable pub oauth_signing_keys : Store → List OauthSigningKey
oauth_signing_keys s = sort_by (λ a b. before a.created_at b.created_at) s.oauth_keys

-- k[:strings.IndexByte(k, '|')], nothing where the bar is the first byte or is not there
unfoldable pub provider_of : Text → Option Text
provider_of [] = none
provider_of (c ∷ cs) = if c == b'|' then none else cut (c ∷ []) cs
  where
    cut : Text → Text → Option Text
    cut seen [] = none
    cut seen (d ∷ ds) = let rest = cut (seen ++ d ∷ []) ds in if d == b'|' then some seen else rest

-- OAuthIdentities
unfoldable pub oauth_identities : Store → Text → List Text
unfolding provider_of
oauth_identities s user_id = with_id user_id [] λ n.
    sort_by text_ltb (
      distinct (collect (λ k uid. elim (uid == n) [ true ↦ provider_of k | false ↦ none ]) s.oauth))
