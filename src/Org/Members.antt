-- ===== src/Org/Members.antt =====
-- orgs_handlers.go: the handlers on the members of the active organization. What follows the lock
-- a.orgMu is a function of its own, since other requests may run between the gates and the lock.
use go_auth_x.Base.{
  Bool, List, Option, [], false, if◌then◌else◌, list_eq, nat_eq, none, not, some, suc, true, ℕ,
  ◌!=◌, ◌&&◌, ◌==◌, ◌||◌, ◌∷◌,
}
use go_auth_x.Memory.Listings.{list_org_members, user_orgs}
use go_auth_x.Memory.Orgs.{org_by_slug, org_role, remove_org_member, set_org_member}
use go_auth_x.Memory.Store.{Store}
use go_auth_x.Org.{is_manager, owner, resolve_org}
use go_auth_x.Org.Gate.{
  Gate, Reply, active_org_manager, active_org_role, answer, deny, deny_if, done, go, norm_org_role,
  org_actor, org_audit, param_id, refuse_actor, refuse_target, remint_with_org, role_or, ◌>>=◌,
  ◌>>◌,
}
use go_auth_x.Session.{SessionClaims}
use go_auth_x.Text.{Bytes, Text, trim_space}
use go_auth_x.Types.{AuthUser, Org, OrgMember, Result, Time, UserOrg, err, no_org, ok}

-- The loop of soleOwner: how many owners there are, and whether the user is one.
unfoldable pub count_owners : Text → List OrgMember → ℕ × Bool
count_owners user_id [] = (0, false)
count_owners user_id (m ∷ members) =
    let (owners, is_owner) = count_owners user_id members in
    if m.role == owner then (suc owners, m.user.id == user_id || is_owner) else (owners, is_owner)

-- soleOwner
unfoldable pub sole_owner : Store → Text → Text → Result Bool
unfolding list_org_members count_owners
sole_owner s org_id user_id = elim (list_org_members s org_id) [
  | err e ↦ err e
  | ok members ↦
      let (owners, is_owner) = count_owners user_id members in ok (is_owner && owners == 1)
]

-- The guard of both handlers: 409 where the user is the only owner.
unfoldable pub keep_an_owner : Store → Text → Text → Gate (Unit {0})
unfolding sole_owner
keep_an_owner s org_id user_id = elim (sole_owner s org_id user_id) [
  | err _ ↦ deny 500
  | ok is_sole ↦ deny_if is_sole 409
]

abbrev pub guard_owner : Bool → Store → Text → Text → Gate (Unit {0})
guard_owner true s org_id user_id = keep_an_owner s org_id user_id
guard_owner false s org_id user_id = go tt

abbrev pub fail_or {ℓ} : {A : Type ℓ} → Store → Result A → Gate (Unit {0})
fail_or s (ok _) = go tt
fail_or s (err _) = deny 500

-- OrgMemberSetRole behind the lock
unfoldable pub set_role_locked : Store → Text → Text → Text → Text → Time → Store × Reply
unfolding keep_an_owner
set_role_locked s org_id actor_role uid new_role now = answer s do
  target_role ← role_or refuse_target (org_role s org_id uid)
  deny_if ((new_role == owner || target_role == owner) && actor_role != owner) 403
  guard_owner (target_role == owner && new_role != owner) s org_id uid
  fail_or s (set_org_member s org_id uid new_role).1
  done (org_audit (set_org_member s org_id uid new_role).0 uid now) none

-- OrgMemberSetRole; `target` and `raw_role` come from the path and the body
unfoldable pub org_member_set_role :
    Store → Option SessionClaims → Text → Text → Time → Store × Reply
unfolding active_org_manager param_id norm_org_role set_role_locked
org_member_set_role s session target raw_role now = answer s do
  actor ← active_org_manager s session
  uid ← param_id target
  new_role ← norm_org_role raw_role []
  go (set_role_locked s actor.claims.org actor.role uid new_role now)

-- OrgMemberRemove behind the lock; `cookie` is the leaver's new cookie, or nothing
unfoldable pub remove_locked :
    Store → Text → Text → Text → Option SessionClaims → Time → Store × Reply
unfolding keep_an_owner
remove_locked s org_id actor_role uid cookie now = answer s do
  target_role ← role_or refuse_target (org_role s org_id uid)
  deny_if (target_role == owner && actor_role != owner) 403
  guard_owner (target_role == owner) s org_id uid
  done (org_audit (remove_org_member s org_id uid) uid now) cookie

-- OrgMemberRemove
unfoldable pub org_member_remove :
    Store → Bytes → Option SessionClaims → Text → Time → Store × Reply
unfolding active_org_role param_id remove_locked remint_with_org
org_member_remove s secret session target now = answer s do
  actor ← active_org_role s session
  uid ← param_id target
  let leaving = uid == actor.user.id
  deny_if (not leaving && not (is_manager actor.role)) 403
  let cookie = if leaving then remint_with_org secret actor.claims [] [] now else none
  go (remove_locked s actor.claims.org actor.role uid cookie now)

-- OrgList, the memberships of the signed-in user with the active organization
unfoldable pub org_list : Store → Option SessionClaims → Gate (List UserOrg × Text)
unfolding org_actor user_orgs
org_list s session = do (sc, u) ← org_actor s session; go (user_orgs s u.id, sc.org)

-- OrgMemberList
unfoldable pub org_member_list : Store → Option SessionClaims → Gate (List OrgMember)
unfolding active_org_role list_org_members
org_member_list s session = do
  actor ← active_org_role s session
  elim (list_org_members s actor.claims.org) [ ok members ↦ go members | err _ ↦ deny 500 ]

abbrev found_org : Result Org → Gate Org
found_org (ok o) = go o
found_org (err no_org) = deny 403
found_org (err _) = deny 500

abbrev reminted : Store → Option SessionClaims → Gate (Store × Reply)
reminted s none = deny 401
reminted s (some cookie) = done s (some cookie)

-- OrgSwitch, where the body names an organization
unfoldable pub switch_to :
    Store → Bytes → SessionClaims → AuthUser → Result Org → Time → Store × Reply
unfolding remint_with_org
switch_to s secret sc u found now = answer s do
  o ← found_org found
  role ← role_or refuse_actor (org_role s o.id u.id)
  reminted s (remint_with_org secret sc o.id role now)

-- OrgSwitch; `org` and `slug` come from the body
unfoldable pub org_switch :
    Store → Bytes → Option SessionClaims → Text → Text → Time → Store × Reply
unfolding org_actor switch_to remint_with_org
org_switch s secret session org slug now = answer s do
  (sc, u) ← org_actor s session
  let target = trim_space org
  let handle = trim_space slug
  elim (target == [] && handle == []) [
    | true ↦ reminted s (remint_with_org secret sc [] [] now)
    | false ↦ go (
        switch_to s secret sc u
          (if handle != [] then org_by_slug s handle else resolve_org s target) now)
  ]
