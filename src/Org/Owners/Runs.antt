-- ===== src/Org/Owners/Runs.antt =====
-- Any sequence of requests to the member endpoints.
use go_auth_x.Base.{
  List, Option, [], arith, first, list_eq, nat_eq, none, refl, some, ℕ, ◌!=◌, ◌&&◌, ◌==◌, ◌||◌, ◌∷◌,
  ◌≡◌, ◌≢◌,
}
use go_auth_x.Memory.Audits.{record_audit}
use go_auth_x.Memory.Orgs.{org_role, remove_org_member, set_org_member}
use go_auth_x.Memory.Store.{Store}
use go_auth_x.Memory.Users.Lookup.{Valid}
use go_auth_x.Org.{owner}
use go_auth_x.Org.Gate.{answer_bind, deny_if, done, org_audit, refuse_target, role_or, ◌>>=◌}
use go_auth_x.Org.Members.{fail_or, guard_owner, remove_locked, set_role_locked}
use go_auth_x.Org.Owners.{HasOwner}
use go_auth_x.Org.Owners.Escalation.{SameOwners, remove_no_escalation, set_role_no_escalation}
use go_auth_x.Org.Owners.Kept.{remove_keeps_owner, set_role_keeps_owner}
use go_auth_x.Session.{SessionClaims}
use go_auth_x.Text.{Text, id_str, parse_id}
use go_auth_x.Types.{Time}

-- A request behind the lock, with the role of the actor as it was read at the gates.
pub data MemberCall : Type 0 where
  set_role : Text → Text → Text → Text → Time → MemberCall
  remove : Text → Text → Text → Option SessionClaims → Time → MemberCall

pub perform : Store → MemberCall → Store
perform s (set_role org_id actor_role uid new_role now) =
    (set_role_locked s org_id actor_role uid new_role now).0
perform s (remove org_id actor_role uid cookie now) =
    (remove_locked s org_id actor_role uid cookie now).0

unfoldable pub perform_all : Store → List MemberCall → Store
perform_all s [] = s
perform_all s (c ∷ cs) = perform_all (perform s c) cs

-- The target is a user's identifier as the store prints it.
abbrev pub IsCanonical : MemberCall → Type 0
IsCanonical (set_role _ _ uid _ _) = (k : ℕ) × (parse_id uid ≡ some k) × (uid ≡ id_str k)
IsCanonical (remove _ _ uid _ _) = (k : ℕ) × (parse_id uid ≡ some k) × (uid ≡ id_str k)

-- The actor is no owner.
abbrev pub IsLower : MemberCall → Type 0
IsLower (set_role _ actor_role _ _ _) = actor_role ≢ owner
IsLower (remove _ actor_role _ _ _) = actor_role ≢ owner

abbrev pub All {ℓ} : (MemberCall → Type ℓ) → List MemberCall → Type ℓ
All P [] = Unit
All P (c ∷ cs) = P c × All P cs

abbrev SameUsers : Store → Store → Type 0
SameUsers s s' = (s'.seq ≡ s.seq) × (s'.users ≡ s.users)

set_org_member-users :
    (s : Store) (org_id uid role : Text) → SameUsers s (set_org_member s org_id uid role).0
unfolding set_org_member
set_org_member-users s org_id uid role = (ground arith, ground arith)

remove_org_member-users :
    (s : Store) (org_id uid : Text) → SameUsers s (remove_org_member s org_id uid)
unfolding remove_org_member
remove_org_member-users s org_id uid = (ground arith, ground arith)

set_role-users :
    (s : Store) (org_id actor_role uid new_role : Text) (now : Time)
    → SameUsers s (set_role_locked s org_id actor_role uid new_role now).0
unfolding set_role_locked record_audit
set_role-users s org_id actor_role uid new_role now =
    let P = λ (s' : Store). SameUsers s s' in
    let has : P s = (refl, refl) in
    let stored = set_org_member s org_id uid new_role in
    let end = λ (_ : Unit {0}). done (org_audit stored.0 uid now) none in
    let write = λ (_ : Unit {0}). fail_or s stored.1 >>= end in
    let guard = λ (target : Text) (_ : Unit {0}).
      guard_owner (target == owner && new_role != owner) s org_id uid >>= write in
    let high = λ (target : Text). (new_role == owner || target == owner) && actor_role != owner in
    let rank = λ (target : Text). deny_if (high target) 403 >>= guard target in
    answer_bind P s (role_or refuse_target (org_role s org_id uid)) rank has λ target e.
      answer_bind P s (deny_if (high target) 403) (guard target) has λ _ r.
        answer_bind P s (guard_owner (target == owner && new_role != owner) s org_id uid) write has
          λ _ g.
            answer_bind P s (fail_or s stored.1) end has
              λ _ w. set_org_member-users s org_id uid new_role

remove-users :
    (s : Store) (org_id actor_role uid : Text) (cookie : Option SessionClaims) (now : Time)
    → SameUsers s (remove_locked s org_id actor_role uid cookie now).0
unfolding remove_locked record_audit
remove-users s org_id actor_role uid cookie now =
    let P = λ (s' : Store). SameUsers s s' in
    let has : P s = (refl, refl) in
    let removed = remove_org_member s org_id uid in
    let end = λ (_ : Unit {0}). done (org_audit removed uid now) cookie in
    let guard =
      λ (target : Text) (_ : Unit {0}). guard_owner (target == owner) s org_id uid >>= end in
    let high = λ (target : Text). target == owner && actor_role != owner in
    let rank = λ (target : Text). deny_if (high target) 403 >>= guard target in
    answer_bind P s (role_or refuse_target (org_role s org_id uid)) rank has λ target e.
      answer_bind P s (deny_if (high target) 403) (guard target) has λ _ r.
        answer_bind P s (guard_owner (target == owner) s org_id uid) end has
          λ _ g. remove_org_member-users s org_id uid

perform-Valid : (s : Store) (c : MemberCall) → Valid s → Valid (perform s c)
unfolding perform
perform-Valid s (set_role org_id actor_role uid new_role now) v =
    let (e, f) = set_role-users s org_id actor_role uid new_role now in rw (e, f) v
perform-Valid s (remove org_id actor_role uid cookie now) v =
    let (e, f) = remove-users s org_id actor_role uid cookie now in rw (e, f) v

perform-HasOwner :
    (s : Store) (c : MemberCall) (m : ℕ)
    → Valid s
    → IsCanonical c
    → HasOwner s m
    → HasOwner (perform s c) m
unfolding perform
perform-HasOwner s (set_role org_id actor_role uid new_role now) m v (k, e, c) has =
    set_role_keeps_owner s org_id uid k v e c actor_role new_role now m has
perform-HasOwner s (remove org_id actor_role uid cookie now) m v (k, e, c) has =
    remove_keeps_owner s org_id uid k v e c actor_role cookie now m has

-- On a valid store, any sequence of OrgMemberSetRole and OrgMemberRemove behind their lock whose
-- targets are spelled as the store prints them leaves an owner in each organization that had one,
-- whoever asks, and whatever roles the actors had when they passed the gates.
pub perform_all-HasOwner :
    (s : Store) (calls : List MemberCall) (m : ℕ)
    → Valid s
    → All IsCanonical calls
    → HasOwner s m
    → HasOwner (perform_all s calls) m
unfolding perform_all
perform_all-HasOwner s [] m v canonical has = has
perform_all-HasOwner s (c ∷ cs) m v (first, rest) has =
    perform_all-HasOwner (perform s c) cs m (perform-Valid s c v) rest
      (perform-HasOwner s c m v first has)

perform-SameOwners : (s : Store) (c : MemberCall) (m : ℕ) → IsLower c → SameOwners m s (perform s c)
unfolding perform
perform-SameOwners s (set_role org_id actor_role uid new_role now) m lower =
    set_role_no_escalation s org_id actor_role uid now m lower new_role
perform-SameOwners s (remove org_id actor_role uid cookie now) m lower =
    remove_no_escalation s org_id actor_role uid now m lower cookie

-- Any sequence of OrgMemberSetRole and OrgMemberRemove behind their lock by actors who are no owners
-- leaves each organization with the owners that it had, the actors included.
pub perform_all-SameOwners :
    (s : Store) (calls : List MemberCall) (m : ℕ)
    → All IsLower calls
    → SameOwners m s (perform_all s calls)
unfolding perform_all
perform_all-SameOwners s [] m lower v = ((λ h. h), (λ h. h))
perform_all-SameOwners s (c ∷ cs) m (first, rest) v =
    let (back, forth) = perform_all-SameOwners (perform s c) cs m rest v in
    let (back', forth') = perform-SameOwners s c m first v in
    ((λ h. back' (back h)), (λ h. forth (forth' h)))
