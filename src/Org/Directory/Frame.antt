-- ===== src/Org/Directory/Frame.antt =====
-- What the steps of a view keep of the tables of accounts and groups.
use go_auth_x.Base.{
  Bool, Bool-cases, List, [], arith, inl, inr, refl, suc, ℕ, ◌+◌, ◌<◌, ◌∷◌, ◌≡◌, ◌≤◌,
}
use go_auth_x.Memory.Erase.{delete_user_cascade}
use go_auth_x.Memory.Groups.{
  add_user_to_group, add_users_to_group, create_org_group, delete_group, insert_group,
  remove_user_from_group, remove_users_from_group,
}
use go_auth_x.Memory.Groups.Names.{ValidGroups}
use go_auth_x.Memory.Orgs.{org_role, remove_org_member, set_org_member}
use go_auth_x.Memory.Otps.Attempts.{left}
use go_auth_x.Memory.Store.{Store}
use go_auth_x.Memory.Upsert.{
  adopt, insert_login, update_known, upsert_external_user, upsert_user_on_login,
}
use go_auth_x.Memory.Users.Lookup.{Valid}
use go_auth_x.Org.{member}
use go_auth_x.Org.Directory.{
  add_group_members, ensure_member, is_not_member, remove_group_members, set_user_disabled_in,
  with_user,
}
use go_auth_x.Text.{Text, u64}
use go_auth_x.Types.{AuthUser, Result, Result-cases, Time, err, ok}

-- What the steps rely on: the tables are well formed, and `left` more rows fit the counters.
pub record IsReady (left : ℕ) (s : Store) : Type 0 where
  pub users : Valid s
  pub groups : ValidGroups s
  pub seq : s.seq + left < u64
  pub group_seq : s.group_seq + left < u64

abbrev pub SameAccounts : Store → Store → Type 0
SameAccounts s s' = (s'.seq ≡ s.seq) × (s'.users ≡ s.users)

abbrev pub SameGroups : Store → Store → Type 0
SameGroups s s' = (s'.group_seq ≡ s.group_seq) × (s'.groups ≡ s.groups)

abbrev pub Same : Store → Store → Type 0
Same s s' = SameAccounts s s' × SameGroups s s'

pub set_org_member-Same :
    (s : Store) (org_id uid role : Text) → Same s (set_org_member s org_id uid role).0
unfolding set_org_member
set_org_member-Same s org_id uid role = ((ground arith, ground arith), (ground arith, ground arith))

pub remove_org_member-Same :
    (s : Store) (org_id uid : Text) → Same s (remove_org_member s org_id uid)
unfolding remove_org_member
remove_org_member-Same s org_id uid = ((ground arith, ground arith), (ground arith, ground arith))

pub ensure_member-Same : (s : Store) (org_id uid : Text) → Same s (ensure_member s org_id uid).0
unfolding ensure_member
ensure_member-Same s org_id uid = elim (Result-cases (org_role s org_id uid)) [
  | inl (role, e) ↦ rw (ensure_member, e) ((refl, refl), (refl, refl))
  | inr (x, e) ↦ elim (Bool-cases (is_not_member x)) [
    | inr b ↦ rw (ensure_member, e, b) ((refl, refl), (refl, refl))
    | inl b ↦ rw (ensure_member, e, b) (set_org_member-Same s org_id uid member)
  ]
]

pub set_user_disabled-Same :
    (s : Store) (org_id uid : Text) (disabled : Bool)
    → Same s (set_user_disabled_in s org_id uid disabled).0
unfolding set_user_disabled_in remove_org_member
set_user_disabled-Same s org_id uid disabled =
    ((ground arith, ground arith), (ground arith, ground arith))

pub upsert-groups :
    (s : Store) (sub email name : Text) (verified : Bool) (now : Time)
    → SameGroups s (upsert_external_user s sub email name verified now).0
unfolding upsert_external_user upsert_user_on_login update_known adopt insert_login
    delete_user_cascade
upsert-groups s sub email name verified now = (ground arith, ground arith)

pub upsert-seq :
    (s : Store) (sub email name : Text) (verified : Bool) (now : Time)
    → (upsert_external_user s sub email name verified now).0.seq ≤ s.seq + 1
unfolding upsert_external_user upsert_user_on_login update_known adopt insert_login
    delete_user_cascade
upsert-seq s sub email name verified now = ground arith

pub add_user-Same : (s : Store) (uid group_id : Text) → Same s (add_user_to_group s uid group_id)
unfolding add_user_to_group
add_user-Same s uid group_id = ((ground arith, ground arith), (ground arith, ground arith))

pub remove_user-Same :
    (s : Store) (uid group_id : Text) → Same s (remove_user_from_group s uid group_id)
unfolding remove_user_from_group
remove_user-Same s uid group_id = ((ground arith, ground arith), (ground arith, ground arith))

pub add_users-Same :
    (s : Store) (uids : List Text) (group_id : Text) → Same s (add_group_members s uids group_id)
unfolding add_group_members add_users_to_group
add_users-Same s [] group_id = ((refl, refl), (refl, refl))
add_users-Same s (u ∷ us) group_id = ((ground arith, ground arith), (ground arith, ground arith))

pub remove_users-Same :
    (s : Store) (uids : List Text) (group_id : Text) → Same s (remove_group_members s uids group_id)
unfolding remove_group_members remove_users_from_group
remove_users-Same s [] group_id = ((refl, refl), (refl, refl))
remove_users-Same s (u ∷ us) group_id = ((ground arith, ground arith), (ground arith, ground arith))

pub Same-IsReady : (left : ℕ) (s s' : Store) → Same s s' → IsReady left s → IsReady left s'
Same-IsReady left s s' ((seq, users), (group_seq, groups)) ready = record {
  users = rw (seq, users) ready.users;
  groups = rw (group_seq, groups) ready.groups;
  seq = let room = ready.seq in omega arith;
  group_seq = let room = ready.group_seq in omega arith;
}

pub less-IsReady : (left : ℕ) (s : Store) → IsReady (suc left) s → IsReady left s
less-IsReady left s ready = record {
  users = ready.users;
  groups = ready.groups;
  seq = let room = ready.seq in omega arith;
  group_seq = let room = ready.group_seq in omega arith;
}

pub with_user-left : (u : AuthUser) (r : Store × Result (Unit {0})) → (with_user u r).0 ≡ r.0
with_user-left u (s, ok x) = refl
with_user-left u (s, err e) = refl

pub new_group-SameAccounts :
    (s : Store) (org_id name description : Text) (now : Time)
    → SameAccounts s (create_org_group s org_id name description now).0
unfolding create_org_group insert_group
new_group-SameAccounts s org_id name description now = (ground arith, ground arith)

pub new_group-seq :
    (s : Store) (org_id name description : Text) (now : Time)
    → (create_org_group s org_id name description now).0.group_seq ≤ s.group_seq + 1
unfolding create_org_group insert_group
new_group-seq s org_id name description now = ground arith

pub delete_group-SameAccounts : (s : Store) (id : Text) → SameAccounts s (delete_group s id)
unfolding delete_group
delete_group-SameAccounts s id = (ground arith, ground arith)

pub delete_group-seq : (s : Store) (id : Text) → (delete_group s id).group_seq ≡ s.group_seq
unfolding delete_group
delete_group-seq s id = ground arith
