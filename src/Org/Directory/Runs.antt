-- ===== src/Org/Directory/Runs.antt =====
-- Any sequence of calls through the view of one organization.
use go_auth_x.Base.{
  Bool, Bool-cases, List, Option-cases, [], arith, inl, inr, length, not, some, subst, suc, sym, ℕ,
  ◌∷◌, ◌≡◌,
}
use go_auth_x.Memory.Groups.{add_user_to_group, delete_group, remove_user_from_group}
use go_auth_x.Memory.Groups.Names.{create_org_group-ValidGroups, delete_group-ValidGroups}
use go_auth_x.Memory.Store.{Store}
use go_auth_x.Memory.Upsert.{upsert_external_user}
use go_auth_x.Memory.Upsert.Valid.{upsert_user_on_login-Valid}
use go_auth_x.Memory.Users.{user_by_email}
use go_auth_x.Org.Directory.{
  add_group_members, add_user_to_group_in, add_users_to_group_in, create_group_in, delete_group_in,
  email_refusal, enrol, ensure_member, gated, group_in_org, is_member_in, ns_sub, org_members_of,
  org_sub_prefix, remove_group_members, remove_user_from_group_in, remove_users_from_group_in,
  set_user_disabled_in, upsert_external_user_in,
}
use go_auth_x.Org.Directory.Accounts.{upsert-IsConfined}
use go_auth_x.Org.Directory.Confined.{IsConfined, IsConfined-refl, IsConfined-trans}
use go_auth_x.Org.Directory.Frame.{
  IsReady, Same, add_user-Same, add_users-Same, delete_group-SameAccounts, delete_group-seq,
  ensure_member-Same, less-IsReady, new_group-SameAccounts, new_group-seq, remove_user-Same,
  remove_users-Same, Same-IsReady, set_user_disabled-Same, upsert-groups, upsert-seq,
  with_user-left,
}
use go_auth_x.Org.Directory.Grouping.{
  add_user_to_group_in_confined, add_users_to_group_in_confined, create_group_in_confined,
  delete_group_in_confined, remove_user_from_group_in_confined, remove_users_from_group_in_confined,
}
use go_auth_x.Org.Directory.Roles.{ensure_member-IsConfined, set_user_disabled-IsConfined}
use go_auth_x.Text.{Text, has_prefix, parse_id}
use go_auth_x.Types.{AuthUser, Result, Result-cases, Time, err, ok}

-- The calls that may change the store.
pub data ViewCall : Type 0 where
  upsert : Text → Text → Text → Bool → Time → ViewCall
  set_disabled : Text → Bool → ViewCall
  new_group : Text → Text → Time → ViewCall
  drop_group_of : Text → ViewCall
  group_user ungroup_user : Text → Text → ViewCall
  group_users ungroup_users : List Text → Text → ViewCall

pub call : Text → Store → ViewCall → Store
unfolding upsert_external_user_in set_user_disabled_in create_group_in delete_group_in
    add_user_to_group_in remove_user_from_group_in add_users_to_group_in remove_users_from_group_in
call org_id s (upsert sub email name verified now) =
    (upsert_external_user_in s org_id sub email name verified now).0
call org_id s (set_disabled uid disabled) = (set_user_disabled_in s org_id uid disabled).0
call org_id s (new_group name description now) = (create_group_in s org_id name description now).0
call org_id s (drop_group_of group_id) = (delete_group_in s org_id group_id).0
call org_id s (group_user uid group_id) = (add_user_to_group_in s org_id uid group_id).0
call org_id s (ungroup_user uid group_id) = (remove_user_from_group_in s org_id uid group_id).0
call org_id s (group_users uids group_id) = (add_users_to_group_in s org_id uids group_id).0
call org_id s (ungroup_users uids group_id) = (remove_users_from_group_in s org_id uids group_id).0

unfoldable pub calls : Text → Store → List ViewCall → Store
unfolding call
calls org_id s [] = s
calls org_id s (c ∷ cs) = calls org_id (call org_id s c) cs

module _ (org_id : Text) (n : ℕ) (en : parse_id org_id ≡ some n) (left : ℕ) (s : Store)
    (ready : IsReady (suc left) s) where
  -- What a call is shown to do.
  abbrev Does : Store → Type 0
  Does s' = IsConfined org_id n s s' × IsReady left s'

  nothing : Does s
  nothing = (IsConfined-refl org_id n s, less-IsReady left s ready)

  upserted :
      (ns email name : Text) (verified : Bool) (now : Time)
      → IsReady left (upsert_external_user s ns email name verified now).0
  unfolding upsert_external_user
  upserted ns email name verified now =
      let s' = (upsert_external_user s ns email name verified now).0 in
      let (group_seq, groups) = upsert-groups s ns email name verified now in
      let seq = upsert-seq s ns email name verified now in
      let room = ready.seq in
      let group_room = ready.group_seq in
      record {
        users = upsert_user_on_login-Valid s ready.users ns email name verified now (omega arith);
        groups = rw (group_seq, groups) ready.groups;
        seq = omega arith;
        group_seq = omega arith;
      }

  enrolled : (t : Store) (r : Result AuthUser) → Does t → Does (enrol org_id (t, r)).0
  enrolled t (err e) has = has
  enrolled t (ok u) (confined, well) =
      let r = ensure_member t org_id u.id in
      subst Does (sym (with_user-left u r)) (
        IsConfined-trans org_id n s t r.0 confined (ensure_member-IsConfined org_id n en t u.id),
        Same-IsReady left t r.0 (ensure_member-Same t org_id u.id) well,
      )

  upsert_does :
      (sub email name : Text) (verified : Bool) (now : Time)
      → Does (upsert_external_user_in s org_id sub email name verified now).0
  unfolding upsert_external_user_in
  upsert_does sub email name verified now =
      let ns = ns_sub org_id sub in
      let room = ready.seq in
      elim (Bool-cases (not (has_prefix ns (org_sub_prefix org_id)))) [
        | inl b ↦ rw (upsert_external_user_in, b) nothing
        | inr b ↦ elim (Option-cases (email_refusal (user_by_email s email) ns)) [
          | inr (x, e) ↦ rw (upsert_external_user_in, b, e) nothing
          | inl e ↦
              let r = upsert_external_user s ns email name verified now in
              rw (upsert_external_user_in, b, e)
                (enrolled r.0 r.1 (
                  upsert-IsConfined org_id n s ready.users ns email name verified now (ground arith)
                      (omega arith) e,
                  upserted ns email name verified now,
                ))
        ]
      ]

  same_does : (s' : Store) → IsConfined org_id n s s' → Same s s' → Does s'
  same_does s' confined same = (confined, Same-IsReady left s s' same (less-IsReady left s ready))

  gated_does :
      (group_id : Text) (r : Store × Result (Unit {0}))
      → IsReady left r.0
      → IsReady left (gated s (group_in_org s org_id group_id) r).0
  gated_does group_id r well = elim (Option-cases (group_in_org s org_id group_id)) [
    | inl e ↦ rw e well
    | inr (x, e) ↦ rw e (less-IsReady left s ready)
  ]

  created :
      (name description : Text) (now : Time)
      → IsReady left (create_group_in s org_id name description now).0
  unfolding create_group_in
  created name description now =
      let room = ready.seq in
      let group_room = ready.group_seq in
      let (seq, users) = new_group-SameAccounts s org_id name description now in
      let bound = new_group-seq s org_id name description now in
      record {
        users = rw (seq, users) ready.users;
        groups =
            create_org_group-ValidGroups s ready.groups org_id name description now (omega arith);
        seq = omega arith;
        group_seq = omega arith;
      }

  deleted : (id : Text) → IsReady left (delete_group_in s org_id id).0
  unfolding delete_group_in
  deleted id =
      let room = ready.seq in
      let group_room = ready.group_seq in
      let (seq, users) = delete_group-SameAccounts s id in
      let bound = delete_group-seq s id in
      gated_does id (delete_group s id, ok tt)
        (record {
          users = rw (seq, users) ready.users;
          groups = delete_group-ValidGroups s ready.groups id;
          seq = omega arith;
          group_seq = omega arith;
        })

  added : (uid group_id : Text) → IsReady left (add_user_to_group_in s org_id uid group_id).0
  unfolding add_user_to_group_in
  added uid group_id = gated_does group_id _ (elim (Bool-cases (not (is_member_in s org_id uid))) [
    | inl b ↦ rw b (less-IsReady left s ready)
    | inr b ↦ rw b (
        Same-IsReady left s (add_user_to_group s uid group_id) (add_user-Same s uid group_id)
          (less-IsReady left s ready))
  ])

  removed : (uid group_id : Text) → IsReady left (remove_user_from_group_in s org_id uid group_id).0
  unfolding remove_user_from_group_in
  removed uid group_id = gated_does group_id _ (
      Same-IsReady left s (remove_user_from_group s uid group_id) (remove_user-Same s uid group_id)
        (less-IsReady left s ready))

  added_batch :
      (uids : List Text) (group_id : Text)
      → IsReady left (add_users_to_group_in s org_id uids group_id).0
  unfolding add_users_to_group_in
  added_batch uids group_id =
      gated_does group_id _ (elim (Result-cases (org_members_of s org_id uids)) [
        | inr (x, e) ↦ rw e (less-IsReady left s ready)
        | inl (found, e) ↦ rw e (
            Same-IsReady left s (add_group_members s found group_id)
              (add_users-Same s found group_id) (less-IsReady left s ready))
      ])

  removed_batch :
      (uids : List Text) (group_id : Text)
      → IsReady left (remove_users_from_group_in s org_id uids group_id).0
  unfolding remove_users_from_group_in
  removed_batch uids group_id = gated_does group_id _ (
      Same-IsReady left s (remove_group_members s uids group_id) (remove_users-Same s uids group_id)
        (less-IsReady left s ready))

  call_does : (c : ViewCall) → Does (call org_id s c)
  unfolding call
  call_does (upsert sub email name verified now) = upsert_does sub email name verified now
  call_does (set_disabled uid disabled) =
      same_does _ (set_user_disabled-IsConfined org_id n en s uid disabled)
        (set_user_disabled-Same s org_id uid disabled)
  call_does (new_group name description now) =
      let group_room = ready.group_seq in
      (
        create_group_in_confined org_id n en s name description now ready.groups (omega arith),
        created name description now,
      )
  call_does (drop_group_of group_id) =
      (delete_group_in_confined org_id n en s group_id, deleted group_id)
  call_does (group_user uid group_id) =
      (add_user_to_group_in_confined org_id n en s uid group_id, added uid group_id)
  call_does (ungroup_user uid group_id) =
      (remove_user_from_group_in_confined org_id n en s uid group_id, removed uid group_id)
  call_does (group_users uids group_id) =
      (add_users_to_group_in_confined org_id n en s uids group_id, added_batch uids group_id)
  call_does (ungroup_users uids group_id) =
      (remove_users_from_group_in_confined org_id n en s uids group_id, removed_batch uids group_id)

-- Any sequence of calls through the view of one organization stays in it: on well-formed tables
-- whose counters have room for the calls, it leaves alone every account that its provider did not
-- make, passwords, factors, sessions, API keys and invitations, the roles in other organizations,
-- and the groups of others with their members; it takes the ownership from no owner, and the only
-- role that it gives is a member's.
pub calls-IsConfined :
    (org_id : Text) (n : ℕ) (s : Store) (cs : List ViewCall)
    → parse_id org_id ≡ some n
    → IsReady (length cs) s
    → IsConfined org_id n s (calls org_id s cs)
unfolding calls
calls-IsConfined org_id n s [] en ready = IsConfined-refl org_id n s
calls-IsConfined org_id n s (c ∷ cs) en ready =
    let (step, next) = call_does org_id n en (length cs) s ready c in
    IsConfined-trans org_id n s (call org_id s c) _ step
      (calls-IsConfined org_id n (call org_id s c) cs en next)
