-- ===== src/Org/Directory/Grouping.antt =====
-- The groups that a view changes.
use go_auth_x.Base.{
  Bool, Bool-cases, List, Option-cases, [], ap, arith, inl, inr, list_beq_iff, list_eq, nat_beq_iff,
  nat_eq, none, not, refl, some, ℕ, ◌+◌, ◌<◌, ◌∙◌, ◌∷◌, ◌≡◌, ◌≢◌,
}
use go_auth_x.Map.{Map, find_value, get, get-delete, get-put, is_some, put}
use go_auth_x.Memory.Groups.{
  add_member, add_members, add_user_to_group, add_users_to_group, create_org_group, delete_group,
  drop_member, drop_members, group_named, groups_of, insert_group, is_member, org_of_group,
  remove_user_from_group, remove_users_from_group,
}
use go_auth_x.Memory.Groups.Names.{ValidGroups}
use go_auth_x.Memory.Groups.Sets.{
  other_added, other_deleted, other_dropped, others_added, others_dropped,
}
use go_auth_x.Memory.Store.{Store, next_id}
use go_auth_x.Memory.Users.{with_id, with_id_cases}
use go_auth_x.Org.Directory.{
  add_group_members, add_user_to_group_in, add_users_to_group_in, create_group_in, delete_group_in,
  gated, group_in_org, is_member_in, org_members_of, remove_group_members,
  remove_user_from_group_in, remove_users_from_group_in,
}
use go_auth_x.Org.Directory.Confined.{IsConfined, IsConfined-refl, IsForeign, groups-IsConfined}
use go_auth_x.Text.{Text, id_str, parse_id, trim_space, u64}
use go_auth_x.Types.{Group, Result, Result-cases, Time}

-- What passes the gate is a group of the organization.
pub group_in_org-none :
    (s : Store) (org_id group_id : Text) (gid : ℕ) (g : Group)
    → parse_id group_id ≡ some gid
    → group_in_org s org_id group_id ≡ none
    → get s.groups gid ≡ some g
    → g.org_id ≡ org_id
unfolding group_in_org org_of_group
group_in_org-none s org_id group_id gid g e h row = ground (arith, list_beq_iff g.org_id org_id)

module _ (org_id : Text) (n : ℕ) (en : parse_id org_id ≡ some n) (s : Store) where
  abbrev Ends : Store → Type 0
  Ends = IsConfined org_id n s

  -- A group of another organization is not the one that passed the gate.
  apart :
      (group_id : Text) (gid j : ℕ) (g : Group)
      → parse_id group_id ≡ some gid
      → group_in_org s org_id group_id ≡ none
      → get s.groups j ≡ some g
      → IsForeign n g
      → gid ≢ j
  apart group_id gid j g e h row foreign same =
      let own = group_in_org-none s org_id group_id gid g e h (ap (get s.groups) same ∙ row) in
      foreign (ap parse_id own ∙ en)

  -- A step that writes who is in a group that passed the gate.
  members_confined :
      (group_id : Text) (f : ℕ → Map ℕ (Map ℕ Bool))
      → group_in_org s org_id group_id ≡ none
      → ((gid v j : ℕ)
          → gid ≢ j
          → is_some (get (groups_of (f gid) v) j) ≡ is_some (get (groups_of s.memberships v) j))
      → Ends (with_id group_id s λ gid. record s { memberships = f gid })
  unfolding is_member
  members_confined group_id f h same =
      with_id_cases Ends group_id (IsConfined-refl org_id n s) λ gid e.
        groups-IsConfined org_id n s (record s { memberships = f gid }) refl
          (λ j g row foreign. row)
          λ j v g row foreign. same gid v j (apart group_id gid j g e h row foreign)

  gated_confined :
      (group_id : Text) (r : Store × Result (Unit {0}))
      → (group_in_org s org_id group_id ≡ none → Ends r.0)
      → Ends (gated s (group_in_org s org_id group_id) r).0
  gated_confined group_id r h = elim (Option-cases (group_in_org s org_id group_id)) [
    | inl e ↦ rw e (h e)
    | inr (x, e) ↦ rw e (IsConfined-refl org_id n s)
  ]

  delete_confined :
      (group_id : Text) → group_in_org s org_id group_id ≡ none → Ends (delete_group s group_id)
  unfolding delete_group is_member
  delete_confined group_id h = with_id_cases Ends group_id (IsConfined-refl org_id n s) λ gid e.
      groups-IsConfined org_id n s _ refl
        (λ j g row foreign. ground (
          arith,
          get-delete s.groups gid j,
          nat_beq_iff gid j,
          apart group_id gid j g e h row foreign,
        ))
        λ j v g row foreign.
          other_deleted gid s.memberships v j (apart group_id gid j g e h row foreign)

  pub delete_group_in_confined : (group_id : Text) → Ends (delete_group_in s org_id group_id).0
  unfolding delete_group_in
  delete_group_in_confined group_id = gated_confined group_id _ (delete_confined group_id)

  add_confined :
      (uid group_id : Text)
      → group_in_org s org_id group_id ≡ none
      → Ends (add_user_to_group s uid group_id)
  unfolding add_user_to_group
  add_confined uid group_id h = with_id_cases Ends uid (IsConfined-refl org_id n s) λ k e.
      members_confined group_id (λ gid. add_member k gid s.memberships) h
        λ gid v j. other_added k gid s.memberships v j

  pub add_user_to_group_in_confined :
      (uid group_id : Text) → Ends (add_user_to_group_in s org_id uid group_id).0
  unfolding add_user_to_group_in
  add_user_to_group_in_confined uid group_id = gated_confined group_id _ λ h.
      elim (Bool-cases (not (is_member_in s org_id uid))) [
        | inl b ↦ rw b (IsConfined-refl org_id n s)
        | inr b ↦ rw b (add_confined uid group_id h)
      ]

  remove_confined :
      (uid group_id : Text)
      → group_in_org s org_id group_id ≡ none
      → Ends (remove_user_from_group s uid group_id)
  unfolding remove_user_from_group
  remove_confined uid group_id h = with_id_cases Ends uid (IsConfined-refl org_id n s) λ k e.
      members_confined group_id (λ gid. drop_member k gid s.memberships) h
        λ gid v j. other_dropped k gid s.memberships v j

  pub remove_user_from_group_in_confined :
      (uid group_id : Text) → Ends (remove_user_from_group_in s org_id uid group_id).0
  unfolding remove_user_from_group_in
  remove_user_from_group_in_confined uid group_id =
      gated_confined group_id _ (remove_confined uid group_id)

  add_batch_confined :
      (uids : List Text) (group_id : Text)
      → group_in_org s org_id group_id ≡ none
      → Ends (add_group_members s uids group_id)
  unfolding add_group_members add_users_to_group
  add_batch_confined [] group_id h = IsConfined-refl org_id n s
  add_batch_confined (u ∷ us) group_id h =
      members_confined group_id (λ gid. add_members gid (u ∷ us) s.memberships) h
        λ gid v j. others_added gid (u ∷ us) s.memberships v j

  pub add_users_to_group_in_confined :
      (uids : List Text) (group_id : Text) → Ends (add_users_to_group_in s org_id uids group_id).0
  unfolding add_users_to_group_in
  add_users_to_group_in_confined uids group_id = gated_confined group_id _ λ h.
      elim (Result-cases (org_members_of s org_id uids)) [
        | inl (found, e) ↦ rw e (add_batch_confined found group_id h)
        | inr (x, e) ↦ rw e (IsConfined-refl org_id n s)
      ]

  remove_batch_confined :
      (uids : List Text) (group_id : Text)
      → group_in_org s org_id group_id ≡ none
      → Ends (remove_group_members s uids group_id)
  unfolding remove_group_members remove_users_from_group
  remove_batch_confined [] group_id h = IsConfined-refl org_id n s
  remove_batch_confined (u ∷ us) group_id h =
      members_confined group_id (λ gid. drop_members gid (u ∷ us) s.memberships) h
        λ gid v j. others_dropped gid (u ∷ us) s.memberships v j

  pub remove_users_from_group_in_confined :
      (uids : List Text) (group_id : Text)
      → Ends (remove_users_from_group_in s org_id uids group_id).0
  unfolding remove_users_from_group_in
  remove_users_from_group_in_confined uids group_id =
      gated_confined group_id _ (remove_batch_confined uids group_id)

  insert_confined :
      (org name description : Text) (now : Time)
      → ValidGroups s
      → s.group_seq + 1 < u64
      → Ends (insert_group s org name description now).0
  unfolding insert_group is_member
  insert_confined org name description now valid room =
      elim (Option-cases (find_value (group_named org (trim_space name)) s.groups)) [
        | inr (other, m) ↦ rw (m, insert_group) (IsConfined-refl org_id n s)
        | inl m ↦
            let gid = next_id s.group_seq in
            let g : Group = record {
              id = id_str gid;
              name = trim_space name;
              description = description;
              created_at = now;
              updated_at = now;
              org_id = org;
            } in
            rw (m, insert_group)
              (groups-IsConfined org_id n s
                (record s { group_seq = gid; groups = put s.groups gid g }) refl
                (λ j x row foreign. ground (arith, get-put s.groups gid g j, valid.issued j x))
                λ j v x row foreign. refl)
      ]

  pub create_group_in_confined :
      (name description : Text) (now : Time)
      → ValidGroups s
      → s.group_seq + 1 < u64
      → Ends (create_group_in s org_id name description now).0
  unfolding create_group_in create_org_group
  create_group_in_confined name description now valid room =
      with_id_cases (λ (r : Store × Result Group). Ends r.0) org_id (IsConfined-refl org_id n s)
        λ m e. elim (Option-cases (get s.orgs m)) [
          | inl o ↦ rw o (IsConfined-refl org_id n s)
          | inr (x, o) ↦ rw o (insert_confined (id_str m) name description now valid room)
        ]
