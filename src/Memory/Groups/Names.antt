-- ===== src/Memory/Groups/Names.antt =====
-- Groups: one for each name in each namespace.
use go_auth_x.Base.{
  Option-cases, arith, inl, inr, list_beq_iff, list_eq, nat_eq, some, ℕ, ◌+◌, ◌<◌, ◌≡◌, ◌≤◌,
}
use go_auth_x.Map.{Map, find_value, find_value_complete, get, get-delete, get-put}
use go_auth_x.Memory.Groups.{create_org_group, delete_group, group_named, insert_group}
use go_auth_x.Memory.Store.{Store, next_id}
use go_auth_x.Memory.Users.{with_id_cases}
use go_auth_x.Text.{Text, id_str, trim_space, u64}
use go_auth_x.Types.{Group, Result, Time}

pub record IsValidGroups (seq : ℕ) (groups : Map ℕ Group) : Type 0 where
  pub issued : (k : ℕ) (g : Group) → get groups k ≡ some g → k ≤ seq
  pub one_name :
      (j k : ℕ) (g h : Group)
      → get groups j ≡ some g
      → get groups k ≡ some h
      → g.org_id ≡ h.org_id
      → g.name ≡ h.name
      → j ≡ k

abbrev pub ValidGroups : Store → Type 0
ValidGroups s = IsValidGroups s.group_seq s.groups

module _ (s : Store) (valid : ValidGroups s) where
  pub insert_group-ValidGroups :
      (org_id name description : Text) (now : Time)
      → s.group_seq + 1 < u64
      → ValidGroups (insert_group s org_id name description now).0
  unfolding insert_group
  insert_group-ValidGroups org_id name description now room =
      elim (Option-cases (find_value (group_named org_id (trim_space name)) s.groups)) [
        | inr (other, m) ↦ rw (m, insert_group) valid
        | inl m ↦
            let gid = next_id s.group_seq in
            let g : Group = record {
              id = id_str gid;
              name = trim_space name;
              description = description;
              created_at = now;
              updated_at = now;
              org_id = org_id;
            } in
            let free = find_value_complete (group_named org_id (trim_space name)) s.groups in
            rw (m, insert_group)
              (record {
                issued = λ k x h. ground (arith, get-put s.groups gid g k, valid.issued k x);
                one_name = λ j k x y hj hk o e. ground (
                  arith,
                  get-put s.groups gid g j,
                  get-put s.groups gid g k,
                  valid.one_name j k x y,
                  free j x,
                  free k y,
                  list_beq_iff x.org_id org_id,
                  list_beq_iff x.name (trim_space name),
                  list_beq_iff y.org_id org_id,
                  list_beq_iff y.name (trim_space name),
                );
              })
      ]

  -- CreateOrgGroup keeps one group for each name of each namespace.
  pub create_org_group-ValidGroups :
      (org_id name description : Text) (now : Time)
      → s.group_seq + 1 < u64
      → ValidGroups (create_org_group s org_id name description now).0
  unfolding create_org_group
  create_org_group-ValidGroups org_id name description now room =
      with_id_cases (λ (r : Store × Result Group). ValidGroups r.0) org_id valid
        λ n e. elim (Option-cases (get s.orgs n)) [
          | inl m ↦ rw m valid
          | inr (o, m) ↦ rw m (insert_group-ValidGroups (id_str n) name description now room)
        ]

  pub delete_group-ValidGroups : (id : Text) → ValidGroups (delete_group s id)
  unfolding delete_group
  delete_group-ValidGroups id = with_id_cases ValidGroups id valid λ n e. record {
    issued = λ k g h. ground (arith, get-delete s.groups n k, valid.issued k g);
    one_name = λ j k g h hj hk.
        ground (arith, get-delete s.groups n j, get-delete s.groups n k, valid.one_name j k g h);
  }
