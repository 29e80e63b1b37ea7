-- ===== src/Org/Directory/Roles.antt =====
-- The roles that a view gives and takes.
use go_auth_x.Base.{
  Bool, Bool-cases, Option-cases, ap, arith, beq_refl, false, if◌then◌else◌, inl, inr, list_beq_iff,
  list_eq, nat_beq, nat_beq_iff, nat_eq, none, not, refl, some, subst, true, ℕ, ◌==◌, ◌∙◌, ◌≡◌,
}
use go_auth_x.Map.{delete, delete_if, get, get-delete, get-delete_if, get-empty, get-put, put}
use go_auth_x.Memory.Groups.{is_member}
use go_auth_x.Memory.Orgs.{change_at, members_of, org_role, remove_org_member, set_org_member}
use go_auth_x.Memory.Orgs.Membership.{
  get-change_at, is_dropped, remove_state, set_missing, set_state,
}
use go_auth_x.Memory.Store.{Store}
use go_auth_x.Memory.Users.{with_id}
use go_auth_x.Org.{member, owner}
use go_auth_x.Org.Directory.{ensure_member, is_not_member, set_user_disabled_in}
use go_auth_x.Org.Directory.Confined.{IsConfined, IsConfined-refl, IsForeign}
use go_auth_x.Org.Joining.Kept.{no_role}
use go_auth_x.Org.Owners.Guards.{org_role-ok}
use go_auth_x.Text.{Text, parse_id}
use go_auth_x.Types.{
  Error, Group, Result-cases, duplicate_credential, duplicate_group, duplicate_oauth, duplicate_org,
  email_conflict, err, no_credential, no_group, no_org, no_user, not_org_member, oauth_not_found,
  oauth_token_used, ok, token_invalid, user_blocked,
}

pub is_not_member_sound : (e : Error) → is_not_member e ≡ true → e ≡ not_org_member
is_not_member_sound not_org_member h = refl
is_not_member_sound no_user h = absurd (ground arith)
is_not_member_sound no_credential h = absurd (ground arith)
is_not_member_sound token_invalid h = absurd (ground arith)
is_not_member_sound email_conflict h = absurd (ground arith)
is_not_member_sound user_blocked h = absurd (ground arith)
is_not_member_sound no_group h = absurd (ground arith)
is_not_member_sound no_org h = absurd (ground arith)
is_not_member_sound oauth_not_found h = absurd (ground arith)
is_not_member_sound oauth_token_used h = absurd (ground arith)
is_not_member_sound duplicate_credential h = absurd (ground arith)
is_not_member_sound duplicate_group h = absurd (ground arith)
is_not_member_sound duplicate_org h = absurd (ground arith)
is_not_member_sound duplicate_oauth h = absurd (ground arith)

module _ (org_id : Text) (n : ℕ) (en : parse_id org_id ≡ some n) (s : Store) where
  added-IsConfined :
      (k : ℕ)
      → get (members_of s n) k ≡ none
      → IsConfined org_id n s
          (record s { org_members = put s.org_members n (put (members_of s n) k member) })
  unfolding is_member
  added-IsConfined k absent = record {
    rest = refl;
    accounts = λ i w h f. h;
    elsewhere = λ m other.
        ground (arith, get-put s.org_members n (put (members_of s n) k member) m, nat_beq_iff n m);
    owners = λ v h. ground (
      arith,
      get-put s.org_members n (put (members_of s n) k member) n,
      get-put (members_of s n) k member v,
      nat_beq_iff k v,
      beq_refl n,
    );
    granted = λ v role h. ground (
      arith,
      get-put s.org_members n (put (members_of s n) k member) n,
      get-put (members_of s n) k member v,
      nat_beq_iff k v,
      beq_refl n,
    );
    groups = λ gid g h f. h;
    grouped = λ gid uid g h f. refl;
  }

  new_member-IsConfined :
      (uid : Text)
      → org_role s org_id uid ≡ err not_org_member
      → IsConfined org_id n s (set_org_member s org_id uid member).0
  unfolding set_org_member
  new_member-IsConfined uid h = elim (Option-cases (get s.orgs n)) [
    | inl eo ↦ rw (en, eo, set_org_member, with_id) (IsConfined-refl org_id n s)
    | inr (o, eo) ↦ elim (Option-cases (parse_id uid)) [
      | inl eu ↦ rw (en, eo, eu, set_org_member, with_id) (IsConfined-refl org_id n s)
      | inr (k, eu) ↦ elim (Option-cases (get s.users k)) [
        | inl missing ↦
            rw (set_missing org_id uid n k en eu s member o eo missing) (IsConfined-refl org_id n s)
        | inr (u, row) ↦
            rw (set_state org_id uid n k en eu s member o u eo row)
              (added-IsConfined k (no_role s org_id uid n k o en eu eo h))
      ]
    ]
  ]

  pub ensure_member-IsConfined : (uid : Text) → IsConfined org_id n s (ensure_member s org_id uid).0
  unfolding ensure_member
  ensure_member-IsConfined uid = elim (Result-cases (org_role s org_id uid)) [
    | inl (role, e) ↦ rw (ensure_member, e) (IsConfined-refl org_id n s)
    | inr (x, e) ↦ elim (Bool-cases (is_not_member x)) [
      | inr b ↦ rw (ensure_member, e, b) (IsConfined-refl org_id n s)
      | inl b ↦
          rw (ensure_member, e, b)
            (new_member-IsConfined uid (e ∙ ap (λ y. err y) (is_not_member_sound x b)))
    ]
  ]

  -- The roles and the groups that RemoveOrgMember leaves.
  left_role :
      (k v : ℕ)
      → get
          (members_of
            (record s { org_members = change_at s.org_members n (λ set. delete set k) })
            n)
          v
        ≡ (if nat_beq k v then none else get (members_of s n) v)
  left_role k v = elim (Option-cases (get s.org_members n)) [
    | inl e ↦ ground (
      arith,
      get-change_at s.org_members n (λ set. delete set k) n,
      beq_refl n,
      get-empty {V = Text} v,
    )
    | inr (set, e) ↦ ground (
      arith,
      get-change_at s.org_members n (λ set. delete set k) n,
      beq_refl n,
      get-delete set k v,
    )
  ]

  left_group :
      (org uid : Text) (eo : parse_id org ≡ some n) (k v gid : ℕ) (eu : parse_id uid ≡ some k)
      (g : Group)
      → get s.groups gid ≡ some g
      → IsForeign n g
      → is_member
          (record s {
            memberships = change_at s.memberships k (delete_if (is_dropped org uid n k eo eu s));
          })
          v
          gid
        ≡ is_member s v gid
  unfolding is_member
  left_group org uid eo k v gid eu g h foreign =
      let p = is_dropped org uid n k eo eu s in
      let stays : p gid true ≡ false = elim (Option-cases (parse_id g.org_id)) [
        | inl e ↦ ground arith
        | inr (j, e) ↦ ground (arith, nat_beq_iff j n, foreign)
      ] in
      elim (Option-cases (get s.memberships v)) [
        | inl e ↦ ground (arith, get-change_at s.memberships k (delete_if p) v)
        | inr (set, e) ↦
            ground (arith, get-change_at s.memberships k (delete_if p) v, get-delete_if p set gid)
      ]

  removed-IsConfined :
      (uid role : Text)
      → org_role s org_id uid ≡ ok role
      → (role == owner) ≡ false
      → IsConfined org_id n s (remove_org_member s org_id uid)
  unfolding is_member
  removed-IsConfined uid role h low =
      let (n', k, o, en', eu, eo, row) = org_role-ok s org_id uid role h in
      let same : n' ≡ n = ground arith in
      let held : get (members_of s n) k ≡ some role =
        subst (λ i. get (members_of s i) k ≡ some role) same row in
      rw (remove_state org_id uid n k en eu s) (record {
        rest = refl;
        accounts = λ i w g f. g;
        elsewhere = λ m other.
            ground (arith, get-change_at s.org_members n (λ set. delete set k) m, nat_beq_iff n m);
        owners = λ v g. ground (arith, left_role k v, nat_beq_iff k v, list_beq_iff role owner);
        granted = λ v r g. inr (ground (arith, left_role k v));
        groups = λ gid g e f. e;
        grouped = λ gid v x e f. left_group org_id uid en k v gid eu x e f;
      })

  -- SetUserDisabled removes no owner.
  pub set_user_disabled-IsConfined :
      (uid : Text) (disabled : Bool)
      → IsConfined org_id n s (set_user_disabled_in s org_id uid disabled).0
  unfolding set_user_disabled_in
  set_user_disabled-IsConfined uid disabled = elim (Result-cases (org_role s org_id uid)) [
    | inr (x, e) ↦ elim (Bool-cases (is_not_member x)) [
      | inl b ↦ elim (Bool-cases disabled) [
        | inl d ↦ rw (set_user_disabled_in, e, b, d) (IsConfined-refl org_id n s)
        | inr d ↦ rw (set_user_disabled_in, e, b, d) (IsConfined-refl org_id n s)
      ]
      | inr b ↦ rw (set_user_disabled_in, e, b) (IsConfined-refl org_id n s)
    ]
    | inl (role, e) ↦ elim (Bool-cases (not disabled)) [
      | inl d ↦ rw (set_user_disabled_in, e, d) (IsConfined-refl org_id n s)
      | inr d ↦ elim (Bool-cases (role == owner)) [
        | inl b ↦ rw (set_user_disabled_in, e, d, b) (IsConfined-refl org_id n s)
        | inr b ↦ rw (set_user_disabled_in, e, d, b) (removed-IsConfined uid role e b)
      ]
    ]
  ]
