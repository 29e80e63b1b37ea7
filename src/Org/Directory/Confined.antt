-- ===== src/Org/Directory/Confined.antt =====
-- The boundary of a view: what a step through the view of one organization leaves alone.
use go_auth_x.Base.{Bool, ap, false, inl, inr, list_eq, nat_eq, refl, some, ℕ, ◌∙◌, ◌≡◌, ◌≢◌, ◌⊎◌}
use go_auth_x.Map.{get}
use go_auth_x.Memory.Groups.{is_member}
use go_auth_x.Memory.Orgs.{members_of}
use go_auth_x.Memory.Store.{Store, User}
use go_auth_x.Org.{member, owner}
use go_auth_x.Org.Directory.{org_sub_prefix}
use go_auth_x.Text.{Text, has_prefix, parse_id}
use go_auth_x.Types.{Group, before}

-- The parts of the store that no view writes are those of `s`.
abbrev pub patched : Store → Store → Store
patched s s' = record s {
  seq = s'.seq;
  users = s'.users;
  groups = s'.groups;
  group_seq = s'.group_seq;
  memberships = s'.memberships;
  org_members = s'.org_members;
}

-- The account is one that the organization's provider made.
abbrev pub is_provisioned : Text → User → Bool
is_provisioned org_id u = has_prefix u.sub (org_sub_prefix org_id)

-- The group belongs to no organization, or to another one than `n`.
abbrev pub IsForeign : ℕ → Group → Type 0
IsForeign n g = parse_id g.org_id ≢ some n

-- What the view of the organization `org_id`, with the key `n`, keeps: everything but accounts,
-- groups and memberships; the accounts of others; the roles in other organizations, its own owners,
-- and every role above a member's; the groups of others and who is in them.
pub record IsConfined (org_id : Text) (n : ℕ) (s s' : Store) : Type 0 where
  pub rest : s' ≡ patched s s'
  pub accounts :
      (k : ℕ) (w : User)
      → get s.users k ≡ some w
      → is_provisioned org_id w ≡ false
      → get s'.users k ≡ some w
  pub elsewhere : (m : ℕ) → m ≢ n → get s'.org_members m ≡ get s.org_members m
  pub owners : (v : ℕ) → get (members_of s n) v ≡ some owner → get (members_of s' n) v ≡ some owner
  pub granted :
      (v : ℕ) (role : Text)
      → get (members_of s' n) v ≡ some role
      → (role ≡ member) ⊎ (get (members_of s n) v ≡ some role)
  pub groups :
      (gid : ℕ) (g : Group) → get s.groups gid ≡ some g → IsForeign n g → get s'.groups gid ≡ some g
  pub grouped :
      (gid uid : ℕ) (g : Group)
      → get s.groups gid ≡ some g
      → IsForeign n g
      → is_member s' uid gid ≡ is_member s uid gid

pub IsConfined-refl : (org_id : Text) (n : ℕ) (s : Store) → IsConfined org_id n s s
IsConfined-refl org_id n s = record {
  rest = refl;
  accounts = λ k w h f. h;
  elsewhere = λ m other. refl;
  owners = λ v h. h;
  granted = λ v role h. inr h;
  groups = λ gid g h f. h;
  grouped = λ gid uid g h f. refl;
}

pub IsConfined-trans :
    (org_id : Text) (n : ℕ) (s t u : Store)
    → IsConfined org_id n s t
    → IsConfined org_id n t u
    → IsConfined org_id n s u
IsConfined-trans org_id n s t u a b = record {
  rest = b.rest ∙ ap (λ x. patched x u) a.rest;
  accounts = λ k w h f. b.accounts k w (a.accounts k w h f) f;
  elsewhere = λ m other. b.elsewhere m other ∙ a.elsewhere m other;
  owners = λ v h. b.owners v (a.owners v h);
  granted = λ v role h. elim (b.granted v role h) [
    | inl e ↦ inl e
    | inr before ↦ a.granted v role before
  ];
  groups = λ gid g h f. b.groups gid g (a.groups gid g h f) f;
  grouped = λ gid uid g h f. b.grouped gid uid g (a.groups gid g h f) f ∙ a.grouped gid uid g h f;
}

module _ (org_id : Text) (n : ℕ) (s : Store) where
  -- A step that writes accounts only.
  pub accounts-IsConfined :
      (s' : Store)
      → s' ≡ record s { seq = s'.seq; users = s'.users }
      → ((k : ℕ) (w : User)
          → get s.users k ≡ some w
          → is_provisioned org_id w ≡ false
          → get s'.users k ≡ some w)
      → IsConfined org_id n s s'
  unfolding is_member
  accounts-IsConfined s' e kept = rw e (record {
    rest = refl;
    accounts = kept;
    elsewhere = λ m other. refl;
    owners = λ v h. h;
    granted = λ v role h. inr h;
    groups = λ gid g h f. h;
    grouped = λ gid uid g h f. refl;
  })

  -- A step that writes groups and who is in them.
  pub groups-IsConfined :
      (s' : Store)
      → s' ≡ record s { groups = s'.groups; group_seq = s'.group_seq; memberships = s'.memberships }
      → ((gid : ℕ) (g : Group)
          → get s.groups gid ≡ some g
          → IsForeign n g
          → get s'.groups gid ≡ some g)
      → ((gid uid : ℕ) (g : Group)
          → get s.groups gid ≡ some g
          → IsForeign n g
          → is_member s' uid gid ≡ is_member s uid gid)
      → IsConfined org_id n s s'
  unfolding is_member
  groups-IsConfined s' e kept same = rw e (record {
    rest = refl;
    accounts = λ k w h f. h;
    elsewhere = λ m other. refl;
    owners = λ v h. h;
    granted = λ v role h. inr h;
    groups = kept;
    grouped = same;
  })
