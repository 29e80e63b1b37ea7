-- ===== src/Org/Owners.antt =====
-- What soleOwner finds, and when an organization keeps an owner.
pub mod Guards
pub mod Kept
pub mod Spelling
pub mod Runs
pub mod Escalation
use go_auth_x.Base.{
  Bool, Bool-cases, List, Option-cases, [], any, any-sort_by, ap, arith, beq_refl, count-sort_by,
  false, inl, inr, keep, length, list_beq_iff, list_eq, nat_beq, nat_beq_iff, nat_eq, none, refl,
  some, sort_by, subst, sym, true, ℕ, ◌!=◌, ◌&&◌, ◌<◌, ◌==◌, ◌∙◌, ◌∷◌, ◌≡◌, ◌≢◌,
}
use go_auth_x.Map.{find, find_complete, find_sound, get, is_some}
use go_auth_x.Map.Listing.{any-collect, collect, count-collect-le, entry, passes}
use go_auth_x.Memory.Listings.{by_email, list_org_members, member_at}
use go_auth_x.Memory.Orgs.{members_of}
use go_auth_x.Memory.Store.{OrgRec, Store, User}
use go_auth_x.Memory.Users.{view, with_id}
use go_auth_x.Memory.Users.Lookup.{Valid}
use go_auth_x.Org.{owner}
use go_auth_x.Org.Members.{count_owners, sole_owner}
use go_auth_x.Scim.Filter.{less}
use go_auth_x.Text.{Text, id_str, parse_id}
use go_auth_x.Types.{OrgMember, ok}

-- The organization `n` has an owner whose user exists, other than those that `skip` names.
pub record OwnerBut (skip : ℕ → Type 0) (s : Store) (n : ℕ) : Type 0 where
  pub key : ℕ
  pub row : User
  pub spared : ¬ (skip key)
  pub is_owner : get (members_of s n) key ≡ some owner
  pub exists : get s.users key ≡ some row

abbrev pub HasOwner : Store → ℕ → Type 0
HasOwner = OwnerBut (λ _. ⊥)

abbrev pub owns : OrgMember → Bool
owns m = m.role == owner

count_owners-count :
    (uid : Text) (members : List OrgMember)
    → (count_owners uid members).0 ≡ length (keep owns members)
unfolding count_owners keep
count_owners-count uid [] = refl
count_owners-count uid (m ∷ members) = ground (arith, count_owners-count uid members)

count_owners-any :
    (uid : Text) (members : List OrgMember)
    → (count_owners uid members).1 ≡ any (λ m. owns m && m.user.id == uid) members
unfolding count_owners any
count_owners-any uid [] = refl
count_owners-any uid (m ∷ members) = ground (arith, count_owners-any uid members)

count_pos :
    (uid : Text) (members : List OrgMember)
    → any (λ m. owns m && m.user.id == uid) members ≡ true
    → 0 < length (keep owns members)
unfolding any keep
count_pos uid [] h = ground arith
count_pos uid (m ∷ members) h = ground (arith, count_pos uid members)

pub list_org_members_lem :
    (s : Store) (org_id : Text) (n : ℕ) (o : OrgRec)
    → parse_id org_id ≡ some n
    → get s.orgs n ≡ some o
    → list_org_members s org_id
      ≡ ok (sort_by (λ a b. by_email a.user b.user) (collect (member_at s) (members_of s n)))
unfolding list_org_members
list_org_members_lem s org_id n o e h = rw (e, with_id) (rw h refl)

pub sole_owner_lem :
    (s : Store) (org_id uid : Text) (n : ℕ) (o : OrgRec)
    → parse_id org_id ≡ some n
    → get s.orgs n ≡ some o
    → let listed = collect (member_at s) (members_of s n) in
      sole_owner s org_id uid
      ≡ ok (any (λ m. owns m && m.user.id == uid) listed && length (keep owns listed) == 1)
unfolding sole_owner
sole_owner_lem s org_id uid n o e h =
    let less = λ (a b : OrgMember). by_email a.user b.user in
    let listed = collect (member_at s) (members_of s n) in
    rw (list_org_members_lem s org_id n o e h, sole_owner)
      (ap ok (
        ground (
          arith,
          count_owners-count uid (sort_by less listed),
          count_owners-any uid (sort_by less listed),
          any-sort_by less (λ m. owns m && m.user.id == uid) listed,
          count-sort_by less owns listed,
        )))

module _ (s : Store) (n k : ℕ) where
  -- An owner other than `k`.
  abbrev is_other : ℕ → Text → Bool
  is_other v role = v != k && (role == owner && is_some (get s.users v))

  found_other : (v : ℕ) → find is_other (members_of s n) ≡ some v → OwnerBut (λ j. j ≡ k) s n
  found_other v found =
      let (role, g, p) = find_sound is_other (members_of s n) v found in
      elim (Option-cases (get s.users v)) [
        | inl e ↦ absurd (ground arith)
        | inr (u, e) ↦ record {
          key = v;
          row = u;
          spared = λ same. ground arith;
          is_owner = ground (arith, list_beq_iff role owner);
          exists = e;
        }
      ]

  no_other :
      (j : ℕ)
      → find is_other (members_of s n) ≡ none
      → j ≢ k
      → passes owns (entry (member_at s) (members_of s n) j) ≡ false
  no_other j missing other = elim (Option-cases (get (members_of s n) j)) [
    | inl e ↦ ground arith
    | inr (role, e) ↦ elim (Option-cases (get s.users j)) [
      | inl f ↦ ground arith
      | inr (u, f) ↦ ground (arith, find_complete is_other (members_of s n) j role missing e)
    ]
  ]

  no_owner_but : (h : HasOwner s n) → find is_other (members_of s n) ≡ none → h.key ≡ k
  no_owner_but h missing = elim (Bool-cases (nat_beq h.key k)) [
    | inl e ↦ (nat_beq_iff h.key k).0 e
    | inr e ↦ absurd (
        ground (
          arith,
          no_other h.key missing (λ same. ground (arith, nat_beq_iff h.key k)),
          h.is_owner,
          h.exists,
          beq_refl {A = Text} owner,
        ))
  ]

listed_owner :
    (s : Store) (uid : Text) (n k : ℕ) (u : User)
    → get (members_of s n) k ≡ some owner
    → get s.users k ≡ some u
    → uid ≡ id_str u.id
    → passes (λ m. owns m && m.user.id == uid) (entry (member_at s) (members_of s n) k) ≡ true
unfolding view
listed_owner s uid n k u g e same = ground (arith, beq_refl {A = Text} owner, beq_refl uid)

-- Where soleOwner says no, an organization that has an owner has one beside the user.
pub other_owner :
    (s : Store) (org_id uid : Text) (n k : ℕ) (o : OrgRec)
    → Valid s
    → parse_id org_id ≡ some n
    → get s.orgs n ≡ some o
    → uid ≡ id_str k
    → sole_owner s org_id uid ≡ ok false
    → HasOwner s n
    → OwnerBut (λ v. v ≡ k) s n
other_owner s org_id uid n k o valid e h canonical not_sole has =
    let members = members_of s n in
    let p = λ (m : OrgMember). owns m && m.user.id == uid in
    elim (Option-cases (find (is_other s n k) members)) [
      | inr (v, found) ↦ found_other s n k v found
      | inl missing ↦
          let same : has.key ≡ k = no_owner_but s n k has missing in
          let here : passes p (entry (member_at s) members k) ≡ true =
            listed_owner s uid n k has.row
              (subst (λ v. get members v ≡ some owner) same has.is_owner)
              (subst (λ v. get s.users v ≡ some has.row) same has.exists)
              (canonical ∙ ap id_str (sym (valid.keyed has.key has.row has.exists ∙ same))) in
          absurd (
            ground (
              arith,
              sole_owner_lem s org_id uid n o e h,
              any-collect (member_at s) members p k here,
              count-collect-le (member_at s) members owns k (λ j. no_other s n k j missing),
              count_pos uid (collect (member_at s) members),
            ))
    ]
