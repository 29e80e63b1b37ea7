-- ===== src/Org/Directory/Lookups.antt =====
-- The two ways in which a batch of user IDs is checked against the members.
use go_auth_x.Base.{
  Bool-cases, List, Option-cases, [], any, any-sort_by, ap, arith, false, inl, inr, keep, length,
  list_beq_iff, list_eq, ltb, nat_eq, none, refl, some, sort_by, subst, sym, true, ℕ, ◌==◌, ◌∙◌,
  ◌∷◌, ◌≡◌,
}
use go_auth_x.Map.{get}
use go_auth_x.Map.Listing.{any-collect, any-collect-none, collect}
use go_auth_x.Memory.Listings.{by_email, member_at}
use go_auth_x.Memory.Orgs.{members_of, org_role}
use go_auth_x.Memory.Orgs.Membership.{org_role_by}
use go_auth_x.Memory.Store.{OrgRec, Store, User}
use go_auth_x.Memory.Users.{view}
use go_auth_x.Memory.Users.Lookup.{Valid}
use go_auth_x.Org.Directory.{
  is_member_in, is_ok, lookup_members, org_member_scan_min, org_members_of, scan_members,
}
use go_auth_x.Org.Owners.{list_org_members_lem}
use go_auth_x.Text.{Text, id_str, parse_id}
use go_auth_x.Text.Decimal.{parse_id-id_str}
use go_auth_x.Types.{OrgMember, err, not_org_member, ok}

-- The IDs are spelled as the store prints them.
abbrev pub AllCanonical : List Text → Type 0
AllCanonical [] = Unit
AllCanonical (uid ∷ uids) =
    ((k : ℕ) × (parse_id uid ≡ some k) × (uid ≡ id_str k)) × AllCanonical uids

module _ (s : Store) (org_id : Text) (n : ℕ) (o : OrgRec) (en : parse_id org_id ≡ some n)
    (eo : get s.orgs n ≡ some o) (valid : Valid s)
    (rows : (v : ℕ) (role : Text)
      → get (members_of s n) v ≡ some role
      → (u : User) × (get s.users v ≡ some u)) where
  listed : List OrgMember
  listed = sort_by (λ a b. by_email a.user b.user) (collect (member_at s) (members_of s n))

  -- The scan finds an ID exactly where the lookup does.
  scan_finds :
      (uid : Text) (k : ℕ) (role : Text)
      → parse_id uid ≡ some k
      → uid ≡ id_str k
      → get (members_of s n) k ≡ some role
      → any (λ m. m.user.id == uid) listed ≡ true
  unfolding listed view
  scan_finds uid k role eu spelled row =
      let (u, found) = rows k role row in
      let key = valid.keyed k u found in
      any-sort_by (λ a b. by_email a.user b.user) (λ m. m.user.id == uid)
        (collect (member_at s) (members_of s n))
      ∙ any-collect (member_at s) (members_of s n) (λ m. m.user.id == uid) k
          (ground (arith, list_beq_iff (id_str u.id) uid))

  scan_misses :
      (uid : Text) (k : ℕ)
      → parse_id uid ≡ some k
      → get (members_of s n) k ≡ none
      → any (λ m. m.user.id == uid) listed ≡ false
  unfolding listed view
  scan_misses uid k eu row =
      any-sort_by (λ a b. by_email a.user b.user) (λ m. m.user.id == uid)
        (collect (member_at s) (members_of s n))
      ∙ any-collect-none (member_at s) (members_of s n) (λ m. m.user.id == uid)
          λ j. elim (Option-cases (get (members_of s n) j)) [
            | inl e ↦ ground arith
            | inr (role, e) ↦ elim (Option-cases (get s.users j)) [
              | inl f ↦ ground arith
              | inr (u, f) ↦ elim (Bool-cases (id_str u.id == uid)) [
                | inr apart ↦ ground arith
                | inl same ↦ absurd (
                    let spelled : id_str u.id ≡ uid = (list_beq_iff (id_str u.id) uid).0 same in
                    let keyed = valid.keyed j u f in
                    let low = valid.positive j u f in
                    let issued = valid.issued j u f in
                    let counter = valid.counter in
                    let read : parse_id uid ≡ some u.id =
                      subst (λ t. parse_id t ≡ some u.id) spelled
                        (parse_id-id_str u.id (omega arith) (omega arith)) in
                    let key : j ≡ k = ground arith in ground arith)
              ]
            ]
          ]

  role_missing :
      (uid : Text) (k : ℕ)
      → parse_id uid ≡ some k
      → get (members_of s n) k ≡ none
      → org_role s org_id uid ≡ err not_org_member
  role_missing uid k eu row =
      org_role_by org_id uid n k en eu s o (err not_org_member) eo (rw row refl)

  role_found :
      (uid : Text) (k : ℕ) (role : Text)
      → parse_id uid ≡ some k
      → get (members_of s n) k ≡ some role
      → org_role s org_id uid ≡ ok role
  role_found uid k role eu row = org_role_by org_id uid n k en eu s o (ok role) eo (rw row refl)

  -- The scan keeps an ID exactly where the lookup finds a role.
  scan_agrees :
      (uid : Text) (k : ℕ)
      → parse_id uid ≡ some k
      → uid ≡ id_str k
      → any (λ m. m.user.id == uid) listed ≡ is_member_in s org_id uid
  unfolding is_member_in
  scan_agrees uid k eu spelled = elim (Option-cases (get (members_of s n) k)) [
    | inl row ↦ scan_misses uid k eu row ∙ sym (ap is_ok (role_missing uid k eu row))
    | inr (role, row) ↦
        scan_finds uid k role eu spelled row ∙ sym (ap is_ok (role_found uid k role eu row))
  ]

  keep_agrees :
      (uids : List Text)
      → AllCanonical uids
      → keep (λ uid. any (λ m. m.user.id == uid) listed) uids
        ≡ keep (λ uid. is_member_in s org_id uid) uids
  unfolding keep
  keep_agrees [] all = refl
  keep_agrees (uid ∷ uids) ((k, eu, spelled), rest) =
      ground (arith, scan_agrees uid k eu spelled, keep_agrees uids rest)

  lookup_keeps :
      (uids : List Text)
      → AllCanonical uids
      → lookup_members s org_id uids ≡ ok (keep (λ uid. is_member_in s org_id uid) uids)
  unfolding lookup_members keep is_member_in
  lookup_keeps [] all = refl
  lookup_keeps (uid ∷ uids) ((k, eu, spelled), rest) =
      elim (Option-cases (get (members_of s n) k)) [
        | inl row ↦
            rw (lookup_members, keep, is_member_in, role_missing uid k eu row)
              (lookup_keeps uids rest)
        | inr (role, row) ↦
            rw
              (
                lookup_members,
                keep,
                is_member_in,
                role_found uid k role eu row,
                lookup_keeps uids rest,
              )
              refl
      ]

  -- orgMembersOf keeps the members of the organization, in order, by the lookups of a short batch as
  -- by the scan of a long one: for an organization that exists, on well-formed accounts that hold
  -- every member, where the IDs are spelled as the store prints them.
  pub org_members_of-keep :
      (uids : List Text)
      → AllCanonical uids
      → org_members_of s org_id uids ≡ ok (keep (λ uid. is_member_in s org_id uid) uids)
  unfolding org_members_of scan_members sort_by listed
  org_members_of-keep uids all = elim (Bool-cases (ltb (length uids) org_member_scan_min)) [
    | inl b ↦ rw (b, org_members_of) (lookup_keeps uids all)
    | inr b ↦
        rw (b, org_members_of, scan_members, list_org_members_lem s org_id n o en eo)
          (ap ok (keep_agrees uids all))
  ]
