-- ===== src/Org/Owners/Spelling.antt =====
-- The user ID of a request reaches the guard as it is spelled in the path, and the store as the
-- number that it spells.
use go_auth_x.Base.{
  Bool-cases, Option, Option-cases, ap, arith, false, inl, inr, list_beq, list_beq_iff, list_eq,
  nat_eq, refl, some, subst, sym, ℕ, ◌&&◌, ◌==◌, ◌∙◌, ◌≡◌, ◌≢◌,
}
use go_auth_x.Map.{get}
use go_auth_x.Map.Listing.{any-collect-none, entry, passes}
use go_auth_x.Memory.Audits.{record_audit}
use go_auth_x.Memory.Listings.{member_at}
use go_auth_x.Memory.Orgs.{members_of, org_role, remove_org_member}
use go_auth_x.Memory.Orgs.Membership.{org_role-remove_org_member}
use go_auth_x.Memory.Store.{OrgRec, Store}
use go_auth_x.Memory.Users.{view}
use go_auth_x.Memory.Users.Lookup.{Valid}
use go_auth_x.Org.{owner}
use go_auth_x.Org.Gate.{go, org_audit}
use go_auth_x.Org.Members.{keep_an_owner, remove_locked, sole_owner}
use go_auth_x.Org.Owners.{owns, sole_owner_lem}
use go_auth_x.Org.Owners.Guards.{org_role-ok}
use go_auth_x.Session.{SessionClaims}
use go_auth_x.Text.{Text, id_str, parse_id}
use go_auth_x.Text.Decimal.{parse_id-id_str}
use go_auth_x.Types.{OrgMember, Time, err, not_org_member, ok}

module _ (s : Store) (org_id uid : Text) (valid : Valid s) (k : ℕ) (eu : parse_id uid ≡ some k)
    (other : uid ≢ id_str k) where
  -- The ID of a row is spelled in one way, and that is not the spelling of the request.
  not_listed :
      (n j : ℕ)
      → passes (λ m. owns m && m.user.id == uid) (entry (member_at s) (members_of s n) j) ≡ false
  unfolding view
  not_listed n j = elim (Option-cases (get (members_of s n) j)) [
    | inl e ↦ ground arith
    | inr (role, e) ↦ elim (Option-cases (get s.users j)) [
      | inl f ↦ ground arith
      | inr (u, f) ↦ elim (Bool-cases (id_str u.id == uid)) [
        | inr apart ↦ ground arith
        | inl same ↦
            let spelled : id_str u.id ≡ uid = (list_beq_iff (id_str u.id) uid).0 same in
            let keyed = valid.keyed j u f in
            let low = valid.positive j u f in
            let issued = valid.issued j u f in
            let counter = valid.counter in
            let read : parse_id uid ≡ some u.id =
              subst (λ t. parse_id t ≡ some u.id) spelled
                (parse_id-id_str u.id (omega arith) (omega arith)) in
            let key : u.id ≡ k = ground arith in absurd (other (sym spelled ∙ ap id_str key))
      ]
    ]
  ]

  guard_passes :
      (n : ℕ) (o : OrgRec)
      → parse_id org_id ≡ some n
      → get s.orgs n ≡ some o
      → keep_an_owner s org_id uid ≡ go tt
  unfolding keep_an_owner
  guard_passes n o en eo =
      let p = λ (m : OrgMember). owns m && m.user.id == uid in
      let unseen : sole_owner s org_id uid ≡ ok false = ground (
        arith,
        sole_owner_lem s org_id uid n o en eo,
        any-collect-none (member_at s) (members_of s n) p (not_listed n),
      ) in
      rw (unseen, keep_an_owner) refl

  removed_store :
      (cookie : Option SessionClaims) (now : Time)
      → org_role s org_id uid ≡ ok owner
      → keep_an_owner s org_id uid ≡ go tt
      → (remove_locked s org_id owner uid cookie now).0
        ≡ org_audit (remove_org_member s org_id uid) uid now
  unfolding remove_locked list_beq
  removed_store cookie now role passed = rw (role, remove_locked) (rw passed refl)

  org_role-org_audit :
      (s' : Store) (now : Time)
      → org_role (org_audit s' uid now) org_id uid ≡ org_role s' org_id uid
  unfolding org_role record_audit
  org_role-org_audit s' now = refl

  -- An owner may remove the only owner of his organization, himself included, if the user ID of
  -- the request is another spelling of the key, such as "01" for "1": the guard does not see it.
  pub spelling_defeats_guard :
      (cookie : Option SessionClaims) (now : Time)
      → org_role s org_id uid ≡ ok owner
      → org_role (remove_locked s org_id owner uid cookie now).0 org_id uid ≡ err not_org_member
  spelling_defeats_guard cookie now role =
      let (n, j, o, en, ej, eo, row) = org_role-ok s org_id uid owner role in
      rw (removed_store cookie now role (guard_passes n o en eo), org_role-org_audit)
        (org_role-remove_org_member org_id uid n k en eu s o eo)
