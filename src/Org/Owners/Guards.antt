-- ===== src/Org/Owners/Guards.antt =====
-- What a request that passed the guards of the member handlers tells, and what a write leaves.
use go_auth_x.Base.{
  Bool, Bool-cases, Option-cases, ap, arith, false, inl, inr, list_eq, nat_beq, nat_beq_iff, nat_eq,
  refl, some, subst, sym, true, ℕ, ◌∙◌, ◌≡◌, ◌⊎◌,
}
use go_auth_x.Map.{get, get-put, put}
use go_auth_x.Memory.Audits.{record_audit}
use go_auth_x.Memory.Orgs.{members_of, org_role}
use go_auth_x.Memory.Store.{OrgRec, Store, User}
use go_auth_x.Org.{owner}
use go_auth_x.Org.Gate.{deny_if-go, go, org_audit}
use go_auth_x.Org.Members.{fail_or, guard_owner, keep_an_owner, sole_owner}
use go_auth_x.Org.Owners.{HasOwner, OwnerBut}
use go_auth_x.Text.{Text, parse_id}
use go_auth_x.Types.{Result, Result-cases, Time, err, ok}

-- What OrgRole answers with comes from a row of an existing organization.
pub org_role-ok :
    (s : Store) (org_id uid role : Text)
    → org_role s org_id uid ≡ ok role
    → (n : ℕ) × (k : ℕ) × (o : OrgRec) × (parse_id org_id ≡ some n)
      × (parse_id uid ≡ some k)
      × (get s.orgs n ≡ some o)
      × (get (members_of s n) k ≡ some role)
unfolding org_role
org_role-ok s org_id uid role h = elim (Option-cases (parse_id org_id)) [
  | inl e ↦ absurd (ground arith)
  | inr (n, e) ↦ elim (Option-cases (get s.orgs n)) [
    | inl f ↦ absurd (ground arith)
    | inr (o, f) ↦ elim (Option-cases (parse_id uid)) [
      | inl g ↦ absurd (ground arith)
      | inr (k, g) ↦ (n, k, o, e, g, f, ground arith)
    ]
  ]
]

pub keep_an_owner-go :
    (s : Store) (org_id uid : Text)
    → keep_an_owner s org_id uid ≡ go tt
    → sole_owner s org_id uid ≡ ok false
unfolding keep_an_owner
keep_an_owner-go s org_id uid h = elim (Result-cases (sole_owner s org_id uid)) [
  | inl (b, e) ↦ e ∙ ap ok (deny_if-go b 409 (rw (e, keep_an_owner) at h))
  | inr (x, e) ↦ absurd (ground arith)
]

pub guard_owner-go :
    (b : Bool) (s : Store) (org_id uid : Text)
    → guard_owner b s org_id uid ≡ go tt
    → b ≡ true
    → sole_owner s org_id uid ≡ ok false
guard_owner-go true s org_id uid h e = keep_an_owner-go s org_id uid h
guard_owner-go false s org_id uid h e = absurd (ground arith)

pub fail_or-go : (s : Store) (r : Result (Unit {0})) → fail_or s r ≡ go tt → r ≡ ok tt
fail_or-go s (ok tt) h = refl
fail_or-go s (err e) h = absurd (ground arith)

pub keep_a_role :
    (s : Store) (n k m : ℕ) (role : Text)
    → (HasOwner s n → (OwnerBut (λ v. v ≡ k) s n) ⊎ (role ≡ owner))
    → HasOwner s m
    → (u : User) → get s.users k ≡ some u
    → HasOwner (record s { org_members = put s.org_members n (put (members_of s n) k role) }) m
keep_a_role s n k m role spare has u e = elim (Bool-cases (nat_beq n m)) [
  | inr other ↦ record {
    key = has.key;
    row = has.row;
    spared = has.spared;
    is_owner =
        ground (arith, get-put s.org_members n (put (members_of s n) k role) m, has.is_owner);
    exists = has.exists;
  }
  | inl same ↦ elim (spare (subst (HasOwner s) (sym ((nat_beq_iff n m).0 same)) has)) [
    | inl other ↦ record {
      key = other.key;
      row = other.row;
      spared = λ x. x;
      is_owner = ground (
        arith,
        get-put s.org_members n (put (members_of s n) k role) m,
        get-put (members_of s n) k role other.key,
        other.spared,
        other.is_owner,
      );
      exists = other.exists;
    }
    | inr new ↦ record {
      key = k;
      row = u;
      spared = λ x. x;
      is_owner = ground (
        arith,
        get-put s.org_members n (put (members_of s n) k role) m,
        get-put (members_of s n) k role k,
      );
      exists = e;
    }
  ]
]

pub audit-HasOwner :
    (s : Store) (uid : Text) (now : Time) (m : ℕ) → HasOwner s m → HasOwner (org_audit s uid now) m
unfolding record_audit
audit-HasOwner s uid now m h = record {
  key = h.key;
  row = h.row;
  spared = h.spared;
  is_owner = h.is_owner;
  exists = h.exists;
}
