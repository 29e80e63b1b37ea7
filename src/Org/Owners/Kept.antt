-- ===== src/Org/Owners/Kept.antt =====
-- An organization that has an owner keeps one.
use go_auth_x.Base.{
  Bool, Bool-cases, Option, Option-cases, ap, arith, false, inl, inr, list_beq_iff, list_eq,
  nat_beq, nat_beq_iff, nat_eq, none, refl, some, subst, sym, true, ℕ, ◌!=◌, ◌&&◌, ◌==◌, ◌||◌, ◌∙◌,
  ◌≡◌, ◌⊎◌,
}
use go_auth_x.Map.{delete, get}
use go_auth_x.Memory.Audits.{record_audit}
use go_auth_x.Memory.Orgs.{members_of, org_role, remove_org_member, set_org_member}
use go_auth_x.Memory.Orgs.Membership.{
  get-change_at, others-remove_org_member, remove_state, set_missing, set_state,
}
use go_auth_x.Memory.Store.{OrgRec, Store}
use go_auth_x.Memory.Users.Lookup.{Valid}
use go_auth_x.Org.{owner}
use go_auth_x.Org.Gate.{
  answer_bind, deny_if, done, org_audit, refuse_target, role_or, role_or-go, ◌>>=◌,
}
use go_auth_x.Org.Members.{fail_or, guard_owner, remove_locked, set_role_locked, sole_owner}
use go_auth_x.Org.Owners.{HasOwner, OwnerBut, other_owner}
use go_auth_x.Org.Owners.Guards.{
  audit-HasOwner, fail_or-go, guard_owner-go, keep_a_role, org_role-ok,
}
use go_auth_x.Session.{SessionClaims}
use go_auth_x.Text.{Text, id_str, parse_id}
use go_auth_x.Types.{Time, ok}

module _ (s : Store) (org_id uid : Text) (k : ℕ) (valid : Valid s) (eu : parse_id uid ≡ some k)
    (canonical : uid ≡ id_str k) where
  -- Whoever loses the role of an owner leaves an owner behind.
  spare_owner :
      (n : ℕ) (o : OrgRec) (target_role : Text) (lost : Bool)
      → parse_id org_id ≡ some n
      → get s.orgs n ≡ some o
      → get (members_of s n) k ≡ some target_role
      → ((target_role == owner && lost) ≡ true → sole_owner s org_id uid ≡ ok false)
      → lost ≡ true
      → HasOwner s n
      → OwnerBut (λ v. v ≡ k) s n
  spare_owner n o target_role lost en eo g guarded l has =
      elim (Bool-cases (target_role == owner)) [
        | inl e ↦ other_owner s org_id uid n k o valid en eo canonical (guarded (ground arith)) has
        | inr e ↦ record {
          key = has.key;
          row = has.row;
          spared = λ same. absurd (
              ground (
                arith,
                subst (λ v. get (members_of s n) v ≡ some owner) same has.is_owner,
                list_beq_iff target_role owner,
              ));
          is_owner = has.is_owner;
          exists = has.exists;
        }
      ]

  set_stored :
      (n m : ℕ) (o : OrgRec) (role : Text)
      → parse_id org_id ≡ some n
      → get s.orgs n ≡ some o
      → (set_org_member s org_id uid role).1 ≡ ok tt
      → (HasOwner s n → (OwnerBut (λ v. v ≡ k) s n) ⊎ (role ≡ owner))
      → HasOwner s m
      → HasOwner (set_org_member s org_id uid role).0 m
  set_stored n m o role en eo stored spare has = elim (Option-cases (get s.users k)) [
    | inl missing ↦ absurd (ground (arith, set_missing org_id uid n k en eu s role o eo missing))
    | inr (u, e) ↦
        rw (set_state org_id uid n k en eu s role o u eo e) (keep_a_role s n k m role spare has u e)
  ]

  -- OrgMemberSetRole behind its lock keeps an owner in each organization that has one, whoever
  -- asks, and whatever role he had when he passed the gates.
  pub set_role_keeps_owner :
      (actor_role new_role : Text) (now : Time) (m : ℕ)
      → HasOwner s m
      → HasOwner (set_role_locked s org_id actor_role uid new_role now).0 m
  unfolding set_role_locked record_audit
  set_role_keeps_owner actor_role new_role now m has =
      let P = λ (s' : Store). HasOwner s' m in
      let stored = set_org_member s org_id uid new_role in
      let end = λ (_ : Unit {0}). done (org_audit stored.0 uid now) none in
      let write = λ (_ : Unit {0}). fail_or s stored.1 >>= end in
      let guard = λ (target : Text) (_ : Unit {0}).
        guard_owner (target == owner && new_role != owner) s org_id uid >>= write in
      let rank = λ (target : Text).
        deny_if ((new_role == owner || target == owner) && actor_role != owner) 403
        >>= guard target in
      answer_bind P s (role_or refuse_target (org_role s org_id uid)) rank has λ target e.
        answer_bind P s (deny_if _ 403) (guard target) has λ _ _.
          answer_bind P s (guard_owner (target == owner && new_role != owner) s org_id uid) write
            has
            λ _ g. answer_bind P s (fail_or s stored.1) end has λ _ w.
              let (n, j, o, en, ej, eo, row) =
                org_role-ok s org_id uid target (role_or-go refuse_target _ target e) in
              let here : get (members_of s n) k ≡ some target = ground arith in
              audit-HasOwner stored.0 uid now m (
                set_stored n m o new_role en eo (fail_or-go s stored.1 w)
                  (λ h. elim (Bool-cases (new_role == owner)) [
                    | inl new ↦ inr ((list_beq_iff new_role owner).0 new)
                    | inr lost ↦ inl (
                        spare_owner n o target (new_role != owner) en eo here
                          (guard_owner-go (target == owner && new_role != owner) s org_id uid g)
                          (ground arith) h)
                  ])
                  has)

  remove_other_org :
      (n m v : ℕ)
      → parse_id org_id ≡ some n
      → nat_beq n m ≡ false
      → get (members_of (remove_org_member s org_id uid) m) v ≡ get (members_of s m) v
  remove_other_org n m v en other =
      rw (remove_state org_id uid n k en eu s)
        (ground (arith, get-change_at s.org_members n (λ set. delete set k) m))

  remove_users :
      (n : ℕ) → parse_id org_id ≡ some n → (remove_org_member s org_id uid).users ≡ s.users
  remove_users n en = rw (remove_state org_id uid n k en eu s) refl

  remove_stored :
      (n m : ℕ)
      → parse_id org_id ≡ some n
      → (HasOwner s n → OwnerBut (λ v. v ≡ k) s n)
      → HasOwner s m
      → HasOwner (remove_org_member s org_id uid) m
  remove_stored n m en spare has = elim (Bool-cases (nat_beq n m)) [
    | inr other ↦ record {
      key = has.key;
      row = has.row;
      spared = has.spared;
      is_owner = remove_other_org n m has.key en other ∙ has.is_owner;
      exists = ap (λ users. get users has.key) (remove_users n en) ∙ has.exists;
    }
    | inl same ↦
        let at_m = (nat_beq_iff n m).0 same in
        let left =
          subst (OwnerBut (λ v. v ≡ k) s) at_m (spare (subst (HasOwner s) (sym at_m) has)) in
        let (groups, roles) =
          others-remove_org_member org_id uid n k en eu s m left.key left.spared in
        record {
          key = left.key;
          row = left.row;
          spared = λ x. x;
          is_owner = groups ∙ left.is_owner;
          exists = ap (λ users. get users left.key) (remove_users n en) ∙ left.exists;
        }
  ]

  -- OrgMemberRemove behind its lock keeps an owner in each organization that has one, whoever asks,
  -- and whatever role he had when he passed the gates.
  pub remove_keeps_owner :
      (actor_role : Text) (cookie : Option SessionClaims) (now : Time) (m : ℕ)
      → HasOwner s m
      → HasOwner (remove_locked s org_id actor_role uid cookie now).0 m
  unfolding remove_locked
  remove_keeps_owner actor_role cookie now m has =
      let P = λ (s' : Store). HasOwner s' m in
      let removed = remove_org_member s org_id uid in
      let end = λ (_ : Unit {0}). done (org_audit removed uid now) cookie in
      let guard =
        λ (target : Text) (_ : Unit {0}). guard_owner (target == owner) s org_id uid >>= end in
      let rank =
        λ (target : Text). deny_if (target == owner && actor_role != owner) 403 >>= guard target in
      answer_bind P s (role_or refuse_target (org_role s org_id uid)) rank has λ target e.
        answer_bind P s (deny_if _ 403) (guard target) has λ _ _.
          answer_bind P s (guard_owner (target == owner) s org_id uid) end has λ _ g.
            let (n, j, o, en, ej, eo, row) =
              org_role-ok s org_id uid target (role_or-go refuse_target _ target e) in
            let here : get (members_of s n) k ≡ some target = ground arith in
            audit-HasOwner removed uid now m (
              remove_stored n m en
                (spare_owner n o target true en eo here
                  (λ b. guard_owner-go (target == owner) s org_id uid g (ground arith)) refl)
                has)
