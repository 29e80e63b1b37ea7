-- ===== src/Org/Owners/Escalation.antt =====
-- A member who is no owner makes no owner and unmakes none.
use go_auth_x.Base.{
  Bool-cases, Option, Option-cases, arith, false, inl, inr, list_beq_iff, list_eq, nat_beq,
  nat_beq_iff, nat_eq, none, some, subst, sym, ℕ, ◌!=◌, ◌&&◌, ◌==◌, ◌||◌, ◌↔◌, ◌∙◌, ◌≡◌, ◌≢◌,
}
use go_auth_x.Map.{delete, get, get-delete, get-put, put}
use go_auth_x.Memory.Audits.{record_audit}
use go_auth_x.Memory.Orgs.{members_of, org_role, remove_org_member, set_org_member}
use go_auth_x.Memory.Orgs.Membership.{
  get-change_at, others-remove_org_member, remove_state, set_missing, set_state,
}
use go_auth_x.Memory.Store.{OrgRec, Store}
use go_auth_x.Org.{owner}
use go_auth_x.Org.Gate.{
  answer_bind, deny_if, deny_if-go, done, org_audit, refuse_target, role_or, role_or-go, ◌>>=◌,
}
use go_auth_x.Org.Members.{fail_or, guard_owner, remove_locked, set_role_locked}
use go_auth_x.Org.Owners.Guards.{fail_or-go, org_role-ok}
use go_auth_x.Session.{SessionClaims}
use go_auth_x.Text.{Text, parse_id}
use go_auth_x.Types.{Time, ok}

-- The same users own the organization `m` in both stores.
abbrev pub SameOwners : ℕ → Store → Store → Type 0
SameOwners m s s' =
    (v : ℕ) → (get (members_of s' m) v ≡ some owner) ↔ (get (members_of s m) v ≡ some owner)

module _ (s : Store) (org_id uid : Text) (n k m : ℕ) (o : OrgRec) (target : Text)
    (en : parse_id org_id ≡ some n) (eu : parse_id uid ≡ some k) (eo : get s.orgs n ≡ some o)
    (row : get (members_of s n) k ≡ some target) (lower : (target == owner) ≡ false) where
  set_same :
      (role : Text)
      → (role == owner) ≡ false
      → (set_org_member s org_id uid role).1 ≡ ok tt
      → SameOwners m s (set_org_member s org_id uid role).0
  set_same role low stored v = elim (Option-cases (get s.users k)) [
    | inl missing ↦ absurd (ground (arith, set_missing org_id uid n k en eu s role o eo missing))
    | inr (u, e) ↦
        rw (set_state org_id uid n k en eu s role o u eo e) (elim (Bool-cases (nat_beq n m)) [
          | inr other ↦ ground (arith, get-put s.org_members n (put (members_of s n) k role) m)
          | inl same ↦
              subst
                (λ j.
                  (get
                      (members_of
                        (record s {
                          org_members = put s.org_members n (put (members_of s n) k role);
                        })
                        j)
                      v
                    ≡ some owner)
                  ↔ (get (members_of s j) v ≡ some owner))
                ((nat_beq_iff n m).0 same)
                (ground (
                  arith,
                  get-put s.org_members n (put (members_of s n) k role) n,
                  get-put (members_of s n) k role v,
                  list_beq_iff role owner,
                  list_beq_iff target owner,
                ))
        ])
  ]

  remove_same : SameOwners m s (remove_org_member s org_id uid)
  remove_same v = elim (Bool-cases (nat_beq v k)) [
    | inr other ↦
        let (same, groups) =
          others-remove_org_member org_id uid n k en eu s m v
            (λ e. ground (arith, nat_beq_iff v k)) in
        ((λ h. sym same ∙ h), (λ h. same ∙ h))
    | inl here ↦ elim (Bool-cases (nat_beq n m)) [
      | inr apart ↦
          rw (remove_state org_id uid n k en eu s)
            (ground (arith, get-change_at s.org_members n (λ set. delete set k) m))
      | inl same ↦
          subst
            (λ j.
              (get (members_of (remove_org_member s org_id uid) j) v ≡ some owner)
              ↔ (get (members_of s j) v ≡ some owner))
            ((nat_beq_iff n m).0 same)
            (subst
              (λ w.
                (get (members_of (remove_org_member s org_id uid) n) w ≡ some owner)
                ↔ (get (members_of s n) w ≡ some owner))
              (sym ((nat_beq_iff v k).0 here))
              (rw (remove_state org_id uid n k en eu s) (elim (Option-cases (get s.org_members n)) [
                | inl e ↦ ground (
                  arith,
                  get-change_at s.org_members n (λ set. delete set k) n,
                  list_beq_iff target owner,
                )
                | inr (set, e) ↦ ground (
                  arith,
                  get-change_at s.org_members n (λ set. delete set k) n,
                  get-delete set k k,
                  list_beq_iff target owner,
                )
              ])))
    ]
  ]

module _ (s : Store) (org_id actor_role uid : Text) (now : Time) (m : ℕ)
    (lower : actor_role ≢ owner) where
  -- A member who is no owner grants and revokes the role of an owner nowhere by OrgMemberSetRole.
  pub set_role_no_escalation :
      (new_role : Text) → SameOwners m s (set_role_locked s org_id actor_role uid new_role now).0
  unfolding set_role_locked record_audit
  set_role_no_escalation new_role =
      let P = λ (s' : Store). SameOwners m s s' in
      let has : P s = λ v. ((λ h. h), (λ h. h)) in
      let stored = set_org_member s org_id uid new_role in
      let end = λ (_ : Unit {0}). done (org_audit stored.0 uid now) none in
      let write = λ (_ : Unit {0}). fail_or s stored.1 >>= end in
      let guard = λ (target : Text) (_ : Unit {0}).
        guard_owner (target == owner && new_role != owner) s org_id uid >>= write in
      let high = λ (target : Text). (new_role == owner || target == owner) && actor_role != owner in
      let rank = λ (target : Text). deny_if (high target) 403 >>= guard target in
      answer_bind P s (role_or refuse_target (org_role s org_id uid)) rank has λ target e.
        answer_bind P s (deny_if (high target) 403) (guard target) has λ _ r.
          answer_bind P s (guard_owner (target == owner && new_role != owner) s org_id uid) write
            has
            λ _ _. answer_bind P s (fail_or s stored.1) end has λ _ w.
              let (n, k, o, en, eu, eo, row) =
                org_role-ok s org_id uid target (role_or-go refuse_target _ target e) in
              let passed = deny_if-go (high target) 403 r in
              set_same s org_id uid n k m o target en eu eo row
                (ground (arith, list_beq_iff actor_role owner)) new_role
                (ground (arith, list_beq_iff actor_role owner)) (fail_or-go s stored.1 w)

  -- A member who is no owner removes no owner by OrgMemberRemove, himself included.
  pub remove_no_escalation :
      (cookie : Option SessionClaims)
      → SameOwners m s (remove_locked s org_id actor_role uid cookie now).0
  unfolding remove_locked record_audit
  remove_no_escalation cookie =
      let P = λ (s' : Store). SameOwners m s s' in
      let has : P s = λ v. ((λ h. h), (λ h. h)) in
      let removed = remove_org_member s org_id uid in
      let end = λ (_ : Unit {0}). done (org_audit removed uid now) cookie in
      let guard =
        λ (target : Text) (_ : Unit {0}). guard_owner (target == owner) s org_id uid >>= end in
      let high = λ (target : Text). target == owner && actor_role != owner in
      let rank = λ (target : Text). deny_if (high target) 403 >>= guard target in
      answer_bind P s (role_or refuse_target (org_role s org_id uid)) rank has λ target e.
        answer_bind P s (deny_if (high target) 403) (guard target) has λ _ r.
          answer_bind P s (guard_owner (target == owner) s org_id uid) end has λ _ _.
            let (n, k, o, en, eu, eo, row) =
              org_role-ok s org_id uid target (role_or-go refuse_target _ target e) in
            let passed = deny_if-go (high target) 403 r in
            remove_same s org_id uid n k m o target en eu eo row
              (ground (arith, list_beq_iff actor_role owner))
