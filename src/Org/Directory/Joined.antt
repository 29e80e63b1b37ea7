-- ===== src/Org/Directory/Joined.antt =====
-- What UpsertExternalUser of a view answers.
use go_auth_x.Base.{
  Bool, Bool-cases, Option-cases, ap, arith, inl, inr, list_eq, nat_eq, not, refl, some, subst, sym,
  true, ℕ, ◌+◌, ◌<◌, ◌∙◌, ◌≡◌,
}
use go_auth_x.Map.{get}
use go_auth_x.Memory.Orgs.{org_role, set_org_member}
use go_auth_x.Memory.Orgs.Membership.{org_role-set_org_member, set_missing}
use go_auth_x.Memory.Store.{Store}
use go_auth_x.Memory.Upsert.{upsert_external_user}
use go_auth_x.Memory.Upsert.Safety.{Answers, upsert_user_on_login-Answer}
use go_auth_x.Memory.Users.{user_by_email}
use go_auth_x.Memory.Users.Lookup.{Valid}
use go_auth_x.Org.{member}
use go_auth_x.Org.Directory.{
  email_refusal, enrol, ensure_member, is_member_in, is_not_member, is_ok, ns_sub, org_sub_prefix,
  upsert_external_user_in, with_user,
}
use go_auth_x.Org.Directory.Frame.{with_user-left}
use go_auth_x.Text.{Text, has_prefix, norm, parse_id, u64}
use go_auth_x.Types.{AuthUser, Result, Result-cases, Time, err, ok}

ensured_member :
    (org_id : Text) (n : ℕ) (en : parse_id org_id ≡ some n) (s : Store) (uid : Text)
    → (set_org_member s org_id uid member).1 ≡ ok tt
    → is_member_in (set_org_member s org_id uid member).0 org_id uid ≡ true
unfolding set_org_member is_member_in
ensured_member org_id n en s uid h = elim (Option-cases (get s.orgs n)) [
  | inl eo ↦ absurd (ground arith)
  | inr (o, eo) ↦ elim (Option-cases (parse_id uid)) [
    | inl eu ↦ absurd (ground arith)
    | inr (k, eu) ↦ elim (Option-cases (get s.users k)) [
      | inl missing ↦
          absurd (ground (arith, set_missing org_id uid n k en eu s member o eo missing))
      | inr (u, row) ↦ ap is_ok (org_role-set_org_member org_id uid n k en eu s member o u eo row)
    ]
  ]
]

ensure_member-IsMember :
    (org_id : Text) (n : ℕ) (en : parse_id org_id ≡ some n) (s : Store) (uid : Text)
    → (ensure_member s org_id uid).1 ≡ ok tt
    → is_member_in (ensure_member s org_id uid).0 org_id uid ≡ true
unfolding ensure_member is_member_in
ensure_member-IsMember org_id n en s uid h = elim (Result-cases (org_role s org_id uid)) [
  | inl (role, e) ↦ rw (ensure_member, e) (ap is_ok e)
  | inr (x, e) ↦ elim (Bool-cases (is_not_member x)) [
    | inr b ↦ absurd (ground arith)
    | inl b ↦
        rw (ensure_member, e, b) (ensured_member org_id n en s uid (rw (ensure_member, e, b) at h))
  ]
]

with_user-ok :
    (u a : AuthUser) (r : Store × Result (Unit {0}))
    → (with_user u r).1 ≡ ok a
    → (u ≡ a) × (r.1 ≡ ok tt)
with_user-ok u a (s, ok tt) h = (ground arith, refl)
with_user-ok u a (s, err e) h = absurd (ground arith)

enrolled_joins :
    (org_id : Text) (n : ℕ) (en : parse_id org_id ≡ some n) (t : Store) (r : Result AuthUser)
    (a : AuthUser)
    → (enrol org_id (t, r)).1 ≡ ok a
    → (r ≡ ok a) × (is_member_in (enrol org_id (t, r)).0 org_id a.id ≡ true)
enrolled_joins org_id n en t (err e) a h = absurd (ground arith)
enrolled_joins org_id n en t (ok u) a h =
    let r = ensure_member t org_id u.id in
    let (same, stored) = with_user-ok u a r h in
    let joined : is_member_in r.0 org_id a.id ≡ true =
      subst (λ (x : AuthUser). is_member_in r.0 org_id x.id ≡ true) same
        (ensure_member-IsMember org_id n en t u.id stored) in
    (ap ok same, subst (λ s'. is_member_in s' org_id a.id ≡ true) (sym (with_user-left u r)) joined)

-- If UpsertExternalUser of a view returns an account, on well-formed accounts with room for one
-- more, the account is of the namespace of the organization, has the address that was pushed, and is
-- a member of the organization.
pub upsert_external_user_in-joins :
    (org_id : Text) (n : ℕ) (s : Store) (sub email name : Text) (verified : Bool) (now : Time)
    (a : AuthUser)
    → parse_id org_id ≡ some n
    → Valid s
    → s.seq + 1 < u64
    → (upsert_external_user_in s org_id sub email name verified now).1 ≡ ok a
    → (has_prefix a.sub (org_sub_prefix org_id) ≡ true)
      × (a.email ≡ norm email)
      × (is_member_in (upsert_external_user_in s org_id sub email name verified now).0 org_id a.id
          ≡ true)
unfolding upsert_external_user_in upsert_external_user
upsert_external_user_in-joins org_id n s sub email name verified now a en valid room h =
    let ns = ns_sub org_id sub in
    elim (Bool-cases (not (has_prefix ns (org_sub_prefix org_id)))) [
      | inl b ↦ absurd (ground arith)
      | inr b ↦ elim (Option-cases (email_refusal (user_by_email s email) ns)) [
        | inr (x, e) ↦ absurd (ground arith)
        | inl e ↦
            let r = upsert_external_user s ns email name verified now in
            let (stored, joined) =
              enrolled_joins org_id n en r.0 r.1 a (rw (upsert_external_user_in, b, e) at h) in
            let (found, same, at, proved) : Answers s ns email name verified now r.0 (ok a) =
              subst (Answers s ns email name verified now r.0) stored
                (upsert_user_on_login-Answer s ns email name verified now valid room) in
            (
              ap (λ t. has_prefix t (org_sub_prefix org_id)) same ∙ ground arith,
              at,
              rw (upsert_external_user_in, b, e) joined,
            )
      ]
    ]
