-- ===== src/Org/Directory/Accounts.antt =====
-- UpsertExternalUser of a view and the accounts of others.
use go_auth_x.Base.{
  Bool, Bool-cases, Option-cases, ap, arith, inl, inr, list_beq_iff, list_eq, nat_beq, nat_beq_iff,
  nat_eq, none, refl, some, true, ℕ, ◌+◌, ◌<◌, ◌∙◌, ◌≡◌,
}
use go_auth_x.Map.{get, get-put}
use go_auth_x.Memory.Store.{Store, User, next_id}
use go_auth_x.Memory.Upsert.{
  insert_login, is_taken, login_user, replace_user, update_known, upsert_external_user,
  upsert_user_on_login,
}
use go_auth_x.Memory.Users.{find_by_email, find_by_sub, user_by_email, view}
use go_auth_x.Memory.Users.Lookup.{
  Valid, find_by_email-some, find_by_email_unique, find_by_sub-none, find_by_sub-some,
}
use go_auth_x.Org.Directory.{email_refusal, org_sub_prefix}
use go_auth_x.Org.Directory.Confined.{
  IsConfined, IsConfined-refl, accounts-IsConfined, is_provisioned,
}
use go_auth_x.Text.{Text, has_prefix, norm, u64}
use go_auth_x.Text.Norm.{norm-norm}
use go_auth_x.Types.{Time}

-- The account that has the address is the provider's own.
refusal_none :
    (s : Store) (email ns : Text) (x : User)
    → email_refusal (user_by_email s email) ns ≡ none
    → find_by_email s email ≡ some x
    → x.sub ≡ ns
unfolding user_by_email view
refusal_none s email ns x clear found = ground (arith, list_beq_iff x.sub ns)

module _ (org_id : Text) (n : ℕ) (s : Store) (valid : Valid s) (ns email name : Text)
    (verified : Bool) (now : Time) (own : has_prefix ns (org_sub_prefix org_id) ≡ true) where
  replaced-IsConfined :
      (u u' : User)
      → get s.users u.id ≡ some u
      → u.sub ≡ ns
      → u'.id ≡ u.id
      → IsConfined org_id n s (replace_user s u')
  replaced-IsConfined u u' row same id =
      accounts-IsConfined org_id n s (replace_user s u') refl λ k w h f.
        elim (Bool-cases (nat_beq u'.id k)) [
          | inr other ↦ ground (arith, get-put s.users u'.id u' k)
          | inl equal ↦
              let at_k : u.id ≡ k = ground (arith, nat_beq_iff u'.id k) in
              let is_u : w ≡ u = ground arith in
              let sub : w.sub ≡ ns = ap (λ x. x.sub) is_u ∙ same in
              let mine : is_provisioned org_id w ≡ true =
                ap (λ t. has_prefix t (org_sub_prefix org_id)) sub ∙ own in
              absurd (ground arith)
        ]

  known-IsConfined :
      (u : User)
      → find_by_sub s ns ≡ some u
      → IsConfined org_id n s (update_known s u (norm email) name verified).0
  unfolding update_known
  known-IsConfined u e = elim (Bool-cases (is_taken s u (norm email))) [
    | inl b ↦ rw (b, update_known) (IsConfined-refl org_id n s)
    | inr b ↦
        let (row, sub) = find_by_sub-some s valid ns u e in
        rw (b, update_known) (replaced-IsConfined u _ row sub (ground arith))
  ]

  inserted-IsConfined :
      s.seq + 1 < u64 → IsConfined org_id n s (insert_login s ns (norm email) name verified now).0
  unfolding insert_login
  inserted-IsConfined room =
      accounts-IsConfined org_id n s (insert_login s ns (norm email) name verified now).0 refl
        λ k w h f. ground (
          arith,
          get-put s.users (next_id s.seq)
              (login_user (next_id s.seq) ns (norm email) name verified now) k,
          valid.issued k w,
        )

  -- The upsert behind the checks of the view touches no account of another.
  pub upsert-IsConfined :
      s.seq + 1 < u64
      → email_refusal (user_by_email s email) ns ≡ none
      → IsConfined org_id n s (upsert_external_user s ns email name verified now).0
  unfolding upsert_external_user upsert_user_on_login
  upsert-IsConfined room clear = elim (Option-cases (find_by_sub s ns)) [
    | inr (u, e) ↦ rw (upsert_external_user, upsert_user_on_login, e) (known-IsConfined u e)
    | inl e ↦ elim (Option-cases (find_by_email s (norm email))) [
      | inl m ↦ rw (upsert_external_user, upsert_user_on_login, e, m) (inserted-IsConfined room)
      | inr (x, m) ↦
          let (row, at) = find_by_email-some s valid (norm email) x m in
          let found = find_by_email_unique s valid email x.id x row (at ∙ norm-norm email) in
          absurd (find_by_sub-none s ns x.id x e row (refusal_none s email ns x clear found))
    ]
  ]
