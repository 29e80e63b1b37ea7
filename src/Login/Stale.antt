-- ===== src/Login/Stale.antt =====
-- magic.go: redeemAndLogin and the address of the account.
use go_auth_x.Base.{
  Bool, Bool-cases, Option-cases, [], ap, arith, beq_refl, false, inl, inr, list_beq_iff, list_eq,
  nat_beq, nat_eq, none, refl, some, sym, true, ℕ, ◌==◌, ◌∙◌, ◌≡◌, ◌≢◌,
}
use go_auth_x.Login.{Authorizer, Client, LoginConfig}
use go_auth_x.Login.Links.{redeem_and_login}
use go_auth_x.Map.{find_value, find_value_complete, find_value_sound, get, get-put, put}
use go_auth_x.Memory.Store.{Store, User}
use go_auth_x.Memory.Tokens.{consume_token}
use go_auth_x.Memory.Users.{change_user, find_by_email, set_email_verified, user_by_email, with_id}
use go_auth_x.Org.Gate.{answer, deny}
use go_auth_x.Text.{Bytes, Text, norm, parse_id}
use go_auth_x.Types.{Time, TokenClaim, err, no_user, ok}

consumed_users :
    (s s1 : Store) (purpose : Text) (hash : Bytes) (now : Time) (claim : TokenClaim)
    → consume_token s purpose hash now ≡ (s1, ok claim)
    → s1.users ≡ s.users
unfolding consume_token
consumed_users s s1 purpose hash now claim e = ap (λ p. p.0.users) (sym e) ∙ ground arith

module _ (s : Store) (k : ℕ) (u : User) (email : Text) (row : get s.users k ≡ some u)
    (missing : user_by_email s email ≡ err no_user) where
  none_found : find_by_email s email ≡ none
  unfolding user_by_email
  none_found = elim (Option-cases (find_by_email s email)) [
    | inl e ↦ e
    | inr (w, e) ↦ absurd (ground arith)
  ]

  other_address : (w : User) (j : ℕ) → get s.users j ≡ some w → (w.email == norm email) ≡ false
  unfolding find_by_email
  other_address w j h =
      find_value_complete (λ (x : User). x.email == norm email) s.users j w none_found h

  -- Marking a row does not make its address found.
  still_missing :
      (u' : User)
      → u'.email ≡ u.email
      → user_by_email (record s { users = put s.users k u' }) email ≡ err no_user
  unfolding user_by_email find_by_email
  still_missing u' same =
      let p = λ (x : User). x.email == norm email in
      elim (Option-cases (find_value p (put s.users k u'))) [
        | inl e ↦ rw e refl
        | inr (w, e) ↦
            let (j, at, passed) = find_value_sound p (put s.users k u') w e in
            elim (Bool-cases (nat_beq k j)) [
              | inl b ↦
                  let is_new : u' ≡ w = ground (arith, get-put s.users k u' j) in
                  let differs_old = other_address u k row in
                  let address : w.email ≡ u.email = ap (λ x. x.email) (sym is_new) ∙ same in
                  absurd (ground arith)
              | inr b ↦
                  let old : get s.users j ≡ some w = ground (arith, get-put s.users k u' j) in
                  let differs_old = other_address w j old in absurd (ground arith)
            ]
      ]

module _ (config : LoginConfig) (authorizer : Authorizer) (client : Client) (purpose token : Text)
    (remember : Bool) (now : Time) (s s1 : Store) (claim : TokenClaim) (k : ℕ) (u : User) where
  abbrev marked : User
  marked = record u { email_verified = true; updated_at = now }

  marked_store :
      parse_id claim.user_id ≡ some k
      → get s1.users k ≡ some u
      → set_email_verified s1 claim.user_id true now ≡ record s1 { users = put s1.users k marked }
  unfolding set_email_verified
  marked_store e row = rw (e, set_email_verified, with_id) (rw (row, change_user) refl)

  -- Redeeming a mailed token whose address no account has any more signs nobody in, and yet marks
  -- the account that the token names as verified, with the address that the account has now, which
  -- is not the one that the token was sent to.
  pub redeem_marks_row :
      token ≢ []
      → consume_token s purpose (config.hash_token token) now ≡ (s1, ok claim)
      → parse_id claim.user_id ≡ some k
      → get s.users k ≡ some u
      → user_by_email s claim.email ≡ err no_user
      → let (t, answer) =
          redeem_and_login config authorizer client purpose true token remember now s in
        (answer ≡ deny 302) × (get t.users k ≡ some marked) × (u.email ≢ norm claim.email)
  unfolding redeem_and_login
  redeem_marks_row named used e row missing =
      let users = consumed_users s s1 purpose (config.hash_token token) now claim used in
      let row1 : get s1.users k ≡ some u = ap (λ m. get m k) users ∙ row in
      let missing1 : user_by_email s1 claim.email ≡ err no_user =
        unfold user_by_email find_by_email in rw users missing in
      let missing2 = still_missing s1 k u claim.email row1 missing1 marked refl in
      let there : get (put s1.users k marked) k ≡ some marked =
        ground (arith, get-put s1.users k marked k, beq_refl k) in
      let unlike = other_address s k u claim.email row missing u k row in
      let moved : u.email ≢ norm claim.email =
        λ same. absurd (ground (arith, list_beq_iff u.email (norm claim.email))) in
      elim (Bool-cases (token == [])) [
        | inl b ↦ absurd (named ((list_beq_iff token []).0 b))
        | inr b ↦
            rw (redeem_and_login, b, used)
              (rw (marked_store e row1) (rw missing2 (refl, there, moved)))
      ]
