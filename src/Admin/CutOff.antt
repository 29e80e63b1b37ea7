-- ===== src/Admin/CutOff.antt =====
-- admin.go: adminSetDisabled and the sessions of the account.
use go_auth_x.Admin.{AdminConfig, Caller, admin_guard}
use go_auth_x.Admin.Groups.{admin_set_disabled, cut_sessions}
use go_auth_x.Admin.Refused.{admin_guard-Stamped}
use go_auth_x.Base.{
  Bool, Bool-cases, [], ap, arith, beq_refl, inl, inr, list_beq_iff, list_eq, nat_eq, refl, some,
  true, ℕ, ◌==◌, ◌∙◌, ◌≡◌,
}
use go_auth_x.Handler.{Handler, follow}
use go_auth_x.Map.{get, get-put, put}
use go_auth_x.Memory.Sessions.{is_revoked, revoke_all_for_user}
use go_auth_x.Memory.Sessions.Revoked.{revoke_all_for_user_lem}
use go_auth_x.Memory.Store.{SessionRec, Store, User}
use go_auth_x.Memory.Users.{change_user, set_user_disabled, user_by_id, view, with_id}
use go_auth_x.Org.Gate.{go, param_id}
use go_auth_x.Text.{Text, parse_id, parse_uint, trim_space}
use go_auth_x.Types.{AuthUser, Result, Time, err, ok}

module _ (id : Text) (k : ℕ) (e : parse_id id ≡ some k) (s : Store) where
  -- The sessions of the user with the row are cut.
  cut_user :
      (u : User) (sid : Text) (r : SessionRec)
      → get s.users k ≡ some u
      → get s.sessions sid ≡ some r
      → r.rec.subject ≡ u.sub
      → is_revoked (cut_sessions (user_by_id s id) s) sid ≡ true
  unfolding user_by_id view
  cut_user u sid r row kept own =
      let found : user_by_id s id ≡ ok (view u) = rw (e, user_by_id, with_id) (rw row refl) in
      rw found (revoke_all_for_user_lem s u.sub sid r kept own)

  cut_users : (r : Result AuthUser) → (cut_sessions r s).users ≡ s.users
  unfolding revoke_all_for_user
  cut_users (ok u) = refl
  cut_users (err x) = refl

  disabled_row :
      (u : User) (disabled : Bool)
      → get s.users k ≡ some u
      → set_user_disabled s id disabled
        ≡ record s { users = put s.users k (record u { disabled = disabled }) }
  unfolding set_user_disabled
  disabled_row u disabled row = rw (e, set_user_disabled, with_id) (rw (row, change_user) refl)

param_id-trimmed :
    (raw : Text) (k : ℕ) → parse_id (trim_space raw) ≡ some k → param_id raw ≡ go (trim_space raw)
unfolding param_id parse_id parse_uint
param_id-trimmed raw k e = elim (Bool-cases (trim_space raw == [])) [
  | inr b ↦ rw (b, param_id) refl
  | inl b ↦
      let none_left = (list_beq_iff (trim_space raw) []).0 b in
      absurd (ground (arith, ap parse_id none_left))
]

module _ (config : AdminConfig) (caller : Caller) (now : Time) (s : Store)
    (passed : (admin_guard config caller now s).1 ≡ go tt) where
  -- What the guard leaves has the accounts and the sessions of before.
  same_accounts :
      ((admin_guard config caller now s).0.users ≡ s.users)
      × ((admin_guard config caller now s).0.sessions ≡ s.sessions)
  same_accounts =
      let (same, _) = admin_guard-Stamped config caller now s in
      (ap (λ t. t.users) same, ap (λ t. t.sessions) same)

  module _ (raw_id : Text) (k : ℕ) (e : parse_id (trim_space raw_id) ≡ some k) (u : User)
      (row : get s.users k ≡ some u) where
    -- An admin who disables an account ends all of its sessions: each is refused afterwards, and the
    -- row is disabled.
    pub admin_set_disabled_cuts :
        (sid : Text) (r : SessionRec)
        → get s.sessions sid ≡ some r
        → r.rec.subject ≡ u.sub
        → let t = (admin_set_disabled config caller raw_id true now s).0 in
          (is_revoked t sid ≡ true) × (get t.users k ≡ some (record u { disabled = true }))
    unfolding admin_set_disabled
    admin_set_disabled_cuts sid r kept own =
        let s1 = (admin_guard config caller now s).0 in
        let (users, sessions) = same_accounts in
        let here : get s1.users k ≡ some u = ap (λ m. get m k) users ∙ row in
        let id = trim_space raw_id in
        let u' = record u { disabled = true } in
        let s2 = record s1 { users = put s1.users k u' } in
        let stays : get s2.users k ≡ some u' =
          ground (arith, get-put s1.users k u' k, beq_refl k) in
        let kept2 : get s2.sessions sid ≡ some r = ap (λ m. get m sid) sessions ∙ kept in
        let act : Text → Handler Bool = λ i s'.
          let t = set_user_disabled s' i true in (cut_sessions (user_by_id t i) t, go true) in
        let read : Unit {0} → Handler Bool = λ _ s'. follow (s', param_id raw_id) act in
        let guarded : admin_guard config caller now s ≡ (s1, go tt) = ap (λ g. (s1, g)) passed in
        let result : admin_set_disabled config caller raw_id true now s
            ≡ (cut_sessions (user_by_id s2 id) s2, go true) =
          ap (λ p. follow p read) guarded
          ∙ ap (λ g. follow (s1, g) act) (param_id-trimmed raw_id k e)
          ∙ ap (λ s'. (cut_sessions (user_by_id s' id) s', go true))
              (disabled_row id k e s1 u true here) in
        rw result (
          cut_user id k e s2 u' sid r stays kept2 own,
          ap (λ m. get m k) (cut_users id k e s2 (user_by_id s2 id)) ∙ stays,
        )
