-- ===== src/Admin/Refused.antt =====
-- admin.go, admin_users.go, admin_orgs.go: the handlers for a caller whom the guard refuses.
use go_auth_x.Admin.{
  AdminConfig, Caller, Presented, admin_guard, admit, grants, is_expired, is_owner_session, judge,
  lacks_scope, no_key, present, rejected, validate_api_key,
}
use go_auth_x.Admin.Groups.{
  KeyBody, admin_add_member, admin_create_group, admin_create_key, admin_delete_group,
  admin_remove_member, admin_revoke_key, admin_set_disabled,
}
use go_auth_x.Admin.Guarded.{AdminKey, admin_guard_passes, present_step}
use go_auth_x.Admin.Orgs.{
  admin_add_org_group_member, admin_create_org, admin_create_org_group, admin_delete_org,
  admin_delete_org_group, admin_remove_org_group_member, admin_remove_org_member, admin_rename_org,
  admin_set_org_member,
}
use go_auth_x.Admin.Users.{
  UserBody, admin_create_user, admin_delete_user, admin_impersonate, admin_revoke_user_sessions,
  admin_set_ban, admin_set_password,
}
use go_auth_x.Base.{
  Bool, Bool-cases, Option, Option-cases, [], ap, arith, false, inl, inr, list_eq, nat_beq,
  nat_beq_iff, nat_eq, none, refl, some, subst, sym, ℕ, ◌==◌, ◌∙◌, ◌≡◌, ◌⊎◌,
}
use go_auth_x.Csrf.{bearer_token}
use go_auth_x.Handler.{Handler, follow, ◌>>◌}
use go_auth_x.Map.{get, get-put, map_option}
use go_auth_x.Memory.ApiKeys.{api_key_by_hash, touch_api_key}
use go_auth_x.Memory.Store.{ApiKey, Store}
use go_auth_x.Memory.Users.{with_id_cases}
use go_auth_x.Org.Gate.{Gate, Reply, go, stop}
use go_auth_x.Password.{PasswordTools}
use go_auth_x.Text.{Bytes, Text}
use go_auth_x.Types.{ApiKeyInfo, Result-cases, Time}

-- The calls that may change the store, with what the paths and bodies say.
pub data AdminCall : Type 0 where
  create_group_call : Option (Text × Text) → AdminCall
  delete_group_call revoke_key_call delete_user_call revoke_sessions_call delete_org_call :
      Text → AdminCall
  add_member_call remove_member_call delete_org_group_call remove_org_member_call :
      Text → Text → AdminCall
  set_disabled_call : Text → Bool → AdminCall
  create_key_call : Option KeyBody → Text → AdminCall
  create_user_call : Option UserBody → Text → AdminCall
  set_password_call rename_org_call : Text → Text → AdminCall
  set_ban_call : Text → Bool → Text → Text → AdminCall
  impersonate_call : Text → Text → Text → Text → AdminCall
  create_org_group_call : Text → Option (Text × Text) → AdminCall
  add_org_group_member_call remove_org_group_member_call set_org_member_call :
      Text → Text → Text → AdminCall
  create_org_call : Option (Text × Text) → AdminCall

module _ (config : AdminConfig) (tools : PasswordTools) (parse : Text → Option Time)
    (caller : Caller) (now : Time) where
  -- The store after a call.
  unfoldable pub perform : AdminCall → Store → Store
  unfolding admin_create_group admin_delete_group admin_revoke_key admin_delete_user
      admin_revoke_user_sessions admin_delete_org admin_add_member admin_remove_member
      admin_delete_org_group admin_remove_org_member admin_set_disabled admin_create_key
      admin_create_user admin_set_password admin_rename_org admin_set_ban admin_impersonate
      admin_create_org_group admin_add_org_group_member admin_remove_org_group_member
      admin_set_org_member admin_create_org
  perform (create_group_call body) s = (admin_create_group config caller body now s).0
  perform (delete_group_call id) s = (admin_delete_group config caller id now s).0
  perform (revoke_key_call id) s = (admin_revoke_key config caller id now s).0
  perform (delete_user_call id) s = (admin_delete_user config caller id now s).0
  perform (revoke_sessions_call id) s = (admin_revoke_user_sessions config caller id now s).0
  perform (delete_org_call id) s = (admin_delete_org config caller id now s).0
  perform (add_member_call uid gid) s = (admin_add_member config caller uid gid now s).0
  perform (remove_member_call uid gid) s = (admin_remove_member config caller uid gid now s).0
  perform (delete_org_group_call id gid) s = (admin_delete_org_group config caller id gid now s).0
  perform (remove_org_member_call id uid) s = (admin_remove_org_member config caller id uid now s).0
  perform (set_disabled_call id flag) s = (admin_set_disabled config caller id flag now s).0
  perform (create_key_call body rand) s = (admin_create_key config caller parse body rand now s).0
  perform (create_user_call body rand) s = (admin_create_user config tools caller body rand now s).0
  perform (set_password_call id pw) s = (admin_set_password config tools caller id pw now s).0
  perform (rename_org_call id name) s = (admin_rename_org config caller id name now s).0
  perform (set_ban_call id flag reason until) s =
      (admin_set_ban config caller parse id flag reason until now s).0
  perform (impersonate_call id sid agent ip) s =
      (admin_impersonate config caller id sid agent ip now s).0
  perform (create_org_group_call id body) s = (admin_create_org_group config caller id body now s).0
  perform (add_org_group_member_call id gid uid) s =
      (admin_add_org_group_member config caller id gid uid now s).0
  perform (remove_org_group_member_call id gid uid) s =
      (admin_remove_org_group_member config caller id gid uid now s).0
  perform (set_org_member_call id uid role) s =
      (admin_set_org_member config caller id uid role now s).0
  perform (create_org_call body) s = (admin_create_org config caller body now s).0

  module _ (s t : Store) (r : Reply) (refused : admin_guard config caller now s ≡ (t, stop r)) where
    behind {ℓ} : {A : Type ℓ} (rest : Handler A) → ((admin_guard config caller now >> rest) s).0 ≡ t
    behind rest = ap (λ p. (follow p λ _. rest).0) refused

    -- A call that the guard refuses leaves what the guard left.
    pub perform_refused : (c : AdminCall) → perform c s ≡ t
    unfolding perform
    perform_refused (create_group_call body) = behind _
    perform_refused (delete_group_call id) = behind _
    perform_refused (revoke_key_call id) = behind _
    perform_refused (delete_user_call id) = behind _
    perform_refused (revoke_sessions_call id) = behind _
    perform_refused (delete_org_call id) = behind _
    perform_refused (add_member_call uid gid) = behind _
    perform_refused (remove_member_call uid gid) = behind _
    perform_refused (delete_org_group_call id gid) = behind _
    perform_refused (remove_org_member_call id uid) = behind _
    perform_refused (set_disabled_call id flag) = behind _
    perform_refused (create_key_call body rand) = behind _
    perform_refused (create_user_call body rand) = behind _
    perform_refused (set_password_call id pw) = behind _
    perform_refused (rename_org_call id name) = behind _
    perform_refused (set_ban_call id flag reason until) = behind _
    perform_refused (impersonate_call id sid agent ip) = behind _
    perform_refused (create_org_group_call id body) = behind _
    perform_refused (add_org_group_member_call id gid uid) = behind _
    perform_refused (remove_org_group_member_call id gid uid) = behind _
    perform_refused (set_org_member_call id uid role) = behind _
    perform_refused (create_org_call body) = behind _

-- A key without the time of its last use.
abbrev pub unstamped : ApiKey → ApiKey
unstamped k = record k { info = record (k.info) { last_used_at = none } }

-- The stores differ in when API keys were last used, and in nothing else.
abbrev pub Stamped : Store → Store → Type 0
Stamped s t =
    (t ≡ record s { apikeys = t.apikeys })
    × ((k : ℕ) → map_option unstamped (get t.apikeys k) ≡ map_option unstamped (get s.apikeys k))

touch-Stamped : (s : Store) (id : Text) (now : Time) → Stamped s (touch_api_key s id now)
unfolding touch_api_key
touch-Stamped s id now =
    with_id_cases (Stamped s) id (refl, λ k. refl)
      λ n e. elim (Option-cases (get s.apikeys n)) [
        | inl h ↦ rw h (refl, λ k. refl)
        | inr (key, h) ↦
            let key' = record key { info = record (key.info) { last_used_at = some now } } in
            rw h (
              refl,
              λ k. elim (Bool-cases (nat_beq n k)) [
                | inl same ↦
                    let at : n ≡ k = (nat_beq_iff n k).0 same in
                    ground (arith, get-put s.apikeys n key' k)
                | inr other ↦ ground (arith, get-put s.apikeys n key' k)
              ],
            )
      ]

validate-Stamped :
    (hash : Text → Bytes) (s : Store) (raw : Text) (now : Time)
    → Stamped s (validate_api_key hash s raw now).0
unfolding validate_api_key
validate-Stamped hash s raw now = elim (Bool-cases (raw == [])) [
  | inl b ↦ rw (validate_api_key, b) (refl, λ k. refl)
  | inr b ↦ elim (Result-cases (api_key_by_hash s (hash raw))) [
    | inr (x, e) ↦ rw (validate_api_key, b, e) (refl, λ k. refl)
    | inl (row, e) ↦ elim (Bool-cases (is_expired row now)) [
      | inl late ↦ rw (validate_api_key, b, e, late) (refl, λ k. refl)
      | inr valid ↦ rw (validate_api_key, b, e, valid) (touch-Stamped s row.id now)
    ]
  ]
]

judge-left : (p : Store × Option ApiKeyInfo) → (judge p).0 ≡ p.0
judge-left (t, none) = refl
judge-left (t, some row) = refl

admit-left : (is_owner : Bool) (p : Store × Presented) → (admit is_owner p).0 ≡ p.0
admit-left is_owner (t, grants) = refl
admit-left is_owner (t, lacks_scope) = refl
admit-left is_owner (t, rejected) = refl
admit-left is_owner (t, no_key) = refl

present-Stamped :
    (config : AdminConfig) (s : Store) (caller : Caller) (now : Time)
    → Stamped s (present config s caller now).0
unfolding present
present-Stamped config s caller now =
    let raw = bearer_token caller.authorization in
    elim (Bool-cases (raw == [])) [
      | inl b ↦ rw (present, b) (refl, λ k. refl)
      | inr b ↦
          subst (Stamped s)
            (sym (ap (λ p. p.0) (present_step config caller now s b) ∙ judge-left _))
            (validate-Stamped config.hash_token s raw now)
    ]

pub admin_guard-Stamped :
    (config : AdminConfig) (caller : Caller) (now : Time) (s : Store)
    → Stamped s (admin_guard config caller now s).0
unfolding admin_guard
admin_guard-Stamped config caller now s =
    subst (Stamped s)
      (sym (admit-left (is_owner_session config caller.session) (present config s caller now)))
      (present-Stamped config s caller now)

Gate-cases : (g : Gate (Unit {0})) → (g ≡ go tt) ⊎ ((r : Reply) × (g ≡ stop r))
Gate-cases (go tt) = inl refl
Gate-cases (stop r) = inr (r, refl)

-- A caller without an owner's session and without a key of the admin scope, such as one with the key
-- of an organization, changes nothing by any call of the admin API but when a key was last used.
pub perform-Stamped :
    (config : AdminConfig) (tools : PasswordTools) (parse : Text → Option Time) (caller : Caller)
    (now : Time) (s : Store) (c : AdminCall)
    → is_owner_session config caller.session ≡ false
    → ¬ AdminKey config caller now s
    → Stamped s (perform config tools parse caller now c s)
perform-Stamped config tools parse caller now s c stranger keyless =
    elim (Gate-cases (admin_guard config caller now s).1) [
      | inl e ↦ absurd (elim ((admin_guard_passes config caller now s).0 e) [
        | inl o ↦ ground arith
        | inr k ↦ keyless k
      ])
      | inr (r, e) ↦
          subst (Stamped s)
            (sym (
              perform_refused config tools parse caller now s (admin_guard config caller now s).0 r
                (ap (λ g. ((admin_guard config caller now s).0, g)) e) c))
            (admin_guard-Stamped config caller now s)
    ]
