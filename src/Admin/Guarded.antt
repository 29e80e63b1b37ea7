-- ===== src/Admin/Guarded.antt =====
-- admin.go: what adminGuard lets through.
use go_auth_x.Admin.{
  AdminConfig, Caller, Presented, admin_guard, admit, grants, is_expired, is_owner_session, judge,
  lacks_scope, no_key, present, rejected, validate_api_key,
}
use go_auth_x.Admin.Groups.{found}
use go_auth_x.Base.{
  Bool, Bool-cases, Option, [], ap, arith, false, if◌then◌else◌, inl, inr, list_beq_iff, list_eq,
  nat_eq, none, refl, some, sym, true, ◌==◌, ◌↔◌, ◌∙◌, ◌≡◌, ◌≢◌, ◌⊎◌,
}
use go_auth_x.Csrf.{bearer_token}
use go_auth_x.Memory.ApiKeys.{api_key_by_hash, key_has_scope, touch_api_key}
use go_auth_x.Memory.Oauth.Clients.{differs}
use go_auth_x.Memory.Store.{Store}
use go_auth_x.Org.Gate.{go}
use go_auth_x.Text.{Text, codes}
use go_auth_x.Types.{ApiKeyInfo, Result-cases, Time, ok}

module _ (config : AdminConfig) (caller : Caller) (now : Time) (s : Store) where
  abbrev bearer : Text
  bearer = bearer_token caller.authorization

  -- A key of the caller that grants the admin API: known, not expired, bound to no organization,
  -- with the scope.
  pub record AdminKey : Type 0 where
    pub granting : ApiKeyInfo
    pub sent : bearer_token caller.authorization ≢ []
    pub known :
        api_key_by_hash s (config.hash_token (bearer_token caller.authorization)) ≡ ok granting
    pub live : is_expired granting now ≡ false
    pub scoped : key_has_scope granting (codes "admin") ≡ true
    pub global : granting.org_id ≡ []

  judge-grants :
      (p : Store × Option ApiKeyInfo)
      → (judge p).1 ≡ grants
      → (info : ApiKeyInfo) × (p.1 ≡ some info)
        × (key_has_scope info (codes "admin") ≡ true)
        × (info.org_id ≡ [])
  judge-grants (t, none) h = absurd (ground arith)
  judge-grants (t, some info) h =
      (info, refl, ground arith, ground (arith, list_beq_iff info.org_id []))

  pub validated :
      (raw : Text) (info : ApiKeyInfo)
      → (validate_api_key config.hash_token s raw now).1 ≡ some info
      → (raw ≢ [])
        × (api_key_by_hash s (config.hash_token raw) ≡ ok info)
        × (is_expired info now ≡ false)
  unfolding validate_api_key
  validated raw info h = elim (Bool-cases (raw == [])) [
    | inl b ↦ absurd (ground arith)
    | inr b ↦ elim (Result-cases (api_key_by_hash s (config.hash_token raw))) [
      | inr (x, e) ↦ absurd (ground arith)
      | inl (found, e) ↦ elim (Bool-cases (is_expired found now)) [
        | inl late ↦ absurd (ground arith)
        | inr live ↦
            let same : found ≡ info = ground arith in
            (differs raw [] b, e ∙ ap ok same, ap (λ i. is_expired i now) (sym same) ∙ live)
      ]
    ]
  ]

  admit-go :
      (is_owner : Bool) (p : Store × Presented)
      → (admit is_owner p).1 ≡ go tt
      → (is_owner ≡ true) ⊎ (p.1 ≡ grants)
  admit-go true p h = inl refl
  admit-go false (t, grants) h = inr refl
  admit-go false (t, lacks_scope) h = absurd (ground arith)
  admit-go false (t, rejected) h = absurd (ground arith)
  admit-go false (t, no_key) h = absurd (ground arith)

  admit-of :
      (is_owner : Bool) (p : Store × Presented)
      → (is_owner ≡ true) ⊎ (p.1 ≡ grants)
      → (admit is_owner p).1 ≡ go tt
  admit-of is_owner (t, grants) h = refl
  admit-of true (t, lacks_scope) h = refl
  admit-of true (t, rejected) h = refl
  admit-of true (t, no_key) h = refl
  admit-of false (t, lacks_scope) h = absurd (ground arith)
  admit-of false (t, rejected) h = absurd (ground arith)
  admit-of false (t, no_key) h = absurd (ground arith)

  -- The key of a request is judged.
  pub present_step :
      (bearer == []) ≡ false
      → present config s caller now ≡ judge (validate_api_key config.hash_token s bearer now)
  unfolding present
  present_step b =
      ap (λ c. if c then (s, no_key) else judge (validate_api_key config.hash_token s bearer now)) b

  present-grants : (present config s caller now).1 ≡ grants → AdminKey
  unfolding present
  present-grants h = elim (Bool-cases (bearer == [])) [
    | inl b ↦ absurd (ground arith)
    | inr b ↦
        let judged = ap (λ p. p.1) (sym (present_step b)) ∙ h in
        let (info, valid, scoped, global) =
          judge-grants (validate_api_key config.hash_token s bearer now) judged in
        let (sent, known, live) = validated bearer info valid in
        record {
          granting = info;
          sent = sent;
          known = known;
          live = live;
          scoped = scoped;
          global = global;
        }
  ]

  present-of : AdminKey → (present config s caller now).1 ≡ grants
  unfolding validate_api_key
  present-of k = elim (Bool-cases (bearer == [])) [
    | inl b ↦ absurd (k.sent ((list_beq_iff bearer []).0 b))
    | inr b ↦
        let known = k.known in
        let live = k.live in
        let scoped = k.scoped in
        let global = k.global in
        let valid : validate_api_key config.hash_token s bearer now
            ≡ (touch_api_key s k.granting.id now, some k.granting) =
          rw (validate_api_key, b, known, live) refl in
        ap (λ p. p.1) (present_step b ∙ ap judge valid)
        ∙ ground (arith, list_beq_iff k.granting.org_id [])
  ]

  -- The guard lets a request through exactly where its session is that of the instance owner, not
  -- impersonated, or its bearer token is a key that is known, not expired, bound to no organization
  -- and of the admin scope.
  pub admin_guard_passes :
      ((admin_guard config caller now s).1 ≡ go tt)
      ↔ ((is_owner_session config caller.session ≡ true) ⊎ AdminKey)
  unfolding admin_guard
  admin_guard_passes = (
    λ h. elim (admit-go (is_owner_session config caller.session) (present config s caller now) h) [
      | inl e ↦ inl e
      | inr e ↦ inr (present-grants e)
    ],
    λ h.
        admit-of (is_owner_session config caller.session) (present config s caller now)
          (elim h [ inl e ↦ inl e | inr k ↦ inr (present-of k) ]),
  )
