-- ===== src/Login/Gated.antt =====
-- login.go, and the sign-in handlers of password.go, magic.go and emailotp.go: users with a second
-- factor.
use go_auth_x.Base.{
  Bool, Bool-cases, Option, [], ap, arith, false, inl, inr, list_eq, nat_eq, none, refl, some,
  subst, sym, true, ℕ, ◌==◌, ◌∙◌, ◌≡◌,
}
use go_auth_x.Handler.{Handler, follow, stop_ne_go}
use go_auth_x.Login.{
  Authorizer, Client, Identity, LoginConfig, PendingClaims, SignIn, as_pending, as_session,
  complete_login, enriched, finish_login, mint_pending, note_session, or_status, pending, session,
  start_session, ttl_of, user_has_totp,
}
use go_auth_x.Memory.Sessions.{prune_sessions, record_session}
use go_auth_x.Memory.Store.{Store}
use go_auth_x.Memory.TwoFactor.{totp}
use go_auth_x.Memory.Users.{find_by_sub, user_by_sub}
use go_auth_x.Org.Gate.{Gate, deny, go, stop}
use go_auth_x.Session.{SessionClaims, mint_session_with}
use go_auth_x.Text.{Bytes, Text}
use go_auth_x.Types.{AuthUser, Result-cases, Time, ok}

-- A session is of a subject without a confirmed second factor, and a pending cookie of a subject with
-- one.
abbrev pub IsGated : Store → SignIn → Type 0
IsGated t (session sc) =
    (u : AuthUser) → user_by_sub t sc.subject ≡ ok u → user_has_totp t u.id ≡ false
IsGated t (pending pc) =
    (u : AuthUser) × (user_by_sub t pc.subject ≡ ok u) × (user_has_totp t u.id ≡ true)

abbrev Sets : Store × Option SignIn → Type 0
Sets p = (x : SignIn) → p.1 ≡ some x → IsGated p.0 x

abbrev pub Gates : Store × Gate SignIn → Type 0
Gates r = (x : SignIn) → r.1 ≡ go x → IsGated r.0 x

-- A chain of steps sets what its last step sets.
pub follow-Gates {ℓ} :
    {A : Type ℓ} (p : Store × Gate A) (f : A → Handler SignIn)
    → ((a : A) (t : Store) → Gates (f a t))
    → Gates (follow p f)
follow-Gates (t, stop r) f h = λ x e. absurd (stop_ne_go r x e)
follow-Gates (t, go a) f h = h a t

pub or_status-Gates : (status : ℕ) (p : Store × Option SignIn) → Sets p → Gates (or_status status p)
or_status-Gates status (t, none) h x e = absurd (ground arith)
or_status-Gates status (t, some y) h x e = h x (ground arith)

pub refuse-Gates : (t : Store) (status : ℕ) → Gates (t, deny status)
refuse-Gates t status x e = absurd (ground arith)

-- The sessions of the store decide nothing.
resessioned :
    (s t : Store) (x : SignIn) → t ≡ record s { sessions = t.sessions } → IsGated s x → IsGated t x
unfolding user_by_sub find_by_sub user_has_totp totp
resessioned s t (session sc) e h = subst (λ (r : Store). IsGated r (session sc)) (sym e) h
resessioned s t (pending pc) e h = subst (λ (r : Store). IsGated r (pending pc)) (sym e) h

note_session-left :
    (sid subject uid agent ip : Text) (ttl : ℕ) (now : Time) (s : Store)
    → let t = note_session sid subject uid agent ip ttl now s in
      t ≡ record s { sessions = t.sessions }
unfolding note_session record_session prune_sessions
note_session-left sid subject uid agent ip ttl now s = elim (Bool-cases (sid == [])) [
  | inl b ↦ rw (b, note_session) refl
  | inr b ↦ rw (b, note_session) refl
]

minted_subject :
    (secret : Bytes) (base sc : SessionClaims) (sub : Text) (now : Time) (ttl : ℕ)
    → mint_session_with secret base sub now ttl ≡ some sc
    → sc.subject ≡ sub
unfolding mint_session_with
minted_subject secret base sc sub now ttl e = ground arith

enriched-subject :
    (s : Store) (u : AuthUser) (id : Identity) → (enriched s u id).subject ≡ id.subject
enriched-subject s u id = elim (Bool-cases (id.groups == [])) [
  | inl b ↦ ground arith
  | inr b ↦ ground arith
]

module _ (config : LoginConfig) (client : Client) (role : Text) (remember : Bool)
    (first_factor_cred : Bytes) (now : Time) (s : Store) where
  -- A session cookie for the subject `sub` is gated where the subject has no confirmed factor.
  recorded-Sets :
      (sub uid : Text) (v : Option SessionClaims)
      → ((sc : SessionClaims) → v ≡ some sc → sc.subject ≡ sub)
      → ((u : AuthUser) → user_by_sub s sub ≡ ok u → user_has_totp s u.id ≡ false)
      → Sets (
          as_session (elim v [
            | none ↦ (s, none)
            | some sc ↦ (
              note_session client.sid sub uid client.agent client.ip (ttl_of remember) now s,
              some sc,
            )
          ]))
  recorded-Sets sub uid none named free = λ x e. absurd (ground arith)
  recorded-Sets sub uid (some sc) named free = λ x e.
      let t = note_session client.sid sub uid client.agent client.ip (ttl_of remember) now s in
      let is_session : session sc ≡ x =
        ap (λ (o : Option SignIn). elim o [ none ↦ x | some y ↦ y ]) e in
      let own : IsGated s (session sc) =
        λ u h. free u (ap (user_by_sub s) (sym (named sc refl)) ∙ h) in
      resessioned s t x
        (note_session-left client.sid sub uid client.agent client.ip (ttl_of remember) now s)
        (subst (IsGated s) is_session own)

  start_session-Sets :
      (i : Identity) (uid : Text)
      → ((u : AuthUser) → user_by_sub s i.subject ≡ ok u → user_has_totp s u.id ≡ false)
      → Sets (as_session (start_session config client i role remember uid now s))
  start_session-Sets i uid free =
      recorded-Sets i.subject uid _
        (λ sc e. minted_subject config.session_secret _ sc i.subject now (ttl_of remember) e) free

  pending-Sets :
      (id : Identity) (u : AuthUser) (v : Option PendingClaims)
      → user_by_sub s id.subject ≡ ok u
      → user_has_totp s u.id ≡ true
      → ((pc : PendingClaims) → v ≡ some pc → pc.subject ≡ id.subject)
      → Sets (s, as_pending v)
  pending-Sets id u none e has named = λ x h. absurd (ground arith)
  pending-Sets id u (some pc) e has named = λ x h.
      let is_pending : pending pc ≡ x =
        ap (λ (o : Option SignIn). elim o [ none ↦ x | some y ↦ y ]) h in
      subst (IsGated s) is_pending (u, ap (user_by_sub s) (named pc refl) ∙ e, has)

  pending_subject :
      (i : Identity) (pc : PendingClaims)
      → mint_pending config.session_secret i role remember first_factor_cred now ≡ some pc
      → pc.subject ≡ i.subject
  unfolding mint_pending
  pending_subject i pc e = ground arith

  finish_login-Sets :
      (id : Identity) → Sets (finish_login config client id role remember first_factor_cred now s)
  unfolding finish_login
  finish_login-Sets id = elim (Result-cases (user_by_sub s id.subject)) [
    | inr (x, e) ↦ rw (finish_login, e) (start_session-Sets id [] λ u h. absurd (ground arith))
    | inl (u, e) ↦
        let same = enriched-subject s u id in
        elim (Bool-cases (user_has_totp s u.id)) [
          | inr b ↦
              let free : (w : AuthUser)
                  → user_by_sub s (enriched s u id).subject ≡ ok w
                  → user_has_totp s w.id ≡ false =
                λ w h.
                  let is_u : ok u ≡ ok w = sym e ∙ ap (user_by_sub s) (sym same) ∙ h in
                  ground arith in
              rw (finish_login, e, b) (start_session-Sets (enriched s u id) u.id free)
          | inl b ↦
              rw (finish_login, e, b)
                (pending-Sets id u _ e b λ pc h. pending_subject (enriched s u id) pc h ∙ same)
        ]
  ]

pub complete_login-Sets :
    (config : LoginConfig) (authorizer : Authorizer) (client : Client) (id : Identity)
    (remember : Bool) (first_factor_cred : Bytes) (now : Time) (s : Store)
    → Sets (complete_login config authorizer client id remember first_factor_cred now s)
unfolding complete_login
complete_login-Sets config none client id remember first_factor_cred now s =
    finish_login-Sets config client [] remember first_factor_cred now s id
complete_login-Sets config (some authorizer) client id remember first_factor_cred now s =
    elim (Result-cases (authorizer id s).1) [
      | inr (x, e) ↦ rw (complete_login, e) λ y h. absurd (ground arith)
      | inl (role, e) ↦
          rw (complete_login, e)
            (finish_login-Sets config client role remember first_factor_cred now (authorizer id s).0
              id)
    ]
