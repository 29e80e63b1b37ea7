-- ===== src/Admin/Impersonation.antt =====
-- admin_users.go: the session of an impersonation.
use go_auth_x.Admin.{AdminConfig, Caller, admin_guard, is_owner_session}
use go_auth_x.Admin.Actor.{NamesCaller, admin_sub_names}
use go_auth_x.Admin.Refused.{Stamped, admin_guard-Stamped}
use go_auth_x.Admin.Users.{admin_impersonate, admin_sub, impersonate_as, impersonation_ttl}
use go_auth_x.Base.{
  Bool, Bool-cases, [], ap, arith, beq_refl, false, inl, inr, list_beq, list_eq, nat_eq, none, refl,
  some, subst, sym, take, true, ℕ, ◌!=◌, ◌&&◌, ◌+◌, ◌==◌, ◌∙◌, ◌≡◌, ◌≢◌,
}
use go_auth_x.Handler.{always, fetch, follow_holds, gate, or_answer, stop_ne_go, ◌>>=◌}
use go_auth_x.Login.{note_session}
use go_auth_x.Memory.Audits.{record_audit}
use go_auth_x.Memory.Oauth.Clients.{differs}
use go_auth_x.Memory.Sessions.{is_revoked, record_session}
use go_auth_x.Memory.Sessions.Revoked.{is_revoked-record_session}
use go_auth_x.Memory.Store.{Store}
use go_auth_x.Memory.Users.{user_by_id}
use go_auth_x.Org.Gate.{Gate, Reply, go, param_id, stop}
use go_auth_x.Session.{SessionClaims, can_sign, mint_session_with}
use go_auth_x.Text.{Text, trim_space}
use go_auth_x.Types.{AuthUser, Result-cases, SessionRecord, Time, ok}

abbrev given {ℓ} : {A : Type ℓ} → A → Gate A → A
given a (stop r) = a
given a (go b) = b

-- The session is recorded live.
is_revoked-audit :
    (s : Store) (id email sid : Text) (success : Bool) (now : Time)
    → is_revoked (record_audit s id email success now) sid ≡ is_revoked s sid
unfolding is_revoked record_audit
is_revoked-audit s id email sid success now = refl

noted :
    (sid sub id agent ip : Text) (ttl : ℕ) (now : Time) (email : Text) (s : Store)
    → (is_revoked (record_audit (note_session sid sub id agent ip ttl now s) id email true now) sid
        && sid != [])
      ≡ false
unfolding note_session
noted sid sub id agent ip ttl now email s = elim (Bool-cases (sid == [])) [
  | inl b ↦ ground arith
  | inr b ↦
      let rec : SessionRecord = record {
        sid = sid;
        subject = sub;
        user_id = id;
        user_agent = take 400 agent;
        ip = ip;
        created_at = now;
        expires_at = now + ttl;
        current = false;
      } in
      rw (b, note_session)
        (ground (
          arith,
          is_revoked-audit (record_session s rec now) id email sid true now,
          is_revoked-record_session s rec now sid,
          beq_refl sid,
        ))
]

module _ (config : AdminConfig) (sid agent ip : Text) (now : Time) (caller : Caller) (raw_id : Text)
    (s : Store) where
  -- What the session of an impersonation is, and the store that it is recorded in.
  pub record IsMarked (t : Store) (sc : SessionClaims) : Type 0 where
    pub marked : sc.impersonated_by ≢ []
    pub actor : NamesCaller config caller s sc.impersonated_by
    pub of_user :
        (u : AuthUser) × (user_by_id s (trim_space raw_id) ≡ ok u)
        × (sc.subject ≡ u.sub)
        × (sc.email ≡ u.email)
    pub no_owner : is_owner_session config (some sc) ≡ false
    pub short : sc.expires_at ≡ some (now + impersonation_ttl)
    pub drawn : sc.sid ≡ sid
    pub recorded : (is_revoked t sc.sid && sc.sid != []) ≡ false

  abbrev Marks : Store × Gate SessionClaims → Type 0
  Marks r = (sc : SessionClaims) → r.1 ≡ go sc → IsMarked r.0 sc

  Marks-stop : (t : Store) (r : Reply) → Marks (t, stop r)
  Marks-stop t r sc h = absurd (stop_ne_go r sc h)

  module _ (id : Text) (target : AuthUser)
      (found_user : user_by_id s (trim_space raw_id) ≡ ok target) (marker : Text)
      (names : marker ≢ [] → NamesCaller config caller s marker) where
    impersonate_as-Marks :
        (t : Store) → Marks (impersonate_as config id target marker sid agent ip now t)
    unfolding impersonate_as mint_session_with list_beq
    impersonate_as-Marks t = elim (Bool-cases (marker == [])) [
      | inl b ↦ rw (b, impersonate_as) (Marks-stop t (record { status = 403; cookie = none }))
      | inr b ↦ elim (Bool-cases (can_sign config.session_secret)) [
        | inr c ↦
            rw (b, c, impersonate_as, mint_session_with)
              (Marks-stop t (record { status = 500; cookie = none }))
        | inl c ↦
            let named = differs marker [] b in
            rw (b, c, impersonate_as, mint_session_with)
              λ sc h.
                let same = ap (given sc) h in
                let noted_in = note_session sid target.sub id agent ip impersonation_ttl now t in
                let end = record_audit noted_in id target.email true now in
                let r = noted sid target.sub id agent ip impersonation_ttl now target.email t in
                record {
                  marked = λ e. named (ap (λ x. x.impersonated_by) same ∙ e);
                  actor =
                      subst (λ x. NamesCaller config caller s x.impersonated_by) same (names named);
                  of_user = (
                    target,
                    found_user,
                    ap (λ x. x.subject) (sym same),
                    ap (λ x. x.email) (sym same),
                  );
                  no_owner =
                      subst (λ x. is_owner_session config (some x) ≡ false) same (ground arith);
                  short = ap (λ x. x.expires_at) (sym same);
                  drawn = ap (λ x. x.sid) (sym same);
                  recorded = subst (λ x. (is_revoked end x.sid && x.sid != []) ≡ false) same r;
                }
      ]
    ]

  -- What the guard leaves has the accounts of before.
  same_user : (t : Store) (id : Text) → Stamped s t → user_by_id t id ≡ user_by_id s id
  unfolding user_by_id
  same_user t id (same, _) = ap (λ x. user_by_id x id) same

  read_user :
      (t : Store) (id : Text) (target : AuthUser)
      → Stamped s t
      → param_id raw_id ≡ go id
      → or_answer (always 404) (user_by_id t id) ≡ go target
      → user_by_id s (trim_space raw_id) ≡ ok target
  unfolding param_id
  read_user t id target stamped e h =
      let at : trim_space raw_id ≡ id = ground arith in
      let same = same_user t id stamped in
      elim (Result-cases (user_by_id t id)) [
        | inr (x, e2) ↦ absurd (ground arith)
        | inl (u, e2) ↦
            let got : u ≡ target = ground arith in ap (user_by_id s) at ∙ sym same ∙ e2 ∙ ap ok got
      ]

  -- If adminImpersonate answers with a session, the session names who impersonates, by the subject of
  -- the caller's session or else by a key that the caller presents; it is of the user whose ID is
  -- asked for, and not an owner's to the guard of the admin API, even if the user is the owner; it
  -- ends after half an hour, and its identifier is the one that was drawn, recorded as live unless it
  -- is empty.
  pub admin_impersonate-IsMarked :
      (sc : SessionClaims)
      → (admin_impersonate config caller raw_id sid agent ip now s).1 ≡ go sc
      → IsMarked (admin_impersonate config caller raw_id sid agent ip now s).0 sc
  unfolding admin_impersonate
  admin_impersonate-IsMarked =
      let finish = λ (id : Text) (target : AuthUser) (marker : Text).
        impersonate_as config id target marker sid agent ip now in
      let mark =
        λ (id : Text) (target : AuthUser). admin_sub config caller now >>= finish id target in
      let load = λ (id : Text). fetch (λ s'. user_by_id s' id) (always 404) >>= mark id in
      let read = λ (_ : Unit {0}). gate (param_id raw_id) >>= load in
      follow_holds Marks (admin_guard config caller now s) read (Marks-stop _) λ _ e1.
        let s1 = (admin_guard config caller now s).0 in
        let stamped = admin_guard-Stamped config caller now s in
        follow_holds Marks (s1, param_id raw_id) load (Marks-stop _)
          λ id e2.
            follow_holds Marks (s1, or_answer (always 404) (user_by_id s1 id)) (mark id)
              (Marks-stop _)
              λ target e3.
                follow_holds Marks (admin_sub config caller now s1) (finish id target)
                  (Marks-stop _)
                  λ marker e4.
                    impersonate_as-Marks id target (read_user s1 id target stamped e2 e3) marker
                      (admin_sub_names config caller now s s1 marker stamped e4)
                      (admin_sub config caller now s1).0
