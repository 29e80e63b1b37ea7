-- ===== src/Memory/Sessions/Revoked.antt =====
-- A revoked session stays revoked.
use go_auth_x.Base.{
  Bool-cases, Option-cases, [], arith, false, if◌then◌else◌, inl, inr, list_beq_iff, list_eq,
  nat_eq, refl, some, true, ℕ, ◌!=◌, ◌==◌, ◌≡◌, ◌≢◌,
}
use go_auth_x.Map.{change_all, delete_if, get, get-change_all, get-delete_if, get-put}
use go_auth_x.Memory.Erase.{delete_user, email_of, tombstone}
use go_auth_x.Memory.Sessions.{
  is_revoked, prune_sessions, record_session, revoke_all_for_user, revoke_of, revoke_session,
}
use go_auth_x.Memory.Store.{SessionRec, Store}
use go_auth_x.Memory.Users.{with_id}
use go_auth_x.Text.{Text, id_str, parse_id}
use go_auth_x.Types.{SessionRecord, Time, before}

-- The operations of the session store, and the two of the user store that touch sessions.
pub data Step (s : Store) : Store → Type 0 where
  records : (rec : SessionRecord) (now : Time) → Step s (record_session s rec now)
  prunes : (now : Time) → Step s (prune_sessions s now)
  revokes : (sid : Text) → Step s (revoke_session s sid)
  revokes_all : (subject : Text) → Step s (revoke_all_for_user s subject)
  erases : (user_id : Text) → Step s (delete_user s user_id)

-- A step that does not record a new session under `sid`.
abbrev pub Leaves : {s t : Store} → Text → Step s t → Type 0
Leaves sid (records rec now) = rec.sid ≢ sid
Leaves sid _ = Unit {0}

pub data Run (sid : Text) (s : Store) : Store → Type 0 where
  start : Run sid s s
  extend : {t u : Store} → Run sid s t → (step : Step t u) → Leaves sid step → Run sid s u

prune-revoked :
    (s : Store) (sid : Text) (now : Time)
    → is_revoked s sid ≡ true
    → is_revoked (prune_sessions s now) sid ≡ true
unfolding is_revoked prune_sessions
prune-revoked s sid now h =
    ground (arith, get-delete_if (λ _ r. before r.rec.expires_at now) s.sessions sid)

record-revoked :
    (s : Store) (sid : Text) (rec : SessionRecord) (now : Time)
    → is_revoked s sid ≡ true
    → rec.sid ≢ sid
    → is_revoked (record_session s rec now) sid ≡ true
unfolding is_revoked record_session
record-revoked s sid rec now h other = ground (
  arith,
  get-delete_if (λ _ r. before r.rec.expires_at now) s.sessions sid,
  get-put (delete_if (λ _ r. before r.rec.expires_at now) s.sessions) rec.sid
      (record { rec = rec; revoked = false }) sid,
  list_beq_iff rec.sid sid,
)

revoke-revoked :
    (s : Store) (sid target : Text)
    → is_revoked s sid ≡ true
    → is_revoked (revoke_session s target) sid ≡ true
unfolding is_revoked revoke_session
revoke-revoked s sid target h = elim (Option-cases (get s.sessions target)) [
  | inl e ↦ rw (e, revoke_session) h
  | inr (r, e) ↦
      rw (e, revoke_session)
        (ground (arith, get-put s.sessions target (record r { revoked = true }) sid))
]

revoke_all-revoked :
    (s : Store) (sid subject : Text)
    → is_revoked s sid ≡ true
    → is_revoked (revoke_all_for_user s subject) sid ≡ true
unfolding is_revoked revoke_all_for_user
revoke_all-revoked s sid subject h =
    ground (arith, get-change_all (λ _. revoke_of subject) s.sessions sid)

sessions-delete_user :
    (s : Store) (user_id : Text) (n : ℕ)
    → parse_id user_id ≡ some n
    → (delete_user s user_id).sessions ≡ change_all (λ _. tombstone (id_str n)) s.sessions
unfolding delete_user
sessions-delete_user s user_id n h = elim (Bool-cases (email_of (get s.users n) != [])) [
  | inl b ↦ rw (h, with_id) (rw b refl)
  | inr b ↦ rw (h, with_id) (rw b refl)
]

erase-revoked :
    (s : Store) (sid user_id : Text)
    → is_revoked s sid ≡ true
    → is_revoked (delete_user s user_id) sid ≡ true
unfolding is_revoked
erase-revoked s sid user_id h = elim (Option-cases (parse_id user_id)) [
  | inl e ↦ unfold delete_user in rw (e, with_id) h
  | inr (n, e) ↦
      rw (sessions-delete_user s user_id n e)
        (ground (arith, get-change_all (λ _. tombstone (id_str n)) s.sessions sid))
]

Step-revoked :
    {s t : Store} (sid : Text) (step : Step s t)
    → Leaves sid step
    → is_revoked s sid ≡ true
    → is_revoked t sid ≡ true
Step-revoked {s} sid (records rec now) other h = record-revoked s sid rec now h other
Step-revoked {s} sid (prunes now) other h = prune-revoked s sid now h
Step-revoked {s} sid (revokes target) other h = revoke-revoked s sid target h
Step-revoked {s} sid (revokes_all subject) other h = revoke_all-revoked s sid subject h
Step-revoked {s} sid (erases user_id) other h = erase-revoked s sid user_id h

-- A session that is revoked, or unknown, is refused after any run of operations that does not
-- record a new session under its identifier.
pub Run-revoked :
    (sid : Text) {s t : Store} → Run sid s t → is_revoked s sid ≡ true → is_revoked t sid ≡ true
Run-revoked sid start h = h
Run-revoked sid (extend run step other) h = Step-revoked sid step other (Run-revoked sid run h)

-- RevokeAllForUser refuses every session of the subject.
pub revoke_all_for_user_lem :
    (s : Store) (subject sid : Text) (r : SessionRec)
    → get s.sessions sid ≡ some r
    → r.rec.subject ≡ subject
    → is_revoked (revoke_all_for_user s subject) sid ≡ true
unfolding is_revoked revoke_all_for_user
revoke_all_for_user_lem s subject sid r h e = ground (
  arith,
  get-change_all (λ _. revoke_of subject) s.sessions sid,
  list_beq_iff r.rec.subject subject,
)

-- A session that is recorded live, and only that one, is accepted right afterwards.
pub is_revoked-record_session :
    (s : Store) (rec : SessionRecord) (now : Time) (sid : Text)
    → is_revoked (record_session s rec now) sid
      ≡ (if rec.sid == sid then false else is_revoked (prune_sessions s now) sid)
unfolding is_revoked record_session
is_revoked-record_session s rec now sid = ground (
  arith,
  get-put (delete_if (λ _ r. before r.rec.expires_at now) s.sessions) rec.sid
      (record { rec = rec; revoked = false }) sid,
)
