-- ===== src/Memory/Sessions.antt =====
-- store/memory/sessions.go: revocable sessions.
pub mod Revoked
use go_auth_x.Base.{Bool, false, if◌then◌else◌, list_eq, nat_eq, none, some, true, ◌==◌}
use go_auth_x.Map.{change_all, delete_if, get, put}
use go_auth_x.Memory.Store.{SessionRec, Store}
use go_auth_x.Text.{Text}
use go_auth_x.Types.{SessionRecord, Time, before}

-- pruneSessionsLocked
unfoldable pub prune_sessions : Store → Time → Store
prune_sessions s now = record s {
  sessions = delete_if (λ _ r. before r.rec.expires_at now) s.sessions;
}

-- RecordSession; the error is always nil
unfoldable pub record_session : Store → SessionRecord → Time → Store
unfolding prune_sessions
record_session s rec now =
    let s' = prune_sessions s now in
    record s' { sessions = put s'.sessions rec.sid (record { rec = rec; revoked = false }) }

-- IsRevoked
unfoldable pub is_revoked : Store → Text → Bool
is_revoked s sid = elim (get s.sessions sid) [ none ↦ true | some r ↦ r.revoked ]

-- RevokeSession; the error is always nil
unfoldable pub revoke_session : Store → Text → Store
revoke_session s sid = elim (get s.sessions sid) [
  | none ↦ s
  | some r ↦ record s { sessions = put s.sessions sid (record r { revoked = true }) }
]

abbrev pub revoke_of : Text → SessionRec → SessionRec
revoke_of subject r = if r.rec.subject == subject then record r { revoked = true } else r

-- RevokeAllForUser; the error is always nil
unfoldable pub revoke_all_for_user : Store → Text → Store
revoke_all_for_user s subject = record s {
  sessions = change_all (λ _. revoke_of subject) s.sessions;
}
