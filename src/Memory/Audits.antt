-- ===== src/Memory/Audits.antt =====
-- store/memory/memory.go: the audit log.
use go_auth_x.Base.{Bool, [], keep, length, list_eq, nat_eq, not, ℕ, ◌&&◌, ◌++◌, ◌==◌, ◌∷◌}
use go_auth_x.Memory.Store.{Audit, Store}
use go_auth_x.Text.{Text, norm, parse_user_id}
use go_auth_x.Types.{Time, before}

-- RecordAudit
unfoldable pub record_audit : Store → Text → Text → Bool → Time → Store
record_audit s user_id email success now = record s {
  audits =
      s.audits
      ++ record {
        user_id = parse_user_id user_id;
        email = norm email;
        success = success;
        created_at = now;
      }
        ∷ [];
}

abbrev pub is_failure : Text → Time → Audit → Bool
is_failure email since a =
    a.email == norm email && (not a.success && not (before a.created_at since))

-- RecentFailures
unfoldable pub recent_failures : Store → Text → Time → ℕ
recent_failures s email since = length (keep (is_failure email since) s.audits)
