-- ===== src/Memory/Identities.antt =====
-- store/memory/memory.go: links to social identities.
use go_auth_x.Base.{list_eq, nat_eq, none, some, ◌&&◌, ◌++◌, ◌==◌}
use go_auth_x.Map.{delete_if, get, put}
use go_auth_x.Memory.Store.{Store}
use go_auth_x.Memory.Users.{view, view_or, with_id}
use go_auth_x.Text.{Text, codes, has_prefix}
use go_auth_x.Types.{AuthUser, Result, err, no_user, ok}

-- provider + "|" + subject
abbrev pub identity_key : Text → Text → Text
identity_key provider subject = provider ++ (codes "|" ++ subject)

-- UserByOAuth
unfoldable pub user_by_oauth : Store → Text → Text → Result AuthUser
unfolding view
user_by_oauth s provider subject = elim (get s.oauth (identity_key provider subject)) [
  | none ↦ err no_user
  | some uid ↦ view_or (get s.users uid) ok (err no_user)
]

-- LinkOAuth; the error is always nil
unfoldable pub link_oauth : Store → Text → Text → Text → Store
link_oauth s user_id provider subject = with_id user_id s λ n.
    elim (get s.oauth (identity_key provider subject)) [
      | some other ↦ s
      | none ↦ record s { oauth = put s.oauth (identity_key provider subject) n }
    ]

-- UnlinkOAuth; the error is always nil
unfoldable pub unlink_oauth : Store → Text → Text → Store
unlink_oauth s user_id provider = with_id user_id s λ n. record s {
  oauth = delete_if (λ k uid. uid == n && has_prefix k (provider ++ codes "|")) s.oauth;
}
