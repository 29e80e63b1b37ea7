-- ===== src/Memory/ApiKeys.antt =====
-- store/memory/directory.go and orgs.go: API keys.
use go_auth_x.Base.{Bool, List, Option, [], any, list_eq, nat_eq, none, some, ◌==◌, ◌||◌}
use go_auth_x.Map.{delete, find_value, get, put}
use go_auth_x.Memory.Store.{Store, next_id}
use go_auth_x.Memory.Users.{with_id}
use go_auth_x.Text.{Bytes, Text, codes, id_str}
use go_auth_x.Types.{ApiKeyInfo, Result, Time, err, no_credential, no_org, ok}

-- The row that CreateAPIKey (org_id = "") and CreateOrgAPIKey add.
unfoldable pub insert_api_key :
    Store
    → Text
    → Text
    → List Text
    → List Text
    → Text
    → Bytes
    → Option Time
    → Time
    → Store × Result ApiKeyInfo
insert_api_key s org_id name groups scopes prefix hash expires_at now =
    let kid = next_id s.api_seq in
    let info : ApiKeyInfo = record {
      id = id_str kid;
      name = name;
      prefix = prefix;
      groups = groups;
      scopes = scopes;
      expires_at = expires_at;
      created_at = now;
      last_used_at = none;
      org_id = org_id;
    } in
    (
      record s { api_seq = kid; apikeys = put s.apikeys kid (record { info = info; hash = hash }) },
      ok info,
    )

-- CreateAPIKey
unfoldable pub create_api_key :
    Store
    → Text
    → List Text
    → List Text
    → Text
    → Bytes
    → Option Time
    → Time
    → Store × Result ApiKeyInfo
unfolding insert_api_key
create_api_key s name groups scopes prefix hash expires_at now =
    insert_api_key s [] name groups scopes prefix hash expires_at now

-- CreateOrgAPIKey: the key keeps the organization's ID as the caller wrote it.
unfoldable pub create_org_api_key :
    Store
    → Text
    → Text
    → List Text
    → List Text
    → Text
    → Bytes
    → Option Time
    → Time
    → Store × Result ApiKeyInfo
unfolding insert_api_key
create_org_api_key s org_id name groups scopes prefix hash expires_at now =
    with_id org_id (s, err no_org)
      λ n. elim (get s.orgs n) [
        | none ↦ (s, err no_org)
        | some o ↦ insert_api_key s org_id name groups scopes prefix hash expires_at now
      ]

-- APIKeyByHash
unfoldable pub api_key_by_hash : Store → Bytes → Result ApiKeyInfo
api_key_by_hash s hash = elim (find_value (λ k. k.hash == hash) s.apikeys) [
  | none ↦ err no_credential
  | some k ↦ ok k.info
]

-- RevokeAPIKey; the error is always nil
unfoldable pub revoke_api_key : Store → Text → Store
revoke_api_key s id = with_id id s λ n. record s { apikeys = delete s.apikeys n }

-- TouchAPIKey; the error is always nil
unfoldable pub touch_api_key : Store → Text → Time → Store
touch_api_key s id now = with_id id s λ n. elim (get s.apikeys n) [
  | none ↦ s
  | some k ↦ record s {
    apikeys = put s.apikeys n (record k { info = record (k.info) { last_used_at = some now } });
  }
]

-- KeyHasScope of directory.go, at a key
unfoldable pub key_has_scope : ApiKeyInfo → Text → Bool
key_has_scope info scope = any (λ s. s == scope || s == codes "*") info.scopes
