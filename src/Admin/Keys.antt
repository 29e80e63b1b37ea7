-- ===== src/Admin/Keys.antt =====
-- admin.go, orgdirectory.go: the gates that a key of an organization meets.
use go_auth_x.Admin.{
  is_expired, is_global, key_passes, validate_api_key, validate_api_key_scope,
  validate_org_api_key_scope,
}
use go_auth_x.Base.{
  Bool, Bool-cases, List, Option, Option-cases, [], ap, arith, beq_refl, false, inl, inr,
  list_beq_iff, list_eq, nat_eq, none, refl, some, subst, sym, ℕ, ◌&&◌, ◌==◌, ◌||◌, ◌∙◌, ◌≡◌, ◌≢◌,
}
use go_auth_x.Map.{find_value, find_value-put, get, put}
use go_auth_x.Memory.ApiKeys.{api_key_by_hash, create_org_api_key, insert_api_key, key_has_scope}
use go_auth_x.Memory.Store.{ApiKey, OrgRec, Store, next_id}
use go_auth_x.Memory.Users.{with_id}
use go_auth_x.Text.{Bytes, Text, id_str, parse_id, parse_uint}
use go_auth_x.Types.{ApiKeyInfo, Result, Time, err, no_credential, ok}

module _ (hash : Text → Bytes) (s : Store) (org_id name : Text) (groups scopes : List Text)
    (prefix raw : Text) (expires : Option Time) (now : Time) (n : ℕ) (o : OrgRec)
    (en : parse_id org_id ≡ some n) (eo : get s.orgs n ≡ some o)
    (fresh : api_key_by_hash s (hash raw) ≡ err no_credential) where
  abbrev made : ApiKeyInfo
  made = record {
    id = id_str (next_id s.api_seq);
    name = name;
    prefix = prefix;
    groups = groups;
    scopes = scopes;
    expires_at = expires;
    created_at = now;
    last_used_at = none;
    org_id = org_id;
  }

  abbrev after_create : Store
  after_create = (create_org_api_key s org_id name groups scopes prefix (hash raw) expires now).0

  unused : find_value (λ (k : ApiKey). k.hash == hash raw) s.apikeys ≡ none
  unfolding api_key_by_hash
  unused = elim (Option-cases (find_value (λ (k : ApiKey). k.hash == hash raw) s.apikeys)) [
    | inl e ↦ e
    | inr (k, e) ↦ absurd (ground arith)
  ]

  created_state : create_org_api_key s org_id name groups scopes prefix (hash raw) expires now ≡ (
    record s {
      api_seq = next_id s.api_seq;
      apikeys = put s.apikeys (next_id s.api_seq) (record { info = made; hash = hash raw });
    },
    ok made,
  )
  unfolding create_org_api_key insert_api_key
  created_state = rw (en, with_id) (rw eo refl)

  -- The new key is found by its hash.
  made_key : api_key_by_hash after_create (hash raw) ≡ ok made
  unfolding api_key_by_hash
  made_key =
      let key : ApiKey = record { info = made; hash = hash raw } in
      let found =
        find_value-put (λ (k : ApiKey). k.hash == hash raw) s.apikeys (next_id s.api_seq) key unused
          (beq_refl (hash raw)) in
      subst (λ (r : Store × Result ApiKeyInfo). api_key_by_hash r.0 (hash raw) ≡ ok made)
        (sym created_state) (rw (api_key_by_hash, found) refl)

  -- The key is no global one.
  bound : (org_id == []) ≡ false
  unfolding parse_id parse_uint
  bound = elim (Bool-cases (org_id == [])) [
    | inr b ↦ b
    | inl b ↦ absurd (ground (arith, ap parse_id ((list_beq_iff org_id []).0 b)))
  ]

  module _ (later : Time) (live_then : is_expired made later ≡ false) (given_key : raw ≢ []) where
    accepted_key : (validate_api_key hash after_create raw later).1 ≡ some made
    unfolding validate_api_key
    accepted_key = elim (Bool-cases (raw == [])) [
      | inl b ↦ absurd (given_key ((list_beq_iff raw []).0 b))
      | inr b ↦ rw (validate_api_key, b, made_key, live_then) refl
    ]

    passes-valid :
        (p : ApiKeyInfo → Bool) (v : Store × Option ApiKeyInfo)
        → v.1 ≡ some made
        → (key_passes p v).1 ≡ p made
    passes-valid p (t, none) h = absurd (ground arith)
    passes-valid p (t, some k) h = ap p (ground arith)

    -- A key that is created for an organization, while it is not expired, passes the gate of an
    -- organization exactly where it has the scope and the organization is its own, and never a
    -- global gate, whatever its scopes.
    pub org_key_reach :
        (scope target : Text)
        → ((validate_api_key_scope hash after_create raw scope later).1 ≡ false)
          × ((validate_org_api_key_scope hash after_create raw scope target later).1
              ≡ (key_has_scope made scope && org_id == target))
    unfolding validate_api_key_scope validate_org_api_key_scope
    org_key_reach scope target =
        let valid = validate_api_key hash after_create raw later in
        (
          passes-valid (λ k. key_has_scope k scope && is_global k) valid accepted_key
              ∙ (let b = bound in ground arith),
          passes-valid (λ k. key_has_scope k scope && (is_global k || k.org_id == target)) valid
                accepted_key
              ∙ (let b = bound in ground arith),
        )
