-- ===== src/Provider/Codes.antt =====
-- A code is exchanged once, also after the provider has forgotten it.
use go_auth_x.Base.{
  Bool-cases, arith, beq_refl, false, inl, inr, list_eq, nat_eq, refl, some, true, ◌≡◌, ◌≤◌,
}
use go_auth_x.Map.{get, get-delete_if, get-put, is_some, put}
use go_auth_x.Memory.Oauth.{oauth_auth_request_by_code}
use go_auth_x.Memory.Store.{Store}
use go_auth_x.OauthTypes.{OauthAuthRequest}
use go_auth_x.Provider.{ProviderConfig, ProviderError, denied, invalid_grant, issued, not_found}
use go_auth_x.Provider.Requests.{Storage, auth_request_by_code, forget_codes, is_older, request_of}
use go_auth_x.Text.{Text}
use go_auth_x.Types.{Result-cases, Time, ok}

old_is_denied :
    (cfg : ProviderConfig) (st : Store) (hash : Text) (later : Time)
    → ((r : OauthAuthRequest)
        → oauth_auth_request_by_code st hash ≡ ok r
        → is_older r.created_at cfg.auth_request_ttl later ≡ true)
    → (e : ProviderError) × (request_of cfg st hash later ≡ denied e)
old_is_denied cfg st hash later old = elim (Result-cases (oauth_auth_request_by_code st hash)) [
  | inr (e, m) ↦ (not_found, rw (m, request_of) refl)
  | inl (r, m) ↦ let late = old r m in (invalid_grant, ground arith)
]

exchanged_is_noted :
    (cfg : ProviderConfig) (s : Storage) (hash : Text) (r : OauthAuthRequest) (now : Time)
    → (auth_request_by_code cfg s hash now).1 ≡ issued r
    → (auth_request_by_code cfg s hash now).0.codes ≡ put s.codes hash now
unfolding auth_request_by_code
exchanged_is_noted cfg s hash r now h = elim (Bool-cases (is_some (get s.codes hash))) [
  | inl b ↦ absurd (ground arith)
  | inr b ↦ rw (auth_request_by_code, b) refl
]

forgets_old :
    (cfg : ProviderConfig) (s : Storage) (hash : Text) (now cleaned : Time)
    → get s.codes hash ≡ some now
    → is_some (get (forget_codes cfg s cleaned).codes hash) ≡ false
    → is_older now cfg.auth_request_ttl cleaned ≡ true
unfolding forget_codes
forgets_old cfg s hash now cleaned e h =
    ground (
      arith,
      get-delete_if (λ _ at_time. is_older at_time cfg.auth_request_ttl cleaned) s.codes hash,
    )

-- Where a code was exchanged for its request, a second attempt is denied, whether or not the codes
-- of long ago were forgotten in between and whatever the store holds by then, provided that no
-- request with that code was created after the first exchange.
pub code_once :
    (cfg : ProviderConfig) (s : Storage) (st' : Store) (hash : Text) (r : OauthAuthRequest)
    (now cleaned later : Time)
    → (auth_request_by_code cfg s hash now).1 ≡ issued r
    → ((r' : OauthAuthRequest) → oauth_auth_request_by_code st' hash ≡ ok r' → r'.created_at ≤ now)
    → cleaned ≤ later
    → let s' = (auth_request_by_code cfg s hash now).0 in
      let s'' = forget_codes cfg (record s' { st = st' }) cleaned in
      (e : ProviderError) × ((auth_request_by_code cfg s'' hash later).1 ≡ denied e)
unfolding auth_request_by_code forget_codes
code_once cfg s st' hash r now cleaned later e old order =
    let s' = record (auth_request_by_code cfg s hash now).0 { st = st' } in
    let s'' = forget_codes cfg s' cleaned in
    let noted : get s'.codes hash ≡ some now =
      rw (exchanged_is_noted cfg s hash r now e)
        (ground (arith, get-put s.codes hash now hash, beq_refl hash)) in
    elim (Bool-cases (is_some (get s''.codes hash))) [
      | inl b ↦ (invalid_grant, rw (auth_request_by_code, b) refl)
      | inr b ↦
          let forgotten = forgets_old cfg s' hash now cleaned noted b in
          let late = old_is_denied cfg st' hash later (λ r' m. ground (arith, old r' m)) in
          (late.0, rw (auth_request_by_code, b) late.1)
    ]
