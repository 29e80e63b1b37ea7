-- ===== src/Admin/Actor.antt =====
-- admin_users.go: how adminImpersonate names its caller.
use go_auth_x.Admin.{AdminConfig, Caller, validate_api_key}
use go_auth_x.Admin.Guarded.{validated}
use go_auth_x.Admin.Refused.{Stamped, unstamped}
use go_auth_x.Admin.Users.{admin_sub}
use go_auth_x.Base.{
  Bool-cases, Option, Option-cases, [], ap, arith, inl, inr, list_beq_iff, list_eq, nat_eq, none,
  refl, some, subst, sym, ℕ, ◌++◌, ◌==◌, ◌∙◌, ◌≡◌, ◌≢◌,
}
use go_auth_x.Csrf.{bearer_token}
use go_auth_x.Map.{find_value, find_value_sound, get, map_option}
use go_auth_x.Memory.ApiKeys.{api_key_by_hash}
use go_auth_x.Memory.Store.{ApiKey, Store}
use go_auth_x.Org.Gate.{go}
use go_auth_x.Session.{SessionClaims}
use go_auth_x.Text.{Bytes, Text, codes}
use go_auth_x.Types.{ApiKeyInfo, Time, ok}

-- The key that a hash is of stands in the store, and `m` names it.
abbrev NamesKey : Store → Bytes → Text → Type 0
NamesKey s hash m =
    (k : ℕ) × (key : ApiKey) × (get s.apikeys k ≡ some key)
    × (key.hash ≡ hash)
    × (m ≡ codes "apikey:" ++ key.info.id)

abbrev NamesActor : Store → Bytes → Option SessionClaims → Text → Type 0
NamesActor s hash (some sc) m = m ≡ sc.subject
NamesActor s hash none m = NamesKey s hash m

-- `m` names who sends the request: the subject of his session, or else the key that he presents.
abbrev pub NamesCaller : AdminConfig → Caller → Store → Text → Type 0
NamesCaller config caller s m =
    NamesActor s (config.hash_token (bearer_token caller.authorization)) caller.session m

-- A key that was touched since is still the key of before, but for the time of its last use.
same_key :
    (s t : Store) (k : ℕ) (key : ApiKey)
    → Stamped s t
    → get t.apikeys k ≡ some key
    → (old : ApiKey) × (get s.apikeys k ≡ some old)
      × (old.hash ≡ key.hash)
      × (old.info.id ≡ key.info.id)
same_key s t k key (_, rows) h = elim (Option-cases (get s.apikeys k)) [
  | inl e ↦ let row = rows k in absurd (ground arith)
  | inr (old, e) ↦
      let row : map_option unstamped (some key) ≡ map_option unstamped (some old) =
        ap (map_option unstamped) (sym h) ∙ rows k ∙ ap (map_option unstamped) e in
      let same : unstamped key ≡ unstamped old = ground arith in
      (old, e, ap (λ x. x.hash) (sym same), ap (λ x. x.info.id) (sym same))
]

found_key :
    (t : Store) (hash : Bytes) (info : ApiKeyInfo)
    → api_key_by_hash t hash ≡ ok info
    → (k : ℕ) × (key : ApiKey) × (get t.apikeys k ≡ some key)
      × (key.hash ≡ hash)
      × (key.info ≡ info)
unfolding api_key_by_hash
found_key t hash info h =
    elim (Option-cases (find_value (λ (x : ApiKey). x.hash == hash) t.apikeys)) [
      | inl e ↦ absurd (ground arith)
      | inr (key, e) ↦
          let (k, at, matched) =
            find_value_sound (λ (x : ApiKey). x.hash == hash) t.apikeys key e in
          (k, key, at, (list_beq_iff key.hash hash).0 matched, ground arith)
    ]

module _ (config : AdminConfig) (caller : Caller) (now : Time) (s : Store) where
  key_named :
      (t : Store) (info : ApiKeyInfo)
      → Stamped s t
      → api_key_by_hash t (config.hash_token (bearer_token caller.authorization)) ≡ ok info
      → NamesKey s
          (config.hash_token (bearer_token caller.authorization))
          (codes "apikey:" ++ info.id)
  key_named t info stamped stored =
      let (k, key, at, hashed, same) = found_key t _ info stored in
      let (old, there, same_hash, same_id) = same_key s t k key stamped at in
      (
        k,
        old,
        there,
        same_hash ∙ hashed,
        ap (λ x. codes "apikey:" ++ x) (ap (λ i. i.id) (sym same) ∙ sym same_id),
      )

  key_marked :
      (t : Store) (marker : Text)
      → Stamped s t
      → (p : Store × Option ApiKeyInfo)
      → p ≡ validate_api_key config.hash_token t (bearer_token caller.authorization) now
      → elim p.1 [ none ↦ [] | some info ↦ codes "apikey:" ++ info.id ] ≡ marker
      → marker ≢ []
      → NamesKey s (config.hash_token (bearer_token caller.authorization)) marker
  key_marked t marker stamped (t', none) e h named = absurd (named (sym h))
  key_marked t marker stamped (t', some info) e h named =
      let (_, stored, _) =
        validated config caller now t (bearer_token caller.authorization) info
          (ap (λ p. p.1) (sym e)) in
      subst (NamesKey s (config.hash_token (bearer_token caller.authorization))) h
        (key_named t info stamped stored)

  pub admin_sub_names :
      (t : Store) (marker : Text)
      → Stamped s t
      → (admin_sub config caller now t).1 ≡ go marker
      → marker ≢ []
      → NamesCaller config caller s marker
  unfolding admin_sub
  admin_sub_names t marker stamped h named =
      let hash = config.hash_token (bearer_token caller.authorization) in
      elim (Option-cases caller.session) [
        | inr (sc, e) ↦
            let same : marker ≡ sc.subject = ground arith in
            subst (λ o. NamesActor s hash o marker) (sym e) same
        | inl e ↦
            subst (λ o. NamesActor s hash o marker) (sym e)
              (elim (Bool-cases (bearer_token caller.authorization == [])) [
                | inl b ↦
                    let empty_marker : marker ≡ [] = ground arith in absurd (named empty_marker)
                | inr b ↦
                    let answered : elim (validate_api_key config.hash_token t
                          (bearer_token caller.authorization) now).1 [
                            | none ↦ []
                            | some info ↦ codes "apikey:" ++ info.id
                          ]
                        ≡ marker =
                      ground arith in
                    key_marked t marker stamped _ refl answered named
              ])
      ]
