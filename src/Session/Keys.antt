-- ===== src/Session/Keys.antt =====
-- The keys that a session cookie may be signed with.
use go_auth_x.Base.{
  Bool, Bool-cases, List, Option, Option-cases, [], any, arith, false, if◌then◌else◌, inl, inr,
  keep, list_beq_iff, list_eq, nat_eq, none, refl, some, true, ◌&&◌, ◌==◌, ◌↔◌, ◌∙◌, ◌∷◌, ◌≡◌, ◌≢◌,
}
use go_auth_x.Map.{is_some}
use go_auth_x.Session.{
  SessionClaims, aud_session, can_sign, parse_jwt, parse_jwt_multi, parse_session_multi,
  verify_secrets,
}
use go_auth_x.Text.{Bytes, Text}
use go_auth_x.Types.{Time}

abbrev pub ReadToken : Type 0
ReadToken = Bytes → Text → Text → Time → Option SessionClaims

-- The key is long enough, and the library accepts the token under it.
abbrev pub vouches : ReadToken → Text → Time → Bytes → Bool
vouches parse token now k = can_sign k && is_some (parse k token aud_session now)

module _ (parse : ReadToken) (token : Text) (now : Time) (c : SessionClaims)
    (same : (k : Bytes) (c' : SessionClaims)
      → parse k token aud_session now ≡ some c'
      → c' ≡ c) where
  parse_jwt_by :
      (k : Bytes)
      → parse_jwt parse k token aud_session now
        ≡ (if vouches parse token now k then some c else none)
  unfolding parse_jwt
  parse_jwt_by k = elim (Bool-cases (can_sign k)) [
    | inr b ↦ rw (parse_jwt, b) refl
    | inl b ↦ elim (Option-cases (parse k token aud_session now)) [
      | inl e ↦ rw (parse_jwt, b, e) refl
      | inr (c', e) ↦ rw (parse_jwt, b, e, same k c' e) refl
    ]
  ]

  multi_by :
      (ks : List Bytes)
      → parse_jwt_multi parse (keep can_sign ks) token aud_session now
        ≡ (if any (vouches parse token now) ks then some c else none)
  unfolding parse_jwt_multi keep any
  multi_by [] = refl
  multi_by (k ∷ ks) = elim (Bool-cases (can_sign k)) [
    | inr b ↦ rw b (multi_by ks)
    | inl b ↦ elim (Bool-cases (vouches parse token now k)) [
      | inl v ↦
          let here : parse_jwt parse k token aud_session now ≡ some c =
            parse_jwt_by k ∙ rw v refl in
          ground arith
      | inr v ↦
          let here : parse_jwt parse k token aud_session now ≡ none = parse_jwt_by k ∙ rw v refl in
          let later = multi_by ks in ground arith
    ]
  ]

-- Where the keys that accept a token agree on its claims, which name a subject, a session cookie is
-- accepted with these claims exactly if the signing key or one of the previous keys accepts it and
-- has at least 32 bytes: a rotation of the key that keeps the old one signs nobody out, and a short
-- key accepts nothing.
pub session_by_strong_key :
    (parse : ReadToken) (secret : Bytes) (previous : List Bytes) (token : Text) (now : Time)
    (c : SessionClaims)
    → token ≢ []
    → c.subject ≢ []
    → ((k : Bytes) (c' : SessionClaims) → parse k token aud_session now ≡ some c' → c' ≡ c)
    → (parse_session_multi parse (verify_secrets secret previous) token now ≡ some c)
      ↔ (any (vouches parse token now) (secret ∷ previous) ≡ true)
unfolding parse_session_multi verify_secrets
session_by_strong_key parse secret previous token now c filled named same =
    let keys = secret ∷ previous in
    let run = multi_by parse token now c same keys in
    let named' : (c.subject == []) ≡ false = ground (arith, list_beq_iff c.subject []) in
    let filled' : (token == []) ≡ false = ground (arith, list_beq_iff token []) in
    let answered = parse_jwt_multi parse (verify_secrets secret previous) token aud_session now in
    elim (Bool-cases (any (vouches parse token now) keys)) [
      | inl b ↦
          let found : answered ≡ some c = run ∙ rw b refl in
          ((λ h. b), (λ h. rw (parse_session_multi, filled', found) (rw named' refl)))
      | inr b ↦
          let found : answered ≡ none = run ∙ rw b refl in
          let nothing : parse_session_multi parse (verify_secrets secret previous) token now
              ≡ none =
            rw (parse_session_multi, filled', found) refl in
          ((λ h. absurd (ground arith)), (λ h. absurd (ground arith)))
    ]
