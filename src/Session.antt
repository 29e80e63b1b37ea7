-- ===== src/Session.antt =====
-- session.go: the claims of the session cookie, how they are signed, and how a cookie is read. Where
-- a cookie is set its claims stand for its signed text; where it is read the JWT library is an
-- argument. The encoding keeps whole seconds of a time, which the claims here do not show.
pub mod Keys
use go_auth_x.Base.{
  Bool, List, Option, [], if◌then◌else◌, keep, leb, length, list_eq, nat_eq, none, some, ℕ, ◌*◌,
  ◌+◌, ◌==◌, ◌∷◌,
}
use go_auth_x.Text.{Bytes, Text, codes}
use go_auth_x.Types.{Time}

-- SessionClaims, with the registered claims that the code reads
pub record SessionClaims : Type 0 where
  pub subject : Text
  pub email : Text
  pub name : Text
  pub groups : List Text
  pub role : Text
  pub id_token : Text
  pub sid : Text
  pub impersonated_by : Text
  pub org : Text
  pub org_role : Text
  pub audience : Text
  pub issued_at : Option Time
  pub expires_at : Option Time

-- minSessionSecret
abbrev pub min_session_secret : ℕ
min_session_secret = 32

-- time.Second, in nanoseconds
abbrev pub second : ℕ
second = 1000000000

-- sessionTTL and rememberTTL
abbrev pub session_ttl : ℕ
session_ttl = 43200 * second

abbrev pub remember_ttl : ℕ
remember_ttl = 2592000 * second

-- Per-purpose token audiences
abbrev pub aud_session : Text
aud_session = codes "authx:session"

abbrev pub aud_pending : Text
aud_pending = codes "authx:2fa-pending"

abbrev pub aud_step_up : Text
aud_step_up = codes "authx:stepup"

-- The guard of signJWT
abbrev pub can_sign : Bytes → Bool
can_sign secret = leb min_session_secret (length secret)

-- verifySecrets; `previous` are the secrets before the last rotation
unfoldable pub verify_secrets : Bytes → List Bytes → List Bytes
verify_secrets secret previous = keep can_sign (secret ∷ previous)

-- mintSessionWith; nothing where the secret is too short to sign
unfoldable pub mint_session_with : Bytes → SessionClaims → Text → Time → ℕ → Option SessionClaims
mint_session_with secret base sub now ttl =
    if can_sign secret
    then some (record base {
      subject = sub;
      audience = aud_session;
      issued_at = some now;
      expires_at = some (now + ttl);
    })
    else none

-- parseJWT; `parse` is jwt.ParseWithClaims with the options that the code passes: a key, a token, an
-- audience and the time
unfoldable pub parse_jwt :
    (Bytes → Text → Text → Time → Option SessionClaims)
    → Bytes
    → Text
    → Text
    → Time
    → Option SessionClaims
parse_jwt parse secret token audience now =
    if can_sign secret then parse secret token audience now else none

-- parseJWTMulti
unfoldable pub parse_jwt_multi :
    (Bytes → Text → Text → Time → Option SessionClaims)
    → List Bytes
    → Text
    → Text
    → Time
    → Option SessionClaims
unfolding parse_jwt
parse_jwt_multi parse [] token audience now = none
parse_jwt_multi parse (k ∷ ks) token audience now =
    let rest = parse_jwt_multi parse ks token audience now in
    elim (parse_jwt parse k token audience now) [ some c ↦ some c | none ↦ rest ]

-- parseSessionMulti
unfoldable pub parse_session_multi :
    (Bytes → Text → Text → Time → Option SessionClaims)
    → List Bytes
    → Text
    → Time
    → Option SessionClaims
unfolding parse_jwt_multi
parse_session_multi parse secrets token now =
    if token == [] then none else (elim (parse_jwt_multi parse secrets token aud_session now) [
      | none ↦ none
      | some c ↦ if c.subject == [] then none else some c
    ])
