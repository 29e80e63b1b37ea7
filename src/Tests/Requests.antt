-- ===== src/Tests/Requests.antt =====
-- The theorems on the CSRF guard, at a request of the account page, and on the keys of a session
-- cookie.
use go_auth_x.Base.{
  Bool, Option, [], any, arith, contains, false, if◌then◌else◌, list_beq, list_eq, nat_eq, none,
  refl, some, true, ◌&&◌, ◌++◌, ◌==◌, ◌↔◌, ◌∷◌, ◌≡◌, ◌≢◌, ◌⊎◌,
}
use go_auth_x.Csrf.{
  CsrfConfig, WebRequest, base_url, bearer_token, cross_site, csrf_exempt, csrf_http, csrf_valid,
  is_covered, is_social_callback, origin_allowed, trusted_origins,
}
use go_auth_x.Csrf.Passed.{OriginFits, csrf_http_passed}
use go_auth_x.Session.{SessionClaims, aud_session, parse_session_multi, verify_secrets}
use go_auth_x.Session.Keys.{ReadToken, session_by_strong_key, vouches}
use go_auth_x.Text.{Bytes, Text, codes, cut_prefix, equal_fold, has_prefix, has_suffix, to_lower}

-- Addresses are not parsed in this run.
abbrev no_parse : Text → Option (Text × Text)
no_parse _ = none

abbrev site : CsrfConfig
site = record { enforcing = true; app_url = codes "https://a.b"; redirect_url = []; trusted = [] }

abbrev post : WebRequest
post = record {
  method = codes "POST";
  path = codes "/auth/me";
  authorization = [];
  csrf_cookie = codes "t";
  csrf_header = codes "t";
  fetch_site = codes "same-origin";
  origin = codes "https://A.b";
  referer = [];
}

csrf_http_run : csrf_http no_parse site (record post { origin = codes "https://c.b" }) ≡ false
unfolding csrf_http is_covered is_social_callback bearer_token csrf_valid origin_allowed
    trusted_origins base_url has_prefix has_suffix cut_prefix equal_fold to_lower any contains
    list_beq
csrf_http_run = refl

csrf_http_passed_example :
    (post.fetch_site ≢ cross_site)
    × OriginFits no_parse site post
    × ((contains csrf_exempt post.path ≡ true)
        ⊎ ((post.csrf_cookie ≢ []) × (post.csrf_cookie ≡ post.csrf_header)))
unfolding csrf_http is_covered is_social_callback bearer_token csrf_valid origin_allowed
    trusted_origins base_url has_prefix has_suffix cut_prefix equal_fold to_lower any contains
    list_beq
csrf_http_passed_example = csrf_http_passed no_parse site post refl refl refl refl refl refl

-- A key of 32 bytes, and a library that accepts one token under it.
abbrev old_key : Bytes
old_key = let four : Bytes → Bytes = λ b. b ++ b ++ b ++ b in four (four (1 ∷ 2 ∷ []))

abbrev claims : SessionClaims
claims = record {
  subject = codes "local:a1";
  email = [];
  name = [];
  groups = [];
  role = [];
  id_token = [];
  sid = [];
  impersonated_by = [];
  org = [];
  org_role = [];
  audience = codes "authx:session";
  issued_at = some 1;
  expires_at = some 9;
}

abbrev one_token : ReadToken
one_token k token audience now = if k == old_key && token == codes "x" then some claims else none

claims_of :
    (b : Bool) (c' : SessionClaims)
    → (if b && true then some claims else none) ≡ some c'
    → c' ≡ claims
claims_of true c' h = ground arith
claims_of false c' h = absurd (ground arith)

one_token-claims :
    (k : Bytes) (c' : SessionClaims) → one_token k (codes "x") aud_session 5 ≡ some c' → c' ≡ claims
unfolding list_beq
one_token-claims k c' h = claims_of (k == old_key) c' h

session_by_strong_key_example :
    (parse_session_multi one_token (verify_secrets [] (old_key ∷ [])) (codes "x") 5 ≡ some claims)
    ↔ (any (vouches one_token (codes "x") 5) ([] ∷ old_key ∷ []) ≡ true)
session_by_strong_key_example =
    session_by_strong_key one_token [] (old_key ∷ []) (codes "x") 5 claims (λ e. ground arith)
      (λ e. ground arith) one_token-claims
