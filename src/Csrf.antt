-- ===== src/Csrf.antt =====
-- csrf.go, and CSRFHTTP of httpadapter.go: the guard on requests that change state. What url.Parse
-- makes of an address, a scheme and a host, is an argument.
pub mod Passed
use go_auth_x.Base.{
  Bool, List, Option, [], any, contains, false, if◌then◌else◌, list_eq, nat_eq, none, not, some,
  true, ◌!=◌, ◌&&◌, ◌++◌, ◌==◌, ◌||◌, ◌∷◌,
}
use go_auth_x.Text.{Text, codes, cut_prefix, equal_fold, has_prefix, has_suffix, trim_space}

-- What the guard reads of the configuration.
pub record CsrfConfig : Type 0 where
  pub enforcing : Bool
  pub app_url : Text
  pub redirect_url : Text
  pub trusted : List Text

-- What the guard reads of a request; a header or a cookie that is not there is empty.
pub record WebRequest : Type 0 where
  pub method : Text
  pub path : Text
  pub authorization : Text
  pub csrf_cookie : Text
  pub csrf_header : Text
  pub fetch_site : Text
  pub origin : Text
  pub referer : Text

-- isSocialCallback
unfoldable pub is_social_callback : Text → Bool
unfolding has_prefix has_suffix
is_social_callback p = has_prefix p (codes "/auth/social/") && has_suffix p (codes "/callback")

-- csrfExempt
abbrev pub csrf_exempt : List Text
csrf_exempt =
    codes "/auth/callback"
    ∷ codes "/auth/password/signup"
    ∷ codes "/auth/password/login"
    ∷ codes "/auth/password/reset/request"
    ∷ codes "/auth/password/reset/confirm"
    ∷ codes "/auth/email/request"
    ∷ codes "/auth/email-otp/send"
    ∷ codes "/auth/email-otp/verify"
    ∷ codes "/auth/webauthn/login/begin"
    ∷ codes "/auth/webauthn/login/finish"
    ∷ codes "/auth/2fa/verify"
    ∷ codes "/auth/2fa/webauthn/begin"
    ∷ codes "/auth/2fa/webauthn/finish"
    ∷ []

-- bearerToken
unfoldable pub bearer_token : Text → Text
unfolding cut_prefix trim_space
bearer_token h = elim (cut_prefix h (codes "Bearer ")) [ none ↦ [] | some t ↦ trim_space t ]

-- u.Scheme + "://" + u.Host, or nothing where one is missing or the address is none
abbrev pub origin_of : (Text → Option (Text × Text)) → Text → Text
origin_of parse address = elim (parse address) [
  | none ↦ []
  | some (scheme, host) ↦ if scheme != [] && host != [] then scheme ++ codes "://" ++ host else []
]

-- baseURL
unfoldable pub base_url : (Text → Option (Text × Text)) → CsrfConfig → Text
base_url parse cfg = if cfg.app_url != [] then cfg.app_url else origin_of parse cfg.redirect_url

-- trustedOrigins
unfoldable pub trusted_origins : (Text → Option (Text × Text)) → CsrfConfig → List Text
unfolding base_url
trusted_origins parse cfg =
    let b = base_url parse cfg in if b != [] then b ∷ cfg.trusted else cfg.trusted

-- The origin that originAllowed compares: the header, or else that of the referer.
abbrev pub origin_from : (Text → Option (Text × Text)) → WebRequest → Text
origin_from parse r =
    if r.origin == [] && r.referer != [] then origin_of parse r.referer else r.origin

abbrev pub cross_site : Text
cross_site = codes "cross-site"

-- originAllowed
unfoldable pub origin_allowed : (Text → Option (Text × Text)) → CsrfConfig → WebRequest → Bool
unfolding trusted_origins equal_fold
origin_allowed parse cfg r =
    if r.fetch_site == cross_site
    then false
    else (let origin = origin_from parse r in
        let allowed = trusted_origins parse cfg in
        origin == [] || (allowed == [] || any (λ o. o != [] && equal_fold o origin) allowed))

-- csrfValidHTTP
unfoldable pub csrf_valid : (Text → Option (Text × Text)) → CsrfConfig → WebRequest → Bool
unfolding origin_allowed
csrf_valid parse cfg r =
    if r.csrf_cookie == [] || r.csrf_header == []
    then false
    else r.csrf_cookie == r.csrf_header && origin_allowed parse cfg r

abbrev pub reads_only : Text → Bool
reads_only m = m == codes "GET" || (m == codes "HEAD" || m == codes "OPTIONS")

unfoldable pub is_covered : Text → Bool
unfolding has_prefix
is_covered p = has_prefix p (codes "/api/") || has_prefix p (codes "/auth/")

-- Whether CSRFHTTP hands the request on
unfoldable pub csrf_http : (Text → Option (Text × Text)) → CsrfConfig → WebRequest → Bool
unfolding is_social_callback is_covered bearer_token origin_allowed csrf_valid
csrf_http parse cfg r =
    if not cfg.enforcing || (reads_only r.method || not (is_covered r.path))
    then true
    else (if is_social_callback r.path || bearer_token r.authorization != []
        then true
        else (if contains csrf_exempt r.path
            then origin_allowed parse cfg r
            else csrf_valid parse cfg r))
