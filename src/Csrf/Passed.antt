-- ===== src/Csrf/Passed.antt =====
-- What a request that passes the guard has shown.
use go_auth_x.Base.{
  Bool, Bool-cases, List, Option, [], any, arith, contains, false, if◌then◌else◌, inl, inr,
  list_beq, list_beq_iff, list_eq, nat_eq, refl, true, ◌!=◌, ◌&&◌, ◌==◌, ◌||◌, ◌≡◌, ◌≢◌, ◌⊎◌,
}
use go_auth_x.Csrf.{
  CsrfConfig, WebRequest, bearer_token, cross_site, csrf_exempt, csrf_http, csrf_valid, is_covered,
  is_social_callback, origin_allowed, origin_from, reads_only, trusted_origins,
}
use go_auth_x.Memory.Oauth.Clients.{differs}
use go_auth_x.Text.{Text, equal_fold}

-- The origin is missing, or no origin is trusted, or it is a trusted one but for case.
abbrev pub OriginFits : (Text → Option (Text × Text)) → CsrfConfig → WebRequest → Type 0
OriginFits parse cfg r =
    (origin_from parse r ≡ [])
    ⊎ ((trusted_origins parse cfg ≡ [])
        ⊎ (any (λ o. o != [] && equal_fold o (origin_from parse r)) (trusted_origins parse cfg)
            ≡ true))

fits :
    (origin : Text) (allowed : List Text) (b : Bool)
    → (origin == [] || (allowed == [] || b)) ≡ true
    → (origin ≡ []) ⊎ ((allowed ≡ []) ⊎ (b ≡ true))
fits origin allowed b h = elim (Bool-cases (origin == [])) [
  | inl e ↦ inl (ground (arith, list_beq_iff origin []))
  | inr e ↦ elim (Bool-cases (allowed == [])) [
    | inl e' ↦ inr (inl (ground (arith, list_beq_iff allowed [])))
    | inr e' ↦ inr (inr (ground arith))
  ]
]

origin_allowed_lem :
    (parse : Text → Option (Text × Text)) (cfg : CsrfConfig) (r : WebRequest)
    → origin_allowed parse cfg r ≡ true
    → (r.fetch_site ≢ cross_site) × OriginFits parse cfg r
unfolding origin_allowed
origin_allowed_lem parse cfg r h = elim (Bool-cases (r.fetch_site == cross_site)) [
  | inl b ↦ absurd (ground arith)
  | inr b ↦ (differs r.fetch_site cross_site b, fits _ _ _ (rw (b, origin_allowed) at h))
]

covered_by :
    (parse : Text → Option (Text × Text)) (cfg : CsrfConfig) (r : WebRequest)
    → cfg.enforcing ≡ true
    → reads_only r.method ≡ false
    → is_covered r.path ≡ true
    → is_social_callback r.path ≡ false
    → bearer_token r.authorization ≡ []
    → csrf_http parse cfg r
      ≡ (if contains csrf_exempt r.path then origin_allowed parse cfg r else csrf_valid parse cfg r)
unfolding csrf_http list_beq
covered_by parse cfg r on changes covered social bearer =
    rw (csrf_http, on, changes, covered, social, bearer) refl

csrf_valid_lem :
    (parse : Text → Option (Text × Text)) (cfg : CsrfConfig) (r : WebRequest)
    → csrf_valid parse cfg r ≡ true
    → (origin_allowed parse cfg r ≡ true) × (r.csrf_cookie ≢ []) × (r.csrf_cookie ≡ r.csrf_header)
unfolding csrf_valid
csrf_valid_lem parse cfg r h = elim (Bool-cases (r.csrf_cookie == [])) [
  | inl b ↦ absurd (ground arith)
  | inr b ↦ elim (Bool-cases (r.csrf_header == [])) [
    | inl b' ↦ absurd (ground arith)
    | inr b' ↦ (
      ground arith,
      differs r.csrf_cookie [] b,
      ground (arith, list_beq_iff r.csrf_cookie r.csrf_header),
    )
  ]
]

-- Where the guard is on, a request that changes state under /api or /auth and passes it, and is
-- neither a social callback nor one with a bearer token, is not marked as cross-site by the browser;
-- its origin is missing, or there is no list of trusted origins, or it is on that list but for case;
-- and its path is one of the exempt entry points, or it has a CSRF cookie that is not empty and the
-- header repeats it.
pub csrf_http_passed :
    (parse : Text → Option (Text × Text)) (cfg : CsrfConfig) (r : WebRequest)
    → csrf_http parse cfg r ≡ true
    → cfg.enforcing ≡ true
    → reads_only r.method ≡ false
    → is_covered r.path ≡ true
    → is_social_callback r.path ≡ false
    → bearer_token r.authorization ≡ []
    → (r.fetch_site ≢ cross_site)
      × OriginFits parse cfg r
      × ((contains csrf_exempt r.path ≡ true)
          ⊎ ((r.csrf_cookie ≢ []) × (r.csrf_cookie ≡ r.csrf_header)))
csrf_http_passed parse cfg r h on changes covered social bearer =
    let run = covered_by parse cfg r on changes covered social bearer in
    elim (Bool-cases (contains csrf_exempt r.path)) [
      | inl b ↦
          let admitted : origin_allowed parse cfg r ≡ true = rw (run, b) at h in
          let (site, origin) = origin_allowed_lem parse cfg r admitted in (site, origin, inl b)
      | inr b ↦
          let (admitted, filled, same) = csrf_valid_lem parse cfg r (rw (run, b) at h) in
          let (site, origin) = origin_allowed_lem parse cfg r admitted in
          (site, origin, inr (filled, same))
    ]
