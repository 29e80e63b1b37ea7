-- ===== src/RateLimit/Buckets.antt =====
-- What the operations of the rate limiter do to a bucket, counted.
use go_auth_x.Base.{
  Bool, Bool-cases, List, Option-cases, [], arith, beq_refl, false, if◌then◌else◌, inl, inr, keep,
  leb, length, list_beq_iff, list_eq, ltb, nat_eq, refl, suc, true, ℕ, ◌&&◌, ◌++◌, ◌+◌, ◌==◌, ◌∷◌,
  ◌≡◌, ◌≤◌,
}
use go_auth_x.Map.{change_all, get, get-change_all, get-delete_if, get-put, put}
use go_auth_x.RateLimit.{RateLimiter, allow, bucket, gc, is_recent, recent}
use go_auth_x.Text.{Text}
use go_auth_x.Types.{Time, before}

-- How many times pass a test.
unfoldable pub tally : (Time → Bool) → List Time → ℕ
tally p [] = 0
tally p (t ∷ times) = let rest = tally p times in if p t then suc rest else rest

-- A time in the window that starts at `a`.
abbrev pub is_within : ℕ → Time → Time → Bool
is_within window a t = leb a t && before t (a + window)

abbrev pub record_if : Bool → Time → List Time → List Time
record_if admitted t times = if admitted then t ∷ times else times

pub tally-keep :
    (p q : Time → Bool) (times : List Time)
    → ((t : Time) → p t ≡ true → q t ≡ true)
    → tally p (keep q times) ≡ tally p times
unfolding tally keep
tally-keep p q [] h = refl
tally-keep p q (t ∷ times) h = ground (arith, tally-keep p q times h, h t)

pub length-keep : (p : Time → Bool) (times : List Time) → length (keep p times) ≡ tally p times
unfolding tally keep
length-keep p [] = refl
length-keep p (t ∷ times) = ground (arith, length-keep p times)

pub tally-append :
    (p : Time → Bool) (times : List Time) (t : Time)
    → tally p (times ++ t ∷ []) ≡ tally p (t ∷ times)
unfolding tally
tally-append p [] t = refl
tally-append p (u ∷ times) t = ground (arith, tally-append p times t)

pub tally-monotone :
    (p q : Time → Bool) (times : List Time)
    → ((t : Time) → p t ≡ true → q t ≡ true)
    → tally p times ≤ tally q times
unfolding tally
tally-monotone p q [] h = omega arith
tally-monotone p q (t ∷ times) h = ground (arith, tally-monotone p q times h, h t)

-- What is recent later was recent before.
pub still_recent :
    (window : ℕ) (now later : Time)
    → now ≤ later
    → (t : Time) → is_recent window later t ≡ true
    → is_recent window now t ≡ true
still_recent window now later h t p = ground arith

tally-recent :
    (window : ℕ) (now later : Time) (times : List Time)
    → now ≤ later
    → tally (is_recent window later) (recent window now times)
      ≡ tally (is_recent window later) times
unfolding recent
tally-recent window now later times h =
    tally-keep (is_recent window later) (is_recent window now) times
      (still_recent window now later h)

bucket-put :
    (r : RateLimiter) (k key : Text) (times : List Time)
    → bucket (record r { hits = put r.hits k times }) key
      ≡ (if k == key then times else bucket r key)
bucket-put r k key times = ground (arith, get-put r.hits k times key)

bucket-gc :
    (r : RateLimiter) (now : Time) (key : Text)
    → bucket (gc r now) key ≡ recent r.window now (bucket r key)
unfolding gc recent keep
bucket-gc r now key = elim (Option-cases (get r.hits key)) [
  | inl e ↦ ground (
    arith,
    get-delete_if (λ _ times. times == []) (change_all (λ _. recent r.window now) r.hits) key,
    get-change_all (λ _. recent r.window now) r.hits key,
  )
  | inr (times, e) ↦ ground (
    arith,
    get-delete_if (λ _ ts. ts == []) (change_all (λ _. recent r.window now) r.hits) key,
    get-change_all (λ _. recent r.window now) r.hits key,
    list_beq_iff (recent r.window now times) [],
  )
]

-- An attempt is admitted if fewer than the limit of the recorded times are recent.
pub allow_lem :
    (r : RateLimiter) (k : Text) (now : Time)
    → (allow r k now).1 ≡ ltb (tally (is_recent r.window now) (bucket r k)) r.limit
unfolding allow recent
allow_lem r k now = ground (arith, length-keep (is_recent r.window now) (bucket r k))

-- What Allow leaves in a bucket.
abbrev left_over : RateLimiter → Text → Time → List Time
left_over r k now =
    let kept = recent r.window now (bucket r k) in
    if (allow r k now).1 then kept ++ now ∷ [] else kept

bucket-allow :
    (r : RateLimiter) (k key : Text) (now : Time)
    → bucket (allow r k now).0 key ≡ (if k == key then left_over r k now else bucket r key)
unfolding allow
bucket-allow r k key now =
    let kept = recent r.window now (bucket r k) in
    elim (Bool-cases (leb r.limit (length kept))) [
      | inl full ↦ rw full (bucket-put r k key kept)
      | inr room ↦ rw room (bucket-put r k key (kept ++ now ∷ []))
    ]

tally-left_over :
    (r : RateLimiter) (k : Text) (now later : Time)
    → now ≤ later
    → tally (is_recent r.window later) (left_over r k now)
      ≡ tally (is_recent r.window later) (record_if (allow r k now).1 now (bucket r k))
unfolding tally
tally-left_over r k now later h =
    let p = is_recent r.window later in
    let kept = recent r.window now (bucket r k) in
    elim (Bool-cases (allow r k now).1) [
      | inl admitted ↦
          rw (admitted, tally-append p kept now, tally-recent r.window now later (bucket r k) h)
            refl
      | inr refused ↦ rw refused (tally-recent r.window now later (bucket r k) h)
    ]

pub tally-allow :
    (r : RateLimiter) (k key : Text) (now later : Time)
    → now ≤ later
    → tally (is_recent r.window later) (bucket (allow r k now).0 key)
      ≡ tally
          (is_recent r.window later)
          (record_if (key == k && (allow r k now).1) now (bucket r key))
tally-allow r k key now later h = elim (Bool-cases (key == k)) [
  | inl e ↦
      let same = (list_beq_iff key k).0 e in
      rw (bucket-allow r k key now, same, beq_refl k) (tally-left_over r k now later h)
  | inr e ↦
      let apart : (k == key) ≡ false = ground (arith, list_beq_iff k key, list_beq_iff key k) in
      rw (bucket-allow r k key now, apart, e) refl
]

pub tally-gc :
    (r : RateLimiter) (key : Text) (now later : Time)
    → now ≤ later
    → tally (is_recent r.window later) (bucket (gc r now) key)
      ≡ tally (is_recent r.window later) (bucket r key)
tally-gc r key now later h =
    rw (bucket-gc r now key) (tally-recent r.window now later (bucket r key) h)

pub allow-limits :
    (r : RateLimiter) (k : Text) (now : Time)
    → ((allow r k now).0.limit ≡ r.limit) × ((allow r k now).0.window ≡ r.window)
unfolding allow
allow-limits r k now =
    let kept = recent r.window now (bucket r k) in
    elim (Bool-cases (leb r.limit (length kept))) [
      | inl full ↦ rw full (refl, refl)
      | inr room ↦ rw room (refl, refl)
    ]
