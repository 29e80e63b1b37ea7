-- ===== src/RateLimit.antt =====
-- ratelimit.go: the built-in sliding-window rate limiter. The clock is an argument; `After` of a
-- time and `now - window` is written with the window on the other side, where nothing is negative.
pub mod Buckets
pub mod Window
use go_auth_x.Base.{
  Bool, List, [], false, if◌then◌else◌, keep, leb, length, list_eq, nat_eq, none, some, true, ℕ,
  ◌++◌, ◌+◌, ◌==◌, ◌∷◌,
}
use go_auth_x.Map.{Map, change_all, delete_if, empty, get, put}
use go_auth_x.Text.{Text}
use go_auth_x.Types.{Time, after}

-- rateLimiter
pub record RateLimiter : Type 0 where
  pub hits : Map Text (List Time)
  pub window : ℕ
  pub limit : ℕ

-- newRateLimiter
unfoldable pub new_rate_limiter : ℕ → ℕ → RateLimiter
unfolding empty
new_rate_limiter limit window = record { hits = empty; window = window; limit = limit }

-- t.After(now.Add(-window))
abbrev pub is_recent : ℕ → Time → Time → Bool
is_recent window now t = after (t + window) now

-- r.hits[key], which is nil for a missing key
abbrev pub bucket : RateLimiter → Text → List Time
bucket r key = elim (get r.hits key) [ none ↦ [] | some times ↦ times ]

-- The loop that filters a bucket
unfoldable pub recent : ℕ → Time → List Time → List Time
recent window now times = keep (is_recent window now) times

-- Allow
unfoldable pub allow : RateLimiter → Text → Time → RateLimiter × Bool
unfolding recent
allow r key now =
    let kept = recent r.window now (bucket r key) in
    if leb r.limit (length kept)
    then (record r { hits = put r.hits key kept }, false)
    else (record r { hits = put r.hits key (kept ++ now ∷ []) }, true)

-- gc
unfoldable pub gc : RateLimiter → Time → RateLimiter
unfolding recent
gc r now = record r {
  hits = delete_if (λ _ times. times == []) (change_all (λ _. recent r.window now) r.hits);
}
