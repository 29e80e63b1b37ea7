-- ===== src/Tests/Limits.antt =====
-- The theorems on the rate limiter at three attempts against a limit of two.
use go_auth_x.Base.{
  [], arith, contains, false, keep, list_beq, list_eq, ltb, nat_eq, refl, true, ◌∷◌, ◌≡◌, ◌≤◌,
}
use go_auth_x.Map.{empty, get, put}
use go_auth_x.RateLimit.{RateLimiter, allow, is_recent, new_rate_limiter, recent}
use go_auth_x.RateLimit.Buckets.{is_within, tally}
use go_auth_x.RateLimit.Window.{History, admissions_bounded, allow_decides, attempts, starts}
use go_auth_x.Text.{Text, codes}

abbrev client_ip : Text
client_ip = codes "10.0.0.7"

abbrev quiet : RateLimiter
quiet = new_rate_limiter 2 300

abbrev busy : RateLimiter
busy = (allow (allow (allow quiet client_ip 10).0 client_ip 20).0 client_ip 30).0

busy-History : History 2 300 client_ip busy 30 (20 ∷ 10 ∷ [])
unfolding new_rate_limiter allow recent keep put get list_beq empty contains
busy-History =
    attempts client_ip 30
      (attempts client_ip 20 (attempts client_ip 10 starts (omega arith)) (omega arith))
      (omega arith)

admissions_bounded_example : tally (is_within 300 5) (20 ∷ 10 ∷ []) ≤ 2
admissions_bounded_example =
    admissions_bounded 2 300 client_ip busy 30 (20 ∷ 10 ∷ []) 5 busy-History

allow_decides_example :
    (allow busy client_ip 315).1 ≡ ltb (tally (is_recent 300 315) (20 ∷ 10 ∷ [])) 2
allow_decides_example =
    allow_decides 2 300 client_ip busy 30 315 (20 ∷ 10 ∷ []) busy-History (omega arith)

third_attempt_refused : (allow busy client_ip 309).1 ≡ false
unfolding new_rate_limiter allow recent keep put get list_beq empty contains
third_attempt_refused = refl

admitted_again : (allow busy client_ip 310).1 ≡ true
unfolding new_rate_limiter allow recent keep put get list_beq empty contains
admitted_again = refl
