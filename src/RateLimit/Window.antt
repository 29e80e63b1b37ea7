-- ===== src/RateLimit/Window.antt =====
-- The sliding window against the plain definition of it: what was admitted, and when.
use go_auth_x.Base.{
  Bool, Bool-cases, List, [], arith, inl, inr, list_beq_iff, list_eq, ltb, nat_eq, refl, sym, true,
  ℕ, ◌&&◌, ◌<◌, ◌==◌, ◌≡◌, ◌≤◌,
}
use go_auth_x.Map.{get-empty}
use go_auth_x.RateLimit.{RateLimiter, allow, bucket, gc, is_recent, new_rate_limiter}
use go_auth_x.RateLimit.Buckets.{
  allow-limits, allow_lem, is_within, record_if, tally, tally-allow, tally-gc, tally-monotone,
}
use go_auth_x.Text.{Text}
use go_auth_x.Types.{Time}

-- The histories of a limiter as one key sees them: the clock, which does not go back, and the times
-- at which the key was admitted, the last one first.
pub data History (limit window : ℕ) (key : Text) : RateLimiter → Time → List Time → Type 0 where
  starts : History limit window key (new_rate_limiter limit window) 0 []
  attempts :
      {r : RateLimiter} {clock : Time} {admitted : List Time} (k : Text) (now : Time)
      → History limit window key r clock admitted
      → clock ≤ now
      → History limit window key
          (allow r k now).0
          now
          (record_if (key == k && (allow r k now).1) now admitted)
  sweeps :
      {r : RateLimiter} {clock : Time} {admitted : List Time} (now : Time)
      → History limit window key r clock admitted
      → clock ≤ now
      → History limit window key (gc r now) now admitted

-- What the limiter knows of a key's history.
record IsTracked (key : Text) (r : RateLimiter) (clock : Time) (admitted : List Time) : Type 0 where
  tracked :
      (later : Time)
      → clock ≤ later
      → tally (is_recent r.window later) admitted ≡ tally (is_recent r.window later) (bucket r key)
  bounded : (a : Time) → tally (is_within r.window a) admitted ≤ r.limit

tally-record_if :
    (p : Time → Bool) (b : Bool) (t : Time) (xs ys : List Time)
    → tally p xs ≡ tally p ys
    → tally p (record_if b t xs) ≡ tally p (record_if b t ys)
unfolding tally
tally-record_if p b t xs ys h = ground arith

-- A window that has room for the attempt, or ended before it, holds no more than the limit.
bounded_next :
    (limit window : ℕ) (now : Time) (b : Bool) (admitted : List Time) (a : Time)
    → (b ≡ true → tally (is_recent window now) admitted < limit)
    → tally (is_within window a) admitted ≤ limit
    → tally (is_within window a) (record_if b now admitted) ≤ limit
unfolding tally
bounded_next limit window now b admitted a room h = elim (Bool-cases (is_within window a now)) [
  | inl inside ↦ ground (
    arith,
    room,
    tally-monotone (is_within window a) (is_recent window now) admitted (λ t p. ground arith),
  )
  | inr outside ↦ ground arith
]

allow-IsTracked :
    (key : Text) (r : RateLimiter) (clock : Time) (admitted : List Time) (k : Text) (now : Time)
    → IsTracked key r clock admitted
    → clock ≤ now
    → IsTracked key (allow r k now).0 now (record_if (key == k && (allow r k now).1) now admitted)
allow-IsTracked key r clock admitted k now h order = record {
  tracked = λ later le.
      rw ((allow-limits r k now).1, tally-allow r k key now later le)
        (tally-record_if (is_recent r.window later) (key == k && (allow r k now).1) now admitted
          (bucket r key) (h.tracked later (omega arith)));
  bounded = λ a.
      rw ((allow-limits r k now).1, (allow-limits r k now).0)
        (bounded_next r.limit r.window now _ admitted a
          (λ e. ground (arith, allow_lem r k now, h.tracked now order, list_beq_iff key k))
          (h.bounded a));
}

gc-IsTracked :
    (key : Text) (r : RateLimiter) (clock : Time) (admitted : List Time) (now : Time)
    → IsTracked key r clock admitted
    → clock ≤ now
    → IsTracked key (gc r now) now admitted
unfolding gc
gc-IsTracked key r clock admitted now h order = record {
  tracked = λ later le. rw (tally-gc r key now later le) (h.tracked later (omega arith));
  bounded = h.bounded;
}

History-IsTracked :
    (limit window : ℕ) (key : Text) {r : RateLimiter} {clock : Time} {admitted : List Time}
    → History limit window key r clock admitted
    → (r.limit ≡ limit) × (r.window ≡ window) × IsTracked key r clock admitted
unfolding new_rate_limiter tally gc
History-IsTracked limit window key History.starts = (
  refl,
  refl,
  record {
    tracked = λ later le. ground (arith, get-empty {K = Text} {V = List Time} key);
    bounded = λ a. omega arith;
  },
)
History-IsTracked limit window key (History.attempts {r} {clock} {admitted} k now h order) =
    let (l, w, t) = History-IsTracked limit window key h in
    (
      rw ((allow-limits r k now).0) l,
      rw ((allow-limits r k now).1) w,
      allow-IsTracked key r clock admitted k now t order,
    )
History-IsTracked limit window key (History.sweeps {r} {clock} {admitted} now h order) =
    let (l, w, t) = History-IsTracked limit window key h in
    (l, w, gc-IsTracked key r clock admitted now t order)

-- After any history of attempts under any keys and of clean-ups, with a clock that does not go back,
-- no window of the configured length holds more admissions of a key than the limit.
pub admissions_bounded :
    (limit window : ℕ) (key : Text) (r : RateLimiter) (clock : Time) (admitted : List Time)
    (a : Time)
    → History limit window key r clock admitted
    → tally (is_within window a) admitted ≤ limit
admissions_bounded limit window key r clock admitted a h =
    let (l, w, t) = History-IsTracked limit window key h in rw (sym l, sym w) (t.bounded a)

-- After any such history, Allow admits an attempt exactly if fewer than the limit of the admissions
-- of its key are more recent than one window.
pub allow_decides :
    (limit window : ℕ) (key : Text) (r : RateLimiter) (clock now : Time) (admitted : List Time)
    → History limit window key r clock admitted
    → clock ≤ now
    → (allow r key now).1 ≡ ltb (tally (is_recent window now) admitted) limit
allow_decides limit window key r clock now admitted h order =
    let (l, w, t) = History-IsTracked limit window key h in
    rw (allow_lem r key now, sym l, sym w, t.tracked now order) refl

-- A clean-up that runs before an attempt, under any key, does not change the decision on it.
pub gc_keeps_decisions :
    (r : RateLimiter) (key : Text) (swept now : Time)
    → swept ≤ now
    → (allow (gc r swept) key now).1 ≡ (allow r key now).1
unfolding gc
gc_keeps_decisions r key swept now h =
    rw (allow_lem (gc r swept) key now, allow_lem r key now, tally-gc r key swept now h) refl
