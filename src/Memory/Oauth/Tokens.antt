-- ===== src/Memory/Oauth/Tokens.antt =====
-- Refresh tokens are used once.
use go_auth_x.Base.{
  Bool, Bool-cases, List, Option, Option-cases, [], ap, arith, beq_refl, false, inl, inr, length,
  list_eq, nat_eq, none, refl, some, suc, true, ℕ, ◌<◌, ◌∷◌, ◌≡◌, ◌≤◌, ◌⊎◌,
}
use go_auth_x.Map.{get, get-put, is_some}
use go_auth_x.Memory.Oauth.{use_oauth_refresh_token}
use go_auth_x.Memory.Store.{Store}
use go_auth_x.OauthTypes.{OauthRefreshToken}
use go_auth_x.Text.{Text}
use go_auth_x.Types.{Error, Time, err, oauth_not_found, oauth_token_used, ok}

-- Attempts to use one refresh token, and how many of them succeeded.
pub uses : Store → Text → List Time → ℕ
uses s hash [] = 0
uses s hash (at_time ∷ rest) =
    let (s', r) = use_oauth_refresh_token s hash at_time in
    let later = uses s' hash rest in elim r [ ok _ ↦ suc later | err e ↦ later ]

abbrev is_spent_token : Option OauthRefreshToken → Bool
is_spent_token none = true
is_spent_token (some t) = is_some t.used_at

use_cases :
    (s : Store) (hash : Text) (at_time : Time)
    → let r = use_oauth_refresh_token s hash at_time in
      ((r.1 ≡ ok tt)
        × (is_spent_token (get r.0.oauth_refresh hash) ≡ true)
        × (is_spent_token (get s.oauth_refresh hash) ≡ false))
      ⊎ ((e : Error) × (r.1 ≡ err e) × (r.0 ≡ s))
unfolding use_oauth_refresh_token
use_cases s hash at_time = elim (Option-cases (get s.oauth_refresh hash)) [
  | inl e ↦ rw (e, use_oauth_refresh_token) (inr (oauth_not_found, refl, refl))
  | inr (t, e) ↦ elim (Bool-cases (is_some t.used_at)) [
    | inl b ↦ rw (e, use_oauth_refresh_token) (rw b (inr (oauth_token_used, refl, refl)))
    | inr b ↦
        rw (e, use_oauth_refresh_token)
          (rw b (
            inl (
              refl,
              ground (
                arith,
                get-put s.oauth_refresh hash (record t { used_at = some at_time }) hash,
                beq_refl hash,
              ),
              refl,
            )))
  ]
]

uses_spent :
    (s : Store) (hash : Text) (times : List Time)
    → is_spent_token (get s.oauth_refresh hash) ≡ true
    → uses s hash times ≡ 0
unfolding uses
uses_spent s hash [] h = refl
uses_spent s hash (at_time ∷ rest) h = elim (use_cases s hash at_time) [
  | inl (won, spent, fresh) ↦ absurd (ground arith)
  | inr (e, lost, same) ↦ rw (lost, same, uses) (uses_spent s hash rest h)
]

-- Of any number of attempts to use a refresh token, at most one succeeds.
pub uses_at_most_once : (s : Store) (hash : Text) (times : List Time) → uses s hash times ≤ 1
unfolding uses
uses_at_most_once s hash [] = omega arith
uses_at_most_once s hash (at_time ∷ rest) = elim (use_cases s hash at_time) [
  | inl (won, spent, fresh) ↦
      rw (won, uses)
        (omega (arith, uses_spent (use_oauth_refresh_token s hash at_time).0 hash rest spent))
  | inr (e, lost, same) ↦ rw (lost, same, uses) (uses_at_most_once s hash rest)
]

live_wins :
    (s : Store) (hash : Text) (t : OauthRefreshToken) (at_time : Time)
    → get s.oauth_refresh hash ≡ some t
    → t.used_at ≡ none
    → (use_oauth_refresh_token s hash at_time).1 ≡ ok tt
unfolding use_oauth_refresh_token
live_wins s hash t at_time e live = ground arith

-- Of one or more attempts to use a live refresh token, exactly one succeeds.
pub uses_exactly_once :
    (s : Store) (hash : Text) (t : OauthRefreshToken) (times : List Time)
    → get s.oauth_refresh hash ≡ some t
    → t.used_at ≡ none
    → 0 < length times
    → uses s hash times ≡ 1
unfolding uses
uses_exactly_once s hash t [] e live some_try = absurd (omega arith)
uses_exactly_once s hash t (at_time ∷ rest) e live some_try = elim (use_cases s hash at_time) [
  | inl (won, spent, fresh) ↦
      rw (won, uses)
        (ap suc (uses_spent (use_oauth_refresh_token s hash at_time).0 hash rest spent))
  | inr (x, lost, same) ↦ absurd (ground (arith, live_wins s hash t at_time e live))
]
