-- ===== src/Memory/Tokens/SingleUse.antt =====
-- A token is good for one redemption, until it expires.
use go_auth_x.Base.{
  Bool, Bool-cases, List, Option-cases, [], arith, change_first, first, inl, inr, refl, some, true,
  ◌∷◌, ◌≡◌,
}
use go_auth_x.Memory.Store.{Store, Token}
use go_auth_x.Memory.Tokens.{consume, consume_token, is_spent, is_token, peek_token}
use go_auth_x.Text.{Bytes, Text}
use go_auth_x.Types.{Time, TokenClaim, err, ok, token_invalid}

module _ (p : Token → Bool) (now : Time) where
  -- After the first match is consumed, the first match is that token, consumed.
  first-change_first :
      (p_consume : (t : Token) → p (consume now t) ≡ p t) (ts : List Token) (t : Token)
      → first p ts ≡ some t
      → first p (change_first p (consume now) ts) ≡ some (consume now t)
  unfolding first change_first
  first-change_first p_consume [] t h = absurd (ground arith)
  first-change_first p_consume (x ∷ xs) t h = elim (Bool-cases (p x)) [
    | inl b ↦ rw b (ground (arith, p_consume x))
    | inr b ↦ rw b (rw b (first-change_first p_consume xs t (ground arith)))
  ]

module _ (s : Store) (purpose : Text) (hash : Bytes) (now : Time) where
  -- What PeekToken reports is what ConsumeToken would return.
  pub peek_token-consume_token :
      peek_token s purpose hash now ≡ (consume_token s purpose hash now).1
  unfolding peek_token consume_token
  peek_token-consume_token = ground arith

  spent_is_refused :
      (t : Token)
      → first (is_token purpose hash) s.tokens ≡ some t
      → is_spent now t ≡ true
      → consume_token s purpose hash now ≡ (s, err token_invalid)
  unfolding consume_token
  spent_is_refused t e b = rw (e, consume_token) (rw b refl)

  redeemed :
      (claim : TokenClaim)
      → (consume_token s purpose hash now).1 ≡ ok claim
      → (t : Token) × (first (is_token purpose hash) (consume_token s purpose hash now).0.tokens
          ≡ some (consume now t))
  unfolding consume_token
  redeemed claim h = elim (Option-cases (first (is_token purpose hash) s.tokens)) [
    | inl e ↦ absurd (ground arith)
    | inr (t, e) ↦ elim (Bool-cases (is_spent now t)) [
      | inl b ↦ absurd (ground arith)
      | inr b ↦ (
        t,
        rw (e, consume_token)
            (rw b (first-change_first (is_token purpose hash) now (λ x. refl) s.tokens t e)),
      )
    ]
  ]

-- A token that was redeemed is refused from then on, whatever the time, and nothing changes.
pub consume_token_once :
    (s : Store) (purpose : Text) (hash : Bytes) (now later : Time) (claim : TokenClaim)
    → (consume_token s purpose hash now).1 ≡ ok claim
    → consume_token (consume_token s purpose hash now).0 purpose hash later
      ≡ ((consume_token s purpose hash now).0, err token_invalid)
consume_token_once s purpose hash now later claim h =
    let (t, e) = redeemed s purpose hash now claim h in
    spent_is_refused (consume_token s purpose hash now).0 purpose hash later (consume now t) e refl
