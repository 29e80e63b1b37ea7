-- ===== src/Memory/Tokens.antt =====
-- store/memory/memory.go: single-use tokens.
pub mod SingleUse
use go_auth_x.Base.{
  Bool, [], change_first, first, if◌then◌else◌, list_eq, nat_eq, none, some, ◌&&◌, ◌++◌, ◌==◌, ◌||◌,
  ◌∷◌,
}
use go_auth_x.Map.{is_some}
use go_auth_x.Memory.Store.{Store, Token}
use go_auth_x.Text.{Bytes, Text, norm, parse_user_id, user_id_str}
use go_auth_x.Types.{Result, Time, TokenClaim, after, err, ok, token_invalid}

-- CreateToken; the error is always nil
unfoldable pub create_token : Store → Text → Text → Text → Bytes → Time → Store
create_token s purpose user_id email token_hash expires_at = record s {
  tokens =
      s.tokens
      ++ record {
        purpose = purpose;
        user_id = parse_user_id user_id;
        email = norm email;
        hash = token_hash;
        expires_at = expires_at;
        consumed_at = none;
      }
        ∷ [];
}

abbrev pub is_token : Text → Bytes → Token → Bool
is_token purpose hash t = t.purpose == purpose && t.hash == hash

-- t.consumedAt != nil || time.Now().After(t.expiresAt)
abbrev pub is_spent : Time → Token → Bool
is_spent now t = is_some t.consumed_at || after now t.expires_at

abbrev pub claim_of : Token → TokenClaim
claim_of t = record { user_id = user_id_str t.user_id; email = t.email }

abbrev pub consume : Time → Token → Token
consume now t = record t { consumed_at = some now }

-- ConsumeToken
unfoldable pub consume_token : Store → Text → Bytes → Time → Store × Result TokenClaim
consume_token s purpose token_hash now = elim (first (is_token purpose token_hash) s.tokens) [
  | none ↦ (s, err token_invalid)
  | some t ↦ if is_spent now t then (s, err token_invalid) else (
    record s { tokens = change_first (is_token purpose token_hash) (consume now) s.tokens },
    ok (claim_of t),
  )
]

-- PeekToken
unfoldable pub peek_token : Store → Text → Bytes → Time → Result TokenClaim
peek_token s purpose token_hash now = elim (first (is_token purpose token_hash) s.tokens) [
  | none ↦ err token_invalid
  | some t ↦ if is_spent now t then err token_invalid else ok (claim_of t)
]
