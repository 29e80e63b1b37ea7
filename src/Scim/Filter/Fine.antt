-- ===== src/Scim/Filter/Fine.antt =====
-- What a parser of filters answers on tokens that end as the lexer ends them.
use go_auth_x.Base.{
  Bool, List, Option-cases, [], arith, false, if◌then◌else◌, inl, inr, length, list_eq, nat_eq,
  refl, true, ℕ, ◌<◌, ◌==◌, ◌∷◌, ◌≡◌, ◌≤◌,
}
use go_auth_x.Scim.Filter.{Op, Pred}
use go_auth_x.Scim.Filter.Lexer.{
  FilterError, FilterToken, eof, lbracket, lparen, quoted, rbracket, rparen, word,
}
use go_auth_x.Scim.Filter.Parser.{
  Parsed, Parser, bind, expect, fail, is_eof, is_kw, is_lbracket, is_lparen, is_rbracket, is_rparen,
  malformed, next_token, out_of_fuel, out_of_range, parse_comparison, parse_operator, parse_value,
  parsed, peek, pure, read_op, ◌>>◌,
}
use go_auth_x.Text.{Text, codes, to_lower}

-- The last token, and no other, is the end of the input.
unfoldable pub ends_in_eof : List FilterToken → Bool
ends_in_eof [] = false
ends_in_eof (t ∷ toks) =
    if is_eof t then elim toks [ [] ↦ true | _ ∷ _ ↦ false ] else ends_in_eof toks

-- A parser's answer that leaves less than `n` tokens, the end of the input last, or is an error.
unfoldable pub IsFine : {A : Type 0} → ℕ → Parsed A → Type 0
IsFine n (parsed a rest) = (ends_in_eof rest ≡ true) × (length rest < n)
IsFine n (malformed e) = Unit
IsFine n out_of_range = ⊥
IsFine n out_of_fuel = ⊥

pub bind-IsFine :
    {A B : Type 0} (m n : ℕ) (r : Parsed A) (f : A → Parser B)
    → IsFine m r
    → ((a : A) (rest : List FilterToken)
        → ends_in_eof rest ≡ true
        → length rest < m
        → IsFine n (f a rest))
    → IsFine n (bind r f)
unfolding IsFine
bind-IsFine m n (parsed a rest) f h k = k a rest h.0 h.1
bind-IsFine m n (malformed e) f h k = tt
bind-IsFine m n out_of_range f h k = absurd h
bind-IsFine m n out_of_fuel f h k = absurd h

pub weaken : {A : Type 0} (m n : ℕ) (r : Parsed A) → m ≤ n → IsFine m r → IsFine n r
unfolding IsFine
weaken m n (parsed a rest) small h = (h.0, omega arith)
weaken m n (malformed e) small h = tt
weaken m n out_of_range small h = absurd h
weaken m n out_of_fuel small h = absurd h

pub choose-IsFine :
    {A : Type 0} (n : ℕ) (b : Bool) (p q : Parser A) (toks : List FilterToken)
    → (b ≡ true → IsFine n (p toks))
    → (b ≡ false → IsFine n (q toks))
    → IsFine n (elim b as (λ _. Parser A) [ true ↦ p | false ↦ q ] toks)
choose-IsFine n true p q toks h k = h refl
choose-IsFine n false p q toks h k = k refl

pub behind :
    (t : FilterToken) (ts : List FilterToken)
    → ends_in_eof (t ∷ ts) ≡ true
    → is_eof t ≡ false
    → ends_in_eof ts ≡ true
unfolding ends_in_eof
behind t ts h e = ground arith

pub is_kw-is_eof : (kw : Text) (t : FilterToken) → is_kw kw t ≡ true → is_eof t ≡ false
unfolding is_kw
is_kw-is_eof kw (word val) h = refl
is_kw-is_eof kw (quoted val) h = refl
is_kw-is_eof kw lparen h = refl
is_kw-is_eof kw rparen h = refl
is_kw-is_eof kw lbracket h = refl
is_kw-is_eof kw rbracket h = refl
is_kw-is_eof kw eof h = ground arith

pub expect-IsFine :
    (is_kind : FilterToken → Bool) (e : FilterError) (toks : List FilterToken)
    → ((t : FilterToken) → is_kind t ≡ true → is_eof t ≡ false)
    → ends_in_eof toks ≡ true
    → IsFine (length toks) (expect is_kind e toks)
unfolding expect peek next_token IsFine ends_in_eof
expect-IsFine is_kind e [] h k = absurd (ground arith)
expect-IsFine is_kind e (t ∷ ts) h k =
    choose-IsFine (length (t ∷ ts)) (is_kind t) (next_token >> pure tt) (fail e) (t ∷ ts)
      (λ b. (behind t ts k (h t b), omega arith)) (λ b. tt)

parse_value-IsFine :
    (name : Text) (op : Op) (toks : List FilterToken)
    → ends_in_eof toks ≡ true
    → IsFine (length toks) (parse_value name op toks)
unfolding parse_value next_token IsFine ends_in_eof
parse_value-IsFine name op [] h = absurd (ground arith)
parse_value-IsFine name op (word want ∷ ts) h = (behind (word want) ts h refl, omega arith)
parse_value-IsFine name op (quoted want ∷ ts) h = (behind (quoted want) ts h refl, omega arith)
parse_value-IsFine name op (lparen ∷ ts) h = tt
parse_value-IsFine name op (rparen ∷ ts) h = tt
parse_value-IsFine name op (lbracket ∷ ts) h = tt
parse_value-IsFine name op (rbracket ∷ ts) h = tt
parse_value-IsFine name op (eof ∷ ts) h = tt

parse_comparison-IsFine :
    (name val : Text) (toks : List FilterToken)
    → ends_in_eof toks ≡ true
    → IsFine (length toks) (parse_comparison name val toks)
unfolding parse_comparison IsFine
parse_comparison-IsFine name val toks h = elim (Option-cases (read_op (to_lower val))) [
  | inl o ↦ rw (o, parse_comparison) tt
  | inr (op, o) ↦ rw (o, parse_comparison) (parse_value-IsFine name op toks h)
]

pub parse_operator-IsFine :
    (name : Text) (toks : List FilterToken)
    → ends_in_eof toks ≡ true
    → IsFine (length toks) (parse_operator name toks)
unfolding parse_operator next_token IsFine ends_in_eof
parse_operator-IsFine name [] h = absurd (ground arith)
parse_operator-IsFine name (word val ∷ ts) h =
    let rest = behind (word val) ts h refl in
    choose-IsFine _ (to_lower val == codes "pr") _ (parse_comparison name val) ts
      (λ e. (rest, omega arith))
      (λ e.
        weaken (length ts) _ (parse_comparison name val ts) (omega arith)
          (parse_comparison-IsFine name val ts rest))
parse_operator-IsFine name (quoted want ∷ ts) h = tt
parse_operator-IsFine name (lparen ∷ ts) h = tt
parse_operator-IsFine name (rparen ∷ ts) h = tt
parse_operator-IsFine name (lbracket ∷ ts) h = tt
parse_operator-IsFine name (rbracket ∷ ts) h = tt
parse_operator-IsFine name (eof ∷ ts) h = tt

-- A parser inside brackets: what it reads, the closing bracket, and what is made of it.
pub enclosed-IsFine :
    (n : ℕ) (p : Parsed Pred) (is_kind : FilterToken → Bool) (e : FilterError) (f : Pred → Pred)
    → IsFine n p
    → ((t : FilterToken) → is_kind t ≡ true → is_eof t ≡ false)
    → IsFine n (bind p (λ inner. expect is_kind e >> pure (f inner)))
unfolding IsFine
enclosed-IsFine n p is_kind e f h k = bind-IsFine n n p _ h λ inner rest w small.
    bind-IsFine (length rest) n (expect is_kind e rest) _ (expect-IsFine is_kind e rest k w)
      λ u rest' w' small'. (w', omega arith)

pub is_lparen-is_eof : (t : FilterToken) → is_lparen t ≡ true → is_eof t ≡ false
is_lparen-is_eof lparen h = refl
is_lparen-is_eof eof h = absurd (ground arith)
is_lparen-is_eof _ h = refl

pub is_rparen-is_eof : (t : FilterToken) → is_rparen t ≡ true → is_eof t ≡ false
is_rparen-is_eof rparen h = refl
is_rparen-is_eof eof h = absurd (ground arith)
is_rparen-is_eof _ h = refl

pub is_rbracket-is_eof : (t : FilterToken) → is_rbracket t ≡ true → is_eof t ≡ false
is_rbracket-is_eof rbracket h = refl
is_rbracket-is_eof eof h = absurd (ground arith)
is_rbracket-is_eof _ h = refl

pub is_lbracket-is_eof : (t : FilterToken) → is_lbracket t ≡ true → is_eof t ≡ false
is_lbracket-is_eof lbracket h = refl
is_lbracket-is_eof eof h = absurd (ground arith)
is_lbracket-is_eof _ h = refl
