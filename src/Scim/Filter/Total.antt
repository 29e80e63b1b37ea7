-- ===== src/Scim/Filter/Total.antt =====
-- The compiler of filters neither reads past the tokens nor runs out of fuel.
use go_auth_x.Base.{
  List, [], any, arith, length, list_eq, ltb, nat_eq, not, refl, suc, true, zero, ℕ, ◌&&◌, ◌*◌, ◌+◌,
  ◌||◌, ◌∷◌, ◌≡◌, ◌≤◌,
}
use go_auth_x.Scim.Filter.{Pred, as_resource}
use go_auth_x.Scim.Filter.Fine.{
  IsFine, behind, bind-IsFine, choose-IsFine, enclosed-IsFine, ends_in_eof, expect-IsFine,
  is_kw-is_eof, is_lbracket-is_eof, is_lparen-is_eof, is_rbracket-is_eof, is_rparen-is_eof,
  parse_operator-IsFine, weaken,
}
use go_auth_x.Scim.Filter.Lexer.{
  FilterError, FilterToken, Lexed, bad_input, eof, expected_lparen, expected_rbracket,
  expected_rparen, lbracket, lexed, lexer_out_of_fuel, lparen, quoted, rbracket, rparen, tokenize,
  too_deep, unexpected_token, word,
}
use go_auth_x.Scim.Filter.Parser.{
  Parsed, and_loop, bind, compile_filter, compile_lexed, enough_fuel, expect, fail, finish, is_eof,
  is_kw, is_lbracket, is_lparen, is_rbracket, is_rparen, malformed, max_filter_depth, next_token,
  or_loop, out_of_fuel, out_of_range, parse_and, parse_attr_exp, parse_not, parse_operator,
  parse_or, parse_primary, parsed, peek, pure, token_text, ◌>>◌,
}
use go_auth_x.Scim.Filter.Tokens.{EndsWell, tokenize-EndsWell}
use go_auth_x.Text.{Text, codes, to_lower}

mutual
  unfolding parse_or IsFine ends_in_eof peek next_token

  parse_or-IsFine :
      (fuel depth : ℕ) (toks : List FilterToken)
      → ends_in_eof toks ≡ true
      → 6 * length toks + 5 ≤ fuel
      → IsFine (length toks) (parse_or fuel depth toks)
  parse_or-IsFine zero depth toks h b = absurd (omega arith)
  parse_or-IsFine (suc fuel) depth toks h b =
      choose-IsFine (length toks) (ltb max_filter_depth (depth + 1)) (fail too_deep)
        (λ ts. bind (parse_and fuel (depth + 1) ts) (or_loop fuel (depth + 1))) toks (λ e. tt)
        λ e.
          bind-IsFine (length toks) (length toks) (parse_and fuel (depth + 1) toks)
            (or_loop fuel (depth + 1)) (parse_and-IsFine fuel (depth + 1) toks h (omega arith))
            λ p rest w small.
              weaken (length rest + 1) (length toks) _ (omega arith)
                (or_loop-IsFine fuel (depth + 1) p rest w (omega arith))

  or_loop-IsFine :
      (fuel depth : ℕ) (p : Pred) (toks : List FilterToken)
      → ends_in_eof toks ≡ true
      → 6 * length toks + 1 ≤ fuel
      → IsFine (length toks + 1) (or_loop fuel depth p toks)
  or_loop-IsFine zero depth p toks h b = absurd (omega arith)
  or_loop-IsFine (suc fuel) depth p [] h b = absurd (ground arith)
  or_loop-IsFine (suc fuel) depth p (t ∷ ts) h b =
      choose-IsFine _ (is_kw (codes "or") t)
        (next_token
          >> (λ us. bind (parse_and fuel depth us) λ q. or_loop fuel depth λ res. p res || q res))
        (pure p) (t ∷ ts)
        (λ e.
          bind-IsFine (length ts) _ (parse_and fuel depth ts) _
            (parse_and-IsFine fuel depth ts (behind t ts h (is_kw-is_eof (codes "or") t e))
              (omega arith))
            λ q rest w small.
              weaken (length rest + 1) _ _ (omega arith)
                (or_loop-IsFine fuel depth _ rest w (omega arith)))
        (λ e. (h, omega arith))

  parse_and-IsFine :
      (fuel depth : ℕ) (toks : List FilterToken)
      → ends_in_eof toks ≡ true
      → 6 * length toks + 4 ≤ fuel
      → IsFine (length toks) (parse_and fuel depth toks)
  parse_and-IsFine zero depth toks h b = absurd (omega arith)
  parse_and-IsFine (suc fuel) depth toks h b =
      bind-IsFine (length toks) (length toks) (parse_not fuel depth toks) (and_loop fuel depth)
        (parse_not-IsFine fuel depth toks h (omega arith))
        λ p rest w small.
          weaken (length rest + 1) (length toks) _ (omega arith)
            (and_loop-IsFine fuel depth p rest w (omega arith))

  and_loop-IsFine :
      (fuel depth : ℕ) (p : Pred) (toks : List FilterToken)
      → ends_in_eof toks ≡ true
      → 6 * length toks + 1 ≤ fuel
      → IsFine (length toks + 1) (and_loop fuel depth p toks)
  and_loop-IsFine zero depth p toks h b = absurd (omega arith)
  and_loop-IsFine (suc fuel) depth p [] h b = absurd (ground arith)
  and_loop-IsFine (suc fuel) depth p (t ∷ ts) h b =
      choose-IsFine _ (is_kw (codes "and") t)
        (next_token
          >> (λ us. bind (parse_not fuel depth us) λ q. and_loop fuel depth λ res. p res && q res))
        (pure p) (t ∷ ts)
        (λ e.
          bind-IsFine (length ts) _ (parse_not fuel depth ts) _
            (parse_not-IsFine fuel depth ts (behind t ts h (is_kw-is_eof (codes "and") t e))
              (omega arith))
            λ q rest w small.
              weaken (length rest + 1) _ _ (omega arith)
                (and_loop-IsFine fuel depth _ rest w (omega arith)))
        (λ e. (h, omega arith))

  parse_not-IsFine :
      (fuel depth : ℕ) (toks : List FilterToken)
      → ends_in_eof toks ≡ true
      → 6 * length toks + 3 ≤ fuel
      → IsFine (length toks) (parse_not fuel depth toks)
  parse_not-IsFine zero depth toks h b = absurd (omega arith)
  parse_not-IsFine (suc fuel) depth [] h b = absurd (ground arith)
  parse_not-IsFine (suc fuel) depth (t ∷ ts) h b =
      choose-IsFine _ (is_kw (codes "not") t)
        (next_token
          >> (expect is_lparen expected_lparen >> (λ us.
              bind (parse_or fuel depth us)
                λ inner. expect is_rparen expected_rparen >> pure (λ res. not (inner res)))))
        (parse_primary fuel depth) (t ∷ ts)
        (λ e.
          bind-IsFine (length ts) _ (expect is_lparen expected_lparen ts) _
            (expect-IsFine is_lparen _ ts is_lparen-is_eof
              (behind t ts h (is_kw-is_eof (codes "not") t e)))
            λ u rest w small. weaken (length rest) _ _ (omega arith) (
              enclosed-IsFine (length rest) (parse_or fuel depth rest) is_rparen expected_rparen
                (λ p res. not (p res)) (parse_or-IsFine fuel depth rest w (omega arith))
                is_rparen-is_eof))
        (λ e. parse_primary-IsFine fuel depth (t ∷ ts) h (omega arith))

  parse_primary-IsFine :
      (fuel depth : ℕ) (toks : List FilterToken)
      → ends_in_eof toks ≡ true
      → 6 * length toks + 2 ≤ fuel
      → IsFine (length toks) (parse_primary fuel depth toks)
  parse_primary-IsFine zero depth toks h b = absurd (omega arith)
  parse_primary-IsFine (suc fuel) depth [] h b = absurd (ground arith)
  parse_primary-IsFine (suc fuel) depth (t ∷ ts) h b =
      choose-IsFine _ (is_lparen t)
        (λ us. bind (next_token us) λ u vs.
          bind (parse_or fuel depth vs) λ inner. expect is_rparen expected_rparen >> pure inner)
        (parse_attr_exp fuel depth) (t ∷ ts)
        (λ e. weaken (length ts) _ _ (omega arith) (
          enclosed-IsFine (length ts) (parse_or fuel depth ts) is_rparen expected_rparen (λ p. p)
            (parse_or-IsFine fuel depth ts (behind t ts h (is_lparen-is_eof t e)) (omega arith))
            is_rparen-is_eof))
        (λ e. parse_attr_exp-IsFine fuel depth (t ∷ ts) h (omega arith))

  parse_attr_exp-IsFine :
      (fuel depth : ℕ) (toks : List FilterToken)
      → ends_in_eof toks ≡ true
      → 6 * length toks + 1 ≤ fuel
      → IsFine (length toks) (parse_attr_exp fuel depth toks)
  parse_attr_exp-IsFine zero depth toks h b = absurd (omega arith)
  parse_attr_exp-IsFine (suc fuel) depth [] h b = absurd (ground arith)
  parse_attr_exp-IsFine (suc fuel) depth (word val ∷ []) h b = absurd (ground arith)
  parse_attr_exp-IsFine (suc fuel) depth (word val ∷ t ∷ ts) h b =
      let w = behind (word val) (t ∷ ts) h refl in
      choose-IsFine _ (is_lbracket t)
        (next_token >> (λ us. bind (parse_or fuel depth us) λ inner.
          expect is_rbracket expected_rbracket
          >> pure (λ res. any (λ e. inner (as_resource e)) (res.multi (to_lower val)))))
        (parse_operator val) (t ∷ ts)
        (λ e. weaken (length ts) _ _ (omega arith) (
          enclosed-IsFine (length ts) (parse_or fuel depth ts) is_rbracket expected_rbracket
            (λ p res. any (λ e. p (as_resource e)) (res.multi (to_lower val)))
            (parse_or-IsFine fuel depth ts (behind t ts w (is_lbracket-is_eof t e)) (omega arith))
            is_rbracket-is_eof))
        (λ e. weaken (length (t ∷ ts)) _ _ (omega arith) (parse_operator-IsFine val (t ∷ ts) w))
  parse_attr_exp-IsFine (suc fuel) depth (quoted val ∷ ts) h b = tt
  parse_attr_exp-IsFine (suc fuel) depth (lparen ∷ ts) h b = tt
  parse_attr_exp-IsFine (suc fuel) depth (rparen ∷ ts) h b = tt
  parse_attr_exp-IsFine (suc fuel) depth (lbracket ∷ ts) h b = tt
  parse_attr_exp-IsFine (suc fuel) depth (rbracket ∷ ts) h b = tt
  parse_attr_exp-IsFine (suc fuel) depth (eof ∷ ts) h b = tt

-- A result of the compiler: a predicate, or an error.
pub data IsResult : Parsed Pred → Type 0 where
  compiles : (p : Pred) (rest : List FilterToken) → IsResult (parsed p rest)
  rejects : (e : FilterError) → IsResult (malformed e)

IsFine-IsResult : (n : ℕ) (r : Parsed Pred) → IsFine n r → IsResult r
unfolding IsFine
IsFine-IsResult n (parsed p rest) h = compiles p rest
IsFine-IsResult n (malformed e) h = rejects e
IsFine-IsResult n out_of_range h = absurd h
IsFine-IsResult n out_of_fuel h = absurd h

finish-IsFine :
    (p : Pred) (toks : List FilterToken)
    → ends_in_eof toks ≡ true
    → IsFine (length toks + 1) (finish p toks)
unfolding peek IsFine ends_in_eof
finish-IsFine p [] h = absurd (ground arith)
finish-IsFine p (t ∷ ts) h =
    choose-IsFine _ (is_eof t) (pure p) (fail (unexpected_token (token_text t))) (t ∷ ts)
      (λ e. (h, omega arith)) (λ e. tt)

compile_lexed-IsResult : (l : Lexed) → EndsWell l → IsResult (compile_lexed l)
unfolding EndsWell
compile_lexed-IsResult (lexed toks) h = IsFine-IsResult (length toks + 1) _ (
    bind-IsFine (length toks) (length toks + 1) (parse_or (enough_fuel (length toks)) 0 toks) finish
      (parse_or-IsFine (enough_fuel (length toks)) 0 toks h (omega arith))
      λ p rest w small.
        weaken (length rest + 1) _ (finish p rest) (omega arith) (finish-IsFine p rest w))
compile_lexed-IsResult (bad_input e) h = rejects e
compile_lexed-IsResult lexer_out_of_fuel h = absurd h

-- On any input compileFilter returns a predicate or an error of the caller: it never reads past
-- the last token, and the fuel is enough, so each loop and recursion ends.
pub compile_filter-IsResult : (s : Text) → IsResult (compile_filter s)
unfolding compile_filter
compile_filter-IsResult s = compile_lexed-IsResult (tokenize s) (tokenize-EndsWell s)
