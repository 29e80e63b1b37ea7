-- ===== src/Scim/Filter/Parser.antt =====
-- scim/filter.go: the recursive-descent parser and compileFilter. A parser reads the tokens that
-- are left, `toks[pos:]`; where Go would panic, as the index passes the end, it is out of range.
-- The depth, which parseOr restores as it returns, is an argument.
use go_auth_x.Base.{
  Bool, List, Option, [], any, false, first, if◌then◌else◌, length, list_eq, ltb, nat_eq, none, not,
  some, suc, true, zero, ℕ, ◌!=◌, ◌&&◌, ◌*◌, ◌+◌, ◌==◌, ◌||◌, ◌∷◌,
}
use go_auth_x.Scim.Filter.{Op, Pred, as_resource, co, eq, ew, ge, gt, le, lt, match_attr, ne, sw}
use go_auth_x.Scim.Filter.Lexer.{
  FilterError, FilterToken, Lexed, bad_input, eof, expected_attribute, expected_lparen,
  expected_operator, expected_rbracket, expected_rparen, expected_value, lbracket, lexed,
  lexer_out_of_fuel, lparen, quoted, rbracket, rparen, tokenize, too_deep, unexpected_token,
  unsupported_operator, word,
}
use go_auth_x.Text.{Text, codes, equal_fold, to_lower}

pub data Parsed {ℓ} (A : Type ℓ) : Type ℓ where
  parsed : A → List FilterToken → Parsed A
  malformed : FilterError → Parsed A
  out_of_range : Parsed A
  out_of_fuel : Parsed A

abbrev pub Parser : Type 0 → Type 0
Parser A = List FilterToken → Parsed A

abbrev pub bind : {A B : Type 0} → Parsed A → (A → Parser B) → Parsed B
bind (parsed a rest) f = f a rest
bind (malformed e) f = malformed e
bind out_of_range f = out_of_range
bind out_of_fuel f = out_of_fuel

infixl 1 ◌>>=◌ ◌>>◌
abbrev pub ◌>>=◌ : {A B : Type 0} → Parser A → (A → Parser B) → Parser B
p >>= f = λ toks. bind (p toks) f

abbrev pub ◌>>◌ : {A B : Type 0} → Parser A → Parser B → Parser B
p >> q = p >>= λ _. q

abbrev pub pure : {A : Type 0} → A → Parser A
pure a toks = parsed a toks

abbrev pub fail : {A : Type 0} → FilterError → Parser A
fail e toks = malformed e

-- peek
unfoldable pub peek : Parser FilterToken
peek [] = out_of_range
peek (t ∷ toks) = parsed t (t ∷ toks)

-- next
unfoldable pub next_token : Parser FilterToken
next_token [] = out_of_range
next_token (t ∷ toks) = parsed t toks

-- isKw
unfoldable pub is_kw : Text → FilterToken → Bool
unfolding equal_fold
is_kw kw (word val) = equal_fold val kw
is_kw kw _ = false

-- val of a token
abbrev pub token_text : FilterToken → Text
token_text (word val) = val
token_text (quoted val) = val
token_text lparen = codes "("
token_text rparen = codes ")"
token_text lbracket = codes "["
token_text rbracket = codes "]"
token_text eof = []

abbrev pub is_lparen : FilterToken → Bool
is_lparen lparen = true
is_lparen _ = false

abbrev pub is_rparen : FilterToken → Bool
is_rparen rparen = true
is_rparen _ = false

abbrev pub is_lbracket : FilterToken → Bool
is_lbracket lbracket = true
is_lbracket _ = false

abbrev pub is_rbracket : FilterToken → Bool
is_rbracket rbracket = true
is_rbracket _ = false

abbrev pub is_eof : FilterToken → Bool
is_eof eof = true
is_eof _ = false

-- if p.peek().kind != k { return nil, e }; p.next()
unfoldable pub expect : (FilterToken → Bool) → FilterError → Parser (Unit {0})
unfolding peek next_token
expect is_kind e = do
  t ← peek
  elim (is_kind t) [ true ↦ (do next_token; pure tt) | false ↦ fail e ]

-- The operators of the switch in parseAttrExp
unfoldable pub read_op : Text → Option Op
read_op op =
    if op == codes "eq"
    then some eq
    else (if op == codes "ne"
        then some ne
        else (if op == codes "co"
            then some co
            else (if op == codes "sw"
                then some sw
                else (if op == codes "ew"
                    then some ew
                    else (if op == codes "gt"
                        then some gt
                        else (if op == codes "ge"
                            then some ge
                            else (if op == codes "lt"
                                then some lt
                                else (if op == codes "le" then some le else none))))))))

abbrev is_present : Text × Bool → Bool
is_present (v, present) = present && v != []

-- maxFilterDepth
abbrev pub max_filter_depth : ℕ
max_filter_depth = 40

-- The value of a comparison, and its predicate
unfoldable pub parse_value : Text → Op → Parser Pred
unfolding next_token match_attr
parse_value attr_name op = do
  vt ← next_token
  (elim vt [
    | word want ↦ pure (λ res. match_attr (res.scalar (to_lower attr_name)) op want)
    | quoted want ↦ pure (λ res. match_attr (res.scalar (to_lower attr_name)) op want)
    | _ ↦ fail (expected_value attr_name)
  ])

-- The switch over the operators other than `pr`
unfoldable pub parse_comparison : Text → Text → Parser Pred
unfolding read_op parse_value
parse_comparison attr_name val toks = elim (read_op (to_lower val)) [
  | none ↦ malformed (unsupported_operator val)
  | some op ↦ parse_value attr_name op toks
]

-- An attribute that no `[` follows
unfoldable pub parse_operator : Text → Parser Pred
unfolding next_token parse_comparison
parse_operator attr_name = do
  op_tok ← next_token
  (elim op_tok [
    | word val ↦ elim (to_lower val == codes "pr") [
      | true ↦ pure (λ res. is_present (res.scalar (to_lower attr_name)))
      | false ↦ parse_comparison attr_name val
    ]
    | _ ↦ fail (expected_operator attr_name)
  ])

unfoldable mutual
  unfolding peek next_token is_kw expect parse_operator

  -- parseOr
  pub parse_or : ℕ → ℕ → Parser Pred
  parse_or zero depth = λ toks. out_of_fuel
  parse_or (suc fuel) depth = elim (ltb max_filter_depth (depth + 1)) [
    | true ↦ fail too_deep
    | false ↦ do first ← parse_and fuel (depth + 1); or_loop fuel (depth + 1) first
  ]

  -- The loop of parseOr
  pub or_loop : ℕ → ℕ → Pred → Parser Pred
  or_loop zero depth so_far = λ toks. out_of_fuel
  or_loop (suc fuel) depth so_far = do
    t ← peek
    elim (is_kw (codes "or") t) [
      | true ↦ do
        next_token
        also ← parse_and fuel depth
        or_loop fuel depth (λ res. so_far res || also res)
      | false ↦ pure so_far
    ]

  -- parseAnd
  pub parse_and : ℕ → ℕ → Parser Pred
  parse_and zero depth = λ toks. out_of_fuel
  parse_and (suc fuel) depth = do first ← parse_not fuel depth; and_loop fuel depth first

  -- The loop of parseAnd
  pub and_loop : ℕ → ℕ → Pred → Parser Pred
  and_loop zero depth so_far = λ toks. out_of_fuel
  and_loop (suc fuel) depth so_far = do
    t ← peek
    elim (is_kw (codes "and") t) [
      | true ↦ do
        next_token
        also ← parse_not fuel depth
        and_loop fuel depth (λ res. so_far res && also res)
      | false ↦ pure so_far
    ]

  -- parseNot
  pub parse_not : ℕ → ℕ → Parser Pred
  parse_not zero depth = λ toks. out_of_fuel
  parse_not (suc fuel) depth = do
    t ← peek
    elim (is_kw (codes "not") t) [
      | true ↦ do
        next_token
        expect is_lparen expected_lparen
        inner ← parse_or fuel depth
        expect is_rparen expected_rparen
        pure (λ res. not (inner res))
      | false ↦ parse_primary fuel depth
    ]

  -- parsePrimary
  pub parse_primary : ℕ → ℕ → Parser Pred
  parse_primary zero depth = λ toks. out_of_fuel
  parse_primary (suc fuel) depth = do
    t ← peek
    elim (is_lparen t) [
      | true ↦ do
        next_token
        inner ← parse_or fuel depth
        expect is_rparen expected_rparen
        pure inner
      | false ↦ parse_attr_exp fuel depth
    ]

  -- parseAttrExp
  pub parse_attr_exp : ℕ → ℕ → Parser Pred
  parse_attr_exp zero depth = λ toks. out_of_fuel
  parse_attr_exp (suc fuel) depth = do
    name ← next_token
    (elim name [
      | word val ↦ do
        t ← peek
        elim (is_lbracket t) [
          | true ↦ do
            next_token
            inner ← parse_or fuel depth
            expect is_rbracket expected_rbracket
            pure (λ res. any (λ e. inner (as_resource e)) (res.multi (to_lower val)))
          | false ↦ parse_operator val
        ]
      | other ↦ fail (expected_attribute (token_text other))
    ])

abbrev pub finish : Pred → Parser Pred
finish pr toks =
    bind (peek toks)
      λ t. elim (is_eof t) [ true ↦ pure pr | false ↦ fail (unexpected_token (token_text t)) ]

-- Enough fuel for a number of tokens: each token is behind at most six calls.
abbrev pub enough_fuel : ℕ → ℕ
enough_fuel n = 6 * n + 5

abbrev pub compile_tokens : List FilterToken → Parsed Pred
compile_tokens toks = bind (parse_or (enough_fuel (length toks)) 0 toks) finish

abbrev pub compile_lexed : Lexed → Parsed Pred
compile_lexed (lexed toks) = compile_tokens toks
compile_lexed (bad_input e) = malformed e
compile_lexed lexer_out_of_fuel = out_of_fuel

-- compileFilter
unfoldable pub compile_filter : Text → Parsed Pred
unfolding tokenize parse_or peek
compile_filter s = compile_lexed (tokenize s)
