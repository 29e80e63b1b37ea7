-- ===== src/Scim/Filter/Lexer.antt =====
-- scim/filter.go: tokenize. What is left of the input stands for the index `i`.
use go_auth_x.Base.{
  Bool, List, Option, [], false, if◌then◌else◌, length, list_eq, nat_eq, none, some, suc, true,
  zero, ℕ, ◌&&◌, ◌+◌, ◌==◌, ◌||◌, ◌∷◌,
}
use go_auth_x.Text.{Text}

-- The errors of compileFilter.
pub data FilterError : Type 0 where
  unterminated_string too_deep expected_lparen expected_rparen expected_rbracket : FilterError
  unexpected_token expected_attribute expected_operator unsupported_operator expected_value :
      Text → FilterError

-- token, with its kind
pub data FilterToken : Type 0 where
  word quoted : Text → FilterToken
  lparen rparen lbracket rbracket eof : FilterToken

-- The tokens up to the end of the input, or an error.
pub data Lexed : Type 0 where
  lexed : List FilterToken → Lexed
  bad_input : FilterError → Lexed
  lexer_out_of_fuel : Lexed

abbrev pub emit : FilterToken → Lexed → Lexed
emit t (lexed toks) = lexed (t ∷ toks)
emit t (bad_input e) = bad_input e
emit t lexer_out_of_fuel = lexer_out_of_fuel

abbrev pub is_blank : ℕ → Bool
is_blank c = c == 32 || c == 9

abbrev pub is_delimiter : ℕ → Bool
is_delimiter c = is_blank c || (c == b'(' || (c == b')' || (c == b'[' || c == b']')))

abbrev pub push : ℕ → Option (Text × Text) → Option (Text × Text)
push c none = none
push c (some (val, rest)) = some (c ∷ val, rest)

-- The loop over a string literal, behind its opening quote: its value, and what follows its closing
-- quote; nothing if there is none.
unfoldable pub read_string : Text → Option (Text × Text)
read_string [] = none
read_string (c ∷ []) = if c == 34 then some ([], []) else none
read_string (c ∷ d ∷ cs) = elim (c == 34) [
  | true ↦ some ([], d ∷ cs)
  | false ↦ elim (c == 92 && (d == 34 || d == 92)) [
    | true ↦ push d (read_string cs)
    | false ↦ push c (read_string (d ∷ cs))
  ]
]

-- The loop over a word: the word, and what follows it.
unfoldable pub read_word : Text → Text × Text
read_word [] = ([], [])
read_word (c ∷ cs) = elim (is_delimiter c) [
  | true ↦ ([], c ∷ cs)
  | false ↦ let (w, rest) = read_word cs in (c ∷ w, rest)
]

-- tokenize; each turn of the loop takes one unit of fuel, and at least one character
unfoldable pub tokenize_from : ℕ → Text → Lexed
unfolding read_string read_word
tokenize_from zero s = lexer_out_of_fuel
tokenize_from (suc fuel) [] = lexed (eof ∷ [])
tokenize_from (suc fuel) (c ∷ cs) = elim (is_blank c) [
  | true ↦ tokenize_from fuel cs
  | false ↦ elim (c == b'(') [
    | true ↦ emit lparen (tokenize_from fuel cs)
    | false ↦ elim (c == b')') [
      | true ↦ emit rparen (tokenize_from fuel cs)
      | false ↦ elim (c == b'[') [
        | true ↦ emit lbracket (tokenize_from fuel cs)
        | false ↦ elim (c == b']') [
          | true ↦ emit rbracket (tokenize_from fuel cs)
          | false ↦ elim (c == 34) [
            | true ↦ elim (read_string cs) [
              | none ↦ bad_input unterminated_string
              | some (val, rest) ↦ emit (quoted val) (tokenize_from fuel rest)
            ]
            | false ↦ let (w, rest) = read_word (c ∷ cs) in emit (word w) (tokenize_from fuel rest)
          ]
        ]
      ]
    ]
  ]
]

unfoldable pub tokenize : Text → Lexed
unfolding tokenize_from
tokenize s = tokenize_from (length s + 1) s
