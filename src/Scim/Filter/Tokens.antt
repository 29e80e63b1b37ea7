-- ===== src/Scim/Filter/Tokens.antt =====
-- The lexer of filters ends, and its last token, and no other, is the end of the input.
use go_auth_x.Base.{
  Bool, Bool-cases, Option, [], arith, false, inl, inr, length, list_eq, nat_eq, none, refl, some,
  suc, true, zero, ℕ, ◌&&◌, ◌+◌, ◌<◌, ◌==◌, ◌||◌, ◌∷◌, ◌≡◌, ◌≤◌,
}
use go_auth_x.Scim.Filter.Fine.{ends_in_eof}
use go_auth_x.Scim.Filter.Lexer.{
  FilterError, FilterToken, Lexed, bad_input, emit, is_blank, is_delimiter, lbracket, lexed,
  lexer_out_of_fuel, lparen, push, quoted, rbracket, read_string, read_word, rparen, tokenize,
  tokenize_from, word,
}
use go_auth_x.Scim.Filter.Parser.{is_eof}
use go_auth_x.Text.{Text}

-- The tokens end with the end of the input, or the input is malformed.
unfoldable pub EndsWell : Lexed → Type 0
EndsWell (lexed toks) = ends_in_eof toks ≡ true
EndsWell (bad_input e) = Unit
EndsWell lexer_out_of_fuel = ⊥

emit-EndsWell : (t : FilterToken) (l : Lexed) → is_eof t ≡ false → EndsWell l → EndsWell (emit t l)
unfolding EndsWell ends_in_eof
emit-EndsWell t (lexed toks) e h = ground arith
emit-EndsWell t (bad_input x) e h = tt
emit-EndsWell t lexer_out_of_fuel e h = absurd h

choose {ℓ κ} :
    {A : Type ℓ} (P : A → Type κ) (b : Bool) (x y : A)
    → (b ≡ true → P x)
    → (b ≡ false → P y)
    → P (elim b as (λ _. A) [ true ↦ x | false ↦ y ])
choose P true x y h k = h refl
choose P false x y h k = k refl

-- What follows a string literal is shorter than `n`.
IsShorter : ℕ → Option (Text × Text) → Type 0
IsShorter n none = Unit
IsShorter n (some (val, rest)) = length rest < n

push-IsShorter :
    (c m n : ℕ) (o : Option (Text × Text)) → m ≤ n → IsShorter m o → IsShorter n (push c o)
unfolding IsShorter
push-IsShorter c m n none small h = tt
push-IsShorter c m n (some (v, r)) small h = omega arith

read_string-IsShorter : (s : Text) → IsShorter (length s) (read_string s)
unfolding read_string IsShorter
read_string-IsShorter [] = tt
read_string-IsShorter (c ∷ []) = elim (Bool-cases (c == 34)) [
  | inl e ↦ rw (e, IsShorter) (omega arith)
  | inr e ↦ rw (e, IsShorter) tt
]
read_string-IsShorter (c ∷ d ∷ cs) =
    let n = length (c ∷ d ∷ cs) in
    choose (IsShorter n) (c == 34) _ _ (λ _. omega arith)
      λ _.
        choose (IsShorter n) (c == 92 && (d == 34 || d == 92)) _ _
          (λ _. push-IsShorter d (length cs) n _ (omega arith) (read_string-IsShorter cs))
          (λ _.
            push-IsShorter c (length (d ∷ cs)) n _ (omega arith) (read_string-IsShorter (d ∷ cs)))

length-read_word : (s : Text) → length (read_word s).1 ≤ length s
unfolding read_word
length-read_word [] = omega arith
length-read_word (c ∷ cs) =
    choose (λ (r : Text × Text). length r.1 ≤ length (c ∷ cs)) (is_delimiter c) ([], c ∷ cs)
      (let (w, rest) = read_word cs in (c ∷ w, rest)) (λ _. omega arith)
      (λ _. omega (arith, length-read_word cs))

length-read_word_more :
    (c : ℕ) (cs : Text) → is_delimiter c ≡ false → length (read_word (c ∷ cs)).1 ≤ length cs
unfolding read_word
length-read_word_more c cs e =
    choose (λ (r : Text × Text). length r.1 ≤ length cs) (is_delimiter c) ([], c ∷ cs)
      (let (w, rest) = read_word cs in (c ∷ w, rest)) (λ d. absurd (ground arith))
      (λ _. length-read_word cs)

read_quoted-EndsWell :
    (e : FilterError) (o : Option (Text × Text)) (n : ℕ) (k : Text → Lexed)
    → IsShorter n o
    → ((rest : Text) → length rest < n → EndsWell (k rest))
    → EndsWell (elim o as (λ _. Lexed) [
      | none ↦ bad_input e
      | some (val, rest) ↦ emit (quoted val) (k rest)
    ])
unfolding IsShorter EndsWell
read_quoted-EndsWell e none n k h f = tt
read_quoted-EndsWell e (some (val, rest)) n k h f =
    emit-EndsWell (quoted val) (k rest) refl (f rest h)

tokenize_from-EndsWell : (fuel : ℕ) (s : Text) → length s < fuel → EndsWell (tokenize_from fuel s)
unfolding tokenize_from EndsWell ends_in_eof
tokenize_from-EndsWell zero s h = absurd (omega arith)
tokenize_from-EndsWell (suc fuel) [] h = refl
tokenize_from-EndsWell (suc fuel) (c ∷ cs) h =
    let later = tokenize_from-EndsWell fuel in
    choose EndsWell (is_blank c) _ _ (λ _. later cs (omega arith))
      λ blank.
        choose EndsWell (c == b'(') _ _ (λ _. emit-EndsWell lparen _ refl (later cs (omega arith)))
          λ lp.
            choose EndsWell (c == b')') _ _
              (λ _. emit-EndsWell rparen _ refl (later cs (omega arith)))
              λ rp.
                choose EndsWell (c == b'[') _ _
                  (λ _. emit-EndsWell lbracket _ refl (later cs (omega arith)))
                  λ lb.
                    choose EndsWell (c == b']') _ _
                      (λ _. emit-EndsWell rbracket _ refl (later cs (omega arith)))
                      λ rb.
                        choose EndsWell (c == 34) _ _
                          (λ _.
                            read_quoted-EndsWell _ (read_string cs) (length cs) (tokenize_from fuel)
                              (read_string-IsShorter cs) λ rest small. later rest (omega arith))
                          λ q.
                            let all : is_delimiter c ≡ false = ground arith in
                            emit-EndsWell (word (read_word (c ∷ cs)).0) _ refl (
                              later (read_word (c ∷ cs)).1
                                (omega (arith, length-read_word_more c cs all)))

pub tokenize-EndsWell : (s : Text) → EndsWell (tokenize s)
unfolding tokenize
tokenize-EndsWell s = tokenize_from-EndsWell (length s + 1) s (omega arith)
