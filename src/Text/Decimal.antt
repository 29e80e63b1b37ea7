-- ===== src/Text/Decimal.antt =====
-- Opaque identifiers: decimal text and back.
use go_auth_x.Base.{
  Option-cases, [], any, arith, false, inl, inr, length, list_eq, nat_beq_iff, nat_eq, refl, some,
  suc, zero, ℕ, ◌%◌, ◌*◌, ◌+◌, ◌-◌, ◌/◌, ◌<◌, ◌==◌, ◌^◌, ◌∷◌, ◌≡◌,
}
use go_auth_x.Text.{Text, emit_digits, format_uint, id_str, parse_digits, parse_id, parse_uint, u64}
use native.Mathlib.Nat.{pow-suc}

-- Reading back what `emit_digits` wrote: the number, then the rest of the text.
parse_digits-emit_digits :
    (fuel n : ℕ) (out : Text)
    → n < 10 ^ fuel
    → parse_digits 0 (emit_digits fuel n out) ≡ parse_digits n out
unfolding parse_digits emit_digits
parse_digits-emit_digits zero n out h = let e : n ≡ 0 = omega arith in rw e refl
parse_digits-emit_digits (suc fuel) n out h =
    ground (arith, pow-suc 10 fuel, parse_digits-emit_digits fuel (n / 10) ((b'0' + n % 10) ∷ out))

emit_digits-ne-nil :
    (fuel n : ℕ) (out : Text) → 0 < length out → 0 < length (emit_digits fuel n out)
unfolding emit_digits
emit_digits-ne-nil zero n out h = h
emit_digits-ne-nil (suc fuel) n out h =
    ground (arith, emit_digits-ne-nil fuel (n / 10) ((b'0' + n % 10) ∷ out))

parse_uint-some :
    (s : Text) (n : ℕ) → 0 < length s → parse_digits 0 s ≡ some n → n < u64 → parse_uint s ≡ some n
unfolding parse_uint
parse_uint-some [] n l h b = absurd (omega arith)
parse_uint-some (c ∷ cs) n l h b = rw (h, parse_uint) (ground arith)

length-format_uint : (n : ℕ) → 0 < length (format_uint n)
unfolding format_uint emit_digits
length-format_uint n = ground (arith, emit_digits-ne-nil 19 (n / 10) ((b'0' + n % 10) ∷ []))

-- Parsing what was printed gives the number back.
pub parse_uint-format_uint : (n : ℕ) → n < u64 → parse_uint (format_uint n) ≡ some n
parse_uint-format_uint n b =
    parse_uint-some (format_uint n) n (length-format_uint n)
      (unfold parse_digits in unfold format_uint in parse_digits-emit_digits 20 n [] (omega arith))
      b

-- The text of an internal key is read back as that key.
pub parse_id-id_str : (n : ℕ) → 0 < n → n < u64 → parse_id (id_str n) ≡ some n
unfolding parse_id id_str
parse_id-id_str n p b = rw (parse_uint-format_uint n b, parse_id) (ground arith)

-- Two keys with the same text are the same key.
pub id_str-injective : (a b : ℕ) → 0 < a → a < u64 → 0 < b → b < u64 → id_str a ≡ id_str b → a ≡ b
id_str-injective a b pa ha pb hb h = cc (parse_id-id_str a pa ha, parse_id-id_str b pb hb)

-- A parsed key is positive and fits 64 bits.
pub parse_id_bounds : (s : Text) (n : ℕ) → parse_id s ≡ some n → (0 < n) × (n < u64)
unfolding parse_id parse_uint
parse_id_bounds [] n h = absurd (ground arith)
parse_id_bounds (c ∷ cs) n h = ground arith

parse_digits-no :
    (bar : ℕ) (t : Text) (k n : ℕ)
    → parse_digits k t ≡ some n
    → b'9' < bar
    → any (λ c. c == bar) t ≡ false
unfolding parse_digits any
parse_digits-no bar [] k n h high = refl
parse_digits-no bar (c ∷ t) k n h high =
    ground (arith, nat_beq_iff c bar, parse_digits-no bar t (k * 10 + (c - b'0')) n)

-- No byte above the digits is in a text that is parsed.
pub parse_id-no :
    (bar : ℕ) (t : Text) (n : ℕ) → parse_id t ≡ some n → b'9' < bar → any (λ c. c == bar) t ≡ false
unfolding parse_id parse_uint any
parse_id-no bar [] n h high = refl
parse_id-no bar (c ∷ t) n h high = elim (Option-cases (parse_digits 0 (c ∷ t))) [
  | inl e ↦ absurd (ground arith)
  | inr (m, e) ↦ parse_digits-no bar (c ∷ t) 0 m e high
]
