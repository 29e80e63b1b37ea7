-- ===== src/Totp/Codes.antt =====
-- What hotp computes: every index is in range, and a code has six digits.
use go_auth_x.Base.{
  [], ap, arith, length, refl, some, suc, zero, ℕ, ◌%◌, ◌*◌, ◌++◌, ◌+◌, ◌/◌, ◌<◌, ◌^◌, ◌∙◌, ◌∷◌,
  ◌≡◌, ◌≤◌,
}
use go_auth_x.Text.{Bytes, Text}
use go_auth_x.Totp.{big_endian, first_four, hotp, last, padded, totp_digits, uint32_at}

abbrev pub IsDigits : Text → Type 0
IsDigits [] = Unit {0}
IsDigits (c ∷ cs) = ((b'0' ≤ c) × (c ≤ b'9')) × IsDigits cs

IsDigits-append : (xs : Text) (c : ℕ) → IsDigits xs → b'0' ≤ c → c ≤ b'9' → IsDigits (xs ++ c ∷ [])
IsDigits-append [] c h low high = ((low, high), tt)
IsDigits-append (x ∷ xs) c (here, h) low high = (here, IsDigits-append xs c h low high)

length-append : (xs : Text) (c : ℕ) → length (xs ++ c ∷ []) ≡ suc (length xs)
length-append [] c = refl
length-append (x ∷ xs) c = ap suc (length-append xs c)

padded-IsDigits : (n x : ℕ) → IsDigits (padded n x)
unfolding padded
padded-IsDigits zero x = tt
padded-IsDigits (suc n) x =
    IsDigits-append (padded n (x / 10)) (b'0' + x % 10) (padded-IsDigits n (x / 10)) (omega arith)
      (omega arith)

length-padded : (n x : ℕ) → length (padded n x) ≡ n
unfolding padded
length-padded zero x = refl
length-padded (suc n) x =
    length-append (padded n (x / 10)) (b'0' + x % 10) ∙ ap suc (length-padded n (x / 10))

first_four-some : (sum : Bytes) → 4 ≤ length sum → (word : ℕ) × (first_four sum ≡ some word)
unfolding first_four
first_four-some [] h = absurd (omega arith)
first_four-some (a ∷ []) h = absurd (omega arith)
first_four-some (a ∷ b ∷ []) h = absurd (omega arith)
first_four-some (a ∷ b ∷ c ∷ []) h = absurd (omega arith)
first_four-some (a ∷ b ∷ c ∷ d ∷ rest) h = (((a * 256 + b) * 256 + c) * 256 + d, refl)

uint32_at-in_range :
    (sum : Bytes) (off : ℕ) → off + 4 ≤ length sum → (word : ℕ) × (uint32_at sum off ≡ some word)
unfolding uint32_at
uint32_at-in_range sum zero h = first_four-some sum h
uint32_at-in_range [] (suc off) h = absurd (omega arith)
uint32_at-in_range (a ∷ rest) (suc off) h = uint32_at-in_range rest off (omega arith)

last-in_range : (sum : Bytes) → 0 < length sum → (low : ℕ) × (last sum ≡ some low)
unfolding last
last-in_range [] h = absurd (omega arith)
last-in_range (a ∷ []) h = (a, refl)
last-in_range (a ∷ b ∷ rest) h = last-in_range (b ∷ rest) (omega arith)

-- With a MAC of 20 bytes, hotp reads no byte out of range, and its code is six decimal digits.
pub hotp-IsDigits :
    (mac : Bytes → Bytes → Bytes) (secret : Bytes) (counter : ℕ)
    → ((key message : Bytes) → length (mac key message) ≡ 20)
    → (code : Text) × (hotp mac secret counter ≡ some code)
      × (length code ≡ totp_digits)
      × IsDigits code
unfolding hotp
hotp-IsDigits mac secret counter size =
    let sum = mac secret (big_endian 8 counter) in
    let (low, e) = last-in_range sum (rw (size secret (big_endian 8 counter)) (omega arith)) in
    let (word, w) =
      uint32_at-in_range sum (low % 16) (rw (size secret (big_endian 8 counter)) (omega arith)) in
    let n = word % 2 ^ 31 % 1000000 in
    (padded 6 n, rw (hotp, e) (rw w refl), length-padded 6 n, padded-IsDigits 6 n)
