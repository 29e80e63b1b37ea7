-- ===== src/Text.antt =====
-- Go strings as lists of code points, and what the code uses of packages strings and strconv.
-- Letters and spaces outside ASCII are not folded or trimmed here.
pub mod Norm
pub mod Decimal
use Prim.Native.Char.{code}
use Prim.Native.String.{String}
use go_auth_x.Base.{
  Bool, List, Option, [], false, if◌then◌else◌, leb, list_eq, ltb, nat_eq, none, some, suc, true,
  zero, ℕ, ◌%◌, ◌&&◌, ◌*◌, ◌++◌, ◌+◌, ◌-◌, ◌/◌, ◌==◌, ◌^◌, ◌||◌, ◌∷◌,
}

abbrev pub Text : Type 0
Text = List ℕ

-- []byte values: hashes, handles, keys.
abbrev pub Bytes : Type 0
Bytes = List ℕ

abbrev pub codes : String → Text
codes String.[] = []
codes (String.◌∷◌ c s) = code c ∷ codes s

is_space : ℕ → Bool
is_space c = c == 32 || (leb 9 c && leb c 13)

lower_code : ℕ → ℕ
lower_code c = if leb b'A' c && leb c b'Z' then c + 32 else c

-- strings.ToLower
unfoldable pub to_lower : Text → Text
unfolding lower_code
to_lower [] = []
to_lower (c ∷ cs) = lower_code c ∷ to_lower cs

upper_code : ℕ → ℕ
upper_code c = if leb b'a' c && leb c b'z' then c - 32 else c

-- strings.ToUpper
unfoldable pub to_upper : Text → Text
unfolding upper_code
to_upper [] = []
to_upper (c ∷ cs) = upper_code c ∷ to_upper cs

-- strings.EqualFold
unfoldable pub equal_fold : Text → Text → Bool
unfolding to_lower
equal_fold a b = to_lower a == to_lower b

trim_left : Text → Text
unfolding is_space
trim_left [] = []
trim_left (c ∷ cs) = let rest = trim_left cs in if is_space c then rest else c ∷ cs

drop_space : ℕ → Text → Text
unfolding is_space
drop_space c [] = if is_space c then [] else c ∷ []
drop_space c (d ∷ ds) = c ∷ d ∷ ds

trim_right : Text → Text
unfolding drop_space
trim_right [] = []
trim_right (c ∷ cs) = drop_space c (trim_right cs)

-- strings.TrimSpace
unfoldable pub trim_space : Text → Text
unfolding trim_left trim_right
trim_space s = trim_right (trim_left s)

unfoldable pub has_prefix : Text → Text → Bool
has_prefix s [] = true
has_prefix [] (p ∷ ps) = false
has_prefix (c ∷ cs) (p ∷ ps) = c == p && has_prefix cs ps

-- strings.CutPrefix, `none` where the prefix is not there
unfoldable pub cut_prefix : Text → Text → Option Text
cut_prefix s [] = some s
cut_prefix [] (p ∷ ps) = none
cut_prefix (c ∷ cs) (p ∷ ps) = let rest = cut_prefix cs ps in if c == p then rest else none

unfoldable pub has_suffix : Text → Text → Bool
has_suffix [] suffix = suffix == []
has_suffix (c ∷ cs) suffix = c ∷ cs == suffix || has_suffix cs suffix

-- Go's `<` on strings
unfoldable pub text_ltb : Text → Text → Bool
text_ltb [] [] = false
text_ltb [] (d ∷ ds) = true
text_ltb (c ∷ cs) [] = false
text_ltb (c ∷ cs) (d ∷ ds) = ltb c d || (c == d && text_ltb cs ds)

-- memory.go: norm
unfoldable pub norm : Text → Text
unfolding to_lower trim_space
norm e = to_lower (trim_space e)

abbrev pub u64 : ℕ
u64 = 2 ^ 64

-- The loop of strconv.ParseUint in base 10.
parse_digits : ℕ → Text → Option ℕ
parse_digits n [] = some n
parse_digits n (c ∷ cs) =
    let rest = parse_digits (n * 10 + (c - b'0')) cs in
    if leb b'0' c && leb c b'9' then rest else none

-- strconv.ParseUint(s, 10, 64), `none` for its errors
unfoldable pub parse_uint : Text → Option ℕ
unfolding parse_digits
parse_uint [] = none
parse_uint (c ∷ cs) = elim (parse_digits 0 (c ∷ cs)) [
  | none ↦ none
  | some n ↦ if ltb n u64 then some n else none
]

-- The digits of a number in front of a text; `fuel` bounds their count.
emit_digits : ℕ → ℕ → Text → Text
emit_digits zero n out = out
emit_digits (suc fuel) n out =
    let more = emit_digits fuel (n / 10) ((b'0' + n % 10) ∷ out) in
    if ltb n 10 then (b'0' + n) ∷ out else more

-- strconv.FormatUint(n, 10): a 64-bit number has at most 20 digits.
unfoldable pub format_uint : ℕ → Text
unfolding emit_digits
format_uint n = emit_digits 20 n []

-- len of a Go string, in bytes of UTF-8
abbrev utf8_width : ℕ → ℕ
utf8_width c = if ltb c 128 then 1 else (if ltb c 2048 then 2 else (if ltb c 65536 then 3 else 4))

unfoldable pub byte_length : Text → ℕ
byte_length [] = 0
byte_length (c ∷ cs) = utf8_width c + byte_length cs

-- memory.go: idStr
unfoldable pub id_str : ℕ → Text
unfolding format_uint
id_str id = format_uint id

-- memory.go: parseID, `none` for its false result
unfoldable pub parse_id : Text → Option ℕ
unfolding parse_uint
parse_id s = elim (parse_uint s) [ none ↦ none | some n ↦ if n == 0 then none else some n ]

-- memory.go: parseUserID
unfoldable pub parse_user_id : Text → ℕ
unfolding parse_id
parse_user_id s = if s == [] then 0 else elim (parse_id s) [ none ↦ 0 | some n ↦ n ]

-- memory.go: userIDStr
unfoldable pub user_id_str : ℕ → Text
unfolding id_str
user_id_str id = if id == 0 then [] else id_str id
