-- ===== src/Text/Norm.antt =====
-- Normal forms of email addresses.
use go_auth_x.Base.{Bool-cases, [], ap, arith, false, inl, inr, length, refl, ℕ, ◌∷◌, ◌≡◌, ◌≤◌}
use go_auth_x.Text.{
  Text, drop_space, is_space, lower_code, norm, to_lower, trim_left, trim_right, trim_space,
}

lower_code-lower_code : (c : ℕ) → lower_code (lower_code c) ≡ lower_code c
unfolding lower_code
lower_code-lower_code c = ground arith

is_space-lower_code : (c : ℕ) → is_space (lower_code c) ≡ is_space c
unfolding is_space lower_code
is_space-lower_code c = ground arith

pub to_lower-to_lower : (s : Text) → to_lower (to_lower s) ≡ to_lower s
unfolding to_lower
to_lower-to_lower [] = refl
to_lower-to_lower (c ∷ cs) = cc (lower_code-lower_code c, to_lower-to_lower cs)

to_lower-drop_space :
    (c : ℕ) (s : Text) → to_lower (drop_space c s) ≡ drop_space (lower_code c) (to_lower s)
unfolding to_lower drop_space
to_lower-drop_space c [] = ground (arith, is_space-lower_code c)
to_lower-drop_space c (d ∷ ds) = refl

to_lower-trim_right : (s : Text) → to_lower (trim_right s) ≡ trim_right (to_lower s)
unfolding to_lower trim_right
to_lower-trim_right [] = refl
to_lower-trim_right (c ∷ cs) = cc (to_lower-drop_space c (trim_right cs), to_lower-trim_right cs)

to_lower-trim_left : (s : Text) → to_lower (trim_left s) ≡ trim_left (to_lower s)
unfolding to_lower trim_left
to_lower-trim_left [] = refl
to_lower-trim_left (c ∷ cs) = ground (arith, is_space-lower_code c, to_lower-trim_left cs)

drop_space-drop_space :
    (c : ℕ) (s : Text) → trim_right s ≡ s → trim_right (drop_space c s) ≡ drop_space c s
unfolding drop_space trim_right
drop_space-drop_space c [] h = ground arith
drop_space-drop_space c (d ∷ ds) h = ground arith

trim_right-trim_right : (s : Text) → trim_right (trim_right s) ≡ trim_right s
unfolding trim_right
trim_right-trim_right [] = refl
trim_right-trim_right (c ∷ cs) = drop_space-drop_space c (trim_right cs) (trim_right-trim_right cs)

trim_left-drop_space :
    (c : ℕ) (s : Text) → is_space c ≡ false → trim_left (drop_space c s) ≡ drop_space c s
unfolding trim_left drop_space
trim_left-drop_space c [] h = ground arith
trim_left-drop_space c (d ∷ ds) h = ground arith

length-trim_left-le : (s : Text) → length (trim_left s) ≤ length s
unfolding trim_left
length-trim_left-le [] = omega arith
length-trim_left-le (c ∷ cs) = ground (arith, length-trim_left-le cs)

trim_left_head : (c : ℕ) (cs : Text) → trim_left (c ∷ cs) ≡ c ∷ cs → is_space c ≡ false
unfolding trim_left
trim_left_head c cs h = elim (Bool-cases (is_space c)) [
  | inl e ↦ absurd (omega (arith, ap length ((rw e at h)), length-trim_left-le cs))
  | inr e ↦ e
]

trim_left-trim_right : (s : Text) → trim_left s ≡ s → trim_left (trim_right s) ≡ trim_right s
unfolding trim_left trim_right drop_space
trim_left-trim_right [] h = refl
trim_left-trim_right (c ∷ cs) h = trim_left-drop_space c (trim_right cs) (trim_left_head c cs h)

trim_left-trim_left : (s : Text) → trim_left (trim_left s) ≡ trim_left s
unfolding trim_left
trim_left-trim_left [] = refl
trim_left-trim_left (c ∷ cs) = ground (arith, trim_left-trim_left cs)

trim_space-trim_space : (s : Text) → trim_space (trim_space s) ≡ trim_space s
unfolding trim_space
trim_space-trim_space s = cc (
  trim_left-trim_right (trim_left s) (trim_left-trim_left s),
  trim_right-trim_right (trim_left s),
)

to_lower-trim_space : (s : Text) → to_lower (trim_space s) ≡ trim_space (to_lower s)
unfolding trim_space
to_lower-trim_space s = cc (to_lower-trim_right (trim_left s), to_lower-trim_left s)

-- An address in normal form is its own normal form.
pub norm-norm : (s : Text) → norm (norm s) ≡ norm s
unfolding norm
norm-norm s = cc (
  to_lower-trim_space (trim_space s),
  to_lower-to_lower (trim_space (trim_space s)),
  trim_space-trim_space s,
)
