-- ===== src/Password.antt =====
-- password.go and breach.go: which passwords are refused. The breach checker that may be configured
-- is an argument; it answers nothing where it fails.
use go_auth_x.Base.{
  Bool, List, Option, [], contains, if◌then◌else◌, leb, list_eq, ltb, nat_eq, none, some, ℕ, ◌&&◌,
  ◌==◌, ◌||◌, ◌∷◌,
}
use go_auth_x.Text.{Text, byte_length, codes, has_prefix, to_lower}

-- Why a password is refused.
pub data Weakness : Type 0 where
  too_short too_long too_common holds_email unscreened breached : Weakness

-- commonPasswords
abbrev pub common_passwords : List Text
common_passwords =
    codes "1234567890"
    ∷ codes "12345678901"
    ∷ codes "123456789012"
    ∷ codes "qwertyuiop"
    ∷ codes "password123"
    ∷ codes "password1234"
    ∷ codes "qwerty12345"
    ∷ codes "1q2w3e4r5t"
    ∷ codes "1qaz2wsx3edc"
    ∷ codes "iloveyou123"
    ∷ codes "welcome123"
    ∷ codes "administrator"
    ∷ codes "passw0rd123"
    ∷ codes "letmein123"
    ∷ codes "trustno1234"
    ∷ []

-- What is before the first byte `c`, nothing where there is none.
unfoldable pub before_byte : ℕ → Text → Option Text
before_byte c [] = none
before_byte c (d ∷ ds) =
    let rest = before_byte c ds in
    if d == c then some [] else (elim rest [ none ↦ none | some head ↦ some (d ∷ head) ])

-- emailLocalPart
unfoldable pub email_local_part : Text → Text
unfolding before_byte
email_local_part email = elim (before_byte b'@' email) [
  | none ↦ email
  | some local ↦ if local == [] then email else local
]

-- strings.Contains
unfoldable pub has_infix : Text → Text → Bool
has_infix [] part = part == []
has_infix (c ∷ cs) part = has_prefix (c ∷ cs) part || has_infix cs part

-- passwordStrengthError
unfoldable pub password_strength_error : Text → Text → Option Weakness
unfolding email_local_part has_infix byte_length
password_strength_error pw email =
    if ltb (byte_length pw) 10
    then some too_short
    else (if ltb 72 (byte_length pw)
        then some too_long
        else (if contains common_passwords (to_lower pw)
            then some too_common
            else let local = email_local_part email in
              if leb 4 (byte_length local) && has_infix (to_lower pw) (to_lower local)
              then some holds_email
              else none))

abbrev pub screen : Option (Text → Option Bool) → Text → Option Weakness
screen none pw = none
screen (some pwned) pw = elim (pwned pw) [
  | none ↦ some unscreened
  | some hit ↦ if hit then some breached else none
]

-- passwordPolicyError
unfoldable pub password_policy_error : Option (Text → Option Bool) → Text → Text → Option Weakness
unfolding password_strength_error
password_policy_error breach pw email = elim (password_strength_error pw email) [
  | some w ↦ some w
  | none ↦ screen breach pw
]

-- What the password handlers call: the breach checker, if there is one, and bcrypt. A hash that was
-- made at a lower cost is outdated.
pub record PasswordTools : Type 0 where
  pub breach : Option (Text → Option Bool)
  pub hash_password : Text → Option Text
  pub compare_password : Text → Text → Bool
  pub is_outdated : Text → Bool
