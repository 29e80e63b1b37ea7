-- ===== src/Tests/Login.antt =====
-- The theorems on signing in, at an account with a password, a second factor and a mailed token.
use go_auth_x.Base.{
  List, [], arith, distinct, false, first, keep, list_beq, list_eq, nat_eq, none, refl, some,
  sort_by, true, ◌*◌, ◌+◌, ◌==◌, ◌∷◌, ◌≡◌, ◌≢◌,
}
use go_auth_x.Examples.{ann, ann_mail, one_user}
use go_auth_x.Login.{
  Authorizer, Client, Identity, LoginConfig, PendingClaims, SignIn, blank_claims, pending,
  pending_ttl, user_has_totp,
}
use go_auth_x.Login.Factors.{FactorTools, current_auth_user, totp_confirm}
use go_auth_x.Login.Links.{redeem_and_login}
use go_auth_x.Login.Lockout.{attempts, five_failures_lock}
use go_auth_x.Login.Passwords.{is_owner_email, password_login}
use go_auth_x.Login.Rewind.{totp_confirm_rewinds}
use go_auth_x.Login.SignIns.{SignInCall, by_password, sign_in, sign_in-IsGated}
use go_auth_x.Login.Stale.{redeem_marks_row}
use go_auth_x.Map.{empty, find_value, get, put}
use go_auth_x.Map.Listing.{collect}
use go_auth_x.Memory.Audits.{recent_failures}
use go_auth_x.Memory.Store.{PasswordEntry, Store, Token, TotpRec}
use go_auth_x.Memory.Tokens.{consume_token}
use go_auth_x.Memory.TwoFactor.{claim_totp_step}
use go_auth_x.Memory.Upsert.{authorize}
use go_auth_x.Memory.Users.{
  create_local_user, find_by_email, find_by_sub, password_hash, user_by_email, user_by_sub, view,
}
use go_auth_x.Org.Gate.{Gate, answer, deny}
use go_auth_x.Org.Joining.{norm_email}
use go_auth_x.Password.{PasswordTools}
use go_auth_x.Session.{SessionClaims, second}
use go_auth_x.Text.{Bytes, Text, codes, id_str, norm, parse_id, to_lower, trim_space, user_id_str}
use go_auth_x.Totp.{first_four, hotp, last, match_step, padded, totp_validate, uint32_at, unix}
use go_auth_x.Types.{AuthUser, Time, ok}

abbrev office : LoginConfig
office = record {
  owner_email = codes "owner@example.org";
  session_secret = codes "0123456789abcdef0123456789abcdef";
  hash_token = λ t. t;
}

abbrev laptop : Client
laptop = record { sid = codes "s9"; agent = []; ip = [] }

abbrev tools : PasswordTools
tools = record {
  breach = none;
  hash_password = λ pw. some pw;
  compare_password = λ hash pw. hash == pw;
  is_outdated = λ hash. false;
}

abbrev mac : Bytes → Bytes → Bytes
mac key message =
    1 ∷ 2 ∷ 3 ∷ 4 ∷ 5 ∷ 6 ∷ 7 ∷ 8 ∷ 9 ∷ 10 ∷ 11 ∷ 12 ∷ 13 ∷ 14 ∷ 15 ∷ 16 ∷ 17 ∷ 18 ∷ 19 ∷ 3 ∷ []

abbrev factor_tools : FactorTools
factor_tools = record { mac = mac; b32_decode = λ t. some t; sha256 = λ t. t }

-- Half a minute after the start of the year 1970: the second step.
abbrev moment : Time
moment = 62135596830 * second

-- A confirmed factor, of which the step after that of the moment is claimed.
abbrev row : TotpRec
row = record { secret = codes "JBSW"; enabled = true; last_step = 2 }

abbrev protected : Store
protected = record one_user { totp = put empty 1 row }

abbrev ann_login : Identity
ann_login = record {
  subject = codes "local:a1";
  email = codes "ann@example.org";
  name = codes "Ann";
  email_verified = true;
  groups = [];
}

abbrev stored : PasswordEntry
stored = record { hash = codes "right"; algo = codes "bcrypt" }

abbrev with_stored : Store
with_stored = record one_user { passwords = put empty 1 stored }

-- An authorizer that writes the store, as Authorize of the reference store does.
abbrev store_authorizer : Authorizer
store_authorizer = some λ id t. authorize t id.subject id.email id.name id.email_verified 7

-- An account with a verified address, a password and a confirmed factor.
abbrev guarded : Store
guarded = record protected {
  users = put empty 1 (record ann { email_verified = true });
  passwords = put empty 1 stored;
}

abbrev right_password : SignInCall
right_password =
    by_password (some (record { email = ann_mail; password = codes "right"; remember = false }))
      true false []

abbrev entered : Store × Gate SignIn
entered = sign_in office store_authorizer tools (λ t. t) laptop 7 right_password guarded

-- The cookie that the right password sets.
abbrev half : PendingClaims
half = record {
  subject = codes "local:a1";
  email = codes "ann@example.org";
  name = codes "Ann";
  groups = [];
  role = [];
  remember = false;
  first_factor_cred = [];
  audience = codes "authx:2fa-pending";
  issued_at = 7;
  expires_at = 7 + pending_ttl;
}

sign_in-IsGated_example :
    (u : AuthUser) × (user_by_sub entered.0 (codes "local:a1") ≡ ok u)
    × (user_has_totp entered.0 u.id ≡ true)
unfolding sign_in list_beq to_lower trim_space keep create_local_user find_value empty put norm
    parse_id id_str authorize sort_by collect distinct
sign_in-IsGated_example =
    sign_in-IsGated office store_authorizer tools (λ t. t) laptop 7 right_password guarded
      (pending half) refl

abbrev guesses : List (Text × Time)
guesses =
    (codes "a", 10) ∷ (codes "b", 11) ∷ (codes "c", 12) ∷ (codes "d", 13) ∷ (codes "e", 14) ∷ []

ordinary_address : is_owner_email office (norm_email ann_mail) ≡ false
unfolding is_owner_email norm_email trim_space to_lower list_beq
ordinary_address = refl

five_failures_lock_example :
    password_login office none tools laptop
      (some (record { email = ann_mail; password = codes "right"; remember = false }))
      true
      true
      []
      20
      (attempts office none tools laptop ann_mail []
        (view ann)
        stored
        ordinary_address
        with_stored
        guesses)
    ≡ (
      attempts office none tools laptop ann_mail []
          (view ann)
          stored
          ordinary_address
          with_stored
          guesses,
      deny 429,
    )
unfolding user_by_email find_by_email find_value password_hash parse_id get put empty norm
    is_owner_email norm_email create_local_user id_str recent_failures trim_space to_lower list_beq
    keep
five_failures_lock_example =
    five_failures_lock office none tools laptop ann_mail [] (view ann) stored ordinary_address
      with_stored guesses 20 (codes "right") refl refl refl
      (
        refl,
        ground arith,
        (refl, ground arith, (refl, ground arith, (refl, ground arith, (refl, ground arith, tt)))),
      )
      (ground arith)

abbrev ann_session : SessionClaims
ann_session = record blank_claims { subject = codes "local:a1"; audience = codes "authx:session" }

totp_confirm_rewinds_example :
    let t =
      (totp_confirm factor_tools
        (some ann_session)
        (some (codes "438087"))
        []
        moment
        protected).0 in
    ((claim_totp_step protected (codes "1") 2).1 ≡ ok false)
    × ((claim_totp_step t (codes "1") 2).1 ≡ ok true)
unfolding current_auth_user user_by_sub find_value empty put list_beq parse_id get totp_validate
    match_step hotp last uint32_at first_four padded unix trim_space find_by_sub create_local_user
    id_str
totp_confirm_rewinds_example =
    totp_confirm_rewinds factor_tools (some ann_session) (codes "438087") [] moment protected
      (view ann) 1 1 row refl refl refl (λ e. ground arith) refl 2 (ground arith) (ground arith)

-- A token that was mailed to an address which the account has no more.
abbrev stale : Token
stale = record {
  purpose = codes "magic_login";
  user_id = 1;
  email = codes "old@example.org";
  hash = codes "t";
  expires_at = 90;
  consumed_at = none;
}

abbrev mailed : Store
mailed = record one_user { tokens = stale ∷ [] }

redeem_marks_row_example :
    let (t, answer) =
      redeem_and_login office store_authorizer laptop
        (codes "magic_login")
        true
        (codes "t")
        false
        7
        mailed in
    (answer ≡ deny 302)
    × (get t.users 1 ≡ some (record ann { email_verified = true; updated_at = 7 }))
    × (ann.email ≢ norm (codes "old@example.org"))
unfolding consume_token list_beq parse_id get create_local_user put empty first user_id_str
    find_value user_by_email find_by_email norm
redeem_marks_row_example =
    redeem_marks_row office store_authorizer laptop (codes "magic_login") (codes "t") false 7 mailed
      (consume_token mailed (codes "magic_login") (codes "t") 7).0
      (record { user_id = codes "1"; email = codes "old@example.org" }) 1 ann (λ e. ground arith)
      refl refl refl refl
