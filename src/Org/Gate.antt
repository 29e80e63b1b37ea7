-- ===== src/Org/Gate.antt =====
-- orgs_handlers.go: the gates that a request of the organization endpoints passes, in order. A gate
-- lets a value through or answers the request itself; an answer leaves the store as it is.
use go_auth_x.Base.{
  Bool, Option, [], arith, false, if◌then◌else◌, leb, list_eq, nat_eq, none, not, refl, some, true,
  ℕ, ◌-◌, ◌==◌, ◌≡◌,
}
use go_auth_x.Memory.Audits.{record_audit}
use go_auth_x.Memory.Orgs.{org_role}
use go_auth_x.Memory.Store.{Store}
use go_auth_x.Memory.Users.{user_by_sub}
use go_auth_x.Org.{is_manager, valid_org_role}
use go_auth_x.Session.{SessionClaims, mint_session_with}
use go_auth_x.Text.{Bytes, Text, trim_space}
use go_auth_x.Types.{AuthUser, Error, Result, Time, err, no_org, not_org_member, ok}

-- What a request is answered: a status, and the session cookie that is set.
pub record Reply : Type 0 where
  pub status : ℕ
  pub cookie : Option SessionClaims

pub data Gate {ℓ} (A : Type ℓ) : Type ℓ where
  stop : Reply → Gate A
  go : A → Gate A

abbrev pub deny {ℓ} : {A : Type ℓ} → ℕ → Gate A
deny status = stop (record { status = status; cookie = none })

infixl 5 ◌>>=◌ ◌>>◌
abbrev pub ◌>>=◌ {ℓ κ} : {A : Type ℓ} {B : Type κ} → Gate A → (A → Gate B) → Gate B
stop r >>= f = stop r
go a >>= f = f a

abbrev pub ◌>>◌ {ℓ} : {B : Type ℓ} → Gate (Unit {0}) → Gate B → Gate B
m >> k = m >>= λ _. k

abbrev pub deny_if : Bool → ℕ → Gate (Unit {0})
deny_if true status = deny status
deny_if false status = go tt

abbrev pub answer : Store → Gate (Store × Reply) → Store × Reply
answer s (stop r) = (s, r)
answer s (go a) = a

abbrev pub done : Store → Option SessionClaims → Gate (Store × Reply)
done s cookie = go (s, record { status = 200; cookie = cookie })

-- A session with its user and the role that he has now.
pub record Actor : Type 0 where
  pub claims : SessionClaims
  pub user : AuthUser
  pub role : Text

-- orgActor; `session` is what sessionOf returns
unfoldable pub org_actor : Store → Option SessionClaims → Gate (SessionClaims × AuthUser)
org_actor s none = deny 401
org_actor s (some sc) = elim (user_by_sub s sc.subject) [ err _ ↦ deny 401 | ok u ↦ go (sc, u) ]

-- The answer to an error of OrgRole about the actor; the sentinels are denials
abbrev pub refuse_actor : Error → ℕ
refuse_actor not_org_member = 403
refuse_actor no_org = 403
refuse_actor _ = 500

-- The answer to an error of OrgRole about the target
abbrev pub refuse_target : Error → ℕ
refuse_target not_org_member = 404
refuse_target no_org = 404
refuse_target _ = 500

abbrev pub role_or : (Error → ℕ) → Result Text → Gate Text
role_or refuse (ok role) = go role
role_or refuse (err e) = deny (refuse e)

-- activeOrgRole
unfoldable pub active_org_role : Store → Option SessionClaims → Gate Actor
unfolding org_actor
active_org_role s session = do
  (sc, u) ← org_actor s session
  deny_if (sc.org == []) 403
  role ← role_or refuse_actor (org_role s sc.org u.id)
  go (record { claims = sc; user = u; role = role })

-- activeOrgManager
unfoldable pub active_org_manager : Store → Option SessionClaims → Gate Actor
unfolding active_org_role
active_org_manager s session = do
  actor ← active_org_role s session
  deny_if (not (is_manager actor.role)) 403
  go actor

-- paramID
unfoldable pub param_id : Text → Gate Text
param_id raw = do let id = trim_space raw; deny_if (id == []) 400; go id

-- normOrgRole
unfoldable pub norm_org_role : Text → Text → Gate Text
norm_org_role raw default = do
  let trimmed = trim_space raw
  let role = if trimmed == [] then default else trimmed
  deny_if (not (valid_org_role role)) 400
  go role

-- remintWithOrg: the cookie with another active organization and the time that is left; nothing
-- where the session has no end or is over, or the cookie cannot be signed
unfoldable pub remint_with_org : Bytes → SessionClaims → Text → Text → Time → Option SessionClaims
unfolding mint_session_with
remint_with_org secret sc org role now = elim sc.expires_at [
  | none ↦ none
  | some end ↦
      if leb end now
      then none
      else mint_session_with secret (record sc { org = org; org_role = role }) sc.subject now
          (end - now)
]

-- orgAudit
abbrev pub org_audit : Store → Text → Time → Store
org_audit s user_id now = record_audit s user_id [] true now

-- A property of the store that the request starts with holds at the end if it holds wherever the
-- rest of the gates lets the request through.
pub answer_bind {ℓ κ} :
    {A : Type ℓ} (P : Store → Type κ) (s : Store) (m : Gate A) (f : A → Gate (Store × Reply))
    → P s
    → ((a : A) → m ≡ go a → P (answer s (f a)).0)
    → P (answer s (m >>= f)).0
answer_bind P s (stop r) f h k = h
answer_bind P s (go a) f h k = k a refl

pub deny_if-go : (b : Bool) (status : ℕ) → deny_if b status ≡ go tt → b ≡ false
deny_if-go true status h = ground arith
deny_if-go false status h = refl

pub role_or-go :
    (refuse : Error → ℕ) (r : Result Text) (role : Text) → role_or refuse r ≡ go role → r ≡ ok role
role_or-go refuse (ok x) role h = ground arith
role_or-go refuse (err e) role h = ground arith
