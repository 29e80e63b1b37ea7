-- ===== src/Org/Joining.antt =====
-- orgs_handlers.go: invitations. The mailer, the limiter and the random token are the caller's:
-- whether they are there, admit the request or succeed is an argument.
pub mod Kept
use go_auth_x.Base.{
  Bool, List, Option, [], any, false, if◌then◌else◌, keep, length, list_eq, ltb, nat_eq, none, not,
  some, suc, true, zero, ℕ, ◌!=◌, ◌&&◌, ◌*◌, ◌+◌, ◌==◌, ◌||◌, ◌∷◌,
}
use go_auth_x.Memory.Audits.{record_audit}
use go_auth_x.Memory.Invites.{
  consume_org_invite, create_org_invite, peek_org_invite, revoke_org_invite,
}
use go_auth_x.Memory.Listings.{list_org_invites}
use go_auth_x.Memory.Orgs.{org_by_id, org_role, set_org_member}
use go_auth_x.Memory.Store.{Store}
use go_auth_x.Memory.TwoFactor.Replay.{claims}
use go_auth_x.Memory.Users.{set_email_verified, user_by_email, user_by_sub}
use go_auth_x.Org.{member, owner}
use go_auth_x.Org.Gate.{
  Gate, Reply, active_org_manager, answer, deny, deny_if, done, go, norm_org_role, org_audit,
  param_id, remint_with_org, ◌>>=◌, ◌>>◌,
}
use go_auth_x.Session.{SessionClaims, second}
use go_auth_x.Text.{Bytes, Text, byte_length, to_lower, trim_space}
use go_auth_x.Types.{AuthUser, Org, OrgInvite, Result, Time, err, not_org_member, ok}

-- normEmail of emails.go
unfoldable pub norm_email : Text → Text
norm_email e = to_lower (trim_space e)

index_of : ℕ → Text → Option ℕ
index_of c [] = none
index_of c (d ∷ ds) =
    if d == c then some 0 else elim (index_of c ds) [ none ↦ none | some i ↦ some (suc i) ]

drop : ℕ → Text → Text
drop zero s = s
drop (suc n) [] = []
drop (suc n) (c ∷ cs) = drop n cs

abbrev is_blank_byte : ℕ → Bool
is_blank_byte c = c == 32 || (c == 9 || (c == 13 || c == 10))

-- validEmail of emails.go
unfoldable pub valid_email : Text → Bool
unfolding index_of drop byte_length
valid_email e =
    if e == [] || (ltb 254 (byte_length e) || any is_blank_byte e)
    then false
    else elim (index_of b'@' e) [
      | none ↦ false
      | some i ↦
          ltb 0 i
          && (ltb (i + 1) (length e)
              && (length (keep (λ c. c == b'@') e) == 1 && any (λ c. c == b'.') (drop i e)))
    ]

-- ttlInvite, seven days
abbrev pub ttl_invite : ℕ
ttl_invite = 604800 * second

abbrev is_member_at : Store → Text → Text → Bool
is_member_at s org_id email = elim (user_by_email s email) [
  | err _ ↦ false
  | ok u ↦ elim (org_role s org_id u.id) [ ok _ ↦ true | err _ ↦ false ]
]

abbrev or_fail {ℓ} : {A : Type ℓ} → Result A → Gate A
or_fail (ok a) = go a
or_fail (err _) = deny 500

-- OrgInviteCreate behind its gates: the record is kept where the mail cannot be sent
unfoldable pub send_invite :
    Store → Text → AuthUser → Text → Text → Bytes → Bool → Time → Store × Reply
send_invite s org_id u email role hash sent now = answer s do
  o ← or_fail (org_by_id s org_id)
  let (s', created) = create_org_invite s o.id email role u.email hash (now + ttl_invite) now
  inv ← or_fail created
  (if sent
      then done (org_audit s' u.id now) none
      else go (s', record { status = 500; cookie = none }))

-- OrgInviteCreate
unfoldable pub org_invite_create :
    Store → Option SessionClaims → Bool → Text → Text → Bool → Bytes → Bool → Time → Store × Reply
unfolding active_org_manager norm_email valid_email norm_org_role send_invite
org_invite_create s session mailer raw_email raw_role allowed hash sent now = answer s do
  actor ← active_org_manager s session
  deny_if (not mailer) 501
  let email = norm_email raw_email
  deny_if (not (valid_email email)) 400
  role ← norm_org_role raw_role member
  deny_if (role == owner && actor.role != owner) 403
  deny_if (not allowed) 429
  deny_if (is_member_at s actor.claims.org email) 409
  go (send_invite s actor.claims.org actor.user email role hash sent now)

-- OrgInviteList
unfoldable pub org_invite_list : Store → Option SessionClaims → Time → Gate (List OrgInvite)
unfolding active_org_manager list_org_invites
org_invite_list s session now = do
  actor ← active_org_manager s session
  or_fail (list_org_invites s actor.claims.org now)

-- OrgInviteRevoke
unfoldable pub org_invite_revoke : Store → Option SessionClaims → Text → Time → Store × Reply
unfolding active_org_manager param_id
org_invite_revoke s session raw_id now = answer s do
  actor ← active_org_manager s session
  id ← param_id raw_id
  done (org_audit (revoke_org_invite s actor.claims.org id) actor.user.id now) none

-- What OrgInviteAccept redirects to: a message at the login page, or the page behind it.
pub data Landing : Type 0 where
  refused : Landing
  sign_in : Landing
  joined : Text → Option SessionClaims → Landing

abbrev pub grant : Store → Text → Text → Result Text → Text → Store × Result Text
grant s org_id uid (ok role) invited_role = (s, ok role)
grant s org_id uid (err not_org_member) invited_role =
    let (s', r) = set_org_member s org_id uid invited_role in
    (s', elim r [ ok _ ↦ ok invited_role | err e ↦ err e ])
grant s org_id uid (err e) invited_role = (s, err e)

abbrev pub land :
    Bytes → SessionClaims → AuthUser → Text → Store × Result Text → Time → Store × Landing
land secret sc u org_id (s, err e) now = (record_audit s u.id u.email false now, refused)
land secret sc u org_id (s, ok role) now = (
  org_audit (set_email_verified s u.id true now) u.id now,
  joined role (remint_with_org secret sc org_id role now),
)

-- OrgInviteAccept behind the checks of the account: the invitation is used up before the grant
unfoldable pub redeem_invite :
    Store → Bytes → SessionClaims → AuthUser → Org → Bytes → OrgInvite → Time → Store × Landing
unfolding remint_with_org
redeem_invite s secret sc u o hash inv now =
    let (s', used) = consume_org_invite s hash now in
    elim used [
      | err _ ↦ (s', refused)
      | ok _ ↦ land secret sc u o.id (grant s' o.id u.id (org_role s' o.id u.id) inv.role) now
    ]

-- OrgInviteAccept; `token` is the query's token and `hash` its hash
unfoldable pub org_invite_accept :
    Store → Bytes → Option SessionClaims → Text → Bytes → Time → Store × Landing
unfolding norm_email redeem_invite
org_invite_accept s secret session token hash now =
    if token == [] then (s, refused) else (elim session [
      | none ↦ (s, sign_in)
      | some sc ↦ elim (user_by_sub s sc.subject) [
        | err _ ↦ (s, refused)
        | ok u ↦ elim (peek_org_invite s hash now) [
          | err _ ↦ (s, refused)
          | ok inv ↦
              if norm_email u.email != norm_email inv.email
              then (s, refused)
              else (elim (org_by_id s inv.org_id) [
                | err _ ↦ (s, refused)
                | ok o ↦ redeem_invite s secret sc u o hash inv now
              ])
        ]
      ]
    ])
