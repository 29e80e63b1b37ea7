-- ===== src/Memory/Erase/Cascade.antt =====
-- What is left of a user after an erasure, and what of the others.
use go_auth_x.Base.{
  Bool-cases, [], any, arith, false, inl, inr, list_beq_iff, list_eq, map, nat_eq, none, some, true,
  ℕ, ◌!=◌, ◌&&◌, ◌++◌, ◌<◌, ◌==◌, ◌≡◌, ◌≢◌,
}
use go_auth_x.Map.{Map, change_all, get, get-change_all, get-delete, get-delete_if}
use go_auth_x.Memory.Erase.{anonymize, delete_user, delete_user_cascade, email_of, tombstone}
use go_auth_x.Memory.Store.{EmailOtp, OrgInviteRec, SessionRec, Store, StoredPasskey}
use go_auth_x.Memory.Users.{with_id}
use go_auth_x.Text.{Text, codes, has_suffix, id_str, parse_id, u64}
use go_auth_x.Text.Decimal.{id_str-injective, parse_id_bounds}

-- Of the user `n` of `s`, the store `s'` has nothing left but revoked sessions, audit rows without an
-- address, and what the OAuth provider keeps; nor an emailed code or an invitation for his address.
pub record IsErased (n : ℕ) (s s' : Store) : Type 0 where
  pub user : get s'.users n ≡ none
  pub password : get s'.passwords n ≡ none
  pub totp : get s'.totp n ≡ none
  pub recovery : get s'.recovery n ≡ none
  pub groups : get s'.memberships n ≡ none
  pub org_roles : (o : ℕ) (set : Map ℕ Text) → get s'.org_members o ≡ some set → get set n ≡ none
  pub passkeys : (k : ℕ) (pk : StoredPasskey) → get s'.passkeys k ≡ some pk → pk.user_id ≢ n
  pub identities : (k : Text) (uid : ℕ) → get s'.oauth k ≡ some uid → uid ≢ n
  pub tokens : any (λ t. t.user_id == n) s'.tokens ≡ false
  pub sessions :
      (sid : Text) (r : SessionRec)
      → get s'.sessions sid ≡ some r
      → r.rec.user_id ≡ id_str n
      → r.revoked ≡ true
  pub audits : any (λ a. a.user_id == n && a.email != []) s'.audits ≡ false
  pub otps :
      (k : Text) (o : EmailOtp)
      → email_of (get s.users n) ≢ []
      → get s'.otps k ≡ some o
      → has_suffix k (codes "|" ++ email_of (get s.users n)) ≡ false
  pub invites :
      (k : ℕ) (rec : OrgInviteRec)
      → email_of (get s.users n) ≢ []
      → get s'.org_invites k ≡ some rec
      → rec.inv.email ≢ email_of (get s.users n)
  pub grants : s'.oauth_grants ≡ s.oauth_grants
  pub access : s'.oauth_access ≡ s.oauth_access
  pub refresh : s'.oauth_refresh ≡ s.oauth_refresh

module _ (s : Store) (n : ℕ) where
  abbrev address : Text
  address = email_of (get s.users n)

-- What belongs to the user `m` is the same in both stores.
pub record IsKept (m : ℕ) (s s' : Store) : Type 0 where
  pub user : get s'.users m ≡ get s.users m
  pub password : get s'.passwords m ≡ get s.passwords m
  pub totp : get s'.totp m ≡ get s.totp m
  pub recovery : get s'.recovery m ≡ get s.recovery m
  pub groups : get s'.memberships m ≡ get s.memberships m
  pub passkeys :
      (k : ℕ) (pk : StoredPasskey)
      → get s.passkeys k ≡ some pk
      → pk.user_id ≡ m
      → get s'.passkeys k ≡ some pk
  pub identities : (k : Text) → get s.oauth k ≡ some m → get s'.oauth k ≡ some m
  pub sessions :
      (sid : Text) (r : SessionRec)
      → get s.sessions sid ≡ some r
      → r.rec.user_id ≡ id_str m
      → get s'.sessions sid ≡ some r

module _ (s : Store) (n m : ℕ) (other : m ≢ n) (pm : 0 < m) (hm : m < u64) (pn : 0 < n)
    (hn : n < u64) where
  kept_sessions :
      (sid : Text) (r : SessionRec)
      → get s.sessions sid ≡ some r
      → r.rec.user_id ≡ id_str m
      → get (change_all (λ _. tombstone (id_str n)) s.sessions) sid ≡ some r
  kept_sessions sid r h e = ground (
    arith,
    get-change_all (λ _. tombstone (id_str n)) s.sessions sid,
    list_beq_iff r.rec.user_id (id_str n),
    id_str-injective m n pm hm pn hn,
  )

  kept :
      (otps : Map Text EmailOtp) (invites : Map ℕ OrgInviteRec)
      → IsKept m s (record (delete_user_cascade s n) {
        otps = otps;
        org_invites = invites;
        audits = map (anonymize n) s.audits;
      })
  unfolding delete_user_cascade
  kept otps invites = record {
    user = ground (arith, get-delete s.users n m);
    password = ground (arith, get-delete s.passwords n m);
    totp = ground (arith, get-delete s.totp n m);
    recovery = ground (arith, get-delete s.recovery n m);
    groups = ground (arith, get-delete s.memberships n m);
    passkeys = λ k pk h e. ground (arith, get-delete_if (λ _ p. p.user_id == n) s.passkeys k);
    identities = λ k h. ground (arith, get-delete_if (λ _ u. u == n) s.oauth k);
    sessions = kept_sessions;
  }

-- DeleteUser leaves another user's row, credentials, groups, links and sessions as they were.
pub delete_user-IsKept :
    (s : Store) (user_id : Text) (n m : ℕ)
    → parse_id user_id ≡ some n
    → m ≢ n
    → 0 < m
    → m < u64
    → IsKept m s (delete_user s user_id)
unfolding delete_user
delete_user-IsKept s user_id n m h other pm hm =
    let (pn, hn) = parse_id_bounds user_id n h in
    elim (Bool-cases (email_of (get s.users n) != [])) [
      | inl b ↦ rw (h, with_id) (rw b (kept s n m other pm hm pn hn _ _))
      | inr b ↦ rw (h, with_id) (rw b (kept s n m other pm hm pn hn s.otps s.org_invites))
    ]
