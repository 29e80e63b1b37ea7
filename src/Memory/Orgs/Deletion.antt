-- ===== src/Memory/Orgs/Deletion.antt =====
-- What dies with an organization.
use go_auth_x.Base.{
  Bool, List, Option, arith, beq_refl, false, list_beq_iff, list_eq, nat_eq, none, refl, some, ℕ,
  ◌==◌, ◌≡◌, ◌≢◌,
}
use go_auth_x.Map.{delete, delete_if, get, get-delete, get-delete_if, get-put}
use go_auth_x.Memory.ApiKeys.{create_org_api_key, insert_api_key}
use go_auth_x.Memory.Orgs.{delete_org, drop_org_groups}
use go_auth_x.Memory.Store.{ApiKey, OrgInviteRec, OrgRec, Store, next_id}
use go_auth_x.Memory.Users.{with_id}
use go_auth_x.Text.{Bytes, Text, id_str, parse_id}
use go_auth_x.Types.{Group, Time}

module _ (s : Store) (id : Text) (n : ℕ) (e : parse_id id ≡ some n) where
  abbrev in_org : ℕ → Bool → Bool
  in_org gid _ = elim (get s.groups gid) [ none ↦ false | some g ↦ g.org_id == id_str n ]

  delete_state : delete_org s id ≡ record s {
    orgs = delete s.orgs n;
    org_members = delete s.org_members n;
    groups = delete_if (λ _ g. g.org_id == id_str n) s.groups;
    memberships = drop_org_groups s.groups (id_str n) s.memberships;
    org_invites = delete_if (λ _ rec. rec.inv.org_id == id_str n) s.org_invites;
    apikeys = delete_if (λ _ k. k.info.org_id == id_str n) s.apikeys;
  }
  unfolding delete_org
  delete_state = rw (e, with_id) refl

-- Nothing of the organization with key `n` is left: its row, its members, and what is bound to the
-- canonical form of its identifier.
pub record IsGone (n : ℕ) (s : Store) : Type 0 where
  pub org : get s.orgs n ≡ none
  pub members : get s.org_members n ≡ none
  pub groups : (k : ℕ) (g : Group) → get s.groups k ≡ some g → g.org_id ≢ id_str n
  pub invites :
      (k : ℕ) (rec : OrgInviteRec) → get s.org_invites k ≡ some rec → rec.inv.org_id ≢ id_str n
  pub keys : (k : ℕ) (key : ApiKey) → get s.apikeys k ≡ some key → key.info.org_id ≢ id_str n

-- DeleteOrg leaves nothing that is bound to the canonical identifier of the organization.
pub delete_org-IsGone :
    (s : Store) (id : Text) (n : ℕ) → parse_id id ≡ some n → IsGone n (delete_org s id)
delete_org-IsGone s id n e = rw (delete_state s id n e) (record {
  org = ground (arith, get-delete s.orgs n n, beq_refl n);
  members = ground (arith, get-delete s.org_members n n, beq_refl n);
  groups = λ k g h q. absurd (
      ground (
        arith,
        get-delete_if (λ _ x. x.org_id == id_str n) s.groups k,
        list_beq_iff g.org_id (id_str n),
      ));
  invites = λ k rec h q. absurd (
      ground (
        arith,
        get-delete_if (λ _ x. x.inv.org_id == id_str n) s.org_invites k,
        list_beq_iff rec.inv.org_id (id_str n),
      ));
  keys = λ k key h q. absurd (
      ground (
        arith,
        get-delete_if (λ _ x. x.info.org_id == id_str n) s.apikeys k,
        list_beq_iff key.info.org_id (id_str n),
      ));
})

created_key :
    (s : Store) (org_id : Text) (n : ℕ) (o : OrgRec) (name : Text) (groups scopes : List Text)
    (prefix : Text) (hash : Bytes) (expires_at : Option Time) (now : Time)
    → parse_id org_id ≡ some n
    → get s.orgs n ≡ some o
    → (key : ApiKey) × (get
          (create_org_api_key s org_id name groups scopes prefix hash expires_at now).0.apikeys
          (next_id s.api_seq)
        ≡ some key)
      × (key.hash ≡ hash)
      × (key.info.org_id ≡ org_id)
unfolding create_org_api_key insert_api_key
created_key s org_id n o name groups scopes prefix hash expires_at now eo ho =
    let kid = next_id s.api_seq in
    let key : ApiKey = record {
      info = record {
        id = id_str kid;
        name = name;
        prefix = prefix;
        groups = groups;
        scopes = scopes;
        expires_at = expires_at;
        created_at = now;
        last_used_at = none;
        org_id = org_id;
      };
      hash = hash;
    } in
    (
      key,
      rw (eo, create_org_api_key, with_id)
          (rw ho (ground (arith, get-put s.apikeys kid key kid, beq_refl kid))),
      refl,
      refl,
    )

-- A key that was created for an organization under another spelling of its identifier, such as
-- "01" for "1", is still found by its number after the organization is deleted.
pub noncanonical_key_survives :
    (s : Store) (org_id id : Text) (n : ℕ) (o : OrgRec) (name : Text) (groups scopes : List Text)
    (prefix : Text) (hash : Bytes) (expires_at : Option Time) (now : Time)
    → parse_id org_id ≡ some n
    → parse_id id ≡ some n
    → org_id ≢ id_str n
    → get s.orgs n ≡ some o
    → let s' = (create_org_api_key s org_id name groups scopes prefix hash expires_at now).0 in
      (key : ApiKey) × (get (delete_org s' id).apikeys (next_id s.api_seq) ≡ some key)
      × (key.hash ≡ hash)
noncanonical_key_survives s org_id id n o name groups scopes prefix hash expires_at now eo ei other
      ho =
    let s' = (create_org_api_key s org_id name groups scopes prefix hash expires_at now).0 in
    let (key, g, h, q) =
      created_key s org_id n o name groups scopes prefix hash expires_at now eo ho in
    (
      key,
      rw (delete_state s' id n ei) (
          ground (
            arith,
            get-delete_if (λ _ k. k.info.org_id == id_str n) s'.apikeys (next_id s.api_seq),
            list_beq_iff key.info.org_id (id_str n),
          )),
      h,
    )
