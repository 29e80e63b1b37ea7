-- ===== src/Tests/Organizations.antt =====
-- The theorems on groups, organizations, invitations and OAuth records at small stores.
use go_auth_x.Base.{[], arith, false, list_eq, nat_eq, none, refl, some, ◌∷◌, ◌≡◌}
use go_auth_x.Examples.{two_users}
use go_auth_x.Map.{empty, get, get-empty, get-put, put}
use go_auth_x.Memory.ApiKeys.{create_org_api_key}
use go_auth_x.Memory.Groups.Names.{ValidGroups}
use go_auth_x.Memory.Invites.{create_org_invite}
use go_auth_x.Memory.Invites.Pending.{IsValidInvites, OneHash}
use go_auth_x.Memory.Orgs.{delete_org}
use go_auth_x.Memory.Orgs.Deletion.{noncanonical_key_survives}
use go_auth_x.Memory.Store.{ApiKey, OrgInviteRec, OrgRec, Store, new_store, next_id}
use go_auth_x.OauthTypes.{OauthRefreshToken}
use go_auth_x.Text.{codes, id_str, parse_id}
use go_auth_x.Text.Decimal.{parse_id-id_str}
use go_auth_x.Types.{Group}

no_groups-ValidGroups : ValidGroups new_store
no_groups-ValidGroups = record {
  issued = λ k g h. absurd (ground (arith, get-empty {V = Group} k));
  one_name = λ j k g h e. absurd (ground (arith, get-empty {V = Group} j));
}

abbrev acme : OrgRec
acme = record { id = 1; slug = codes "acme"; name = codes "Acme"; created_at = 3; updated_at = 3 }

abbrev with_org : Store
with_org = record two_users { org_seq = 1; orgs = put empty 1 acme }

abbrev devs : Group
devs = record {
  id = codes "1";
  name = codes "devs";
  description = [];
  created_at = 3;
  updated_at = 3;
  org_id = codes "1";
}

abbrev with_group : Store
with_group = record with_org { groups = put empty 1 devs }

noncanonical_key_survives_example :
    let s' = (create_org_api_key with_org (codes "01") (codes "ci") [] [] [] (9 ∷ []) none 4).0 in
    (key : ApiKey) × (get (delete_org s' (codes "1")).apikeys (next_id with_org.api_seq) ≡ some key)
    × (key.hash ≡ 9 ∷ [])
unfolding parse_id id_str get put empty
noncanonical_key_survives_example =
    noncanonical_key_survives with_org (codes "01") (codes "1") 1 acme (codes "ci") [] [] []
      (9 ∷ []) none 4 refl refl (λ e. ground arith) refl

no_invites-IsValidInvites : IsValidInvites 0 empty
no_invites-IsValidInvites = record {
  issued = λ k a h. absurd (ground (arith, get-empty {V = OrgInviteRec} k));
  one_pending = λ j k a b h. absurd (ground (arith, get-empty {V = OrgInviteRec} j));
}

abbrev invited : Store
invited =
    (create_org_invite with_org (codes "1") (codes "cy@x.org") (codes "member") [] (8 ∷ []) 90 4).0

abbrev invitation : OrgInviteRec
invitation = record {
  inv = record {
    id = codes "1";
    org_id = codes "1";
    email = codes "cy@x.org";
    role = codes "member";
    invited_by = [];
    expires_at = 90;
    created_at = 4;
  };
  hash = 8 ∷ [];
  consumed = false;
}

abbrev with_invite : Store
with_invite = record with_org { org_invites = put empty 1 invitation }

with_invite-OneHash : OneHash with_invite
with_invite-OneHash j k a b hj hk e = ground (
  arith,
  get-put empty 1 invitation j,
  get-put empty 1 invitation k,
  get-empty {V = OrgInviteRec} j,
  get-empty {V = OrgInviteRec} k,
)

abbrev refreshable : OauthRefreshToken
refreshable = record {
  hash = codes "r";
  grant_id = codes "g";
  client_id = codes "c";
  subject = codes "local:a1";
  scopes = [];
  expires_at = 99;
  created_at = 1;
  used_at = none;
}

abbrev with_refresh : Store
with_refresh = record two_users { oauth_refresh = put empty (codes "r") refreshable }

parse_id-id_str_example : parse_id (id_str 1204) ≡ some 1204
parse_id-id_str_example = parse_id-id_str 1204 (omega arith) (omega arith)
