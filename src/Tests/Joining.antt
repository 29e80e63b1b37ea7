-- ===== src/Tests/Joining.antt =====
-- The theorem on invitations, at an owner who opens an old invitation as a member.
use go_auth_x.Base.{[], false, list_beq, list_eq, nat_eq, none, refl, some, ◌∷◌, ◌≡◌}
use go_auth_x.Examples.{one_user}
use go_auth_x.Map.{empty, find, find_value, get, put}
use go_auth_x.Memory.Invites.{consume_org_invite, find_valid_invite, peek_org_invite}
use go_auth_x.Memory.Orgs.{org_role, members_of, org_by_id}
use go_auth_x.Memory.Store.{OrgInviteRec, OrgRec, Store}
use go_auth_x.Memory.Users.{create_local_user, find_by_sub, user_by_sub}
use go_auth_x.Org.{member, owner}
use go_auth_x.Org.Gate.{remint_with_org}
use go_auth_x.Org.Joining.{Landing, joined, norm_email, org_invite_accept, redeem_invite}
use go_auth_x.Org.Joining.Kept.{org_invite_accept_keeps}
use go_auth_x.Session.{SessionClaims}
use go_auth_x.Text.{codes, id_str, norm, parse_id, to_lower, trim_space}

abbrev acme : OrgRec
acme = record { id = 1; slug = codes "acme"; name = codes "Acme"; created_at = 3; updated_at = 3 }

abbrev old_invitation : OrgInviteRec
old_invitation = record {
  inv = record {
    id = codes "1";
    org_id = codes "1";
    email = codes "ann@example.org";
    role = member;
    invited_by = [];
    expires_at = 90;
    created_at = 4;
  };
  hash = 8 ∷ [];
  consumed = false;
}

abbrev invited : Store
invited = record one_user {
  org_seq = 1;
  orgs = put empty 1 acme;
  org_members = put empty 1 (put empty 1 owner);
  org_invites = put empty 1 old_invitation;
}

abbrev signed_in : SessionClaims
signed_in = record {
  subject = codes "local:a1";
  email = [];
  name = [];
  groups = [];
  role = [];
  id_token = [];
  sid = [];
  impersonated_by = [];
  org = [];
  org_role = [];
  audience = codes "authx:session";
  issued_at = some 1;
  expires_at = some 9;
}

abbrev accepted : Store × Landing
accepted = org_invite_accept invited [] (some signed_in) (codes "x") (8 ∷ []) 7

accepted_run : accepted.1 ≡ joined owner none
unfolding org_invite_accept redeem_invite remint_with_org peek_org_invite consume_org_invite
    find_valid_invite find find_value get put empty org_role org_by_id parse_id id_str user_by_sub
    create_local_user norm_email list_beq find_by_sub to_lower trim_space norm
accepted_run = refl

org_invite_accept_keeps_example : get (members_of accepted.0 1) 1 ≡ some owner
unfolding get put empty
org_invite_accept_keeps_example =
    org_invite_accept_keeps invited [] (some signed_in) (codes "x") (8 ∷ []) 7 1 1 owner refl
