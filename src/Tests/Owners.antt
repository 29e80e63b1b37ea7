-- ===== src/Tests/Owners.antt =====
-- The theorems on the owners of an organization, at an organization with one owner.
use go_auth_x.Base.{List, [], arith, list_eq, nat_eq, none, refl, ◌∷◌, ◌≡◌}
use go_auth_x.Examples.{ann, one_user}
use go_auth_x.Map.{empty, find_value, get, put}
use go_auth_x.Memory.Orgs.{org_role}
use go_auth_x.Memory.Store.{OrgRec, Store}
use go_auth_x.Memory.Users.{create_local_user, find_by_email}
use go_auth_x.Org.{admin, member, owner}
use go_auth_x.Org.Members.{remove_locked}
use go_auth_x.Org.Owners.{HasOwner}
use go_auth_x.Org.Owners.Escalation.{SameOwners}
use go_auth_x.Org.Owners.Runs.{
  MemberCall, perform_all, perform_all-HasOwner, perform_all-SameOwners, remove, set_role,
}
use go_auth_x.Org.Owners.Spelling.{spelling_defeats_guard}
use go_auth_x.Tests.Users.{one_user-Valid}
use go_auth_x.Text.{codes, id_str, parse_id}
use go_auth_x.Types.{err, not_org_member}

abbrev acme_row : OrgRec
acme_row = record {
  id = 1;
  slug = codes "acme";
  name = codes "Acme";
  created_at = 3;
  updated_at = 3;
}

abbrev owned : Store
owned = record one_user {
  org_seq = 1;
  orgs = put empty 1 acme_row;
  org_members = put empty 1 (put empty 1 owner);
}

owned-HasOwner : HasOwner owned 1
unfolding create_local_user find_by_email find_value get put empty
owned-HasOwner = record { key = 1; row = ann; spared = λ x. x; is_owner = refl; exists = refl }

-- The owner demotes and then removes himself; both requests are refused.
abbrev attempts : List MemberCall
attempts =
    set_role (codes "1") owner (codes "1") member 9
    ∷ remove (codes "1") owner (codes "1") none 9
    ∷ []

perform_all-HasOwner_example : HasOwner (perform_all owned attempts) 1
unfolding parse_id id_str
perform_all-HasOwner_example =
    perform_all-HasOwner owned attempts 1 one_user-Valid ((1, refl, refl), ((1, refl, refl), tt))
      owned-HasOwner

-- An administrator tries to demote and then to remove the owner.
abbrev intrusions : List MemberCall
intrusions =
    set_role (codes "1") admin (codes "1") member 9
    ∷ remove (codes "1") admin (codes "1") none 9
    ∷ []

perform_all-SameOwners_example : SameOwners 1 owned (perform_all owned intrusions)
perform_all-SameOwners_example =
    perform_all-SameOwners owned intrusions 1 ((λ e. ground arith), ((λ e. ground arith), tt))

spelling_defeats_guard_example :
    org_role (remove_locked owned (codes "1") owner (codes "01") none 9).0 (codes "1") (codes "01")
    ≡ err not_org_member
unfolding parse_id id_str org_role get put empty
spelling_defeats_guard_example =
    spelling_defeats_guard owned (codes "1") (codes "01") one_user-Valid 1 refl (λ e. ground arith)
      none 9 refl
