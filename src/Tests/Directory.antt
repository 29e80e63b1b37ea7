-- ===== src/Tests/Directory.antt =====
-- The theorems on the view of an organization, at one with an owner and a provider.
use go_auth_x.Base.{
  List, [], arith, false, keep, list_beq, list_eq, nat_beq_iff, nat_eq, refl, some, subst, true,
  ◌++◌, ◌∷◌, ◌≡◌, ◌≢◌,
}
use go_auth_x.Examples.{ann, one_user}
use go_auth_x.Map.{empty, find_value, get, get-empty, get-put, put}
use go_auth_x.Memory.Orgs.{org_role, set_org_member}
use go_auth_x.Memory.Store.{OrgRec, Store}
use go_auth_x.Memory.Upsert.{upsert_external_user}
use go_auth_x.Memory.Users.{create_local_user, user_by_email}
use go_auth_x.Org.{owner}
use go_auth_x.Org.Directory.{
  is_member_in, ns_sub, org_members_of, org_sub_prefix, upsert_external_user_in,
}
use go_auth_x.Org.Directory.Confined.{IsConfined}
use go_auth_x.Org.Directory.Frame.{IsReady}
use go_auth_x.Org.Directory.Joined.{upsert_external_user_in-joins}
use go_auth_x.Org.Directory.Lookups.{org_members_of-keep}
use go_auth_x.Org.Directory.Runs.{
  ViewCall, calls, calls-IsConfined, new_group, set_disabled, upsert,
}
use go_auth_x.Org.Directory.Subjects.{ns_sub_apart}
use go_auth_x.Tests.Users.{one_user-Valid}
use go_auth_x.Text.{Text, codes, cut_prefix, has_prefix, id_str, norm, parse_id}
use go_auth_x.Types.{AuthUser, Group, ok}

abbrev acme : OrgRec
acme = record { id = 1; slug = codes "acme"; name = codes "Acme"; created_at = 3; updated_at = 3 }

abbrev tenant : Store
tenant = record one_user {
  org_seq = 1;
  orgs = put empty 1 acme;
  org_members = put empty 1 (put empty 1 owner);
}

tenant-IsReady : IsReady 3 tenant
unfolding create_local_user find_value empty
tenant-IsReady = record {
  users = one_user-Valid;
  groups = record {
    issued = λ k g h. ground (arith, get-empty {V = Group} k);
    one_name = λ j k g h a b o n. ground (arith, get-empty {V = Group} j);
  };
  seq = omega arith;
  group_seq = omega arith;
}

abbrev provisioning : List ViewCall
provisioning =
    upsert (codes "scim:bob") (codes "bob@x.org") (codes "Bob") true 9
    ∷ new_group (codes "eng") [] 9
    ∷ set_disabled (codes "1") true
    ∷ []

calls-IsConfined_example : IsConfined (codes "1") 1 tenant (calls (codes "1") tenant provisioning)
unfolding parse_id
calls-IsConfined_example = calls-IsConfined (codes "1") 1 tenant provisioning refl tenant-IsReady

abbrev bob : AuthUser
bob = record {
  id = codes "2";
  sub = codes "scim:org1:bob";
  email = codes "bob@x.org";
  name = codes "Bob";
  email_verified = true;
  disabled = false;
  banned = false;
  banned_until = 0;
  ban_reason = [];
  created_at = 9;
  updated_at = 9;
}

upsert_external_user_in-joins_example :
    let t =
      (upsert_external_user_in tenant
        (codes "1")
        (codes "scim:bob")
        (codes "Bob@x.org")
        (codes "Bob")
        true
        9).0 in
    (has_prefix bob.sub (org_sub_prefix (codes "1")) ≡ true)
    × (bob.email ≡ norm (codes "Bob@x.org"))
    × (is_member_in t (codes "1") bob.id ≡ true)
unfolding parse_id create_local_user find_value empty upsert_external_user_in has_prefix
    org_sub_prefix ns_sub cut_prefix user_by_email put list_beq norm upsert_external_user org_role
    id_str set_org_member
upsert_external_user_in-joins_example =
    upsert_external_user_in-joins (codes "1") 1 tenant (codes "scim:bob") (codes "Bob@x.org")
      (codes "Bob") true 9 bob refl one_user-Valid (omega arith) refl

ns_sub_apart_example :
    ns_sub (codes "1") (codes "scim:" ++ codes "bob")
    ≢ ns_sub (codes "2") (codes "scim:" ++ codes "bob")
unfolding parse_id
ns_sub_apart_example =
    ns_sub_apart (codes "1") (codes "2") (codes "bob") (codes "bob") 1 2 refl refl
      (λ e. ground arith)

ann_listed : get one_user.users 1 ≡ some ann
unfolding create_local_user find_value empty put
ann_listed = refl

org_members_of-keep_example :
    org_members_of tenant (codes "1") (codes "1" ∷ [])
    ≡ ok (keep (λ uid. is_member_in tenant (codes "1") uid) (codes "1" ∷ []))
unfolding parse_id id_str get put
org_members_of-keep_example =
    org_members_of-keep tenant (codes "1") 1 acme refl refl one_user-Valid
      (λ v role h. (
        ann,
        subst (λ k. get one_user.users k ≡ some ann)
            (ground (
              arith,
              get-put (empty {V = Text}) 1 owner v,
              get-empty {V = Text} v,
              nat_beq_iff 1 v,
            ))
            ann_listed,
      ))
      (codes "1" ∷ []) ((1, refl, refl), tt)
