-- ===== src/Tests/Admin.antt =====
-- The theorems on the admin API, at an owner, a stranger and the key of an organization.
use go_auth_x.Admin.{
  AdminConfig, Caller, admin_guard, is_owner_session, validate_api_key_scope,
  validate_org_api_key_scope,
}
use go_auth_x.Admin.CutOff.{admin_set_disabled_cuts}
use go_auth_x.Admin.Groups.{admin_set_disabled}
use go_auth_x.Admin.Guarded.{AdminKey, admin_guard_passes}
use go_auth_x.Admin.Impersonation.{IsMarked, admin_impersonate-IsMarked}
use go_auth_x.Admin.Keys.{org_key_reach}
use go_auth_x.Admin.Refused.{Stamped, delete_user_call, perform, perform-Stamped}
use go_auth_x.Admin.Users.{admin_impersonate, impersonation_ttl}
use go_auth_x.Base.{
  [], arith, distinct, false, keep, list_beq, list_eq, nat_eq, none, refl, some, sort_by, true,
  ◌&&◌, ◌+◌, ◌==◌, ◌↔◌, ◌∷◌, ◌≡◌, ◌⊎◌,
}
use go_auth_x.Csrf.{bearer_token}
use go_auth_x.Examples.{ann, one_user}
use go_auth_x.Login.{blank_claims}
use go_auth_x.Map.{empty, find_value, get, put}
use go_auth_x.Map.Listing.{collect}
use go_auth_x.Memory.ApiKeys.{api_key_by_hash, create_org_api_key, key_has_scope}
use go_auth_x.Memory.Sessions.{is_revoked}
use go_auth_x.Memory.Store.{OrgRec, Store}
use go_auth_x.Memory.Users.{create_local_user}
use go_auth_x.Org.Gate.{Gate, go}
use go_auth_x.Password.{PasswordTools}
use go_auth_x.Session.{SessionClaims}
use go_auth_x.Text.{codes, cut_prefix, equal_fold, id_str, norm, parse_id, trim_space}
use go_auth_x.Types.{ApiKeyInfo}

abbrev office : AdminConfig
office = record {
  owner_email = codes "ann@example.org";
  session_secret = codes "0123456789abcdef0123456789abcdef";
  hash_token = λ t. t;
}

abbrev tools : PasswordTools
tools = record {
  breach = none;
  hash_password = λ pw. some pw;
  compare_password = λ hash pw. hash == pw;
  is_outdated = λ hash. false;
}

abbrev ann_claims : SessionClaims
ann_claims = record blank_claims {
  subject = codes "local:a1";
  email = codes "Ann@example.org";
  audience = codes "authx:session";
}

abbrev ann_caller : Caller
ann_caller = record { authorization = []; session = some ann_claims }

-- The bearer of a key that is bound to an organization, with every scope.
abbrev tenant_caller : Caller
tenant_caller = record { authorization = codes "Bearer axk_t"; session = none }

abbrev tenant_key : ApiKeyInfo
tenant_key = record {
  id = codes "1";
  name = codes "scim";
  prefix = codes "axk_t";
  groups = [];
  scopes = codes "*" ∷ [];
  expires_at = none;
  created_at = 4;
  last_used_at = none;
  org_id = codes "1";
}

abbrev acme : OrgRec
acme = record { id = 1; slug = codes "acme"; name = codes "Acme"; created_at = 3; updated_at = 3 }

abbrev keyed : Store
keyed = record one_user {
  api_seq = 1;
  apikeys = put empty 1 (record { info = tenant_key; hash = codes "axk_t" });
  orgs = put empty 1 acme;
  sessions = put empty (codes "s1") (record {
    rec = record {
      sid = codes "s1";
      subject = codes "local:a1";
      user_id = codes "1";
      user_agent = [];
      ip = [];
      created_at = 5;
      expires_at = 90;
      current = false;
    };
    revoked = false;
  });
}

admin_guard_passes_example :
    ((admin_guard office tenant_caller 7 keyed).1 ≡ go tt)
    ↔ ((is_owner_session office none ≡ true) ⊎ AdminKey office tenant_caller 7 keyed)
admin_guard_passes_example = admin_guard_passes office tenant_caller 7 keyed

tenant_keyless : ¬ AdminKey office tenant_caller 7 keyed
unfolding bearer_token trim_space cut_prefix api_key_by_hash find_value put empty list_beq
tenant_keyless k = let found_key = k.known in let unbound = k.global in absurd (ground arith)

perform-Stamped_example :
    Stamped keyed
      (perform office tools (λ t. none) tenant_caller 7 (delete_user_call (codes "1")) keyed)
perform-Stamped_example =
    perform-Stamped office tools (λ t. none) tenant_caller 7 keyed (delete_user_call (codes "1"))
      refl tenant_keyless

abbrev disguise : Store × Gate SessionClaims
disguise = admin_impersonate office ann_caller (codes "1") (codes "s9") [] [] 7 keyed

abbrev disguised : SessionClaims
disguised = record blank_claims {
  subject = codes "local:a1";
  email = codes "ann@example.org";
  name = codes "Ann";
  sid = codes "s9";
  impersonated_by = codes "local:a1";
  audience = codes "authx:session";
  issued_at = some 7;
  expires_at = some (7 + impersonation_ttl);
}

admin_impersonate-IsMarked_example :
    IsMarked office (codes "s9") [] [] 7 ann_caller (codes "1") keyed disguise.0 disguised
unfolding admin_impersonate list_beq equal_fold parse_id get create_local_user find_value empty put
    norm keep sort_by collect distinct
admin_impersonate-IsMarked_example =
    admin_impersonate-IsMarked office (codes "s9") [] [] 7 ann_caller (codes "1") keyed disguised
      refl

admin_set_disabled_cuts_example :
    let t = (admin_set_disabled office ann_caller (codes "1") true 7 keyed).0 in
    (is_revoked t (codes "s1") ≡ true) × (get t.users 1 ≡ some (record ann { disabled = true }))
unfolding admin_guard list_beq equal_fold parse_id get create_local_user find_value empty put
admin_set_disabled_cuts_example =
    admin_set_disabled_cuts office ann_caller 7 keyed refl (codes "1") 1 refl ann refl (codes "s1")
      (record {
        rec = record {
          sid = codes "s1";
          subject = codes "local:a1";
          user_id = codes "1";
          user_agent = [];
          ip = [];
          created_at = 5;
          expires_at = 90;
          current = false;
        };
        revoked = false;
      })
      refl refl

abbrev second_key : ApiKeyInfo
second_key = record {
  id = codes "2";
  name = codes "k";
  prefix = [];
  groups = [];
  scopes = codes "admin" ∷ [];
  expires_at = none;
  created_at = 7;
  last_used_at = none;
  org_id = codes "1";
}

abbrev twice_keyed : Store
twice_keyed =
    (create_org_api_key keyed (codes "1") (codes "k") [] (codes "admin" ∷ []) [] (codes "axk_u")
      none 7).0

org_key_reach_example :
    ((validate_api_key_scope (λ x. x) twice_keyed (codes "axk_u") (codes "admin") 8).1 ≡ false)
    × ((validate_org_api_key_scope
          (λ x. x)
          twice_keyed
          (codes "axk_u")
          (codes "admin")
          (codes "2")
          8).1
        ≡ (key_has_scope second_key (codes "admin") && codes "1" == codes "2"))
unfolding api_key_by_hash find_value put empty list_beq parse_id get id_str
org_key_reach_example =
    org_key_reach (λ x. x) keyed (codes "1") (codes "k") [] (codes "admin" ∷ []) [] (codes "axk_u")
      none 7 1 acme refl refl refl 8 refl (λ e. ground arith) (codes "admin") (codes "2")
