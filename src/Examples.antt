-- ===== src/Examples.antt =====
-- Small stores on which the theorems are tried.
use go_auth_x.Base.{[], false, list_eq, nat_eq, none, ◌∷◌}
use go_auth_x.Map.{empty, put}
use go_auth_x.Memory.Store.{SessionRec, Store, StoredPasskey, Token, User, new_store}
use go_auth_x.Memory.Users.{create_local_user, local_user}
use go_auth_x.Text.{Text, codes}

abbrev pub ann_mail : Text
ann_mail = codes " Ann@Example.org"

-- A store with one local account, whose key is 1.
abbrev pub one_user : Store
one_user = (create_local_user new_store ann_mail (codes "Ann") (codes "a1") 5).0

abbrev pub ann : User
ann = local_user 1 (codes "a1") ann_mail (codes "Ann") 5

abbrev pub ben : User
ben = local_user 2 (codes "b2") (codes "ben@x.org") (codes "Ben") 6

abbrev pub two_users : Store
two_users = record one_user { seq = 2; users = put one_user.users 2 ben }

-- Everything that can be keyed to the two accounts.
abbrev pub furnished : Store
furnished = record two_users {
  passwords = put empty 1 (record { hash = codes "h"; algo = codes "bcrypt" });
  passkeys = put empty 1 key_row;
  oauth = put empty (codes "google|77") 1;
  tokens = token ∷ [];
  sessions = put empty (codes "s1") session;
}
  where
    key_row : StoredPasskey
    key_row = record {
      p = record {
        id = codes "1";
        credential_id = 7 ∷ 7 ∷ [];
        public_key = [];
        attestation_type = [];
        aaguid = [];
        sign_count = 4;
        transports = [];
        backup_eligible = false;
        backup_state = false;
        name = codes "laptop";
        created_at = 5;
        last_used_at = 5;
      };
      user_id = 1;
    }

    token : Token
    token = record {
      purpose = codes "reset";
      user_id = 1;
      email = codes "ann@example.org";
      hash = 1 ∷ 2 ∷ [];
      expires_at = 90;
      consumed_at = none;
    }

    session : SessionRec
    session = record {
      rec = record {
        sid = codes "s1";
        subject = codes "local:a1";
        user_id = codes "1";
        user_agent = [];
        ip = [];
        created_at = 5;
        expires_at = 500;
        current = false;
      };
      revoked = false;
    }
