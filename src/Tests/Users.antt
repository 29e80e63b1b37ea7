-- ===== src/Tests/Users.antt =====
-- The theorems on user rows at small stores.
use go_auth_x.Base.{arith, false, list_beq, list_eq, nat_eq, refl, some, true, ◌≡◌}
use go_auth_x.Examples.{ann, ann_mail, furnished, one_user}
use go_auth_x.Map.{empty, find_value, get, put}
use go_auth_x.Memory.Erase.{delete_user}
use go_auth_x.Memory.Erase.Cascade.{IsKept, delete_user-IsKept}
use go_auth_x.Memory.Store.{new_store}
use go_auth_x.Memory.Upsert.{login_user, upsert_user_on_login}
use go_auth_x.Memory.Upsert.Safety.{Answer, unverified_login_keeps, upsert_user_on_login-Answer}
use go_auth_x.Memory.Users.{create_local_user, find_by_email, find_by_sub, user_by_email, view}
use go_auth_x.Memory.Users.Lookup.{Valid, find_by_email_unique}
use go_auth_x.Memory.Users.Reach.{Reachable, Reachable-Valid, creates, initial}
use go_auth_x.Text.{codes, has_prefix, norm, parse_id}
use go_auth_x.Types.{ok}

one_user-Reachable : Reachable one_user
unfolding find_by_sub find_value empty
one_user-Reachable =
    creates {s = new_store} ann_mail (codes "Ann") (codes "a1") 5 (omega arith) refl initial

Reachable-Valid_example : Valid one_user
Reachable-Valid_example = Reachable-Valid one_user-Reachable

pub one_user-Valid : Valid one_user
one_user-Valid = Reachable-Valid one_user-Reachable

find_by_email_unique_example : find_by_email one_user (codes "ANN@example.ORG") ≡ some ann
unfolding create_local_user find_by_email norm find_value list_beq put empty
find_by_email_unique_example =
    find_by_email_unique one_user one_user-Valid (codes "ANN@example.ORG") 1 ann refl refl

unverified_login_keeps_example :
    get (upsert_user_on_login one_user (codes "google:9") ann_mail (codes "Eve") false 8).0.users 1
    ≡ some ann
unfolding create_local_user norm find_value list_beq put empty has_prefix
unverified_login_keeps_example =
    unverified_login_keeps one_user (codes "google:9") ann_mail (codes "Eve") 8 1 ann (omega arith)
      one_user-Valid refl (λ e. ground arith) refl

upsert_user_on_login-Answer_example :
    Answer one_user
      (codes "google:9")
      ann_mail
      (codes "Eve")
      true
      8
      (upsert_user_on_login one_user (codes "google:9") ann_mail (codes "Eve") true 8)
unfolding create_local_user find_value put empty
upsert_user_on_login-Answer_example =
    upsert_user_on_login-Answer one_user (codes "google:9") ann_mail (codes "Eve") true 8
      one_user-Valid (omega arith)

delete_user-IsKept_example : IsKept 2 furnished (delete_user furnished (codes "1"))
unfolding parse_id
delete_user-IsKept_example =
    delete_user-IsKept furnished (codes "1") 1 2 refl (λ e. omega arith) (omega arith) (omega arith)

-- A verified login takes an unverified account's address over, under a new key.
takeover :
    user_by_email
      (upsert_user_on_login one_user (codes "google:9") ann_mail (codes "Ann") true 8).0
      ann_mail
    ≡ ok (view (login_user 2 (codes "google:9") (codes "ann@example.org") (codes "Ann") true 8))
unfolding upsert_user_on_login user_by_email create_local_user norm find_value list_beq put empty
    has_prefix
takeover = refl
