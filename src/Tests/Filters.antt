-- ===== src/Tests/Filters.antt =====
-- The theorems on SCIM filters at small filters, and runs of the compiler.
use go_auth_x.Base.{Bool, Option, any, list_beq, list_eq, nat_eq, none, refl, some, true, ◌≡◌}
use go_auth_x.Examples.{ann}
use go_auth_x.Map.{get, put}
use go_auth_x.Memory.Users.{view}
use go_auth_x.Scim.Filter.{Pred, as_resource, user_resource}
use go_auth_x.Scim.Filter.Parser.{Parsed, compile_filter, parsed}
use go_auth_x.Scim.Filter.Total.{IsResult, compile_filter-IsResult}
use go_auth_x.Text.{Text, codes, norm}
use go_auth_x.Types.{AuthUser}

abbrev ann_filter : Text
ann_filter = codes "userName eq \"ANN@example.org\" and not (active eq false)"

compile_filter-IsResult_example : IsResult (compile_filter ann_filter)
compile_filter-IsResult_example = compile_filter-IsResult ann_filter

-- What a filter says of a user; nothing if it does not compile.
answer_on : Parsed Pred → AuthUser → Option Bool
answer_on (parsed p rest) u = some (p (user_resource u))
answer_on _ u = none

verdict : Text → AuthUser → Option Bool
unfolding compile_filter answer_on
verdict s u = answer_on (compile_filter s) u

ann_matches : verdict ann_filter (view ann) ≡ some true
unfolding verdict answer_on compile_filter user_resource view list_beq norm
ann_matches = refl

primary_matches : verdict (codes "emails[primary eq true]") (view ann) ≡ some true
unfolding verdict answer_on compile_filter user_resource view list_beq any norm as_resource get put
primary_matches = refl

unclosed_refused : verdict (codes "(id pr") (view ann) ≡ none
unfolding verdict answer_on compile_filter list_beq
unclosed_refused = refl
