-- ===== src/Scim/Filter.antt =====
-- scim/filter.go: the types, the attribute getters and the comparison operators.
pub mod Lexer
pub mod Parser
pub mod Fine
pub mod Tokens
pub mod Total
pub mod Order
use go_auth_x.Base.{
  Bool, List, Option, [], false, if◌then◌else◌, list_eq, ltb, map, nat_eq, none, not, some, true,
  ◌!=◌, ◌&&◌, ◌==◌, ◌||◌, ◌∷◌,
}
use go_auth_x.Map.{Map, empty, get, put}
use go_auth_x.Text.{Text, codes, equal_fold, has_prefix, has_suffix, text_ltb, to_lower}
use go_auth_x.Types.{AuthUser, Group}

-- elem
abbrev pub Elem : Type 0
Elem = Map Text Text

-- resource; a scalar attribute has a value and is present or not
pub record Resource : Type 0 where
  pub scalar : Text → Text × Bool
  pub multi : Text → List Elem

-- pred
abbrev pub Pred : Type 0
Pred = Resource → Bool

abbrev pub value_or_absent : Option Text → Text × Bool
value_or_absent none = ([], false)
value_or_absent (some v) = (v, true)

-- asResource
unfoldable pub as_resource : Elem → Resource
as_resource e = record { scalar = λ a. value_or_absent (get e (to_lower a)); multi = λ a. [] }

-- strconv.FormatBool
abbrev format_bool : Bool → Text
format_bool true = codes "true"
format_bool false = codes "false"

-- toID
abbrev to_id : Text → Text
to_id id = id

-- userAttr
unfoldable pub user_attr : AuthUser → Text → Text × Bool
user_attr u attr =
    let a = to_lower attr in
    if a == codes "id"
    then (to_id u.id, true)
    else (if a == codes "username"
          || (a == codes "emails" || (a == codes "emails.value" || a == codes "externalid"))
        then (u.email, u.email != [])
        else (if a == codes "name" || (a == codes "name.formatted" || a == codes "displayname")
            then (u.name, u.name != [])
            else (if a == codes "active"
                then (format_bool (not u.disabled), true)
                else ([], false))))

-- groupAttr
unfoldable pub group_attr : Group → Text → Text × Bool
group_attr g attr =
    let a = to_lower attr in
    if a == codes "id"
    then (to_id g.id, true)
    else (if a == codes "displayname" then (g.name, g.name != []) else ([], false))

-- userResource
unfoldable pub user_resource : AuthUser → Resource
unfolding user_attr
user_resource u = record {
  scalar = user_attr u;
  multi = λ attr.
      if equal_fold attr (codes "emails") && u.email != []
      then put (put empty (codes "primary") (codes "true")) (codes "value") u.email ∷ []
      else [];
}

-- groupResource; `members` is what the function of that name returns
unfoldable pub group_resource : Group → List AuthUser → Resource
unfolding group_attr
group_resource g members = record {
  scalar = group_attr g;
  multi = λ attr.
      if equal_fold attr (codes "members")
      then map (λ m. put (put empty (codes "display") m.email) (codes "value") (to_id m.id)) members
      else [];
}

-- strings.Contains
unfoldable pub has_infix : Text → Text → Bool
has_infix [] part = part == []
has_infix (c ∷ cs) part = has_prefix (c ∷ cs) part || has_infix cs part

-- less
unfoldable pub less : Text → Text → Bool → Bool
unfolding text_ltb
less a b desc =
    let a' = to_lower a in let b' = to_lower b in if desc then text_ltb b' a' else text_ltb a' b'

-- The comparison operators that the parser accepts.
pub data Op : Type 0 where
  eq ne co sw ew gt ge lt le : Op

unfoldable pub compare_by : Op → Text → Text → Bool
unfolding has_infix text_ltb
compare_by Op.eq h w = h == w
compare_by Op.ne h w = h != w
compare_by Op.co h w = has_infix h w
compare_by Op.sw h w = has_prefix h w
compare_by Op.ew h w = has_suffix h w
compare_by Op.gt h w = text_ltb w h
compare_by Op.ge h w = not (text_ltb h w)
compare_by Op.lt h w = text_ltb h w
compare_by Op.le h w = not (text_ltb w h)

-- matchAttr, on the operators that the parser accepts
unfoldable pub match_attr : Text × Bool → Op → Text → Bool
unfolding compare_by
match_attr (have, present) op want = present && compare_by op (to_lower have) (to_lower want)
