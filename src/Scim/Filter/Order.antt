-- ===== src/Scim/Filter/Order.antt =====
-- The comparison operators of filters as one order on texts without case.
use go_auth_x.Base.{
  Bool, [], arith, false, list_beq, list_eq, nat_eq, not, refl, ◌&&◌, ◌==◌, ◌||◌, ◌∷◌, ◌≡◌,
}
use go_auth_x.Scim.Filter.{Op, compare_by, match_attr}
use go_auth_x.Text.{Text, text_ltb, to_lower}

text_ltb_total : (a b : Text) → text_ltb a b ≡ not (text_ltb b a || b == a)
unfolding text_ltb list_beq
text_ltb_total [] [] = refl
text_ltb_total [] (d ∷ ds) = refl
text_ltb_total (c ∷ cs) [] = refl
text_ltb_total (c ∷ cs) (d ∷ ds) = ground (arith, text_ltb_total cs ds)

list_beq_sym : (a b : Text) → (a == b) ≡ (b == a)
unfolding list_beq
list_beq_sym [] [] = refl
list_beq_sym [] (d ∷ ds) = refl
list_beq_sym (c ∷ cs) [] = refl
list_beq_sym (c ∷ cs) (d ∷ ds) = ground (arith, list_beq_sym cs ds)

-- How the operators are related at one attribute and one wanted value.
pub record IsOrdered (v : Text × Bool) (want : Text) : Type 0 where
  pub ge : match_attr v Op.ge want ≡ (match_attr v Op.gt want || match_attr v Op.eq want)
  pub le : match_attr v Op.le want ≡ (match_attr v Op.lt want || match_attr v Op.eq want)
  pub ne : match_attr v Op.ne want ≡ (match_attr v Op.lt want || match_attr v Op.gt want)
  pub lt_or_gt : (match_attr v Op.lt want && match_attr v Op.gt want) ≡ false

-- For any attribute and value, `ge` is `gt` or `eq`, `le` is `lt` or `eq`, `ne` is `lt` or `gt`, and
-- `lt` and `gt` exclude each other, an absent attribute included.
pub match_attr-IsOrdered : (v : Text × Bool) (want : Text) → IsOrdered v want
unfolding match_attr compare_by
match_attr-IsOrdered (have, present) want =
    let h = to_lower have in
    let w = to_lower want in
    record {
      ge = ground (arith, text_ltb_total h w, text_ltb_total w h, list_beq_sym h w);
      le = ground (arith, text_ltb_total h w, text_ltb_total w h, list_beq_sym h w);
      ne = ground (arith, text_ltb_total h w, text_ltb_total w h, list_beq_sym h w);
      lt_or_gt = ground (arith, text_ltb_total h w, text_ltb_total w h, list_beq_sym h w);
    }
