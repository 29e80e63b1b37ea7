-- ===== src/Org/Directory/Subjects.antt =====
-- The subjects that the providers of two organizations push, and the accounts that come of them.
use go_auth_x.Base.{
  Bool-cases, [], any, arith, false, inl, inr, list_eq, nat_beq_iff, nat_eq, refl, some, subst,
  true, ℕ, ◌++◌, ◌==◌, ◌∷◌, ◌≡◌, ◌≢◌,
}
use go_auth_x.Org.Directory.{ns_sub, org_sub_prefix}
use go_auth_x.Text.{Text, codes, cut_prefix, has_prefix, parse_id}
use go_auth_x.Text.Decimal.{parse_id-no}

has_prefix-append : (p t : Text) → has_prefix (p ++ t) p ≡ true
unfolding has_prefix
has_prefix-append [] t = refl
has_prefix-append (c ∷ p) t = ground (arith, has_prefix-append p t)

cut_prefix-append : (p t : Text) → cut_prefix (p ++ t) p ≡ some t
unfolding cut_prefix
cut_prefix-append [] t = refl
cut_prefix-append (c ∷ p) t = ground (arith, cut_prefix-append p t)

-- Two names that a bar ends, in front of one text, are one name.
same_head :
    (bar : ℕ) (a b t : Text)
    → any (λ c. c == bar) a ≡ false
    → any (λ c. c == bar) b ≡ false
    → has_prefix t (a ++ bar ∷ []) ≡ true
    → has_prefix t (b ++ bar ∷ []) ≡ true
    → a ≡ b
unfolding any has_prefix
same_head bar [] [] t ha hb pa pb = refl
same_head bar [] (d ∷ b) [] ha hb pa pb = absurd (ground arith)
same_head bar [] (d ∷ b) (x ∷ t) ha hb pa pb =
    absurd (ground (arith, nat_beq_iff x bar, nat_beq_iff x d, nat_beq_iff d bar))
same_head bar (c ∷ a) [] [] ha hb pa pb = absurd (ground arith)
same_head bar (c ∷ a) [] (x ∷ t) ha hb pa pb =
    absurd (ground (arith, nat_beq_iff x bar, nat_beq_iff x c, nat_beq_iff c bar))
same_head bar (c ∷ a) (d ∷ b) [] ha hb pa pb = absurd (ground arith)
same_head bar (c ∷ a) (d ∷ b) (x ∷ t) ha hb pa pb =
    ground (arith, nat_beq_iff x c, nat_beq_iff x d, same_head bar a b t)

same_head_after :
    (bar : ℕ) (p a b t : Text)
    → any (λ c. c == bar) a ≡ false
    → any (λ c. c == bar) b ≡ false
    → has_prefix t (p ++ (a ++ bar ∷ [])) ≡ true
    → has_prefix t (p ++ (b ++ bar ∷ [])) ≡ true
    → a ≡ b
unfolding has_prefix
same_head_after bar [] a b t ha hb pa pb = same_head bar a b t ha hb pa pb
same_head_after bar (c ∷ p) a b [] ha hb pa pb = absurd (ground arith)
same_head_after bar (c ∷ p) a b (x ∷ t) ha hb pa pb =
    same_head_after bar p a b t ha hb (ground arith) (ground arith)

-- No subject is in the namespaces of two organizations.
pub org_sub_prefix_apart :
    (a b sub : Text) (n m : ℕ)
    → parse_id a ≡ some n
    → parse_id b ≡ some m
    → has_prefix sub (org_sub_prefix a) ≡ true
    → has_prefix sub (org_sub_prefix b) ≡ true
    → a ≡ b
unfolding org_sub_prefix
org_sub_prefix_apart a b sub n m ea eb pa pb =
    same_head_after b':' (codes "scim:org") a b sub (parse_id-no b':' a n ea (omega arith))
      (parse_id-no b':' b m eb (omega arith)) pa pb

-- A subject that a provider pushes for a user name is put in the namespace of the organization.
pub ns_sub-prefix :
    (org_id user_name : Text)
    → has_prefix (ns_sub org_id (codes "scim:" ++ user_name)) (org_sub_prefix org_id) ≡ true
unfolding ns_sub
ns_sub-prefix org_id user_name =
    let sub = codes "scim:" ++ user_name in
    elim (Bool-cases (has_prefix sub (org_sub_prefix org_id))) [
      | inl b ↦ rw (b, ns_sub) b
      | inr b ↦
          rw (b, ns_sub, cut_prefix-append (codes "scim:") user_name)
            (has_prefix-append (org_sub_prefix org_id) user_name)
    ]

-- The user names that the providers of two organizations push, one name or two, give two subjects.
pub ns_sub_apart :
    (a b x y : Text) (n m : ℕ)
    → parse_id a ≡ some n
    → parse_id b ≡ some m
    → a ≢ b
    → ns_sub a (codes "scim:" ++ x) ≢ ns_sub b (codes "scim:" ++ y)
ns_sub_apart a b x y n m ea eb other same = other (
    org_sub_prefix_apart a b (ns_sub b (codes "scim:" ++ y)) n m ea eb
      (subst (λ t. has_prefix t (org_sub_prefix a) ≡ true) same (ns_sub-prefix a x))
      (ns_sub-prefix b y))
