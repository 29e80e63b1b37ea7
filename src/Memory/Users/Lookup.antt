-- ===== src/Memory/Users/Lookup.antt =====
-- What the loops over the user table find.
use go_auth_x.Base.{
  Option-cases, ap, arith, inl, inr, list_beq_iff, list_eq, nat_eq, none, some, sym, ℕ, ◌==◌, ◌∙◌,
  ◌≡◌, ◌≢◌,
}
use go_auth_x.Map.{find_value_complete, find_value_sound, get}
use go_auth_x.Memory.Store.{Store, User}
use go_auth_x.Memory.Users.{find_by_email, find_by_sub}
use go_auth_x.Memory.Users.Invariant.{IsValid}
use go_auth_x.Text.{Text, norm}

abbrev pub Valid : Store → Type 0
Valid s = IsValid s.seq s.users

module _ (s : Store) where
  pub find_by_email-none :
      (email : Text) (k : ℕ) (w : User)
      → find_by_email s email ≡ none
      → get s.users k ≡ some w
      → w.email ≢ norm email
  unfolding find_by_email
  find_by_email-none email k w e g q = absurd (
      ground (
        arith,
        find_value_complete (λ u. u.email == norm email) s.users k w,
        list_beq_iff w.email (norm email),
      ))

  pub find_by_sub-none :
      (sub : Text) (k : ℕ) (w : User)
      → find_by_sub s sub ≡ none
      → get s.users k ≡ some w
      → w.sub ≢ sub
  unfolding find_by_sub
  find_by_sub-none sub k w e g q =
      absurd (
        ground (arith, find_value_complete (λ u. u.sub == sub) s.users k w, list_beq_iff w.sub sub))

  module _ (valid : Valid s) where
    pub find_by_email-some :
        (email : Text) (o : User)
        → find_by_email s email ≡ some o
        → (get s.users o.id ≡ some o) × (o.email ≡ norm email)
    unfolding find_by_email
    find_by_email-some email o e =
        let (k, g, q) = find_value_sound (λ u. u.email == norm email) s.users o e in
        (ap (get s.users) (valid.keyed k o g) ∙ g, (list_beq_iff o.email (norm email)).0 q)

    pub find_by_sub-some :
        (sub : Text) (o : User)
        → find_by_sub s sub ≡ some o
        → (get s.users o.id ≡ some o) × (o.sub ≡ sub)
    unfolding find_by_sub
    find_by_sub-some sub o e =
        let (k, g, q) = find_value_sound (λ u. u.sub == sub) s.users o e in
        (ap (get s.users) (valid.keyed k o g) ∙ g, (list_beq_iff o.sub sub).0 q)

    -- The row that the loop finds is the only one with the address, so the order in which Go
    -- visits the map does not matter.
    pub find_by_email_unique :
        (email : Text) (k : ℕ) (w : User)
        → get s.users k ≡ some w
        → w.email ≡ norm email
        → find_by_email s email ≡ some w
    find_by_email_unique email k w g q = elim (Option-cases (find_by_email s email)) [
      | inl e ↦ absurd (find_by_email-none email k w e g q)
      | inr (o, e) ↦
          let (h, p) = find_by_email-some email o e in
          let same : o.id ≡ k = valid.one_email o.id k o w h g (p ∙ sym q) in
          e ∙ sym h ∙ ap (get s.users) same ∙ g
    ]

    pub find_by_sub_unique :
        (sub : Text) (k : ℕ) (w : User)
        → get s.users k ≡ some w
        → w.sub ≡ sub
        → find_by_sub s sub ≡ some w
    find_by_sub_unique sub k w g q = elim (Option-cases (find_by_sub s sub)) [
      | inl e ↦ absurd (find_by_sub-none sub k w e g q)
      | inr (o, e) ↦
          let (h, p) = find_by_sub-some sub o e in
          let same : o.id ≡ k = valid.one_sub o.id k o w h g (p ∙ sym q) in
          e ∙ sym h ∙ ap (get s.users) same ∙ g
    ]
