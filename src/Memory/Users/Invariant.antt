-- ===== src/Memory/Users/Invariant.antt =====
-- The user table of store/memory: one row for each key, address and subject.
use go_auth_x.Base.{arith, list_eq, nat_eq, some, ℕ, ◌<◌, ◌∙◌, ◌≡◌, ◌≤◌}
use go_auth_x.Map.{Map, delete, empty, get, get-delete, get-empty, get-put, put}
use go_auth_x.Memory.Store.{User}
use go_auth_x.Text.{norm, u64}

pub record IsValid (seq : ℕ) (users : Map ℕ User) : Type 0 where
  pub counter : seq < u64
  pub keyed : (k : ℕ) (u : User) → get users k ≡ some u → u.id ≡ k
  pub positive : (k : ℕ) (u : User) → get users k ≡ some u → 0 < k
  pub issued : (k : ℕ) (u : User) → get users k ≡ some u → k ≤ seq
  pub normal : (k : ℕ) (u : User) → get users k ≡ some u → norm u.email ≡ u.email
  pub one_email :
      (j k : ℕ) (u v : User)
      → get users j ≡ some u
      → get users k ≡ some v
      → u.email ≡ v.email
      → j ≡ k
  pub one_sub :
      (j k : ℕ) (u v : User) → get users j ≡ some u → get users k ≡ some v → u.sub ≡ v.sub → j ≡ k

pub IsValid-empty : IsValid 0 empty
IsValid-empty = record {
  counter = omega arith;
  keyed = λ k u h. absurd (ground (arith, get-empty {V = User} k));
  positive = λ k u h. absurd (ground (arith, get-empty {V = User} k));
  issued = λ k u h. absurd (ground (arith, get-empty {V = User} k));
  normal = λ k u h. absurd (ground (arith, get-empty {V = User} k));
  one_email = λ j k u v h. absurd (ground (arith, get-empty {V = User} j));
  one_sub = λ j k u v h. absurd (ground (arith, get-empty {V = User} j));
}

module _ {seq : ℕ} {users : Map ℕ User} (v : IsValid seq users) where
  -- A row goes in under its own key, with an address and a subject that no other row has.
  pub IsValid-put :
      (seq' : ℕ) (u : User)
      → seq' < u64
      → seq ≤ seq'
      → 0 < u.id
      → u.id ≤ seq'
      → norm u.email ≡ u.email
      → ((k : ℕ) (w : User) → get users k ≡ some w → w.email ≡ u.email → k ≡ u.id)
      → ((k : ℕ) (w : User) → get users k ≡ some w → w.sub ≡ u.sub → k ≡ u.id)
      → IsValid seq' (put users u.id u)
  IsValid-put seq' u c up pos fits norm_u email_free sub_free = record {
    counter = c;
    keyed = λ k w h. ground (arith, get-put users u.id u k, v.keyed k w);
    positive = λ k w h. ground (arith, get-put users u.id u k, v.positive k w);
    issued = λ k w h. ground (arith, get-put users u.id u k, v.issued k w);
    normal = λ k w h. ground (arith, get-put users u.id u k, v.normal k w);
    one_email = λ j k w x hj hk e. ground (
      arith,
      get-put users u.id u j,
      get-put users u.id u k,
      v.one_email j k w x,
      email_free k x,
      email_free j w,
    );
    one_sub = λ j k w x hj hk e. ground (
      arith,
      get-put users u.id u j,
      get-put users u.id u k,
      v.one_sub j k w x,
      sub_free k x,
      sub_free j w,
    );
  }

  pub IsValid-delete : (id : ℕ) → IsValid seq (delete users id)
  IsValid-delete id = record {
    counter = v.counter;
    keyed = λ k w h. ground (arith, get-delete users id k, v.keyed k w);
    positive = λ k w h. ground (arith, get-delete users id k, v.positive k w);
    issued = λ k w h. ground (arith, get-delete users id k, v.issued k w);
    normal = λ k w h. ground (arith, get-delete users id k, v.normal k w);
    one_email = λ j k w x hj hk e.
        ground (arith, get-delete users id j, get-delete users id k, v.one_email j k w x);
    one_sub = λ j k w x hj hk e.
        ground (arith, get-delete users id j, get-delete users id k, v.one_sub j k w x);
  }

  -- A row may change but for its key, its address and its subject.
  pub IsValid-change :
      (k : ℕ) (u u' : User)
      → get users k ≡ some u
      → u'.id ≡ u.id
      → u'.email ≡ u.email
      → u'.sub ≡ u.sub
      → IsValid seq (put users k u')
  IsValid-change k u u' h same_id same_email same_sub =
      let e : u'.id ≡ k = same_id ∙ v.keyed k u h in
      rw (← e) (
        IsValid-put seq u' v.counter (omega arith) (ground (arith, v.positive k u))
          (ground (arith, v.issued k u)) (ground (arith, v.normal k u))
          (λ j w g q. ground (arith, v.one_email j k w u))
          (λ j w g q. ground (arith, v.one_sub j k w u)))
