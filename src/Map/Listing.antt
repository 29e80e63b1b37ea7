-- ===== src/Map/Listing.antt =====
-- The loops that collect the entries of a map into a slice, and what the slice holds.
use go_auth_x.Base.{
  Bool, Eq, List, Option, [], any, arith, contains, distinct, false, keep, length, list_eq, nat_eq,
  none, refl, some, true, ◌∷◌, ◌≡◌, ◌≢◌, ◌≤◌,
}
use go_auth_x.Map.{Map, get}

module _ {μ} {W : Type μ} where
  abbrev pub push_some : Option W → List W → List W
  push_some none ws = ws
  push_some (some w) ws = w ∷ ws

  abbrev pub passes : (W → Bool) → Option W → Bool
  passes p none = false
  passes p (some w) = p w

module _ {ℓ κ μ} {K : Type ℓ} {V : Type κ} {W : Type μ} ⦃e : Eq K⦄ where
  abbrev pub entry : (K → V → Option W) → Map K V → K → Option W
  entry f m k = elim (get m k) [ none ↦ none | some v ↦ f k v ]

  collect_keys : (K → V → Option W) → Map K V → List K → List W
  collect_keys f m [] = []
  collect_keys f m (k ∷ ks) = push_some (entry f m k) (collect_keys f m ks)

  -- for k, v := range m { if w := f(k, v); w != nil { out = append(out, w) } }
  unfoldable pub collect : (K → V → Option W) → Map K V → List W
  unfolding collect_keys
  collect f m = collect_keys f m (distinct m.keys)

  any-collect_keys :
      (f : K → V → Option W) (m : Map K V) (p : W → Bool) (k : K) (ks : List K)
      → contains ks k ≡ true
      → passes p (entry f m k) ≡ true
      → any p (collect_keys f m ks) ≡ true
  unfolding collect_keys any contains
  any-collect_keys f m p k [] c h = ground arith
  any-collect_keys f m p k (j ∷ ks) c h = ground (arith, e.beq_iff k j, any-collect_keys f m p k ks)

  count-collect_keys :
      (f : K → V → Option W) (m : Map K V) (p : W → Bool) (ks : List K)
      → length (keep p (collect_keys f m ks)) ≡ length (keep (λ k. passes p (entry f m k)) ks)
  unfolding collect_keys keep
  count-collect_keys f m p [] = refl
  count-collect_keys f m p (k ∷ ks) = ground (arith, count-collect_keys f m p ks)

  any-collect_keys-none :
      (f : K → V → Option W) (m : Map K V) (p : W → Bool)
      → ((k : K) → passes p (entry f m k) ≡ false)
      → (ks : List K) → any p (collect_keys f m ks) ≡ false
  unfolding collect_keys any
  any-collect_keys-none f m p h [] = refl
  any-collect_keys-none f m p h (k ∷ ks) = ground (arith, h k, any-collect_keys-none f m p h ks)

module _ {ℓ} {K : Type ℓ} ⦃e : Eq K⦄ where
  contains-distinct : (ks : List K) (k : K) → contains ks k ≡ true → contains (distinct ks) k ≡ true
  unfolding contains distinct
  contains-distinct [] k h = ground arith
  contains-distinct (j ∷ ks) k h = ground (arith, contains-distinct ks k, e.beq_iff k j)

  count_none :
      (p : K → Bool) (k : K) (ks : List K)
      → ((j : K) → j ≢ k → p j ≡ false)
      → contains ks k ≡ false
      → length (keep p (distinct ks)) ≡ 0
  unfolding contains distinct keep
  count_none p k [] others h = refl
  count_none p k (j ∷ ks) others h =
      ground (arith, count_none p k ks others, others j, e.beq_iff k j)

  -- A test that holds at one key at most holds once.
  count_one :
      (p : K → Bool) (k : K) (ks : List K)
      → ((j : K) → j ≢ k → p j ≡ false)
      → length (keep p (distinct ks)) ≤ 1
  unfolding contains distinct keep
  count_one p k [] others = omega arith
  count_one p k (j ∷ ks) others =
      ground (arith, count_one p k ks others, count_none p k ks others, others j, e.beq_iff k j)

module _ {ℓ κ μ} {K : Type ℓ} {V : Type κ} {W : Type μ} ⦃e : Eq K⦄ (f : K → V → Option W)
    (m : Map K V) (p : W → Bool) where
  contains_key : (k : K) → passes p (entry f m k) ≡ true → contains m.keys k ≡ true
  unfolding get
  contains_key k h = ground arith

  -- What is collected of an entry is in the slice.
  pub any-collect : (k : K) → passes p (entry f m k) ≡ true → any p (collect f m) ≡ true
  unfolding collect
  any-collect k h =
      any-collect_keys f m p k (distinct m.keys) (contains-distinct m.keys k (contains_key k h)) h

  -- A test that what is collected of one key at most passes, passes once at most.
  pub count-collect-le :
      (k : K)
      → ((j : K) → j ≢ k → passes p (entry f m j) ≡ false)
      → length (keep p (collect f m)) ≤ 1
  unfolding collect
  count-collect-le k others =
      rw (count-collect_keys f m p (distinct m.keys))
        (count_one (λ j. passes p (entry f m j)) k m.keys others)

  -- What is collected of no entry is not in the slice.
  pub any-collect-none : ((k : K) → passes p (entry f m k) ≡ false) → any p (collect f m) ≡ false
  unfolding collect
  any-collect-none h = any-collect_keys-none f m p h (distinct m.keys)
