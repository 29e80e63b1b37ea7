-- ===== src/Map.antt =====
-- Go's built-in maps: `m[k]`, `m[k] = v`, `delete(m, k)` and the loops over `range m`.
-- The representation is private; clients have the laws below. `range` visits the keys in the
-- order of the list, one of the orders that Go may choose.
pub mod Listing
use go_auth_x.Base.{
  Bool, Eq, List, Option, Option-cases, [], arith, contains, distinct, false, if◌then◌else◌, inl,
  inr, keep, length, none, some, true, ℕ, ◌∷◌, ◌≡◌,
}

pub record Map {ℓ κ} (K : Type ℓ) (V : Type κ) : Type (ℓ ⊔ κ) where
  pub keys : List K
  pub value_at : K → Option V

-- What is left of an entry where the entries that pass a test are deleted.
abbrev pub unless {ℓ} : {V : Type ℓ} → (V → Bool) → Option V → Option V
unless p none = none
unless p (some v) = if p v then none else some v

abbrev pub map_option {ℓ κ} : {V : Type ℓ} {W : Type κ} → (V → W) → Option V → Option W
map_option f none = none
map_option f (some v) = some (f v)

abbrev pub is_some {ℓ} : {V : Type ℓ} → Option V → Bool
is_some none = false
is_some (some v) = true

abbrev holds {ℓ} : {V : Type ℓ} → (V → Bool) → Option V → Bool
holds p none = false
holds p (some v) = p v

unfoldable pub empty {ℓ κ} : {K : Type ℓ} {V : Type κ} → Map K V
empty = record { keys = []; value_at = λ _. none }

module _ {ℓ κ} {K : Type ℓ} {V : Type κ} ⦃e : Eq K⦄ where
  unfoldable pub get : Map K V → K → Option V
  unfolding contains
  get m k = if contains m.keys k then m.value_at k else none

  unfoldable pub put : Map K V → K → V → Map K V
  put m k v = record {
    keys = k ∷ m.keys;
    value_at = λ j. if e.beq k j then some v else m.value_at j;
  }

  unfoldable pub delete : Map K V → K → Map K V
  delete m k = record { keys = m.keys; value_at = λ j. if e.beq k j then none else m.value_at j }

  -- for k, v := range m { if p(k, v) { delete(m, k) } }
  unfoldable pub delete_if : (K → V → Bool) → Map K V → Map K V
  delete_if p m = record { keys = m.keys; value_at = λ j. unless (p j) (m.value_at j) }

  -- for k, v := range m { *v = f(k, v) }
  unfoldable pub change_all : (K → V → V) → Map K V → Map K V
  change_all f m = record { keys = m.keys; value_at = λ j. map_option (f j) (m.value_at j) }

  search_keys : (K → V → Bool) → Map K V → List K → Option K
  search_keys p m [] = none
  search_keys p m (k ∷ ks) =
      let rest = search_keys p m ks in if holds (p k) (get m k) then some k else rest

  -- for k, v := range m { if p(k, v) { return k } }
  unfoldable pub find : (K → V → Bool) → Map K V → Option K
  unfolding search_keys get
  find p m = search_keys p m m.keys

  -- for _, v := range m { if p(v) { return v } }
  unfoldable pub find_value : (V → Bool) → Map K V → Option V
  unfolding find get
  find_value p m = elim (find (λ _. p) m) [ none ↦ none | some k ↦ get m k ]

  -- The number of entries that pass a test.
  unfoldable pub count : (K → V → Bool) → Map K V → ℕ
  count p m = length (keep (λ k. holds (p k) (get m k)) (distinct m.keys))

  pub get-empty : (j : K) → get empty j ≡ none
  unfolding get empty contains
  get-empty j = ground arith

  pub get-put :
      (m : Map K V) (k : K) (v : V) (j : K)
      → get (put m k v) j ≡ (if e.beq k j then some v else get m j)
  unfolding get put contains
  get-put m k v j = ground (arith, e.beq_iff k j, e.beq_iff j k)

  pub get-delete :
      (m : Map K V) (k j : K) → get (delete m k) j ≡ (if e.beq k j then none else get m j)
  unfolding get delete
  get-delete m k j = ground arith

  pub get-delete_if :
      (p : K → V → Bool) (m : Map K V) (j : K) → get (delete_if p m) j ≡ unless (p j) (get m j)
  unfolding get delete_if
  get-delete_if p m j = ground arith

  pub get-change_all :
      (f : K → V → V) (m : Map K V) (j : K) → get (change_all f m) j ≡ map_option (f j) (get m j)
  unfolding get change_all
  get-change_all f m j = ground arith

  search_keys_sound :
      (p : K → V → Bool) (m : Map K V) (ks : List K) (k : K)
      → search_keys p m ks ≡ some k
      → holds (p k) (get m k) ≡ true
  unfolding search_keys
  search_keys_sound p m [] k h = ground arith
  search_keys_sound p m (x ∷ ks) k h = ground (arith, search_keys_sound p m ks k)

  search_keys_complete :
      (p : K → V → Bool) (m : Map K V) (ks : List K) (k : K)
      → search_keys p m ks ≡ none
      → contains ks k ≡ true
      → holds (p k) (get m k) ≡ false
  unfolding search_keys contains
  search_keys_complete p m [] k h c = ground arith
  search_keys_complete p m (x ∷ ks) k h c =
      ground (arith, search_keys_complete p m ks k, e.beq_iff k x)

  -- What `find` returns is a key of an entry that passes the test.
  pub find_sound :
      (p : K → V → Bool) (m : Map K V) (k : K)
      → find p m ≡ some k
      → (v : V) × (get m k ≡ some v) × (p k v ≡ true)
  unfolding find
  find_sound p m k h = ground (arith, search_keys_sound p m m.keys k)

  -- If `find` returns nothing, no entry passes the test.
  pub find_complete :
      (p : K → V → Bool) (m : Map K V) (k : K) (v : V)
      → find p m ≡ none
      → get m k ≡ some v
      → p k v ≡ false
  unfolding find get
  find_complete p m k v h g = ground (arith, search_keys_complete p m m.keys k)

  pub find_value_sound :
      (p : V → Bool) (m : Map K V) (v : V)
      → find_value p m ≡ some v
      → (k : K) × (get m k ≡ some v) × (p v ≡ true)
  unfolding find_value
  find_value_sound p m v h = elim (Option-cases (find (λ _. p) m)) [
    | inl e ↦ absurd (ground arith)
    | inr (k, e) ↦ (k, ground arith, ground (arith, find_sound (λ _. p) m k))
  ]

  pub find_value_complete :
      (p : V → Bool) (m : Map K V) (k : K) (v : V)
      → find_value p m ≡ none
      → get m k ≡ some v
      → p v ≡ false
  unfolding find_value
  find_value_complete p m k v h g = elim (Option-cases (find (λ _. p) m)) [
    | inl e ↦ find_complete (λ _. p) m k v e g
    | inr (j, e) ↦ absurd (ground (arith, find_sound (λ _. p) m j))
  ]

  -- An entry that alone passes a test is found.
  pub find_value-put :
      (p : V → Bool) (m : Map K V) (k : K) (v : V)
      → find_value p m ≡ none
      → p v ≡ true
      → find_value p (put m k v) ≡ some v
  find_value-put p m k v fresh here = elim (Option-cases (find_value p (put m k v))) [
    | inl missed ↦
        absurd
          (ground (arith, find_value_complete p (put m k v) k v, get-put m k v k, e.beq_iff k k))
    | inr (w, found) ↦
        let (j, at, passed) = find_value_sound p (put m k v) w found in
        ground (arith, get-put m k v j, find_value_complete p m j w)
  ]

pub ruleset map_laws = (get-empty, get-put, get-delete, get-delete_if, get-change_all)
