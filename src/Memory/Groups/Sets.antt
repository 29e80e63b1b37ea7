-- ===== src/Memory/Groups/Sets.antt =====
-- The memberships of a group where another group changes.
use go_auth_x.Base.{
  Bool, List, Option-cases, [], arith, inl, inr, list_eq, nat_beq_iff, nat_eq, refl, true, ℕ, ◌∙◌,
  ◌∷◌, ◌≡◌, ◌≢◌,
}
use go_auth_x.Map.{Map, delete, get, get-change_all, get-delete, get-put, is_some, put}
use go_auth_x.Memory.Groups.{
  add_member, add_members, drop_group, drop_member, drop_members, groups_of,
}
use go_auth_x.Memory.Users.{with_id, with_id_cases}
use go_auth_x.Text.{Text}

pub other_added :
    (uid gid : ℕ) (sets : Map ℕ (Map ℕ Bool)) (v j : ℕ)
    → gid ≢ j
    → is_some (get (groups_of (add_member uid gid sets) v) j) ≡ is_some (get (groups_of sets v) j)
other_added uid gid sets v j other = ground (
  arith,
  get-put sets uid (put (groups_of sets uid) gid true) v,
  get-put (groups_of sets uid) gid true j,
  nat_beq_iff gid j,
  nat_beq_iff uid v,
)

pub other_dropped :
    (uid gid : ℕ) (sets : Map ℕ (Map ℕ Bool)) (v j : ℕ)
    → gid ≢ j
    → is_some (get (groups_of (drop_member uid gid sets) v) j) ≡ is_some (get (groups_of sets v) j)
other_dropped uid gid sets v j other = elim (Option-cases (get sets uid)) [
  | inl e ↦ rw (e, drop_member) refl
  | inr (set, e) ↦ ground (
    arith,
    get-put sets uid (delete set gid) v,
    get-delete set gid j,
    nat_beq_iff gid j,
    nat_beq_iff uid v,
  )
]

pub others_added :
    (gid : ℕ) (ids : List Text) (sets : Map ℕ (Map ℕ Bool)) (v j : ℕ)
    → gid ≢ j
    → is_some (get (groups_of (add_members gid ids sets) v) j) ≡ is_some (get (groups_of sets v) j)
unfolding add_members
others_added gid [] sets v j other = refl
others_added gid (id ∷ ids) sets v j other =
    others_added gid ids (with_id id sets λ uid. add_member uid gid sets) v j other
    ∙ with_id_cases (λ t. is_some (get (groups_of t v) j) ≡ is_some (get (groups_of sets v) j)) id
        refl λ uid e. other_added uid gid sets v j other

pub others_dropped :
    (gid : ℕ) (ids : List Text) (sets : Map ℕ (Map ℕ Bool)) (v j : ℕ)
    → gid ≢ j
    → is_some (get (groups_of (drop_members gid ids sets) v) j) ≡ is_some (get (groups_of sets v) j)
unfolding drop_members
others_dropped gid [] sets v j other = refl
others_dropped gid (id ∷ ids) sets v j other =
    others_dropped gid ids (with_id id sets λ uid. drop_member uid gid sets) v j other
    ∙ with_id_cases (λ t. is_some (get (groups_of t v) j) ≡ is_some (get (groups_of sets v) j)) id
        refl λ uid e. other_dropped uid gid sets v j other

pub other_deleted :
    (gid : ℕ) (sets : Map ℕ (Map ℕ Bool)) (v j : ℕ)
    → gid ≢ j
    → is_some (get (groups_of (drop_group gid sets) v) j) ≡ is_some (get (groups_of sets v) j)
other_deleted gid sets v j other = elim (Option-cases (get sets v)) [
  | inl e ↦ ground (arith, get-change_all (λ (_ : ℕ) (set : Map ℕ Bool). delete set gid) sets v)
  | inr (set, e) ↦ ground (
    arith,
    get-change_all (λ (_ : ℕ) (set : Map ℕ Bool). delete set gid) sets v,
    get-delete set gid j,
    nat_beq_iff gid j,
  )
]
