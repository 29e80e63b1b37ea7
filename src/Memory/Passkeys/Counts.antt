-- ===== src/Memory/Passkeys/Counts.antt =====
-- Passkeys: one row for each credential, and signature counts that never fall.
use go_auth_x.Base.{
  List, Option-cases, [], ap, arith, if◌then◌else◌, inl, inr, list_beq_iff, list_eq, ltb, nat_eq,
  refl, some, ℕ, ◌+◌, ◌<◌, ◌∙◌, ◌∷◌, ◌≡◌, ◌≤◌,
}
use go_auth_x.Map.{Map, count, find, find_complete, get, get-change_all, get-put}
use go_auth_x.Memory.Passkeys.{add_passkey, same_credential, touch, touch_passkey}
use go_auth_x.Memory.Store.{Store, StoredPasskey, next_id}
use go_auth_x.Memory.Users.{with_id}
use go_auth_x.Text.{Bytes, Text, id_str, parse_id, u64}
use go_auth_x.Types.{Passkey, Time}

pub record IsValidPasskeys (seq : ℕ) (passkeys : Map ℕ StoredPasskey) : Type 0 where
  pub issued : (k : ℕ) (pk : StoredPasskey) → get passkeys k ≡ some pk → k ≤ seq
  pub one_row :
      (j k : ℕ) (p q : StoredPasskey)
      → get passkeys j ≡ some p
      → get passkeys k ≡ some q
      → p.p.credential_id ≡ q.p.credential_id
      → j ≡ k

-- AddPasskey never lets two rows share a credential, whoever registers it.
pub add_passkey-IsValidPasskeys :
    (s : Store) (user_id : Text) (p : Passkey) (now : Time)
    → IsValidPasskeys s.pk_seq s.passkeys
    → s.pk_seq + 1 < u64
    → let s' = (add_passkey s user_id p now).0 in IsValidPasskeys s'.pk_seq s'.passkeys
unfolding add_passkey
add_passkey-IsValidPasskeys s user_id p now valid room = elim (Option-cases (parse_id user_id)) [
  | inl e ↦ rw (e, with_id) valid
  | inr (n, e) ↦ elim (Option-cases (find (same_credential p.credential_id) s.passkeys)) [
    | inr (other, m) ↦ rw (e, with_id) (rw m valid)
    | inl m ↦
        let id = next_id s.pk_seq in
        let row : StoredPasskey = record {
          p = record p { id = id_str id; created_at = now; last_used_at = now };
          user_id = n;
        } in
        let free = find_complete (same_credential p.credential_id) s.passkeys in
        rw (e, with_id)
          (rw m (record {
            issued = λ k q h. ground (arith, get-put s.passkeys id row k, valid.issued k q);
            one_row = λ j k q r hj hk c. ground (
              arith,
              get-put s.passkeys id row j,
              get-put s.passkeys id row k,
              valid.one_row j k q r,
              free j q,
              free k r,
              list_beq_iff q.p.credential_id p.credential_id,
              list_beq_iff r.p.credential_id p.credential_id,
            );
          }))
  ]
]

-- The assertions of one credential, each with its count and time.
pub touches : Store → Bytes → List (ℕ × Time) → Store
touches s credential_id [] = s
touches s credential_id ((sign_count, now) ∷ rest) =
    touches (touch_passkey s credential_id sign_count now) credential_id rest

abbrev pub greatest : ℕ → List (ℕ × Time) → ℕ
greatest n [] = n
greatest n ((c, now) ∷ rest) = greatest (if ltb n c then c else n) rest

touch_count :
    (s : Store) (credential_id : Bytes) (sign_count : ℕ) (now : Time) (k : ℕ) (pk : StoredPasskey)
    → get s.passkeys k ≡ some pk
    → (pk' : StoredPasskey) × (get (touch_passkey s credential_id sign_count now).passkeys k
        ≡ some pk')
      × (pk'.p.credential_id ≡ pk.p.credential_id)
      × (pk.p.credential_id ≡ credential_id
          → pk'.p.sign_count
            ≡ (if ltb pk.p.sign_count sign_count then sign_count else pk.p.sign_count))
unfolding touch_passkey touch
touch_count s credential_id sign_count now k pk h = (
  touch credential_id sign_count now pk,
  ground (arith, get-change_all (λ _. touch credential_id sign_count now) s.passkeys k),
  ground arith,
  λ e. ground (arith, list_beq_iff pk.p.credential_id credential_id),
)

-- After any assertions of a credential its stored count is the greatest that was ever seen: a stale
-- or replayed assertion never lowers it.
pub touches-greatest :
    (s : Store) (credential_id : Bytes) (tries : List (ℕ × Time)) (k : ℕ) (pk : StoredPasskey)
    → get s.passkeys k ≡ some pk
    → pk.p.credential_id ≡ credential_id
    → (pk' : StoredPasskey) × (get (touches s credential_id tries).passkeys k ≡ some pk')
      × (pk'.p.sign_count ≡ greatest pk.p.sign_count tries)
unfolding touches
touches-greatest s credential_id [] k pk h e = (pk, h, refl)
touches-greatest s credential_id ((c, now) ∷ rest) k pk h e =
    let (pk', h', same, count) = touch_count s credential_id c now k pk h in
    let (last, g, q) =
      touches-greatest (touch_passkey s credential_id c now) credential_id rest k pk' h'
        (same ∙ e) in
    (last, g, q ∙ ap (λ n. greatest n rest) (count e))
