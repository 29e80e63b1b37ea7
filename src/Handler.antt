-- ===== src/Handler.antt =====
-- The handlers of the admin API and of the sign-in endpoints: a chain of steps over the store. A
-- step goes on with a value or answers the request; what was written before an answer stays written.
use go_auth_x.Base.{Bool, arith, if◌then◌else◌, refl, ℕ, ◌≡◌, ◌≢◌}
use go_auth_x.Memory.Store.{Store}
use go_auth_x.Org.Gate.{Gate, Reply, deny, go, stop}
use go_auth_x.Types.{Error, Result, err, ok}

abbrev pub Handler {ℓ} : Type ℓ → Type ℓ
Handler A = Store → Store × Gate A

abbrev pub follow {ℓ κ} :
    {A : Type ℓ} {B : Type κ} → Store × Gate A → (A → Handler B) → Store × Gate B
follow (s, stop r) f = (s, stop r)
follow (s, go a) f = f a s

infixl 5 ◌>>=◌ ◌>>◌
abbrev pub ◌>>=◌ {ℓ κ} : {A : Type ℓ} {B : Type κ} → Handler A → (A → Handler B) → Handler B
◌>>=◌ m f s = follow (m s) f

abbrev pub ◌>>◌ {ℓ κ} : {A : Type ℓ} {B : Type κ} → Handler A → Handler B → Handler B
m >> k = m >>= λ _. k

abbrev pub reply_with {ℓ} : {A : Type ℓ} → A → Handler A
reply_with a s = (s, go a)

abbrev pub gate {ℓ} : {A : Type ℓ} → Gate A → Handler A
gate g s = (s, g)

abbrev pub refuse {ℓ} : {A : Type ℓ} → ℕ → Handler A
refuse status s = (s, deny status)

abbrev pub refuse_if : Bool → ℕ → Handler (Unit {0})
refuse_if b status s = (s, if b then deny status else go tt)

abbrev pub gets {ℓ} : {A : Type ℓ} → (Store → A) → Handler A
gets f s = (s, go (f s))

abbrev pub change : (Store → Store) → Handler (Unit {0})
change f s = (f s, go tt)

-- The answer to an error is a status.
abbrev pub or_answer {ℓ} : {A : Type ℓ} → (Error → ℕ) → Result A → Gate A
or_answer status (ok a) = go a
or_answer status (err e) = deny (status e)

abbrev pub fetch {ℓ} : {A : Type ℓ} → (Store → Result A) → (Error → ℕ) → Handler A
fetch f status s = (s, or_answer status (f s))

abbrev pub attempt {ℓ} : {A : Type ℓ} → (Store → Store × Result A) → (Error → ℕ) → Handler A
attempt f status s = let (s', r) = f s in (s', or_answer status r)

-- Every error is answered alike.
abbrev pub always : ℕ → Error → ℕ
always status e = status

pub stop_ne_go {ℓ} : {A : Type ℓ} (r : Reply) (a : A) → stop r ≢ go a
stop_ne_go r a h = ground arith

-- What holds of every answer, and of the rest of a chain wherever its first step goes through.
pub follow_holds {ℓ κ μ} :
    {A : Type ℓ} {B : Type κ} (P : Store × Gate B → Type μ) (p : Store × Gate A) (f : A → Handler B)
    → ((r : Reply) → P (p.0, stop r))
    → ((a : A) → p.1 ≡ go a → P (f a p.0))
    → P (follow p f)
follow_holds P (s, stop r) f answered goes = answered r
follow_holds P (s, go a) f answered goes = goes a refl
