-- ===== src/Store/Migrations/Order.antt =====
-- The order of the migrations, and the highest recorded version.
use grns.Base.{
  ℕ, ◌<◌, ◌≡◌, refl, Bool, true, false, ◌&&◌, List, [], ◌∷◌, ◌++◌, map, nat_eq, ltb, contains,
  distinct, all, arith,
}
use grns.Store.Migrations.{Migration, insert_by_version, sort_by_version, max_version}

abbrev pub versions : List Migration → List ℕ
versions = map (λ m. m.version)

-- Versions from 1 on, no two of them the same.
abbrev pub IsNumbered : List Migration → Type 0
IsNumbered ms = (all (λ m. ltb 0 m.version) ms ≡ true) × (distinct (versions ms) ≡ true)

-- Each version is above the one before it, the first above `n`.
unfoldable pub ascends : ℕ → List Migration → Bool
ascends n [] = true
ascends n (m ∷ ms) = ltb n m.version && ascends m.version ms

contains-insert_by_version :
    (m : Migration) (ms : List Migration) (v : ℕ)
    → contains (versions (insert_by_version m ms)) v ≡ contains (versions (m ∷ ms)) v
unfolding insert_by_version contains
contains-insert_by_version m [] v = refl
contains-insert_by_version m (k ∷ ms) v = ground (arith, contains-insert_by_version m ms v)

contains-sort_by_version :
    (ms : List Migration) (v : ℕ)
    → contains (versions (sort_by_version ms)) v ≡ contains (versions ms) v
unfolding sort_by_version contains
contains-sort_by_version [] v = refl
contains-sort_by_version (m ∷ ms) v =
    ground
      (arith, contains-insert_by_version m (sort_by_version ms) v, contains-sort_by_version ms v)

insert_by_version-ascends :
    (n : ℕ) (m : Migration) (ms : List Migration)
    → n < m.version
    → ascends n ms ≡ true
    → contains (versions ms) m.version ≡ false
    → ascends n (insert_by_version m ms) ≡ true
unfolding insert_by_version ascends contains
insert_by_version-ascends n m [] h a c = ground arith
insert_by_version-ascends n m (k ∷ ms) h a c =
    ground (arith, insert_by_version-ascends k.version m ms)

pub sort_by_version-ascends :
    (ms : List Migration) → IsNumbered ms → ascends 0 (sort_by_version ms) ≡ true
unfolding sort_by_version ascends distinct
sort_by_version-ascends [] h = refl
sort_by_version-ascends (m ∷ ms) h = ground (
  arith,
  sort_by_version-ascends ms,
  insert_by_version-ascends 0 m (sort_by_version ms),
  contains-sort_by_version ms m.version,
)

pub max_version-append : (vs : List ℕ) (v : ℕ) → max_version vs < v → max_version (vs ++ v ∷ []) ≡ v
unfolding max_version
max_version-append [] v h = ground arith
max_version-append (w ∷ vs) v h = ground (arith, max_version-append vs v)

pub contains-above_max : (vs : List ℕ) (v : ℕ) → max_version vs < v → contains vs v ≡ false
unfolding max_version contains
contains-above_max [] v h = refl
contains-above_max (w ∷ vs) v h = ground (arith, contains-above_max vs v)
