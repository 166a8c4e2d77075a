-- ===== src/Prelude/Vectors.antt =====
-- Laws of `Vec::remove`, `Vec::insert` and writes, read position by position.
use rsplayer.Prelude.Tests.{ltb, ◌==◌, if◌then◌else◌}
use rsplayer.Prelude.Lists.{length, get_elem?, insert_at, remove_at}
use Prim.Native.Nat.{ℕ, zero, suc, ◌-◌, ◌<◌, ◌≤◌}
use mathlib.Core.Path.{◌≡◌, refl, ap, ap₂}
use mathlib.Core.List.{List, [], ◌∷◌}
use mathlib.Core.Option.{none, some}
use native.Mathlib.Omega.{arith}

module _ {ℓ} {A : Type ℓ} where
  abbrev pub set : List A → ℕ → A → List A
  set [] i v = []
  set (x ∷ xs) zero v = v ∷ xs
  set (x ∷ xs) (suc i) v = x ∷ set xs i v

  pub length-set : (xs : List A) (i : ℕ) (v : A) → length (set xs i v) ≡ length xs
  length-set [] i v = refl
  length-set (x ∷ xs) zero v = refl
  length-set (x ∷ xs) (suc i) v = ap suc (length-set xs i v)

  pub get_elem?-set :
      (xs : List A) (i : ℕ) (v : A) (j : ℕ)
      → i < length xs
      → get_elem? (set xs i v) j ≡ (if i == j then some v else get_elem? xs j)
  get_elem?-set [] i v j h = absurd (omega arith)
  get_elem?-set (x ∷ xs) zero v zero h = refl
  get_elem?-set (x ∷ xs) zero v (suc j) h = ground arith
  get_elem?-set (x ∷ xs) (suc i) v zero h = ground arith
  get_elem?-set (x ∷ xs) (suc i) v (suc j) h = ground (arith, get_elem?-set xs i v j)

  pub get_elem?-remove_at :
      (xs : List A) (i j : ℕ)
      → get_elem? (remove_at i xs) j ≡ (if ltb j i then get_elem? xs j else get_elem? xs (suc j))
  get_elem?-remove_at [] i j = ground arith
  get_elem?-remove_at (x ∷ xs) zero j = ground arith
  get_elem?-remove_at (x ∷ xs) (suc i) zero = ground arith
  get_elem?-remove_at (x ∷ xs) (suc i) (suc j) = ground (arith, get_elem?-remove_at xs i j)

  pub get_elem?-insert_at :
      (xs : List A) (i : ℕ) (v : A) (j : ℕ)
      → i ≤ length xs
      → get_elem? (insert_at i v xs) j
        ≡ (if ltb j i then get_elem? xs j else if j == i then some v else get_elem? xs (j - 1))
  get_elem?-insert_at xs zero v zero h = ground arith
  get_elem?-insert_at xs zero v (suc j) h = ground arith
  get_elem?-insert_at [] (suc i) v j h = absurd (omega arith)
  get_elem?-insert_at (x ∷ xs) (suc i) v zero h = ground arith
  get_elem?-insert_at (x ∷ xs) (suc i) v (suc zero) h =
      ground (arith, get_elem?-insert_at xs i v zero)
  get_elem?-insert_at (x ∷ xs) (suc i) v (suc (suc j)) h =
      ground (arith, get_elem?-insert_at xs i v (suc j))

  -- Lists with the same element at every position are equal.
  pub get_elem?-ext : (xs ys : List A) → ((i : ℕ) → get_elem? xs i ≡ get_elem? ys i) → xs ≡ ys
  get_elem?-ext [] [] h = refl
  get_elem?-ext [] (y ∷ ys) h = absurd (cc (h 0))
  get_elem?-ext (x ∷ xs) [] h = absurd (cc (h 0))
  get_elem?-ext (x ∷ xs) (y ∷ ys) h =
      let e : x ≡ y = cc (h 0) in ap₂ ◌∷◌ e (get_elem?-ext xs ys (λ i. h (suc i)))

  pub get_elem?-length : (xs : List A) (i : ℕ) (x : A) → get_elem? xs i ≡ some x → i < length xs
  get_elem?-length [] i x h = absurd (cc)
  get_elem?-length (y ∷ xs) zero x h = omega arith
  get_elem?-length (y ∷ xs) (suc i) x h = omega (arith, get_elem?-length xs i x h)

  pub get_elem?-out : (xs : List A) (i : ℕ) → length xs ≤ i → get_elem? xs i ≡ none
  get_elem?-out [] i h = refl
  get_elem?-out (y ∷ xs) zero h = absurd (omega arith)
  get_elem?-out (y ∷ xs) (suc i) h = get_elem?-out xs i (omega arith)
