-- ===== src/Store.antt =====
-- The embedded key-value database that the services of crates/metadata keep their state in (the
-- `fjall` crate). It is not part of the repository, so a keyspace is an interface: its operations,
-- and its documented behaviour as a map that is iterated in key order. The laws are stated through
-- the listing `iter`, with the list functions of `Ordered`. A disk that fails is not modelled.
-- `Table` is an instance.
pub mod Ordered
pub mod Texts
pub mod Table
use rsplayer.Song.{Text}
use rsplayer.Prelude.{ℕ, ◌≡◌, Bool, Option, List, [], ltb, leb, filter, head?, last?, is_some}
use Ordered
use Texts

pub record Keyspace (V : Type 0) : Type 1 where
  pub Store : Type 0
  -- `Keyspace::iter`
  pub iter : Store → List (ℕ × V)
  pub get : Store → ℕ → Option V
  pub contains_key : Store → ℕ → Bool
  pub first_key_value : Store → Option (ℕ × V)
  pub last_key_value : Store → Option (ℕ × V)
  -- `range((Excluded(k), Unbounded))`, `range(k..)` and `range(..k)`
  pub range_after : Store → ℕ → List (ℕ × V)
  pub range_from : Store → ℕ → List (ℕ × V)
  pub range_before : Store → ℕ → List (ℕ × V)
  pub insert : Store → ℕ → V → Store
  pub remove : Store → ℕ → Store
  pub clear : Store → Store
  pub iter-IsSorted : (s : Store) → Ordered.IsSorted (iter s)
  pub get_lem : (s : Store) (k : ℕ) → get s k ≡ Ordered.lookup k (iter s)
  pub contains_key_lem :
      (s : Store) (k : ℕ) → contains_key s k ≡ is_some (Ordered.lookup k (iter s))
  pub first_lem : (s : Store) → first_key_value s ≡ head? (iter s)
  pub last_lem : (s : Store) → last_key_value s ≡ last? (iter s)
  pub range_after_lem : (s : Store) (k : ℕ) → range_after s k ≡ filter (λ e. ltb k e.0) (iter s)
  pub range_from_lem : (s : Store) (k : ℕ) → range_from s k ≡ filter (λ e. leb k e.0) (iter s)
  pub range_before_lem : (s : Store) (k : ℕ) → range_before s k ≡ filter (λ e. ltb e.0 k) (iter s)
  pub iter-insert : (s : Store) (k : ℕ) (v : V) → iter (insert s k v) ≡ Ordered.insert k v (iter s)
  pub iter-remove : (s : Store) (k : ℕ) → iter (remove s k) ≡ Ordered.remove k (iter s)
  pub iter-clear : (s : Store) → iter (clear s) ≡ []

-- A keyspace whose keys are texts.
pub record TextKeyspace (V : Type 0) : Type 1 where
  pub Store : Type 0
  pub iter : Store → List (Text × V)
  pub get : Store → Text → Option V
  -- `Keyspace::prefix`
  pub prefix : Store → Text → List (Text × V)
  pub insert : Store → Text → V → Store
  pub remove : Store → Text → Store
  pub clear : Store → Store
  pub iter-IsSorted : (s : Store) → Texts.IsSorted (iter s)
  pub get_lem : (s : Store) (k : Text) → get s k ≡ Texts.lookup k (iter s)
  pub prefix_lem : (s : Store) (p : Text) → prefix s p ≡ Texts.with_prefix p (iter s)
  pub iter-insert : (s : Store) (k : Text) (v : V) → iter (insert s k v) ≡ Texts.insert k v (iter s)
  pub iter-remove : (s : Store) (k : Text) → iter (remove s k) ≡ Texts.remove k (iter s)
  pub iter-clear : (s : Store) → iter (clear s) ≡ []
