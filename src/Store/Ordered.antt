-- ===== src/Store/Ordered.antt =====
-- Association lists in strictly increasing key order: what a keyspace is observed through.
use rsplayer.Prelude.{
  ℕ, suc, ◌<◌, ◌≤◌, ◌≡◌, refl, ap, Option, none, some, List, [], ◌∷◌, ◌++◌, arith, ltb, ◌==◌,
  if◌then◌else◌, length, filter, leb, get_elem?, position, Bool-cases, inl, inr,
}
use rsplayer.Prelude.Vectors.{set}
use Prim.Native.Nat.{zero}

module _ {V : Type 0} where
  abbrev pub lookup : ℕ → List (ℕ × V) → Option V
  lookup k [] = none
  lookup k ((j, v) ∷ l) = if j == k then some v else lookup k l

  abbrev pub insert : ℕ → V → List (ℕ × V) → List (ℕ × V)
  insert k v [] = (k, v) ∷ []
  insert k v ((j, w) ∷ l) =
      if j == k then (k, v) ∷ l else if ltb k j then (k, v) ∷ (j, w) ∷ l else (j, w) ∷ insert k v l

  abbrev pub remove : ℕ → List (ℕ × V) → List (ℕ × V)
  remove k [] = []
  remove k ((j, w) ∷ l) = if j == k then l else (j, w) ∷ remove k l

  abbrev pub keys : List (ℕ × V) → List ℕ
  keys [] = []
  keys ((k, v) ∷ l) = k ∷ keys l

  abbrev pub values : List (ℕ × V) → List V
  values [] = []
  values ((k, v) ∷ l) = v ∷ values l

  -- Every key lies above, or below, a bound.
  abbrev pub Above : ℕ → List (ℕ × V) → Type 0
  Above b [] = Unit
  Above b ((k, v) ∷ l) = (b < k) × Above b l

  abbrev pub Below : ℕ → List (ℕ × V) → Type 0
  Below b [] = Unit
  Below b ((k, v) ∷ l) = (k < b) × Below b l

  abbrev pub IsSorted : List (ℕ × V) → Type 0
  IsSorted [] = Unit
  IsSorted ((k, v) ∷ l) = Above k l × IsSorted l

  pub Above-weaken : (a b : ℕ) (l : List (ℕ × V)) → a ≤ b → Above b l → Above a l
  Above-weaken a b [] h p = tt
  Above-weaken a b ((k, v) ∷ l) h p = (omega arith, Above-weaken a b l h p.1)

  pub Below-weaken : (a b : ℕ) (l : List (ℕ × V)) → a ≤ b → Below a l → Below b l
  Below-weaken a b [] h p = tt
  Below-weaken a b ((k, v) ∷ l) h p = (omega arith, Below-weaken a b l h p.1)

  pub insert-Above :
      (b k : ℕ) (v : V) (l : List (ℕ × V)) → b < k → Above b l → Above b (insert k v l)
  insert-Above b k v [] h p = (h, tt)
  insert-Above b k v ((j, w) ∷ l) h p = ground (arith, insert-Above b k v l h p.1)

  pub insert-IsSorted : (k : ℕ) (v : V) (l : List (ℕ × V)) → IsSorted l → IsSorted (insert k v l)
  insert-IsSorted k v [] p = (tt, tt)
  insert-IsSorted k v ((j, w) ∷ l) p =
      ground (arith, insert-IsSorted k v l p.1, insert-Above j k v l, Above-weaken k j l)

  pub remove-Above : (b k : ℕ) (l : List (ℕ × V)) → Above b l → Above b (remove k l)
  remove-Above b k [] p = tt
  remove-Above b k ((j, w) ∷ l) p = ground (arith, remove-Above b k l p.1)

  pub remove-IsSorted : (k : ℕ) (l : List (ℕ × V)) → IsSorted l → IsSorted (remove k l)
  remove-IsSorted k [] p = tt
  remove-IsSorted k ((j, w) ∷ l) p = ground (arith, remove-IsSorted k l p.1, remove-Above j k l p.0)

  pub remove-Below : (b k : ℕ) (l : List (ℕ × V)) → Below b l → Below b (remove k l)
  remove-Below b k [] p = tt
  remove-Below b k ((j, w) ∷ l) p = ground (arith, remove-Below b k l p.1)

  pub insert-Below :
      (b k : ℕ) (v : V) (l : List (ℕ × V)) → k < b → Below b l → Below b (insert k v l)
  insert-Below b k v [] h p = (h, tt)
  insert-Below b k v ((j, w) ∷ l) h p = ground (arith, insert-Below b k v l h p.1)

  -- A key above all others is inserted at the end.
  pub insert-Below_append :
      (k : ℕ) (v : V) (l : List (ℕ × V)) → Below k l → insert k v l ≡ l ++ (k, v) ∷ []
  insert-Below_append k v [] p = refl
  insert-Below_append k v ((j, w) ∷ l) p = ground (arith, insert-Below_append k v l p.1)

  pub lookup-Above : (b k : ℕ) (l : List (ℕ × V)) → Above b l → k ≤ b → lookup k l ≡ none
  lookup-Above b k [] p h = refl
  lookup-Above b k ((j, w) ∷ l) p h = ground (arith, lookup-Above b k l p.1 h)

  pub lookup-insert :
      (k j : ℕ) (v : V) (l : List (ℕ × V))
      → lookup j (insert k v l) ≡ (if k == j then some v else lookup j l)
  lookup-insert k j v [] = refl
  lookup-insert k j v ((i, w) ∷ l) = ground (arith, lookup-insert k j v l)

  pub length-keys : (l : List (ℕ × V)) → length (keys l) ≡ length l
  length-keys [] = refl
  length-keys ((k, v) ∷ l) = ap suc (length-keys l)

  pub values-append : (l m : List (ℕ × V)) → values (l ++ m) ≡ values l ++ values m
  values-append [] m = refl
  values-append ((k, v) ∷ l) m = ap (λ r. v ∷ r) (values-append l m)

  pub lookup-append_some :
      (k : ℕ) (v : V) (l m : List (ℕ × V)) → lookup k l ≡ some v → lookup k (l ++ m) ≡ some v
  lookup-append_some k v [] m h = absurd (ground arith)
  lookup-append_some k v ((j, w) ∷ l) m h = ground (arith, lookup-append_some k v l m)

  pub lookup-Below_append :
      (k : ℕ) (v : V) (l : List (ℕ × V)) → Below k l → lookup k (l ++ (k, v) ∷ []) ≡ some v
  lookup-Below_append k v [] h = ground arith
  lookup-Below_append k v ((j, w) ∷ l) h = ground (arith, lookup-Below_append k v l h.1)

  pub filter_after-none :
      (k : ℕ) (l : List (ℕ × V)) → Below (suc k) l → filter (λ e. ltb k e.0) l ≡ []
  filter_after-none k [] h = refl
  filter_after-none k ((j, w) ∷ l) h = ground (arith, filter_after-none k l h.1)

  pub filter_after-all : (k : ℕ) (l : List (ℕ × V)) → Above k l → filter (λ e. ltb k e.0) l ≡ l
  filter_after-all k [] h = refl
  filter_after-all k ((j, w) ∷ l) h = ground (arith, filter_after-all k l h.1)

  pub filter_before-none :
      (k b : ℕ) (l : List (ℕ × V)) → k ≤ suc b → Above b l → filter (λ e. ltb e.0 k) l ≡ []
  filter_before-none k b [] le h = refl
  filter_before-none k b ((j, w) ∷ l) le h = ground (arith, filter_before-none k b l le h.1)

  pub Above-append_right : (b : ℕ) (l m : List (ℕ × V)) → Above b (l ++ m) → Above b m
  Above-append_right b [] m h = h
  Above-append_right b ((k, v) ∷ l) m h = Above-append_right b l m h.1

  -- In a sorted list, what lies after, before, and from a key on.
  pub filter_after-split :
      (k : ℕ) (v : V) (l m : List (ℕ × V))
      → IsSorted (l ++ (k, v) ∷ m)
      → filter (λ e. ltb k e.0) (l ++ (k, v) ∷ m) ≡ m
  filter_after-split k v [] m h = ground (arith, filter_after-all k m h.0)
  filter_after-split k v ((j, w) ∷ l) m h =
      let below : j < k = (Above-append_right j l ((k, v) ∷ m) h.0).0 in
      ground (arith, filter_after-split k v l m h.1)

  pub filter_before-split :
      (k : ℕ) (v : V) (l m : List (ℕ × V))
      → IsSorted (l ++ (k, v) ∷ m)
      → filter (λ e. ltb e.0 k) (l ++ (k, v) ∷ m) ≡ l
  filter_before-split k v [] m h = ground (arith, filter_before-none k k m (omega arith) h.0)
  filter_before-split k v ((j, w) ∷ l) m h =
      let below : j < k = (Above-append_right j l ((k, v) ∷ m) h.0).0 in
      ground (arith, filter_before-split k v l m h.1)

  pub filter_from-all : (k : ℕ) (l : List (ℕ × V)) → Above k l → filter (λ e. leb k e.0) l ≡ l
  filter_from-all k [] h = refl
  filter_from-all k ((j, w) ∷ l) h = ground (arith, filter_from-all k l h.1)

  pub filter_from-split :
      (k : ℕ) (v : V) (l m : List (ℕ × V))
      → IsSorted (l ++ (k, v) ∷ m)
      → filter (λ e. leb k e.0) (l ++ (k, v) ∷ m) ≡ (k, v) ∷ m
  filter_from-split k v [] m h = ground (arith, filter_from-all k m h.0)
  filter_from-split k v ((j, w) ∷ l) m h =
      let below : j < k = (Above-append_right j l ((k, v) ∷ m) h.0).0 in
      ground (arith, filter_from-split k v l m h.1)

  pub lookup-split :
      (k : ℕ) (v : V) (l m : List (ℕ × V))
      → IsSorted (l ++ (k, v) ∷ m)
      → lookup k (l ++ (k, v) ∷ m) ≡ some v
  lookup-split k v [] m h = ground arith
  lookup-split k v ((j, w) ∷ l) m h =
      let below : j < k = (Above-append_right j l ((k, v) ∷ m) h.0).0 in
      ground (arith, lookup-split k v l m h.1)

  pub get_elem?-Above :
      (b i k : ℕ) (l : List (ℕ × V)) → Above b l → get_elem? (keys l) i ≡ some k → b < k
  get_elem?-Above b i k [] h e = absurd (cc)
  get_elem?-Above b zero k ((j, v) ∷ l) h e = ground arith
  get_elem?-Above b (suc i) k ((j, v) ∷ l) h e = get_elem?-Above b i k l h.1 e

  -- Writing under a key that is there changes the value at its position and nothing else.
  pub insert-set :
      (i k : ℕ) (v : V) (l : List (ℕ × V))
      → IsSorted l
      → get_elem? (keys l) i ≡ some k
      → (keys (insert k v l) ≡ keys l) × (values (insert k v l) ≡ set (values l) i v)
  insert-set i k v [] s e = absurd (cc)
  insert-set zero k v ((j, w) ∷ l) s e = ground arith
  insert-set (suc i) k v ((j, w) ∷ l) s e =
      let below = get_elem?-Above j i k l s.0 e in ground (arith, insert-set i k v l s.1 e)

  pub lookup-get_elem? :
      (i k : ℕ) (v : V) (l : List (ℕ × V))
      → IsSorted l
      → get_elem? (keys l) i ≡ some k
      → get_elem? (values l) i ≡ some v
      → lookup k l ≡ some v
  lookup-get_elem? i k v [] s e f = absurd (cc)
  lookup-get_elem? zero k v ((j, w) ∷ l) s e f = ground arith
  lookup-get_elem? (suc i) k v ((j, w) ∷ l) s e f =
      let below = get_elem?-Above j i k l s.0 e in ground (arith, lookup-get_elem? i k v l s.1 e f)

  pub length-values : (l : List (ℕ × V)) → length (values l) ≡ length (keys l)
  length-values [] = refl
  length-values ((k, v) ∷ l) = ap suc (length-values l)

  -- The position of a key that is there.
  pub lookup-position :
      (k : ℕ) (v : V) (l : List (ℕ × V))
      → lookup k l ≡ some v
      → (i : ℕ) × (position k (keys l) ≡ some i)
        × (get_elem? (keys l) i ≡ some k)
        × (get_elem? (values l) i ≡ some v)
  lookup-position k v [] h = absurd (cc)
  lookup-position k v ((j, w) ∷ l) h = elim (Bool-cases (j == k)) [
    | inl e ↦ (0, ground arith, ground arith, ground arith)
    | inr e ↦ let (i, p, f, g) = lookup-position k v l (ground arith) in (suc i, ground arith, f, g)
  ]

  pub Below-keys : (b : ℕ) (l m : List (ℕ × V)) → keys m ≡ keys l → Below b l → Below b m
  Below-keys b l [] e h = tt
  Below-keys b [] ((k, v) ∷ m) e h = absurd (cc)
  Below-keys b ((j, w) ∷ l) ((k, v) ∷ m) e h =
      let heads : k ≡ j = cc in
      let tails : keys m ≡ keys l = cc in (omega arith, Below-keys b l m tails h.1)
