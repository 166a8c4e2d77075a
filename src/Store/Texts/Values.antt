-- ===== src/Store/Texts/Values.antt =====
-- What is found under a key.
use rsplayer.Prelude.{
  ◌≡◌, refl, subst, none, some, List, [], ◌∷◌, false, arith, if◌then◌else◌, bytes_eq, bytes_eq-eq,
  Bool-cases, inl, inr,
}
use rsplayer.Song.{Text}
use rsplayer.Store.Texts.{text_lt, lookup, insert, remove}

module _ {V : Type 0} where
  pub lookup-insert :
      (k j : Text) (v : V) (l : List (Text × V))
      → lookup j (insert k v l) ≡ (if bytes_eq k j then some v else lookup j l)
  lookup-insert k j v [] = refl
  lookup-insert k j v ((i, w) ∷ l) = elim (Bool-cases (bytes_eq i k)) [
    | inl e ↦ let same = bytes_eq-eq i k e in rw (e, same) (ground arith)
    | inr e ↦ elim (Bool-cases (bytes_eq k j)) [
      | inl f ↦
          let other : bytes_eq i j ≡ false = rw (← bytes_eq-eq k j f) e in
          ground (arith, e, f, other, lookup-insert k j v l)
      | inr f ↦ ground (arith, e, f, lookup-insert k j v l)
    ]
  ]

  pub lookup-remove :
      (k j : Text) (l : List (Text × V))
      → lookup j (remove k l) ≡ (if bytes_eq k j then none else lookup j l)
  lookup-remove k j [] = ground arith
  lookup-remove k j ((i, w) ∷ l) = elim (Bool-cases (bytes_eq i k)) [
    | inl e ↦ let same = bytes_eq-eq i k e in rw (e, same, lookup-remove k j l) (ground arith)
    | inr e ↦ elim (Bool-cases (bytes_eq k j)) [
      | inl f ↦
          let other : bytes_eq i j ≡ false = rw (← bytes_eq-eq k j f) e in
          ground (arith, e, f, other, lookup-remove k j l)
      | inr f ↦ ground (arith, e, f, lookup-remove k j l)
    ]
  ]

  -- Every value has a property.
  abbrev pub All : (V → Type 0) → List (Text × V) → Type 0
  All P [] = Unit
  All P ((k, v) ∷ l) = P v × All P l

  pub insert-All :
      (P : V → Type 0) (k : Text) (v : V) (l : List (Text × V))
      → P v
      → All P l
      → All P (insert k v l)
  insert-All P k v [] p h = (p, tt)
  insert-All P k v ((j, w) ∷ l) p h = elim (Bool-cases (bytes_eq j k)) [
    | inl e ↦ rw e (p, h.1)
    | inr e ↦ elim (Bool-cases (text_lt k j)) [
      | inl f ↦ rw (e, f) (p, h)
      | inr f ↦ rw (e, f) (h.0, insert-All P k v l p h.1)
    ]
  ]

  pub remove-All : (P : V → Type 0) (k : Text) (l : List (Text × V)) → All P l → All P (remove k l)
  remove-All P k [] h = tt
  remove-All P k ((j, w) ∷ l) h = elim (Bool-cases (bytes_eq j k)) [
    | inl e ↦ rw e (remove-All P k l h.1)
    | inr e ↦ rw e (h.0, remove-All P k l h.1)
  ]

  pub lookup-All :
      (P : V → Type 0) (k : Text) (v : V) (l : List (Text × V))
      → All P l
      → lookup k l ≡ some v
      → P v
  lookup-All P k v [] h e = absurd (cc)
  lookup-All P k v ((j, w) ∷ l) h e = elim (Bool-cases (bytes_eq j k)) [
    | inl f ↦ let same : w ≡ v = ground (arith, e, f) in subst P same h.0
    | inr f ↦ lookup-All P k v l h.1 (ground (arith, e, f))
  ]
