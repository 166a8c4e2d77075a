-- ===== src/Store/Texts.antt =====
-- Association lists under texts, in the order of the texts' bytes: what a keyspace with text keys
-- is observed through.
pub mod Prefix
pub mod Values
use rsplayer.Prelude.{
  suc, ◌≡◌, refl, subst, Option, none, some, List, [], ◌∷◌, ◌++◌, Bool, true, false, arith, ltb,
  ◌==◌, ◌||◌, ◌&&◌, if◌then◌else◌, length, filter, bytes_eq, bytes_eq_refl, bytes_eq-eq, Bool-cases,
  inl, inr,
}
use rsplayer.Song.{Text, starts_with}

-- The order of byte strings.
abbrev pub text_lt : Text → Text → Bool
text_lt [] [] = false
text_lt [] (d ∷ t) = true
text_lt (c ∷ s) [] = false
text_lt (c ∷ s) (d ∷ t) = ltb c d || c == d && text_lt s t

pub text_lt_trans : (s t u : Text) → text_lt s t ≡ true → text_lt t u ≡ true → text_lt s u ≡ true
text_lt_trans [] [] u h k = absurd (ground arith)
text_lt_trans [] (d ∷ t) [] h k = absurd (ground arith)
text_lt_trans [] (d ∷ t) (e ∷ u) h k = refl
text_lt_trans (c ∷ s) [] u h k = absurd (ground arith)
text_lt_trans (c ∷ s) (d ∷ t) [] h k = absurd (ground arith)
text_lt_trans (c ∷ s) (d ∷ t) (e ∷ u) h k = ground (arith, text_lt_trans s t u)

-- One of two texts is before the other, or they are equal.
pub text_lt_total : (s t : Text) → bytes_eq s t ≡ false → text_lt s t ≡ false → text_lt t s ≡ true
text_lt_total [] [] h k = absurd (ground arith)
text_lt_total [] (d ∷ t) h k = absurd (ground arith)
text_lt_total (c ∷ s) [] h k = refl
text_lt_total (c ∷ s) (d ∷ t) h k = ground (arith, text_lt_total s t)

pub text_lt-ne : (s t : Text) → text_lt s t ≡ true → bytes_eq t s ≡ false
text_lt-ne [] [] h = absurd (ground arith)
text_lt-ne [] (d ∷ t) h = refl
text_lt-ne (c ∷ s) [] h = refl
text_lt-ne (c ∷ s) (d ∷ t) h = ground (arith, text_lt-ne s t)

pub bytes_eq_sym : (s t : Text) → bytes_eq s t ≡ bytes_eq t s
bytes_eq_sym [] [] = refl
bytes_eq_sym [] (d ∷ t) = refl
bytes_eq_sym (c ∷ s) [] = refl
bytes_eq_sym (c ∷ s) (d ∷ t) = ground (arith, bytes_eq_sym s t)

pub text_lt-asym : (s t : Text) → text_lt s t ≡ true → text_lt t s ≡ false
text_lt-asym [] [] h = absurd (ground arith)
text_lt-asym [] (d ∷ t) h = refl
text_lt-asym (c ∷ s) [] h = absurd (ground arith)
text_lt-asym (c ∷ s) (d ∷ t) h = ground (arith, text_lt-asym s t)

-- A common beginning does not count.
pub text_lt-append : (p s t : Text) → text_lt (p ++ s) (p ++ t) ≡ text_lt s t
text_lt-append [] s t = refl
text_lt-append (c ∷ p) s t = ground (arith, text_lt-append p s t)

pub starts_with-append : (p s : Text) → starts_with p (p ++ s) ≡ true
starts_with-append [] s = refl
starts_with-append (c ∷ p) s = ground (arith, starts_with-append p s)

pub starts_with_longer : (p c s : Text) → starts_with (p ++ c) s ≡ true → starts_with p s ≡ true
starts_with_longer [] c s h = refl
starts_with_longer (d ∷ p) c [] h = absurd (ground arith)
starts_with_longer (d ∷ p) c (e ∷ s) h = ground (arith, starts_with_longer p c s)

module _ {V : Type 0} where
  abbrev pub lookup : Text → List (Text × V) → Option V
  lookup k [] = none
  lookup k ((j, v) ∷ l) = if bytes_eq j k then some v else lookup k l

  abbrev pub insert : Text → V → List (Text × V) → List (Text × V)
  insert k v [] = (k, v) ∷ []
  insert k v ((j, w) ∷ l) =
      if bytes_eq j k
      then (k, v) ∷ l
      else if text_lt k j
      then (k, v) ∷ (j, w) ∷ l
      else (j, w) ∷ insert k v l

  -- No key twice.
  abbrev pub Distinct : List (Text × V) → Type 0
  Distinct [] = Unit
  Distinct ((k, v) ∷ l) = (lookup k l ≡ none) × Distinct l

  abbrev pub remove : Text → List (Text × V) → List (Text × V)
  remove k [] = []
  remove k ((j, w) ∷ l) = let rest = remove k l in if bytes_eq j k then rest else (j, w) ∷ rest

  abbrev pub with_prefix : Text → List (Text × V) → List (Text × V)
  with_prefix p l = filter (λ e. starts_with p e.0) l

  abbrev pub keys : List (Text × V) → List Text
  keys [] = []
  keys ((k, v) ∷ l) = k ∷ keys l

  abbrev pub values : List (Text × V) → List V
  values [] = []
  values ((k, v) ∷ l) = v ∷ values l

  -- Every key is behind, or before, a bound.
  abbrev pub Above : Text → List (Text × V) → Type 0
  Above b [] = Unit
  Above b ((k, v) ∷ l) = (text_lt b k ≡ true) × Above b l

  abbrev pub Below : Text → List (Text × V) → Type 0
  Below b [] = Unit
  Below b ((k, v) ∷ l) = (text_lt k b ≡ true) × Below b l

  abbrev pub IsSorted : List (Text × V) → Type 0
  IsSorted [] = Unit
  IsSorted ((k, v) ∷ l) = Above k l × IsSorted l

  -- No key is the given one.
  abbrev pub Absent : Text → List (Text × V) → Type 0
  Absent b [] = Unit
  Absent b ((k, v) ∷ l) = (bytes_eq k b ≡ false) × Absent b l

  pub Above-weaken : (a b : Text) (l : List (Text × V)) → text_lt a b ≡ true → Above b l → Above a l
  Above-weaken a b [] h p = tt
  Above-weaken a b ((k, v) ∷ l) h p = (text_lt_trans a b k h p.0, Above-weaken a b l h p.1)

  pub insert-Above :
      (b k : Text) (v : V) (l : List (Text × V))
      → text_lt b k ≡ true
      → Above b l
      → Above b (insert k v l)
  insert-Above b k v [] h p = (h, tt)
  insert-Above b k v ((j, w) ∷ l) h p = ground (arith, insert-Above b k v l h p.1)

  pub insert-IsSorted :
      (k : Text) (v : V) (l : List (Text × V)) → IsSorted l → IsSorted (insert k v l)
  insert-IsSorted k v [] p = (tt, tt)
  insert-IsSorted k v ((j, w) ∷ l) p = elim (Bool-cases (bytes_eq j k)) [
    | inl e ↦ rw (e, ← bytes_eq-eq j k e) p
    | inr e ↦ ground (
      arith,
      e,
      insert-IsSorted k v l p.1,
      insert-Above j k v l,
      Above-weaken k j l,
      text_lt_total j k e,
      text_lt_total k j,
    )
  ]

  pub remove-Above : (b k : Text) (l : List (Text × V)) → Above b l → Above b (remove k l)
  remove-Above b k [] p = tt
  remove-Above b k ((j, w) ∷ l) p = ground (arith, remove-Above b k l p.1)

  pub remove-IsSorted : (k : Text) (l : List (Text × V)) → IsSorted l → IsSorted (remove k l)
  remove-IsSorted k [] p = tt
  remove-IsSorted k ((j, w) ∷ l) p = ground (arith, remove-IsSorted k l p.1, remove-Above j k l p.0)

  -- A key behind all others is inserted at the end.
  pub insert-Below :
      (k : Text) (v : V) (l : List (Text × V)) → Below k l → insert k v l ≡ l ++ (k, v) ∷ []
  insert-Below k v [] p = refl
  insert-Below k v ((j, w) ∷ l) p =
      ground
        (arith, insert-Below k v l p.1, text_lt-asym j k p.0, bytes_eq_sym j k, text_lt-ne j k p.0)

  -- A new key adds one entry.
  pub length-insert :
      (k : Text) (v : V) (l : List (Text × V)) → Absent k l → length (insert k v l) ≡ suc (length l)
  length-insert k v [] p = refl
  length-insert k v ((j, w) ∷ l) p = ground (arith, length-insert k v l p.1)

  pub insert-Absent :
      (b k : Text) (v : V) (l : List (Text × V))
      → bytes_eq k b ≡ false
      → Absent b l
      → Absent b (insert k v l)
  insert-Absent b k v [] h p = (h, tt)
  insert-Absent b k v ((j, w) ∷ l) h p = ground (arith, insert-Absent b k v l h p.1)
