-- ===== src/Queue/Reorder/Places.antt =====
-- Positions in lists, and an element that is taken out of a list and put in at another place.
use rsplayer.Prelude.{
  ℕ, zero, suc, ◌+◌, ◌-◌, ◌≡◌, refl, sym, ap, Option, none, some, List, [], ◌∷◌, map, length,
  get_elem?, remove_at, insert_at, arith, inl, inr, if◌then◌else◌, unwrap_or, ltb, ◌==◌, ◌⊎◌, ◌<◌,
  Bool-cases, Option-cases, bytes_eq, position, head?, ==_refl,
}
use rsplayer.Store.Ordered.{keys}
use rsplayer.Song.{Song, Text, Bytes}
use rsplayer.Queue.Reorder.{shift, position_of}

pub none-some : {A : Type 0} {a : A} → none ≡ some a → ⊥
none-some e = cc

some-inj : {A : Type 0} {a b : A} → some a ≡ some b → a ≡ b
some-inj e = cc

module _ {A B : Type 0} (f : A → B) where
  remove_at-map : (i : ℕ) (xs : List A) → remove_at i (map f xs) ≡ map f (remove_at i xs)
  remove_at-map i [] = refl
  remove_at-map zero (x ∷ xs) = refl
  remove_at-map (suc i) (x ∷ xs) = ap (λ l. f x ∷ l) (remove_at-map i xs)

  insert_at-map :
      (i : ℕ) (v : A) (xs : List A) → insert_at i (f v) (map f xs) ≡ map f (insert_at i v xs)
  insert_at-map zero v xs = refl
  insert_at-map (suc i) v [] = refl
  insert_at-map (suc i) v (x ∷ xs) = ap (λ l. f x ∷ l) (insert_at-map i v xs)

  -- An element of the mapped list is the image of one of the list.
  map-element :
      (i : ℕ) (xs : List A)
      → ((get_elem? (map f xs) i ≡ none) × (get_elem? xs i ≡ none))
        ⊎ ((x : A) × (get_elem? (map f xs) i ≡ some (f x)) × (get_elem? xs i ≡ some x))
  map-element i [] = inl (refl, refl)
  map-element zero (x ∷ xs) = inr (x, refl, refl)
  map-element (suc i) (x ∷ xs) = map-element i xs

  pub shift-map : (from to : ℕ) (xs : List A) → shift from to (map f xs) ≡ map f (shift from to xs)
  shift-map from to xs = elim (map-element from xs) [
    | inl (a, b) ↦ rw (a, b, shift)
    | inr (x, a, b) ↦
        rw (a, b, shift, remove_at-map from xs, insert_at-map to x (remove_at from xs))
  ]

-- The position of the first song of a file.
abbrev pub index_of : Text → List Song → Option ℕ
index_of song_id [] = none
index_of song_id (song ∷ songs) =
    let rest = index_of song_id songs in
    if bytes_eq song.file song_id then some 0 else elim rest [ none ↦ none | some i ↦ some (suc i) ]

-- The song at one position taken out and put in again at another.
abbrev put_at : ℕ → ℕ → List Song → List Song
put_at from to songs = elim (get_elem? songs from) [
  | none ↦ songs
  | some song ↦ insert_at to song (remove_at from songs)
]

-- A song put at a position, when there is such a song and such a position.
abbrev pub moved : Option ℕ → Option ℕ → List Song → List Song
moved none to songs = songs
moved (some from) none songs = songs
moved (some from) (some to) songs = put_at from to songs

-- A song put right behind the current one, which moves up when the song stood before it.
abbrev pub moved_next : Option ℕ → ℕ → List Song → List Song
moved_next none current songs = songs
moved_next (some from) current songs =
    if from == current
    then songs
    else put_at from ((if ltb from current then current - 1 else current) + 1) songs

pub index_of-lt :
    (song_id : Text) (songs : List Song) (i : ℕ)
    → index_of song_id songs ≡ some i
    → i < length songs
index_of-lt song_id [] i e = absurd (cc)
index_of-lt song_id (song ∷ songs) i e = elim (Bool-cases (bytes_eq song.file song_id)) [
  | inl same ↦ let zeroth : 0 ≡ i = some-inj (rw same at e) in omega (arith, zeroth)
  | inr other ↦ elim (Option-cases (index_of song_id songs)) [
    | inl n ↦ absurd (none-some (rw (other, n) at e))
    | inr (j, n) ↦
        let next : suc j ≡ i = some-inj (rw (other, n) at e) in
        omega (arith, next, index_of-lt song_id songs j n)
  ]
]

position-lt : (k : ℕ) (ks : List ℕ) (i : ℕ) → position k ks ≡ some i → i < length ks
position-lt k [] i e = absurd (cc)
position-lt k (x ∷ xs) i e = elim (Bool-cases (x == k)) [
  | inl same ↦ let zeroth : 0 ≡ i = some-inj (rw same at e) in omega (arith, zeroth)
  | inr other ↦ elim (Option-cases (position k xs)) [
    | inl n ↦ absurd (none-some (rw (other, n) at e))
    | inr (j, n) ↦
        let next : suc j ≡ i = some-inj (rw (other, n) at e) in
        omega (arith, next, position-lt k xs j n)
  ]
]

abbrev pub key_of : Option (ℕ × Bytes) → Option ℕ
key_of none = none
key_of (some (k, v)) = some k

pub at_front : (l : List (ℕ × Bytes)) → unwrap_or (position_of (key_of (head? l)) (keys l)) 0 ≡ 0
at_front [] = refl
at_front ((k, v) ∷ l) = rw (==_refl k) refl

pub position-Inside :
    (o : Option ℕ) (ks : List ℕ) (from : ℕ)
    → from < unwrap_or (position_of o ks) 0
    → unwrap_or (position_of o ks) 0 < length ks
position-Inside none ks from h = absurd (omega arith)
position-Inside (some k) ks from h = elim (Option-cases (position k ks)) [
  | inl n ↦ absurd (not_below from (rw n at h))
  | inr (i, n) ↦ rw n (position-lt k ks i n)
]
  where
    not_below : (n : ℕ) → n < 0 → ⊥
    not_below n h = omega arith

put_back :
    (i : ℕ) (v : Song) (songs : List Song)
    → get_elem? songs i ≡ some v
    → insert_at i v (remove_at i songs) ≡ songs
put_back i v [] e = absurd (cc)
put_back zero v (x ∷ xs) e = ap (λ y. y ∷ xs) (sym (some-inj e))
put_back (suc i) v (x ∷ xs) e = ap (λ l. x ∷ l) (put_back i v xs e)

pub shift_self : (i : ℕ) (songs : List Song) → shift i i songs ≡ songs
shift_self i songs = elim (Option-cases (get_elem? songs i)) [
  | inl n ↦ rw (shift, n) refl
  | inr (v, n) ↦ rw (shift, n) (put_back i v songs n)
]
