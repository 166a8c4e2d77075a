-- ===== src/Playlist/Entries.antt =====
-- The entries of one playlist, as the lists that its keyspace is observed through.
use rsplayer.Prelude.{
  ℕ, suc, ◌+◌, ◌<◌, ◌≤◌, ◌≡◌, refl, ap, sym, ◌∙◌, Option, none, some, List, [], ◌∷◌, ◌++◌, Bool,
  true, false, arith, ◌||◌, not, map, length, filter, filter_map, bytes_eq, bytes_eq_refl,
  bytes_eq-eq, Bool-cases, inl, inr, append_assoc, append-nil,
}
use rsplayer.Prelude.Decimal.{to_string, parse_uint, parse_uint-to_string, digits}
use rsplayer.Store.Texts.{
  text_lt, insert, remove, with_prefix, keys, values, Below, Absent, IsSorted, text_lt-append,
  length-insert, insert-Absent, insert-Below, insert-IsSorted, starts_with-append,
  starts_with_longer,
}
use rsplayer.Store.Texts.Prefix.{with_prefix-insert}
use rsplayer.Song.{Bytes, Text, Song, SongCodec, starts_with}
use rsplayer.Playlist.{entry_key}
use mathlib.Core.List.{Perm, perm_middle}
use mathlib.Core.List.Perm

bytes_eq-append : (p s t : Text) → bytes_eq (p ++ s) (p ++ t) ≡ bytes_eq s t
bytes_eq-append [] s t = refl
bytes_eq-append (c ∷ p) s t = ground (arith, bytes_eq-append p s t)

to_string_inj : (i j : ℕ) → to_string i ≡ to_string j → i ≡ j
to_string_inj i j e =
    let p : some i ≡ some j =
      sym (parse_uint-to_string (i + j) i (omega arith))
      ∙ ap (parse_uint (i + j)) e
      ∙ parse_uint-to_string (i + j) j (omega arith) in
    cc

-- Two songs of a playlist have different keys.
pub entry_key-ne :
    (name : Text) (i j : ℕ) → i < j → bytes_eq (entry_key name i) (entry_key name j) ≡ false
entry_key-ne name i j lt = elim (Bool-cases (bytes_eq (to_string i) (to_string j))) [
  | inl e ↦ absurd (let same = to_string_inj i j (bytes_eq-eq _ _ e) in omega arith)
  | inr e ↦ rw (bytes_eq-append name (b'_' ∷ to_string i) (b'_' ∷ to_string j), e) refl
]

to_string_digit : (i : ℕ) → i < 10 → to_string i ≡ (48 + i) ∷ []
unfolding to_string digits
to_string_digit i h = ground arith

-- The keys of the first ten songs are in the order of the songs.
pub entry_key-lt :
    (name : Text) (i j : ℕ) → i < j → j < 10 → text_lt (entry_key name i) (entry_key name j) ≡ true
entry_key-lt name i j lt h =
    rw
      (
        text_lt-append name (b'_' ∷ to_string i) (b'_' ∷ to_string j),
        to_string_digit i (omega arith),
        to_string_digit j h,
      )
      (ground arith)

abbrev any_key : Text → List Text → Bool
any_key k [] = false
any_key k (j ∷ ks) = bytes_eq k j || any_key k ks

-- Every key of a list is removed from it.
module _ {V : Type 0} where
  abbrev pub remove_all : List Text → List (Text × V) → List (Text × V)
  remove_all [] l = l
  remove_all (k ∷ ks) l = remove_all ks (remove k l)

  filter_any-remove :
      (k : Text) (ks : List Text) (l : List (Text × V))
      → filter (λ e. not (any_key e.0 ks)) (remove k l) ≡ filter (λ e. not (any_key e.0 (k ∷ ks))) l
  filter_any-remove k ks [] = refl
  filter_any-remove k ks ((j, w) ∷ l) = ground (arith, filter_any-remove k ks l)

  remove_all-filter :
      (ks : List Text) (l : List (Text × V))
      → remove_all ks l ≡ filter (λ e. not (any_key e.0 ks)) l
  remove_all-filter [] [] = refl
  remove_all-filter [] (e ∷ l) = ap (λ r. e ∷ r) (remove_all-filter [] l)
  remove_all-filter (k ∷ ks) l = remove_all-filter ks (remove k l) ∙ filter_any-remove k ks l

  -- Entries whose keys are all among the removed ones.
  with_prefix-filter :
      (p : Text) (ks : List Text) (l : List (Text × V))
      → ((k : Text)
          → starts_with p k ≡ true
          → any_key k (keys (with_prefix p l)) ≡ true
          → any_key k ks ≡ true)
      → with_prefix p (filter (λ e. not (any_key e.0 ks)) l) ≡ []
  with_prefix-filter p ks [] h = refl
  with_prefix-filter p ks ((j, w) ∷ l) h = ground (
    arith,
    h j,
    bytes_eq_refl j,
    with_prefix-filter p ks l (λ k s m. ground (arith, h k s, s, m, Bool-cases (starts_with p j))),
  )

  pub with_prefix-remove_all :
      (p : Text) (l : List (Text × V)) → with_prefix p (remove_all (keys (with_prefix p l)) l) ≡ []
  with_prefix-remove_all p l =
      rw (remove_all-filter (keys (with_prefix p l)) l)
        (with_prefix-filter p (keys (with_prefix p l)) l (λ k s h. h))

  -- What starts with a longer text starts with the shorter.
  pub with_prefix-none :
      (p c : Text) (l : List (Text × V)) → with_prefix p l ≡ [] → with_prefix (p ++ c) l ≡ []
  with_prefix-none p c [] h = refl
  with_prefix-none p c ((j, w) ∷ l) h =
      ground (arith, starts_with_longer p c j, with_prefix-none p c l)

append-Below :
    (b k : Text) (v : Bytes) (l : List (Text × Bytes))
    → Below b l
    → text_lt k b ≡ true
    → Below b (l ++ (k, v) ∷ [])
append-Below b k v [] h e = (e, tt)
append-Below b k v ((j, w) ∷ l) h e = (h.0, append-Below b k v l h.1 e)

values-append : (l m : List (Text × Bytes)) → values (l ++ m) ≡ values l ++ values m
values-append [] m = refl
values-append ((k, v) ∷ l) m = ap (λ r. v ∷ r) (values-append l m)

abbrev put : Option Song → List Song → List Song
put o xs = elim o [ none ↦ xs | some y ↦ y ∷ xs ]

put-perm :
    (o : Option Song) (song : Song) (xs ys : List Song)
    → Perm xs (song ∷ ys)
    → Perm (put o xs) (song ∷ put o ys)
put-perm none song xs ys p = p
put-perm (some t) song xs ys p = Perm.trans (Perm.cons t p) (Perm.swap song t ys)

module _ (codec : SongCodec) where
  open codec use {bytes_to_song, to_json_string_bytes}

  abbrev pub insert_all : Text → ℕ → List Song → List (Text × Bytes) → List (Text × Bytes)
  insert_all name idx [] l = l
  insert_all name idx (song ∷ songs) l =
      insert_all name (suc idx) songs (insert (entry_key name idx) (to_json_string_bytes song) l)

  abbrev pub songs_of : List (Text × Bytes) → List Song
  songs_of l = filter_map bytes_to_song (values l)

  pub with_prefix-insert_all :
      (name : Text) (idx : ℕ) (songs : List Song) (l : List (Text × Bytes))
      → IsSorted l
      → with_prefix name (insert_all name idx songs l)
        ≡ insert_all name idx songs (with_prefix name l)
  with_prefix-insert_all name idx [] l s = refl
  with_prefix-insert_all name idx (song ∷ songs) l s =
      let k = entry_key name idx in
      let v = to_json_string_bytes song in
      with_prefix-insert_all name (suc idx) songs (insert k v l) (insert-IsSorted k v l s)
      ∙ ap (insert_all name (suc idx) songs)
          (with_prefix-insert name k v l s (starts_with-append name (b'_' ∷ to_string idx)))

  songs_front :
      (k : Text) (song : Song) (l : List (Text × Bytes))
      → songs_of ((k, to_json_string_bytes song) ∷ l) ≡ song ∷ songs_of l
  songs_front k song l = rw (codec.bytes_to_song-to_json_string_bytes song) refl

  songs-insert :
      (k : Text) (song : Song) (l : List (Text × Bytes))
      → Absent k l
      → Perm (songs_of (insert k (to_json_string_bytes song) l)) (song ∷ songs_of l)
  songs-insert k song [] h = rw (songs_front k song []) (Perm.refl _)
  songs-insert k song ((j, w) ∷ l) h = elim (Bool-cases (text_lt k j)) [
    | inl e ↦ rw (h.0, e, songs_front k song ((j, w) ∷ l)) (Perm.refl _)
    | inr e ↦ rw (h.0, e) (put-perm (bytes_to_song w) song _ _ (songs-insert k song l h.1))
  ]

  Absent-insert :
      (name : Text) (idx : ℕ) (v : Bytes) (l : List (Text × Bytes))
      → ((j : ℕ) → idx ≤ j → Absent (entry_key name j) l)
      → (j : ℕ) → suc idx ≤ j
      → Absent (entry_key name j) (insert (entry_key name idx) v l)
  Absent-insert name idx v l h j lt =
      insert-Absent (entry_key name j) (entry_key name idx) v l (entry_key-ne name idx j lt)
        (h j (omega arith))

  -- Songs that are written under new keys are all there, each as often as it was given.
  pub insert_all-perm :
      (name : Text) (idx : ℕ) (songs : List Song) (l : List (Text × Bytes))
      → ((j : ℕ) → idx ≤ j → Absent (entry_key name j) l)
      → (length (insert_all name idx songs l) ≡ length songs + length l)
        × Perm (songs_of (insert_all name idx songs l)) (songs ++ songs_of l)
  insert_all-perm name idx [] l h = (omega arith, Perm.refl _)
  insert_all-perm name idx (song ∷ songs) l h =
      let k = entry_key name idx in
      let v = to_json_string_bytes song in
      let (count, all) =
        insert_all-perm name (suc idx) songs (insert k v l) (Absent-insert name idx v l h) in
      let one = length-insert k v l (h idx (omega arith)) in
      (
        omega (arith, count, one),
        Perm.trans all (
            Perm.trans (Perm.append_left songs (songs-insert k song l (h idx (omega arith))))
              (perm_middle songs (songs_of l))),
      )

  Below-append :
      (name : Text) (idx : ℕ) (v : Bytes) (l : List (Text × Bytes))
      → ((j : ℕ) → idx ≤ j → j < 10 → Below (entry_key name j) l)
      → (j : ℕ) → suc idx ≤ j
      → j < 10
      → Below (entry_key name j) (l ++ (entry_key name idx, v) ∷ [])
  Below-append name idx v l h j lt ten =
      append-Below (entry_key name j) (entry_key name idx) v l (h j (omega arith) ten)
        (entry_key-lt name idx j lt ten)

  -- Up to the tenth song they are in their order.
  pub insert_all-order :
      (name : Text) (idx : ℕ) (songs : List Song) (l : List (Text × Bytes))
      → idx + length songs ≤ 10
      → ((j : ℕ) → idx ≤ j → j < 10 → Below (entry_key name j) l)
      → values (insert_all name idx songs l) ≡ values l ++ map to_json_string_bytes songs
  insert_all-order name idx [] l fits h = rw (append-nil (values l)) refl
  insert_all-order name idx (song ∷ songs) l fits h =
      let k = entry_key name idx in
      let v = to_json_string_bytes song in
      let later =
        insert_all-order name (suc idx) songs (l ++ (k, v) ∷ []) (omega arith)
          (Below-append name idx v l h) in
      rw
        (
          insert-Below k v l (h idx (omega arith) (omega arith)),
          later,
          values-append l ((k, v) ∷ []),
        )
        (append_assoc (values l) (v ∷ []) (map to_json_string_bytes songs))
