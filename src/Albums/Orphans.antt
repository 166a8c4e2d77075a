-- ===== src/Albums/Orphans.antt =====
-- The cleaning up of songs that are gone.
use rsplayer.Prelude.{
  ◌≡◌, ◌≤◌, ◌⊎◌, inl, inr, refl, ap, ◌∙◌, sym, subst, none, some, List, [], ◌∷◌, Bool, true, false,
  arith, filter, filter_map, bytes_eq, Bool-cases, Option-cases, length, ltb,
}
use rsplayer.Store.Texts.{lookup, keys}
use rsplayer.Store.Texts.Values.{lookup-insert, lookup-remove}
use rsplayer.Song.{Bytes, Text}
use rsplayer.Commands.{Album}
use rsplayer.Albums.{
  AlbumEnv, is_empty, contains_text, shrunk, write_or_remove, write_each, cleanup_orphaned_albums,
}

abbrev pub AllValid : (Text → Bool) → List Text → Type 0
AllValid valid [] = Unit
AllValid valid (k ∷ ks) = (valid k ≡ true) × AllValid valid ks

filter-AllValid : (valid : Text → Bool) (ks : List Text) → AllValid valid (filter valid ks)
filter-AllValid valid [] = tt
filter-AllValid valid (k ∷ ks) = elim (Bool-cases (valid k)) [
  | inl e ↦ rw e (e, filter-AllValid valid ks)
  | inr e ↦ rw e (filter-AllValid valid ks)
]

length-filter_le : (valid : Text → Bool) (ks : List Text) → length (filter valid ks) ≤ length ks
length-filter_le valid [] = omega arith
length-filter_le valid (k ∷ ks) = ground (arith, length-filter_le valid ks)

-- A list that loses nothing is valid.
whole-AllValid :
    (valid : Text → Bool) (ks : List Text)
    → length ks ≤ length (filter valid ks)
    → AllValid valid ks
whole-AllValid valid [] h = tt
whole-AllValid valid (k ∷ ks) h = ground (arith, whole-AllValid valid ks, length-filter_le valid ks)

none-some : {A : Type 0} → {a : A} → none ≡ some a → ⊥
none-some e = cc

some-injective : {A : Type 0} → {a b : A} → some a ≡ some b → a ≡ b
some-injective e = cc

module _ (env : AlbumEnv) (valid : Text → Bool) where
  open env use {albums, from_bytes, to_json_string_bytes}

  -- The album that the bytes hold, if any, lists valid songs only.
  abbrev pub Clean : Bytes → Type 0
  Clean bytes = (album : Album) → from_bytes bytes ≡ some album → AllValid valid album.song_keys

  abbrev to_update : List (Text × Bytes) → List (Text × Album)
  to_update l = filter_map (λ e. shrunk env valid e.0 (from_bytes e.1)) l

  abbrev AllKept : List (Text × Album) → Type 0
  AllKept [] = Unit
  AllKept ((key, album) ∷ l) = AllValid valid album.song_keys × AllKept l

  to_update-AllKept : (l : List (Text × Bytes)) → AllKept (to_update l)
  to_update-AllKept [] = tt
  to_update-AllKept ((key, bytes) ∷ l) = elim (Option-cases (from_bytes bytes)) [
    | inl n ↦ rw (filter_map, n) (to_update-AllKept l)
    | inr (album, n) ↦
        elim (Bool-cases (ltb (length (filter valid album.song_keys)) (length album.song_keys))) [
          | inl e ↦
              rw (filter_map, n, e) (filter-AllValid valid album.song_keys, to_update-AllKept l)
          | inr e ↦ rw (filter_map, n, e) (to_update-AllKept l)
        ]
  ]

  -- What is found under a key is clean, or is still to be written.
  abbrev Pending : List (Text × Album) → List (Text × Bytes) → Type 0
  Pending todo l =
      (key : Text) (bytes : Bytes)
      → lookup key l ≡ some bytes
      → Clean bytes ⊎ (contains_text key (keys todo) ≡ true)

  to_update-Pending : (l : List (Text × Bytes)) → Pending (to_update l) l
  to_update-Pending [] key bytes h = absurd (cc)
  to_update-Pending ((j, w) ∷ l) key bytes h = elim (Bool-cases (bytes_eq j key)) [
    | inl e ↦
        let same : w ≡ bytes = ground (arith, h, e) in
        elim (Option-cases (from_bytes w)) [
          | inl n ↦ inl (λ found d. absurd (none-some (sym n ∙ ap from_bytes same ∙ d)))
          | inr (album, n) ↦
              elim (Bool-cases
                (ltb (length (filter valid album.song_keys)) (length album.song_keys))) [
                  | inl f ↦ inr (rw (filter_map, n, f) (ground (arith, e)))
                  | inr f ↦
                      let whole = whole-AllValid valid album.song_keys (ground (arith, f)) in
                      inl (λ found d.
                        subst (λ a. AllValid valid a.song_keys)
                          (some-injective (sym n ∙ ap from_bytes same ∙ d)) whole)
                ]
        ]
    | inr e ↦ elim (to_update-Pending l key bytes (ground (arith, h, e))) [
      | inl c ↦ inl c
      | inr c ↦ inr (later j w l key c)
    ]
  ]
    where
      later :
          (j : Text) (w : Bytes) (l : List (Text × Bytes)) (key : Text)
          → contains_text key (keys (to_update l)) ≡ true
          → contains_text key (keys (to_update ((j, w) ∷ l))) ≡ true
      later j w l key c = elim (Option-cases (shrunk env valid j (from_bytes w))) [
        | inl n ↦ rw (filter_map, n) c
        | inr ((i, album), n) ↦ rw (filter_map, n) (ground (arith, c))
      ]

  write_or_remove-Pending :
      (j : Text) (album : Album) (todo : List (Text × Album)) (db : albums.Store)
      → AllValid valid album.song_keys
      → Pending ((j, album) ∷ todo) (albums.iter db)
      → Pending todo (albums.iter (write_or_remove env j album db))
  write_or_remove-Pending j album todo db ok h key bytes e = elim (Bool-cases (bytes_eq j key)) [
    | inl f ↦ inl (written j album db ok key bytes e f)
    | inr f ↦ elim (h key bytes (sym (other j album db key f) ∙ e)) [
      | inl c ↦ inl c
      | inr c ↦ inr (ground (arith, c, f))
    ]
  ]
    where
      written :
          (j : Text) (album : Album) (db : albums.Store)
          → AllValid valid album.song_keys
          → (key : Text) (bytes : Bytes)
          → lookup key (albums.iter (write_or_remove env j album db)) ≡ some bytes
          → bytes_eq j key ≡ true
          → Clean bytes
      written j album db ok key bytes e f = elim (Bool-cases (is_empty album.song_keys)) [
        | inl g ↦
            let gone : none ≡ some bytes =
              sym (rw (g, albums.iter-remove db j, lookup-remove j key (albums.iter db), f) refl)
              ∙ e in
            absurd (none-some gone)
        | inr g ↦
            let put : some (to_json_string_bytes album) ≡ some bytes =
              sym (
                rw
                  (
                    g,
                    albums.iter-insert db j (to_json_string_bytes album),
                    lookup-insert j key (to_json_string_bytes album) (albums.iter db),
                    f,
                  )
                  refl)
              ∙ e in
            λ found d.
              subst (λ a. AllValid valid a.song_keys)
                (some-injective (
                  sym (env.from_bytes-to_json_string_bytes album)
                  ∙ ap from_bytes (some-injective put)
                  ∙ d))
                ok
      ]

      other :
          (j : Text) (album : Album) (db : albums.Store) (key : Text)
          → bytes_eq j key ≡ false
          → lookup key (albums.iter (write_or_remove env j album db)) ≡ lookup key (albums.iter db)
      other j album db key f = elim (Bool-cases (is_empty album.song_keys)) [
        | inl g ↦ rw (g, albums.iter-remove db j, lookup-remove j key (albums.iter db), f) refl
        | inr g ↦
            rw
              (
                g,
                albums.iter-insert db j (to_json_string_bytes album),
                lookup-insert j key (to_json_string_bytes album) (albums.iter db),
                f,
              )
              refl
      ]

  write_each-Pending :
      (todo : List (Text × Album)) (db : albums.Store)
      → AllKept todo
      → Pending todo (albums.iter db)
      → Pending [] (albums.iter (write_each env todo db))
  write_each-Pending [] db ok h = h
  write_each-Pending ((key, album) ∷ todo) db ok h =
      write_each-Pending todo (write_or_remove env key album db) ok.1
        (write_or_remove-Pending key album todo db ok.0 h)

  -- Behind the cleaning up, an album that is found under a key lists valid songs only.
  pub cleanup-AllValid :
      (db : albums.Store) (key : Text) (bytes : Bytes) (album : Album)
      → albums.get (cleanup_orphaned_albums env valid db) key ≡ some bytes
      → from_bytes bytes ≡ some album
      → AllValid valid album.song_keys
  unfolding cleanup_orphaned_albums
  cleanup-AllValid db key bytes album e d =
      let clean =
        write_each-Pending (to_update (albums.iter db)) db (to_update-AllKept (albums.iter db))
          (to_update-Pending (albums.iter db)) key bytes (sym (albums.get_lem _ key) ∙ e) in
      elim clean [ inl c ↦ c album d | inr n ↦ absurd (ground (arith, n)) ]
