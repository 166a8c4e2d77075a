-- ===== src/Albums/Undone.antt =====
-- A song that is added to its album and removed again.
use rsplayer.Prelude.{
  ◌≡◌, refl, ap, ◌∙◌, none, some, List, [], ◌∷◌, true, false, not, if◌then◌else◌, bytes_eq,
  bytes_eq_refl, Bool-cases, inl, inr,
}
use rsplayer.Store.Texts.Values.{lookup-insert, lookup-remove}
use rsplayer.Song.{Bytes, Text, Song}
use rsplayer.Commands.{Album}
use rsplayer.Albums.{
  AlbumEnv, is_empty, contains_text, keep_keys, text_eq, place, place_key, updated, stored_album,
  update_from_song, write_or_remove, remove_from_song,
}
use rsplayer.Albums.Listed.{keys-updated, filter-pushed}

module _ (env : AlbumEnv) where
  open env use {albums, from_bytes, to_json_string_bytes}

  get-insert :
      (db : albums.Store) (j key : Text) (bytes : Bytes)
      → albums.get (albums.insert db j bytes) key
        ≡ (if bytes_eq j key then some bytes else albums.get db key)
  get-insert db j key bytes =
      rw
        (
          albums.get_lem (albums.insert db j bytes) key,
          albums.iter-insert db j bytes,
          lookup-insert j key bytes (albums.iter db),
          ← albums.get_lem db key,
        )
        refl

  get-remove :
      (db : albums.Store) (j key : Text)
      → albums.get (albums.remove db j) key ≡ (if bytes_eq j key then none else albums.get db key)
  get-remove db j key =
      rw
        (
          albums.get_lem (albums.remove db j) key,
          albums.iter-remove db j,
          lookup-remove j key (albums.iter db),
          ← albums.get_lem db key,
        )
        refl

  get-write_or_remove :
      (j : Text) (album : Album) (db : albums.Store) (key : Text)
      → bytes_eq j key ≡ false
      → albums.get (write_or_remove env j album db) key ≡ albums.get db key
  get-write_or_remove j album db key f = elim (Bool-cases (is_empty album.song_keys)) [
    | inl g ↦ rw (g, get-remove db j key, f) refl
    | inr g ↦ rw (g, get-insert db j key (to_json_string_bytes album), f) refl
  ]

  stored-write_or_remove :
      (key : Text) (album : Album) (db : albums.Store)
      → (stored_album env (write_or_remove env key album db) key).song_keys ≡ album.song_keys
  stored-write_or_remove key album db = elim (Bool-cases (is_empty album.song_keys)) [
    | inl g ↦ rw (g, get-remove db key key, bytes_eq_refl key) (nothing album.song_keys g)
    | inr g ↦
        rw
          (
            g,
            get-insert db key key (to_json_string_bytes album),
            bytes_eq_refl key,
            env.from_bytes-to_json_string_bytes album,
          )
          refl
  ]
    where
      nothing : (ks : List Text) → is_empty ks ≡ true → [] ≡ ks
      nothing [] g = refl
      nothing (k ∷ ks) g = absurd (cc)

  -- What the removal writes, and onto what.
  abbrev left : Song → Album → Album
  left song album =
      keep_keys (λ k. not (text_eq k song.file)) (updated env (place env song) song album)

  abbrev added : Song → Text → albums.Store → albums.Store
  added song key db =
      albums.insert db key
        (to_json_string_bytes (updated env (place env song) song (stored_album env db key)))

  removal :
      (song : Song) (db : albums.Store) (key : Text)
      → place_key env (place env song) song ≡ key
      → is_empty key ≡ false
      → remove_from_song env song (update_from_song env song db)
        ≡ write_or_remove env key (left song (stored_album env db key)) (added song key db)
  unfolding update_from_song remove_from_song
  removal song db key k h =
      let album = updated env (place env song) song (stored_album env db key) in
      rw
        (
          k,
          h,
          get-insert db key key (to_json_string_bytes album),
          bytes_eq_refl key,
          env.from_bytes-to_json_string_bytes album,
        )
        refl

  keys-left :
      (song : Song) (album : Album) (key : Text)
      → place_key env (place env song) song ≡ key
      → is_empty key ≡ false
      → contains_text song.file album.song_keys ≡ false
      → (left song album).song_keys ≡ album.song_keys
  keys-left song album key k h absent =
      rw (keys-updated env (place env song) song album (ap is_empty k ∙ h), absent)
        (filter-pushed song.file album.song_keys absent)

  -- For a song that belongs to an album which does not list it: when the song is added and then
  -- removed, the album lists the songs that it listed before, and what is stored under every other
  -- key is what was stored there before.
  pub remove-update :
      (song : Song) (db : albums.Store) (key other : Text)
      → place_key env (place env song) song ≡ key
      → is_empty key ≡ false
      → contains_text song.file (stored_album env db key).song_keys ≡ false
      → bytes_eq key other ≡ false
      → ((stored_album env (remove_from_song env song (update_from_song env song db)) key).song_keys
          ≡ (stored_album env db key).song_keys)
        × (albums.get (remove_from_song env song (update_from_song env song db)) other
            ≡ albums.get db other)
  remove-update song db key other k h absent ne =
      let album = stored_album env db key in
      let bytes = to_json_string_bytes (updated env (place env song) song album) in
      let write = removal song db key k h in
      (
        rw write (stored-write_or_remove key (left song album) (added song key db))
            ∙ keys-left song album key k h absent,
        rw
            (
              write,
              get-write_or_remove key (left song album) (added song key db) other ne,
              get-insert db key other bytes,
              ne,
            )
            refl,
      )
