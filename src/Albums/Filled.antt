-- ===== src/Albums/Filled.antt =====
-- The albums that are stored, over any sequence of operations, and what a song that is added and
-- removed leaves.
use rsplayer.Prelude.{
  ◌≡◌, refl, ◌∙◌, sym, Option, none, some, List, [], ◌∷◌, Bool, not, filter, filter_map, Bool-cases,
  Option-cases, inl, inr, length, ltb, unwrap_or,
}
use rsplayer.Store.Texts.Values.{All, insert-All, remove-All, lookup-All}
use rsplayer.Song.{Bytes, Text, Song}
use rsplayer.Commands.{Album}
use rsplayer.Albums.{
  AlbumEnv, is_empty, text_eq, default_album, place, place_key, updated, stored_album,
  update_from_song, write_or_remove, remove_from_song, shrunk, write_each, cleanup_orphaned_albums,
  delete_all,
}
use rsplayer.Albums.Listed.{NoDup, Lists, push_key-Lists, keys-updated, NoDup-filter}

module _ (env : AlbumEnv) where
  open env use {albums, from_bytes, to_json_string_bytes}

  -- The bytes of an album that lists at least one song, and none twice.
  abbrev pub Filled : Bytes → Type 0
  Filled bytes = (album : Album) × (from_bytes bytes ≡ some album) × Lists album.song_keys

  abbrev pub AllFilled : albums.Store → Type 0
  AllFilled db = All Filled (albums.iter db)

  pub data AlbumOp : Type 0 where
    updates removes : Song → AlbumOp
    cleans : (Text → Bool) → AlbumOp
    deletes_all : AlbumOp

  abbrev pub run : AlbumOp → albums.Store → albums.Store
  run (updates song) db = update_from_song env song db
  run (removes song) db = remove_from_song env song db
  run (cleans valid) db = cleanup_orphaned_albums env valid db
  run deletes_all db = delete_all env db

  abbrev pub run_all : List AlbumOp → albums.Store → albums.Store
  run_all [] db = db
  run_all (op ∷ ops) db = run_all ops (run op db)

  album-Filled : (album : Album) → Lists album.song_keys → Filled (to_json_string_bytes album)
  album-Filled album h = (album, env.from_bytes-to_json_string_bytes album, h)

  insert-AllFilled :
      (key : Text) (album : Album) (db : albums.Store)
      → Lists album.song_keys
      → AllFilled db
      → AllFilled (albums.insert db key (to_json_string_bytes album))
  insert-AllFilled key album db l h =
      rw (albums.iter-insert db key (to_json_string_bytes album))
        (insert-All Filled key _ (albums.iter db) (album-Filled album l) h)

  remove-AllFilled :
      (key : Text) (db : albums.Store) → AllFilled db → AllFilled (albums.remove db key)
  remove-AllFilled key db h =
      rw (albums.iter-remove db key) (remove-All Filled key (albums.iter db) h)

  write_or_remove-AllFilled :
      (key : Text) (album : Album) (db : albums.Store)
      → NoDup album.song_keys
      → AllFilled db
      → AllFilled (write_or_remove env key album db)
  write_or_remove-AllFilled key album db n h = elim (Bool-cases (is_empty album.song_keys)) [
    | inl e ↦ rw e (remove-AllFilled key db h)
    | inr e ↦ rw e (insert-AllFilled key album db (e, n) h)
  ]

  NoDup-decoded :
      (o : Option Album)
      → ((a : Album) → o ≡ some a → NoDup a.song_keys)
      → NoDup (unwrap_or o default_album).song_keys
  NoDup-decoded none h = tt
  NoDup-decoded (some a) h = h a refl

  NoDup-get :
      (key : Text) (bytes : Bytes) (db : albums.Store)
      → AllFilled db
      → albums.get db key ≡ some bytes
      → NoDup (unwrap_or (from_bytes bytes) default_album).song_keys
  NoDup-get key bytes db h e =
      let (album, decoded, lists) =
        lookup-All Filled key bytes (albums.iter db) h (sym (albums.get_lem db key) ∙ e) in
      rw decoded lists.1

  NoDup-stored :
      (key : Text) (db : albums.Store) → AllFilled db → NoDup (stored_album env db key).song_keys
  NoDup-stored key db h = elim (Option-cases (albums.get db key)) [
    | inl e ↦ rw e tt
    | inr (bytes, e) ↦ rw e (NoDup-get key bytes db h e)
  ]

  update-AllFilled :
      (song : Song) (db : albums.Store) → AllFilled db → AllFilled (update_from_song env song db)
  unfolding update_from_song
  update-AllFilled song db h =
      let key = place_key env (place env song) song in
      elim (Bool-cases (is_empty key)) [
        | inl e ↦ rw e h
        | inr e ↦
            let album = stored_album env db key in
            let lists = push_key-Lists song.file album (NoDup-stored key db h) in
            rw e (
              insert-AllFilled key (updated env (place env song) song album) db
                (rw (keys-updated env (place env song) song album e) lists) h)
      ]

  remove_from-AllFilled :
      (song : Song) (db : albums.Store) → AllFilled db → AllFilled (remove_from_song env song db)
  unfolding remove_from_song
  remove_from-AllFilled song db h =
      let key = place_key env (place env song) song in
      elim (Bool-cases (is_empty key)) [
        | inl e ↦ rw e h
        | inr e ↦ elim (Option-cases (albums.get db key)) [
          | inl f ↦ rw (e, f) h
          | inr (bytes, f) ↦
              rw (e, f)
                (write_or_remove-AllFilled key _ db
                  (NoDup-filter (λ k. not (text_eq k song.file)) _ (NoDup-get key bytes db h f)) h)
        ]
      ]

  -- Albums that are written back.
  abbrev AllNoDup : List (Text × Album) → Type 0
  AllNoDup [] = Unit
  AllNoDup ((key, album) ∷ l) = NoDup album.song_keys × AllNoDup l

  write_each-AllFilled :
      (l : List (Text × Album)) (db : albums.Store)
      → AllNoDup l
      → AllFilled db
      → AllFilled (write_each env l db)
  write_each-AllFilled [] db n h = h
  write_each-AllFilled ((key, album) ∷ l) db n h =
      write_each-AllFilled l (write_or_remove env key album db) n.1
        (write_or_remove-AllFilled key album db n.0 h)

  shrunk-AllNoDup :
      (valid : Text → Bool) (l : List (Text × Bytes))
      → All Filled l
      → AllNoDup (filter_map (λ e. shrunk env valid e.0 (from_bytes e.1)) l)
  shrunk-AllNoDup valid [] h = tt
  shrunk-AllNoDup valid ((key, bytes) ∷ l) h =
      let (album, decoded, lists) = h.0 in
      elim (Bool-cases (ltb (length (filter valid album.song_keys)) (length album.song_keys))) [
        | inl e ↦
            rw (filter_map, decoded, e)
              (NoDup-filter valid album.song_keys lists.1, shrunk-AllNoDup valid l h.1)
        | inr e ↦ rw (filter_map, decoded, e) (shrunk-AllNoDup valid l h.1)
      ]

  run-AllFilled : (op : AlbumOp) (db : albums.Store) → AllFilled db → AllFilled (run op db)
  unfolding cleanup_orphaned_albums
  run-AllFilled (updates song) db h = update-AllFilled song db h
  run-AllFilled (removes song) db h = remove_from-AllFilled song db h
  run-AllFilled (cleans valid) db h =
      write_each-AllFilled _ db (shrunk-AllNoDup valid (albums.iter db) h) h
  run-AllFilled deletes_all db h = rw (albums.iter-clear db) tt

  -- Whatever songs are added and removed, and whatever is cleaned up, from no albums on: every album
  -- that is stored is read back, lists at least one song, and lists none twice.
  pub run_all-AllFilled :
      (ops : List AlbumOp) (db : albums.Store) → albums.iter db ≡ [] → AllFilled (run_all ops db)
  run_all-AllFilled ops db e = from ops db (rw e tt)
    where
      from : (ops : List AlbumOp) (db : albums.Store) → AllFilled db → AllFilled (run_all ops db)
      from [] db h = h
      from (op ∷ ops) db h = from ops (run op db) (run-AllFilled op db h)
