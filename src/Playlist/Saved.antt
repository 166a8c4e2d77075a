-- ===== src/Playlist/Saved.antt =====
-- What a saved playlist shows, and what saving does to the others.
use rsplayer.Prelude.{
  ℕ, zero, suc, ◌≤◌, ◌≡◌, ◌≢◌, refl, ap, subst, ◌∙◌, List, [], ◌∷◌, arith, length, filter_map, take,
  take_all, drop, map, append-nil,
}
use rsplayer.Store.Texts.{with_prefix, keys, values}
use rsplayer.Song.{Bytes, Text, Song, SongCodec}
use rsplayer.Playlist.{
  PlaylistEnv, PlaylistService, remove_keys, insert_songs, save_new_playlist,
  get_playlist_page_by_name,
}
use rsplayer.Playlist.Entries.{
  remove_all, with_prefix-remove_all, insert_all, songs_of, with_prefix-insert_all, insert_all-perm,
  insert_all-order,
}
use mathlib.Core.List.{Perm}

length-values : (l : List (Text × Bytes)) → length (values l) ≡ length l
length-values [] = refl
length-values ((k, v) ∷ l) = ap suc (length-values l)

-- Reading a page of written songs.
read_page :
    (codec : SongCodec) (offset limit : ℕ) (songs : List Song)
    → filter_map codec.bytes_to_song
        (take limit (drop offset (map codec.to_json_string_bytes songs)))
      ≡ take limit (drop offset songs)
read_page codec zero zero songs = refl
read_page codec (suc offset) zero songs = refl
read_page codec zero (suc limit) [] = refl
read_page codec (suc offset) (suc limit) [] = refl
read_page codec zero (suc limit) (song ∷ songs) =
    rw (codec.bytes_to_song-to_json_string_bytes song)
      (ap (λ r. song ∷ r) (read_page codec zero limit songs))
read_page codec (suc offset) (suc limit) (song ∷ songs) = read_page codec offset (suc limit) songs

module _ (env : PlaylistEnv) where
  open env use {main, codec}

  pub iter-remove_keys :
      (ks : List Text) (db : main.Store)
      → main.iter (remove_keys env ks db) ≡ remove_all ks (main.iter db)
  unfolding remove_keys
  iter-remove_keys [] db = refl
  iter-remove_keys (k ∷ ks) db =
      iter-remove_keys ks (main.remove db k) ∙ ap (remove_all ks) (main.iter-remove db k)

  pub iter-insert_songs :
      (name : Text) (idx : ℕ) (songs : List Song) (db : main.Store)
      → main.iter (insert_songs env name idx songs db)
        ≡ insert_all codec name idx songs (main.iter db)
  unfolding insert_songs
  iter-insert_songs name idx [] db = refl
  iter-insert_songs name idx (song ∷ songs) db =
      iter-insert_songs name (suc idx) songs _
      ∙ ap (insert_all codec name (suc idx) songs) (main.iter-insert db _ _)

  -- What is left of another playlist's entries when the named one has been emptied.
  pub emptied :
      (name : Text) (db : main.Store)
      → with_prefix name (main.iter (remove_keys env (keys (main.prefix db name)) db)) ≡ []
  emptied name db =
      rw (iter-remove_keys (keys (main.prefix db name)) db, main.prefix_lem db name)
        (with_prefix-remove_all name (main.iter db))

module _ {env : PlaylistEnv} where
  open env use {main, codec}

  -- The entries of a playlist behind its saving: its songs, and nothing else.
  saved_entries :
      (name : Text) (song : Song) (songs : List Song) (service : PlaylistService env)
      → main.prefix (save_new_playlist name (song ∷ songs) service).main_db name
        ≡ insert_all codec name 0 (song ∷ songs) []
  unfolding save_new_playlist
  saved_entries name song songs service =
      let db = remove_keys env (keys (main.prefix service.main_db name)) service.main_db in
      main.prefix_lem _ name
      ∙ ap (with_prefix name) (iter-insert_songs env name 0 (song ∷ songs) db)
      ∙ with_prefix-insert_all codec name 0 (song ∷ songs) (main.iter db) (main.iter-IsSorted db)
      ∙ ap (insert_all codec name 0 (song ∷ songs)) (emptied env name service.main_db)

  -- Whatever was saved before, a page over the whole of a playlist that has just been saved from at
  -- least one song has its songs, each as often as it was given, and their number as its total.
  pub save_new_playlist-page :
      (name : Text) (songs : List Song) (service : PlaylistService env) (limit : ℕ)
      → songs ≢ []
      → length songs ≤ limit
      → let page = get_playlist_page_by_name name 0 limit (save_new_playlist name songs service) in
        (page.total ≡ length songs) × Perm page.items songs
  unfolding get_playlist_page_by_name
  save_new_playlist-page name [] service limit h fits = absurd (h refl)
  save_new_playlist-page name (song ∷ songs) service limit h fits =
      let (count, all) = insert_all-perm codec name 0 (song ∷ songs) [] (λ j le. tt) in
      let size = length-values (insert_all codec name 0 (song ∷ songs) []) in
      rw
        (
          saved_entries name song songs service,
          take_all limit (values (insert_all codec name 0 (song ∷ songs) [])) (omega arith),
        )
        (
          omega (arith, count, size),
          subst (λ xs. Perm (songs_of codec (insert_all codec name 0 (song ∷ songs) [])) xs)
              (append-nil (song ∷ songs)) all,
        )

  -- A page of a playlist of at most ten songs, at least one, that has just been saved has the songs
  -- at its positions, in their order.
  pub save_new_playlist-order :
      (name : Text) (songs : List Song) (service : PlaylistService env) (offset limit : ℕ)
      → songs ≢ []
      → length songs ≤ 10
      → (get_playlist_page_by_name name offset limit (save_new_playlist name songs service)).items
        ≡ take limit (drop offset songs)
  unfolding get_playlist_page_by_name
  save_new_playlist-order name [] service offset limit h fits = absurd (h refl)
  save_new_playlist-order name (song ∷ songs) service offset limit h fits =
      rw
        (
          saved_entries name song songs service,
          insert_all-order codec name 0 (song ∷ songs) [] (omega arith) (λ j le lt. tt),
        )
        (read_page codec offset limit (song ∷ songs))
