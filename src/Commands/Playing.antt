-- ===== src/Commands/Playing.antt =====
-- The order of the calls that the queue commands make to the player.
use Prim.Native.String.{String}
use rsplayer.Prelude.{
  ℕ, ◌≡◌, refl, sym, ap, ◌∙◌, Bool, true, false, ◌&&◌, Option, none, some, List, [], ◌∷◌, ◌++◌,
  append-nil, append_assoc,
}
use rsplayer.Song.{Song}
use rsplayer.Queue.State.{Env, get_current_song}
use rsplayer.Queue.Edit.{add_songs_after_current, add_songs_from_dir_after_current}
use rsplayer.Commands.{
  Library, Album, get_songs_from_artist, get_songs_from_album, QueueCommand, Context, Effect,
  stop_current_song, play_from_beginning, send_notification, current_song_event,
  current_queue_event, load_playlist_in_queue, load_album_in_queue, load_artist_in_queue,
  load_song_to_queue, load_local_lib_directory, add_song_to_queue, add_artist_to_queue,
  add_local_lib_directory, add_playlist_to_queue, add_album_to_queue, clear_queue,
  query_current_song, query_queue, remove_item, add_song_after, add_song_and_play,
  add_directory_after, add_directory_and_play, add_artist_after, add_artist_and_play,
  add_album_after, add_album_and_play, load_genre_in_queue, add_genre_to_queue,
  load_decade_in_queue, add_decade_to_queue, move_item_to, move_item_after,
}
use rsplayer.Commands.Handle.{
  handle_queue_command, load_songs_and_play, add_songs_to_queue, start_added, send_song, load_album,
  add_album,
}

-- Playing starts only when the player was stopped before and not started since.
abbrev pub orderly : Bool → List Effect → Bool
orderly stopped [] = true
orderly stopped (stop_current_song ∷ es) = orderly true es
orderly stopped (play_from_beginning ∷ es) = stopped && orderly false es
orderly stopped (send_notification m ∷ es) = orderly stopped es
orderly stopped (current_song_event s ∷ es) = orderly stopped es
orderly stopped (current_queue_event q ∷ es) = orderly stopped es

append_two : (xs : List Effect) (a b : Effect) → (xs ++ a ∷ []) ++ b ∷ [] ≡ xs ++ a ∷ b ∷ []
append_two xs a b = append_assoc xs (a ∷ []) (b ∷ [])

append_three :
    (xs : List Effect) (a b c : Effect)
    → ((xs ++ a ∷ []) ++ b ∷ []) ++ c ∷ [] ≡ xs ++ a ∷ b ∷ c ∷ []
append_three xs a b c =
    ap (λ l. l ++ c ∷ []) (append_two xs a b) ∙ append_assoc xs (a ∷ b ∷ []) (c ∷ [])

module _ {env : Env} where
  -- What a handler has done besides is appended, and orderly.
  abbrev pub Orderly : Context env → Context env → Type 0
  Orderly before after =
      (done : List Effect) × (after.effects ≡ before.effects ++ done) × (orderly false done ≡ true)

  Orderly-nothing :
      (before after : Context env) → after.effects ≡ before.effects → Orderly before after
  Orderly-nothing before after e = ([], e ∙ sym (append-nil before.effects), refl)

  start_added-Orderly :
      (first : Option ℕ) (message : String) (ctx : Context env)
      → Orderly ctx (start_added first message ctx)
  start_added-Orderly none message ctx = Orderly-nothing ctx ctx refl
  start_added-Orderly (some key) message ctx = (_, append_three ctx.effects _ _ _, refl)

  send_song-Orderly : (o : Option Song) (ctx : Context env) → Orderly ctx (send_song o ctx)
  send_song-Orderly none ctx = Orderly-nothing ctx ctx refl
  send_song-Orderly (some song) ctx = (current_song_event song ∷ [], refl, refl)

  load_album-Orderly : (o : Option Album) (ctx : Context env) → Orderly ctx (load_album o ctx)
  load_album-Orderly none ctx = Orderly-nothing ctx ctx refl
  load_album-Orderly (some album) ctx = (_, append_three ctx.effects _ _ _, refl)

  add_album-Orderly : (o : Option Album) (ctx : Context env) → Orderly ctx (add_album o ctx)
  add_album-Orderly none ctx = Orderly-nothing ctx ctx refl
  add_album-Orderly (some album) ctx = (_, refl, refl)

  -- Every queue command only adds to what was done before, and starts the player only after it has
  -- stopped it, at most once for each stop.
  pub handle_queue_command-Orderly :
      (library : Library) (command : QueueCommand) (ctx : Context env)
      → Orderly ctx (handle_queue_command library command ctx)
  unfolding handle_queue_command load_songs_and_play add_songs_to_queue
  handle_queue_command-Orderly library (add_song_to_queue song_id) ctx = (_, refl, refl)
  handle_queue_command-Orderly library clear_queue ctx = (_, refl, refl)
  handle_queue_command-Orderly library (remove_item song_id) ctx =
      Orderly-nothing ctx (handle_queue_command library (remove_item song_id) ctx) refl
  handle_queue_command-Orderly library (add_song_after song_id) ctx = (_, refl, refl)
  handle_queue_command-Orderly library (add_song_and_play song_id) ctx =
      (_, append_three ctx.effects _ _ _, refl)
  handle_queue_command-Orderly library (add_directory_after dir) ctx = (_, refl, refl)
  handle_queue_command-Orderly library (add_directory_and_play dir) ctx =
      let (first, q) = add_songs_from_dir_after_current dir ctx.queue in
      start_added-Orderly first _ (record ctx { queue = q })
  handle_queue_command-Orderly library (add_artist_after artist) ctx = (_, refl, refl)
  handle_queue_command-Orderly library (add_artist_and_play artist) ctx =
      let (first, q) =
        add_songs_after_current (get_songs_from_artist env library artist) ctx.queue in
      start_added-Orderly first _ (record ctx { queue = q })
  handle_queue_command-Orderly library (add_album_after album_id) ctx = (_, refl, refl)
  handle_queue_command-Orderly library (add_album_and_play album_id) ctx =
      let (first, q) =
        add_songs_after_current (get_songs_from_album env library album_id) ctx.queue in
      start_added-Orderly first _ (record ctx { queue = q })
  handle_queue_command-Orderly library (load_genre_in_queue genre) ctx =
      (_, append_three ctx.effects _ _ _, refl)
  handle_queue_command-Orderly library (add_genre_to_queue genre) ctx = (_, refl, refl)
  handle_queue_command-Orderly library (load_decade_in_queue decade) ctx =
      (_, append_three ctx.effects _ _ _, refl)
  handle_queue_command-Orderly library (add_decade_to_queue decade) ctx = (_, refl, refl)
  handle_queue_command-Orderly library (move_item_to from to) ctx =
      Orderly-nothing ctx (handle_queue_command library (move_item_to from to) ctx) refl
  handle_queue_command-Orderly library (move_item_after from) ctx = (_, refl, refl)
  handle_queue_command-Orderly library (load_playlist_in_queue pl_id) ctx =
      (_, append_three ctx.effects _ _ _, refl)
  handle_queue_command-Orderly library (add_playlist_to_queue pl_id) ctx =
      (_, append_two ctx.effects _ _, refl)
  handle_queue_command-Orderly library (load_album_in_queue album_id) ctx =
      load_album-Orderly (library.find_by_id album_id) ctx
  handle_queue_command-Orderly library (load_artist_in_queue name) ctx =
      (_, append_three ctx.effects _ _ _, refl)
  handle_queue_command-Orderly library (add_album_to_queue album_id) ctx =
      add_album-Orderly (library.find_by_id album_id) ctx
  handle_queue_command-Orderly library (add_artist_to_queue name) ctx = (_, refl, refl)
  handle_queue_command-Orderly library (load_song_to_queue song_id) ctx =
      (_, append_three ctx.effects _ _ _, refl)
  handle_queue_command-Orderly library query_current_song ctx =
      let (song, q) = get_current_song ctx.queue in
      send_song-Orderly song (record ctx { queue = q })
  handle_queue_command-Orderly library (query_queue query) ctx = (_, refl, refl)
  handle_queue_command-Orderly library (add_local_lib_directory dir) ctx = (_, refl, refl)
  handle_queue_command-Orderly library (load_local_lib_directory dir) ctx =
      (_, append_three ctx.effects _ _ _, refl)
