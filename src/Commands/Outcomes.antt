-- ===== src/Commands/Outcomes.antt =====
-- The specification of all queue commands as changes of the song list.
use Prim.Native.String.{String}
use rsplayer.Prelude.{
  ℕ, ◌≡◌, refl, sym, ap, ◌∙◌, Option, none, some, List, [], ◌++◌, length, append-nil,
}
use rsplayer.Song.{Song}
use rsplayer.Queue.State.{Env, QueueService, get_current_song}
use rsplayer.Queue.State.Ids.{HasRoom}
use rsplayer.Queue.Edit.{
  add_songs, add_song_by_id, add_songs_after_current, add_song_after_current, clear,
  set_current_to_last, replace_all, add_songs_from_dir, load_songs_from_dir,
  add_songs_from_dir_after_current,
}
use rsplayer.Queue.Edit.Append.{get_all_songs-add_songs, replace_all_lem, get_all_songs-clear}
use rsplayer.Queue.Edit.Search.{remove_song_lem}
use rsplayer.Queue.Reorder.Songs.{move_item-songs, move_item_after_current-songs, current_position}
use rsplayer.Queue.Pages.{get_all_songs, query_current_queue}
use rsplayer.Queue.Reachable.Written.{Inv}
use rsplayer.Queue.Reachable.Kept.{get_current_song-SameIds, query-SameIds, last-SameIds}
use rsplayer.Commands.{
  Album, Library, QueueCommand, Context, get_songs_from_artist, get_songs_from_genre,
  get_songs_from_decade, load_playlist_in_queue, load_album_in_queue, load_artist_in_queue,
  load_song_to_queue, load_local_lib_directory, add_song_to_queue, add_artist_to_queue,
  add_local_lib_directory, add_playlist_to_queue, add_album_to_queue, clear_queue,
  query_current_song, query_queue, remove_item, add_song_after, add_song_and_play,
  add_directory_after, add_directory_and_play, add_artist_after, add_artist_and_play,
  add_album_after, add_album_and_play, load_genre_in_queue, add_genre_to_queue,
  load_decade_in_queue, add_decade_to_queue, move_item_to, move_item_after, get_songs_from_album,
  songs_of_keys, songs_of_albums, songs_of_album, keys_of_albums,
}
use rsplayer.Commands.Handle.{
  handle_queue_command, load_songs_and_play, add_songs_to_queue, start_added, send_song, load_album,
  add_album, add_and_play,
}
use rsplayer.Commands.Refine.{
  Change, keep, reorder, reorder_next, append, become, drop_first, Outcome, songs_added, song_found,
  songs_by_id, just, same-entries, add_song_by_id-add_songs, add_each_by_id-add_songs,
  get_all_songs-add_songs_after_current, get_all_songs-queue_found,
}

module _ (env : Env) (library : Library) where
  abbrev pub album_change : Option Album → Change
  album_change none = keep
  album_change (some album) = become (songs_of_keys env album.song_keys)

  unfoldable pub change : QueueCommand → Change
  change (add_song_to_queue song_id) = append (song_found (env.songs.find_by_id song_id) song_id)
  change clear_queue = become []
  change (remove_item song_id) = drop_first song_id
  change (add_song_after song_id) = append (just (env.songs.find_by_id song_id))
  change (add_song_and_play song_id) = append (song_found (env.songs.find_by_id song_id) song_id)
  change (add_directory_after dir) = append (env.songs.find_songs_by_dir_prefix dir)
  change (add_directory_and_play dir) = append (env.songs.find_songs_by_dir_prefix dir)
  change (add_artist_after artist) = append (get_songs_from_artist env library artist)
  change (add_artist_and_play artist) = append (get_songs_from_artist env library artist)
  change (add_album_after album_id) = append (get_songs_from_album env library album_id)
  change (add_album_and_play album_id) = append (get_songs_from_album env library album_id)
  change (load_genre_in_queue genre) = become (get_songs_from_genre env library genre)
  change (add_genre_to_queue genre) = append (get_songs_from_genre env library genre)
  change (load_decade_in_queue decade) = become (get_songs_from_decade env library decade)
  change (add_decade_to_queue decade) = append (get_songs_from_decade env library decade)
  change (move_item_to from to) = reorder from to
  change (move_item_after from) = reorder_next from
  change (load_playlist_in_queue pl_id) = become (library.playlist_items pl_id 0 20000)
  change (add_playlist_to_queue pl_id) = append (library.playlist_items pl_id 0 20000)
  change (load_album_in_queue album_id) = album_change (library.find_by_id album_id)
  change (load_artist_in_queue name) =
      become (songs_by_id env (keys_of_albums (library.find_by_artist name)))
  change (add_album_to_queue album_id) = append (songs_of_album env (library.find_by_id album_id))
  change (add_artist_to_queue name) = append (songs_of_albums env (library.find_by_artist name))
  change (load_song_to_queue song_id) = become (song_found (env.songs.find_by_id song_id) song_id)
  change query_current_song = keep
  change (query_queue query) = keep
  change (add_local_lib_directory dir) = append (env.songs.find_songs_by_dir_prefix dir)
  change (load_local_lib_directory dir) = become (env.songs.find_songs_by_dir_prefix dir)

module _ {env : Env} where
  added :
      (songs : List Song) (q : QueueService env)
      → HasRoom (length songs) q
      → Inv q
      → get_all_songs (add_songs songs q) ≡ get_all_songs q ++ songs
  added songs q room h = get_all_songs-add_songs songs q room h.valid

  loaded :
      (songs : List Song) (q : QueueService env)
      → HasRoom (length songs) q
      → Inv q
      → get_all_songs (add_songs songs (clear q)) ≡ songs
  unfolding replace_all
  loaded songs q room h = (replace_all_lem songs q room h.valid).0

  start_added-songs :
      (first : Option ℕ) (message : String) (ctx : Context env)
      → get_all_songs (start_added first message ctx).queue ≡ get_all_songs ctx.queue
  unfolding get_all_songs
  start_added-songs none message ctx = refl
  start_added-songs (some key) message ctx = refl

  added_next :
      (songs : List Song) (message : String) (ctx : Context env)
      → HasRoom (length songs) ctx.queue
      → Inv ctx.queue
      → get_all_songs (add_and_play (add_songs_after_current songs) message ctx).queue
        ≡ get_all_songs ctx.queue ++ songs
  added_next songs message ctx room h =
      let (first, q) = add_songs_after_current songs ctx.queue in
      start_added-songs first message (record ctx { queue = q })
      ∙ get_all_songs-add_songs_after_current songs ctx.queue room h.valid

  pub send_song-queue : (o : Option Song) (ctx : Context env) → (send_song o ctx).queue ≡ ctx.queue
  send_song-queue none ctx = refl
  send_song-queue (some song) ctx = refl

module _ {env : Env} (library : Library) where
  load_album-Outcome :
      (o : Option Album) (ctx : Context env)
      → Inv ctx.queue
      → HasRoom (length (songs_added (album_change env library o))) ctx.queue
      → Outcome
          (album_change env library o)
          (current_position ctx.queue)
          (get_all_songs ctx.queue)
          (get_all_songs (load_album o ctx).queue)
  unfolding replace_all
  load_album-Outcome none ctx h room = refl
  load_album-Outcome (some album) ctx h room =
      loaded (songs_of_keys env album.song_keys) ctx.queue room h

  add_album-songs :
      (o : Option Album) (ctx : Context env)
      → Inv ctx.queue
      → HasRoom (length (songs_of_album env o)) ctx.queue
      → get_all_songs (add_album o ctx).queue ≡ get_all_songs ctx.queue ++ songs_of_album env o
  add_album-songs none ctx h room = sym (append-nil (get_all_songs ctx.queue))
  add_album-songs (some album) ctx h room =
      added (songs_of_keys env album.song_keys) ctx.queue room h

  -- Every queue command, on a queue that satisfies the invariant and has room for the ids of the
  -- songs that it adds, changes the list of songs as `change` says: it keeps the list, appends the
  -- songs that the repositories give for its argument, replaces the list by them, takes out the
  -- first song of a file, moves the first song of a file to the place of the first song of another,
  -- or moves it right behind the current song.
  pub handle_queue_command-Outcome :
      (command : QueueCommand) (ctx : Context env)
      → Inv ctx.queue
      → HasRoom (length (songs_added (change env library command))) ctx.queue
      → Outcome
          (change env library command)
          (current_position ctx.queue)
          (get_all_songs ctx.queue)
          (get_all_songs (handle_queue_command library command ctx).queue)
  unfolding handle_queue_command change load_songs_and_play add_songs_to_queue replace_all
      add_songs_from_dir load_songs_from_dir add_songs_from_dir_after_current add_song_after_current
  handle_queue_command-Outcome (add_song_to_queue song_id) ctx h room =
      rw (add_song_by_id-add_songs song_id ctx.queue) (added _ ctx.queue room h)
  handle_queue_command-Outcome clear_queue ctx h room = get_all_songs-clear ctx.queue
  handle_queue_command-Outcome (remove_item song_id) ctx h room =
      remove_song_lem song_id ctx.queue h.songs
  handle_queue_command-Outcome (add_song_after song_id) ctx h room =
      get_all_songs-queue_found (env.songs.find_by_id song_id) ctx.queue h.valid
  handle_queue_command-Outcome (add_song_and_play song_id) ctx h room =
      same-entries (add_song_by_id song_id ctx.queue)
        (set_current_to_last (add_song_by_id song_id ctx.queue))
        (last-SameIds (add_song_by_id song_id ctx.queue)).same_entries
      ∙ rw (add_song_by_id-add_songs song_id ctx.queue) (added _ ctx.queue room h)
  handle_queue_command-Outcome (add_directory_after dir) ctx h room =
      get_all_songs-add_songs_after_current (env.songs.find_songs_by_dir_prefix dir) ctx.queue room
        h.valid
  handle_queue_command-Outcome (add_directory_and_play dir) ctx h room =
      added_next (env.songs.find_songs_by_dir_prefix dir) "Directory added and playing" ctx room h
  handle_queue_command-Outcome (add_artist_after artist) ctx h room =
      get_all_songs-add_songs_after_current (get_songs_from_artist env library artist) ctx.queue
        room h.valid
  handle_queue_command-Outcome (add_artist_and_play artist) ctx h room =
      added_next (get_songs_from_artist env library artist) "Artist added and playing" ctx room h
  handle_queue_command-Outcome (add_album_after album_id) ctx h room =
      get_all_songs-add_songs_after_current (get_songs_from_album env library album_id) ctx.queue
        room h.valid
  handle_queue_command-Outcome (add_album_and_play album_id) ctx h room =
      added_next (get_songs_from_album env library album_id) "Album added and playing" ctx room h
  handle_queue_command-Outcome (load_genre_in_queue genre) ctx h room = loaded _ ctx.queue room h
  handle_queue_command-Outcome (add_genre_to_queue genre) ctx h room = added _ ctx.queue room h
  handle_queue_command-Outcome (load_decade_in_queue decade) ctx h room = loaded _ ctx.queue room h
  handle_queue_command-Outcome (add_decade_to_queue decade) ctx h room = added _ ctx.queue room h
  handle_queue_command-Outcome (move_item_to from to) ctx h room =
      move_item-songs from to ctx.queue h.songs
  handle_queue_command-Outcome (move_item_after from) ctx h room =
      move_item_after_current-songs from ctx.queue h.songs
  handle_queue_command-Outcome (load_playlist_in_queue pl_id) ctx h room = loaded _ ctx.queue room h
  handle_queue_command-Outcome (add_playlist_to_queue pl_id) ctx h room = added _ ctx.queue room h
  handle_queue_command-Outcome (load_album_in_queue album_id) ctx h room =
      load_album-Outcome (library.find_by_id album_id) ctx h room
  handle_queue_command-Outcome (load_artist_in_queue name) ctx h room =
      rw (add_each_by_id-add_songs (keys_of_albums (library.find_by_artist name)) (clear ctx.queue))
        (loaded _ ctx.queue room h)
  handle_queue_command-Outcome (add_album_to_queue album_id) ctx h room =
      add_album-songs (library.find_by_id album_id) ctx h room
  handle_queue_command-Outcome (add_artist_to_queue name) ctx h room = added _ ctx.queue room h
  handle_queue_command-Outcome (load_song_to_queue song_id) ctx h room =
      rw (add_song_by_id-add_songs song_id (clear ctx.queue)) (loaded _ ctx.queue room h)
  handle_queue_command-Outcome query_current_song ctx h room =
      let (song, q) = get_current_song ctx.queue in
      ap (λ r. get_all_songs r) (send_song-queue song (record ctx { queue = q }))
      ∙ same-entries ctx.queue q (get_current_song-SameIds ctx.queue).same_entries
  handle_queue_command-Outcome (query_queue query) ctx h room =
      same-entries ctx.queue (query_current_queue query ctx.queue).1
        (query-SameIds query ctx.queue).same_entries
  handle_queue_command-Outcome (add_local_lib_directory dir) ctx h room = added _ ctx.queue room h
  handle_queue_command-Outcome (load_local_lib_directory dir) ctx h room = loaded _ ctx.queue room h
