-- ===== src/Commands/Kept.antt =====
-- The queue commands and the invariant of the queue.
use Prim.Native.String.{String}
use rsplayer.Prelude.{ℕ, sym, Option, none, some, List, length}
use rsplayer.Song.{Song, Text}
use rsplayer.Queue.State.{Env, QueueService, get_current_song}
use rsplayer.Queue.State.Ids.{HasRoom}
use rsplayer.Queue.Edit.{
  add_songs, add_song_by_id, add_songs_after_current, queue_found, add_song_after_current, clear,
  set_current_to_last, replace_all, add_songs_from_dir, load_songs_from_dir,
  add_songs_from_dir_after_current,
}
use rsplayer.Queue.Reachable.Written.{Inv}
use rsplayer.Queue.Reachable.Kept.{last-SameIds}
use rsplayer.Commands.{
  Album, Library, QueueCommand, Context, get_songs_from_artist, load_playlist_in_queue,
  load_album_in_queue, load_artist_in_queue, load_song_to_queue, load_local_lib_directory,
  add_song_to_queue, add_artist_to_queue, add_local_lib_directory, add_playlist_to_queue,
  add_album_to_queue, clear_queue, query_current_song, query_queue, remove_item, add_song_after,
  add_song_and_play, add_directory_after, add_directory_and_play, add_artist_after,
  add_artist_and_play, add_album_after, add_album_and_play, load_genre_in_queue, add_genre_to_queue,
  load_decade_in_queue, add_decade_to_queue, move_item_to, move_item_after, get_songs_from_album,
  songs_of_album, keys_of_albums,
}
use rsplayer.Commands.Handle.{
  handle_queue_command, load_songs_and_play, add_songs_to_queue, start_added, load_album, add_album,
  add_and_play,
}
use rsplayer.Commands.Refine.{
  songs_added, song_found, just, add_song_by_id-add_songs, add_each_by_id-add_songs,
}
use rsplayer.Commands.Outcomes.{change, album_change, send_song-queue}
use rsplayer.Queue.Reachable.{select, reorder, reorder_next, query_song, query}
use rsplayer.Queue.Reachable.Invariant.{Step-Inv}
use rsplayer.Queue.Reachable.Added.{
  kept-Inv, add_songs-Inv, add_next-Inv, clear-Inv, replace_all-Inv, remove_song-Inv,
}
use rsplayer.Queue.Reachable.Moved.{queue_found-Inv}
use rsplayer.Prelude.{subst}

module _ {env : Env} where
  loaded :
      (songs : List Song) (q : QueueService env)
      → HasRoom (length songs) q
      → Inv q
      → Inv (add_songs songs (clear q))
  unfolding replace_all
  loaded songs q room h = replace_all-Inv songs q room h

  by_id :
      (song_id : Text) (q : QueueService env)
      → HasRoom (length (song_found (env.songs.find_by_id song_id) song_id)) q
      → Inv q
      → Inv (add_song_by_id song_id q)
  by_id song_id q room h = rw (add_song_by_id-add_songs song_id q) (add_songs-Inv _ q room h)

  found_next :
      (o : Option Song) (q : QueueService env)
      → HasRoom (length (just o)) q
      → Inv q
      → Inv (queue_found o q)
  found_next none q room h = h
  found_next (some song) q room h = queue_found-Inv (some song) q room h

  start_added-Inv :
      (first : Option ℕ) (message : String) (ctx : Context env)
      → Inv ctx.queue
      → Inv (start_added first message ctx).queue
  start_added-Inv none message ctx h = h
  start_added-Inv (some key) message ctx h = Step-Inv (select key ctx.queue) h

  added_next :
      (songs : List Song) (message : String) (ctx : Context env)
      → HasRoom (length songs) ctx.queue
      → Inv ctx.queue
      → Inv (add_and_play (add_songs_after_current songs) message ctx).queue
  added_next songs message ctx room h =
      let (first, q) = add_songs_after_current songs ctx.queue in
      start_added-Inv first message (record ctx { queue = q }) (add_next-Inv songs ctx.queue room h)

module _ {env : Env} (library : Library) where
  load_album-Inv :
      (o : Option Album) (ctx : Context env)
      → HasRoom (length (songs_added (album_change env library o))) ctx.queue
      → Inv ctx.queue
      → Inv (load_album o ctx).queue
  unfolding replace_all
  load_album-Inv none ctx room h = h
  load_album-Inv (some album) ctx room h = loaded _ ctx.queue room h

  add_album-Inv :
      (o : Option Album) (ctx : Context env)
      → HasRoom (length (songs_of_album env o)) ctx.queue
      → Inv ctx.queue
      → Inv (add_album o ctx).queue
  add_album-Inv none ctx room h = h
  add_album-Inv (some album) ctx room h = add_songs-Inv _ ctx.queue room h

  -- Every queue command, on a queue that satisfies the invariant and has room for the ids of the
  -- songs that it adds, keeps the invariant.
  pub handle_queue_command-Inv :
      (command : QueueCommand) (ctx : Context env)
      → Inv ctx.queue
      → HasRoom (length (songs_added (change env library command))) ctx.queue
      → Inv (handle_queue_command library command ctx).queue
  unfolding handle_queue_command change load_songs_and_play add_songs_to_queue replace_all
      add_songs_from_dir load_songs_from_dir add_songs_from_dir_after_current add_song_after_current
  handle_queue_command-Inv (add_song_to_queue song_id) ctx h room = by_id song_id ctx.queue room h
  handle_queue_command-Inv clear_queue ctx h room = clear-Inv ctx.queue h
  handle_queue_command-Inv (remove_item song_id) ctx h room = remove_song-Inv song_id ctx.queue h
  handle_queue_command-Inv (add_song_after song_id) ctx h room =
      found_next (env.songs.find_by_id song_id) ctx.queue room h
  handle_queue_command-Inv (add_song_and_play song_id) ctx h room =
      let q = add_song_by_id song_id ctx.queue in
      kept-Inv q (set_current_to_last q) (last-SameIds q) (by_id song_id ctx.queue room h)
  handle_queue_command-Inv (add_directory_after dir) ctx h room =
      add_next-Inv (env.songs.find_songs_by_dir_prefix dir) ctx.queue room h
  handle_queue_command-Inv (add_directory_and_play dir) ctx h room =
      added_next (env.songs.find_songs_by_dir_prefix dir) _ ctx room h
  handle_queue_command-Inv (add_artist_after artist) ctx h room =
      add_next-Inv (get_songs_from_artist env library artist) ctx.queue room h
  handle_queue_command-Inv (add_artist_and_play artist) ctx h room =
      added_next (get_songs_from_artist env library artist) _ ctx room h
  handle_queue_command-Inv (add_album_after album_id) ctx h room =
      add_next-Inv (get_songs_from_album env library album_id) ctx.queue room h
  handle_queue_command-Inv (add_album_and_play album_id) ctx h room =
      added_next (get_songs_from_album env library album_id) _ ctx room h
  handle_queue_command-Inv (load_genre_in_queue genre) ctx h room = loaded _ ctx.queue room h
  handle_queue_command-Inv (add_genre_to_queue genre) ctx h room = add_songs-Inv _ ctx.queue room h
  handle_queue_command-Inv (load_decade_in_queue decade) ctx h room = loaded _ ctx.queue room h
  handle_queue_command-Inv (add_decade_to_queue decade) ctx h room =
      add_songs-Inv _ ctx.queue room h
  handle_queue_command-Inv (move_item_to from to) ctx h room =
      Step-Inv (reorder from to ctx.queue) h
  handle_queue_command-Inv (move_item_after from) ctx h room =
      Step-Inv (reorder_next from ctx.queue) h
  handle_queue_command-Inv (load_playlist_in_queue pl_id) ctx h room = loaded _ ctx.queue room h
  handle_queue_command-Inv (add_playlist_to_queue pl_id) ctx h room =
      add_songs-Inv _ ctx.queue room h
  handle_queue_command-Inv (load_album_in_queue album_id) ctx h room =
      load_album-Inv (library.find_by_id album_id) ctx room h
  handle_queue_command-Inv (load_artist_in_queue name) ctx h room =
      rw (add_each_by_id-add_songs (keys_of_albums (library.find_by_artist name)) (clear ctx.queue))
        (loaded _ ctx.queue room h)
  handle_queue_command-Inv (add_album_to_queue album_id) ctx h room =
      add_album-Inv (library.find_by_id album_id) ctx room h
  handle_queue_command-Inv (add_artist_to_queue name) ctx h room = add_songs-Inv _ ctx.queue room h
  handle_queue_command-Inv (load_song_to_queue song_id) ctx h room =
      rw (add_song_by_id-add_songs song_id (clear ctx.queue)) (loaded _ ctx.queue room h)
  handle_queue_command-Inv query_current_song ctx h room =
      let (song, q) = get_current_song ctx.queue in
      subst Inv (sym (send_song-queue song (record ctx { queue = q })))
        (Step-Inv (query_song ctx.queue) h)
  handle_queue_command-Inv (query_queue c) ctx h room = Step-Inv (query c ctx.queue) h
  handle_queue_command-Inv (add_local_lib_directory dir) ctx h room =
      add_songs-Inv _ ctx.queue room h
  handle_queue_command-Inv (load_local_lib_directory dir) ctx h room = loaded _ ctx.queue room h
