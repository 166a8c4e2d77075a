-- ===== src/Commands/Handle.antt =====
-- queue_commands.rs: `handle_queue_command` and its two helpers.
use Prim.Native.String.{String}
use rsplayer.Prelude.{ℕ, Option, none, some, List, [], ◌∷◌, length}
use rsplayer.Song.{Text, Song}
use rsplayer.Queue.State.{Env, QueueService, set_current_song, get_current_song}
use rsplayer.Queue.Edit.{
  add_songs, add_song_by_id, clear, remove_song, add_song_after_current, replace_all,
  set_current_to_last, add_songs_from_dir_after_current, add_songs_after_current,
  add_songs_from_dir, load_songs_from_dir,
}
use rsplayer.Queue.Reorder.{move_item, move_item_after_current}
use rsplayer.Queue.Pages.{PlaylistPage, query_current_queue}
use rsplayer.Commands.{
  Album, Library, QueueCommand, Message, counted, counted_of, naming, stop_current_song,
  play_from_beginning, send_notification, current_song_event, current_queue_event, Handler, ◌>>◌,
  effect, on_queue, notify, songs_of_keys, songs_of_albums, keys_of_albums, get_songs_from_album,
  get_songs_from_artist, get_songs_from_genre, get_songs_from_decade, load_playlist_in_queue,
  load_album_in_queue, load_artist_in_queue, load_song_to_queue, load_local_lib_directory,
  add_song_to_queue, add_artist_to_queue, add_local_lib_directory, add_playlist_to_queue,
  add_album_to_queue, clear_queue, query_current_song, query_queue, remove_item, add_song_after,
  add_song_and_play, add_directory_after, add_directory_and_play, add_artist_after,
  add_artist_and_play, add_album_after, add_album_and_play, load_genre_in_queue, add_genre_to_queue,
  load_decade_in_queue, add_decade_to_queue, move_item_to, move_item_after,
}

module _ {env : Env} where
  unfoldable pub load_songs_and_play : List Song → Message → Handler env
  load_songs_and_play songs message = do
    effect stop_current_song
    on_queue (replace_all songs)
    effect play_from_beginning
    effect (send_notification message)

  unfoldable pub add_songs_to_queue : List Song → Message → Handler env
  add_songs_to_queue songs message = do
    on_queue (add_songs songs)
    effect (send_notification message)

  -- The block of the `...AndPlay` commands behind `if let Some(first_key)`.
  abbrev pub start_added : Option ℕ → String → Handler env
  start_added none message ctx = ctx
  start_added (some first_key) message ctx =
      (do
        effect stop_current_song
        on_queue (set_current_song first_key)
        effect play_from_beginning
        notify message)
        ctx

  abbrev pub add_and_play : (QueueService env → Option ℕ × QueueService env) → String → Handler env
  add_and_play add message ctx =
      let (first, q) = add ctx.queue in start_added first message (record ctx { queue = q })

  -- `for_each(|sk| queue_service.add_song_by_id(sk))`
  unfoldable pub add_each_by_id : List Text → QueueService env → QueueService env
  add_each_by_id [] q = q
  add_each_by_id (key ∷ keys) q = add_each_by_id keys (add_song_by_id key q)

  abbrev pub send_song : Option Song → Handler env
  send_song none ctx = ctx
  send_song (some song) ctx = effect (current_song_event song) ctx

  -- `QueryCurrentSong` and `QueryCurrentQueue`: the queue may write the current song's key.
  abbrev pub answer_song : Option Song × QueueService env → Handler env
  answer_song (song, q) ctx = send_song song (record ctx { queue = q })

  abbrev pub answer_queue : Option PlaylistPage × QueueService env → Handler env
  answer_queue (page, q) ctx = effect (current_queue_event page) (record ctx { queue = q })

  abbrev pub load_album : Option Album → Handler env
  load_album none ctx = ctx
  load_album (some album) ctx =
      (do
        effect stop_current_song
        on_queue (replace_all (songs_of_keys env album.song_keys))
        effect play_from_beginning
        notify "Album loaded into queue")
        ctx

  abbrev pub add_album : Option Album → Handler env
  add_album none ctx = ctx
  add_album (some album) ctx =
      (do on_queue (add_songs (songs_of_keys env album.song_keys)); notify "Album added to queue")
        ctx

module _ {env : Env} (library : Library) where
  unfoldable pub handle_queue_command : QueueCommand → Handler env
  unfolding load_songs_and_play add_songs_to_queue
  handle_queue_command (add_song_to_queue song_id) = do
    on_queue (add_song_by_id song_id)
    notify "1 song added to queue"
  handle_queue_command clear_queue = do effect stop_current_song; on_queue clear
  handle_queue_command (remove_item song_id) = on_queue (remove_song song_id)
  handle_queue_command (add_song_after song_id) = do
    on_queue (add_song_after_current song_id)
    notify "Song added after current"
  handle_queue_command (add_song_and_play song_id) = do
    effect stop_current_song
    on_queue (add_song_by_id song_id)
    on_queue set_current_to_last
    effect play_from_beginning
    notify "Song added and playing"
  handle_queue_command (add_directory_after dir) = do
    on_queue (λ q. (add_songs_from_dir_after_current dir q).1)
    notify "Directory added after current"
  handle_queue_command (add_directory_and_play dir) =
      add_and_play (add_songs_from_dir_after_current dir) "Directory added and playing"
  handle_queue_command (add_artist_after artist) = do
    on_queue (λ q. (add_songs_after_current (get_songs_from_artist env library artist) q).1)
    notify "Artist added after current"
  handle_queue_command (add_artist_and_play artist) =
      add_and_play (add_songs_after_current (get_songs_from_artist env library artist))
        "Artist added and playing"
  handle_queue_command (add_album_after album_id) = do
    on_queue (λ q. (add_songs_after_current (get_songs_from_album env library album_id) q).1)
    notify "Album added after current"
  handle_queue_command (add_album_and_play album_id) =
      add_and_play (add_songs_after_current (get_songs_from_album env library album_id))
        "Album added and playing"
  handle_queue_command (load_genre_in_queue genre) =
      let songs = get_songs_from_genre env library genre in
      load_songs_and_play songs
        (counted_of (length songs) "songs from genre '" genre "' loaded into queue")
  handle_queue_command (add_genre_to_queue genre) =
      let songs = get_songs_from_genre env library genre in
      add_songs_to_queue songs
        (counted_of (length songs) "songs from genre '" genre "' added to queue")
  handle_queue_command (load_decade_in_queue decade) =
      let songs = get_songs_from_decade env library decade in
      load_songs_and_play songs
        (counted_of (length songs) "songs from '" decade "' loaded into queue")
  handle_queue_command (add_decade_to_queue decade) =
      let songs = get_songs_from_decade env library decade in
      add_songs_to_queue songs (counted_of (length songs) "songs from '" decade "' added to queue")
  handle_queue_command (move_item_to from to) = on_queue (move_item from to)
  handle_queue_command (move_item_after from) = do
    on_queue (move_item_after_current from)
    notify "Song moved after current"
  handle_queue_command (load_playlist_in_queue pl_id) = do
    effect stop_current_song
    on_queue (replace_all (library.playlist_items pl_id 0 20000))
    effect play_from_beginning
    notify "Playlist loaded into queue"
  handle_queue_command (add_playlist_to_queue pl_id) =
      let songs = library.playlist_items pl_id 0 20000 in
      (do
        add_songs_to_queue songs (counted (length songs) "songs added to queue")
        notify "Playlist added to queue")
  handle_queue_command (load_album_in_queue album_id) = load_album (library.find_by_id album_id)
  handle_queue_command (load_artist_in_queue name) = do
    effect stop_current_song
    on_queue clear
    on_queue (add_each_by_id (keys_of_albums (library.find_by_artist name)))
    effect play_from_beginning
    notify "All artist's albums loaded into queue"
  handle_queue_command (add_album_to_queue album_id) = add_album (library.find_by_id album_id)
  handle_queue_command (add_artist_to_queue name) = do
    on_queue (add_songs (songs_of_albums env (library.find_by_artist name)))
    notify "All artist's albums added to queue"
  handle_queue_command (load_song_to_queue song_id) = do
    effect stop_current_song
    on_queue clear
    on_queue (add_song_by_id song_id)
    effect play_from_beginning
    notify "Queue replaced with one song"
  handle_queue_command query_current_song = λ ctx. answer_song (get_current_song ctx.queue) ctx
  handle_queue_command (query_queue query) =
      λ ctx. answer_queue (query_current_queue query ctx.queue) ctx
  handle_queue_command (add_local_lib_directory dir) = do
    on_queue (add_songs_from_dir dir)
    effect (send_notification (naming "Dir " dir " added to queue"))
  handle_queue_command (load_local_lib_directory dir) = do
    effect stop_current_song
    on_queue (load_songs_from_dir dir)
    effect (send_notification (naming "Dir " dir " loaded to queue"))
    effect play_from_beginning
