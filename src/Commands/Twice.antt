-- ===== src/Commands/Twice.antt =====
-- What is heard after a `...AndPlay` command.
use rsplayer.Prelude.{ℕ, ◌≡◌, refl, ap, some, List, ◌∷◌, length, map, reverse, sym, subst}
use Prim.Native.String.{String}
use rsplayer.Song.{Song, Text}
use rsplayer.Queue.State.{
  Env, QueueService, get_priority_queue, save_priority_queue, set_current_song, with_statistics,
}
use rsplayer.Queue.State.Ids.{IsValid, HasRoom}
use rsplayer.Queue.Edit.{
  add_songs_after_current, insert_songs, promote_all, add_songs_from_dir_after_current,
}
use rsplayer.Queue.Edit.Upcoming.{
  keys_from, promote_all-keys_from, insert_songs-keys, insert_songs-Stored, play_next-Stored,
  current-song,
}
use rsplayer.Queue.Edit.Through.{play_from_current}
use rsplayer.Commands.{
  Library, Context, add_directory_and_play, add_artist_and_play, add_album_and_play, QueueCommand,
  get_songs_from_album, get_songs_from_artist,
}
use rsplayer.Commands.Handle.{handle_queue_command, add_and_play}

-- The three commands, and the songs that the repositories give for their argument.
pub data AndPlay : Type 0 where
  directory artist album : Text → AndPlay

abbrev pub command_of : AndPlay → QueueCommand
command_of (directory dir) = add_directory_and_play dir
command_of (artist name) = add_artist_and_play name
command_of (album album_id) = add_album_and_play album_id

abbrev pub songs_of : Env → Library → AndPlay → List Song
songs_of env library (directory dir) = env.songs.find_songs_by_dir_prefix dir
songs_of env library (artist name) = get_songs_from_artist env library name
songs_of env library (album album_id) = get_songs_from_album env library album_id

module _ {env : Env} (random_range : ℕ → ℕ) where
  -- Heard twice: the current song, then the moves forward.
  abbrev pub HeardTwice : Song → List Song → QueueService env → Type 0
  HeardTwice song songs q =
      play_from_current random_range (length (song ∷ songs)) q
      ≡ map (λ s. some (with_statistics env s)) (song ∷ song ∷ songs)

  abbrev AddedTwice : Song → List Song → String → Context env → List Song → Type 0
  AddedTwice song songs message ctx found =
      HeardTwice song songs (add_and_play (add_songs_after_current found) message ctx).queue

  add_and_play-HeardTwice :
      (song : Song) (songs : List Song) (message : String) (ctx : Context env)
      → HasRoom (length (song ∷ songs)) ctx.queue
      → IsValid ctx.queue
      → HeardTwice song songs
          (add_and_play (add_songs_after_current (song ∷ songs)) message ctx).queue
  unfolding add_songs_after_current play_from_current
  add_and_play-HeardTwice song songs message ctx room h =
      let q = ctx.queue in
      let r = (insert_songs (song ∷ songs) q).1 in
      let new_keys = keys_from q.next_id (length (song ∷ songs)) in
      let (rest, e) =
        promote_all-keys_from q.next_id (length (song ∷ songs)) (get_priority_queue r) in
      let stored = insert_songs-Stored (song ∷ songs) q room h in
      let s =
        set_current_song q.next_id
          (save_priority_queue (promote_all (reverse new_keys) (get_priority_queue r)) r) in
      rw (insert_songs-keys (song ∷ songs) q room, current-song q.next_id song s refl stored.0)
        (ap (λ l. some (with_statistics env song) ∷ l)
          (play_next-Stored random_range (song ∷ songs) q.next_id rest s e stored))

  -- A valid queue with room for the ids, and a directory, an artist or an album with songs: after the
  -- `...AndPlay` command the first of these songs is current and also stays first in the priority
  -- queue, so that from the current song on it is heard twice in a row, and the others behind it,
  -- whatever the mode and the random generator.
  pub handle_queue_command-HeardTwice :
      (library : Library) (what : AndPlay) (song : Song) (songs : List Song) (ctx : Context env)
      → HasRoom (length (song ∷ songs)) ctx.queue
      → IsValid ctx.queue
      → songs_of env library what ≡ song ∷ songs
      → HeardTwice song songs (handle_queue_command library (command_of what) ctx).queue
  unfolding handle_queue_command add_songs_from_dir_after_current
  handle_queue_command-HeardTwice library (directory dir) song songs ctx room h e =
      subst (AddedTwice song songs "Directory added and playing" ctx) (sym e)
        (add_and_play-HeardTwice song songs "Directory added and playing" ctx room h)
  handle_queue_command-HeardTwice library (artist name) song songs ctx room h e =
      subst (AddedTwice song songs "Artist added and playing" ctx) (sym e)
        (add_and_play-HeardTwice song songs "Artist added and playing" ctx room h)
  handle_queue_command-HeardTwice library (album album_id) song songs ctx room h e =
      subst (AddedTwice song songs "Album added and playing" ctx) (sym e)
        (add_and_play-HeardTwice song songs "Album added and playing" ctx room h)
