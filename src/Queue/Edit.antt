-- ===== src/Queue/Edit.antt =====
-- queue_service.rs: adding, removing and replacing songs.
pub mod Append
pub mod Search
pub mod Upcoming
pub mod Through
use rsplayer.Prelude.{
  ℕ, ◌≡◌, Option, none, some, List, [], ◌∷◌, Bool, true, false, ◌&&◌, if◌then◌else◌, bytes_eq,
  map_option, reverse, head?, ◌++◌,
}
use rsplayer.Song.{Bytes, Text, Song, song_of_file, starts_with, windows_any}
use rsplayer.Queue.State.{
  Env, Status, QueueService, generate_id, reset_random_state, set_current_song, get_priority_queue,
  save_priority_queue, promote, add_to_priority_queue,
}

module _ (env : Env) where
  -- The test of `find_entry_by_song_id` on one value: the cheap prefilter, then the parsed file.
  unfoldable pub is_entry_of : Text → Bytes → Bool
  is_entry_of song_id value =
      windows_any (env.codec.to_json_string song_id) value
      && (elim (env.codec.bytes_to_song value) [
        | none ↦ false
        | some song ↦ bytes_eq song.file song_id
      ])

  unfoldable pub find_entry : Text → List (ℕ × Bytes) → Option (ℕ × Bytes)
  unfolding is_entry_of
  find_entry song_id [] = none
  find_entry song_id ((key, value) ∷ l) =
      if is_entry_of song_id value then some (key, value) else find_entry song_id l

module _ {env : Env} where
  unfoldable pub find_entry_by_song_id : Text → QueueService env → Option (ℕ × Bytes)
  unfolding find_entry
  find_entry_by_song_id song_id q = find_entry env song_id (env.queue.iter q.queue_db)

  unfoldable pub move_current_to : Text → QueueService env → Bool × QueueService env
  unfolding find_entry_by_song_id
  move_current_to song_id q = elim (find_entry_by_song_id song_id q) [
    | none ↦ (false, q)
    | some (key, _) ↦ (true, set_current_song key q)
  ]

  abbrev pub remove_entry : Option (ℕ × Bytes) → QueueService env → QueueService env
  remove_entry none q = q
  remove_entry (some (key, _)) q = record q { queue_db = env.queue.remove q.queue_db key }

  unfoldable pub remove_song : Text → QueueService env → QueueService env
  remove_song song_id q = remove_entry (find_entry_by_song_id song_id q) q

  -- One new id, and the song under it.
  unfoldable pub insert_song : Song → QueueService env → ℕ × QueueService env
  insert_song song q =
      let (id, q') = generate_id q in
      (
        id,
        record q' {
          queue_db = env.queue.insert q'.queue_db id (env.codec.to_json_string_bytes song);
        },
      )

  unfoldable pub add_song : Song → QueueService env → QueueService env
  add_song song q = (insert_song song q).1

  -- A loop of `add_song`.
  unfoldable pub add_songs : List Song → QueueService env → QueueService env
  add_songs [] q = q
  add_songs (song ∷ songs) q = add_songs songs (add_song song q)

  -- The song of the repository, or a bare song for a web address.
  abbrev pub add_found : Option Song → Text → QueueService env → QueueService env
  add_found none song_id q =
      if starts_with (b'h' ∷ b't' ∷ b't' ∷ b'p' ∷ []) song_id
      then add_song (song_of_file song_id) q
      else q
  add_found (some song) song_id q = add_song song q

  unfoldable pub add_song_by_id : Text → QueueService env → QueueService env
  add_song_by_id song_id q = add_found (env.songs.find_by_id song_id) song_id q

  unfoldable pub clear : QueueService env → QueueService env
  unfolding reset_random_state
  clear q = reset_random_state (record q {
    queue_db = env.queue.clear q.queue_db;
    status_db = record q.status_db { current_song_key = none; priority_queue = none };
  })

  -- The batch commits all its writes at its end; nothing reads the queue before.
  unfoldable pub replace_all : List Song → QueueService env → QueueService env
  replace_all songs q = add_songs songs (clear q)

  unfoldable pub add_songs_from_dir : Text → QueueService env → QueueService env
  add_songs_from_dir dir q = add_songs (env.songs.find_songs_by_dir_prefix dir) q

  unfoldable pub load_songs_from_dir : Text → QueueService env → QueueService env
  load_songs_from_dir dir q = replace_all (env.songs.find_songs_by_dir_prefix dir) q

  unfoldable pub set_current_to_last : QueueService env → QueueService env
  set_current_to_last q = elim (env.queue.last_key_value q.queue_db) [
    | none ↦ q
    | some (key, _) ↦ set_current_song key q
  ]

  -- The first loop of `add_songs_after_current`, with the new keys in order.
  unfoldable pub insert_songs : List Song → QueueService env → List ℕ × QueueService env
  insert_songs [] q = ([], q)
  insert_songs (song ∷ songs) q =
      let (key, q') = insert_song song q in
      let (keys, q'') = insert_songs songs q' in (key ∷ keys, q'')

-- The second loop, over the new keys from the last to the first.
unfoldable pub promote_all : List ℕ → List ℕ → List ℕ
promote_all [] pq = pq
promote_all (key ∷ keys) pq = promote_all keys (promote key pq)

module _ {env : Env} where
  -- Behind the first loop: nothing for no songs, or the new keys to the front.
  abbrev pub promote_new : List ℕ → QueueService env → Option ℕ × QueueService env
  promote_new [] q = (none, q)
  promote_new (key ∷ keys) q =
      (some key, save_priority_queue (promote_all (reverse (key ∷ keys)) (get_priority_queue q)) q)

  unfoldable pub add_songs_after_current :
      List Song → QueueService env → Option ℕ × QueueService env
  add_songs_after_current songs q =
      let (new_keys, q') = insert_songs songs q in promote_new new_keys q'

  unfoldable pub add_songs_from_dir_after_current :
      Text → QueueService env → Option ℕ × QueueService env
  add_songs_from_dir_after_current dir q =
      add_songs_after_current (env.songs.find_songs_by_dir_prefix dir) q

  abbrev pub queue_found : Option Song → QueueService env → QueueService env
  queue_found none q = q
  queue_found (some song) q = let (key, q') = insert_song song q in add_to_priority_queue key q'

  unfoldable pub add_song_after_current : Text → QueueService env → QueueService env
  add_song_after_current song_id q = queue_found (env.songs.find_by_id song_id) q
