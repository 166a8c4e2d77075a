-- ===== src/Queue/State.antt =====
-- queue_service.rs: the fields of `QueueService`, `new`, and the helpers of the other methods.
-- A key is the number whose eight big-endian bytes the code stores (`Key` has the bytes and
-- their order). `status_db` is used under four names: it is a record of four
-- cells with the decoded values. An ignored result of a write (`_ = ...`) is a write that works.
pub mod Key
pub mod Ids
use rsplayer.Prelude.{
  ℕ, zero, suc, ◌+◌, ◌%◌, ◌≡◌, Option, none, some, List, [], ◌∷◌, Bool, true, false, if◌then◌else◌,
  ◌==◌, unwrap_or, position, remove_at, map_option, and_then, contains,
}
use rsplayer.Store.{Keyspace}
use rsplayer.Song.{Bytes, Text, Song, PlayItemStatistics, SongCodec}
use rsplayer.Queue.Mode.{PlaybackMode, sequential, next_mode}

-- crates/metadata/src/ports: what the queue asks of the other repositories.
pub record SongRepository : Type 0 where
  pub find_by_id : Text → Option Song
  pub find_songs_by_dir_prefix : Text → List Song

pub record Env : Type 1 where
  pub queue : Keyspace Bytes
  pub history : Keyspace ℕ
  pub codec : SongCodec
  pub songs : SongRepository
  pub find_statistics : Text → Option PlayItemStatistics

pub record Status : Type 0 where
  pub current_song_key : Option ℕ
  pub next_queue_id : Option ℕ
  pub stored_mode : Option PlaybackMode
  pub priority_queue : Option (List ℕ)

pub record QueueService (env : Env) : Type 0 where
  pub queue_db : env.queue.Store
  pub status_db : Status
  pub playback_mode : PlaybackMode
  pub random_history_db : env.history.Store
  pub random_history_index : ℕ  -- u32
  pub random_played_keys : List ℕ
  pub next_id : ℕ  -- u64

abbrev pub u64 : ℕ → ℕ
u64 n = n % 18446744073709551616

abbrev pub u32 : ℕ → ℕ
u32 n = n % 4294967296

abbrev pub with_statistics : Env → Song → Song
with_statistics env song = record song { statistics = env.find_statistics song.file }

module _ {env : Env} where
  unfoldable pub reset_random_state : QueueService env → QueueService env
  reset_random_state q = record q {
    random_history_db = env.history.clear q.random_history_db;
    random_history_index = 0;
    random_played_keys = [];
  }

  unfoldable pub generate_id : QueueService env → ℕ × QueueService env
  generate_id q =
      let id = q.next_id in
      let q' = record q { next_id = u64 (id + 1) } in
      (
        id,
        if id % 64 == 0
            then record q' {
              status_db = record q.status_db { next_queue_id = some (u64 (id + 64)) };
            }
            else q',
      )

  unfoldable pub cycle_playback_mode : QueueService env → PlaybackMode × QueueService env
  unfolding reset_random_state
  cycle_playback_mode q =
      let mode = next_mode q.playback_mode in
      (
        mode,
        reset_random_state (record q {
          playback_mode = mode;
          status_db = record q.status_db { stored_mode = some mode };
        }),
      )

  -- `status_db.insert(CURRENT_SONG_KEY, key)`
  abbrev pub set_current_song : ℕ → QueueService env → QueueService env
  set_current_song key q = record q {
    status_db = record q.status_db { current_song_key = some key };
  }

  unfoldable pub get_current_or_first_song_key : QueueService env → Option ℕ × QueueService env
  get_current_or_first_song_key q = elim q.status_db.current_song_key [
    | some key ↦ (some key, q)
    | none ↦ elim (env.queue.first_key_value q.queue_db) [
      | none ↦ (none, q)
      | some (key, _) ↦ (some key, set_current_song key q)
    ]
  ]

  unfoldable pub get_current_song : QueueService env → Option Song × QueueService env
  unfolding get_current_or_first_song_key
  get_current_song q =
      let (current, q') = get_current_or_first_song_key q in
      (
        map_option (with_statistics env)
            (and_then (and_then current (env.queue.get q'.queue_db)) env.codec.bytes_to_song),
        q',
      )

  abbrev pub get_priority_queue : QueueService env → List ℕ
  get_priority_queue q = unwrap_or q.status_db.priority_queue []

  abbrev pub save_priority_queue : List ℕ → QueueService env → QueueService env
  save_priority_queue pq q = record q {
    status_db = record q.status_db { priority_queue = some pq };
  }

-- Removes an earlier entry of the key, and puts the key first.
abbrev pub promote : ℕ → List ℕ → List ℕ
promote key pq = key ∷ (elim (position key pq) [ none ↦ pq | some pos ↦ remove_at pos pq ])

module _ {env : Env} where
  unfoldable pub add_to_priority_queue : ℕ → QueueService env → QueueService env
  add_to_priority_queue key q = save_priority_queue (promote key (get_priority_queue q)) q

-- `QueueService::new` over what the three keyspaces hold.
unfoldable pub new : (env : Env) → env.queue.Store → Status → env.history.Store → QueueService env
unfolding reset_random_state
new env queue_db status_db random_history_db = reset_random_state (record {
  queue_db = queue_db;
  status_db = status_db;
  playback_mode = unwrap_or status_db.stored_mode sequential;
  random_history_db = random_history_db;
  random_history_index = 0;
  random_played_keys = [];
  next_id = unwrap_or status_db.next_queue_id 0;
})

-- The service after a stop and a start of the process: only the keyspaces are left.
unfoldable pub restart : {env : Env} → QueueService env → QueueService env
unfolding new
restart {env} q = new env q.queue_db q.status_db q.random_history_db
