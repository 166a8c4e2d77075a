-- ===== src/Queue/Reachable.antt =====
-- Every sequence of calls of the queue service, and restarts of the process between them.
pub mod Kept
pub mod Written
pub mod Added
pub mod Moved
pub mod Invariant
use rsplayer.Prelude.{ℕ, ◌≡◌, ◌≤◌, ◌+◌, some, none, List, [], length}
use rsplayer.Song.{Song, Text}
use rsplayer.Queue.State.{
  Env, QueueService, cycle_playback_mode, get_current_song, restart, new, set_current_song, Status,
}
use rsplayer.Queue.State.Ids.{HasRoom}
use rsplayer.Queue.Navigate.{move_current_to_next_song, move_current_to_previous_song}
use rsplayer.Queue.Edit.{
  move_current_to, remove_song, add_songs, clear, replace_all, set_current_to_last,
  add_songs_after_current, add_song_by_id, add_song_after_current,
}
use rsplayer.Queue.Reorder.{move_item, move_item_after_current}
use rsplayer.Queue.Pages.{CurrentQueueQuery, query_current_queue}

-- One call. Those that hand out ids have room for them before the counter would wrap.
pub data Step {env : Env} : QueueService env → QueueService env → Type 0 where
  next :
      (random_range : ℕ → ℕ) (q : QueueService env)
      → Step q (move_current_to_next_song random_range q).1
  previous : (q : QueueService env) → Step q (move_current_to_previous_song q).1
  jump : (song_id : Text) (q : QueueService env) → Step q (move_current_to song_id q).1
  select : (key : ℕ) (q : QueueService env) → Step q (set_current_song key q)
  select_last : (q : QueueService env) → Step q (set_current_to_last q)
  cycle : (q : QueueService env) → Step q (cycle_playback_mode q).1
  query_song : (q : QueueService env) → Step q (get_current_song q).1
  query : (c : CurrentQueueQuery) (q : QueueService env) → Step q (query_current_queue c q).1
  add :
      (songs : List Song) (q : QueueService env)
      → HasRoom (length songs) q
      → Step q (add_songs songs q)
  add_next :
      (songs : List Song) (q : QueueService env)
      → HasRoom (length songs) q
      → Step q (add_songs_after_current songs q).1
  add_by_id :
      (song_id : Text) (q : QueueService env) → HasRoom 1 q → Step q (add_song_by_id song_id q)
  add_next_by_id :
      (song_id : Text) (q : QueueService env)
      → HasRoom 1 q
      → Step q (add_song_after_current song_id q)
  load :
      (songs : List Song) (q : QueueService env)
      → HasRoom (length songs) q
      → Step q (replace_all songs q)
  remove : (song_id : Text) (q : QueueService env) → Step q (remove_song song_id q)
  clear_all : (q : QueueService env) → Step q (clear q)
  reorder : (from_id to_id : Text) (q : QueueService env) → Step q (move_item from_id to_id q)
  reorder_next :
      (song_id : Text) (q : QueueService env) → Step q (move_item_after_current song_id q)
  reboot : (q : QueueService env) → Step q (restart q)

-- From the first start on an empty database.
pub data Reachable {env : Env} : QueueService env → Type 0 where
  start :
      (queue_db : env.queue.Store) (history_db : env.history.Store)
      → env.queue.iter queue_db ≡ []
      → Reachable (
          new env queue_db
            (record {
              current_song_key = none;
              next_queue_id = none;
              stored_mode = none;
              priority_queue = none;
            })
            history_db)
  step : {q r : QueueService env} → Reachable q → Step q r → Reachable r
