-- ===== src/Tests.antt =====
-- Concrete runs: the theorems at an environment held in memory, with queues of a few songs.
mod Queue
mod Commands
mod Sync
mod Radio
mod Mount
mod Playlist
mod Player
mod Leader
mod Albums
mod Sink
use rsplayer.Prelude.{
  ℕ, ◌≡◌, ◌≢◌, ◌<◌, ◌≤◌, refl, List, [], ◌∷◌, ◌++◌, Option, none, some, true, false, inl, inr, map,
  length, get_elem?, ltb, filter, take, drop, Bool, arith,
}
use rsplayer.Store.Table.{table}
use rsplayer.Store.Ordered.{keys, values, lookup, Below}
use rsplayer.Song.{Bytes, Text, Song, song_of_file}
use rsplayer.Song.Encoding.{length_prefixed}
use rsplayer.Queue.Mode.{PlaybackMode, sequential, random, loop_queue}
use rsplayer.Queue.State.{
  Env, QueueService, generate_id, restart, with_statistics, set_current_song,
}

abbrev pub sample : Env
sample = record {
  queue = table Bytes;
  history = table ℕ;
  codec = length_prefixed;
  songs = record {
    find_by_id = λ t. some (song_of_file t);
    find_songs_by_dir_prefix = λ d. song_of_file d ∷ [];
  };
  find_statistics = λ t. none;
}

abbrev pub song_a : Song
song_a = song_of_file (97 ∷ [])

abbrev pub song_b : Song
song_b = song_of_file (98 ∷ [])

abbrev pub bytes_of : Song → Bytes
bytes_of s = sample.codec.to_json_string_bytes s

-- Two songs under the keys 0 and 1; the first is current.
abbrev pub two_songs : PlaybackMode → QueueService sample
two_songs mode = record {
  queue_db =
      sample.queue.insert (sample.queue.insert ([], tt) 0 (bytes_of song_a)) 1 (bytes_of song_b);
  status_db = record {
    current_song_key = some 0;
    next_queue_id = some 64;
    stored_mode = some mode;
    priority_queue = none;
  };
  playback_mode = mode;
  random_history_db = ([], tt);
  random_history_index = 0;
  random_played_keys = [];
  next_id = 2;
}
