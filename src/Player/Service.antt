-- ===== src/Player/Service.antt =====
-- player_service.rs: the methods of `PlayerService`, and the task of `new` that listens to the
-- events. A playback thread is seen from outside: it runs, or it has ended. A thread that is told to
-- stop is in a song or in the pause of a retry, and ends as `Loop` has it there: with the event
-- that the player has stopped. The listener takes events when it likes: `receive` is a step of its
-- own.
use rsplayer.Prelude.{
  ℕ, ◌-◌, ◌%◌, Option, none, some, List, [], ◌∷◌, ◌++◌, Bool, true, false, ltb, ◌==◌, if◌then◌else◌,
  is_some, unwrap_or, and_then, map_option,
}
use rsplayer.Prelude.Int.{ℤ, pos, negsuc, ◌+ℤ◌}
use rsplayer.Prelude.Decimal.{to_string, parse_uint}
use rsplayer.Song.{Text, codes}
use rsplayer.Queue.State.{Env, QueueService}
use rsplayer.Queue.Navigate.{move_current_to_next_song, move_current_to_previous_song}
use rsplayer.Queue.Edit.{move_current_to}
use rsplayer.Transport.{PlayerInfo}
use rsplayer.Player.{PlaybackResult, playback_stopped, PlayerState, playing, paused, stopped, error}

pub data Thread : Type 0 where
  no_thread running : Thread
  ended : PlaybackResult → Thread

-- The events that the listener reads.
pub data Event : Type 0 where
  song_time_event : ℕ → Event  -- seconds, u64
  playback_state_event : PlayerState → Event
  volume_change_event : ℕ → Event
  player_info_event : PlayerInfo → Event
  notification_error : Text → Event
  other_event : Event

-- What the player holds of the DSP processor.
pub record DspFormat : Type 0 where
  pub rate : ℕ
  pub channels : ℕ

pub record PlayerService (env : Env) : Type 0 where
  pub last_song_paused : Option Text
  pub last_played_song_progress : Option Text
  pub queue_service : QueueService env
  pub playback_thread : Thread
  pub stop_signal : Bool
  pub skip_to_time : ℕ  -- u16
  pub last_known_time : ℕ  -- u32
  pub last_saved_secs : ℕ  -- u64, of the listener
  pub current_volume : ℕ
  pub last_player_info : Option PlayerInfo
  pub dsp_processor : Option DspFormat
  pub sent : List Event

abbrev pub u64_max : ℕ
u64_max = 18446744073709551615

abbrev pub u32_max : ℕ
u32_max = 4294967295

-- `u32 as i32`. The sum of `seek_relative` stays below 2 ^ 31 for songs of less than 68 years, and
-- is not wrapped here.
abbrev pub as_i32 : ℕ → ℤ
as_i32 n = if ltb n 2147483648 then pos n else negsuc (4294967295 - n)

abbrev pub max_zero : ℤ → ℕ
max_zero (pos n) = n
max_zero (negsuc n) = 0

-- `u16::try_from(...).unwrap_or_default()`
abbrev pub u16_or_default : ℕ → ℕ
u16_or_default n = if ltb n 65536 then n else 0

abbrev pub read_last_played_song_time : Option Text → ℕ
read_last_played_song_time progress = unwrap_or (and_then progress (parse_uint u32_max)) 0

abbrev pub update_rate : Option ℕ → DspFormat → DspFormat
update_rate none dsp = dsp
update_rate (some rate) dsp = record dsp { rate = rate }

abbrev pub update_channels : Option ℕ → DspFormat → DspFormat
update_channels none dsp = dsp
update_channels (some channels) dsp = record dsp { channels = channels }

abbrev pub is_running : Thread → Bool
is_running running = true
is_running no_thread = false
is_running (ended r) = false

-- `handle.join()`: the result and what the thread sends before it ends. A running thread is stopped
-- before it is joined, and leaves `play_file` with that and not with an error of its own.
abbrev pub join : Thread → Option PlaybackResult × List Event
join no_thread = (none, [])
join running = (some playback_stopped, playback_state_event stopped ∷ [])
join (ended r) = (some r, [])

module _ {env : Env} where
  abbrev pub is_playing : PlayerService env → Bool
  is_playing p = is_running p.playback_thread

  abbrev pub seek_current_song : ℕ → PlayerService env → PlayerService env
  seek_current_song seconds p = record p { skip_to_time = seconds }

  unfoldable pub seek_relative : ℤ → PlayerService env → PlayerService env
  seek_relative offset_seconds p =
      seek_current_song (max_zero (as_i32 p.last_known_time +ℤ offset_seconds) % 65536) p

  abbrev pub get_last_played_song_time : PlayerService env → ℕ
  get_last_played_song_time p =
      u16_or_default (read_last_played_song_time p.last_played_song_progress)

  -- `play_all_in_queue`: the thread is there.
  abbrev pub start_thread : PlayerService env → PlayerService env
  start_thread p = record p { stop_signal = false; playback_thread = running }

  abbrev pub remove_paused : PlayerService env → PlayerService env
  remove_paused p = record p { last_song_paused = none }

  unfoldable pub play_from_current_queue_song : PlayerService env → PlayerService env
  play_from_current_queue_song p =
      if is_playing p
      then p
      else start_thread (
          if is_some p.last_song_paused
          then seek_current_song (get_last_played_song_time p) p
          else p)

  unfoldable pub stop_current_song : PlayerService env → Option PlaybackResult × PlayerService env
  stop_current_song p =
      let (result, events) = join p.playback_thread in
      (
        result,
        record p { stop_signal = true; playback_thread = no_thread; sent = p.sent ++ events },
      )

  unfoldable pub play_from_beginning : PlayerService env → PlayerService env
  unfolding stop_current_song
  play_from_beginning p = start_thread (remove_paused (stop_current_song p).1)

  unfoldable pub toggle_play_pause : PlayerService env → PlayerService env
  unfolding stop_current_song play_from_current_queue_song
  toggle_play_pause p =
      if is_playing p then (stop_current_song p).1 else play_from_current_queue_song p

  -- The first three statements of `play_next_song`, `play_prev_song` and `play_song`: the player
  -- stops, the queue is moved, and the key of the pause is removed.
  unfoldable pub stop_and_move :
      (QueueService env → QueueService env) → PlayerService env → PlayerService env
  unfolding stop_current_song
  stop_and_move move p =
      let p' = (stop_current_song p).1 in
      remove_paused (record p' { queue_service = move p'.queue_service })

  unfoldable pub play_next_song : (ℕ → ℕ) → PlayerService env → PlayerService env
  unfolding stop_and_move play_from_current_queue_song
  play_next_song random_range p =
      play_from_current_queue_song
        (stop_and_move (λ q. (move_current_to_next_song random_range q).1) p)

  unfoldable pub play_prev_song : PlayerService env → PlayerService env
  unfolding stop_and_move play_from_current_queue_song
  play_prev_song p =
      play_from_current_queue_song (stop_and_move (λ q. (move_current_to_previous_song q).1) p)

  unfoldable pub play_song : Text → PlayerService env → PlayerService env
  unfolding stop_and_move play_from_current_queue_song
  play_song song_id p =
      play_from_current_queue_song (stop_and_move (λ q. (move_current_to song_id q).1) p)

  abbrev pub get_current_player_info : PlayerService env → Option PlayerInfo
  get_current_player_info p = if is_playing p then p.last_player_info else none

  -- One event in the task of `new`.
  unfoldable pub receive : Event → PlayerService env → PlayerService env
  receive (song_time_event lt_secs) p =
      let p' = record p { last_known_time = lt_secs % 4294967296 } in
      if lt_secs == p.last_saved_secs then p' else record p' {
        last_saved_secs = lt_secs;
        last_played_song_progress = some (to_string lt_secs);
      }
  receive (playback_state_event playing) p = record p { last_song_paused = none }
  receive (playback_state_event paused) p = record p { last_song_paused = some (codes "true") }
  receive (playback_state_event stopped) p = record p { last_song_paused = some (codes "true") }
  receive (playback_state_event (error msg)) p = record p {
    sent = p.sent ++ notification_error (codes "Failed to play " ++ msg) ∷ [];
  }
  receive (volume_change_event current) p = record p { current_volume = current }
  receive (player_info_event info) p = record p {
    last_player_info = some info;
    dsp_processor =
        map_option
          (λ dsp.
            update_channels info.audio_format_channels (update_rate info.audio_format_rate dsp))
          p.dsp_processor;
  }
  receive (notification_error msg) p = p
  receive other_event p = p

  -- `PlayerService::new` over what the database holds.
  unfoldable pub new :
      Option Text → Option Text → QueueService env → ℕ → Option DspFormat → PlayerService env
  new last_song_paused last_played_song_progress queue_service current_volume dsp_processor =
      let initial_time = read_last_played_song_time last_played_song_progress in
      record {
        last_song_paused = last_song_paused;
        last_played_song_progress = last_played_song_progress;
        queue_service = queue_service;
        playback_thread = no_thread;
        stop_signal = false;
        skip_to_time = u16_or_default initial_time;
        last_known_time = initial_time;
        last_saved_secs = u64_max;
        current_volume = current_volume;
        last_player_info = none;
        dsp_processor = dsp_processor;
        sent = [];
      }
