-- ===== src/Player.antt =====
-- crates/playback/src/rsp/player_service.rs: the thread that plays the queue, and the calls that
-- start, stop and move it. Loop has the thread's function, Service the methods and the task that
-- listens to the events.
pub mod Loop
pub mod Remaining
pub mod Ends
pub mod Retries
pub mod Service
pub mod Saved
pub mod Resume
use rsplayer.Prelude.{ℕ, Option, none, some, List, Bool, if◌then◌else◌}
use rsplayer.Song.{Text, Song}

-- playback/src/rsp/symphonia.rs
pub data PlaybackResult : Type 0 where
  queue_finished song_finished playback_stopped playback_failed : PlaybackResult

-- api_models/src/state.rs
pub data PlayerState : Type 0 where
  playing paused stopped : PlayerState
  error : Text → PlayerState

-- api_models/src/settings.rs
pub data NormalizationSource : Type 0 where
  auto file_tags_track file_tags_album calculated : NormalizationSource

-- What decides the gain of a song: the settings, and the gains that are read from its tags and
-- computed from its measured loudness. A gain is a floating-point number, on which nothing is
-- computed here.
pub record Normalization : Type 1 where
  pub Gain : Type 0
  pub loudness_normalization_enabled : Bool
  pub loudness_normalization_source : NormalizationSource
  pub tag_track : Song → Option Gain
  pub tag_album : Song → Option Gain
  pub calculated_gain : Song → Option Gain
  pub dsp_handle : Bool  -- whether there is a sound processor

abbrev pub or_gain {ℓ} : {A : Type ℓ} → Option A → Option A → Option A
or_gain none o = o
or_gain (some g) o = some g

module _ (norm : Normalization) where
  open norm use {Gain, tag_track, tag_album, calculated_gain}

  abbrev pub gain_from : NormalizationSource → Song → Option Gain
  gain_from calculated song = calculated_gain song
  gain_from file_tags_track song = tag_track song
  gain_from file_tags_album song = tag_album song
  gain_from auto song = or_gain (tag_track song) (calculated_gain song)

  abbrev pub normalization_gain : Song → Option Gain
  normalization_gain song =
      if norm.loudness_normalization_enabled
      then gain_from norm.loudness_normalization_source song
      else none

  -- What the thread does besides the moves of the queue, in order.
  pub data PlayerEffect : Type 0 where
    set_playback_active : Bool → PlayerEffect
    increase_play_count : Text → PlayerEffect
    current_song_event : Song → PlayerEffect
    playback_state_event : PlayerState → PlayerEffect
    set_gain : Option Gain → PlayerEffect
    play_file : Text → PlayerEffect
    retrying : ℕ → PlayerEffect  -- NotificationError "Retrying (n/5)..."
