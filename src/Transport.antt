-- ===== src/Transport.antt =====
-- crates/server/src/player_commands.rs: the handler of the transport commands. The calls of the
-- player service and the events that are sent are recorded in order; what the handler reads of the
-- other services (the follower flag, one setting, the player's information) stands in its context.
pub mod Guard
use rsplayer.Prelude.{
  ℕ, Option, none, some, List, [], ◌∷◌, ◌++◌, Bool, true, false, not, if◌then◌else◌, ◌&&◌,
}
use rsplayer.Prelude.Int.{ℤ, pos, negsuc}
use rsplayer.Song.{Text}
use rsplayer.Queue.Mode.{PlaybackMode}
use rsplayer.Queue.State.{Env, QueueService, cycle_playback_mode}

pub data PlayerCommand : Type 0 where
  next prev pause stop play : PlayerCommand
  play_item : Text → PlayerCommand
  cycle_mode : PlayerCommand
  seek : ℕ → PlayerCommand  -- u16
  seek_forward seek_backward query_current_player_info toggle_play : PlayerCommand

-- api_models/src/state.rs
pub record PlayerInfo : Type 0 where
  pub audio_format_rate : Option ℕ
  pub audio_format_bit : Option ℕ
  pub audio_format_channels : Option ℕ
  pub codec : Option Text
  pub track_loudness_lufs : Option ℤ
  pub normalization_gain_db : Option ℤ

pub data TransportEffect : Type 0 where
  stop_current_song play_from_current_queue_song : TransportEffect
  play_song : Text → TransportEffect
  toggle_play_pause play_next_song play_prev_song : TransportEffect
  seek_current_song : ℕ → TransportEffect
  seek_relative : ℤ → TransportEffect
  playback_mode_changed : PlaybackMode → TransportEffect
  vu_meter_enabled : Bool → TransportEffect
  player_info : PlayerInfo → TransportEffect
  send_error : TransportEffect  -- "Playback is controlled by the multiroom group leader. ..."

pub record TransportContext (env : Env) : Type 0 where
  pub multiroom_follower_active : Bool
  pub vu_meter_setting : Bool
  pub current_player_info : Option PlayerInfo
  pub queue : QueueService env
  pub effects : List TransportEffect

unfoldable pub is_transport : PlayerCommand → Bool
is_transport query_current_player_info = false
is_transport cycle_mode = false
is_transport next = true
is_transport prev = true
is_transport pause = true
is_transport stop = true
is_transport play = true
is_transport (play_item id) = true
is_transport (seek sec) = true
is_transport seek_forward = true
is_transport seek_backward = true
is_transport toggle_play = true

abbrev pub send_info : Option PlayerInfo → List TransportEffect
send_info none = []
send_info (some info) = player_info info ∷ []

module _ {env : Env} where
  abbrev pub emit : List TransportEffect → TransportContext env → TransportContext env
  emit es ctx = record ctx { effects = ctx.effects ++ es }

  -- The `match` on the command.
  unfoldable pub run_player_command : PlayerCommand → TransportContext env → TransportContext env
  run_player_command play ctx = emit (stop_current_song ∷ play_from_current_queue_song ∷ []) ctx
  run_player_command (play_item id) ctx = emit (play_song id ∷ []) ctx
  run_player_command pause ctx = emit (stop_current_song ∷ []) ctx
  run_player_command stop ctx = emit (stop_current_song ∷ []) ctx
  run_player_command toggle_play ctx = emit (toggle_play_pause ∷ []) ctx
  run_player_command next ctx = emit (play_next_song ∷ []) ctx
  run_player_command prev ctx = emit (play_prev_song ∷ []) ctx
  run_player_command (seek sec) ctx = emit (seek_current_song sec ∷ []) ctx
  run_player_command seek_forward ctx = emit (seek_relative (pos 10) ∷ []) ctx
  run_player_command seek_backward ctx = emit (seek_relative (negsuc 9) ∷ []) ctx
  run_player_command cycle_mode ctx =
      let (mode, q) = cycle_playback_mode ctx.queue in
      emit (playback_mode_changed mode ∷ []) (record ctx { queue = q })
  run_player_command query_current_player_info ctx =
      emit
        (playback_mode_changed ctx.queue.playback_mode
          ∷ vu_meter_enabled ctx.vu_meter_setting
          ∷ send_info ctx.current_player_info)
        ctx

  unfoldable pub handle_player_command : PlayerCommand → TransportContext env → TransportContext env
  unfolding is_transport run_player_command
  handle_player_command cmd ctx =
      if is_transport cmd && ctx.multiroom_follower_active
      then emit (send_error ∷ []) ctx
      else run_player_command cmd ctx
