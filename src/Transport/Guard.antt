-- ===== src/Transport/Guard.antt =====
-- What a follower of a group does with transport commands.
use rsplayer.Prelude.{
  ◌≡◌, refl, arith, Bool-cases, inl, inr, Option, none, some, List, [], ◌∷◌, ◌++◌, Bool, true,
  false, if◌then◌else◌, ◌&&◌,
}
use rsplayer.Queue.State.{Env, cycle_playback_mode, reset_random_state}
use rsplayer.Queue.Pages.{get_all_songs}
use rsplayer.Transport.{
  PlayerCommand, next, prev, pause, stop, play, play_item, cycle_mode, seek, seek_forward,
  seek_backward, query_current_player_info, toggle_play, PlayerInfo, TransportEffect,
  stop_current_song, play_from_current_queue_song, play_song, toggle_play_pause, play_next_song,
  play_prev_song, seek_current_song, seek_relative, playback_mode_changed, vu_meter_enabled,
  player_info, send_error, TransportContext, is_transport, send_info, run_player_command,
  handle_player_command,
}

-- Calls of the player service.
abbrev pub touches_player : TransportEffect → Bool
touches_player stop_current_song = true
touches_player play_from_current_queue_song = true
touches_player (play_song id) = true
touches_player toggle_play_pause = true
touches_player play_next_song = true
touches_player play_prev_song = true
touches_player (seek_current_song sec) = true
touches_player (seek_relative sec) = true
touches_player (playback_mode_changed mode) = false
touches_player (vu_meter_enabled on) = false
touches_player (player_info info) = false
touches_player send_error = false

abbrev pub any_touches : List TransportEffect → Bool
any_touches [] = false
any_touches (e ∷ es) = if touches_player e then true else any_touches es

info-quiet : (o : Option PlayerInfo) → any_touches (send_info o) ≡ false
info-quiet none = refl
info-quiet (some info) = refl

module _ {env : Env} where
  run_player_command-Guarded :
      (cmd : PlayerCommand) (ctx : TransportContext env)
      → let ctx' = run_player_command cmd ctx in
        (done : List TransportEffect) × (ctx'.effects ≡ ctx.effects ++ done)
        × (any_touches done ≡ is_transport cmd)
        × (get_all_songs ctx'.queue ≡ get_all_songs ctx.queue)
  unfolding run_player_command is_transport cycle_playback_mode reset_random_state get_all_songs
  run_player_command-Guarded play ctx = (_, refl, refl, refl)
  run_player_command-Guarded (play_item id) ctx = (_, refl, refl, refl)
  run_player_command-Guarded pause ctx = (_, refl, refl, refl)
  run_player_command-Guarded stop ctx = (_, refl, refl, refl)
  run_player_command-Guarded toggle_play ctx = (_, refl, refl, refl)
  run_player_command-Guarded next ctx = (_, refl, refl, refl)
  run_player_command-Guarded prev ctx = (_, refl, refl, refl)
  run_player_command-Guarded (seek sec) ctx = (_, refl, refl, refl)
  run_player_command-Guarded seek_forward ctx = (_, refl, refl, refl)
  run_player_command-Guarded seek_backward ctx = (_, refl, refl, refl)
  run_player_command-Guarded cycle_mode ctx = (_, refl, refl, refl)
  run_player_command-Guarded query_current_player_info ctx =
      (_, refl, info-quiet ctx.current_player_info, refl)

  -- What a command has done is appended; it has called the player exactly when it is a transport
  -- command and no follower is active; and the songs of the queue are as they were.
  pub handle_player_command-Guarded :
      (cmd : PlayerCommand) (ctx : TransportContext env)
      → let ctx' = handle_player_command cmd ctx in
        (done : List TransportEffect) × (ctx'.effects ≡ ctx.effects ++ done)
        × (any_touches done ≡ (
            if is_transport cmd
            then (if ctx.multiroom_follower_active then false else true)
            else false))
        × (get_all_songs ctx'.queue ≡ get_all_songs ctx.queue)
  unfolding handle_player_command
  handle_player_command-Guarded cmd ctx =
      elim (Bool-cases (is_transport cmd && ctx.multiroom_follower_active)) [
        | inl e ↦ rw e (send_error ∷ [], refl, ground arith, refl)
        | inr e ↦
            let (done, appended, touches, songs) = run_player_command-Guarded cmd ctx in
            rw e (done, appended, ground (arith, touches), songs)
      ]
