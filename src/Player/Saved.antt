-- ===== src/Player/Saved.antt =====
-- The progress that the listener stores, over any calls.
use rsplayer.Prelude.{
  ℕ, ◌≡◌, ◌⊎◌, inl, inr, refl, Option, some, List, [], ◌∷◌, ◌==◌, is_some, Bool-cases,
}
use rsplayer.Prelude.Int.{ℤ}
use rsplayer.Prelude.Decimal.{to_string}
use rsplayer.Song.{Text}
use rsplayer.Queue.State.{Env, QueueService}
use rsplayer.Queue.Navigate.{move_current_to_next_song, move_current_to_previous_song}
use rsplayer.Queue.Edit.{move_current_to}
use rsplayer.Player.{playing, paused, stopped, error}
use rsplayer.Player.Service.{
  Thread, Event, song_time_event, playback_state_event, volume_change_event, player_info_event,
  notification_error, other_event, PlayerService, DspFormat, u64_max, is_playing, seek_current_song,
  seek_relative, play_from_current_queue_song, stop_current_song, play_from_beginning,
  toggle_play_pause, play_next_song, play_prev_song, play_song, stop_and_move, receive, new,
}

-- The calls of the other threads, the events that the listener takes, and the end of the thread.
pub data Call : Type 0 where
  receives : Event → Call
  seeks : ℕ → Call
  seeks_by : ℤ → Call
  plays_current stops plays_first toggles plays_previous : Call
  plays_next : (ℕ → ℕ) → Call
  plays_song : Text → Call
  ends : Thread → Call

module _ {env : Env} where
  abbrev pub run : Call → PlayerService env → PlayerService env
  run (receives event) p = receive event p
  run (seeks seconds) p = seek_current_song seconds p
  run (seeks_by offset) p = seek_relative offset p
  run plays_current p = play_from_current_queue_song p
  run stops p = (stop_current_song p).1
  run plays_first p = play_from_beginning p
  run toggles p = toggle_play_pause p
  run plays_previous p = play_prev_song p
  run (plays_next random_range) p = play_next_song random_range p
  run (plays_song song_id) p = play_song song_id p
  run (ends final) p = record p { playback_thread = final }

  abbrev pub run_all : List Call → PlayerService env → PlayerService env
  run_all [] p = p
  run_all (call ∷ calls) p = run_all calls (run call p)

  -- The progress that is stored is the one that was saved last, if one was.
  abbrev pub Saved : PlayerService env → Type 0
  Saved p =
      (p.last_saved_secs ≡ u64_max)
      ⊎ (p.last_played_song_progress ≡ some (to_string p.last_saved_secs))

  receive-Saved : (event : Event) (p : PlayerService env) → Saved p → Saved (receive event p)
  unfolding receive
  receive-Saved (song_time_event secs) p h = elim (Bool-cases (secs == p.last_saved_secs)) [
    | inl e ↦ rw e h
    | inr e ↦ rw e (inr refl)
  ]
  receive-Saved (playback_state_event playing) p h = h
  receive-Saved (playback_state_event paused) p h = h
  receive-Saved (playback_state_event stopped) p h = h
  receive-Saved (playback_state_event (error msg)) p h = h
  receive-Saved (volume_change_event current) p h = h
  receive-Saved (player_info_event info) p h = h
  receive-Saved (notification_error msg) p h = h
  receive-Saved other_event p h = h

  play-Saved : (p : PlayerService env) → Saved p → Saved (play_from_current_queue_song p)
  unfolding play_from_current_queue_song
  play-Saved p h = elim (Bool-cases (is_playing p)) [
    | inl e ↦ rw e h
    | inr e ↦ elim (Bool-cases (is_some p.last_song_paused)) [
      | inl f ↦ rw (e, f) h
      | inr f ↦ rw (e, f) h
    ]
  ]

  toggle-Saved : (p : PlayerService env) → Saved p → Saved (toggle_play_pause p)
  unfolding toggle_play_pause stop_current_song play_from_current_queue_song
  toggle-Saved p h = elim (Bool-cases (is_playing p)) [
    | inl e ↦ rw e h
    | inr e ↦ elim (Bool-cases (is_some p.last_song_paused)) [
      | inl f ↦ rw (e, f) h
      | inr f ↦ rw (e, f) h
    ]
  ]

  run-Saved : (call : Call) (p : PlayerService env) → Saved p → Saved (run call p)
  unfolding seek_relative stop_current_song play_from_beginning play_next_song play_prev_song
      play_song stop_and_move
  run-Saved (receives event) p h = receive-Saved event p h
  run-Saved (seeks seconds) p h = h
  run-Saved (seeks_by offset) p h = h
  run-Saved plays_current p h = play-Saved p h
  run-Saved stops p h = h
  run-Saved plays_first p h = h
  run-Saved toggles p h = toggle-Saved p h
  run-Saved plays_previous p h =
      play-Saved (stop_and_move (λ q. (move_current_to_previous_song q).1) p) h
  run-Saved (plays_next random_range) p h =
      play-Saved (stop_and_move (λ q. (move_current_to_next_song random_range q).1) p) h
  run-Saved (plays_song song_id) p h =
      play-Saved (stop_and_move (λ q. (move_current_to song_id q).1) p) h
  run-Saved (ends final) p h = h

  run_all-Saved : (calls : List Call) (p : PlayerService env) → Saved p → Saved (run_all calls p)
  run_all-Saved [] p h = h
  run_all-Saved (call ∷ calls) p h = run_all-Saved calls (run call p) (run-Saved call p h)

  -- `PlayerService::new`, and then the calls.
  abbrev pub history :
      List Call
      → Option Text
      → Option Text
      → QueueService env
      → ℕ
      → Option DspFormat
      → PlayerService env
  history calls paused_key progress queue volume dsp =
      run_all calls (new paused_key progress queue volume dsp)

  pub history-Saved :
      (calls : List Call) (paused_key progress : Option Text) (queue : QueueService env)
      (volume : ℕ) (dsp : Option DspFormat)
      → Saved (history calls paused_key progress queue volume dsp)
  unfolding new
  history-Saved calls paused_key progress queue volume dsp = run_all-Saved calls _ (inl refl)
