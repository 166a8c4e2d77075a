-- ===== src/Tests/Player.antt =====
-- The player at a queue of two songs.
use rsplayer.Prelude.{ℕ, ◌≡◌, refl, none, some, [], ◌∷◌, true, false, arith, is_some}
use rsplayer.Queue.Mode.{sequential}
use rsplayer.Queue.State.{
  QueueService, get_current_song, set_current_song, get_current_or_first_song_key,
}
use rsplayer.Queue.Navigate.{move_current_to_next_song}
use rsplayer.Player.{
  Normalization, auto, queue_finished, song_finished, playback_failed, playing, stopped, error,
}
use rsplayer.Player.Loop.{Round, ok, err, LoopState, play_round, play_loop}
use rsplayer.Player.Ends.{play_loop-ends}
use rsplayer.Player.Retries.{Fails, plays, last_state, play_loop-gives_up, play_round-silent_end}
use rsplayer.Player.Service.{
  song_time_event, playback_state_event, is_playing, toggle_play_pause, receive, stop_and_move,
  play_next_song, play_from_current_queue_song, new,
}
use rsplayer.Player.Saved.{plays_current, history}
use rsplayer.Player.Resume.{toggle-resumes, play_next_song-late_stop}
use rsplayer.Tests.{sample, song_a, song_b, bytes_of, two_songs}

abbrev quiet : Normalization
quiet = record {
  Gain = ℕ;
  loudness_normalization_enabled = true;
  loudness_normalization_source = auto;
  tag_track = λ s. none;
  tag_album = λ s. none;
  calculated_gain = λ s. some 1;
  dsp_handle = true;
}

abbrev first_of_range : ℕ → ℕ
first_of_range n = 0

abbrev failing : Round
failing = record { skip_to_time = 0; outcome = err; stop_signal = false; stop_in_pause = false }

abbrev finishing : Round
finishing = record {
  skip_to_time = 0;
  outcome = ok song_finished;
  stop_signal = false;
  stop_in_pause = false;
}

failing-Fails : Fails failing
failing-Fails = record { fails = refl; unstopped = refl; unstopped_in_pause = refl }

abbrev starting : QueueService sample → LoopState sample quiet
starting q = record { queue = q; retry_count = 0; effects = [] }

abbrev at_last : QueueService sample
at_last = set_current_song 1 (two_songs sequential)

play_loop-ends_example :
    is_some (play_loop first_of_range false 18 (λ i. failing) (starting (two_songs sequential))).0
    ≡ true
play_loop-ends_example =
    play_loop-ends first_of_range false 18 (λ i. failing) (starting (two_songs sequential)) refl
      (omega arith)

song_found : get_current_song (two_songs sequential) ≡ (some song_a, two_songs sequential)
unfolding get_current_song get_current_or_first_song_key
song_found = refl

last_found : get_current_song at_last ≡ (some song_b, at_last)
unfolding get_current_song get_current_or_first_song_key
last_found = refl

play_loop-gives_up_example :
    let (result, s') =
      play_loop first_of_range false 6 (λ i. failing) (starting (two_songs sequential)) in
    (result ≡ some playback_failed)
    × (s'.queue ≡ two_songs sequential)
    × (plays s'.effects ≡ 6)
    × (last_state none s'.effects ≡ some (error (97 ∷ [])))
play_loop-gives_up_example =
    play_loop-gives_up first_of_range 5 (λ i. failing) song_a (starting (two_songs sequential))
      (λ i. failing-Fails) song_found refl

play_round-silent_end_example :
    let (result, s') = play_round first_of_range false finishing (starting at_last) in
    (result ≡ some queue_finished) × (last_state none s'.effects ≡ some playing)
play_round-silent_end_example =
    play_round-silent_end first_of_range ((0, bytes_of song_a) ∷ []) 1 finishing song_b
      (starting at_last) refl refl tt
      (record { current = refl; value = bytes_of song_b; entries = refl }) last_found

toggle-resumes_example :
    let before = history (plays_current ∷ []) none none (two_songs sequential) 50 none in
    let halted = toggle_play_pause (receive (song_time_event 42) before) in
    let again = toggle_play_pause (receive (playback_state_event stopped) halted) in
    (is_playing halted ≡ false)
    × (is_playing again ≡ true)
    × (again.skip_to_time ≡ 42)
    × (again.queue_service ≡ before.queue_service)
unfolding play_from_current_queue_song new
toggle-resumes_example =
    toggle-resumes (plays_current ∷ []) none none (two_songs sequential) 50 none 42 refl
      (omega arith)

play_next_song-late_stop_example :
    let before =
      receive
        (song_time_event 42)
        (history (plays_current ∷ []) none none (two_songs sequential) 50 none) in
    let moved = stop_and_move (λ q. (move_current_to_next_song first_of_range q).1) before in
    ((play_next_song first_of_range before).skip_to_time ≡ before.skip_to_time)
    × ((play_from_current_queue_song (receive (playback_state_event stopped) moved)).skip_to_time
        ≡ 42)
play_next_song-late_stop_example =
    play_next_song-late_stop (plays_current ∷ []) none none (two_songs sequential) 50 none 42
      first_of_range (omega arith)
