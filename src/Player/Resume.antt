-- ===== src/Player/Resume.antt =====
-- The position at which the player goes on.
use rsplayer.Prelude.{
  ℕ, ◌≤◌, ◌<◌, ◌≡◌, inl, inr, refl, ◌∙◌, Option, some, List, true, false, arith, ◌==◌, is_some,
  Bool-cases, ==_iff,
}
use rsplayer.Prelude.Decimal.{to_string, parse_uint-to_string}
use rsplayer.Song.{Text}
use rsplayer.Queue.State.{Env, QueueService}
use rsplayer.Queue.Navigate.{move_current_to_next_song}
use rsplayer.Player.{stopped}
use rsplayer.Player.Saved.{Call, Saved, history, history-Saved}
use rsplayer.Player.Service.{
  song_time_event, playback_state_event, PlayerService, DspFormat, u64_max, u32_max, u16_or_default,
  is_playing, seek_current_song, play_from_current_queue_song, stop_current_song, toggle_play_pause,
  play_next_song, stop_and_move, receive, get_last_played_song_time, start_thread,
}

module _ {env : Env} where
  -- The listener has taken a time: it is the one that is stored.
  time-stored :
      (secs : ℕ) (p : PlayerService env)
      → Saved p
      → secs < u64_max
      → (receive (song_time_event secs) p).last_played_song_progress ≡ some (to_string secs)
  unfolding receive
  time-stored secs p h fits = elim (Bool-cases (secs == p.last_saved_secs)) [
    | inl e ↦
        let same : secs ≡ p.last_saved_secs = (==_iff secs p.last_saved_secs).0 e in
        rw e (elim h [ inl none_yet ↦ absurd (omega arith) | inr stored ↦ rw same stored ])
    | inr e ↦ rw e refl
  ]

  read-stored :
      (secs : ℕ) (p : PlayerService env)
      → p.last_played_song_progress ≡ some (to_string secs)
      → secs ≤ u32_max
      → get_last_played_song_time p ≡ u16_or_default secs
  read-stored secs p e fits = rw (e, parse_uint-to_string u32_max secs fits) refl

  -- What a stopped player with a stored progress does when it is to play.
  resumed :
      (p : PlayerService env) (secs : ℕ)
      → is_playing p ≡ false
      → is_some p.last_song_paused ≡ true
      → p.last_played_song_progress ≡ some (to_string secs)
      → secs ≤ u32_max
      → play_from_current_queue_song p ≡ start_thread (seek_current_song (u16_or_default secs) p)
  unfolding play_from_current_queue_song
  resumed p secs still pause e fits = rw (still, pause, read-stored secs p e fits) refl

  toggle-stops :
      (p : PlayerService env) → is_playing p ≡ true → toggle_play_pause p ≡ (stop_current_song p).1
  unfolding toggle_play_pause
  toggle-stops p e = rw e refl

  toggle-plays :
      (p : PlayerService env)
      → is_playing p ≡ false
      → toggle_play_pause p ≡ play_from_current_queue_song p
  unfolding toggle_play_pause
  toggle-plays p e = rw e refl

  receive-time_thread :
      (secs : ℕ) (p : PlayerService env)
      → let p' = receive (song_time_event secs) p in
        (p'.playback_thread ≡ p.playback_thread)
        × (p'.queue_service ≡ p.queue_service)
        × (p'.skip_to_time ≡ p.skip_to_time)
  unfolding receive
  receive-time_thread secs p = ground arith

  stop_then_play :
      (p : PlayerService env) (secs : ℕ)
      → is_playing p ≡ true
      → p.last_played_song_progress ≡ some (to_string secs)
      → secs ≤ u32_max
      → let halted = toggle_play_pause p in
        let again = toggle_play_pause (receive (playback_state_event stopped) halted) in
        (is_playing halted ≡ false)
        × (is_playing again ≡ true)
        × (again.skip_to_time ≡ u16_or_default secs)
        × (again.queue_service ≡ p.queue_service)
  unfolding stop_current_song receive
  stop_then_play p secs plays stored fits =
      let told = receive (playback_state_event stopped) (stop_current_song p).1 in
      rw (toggle-stops p plays, toggle-plays told refl, resumed told secs refl refl stored fits)
        (refl, refl, refl, refl)

  -- Whatever has been called since the start, and whatever the database held then: when a running
  -- player has been heard of at a second below 2 ^ 32, and is stopped and played again by the toggle,
  -- with the event of the stop taken in between, then it has stopped, it runs again, the queue is as
  -- it was, and it goes on at that second, or at the beginning when the second does not fit 16 bits.
  pub toggle-resumes :
      (calls : List Call) (paused_key progress : Option Text) (queue : QueueService env)
      (volume : ℕ) (dsp : Option DspFormat) (secs : ℕ)
      → is_playing (history calls paused_key progress queue volume dsp) ≡ true
      → secs ≤ u32_max
      → let before = history calls paused_key progress queue volume dsp in
        let halted = toggle_play_pause (receive (song_time_event secs) before) in
        let again = toggle_play_pause (receive (playback_state_event stopped) halted) in
        (is_playing halted ≡ false)
        × (is_playing again ≡ true)
        × (again.skip_to_time ≡ u16_or_default secs)
        × (again.queue_service ≡ before.queue_service)
  toggle-resumes calls paused_key progress queue volume dsp secs plays fits =
      let before = history calls paused_key progress queue volume dsp in
      let (thread, kept, skip) = receive-time_thread secs before in
      let (halts, runs, position, same) =
        stop_then_play (receive (song_time_event secs) before) secs (rw thread plays)
          (time-stored secs before (history-Saved calls paused_key progress queue volume dsp)
            (omega arith))
          fits in
      (halts, runs, position, same ∙ kept)

  -- Whatever has been called since the start, and whatever the database held then: when the listener
  -- has taken a time at a second below 2 ^ 32 and the next song is played, then the position to go on
  -- at stays what it was; but when the event of the stop is taken between the removal of the pause
  -- key and the start of the thread, then the next song goes on at that second, or at the beginning
  -- when the second does not fit 16 bits.
  pub play_next_song-late_stop :
      (calls : List Call) (paused_key progress : Option Text) (queue : QueueService env)
      (volume : ℕ) (dsp : Option DspFormat) (secs : ℕ) (random_range : ℕ → ℕ)
      → secs ≤ u32_max
      → let before =
          receive (song_time_event secs) (history calls paused_key progress queue volume dsp) in
        let moved = stop_and_move (λ q. (move_current_to_next_song random_range q).1) before in
        ((play_next_song random_range before).skip_to_time ≡ before.skip_to_time)
        × ((play_from_current_queue_song
              (receive (playback_state_event stopped) moved)).skip_to_time
            ≡ u16_or_default secs)
  unfolding stop_and_move stop_current_song play_next_song play_from_current_queue_song receive
  play_next_song-late_stop calls paused_key progress queue volume dsp secs random_range fits =
      let start = history calls paused_key progress queue volume dsp in
      let before = receive (song_time_event secs) start in
      let stored =
        time-stored secs start (history-Saved calls paused_key progress queue volume dsp)
          (omega arith) in
      (refl, read-stored secs before stored fits)
