-- ===== src/Player/Loop.antt =====
-- player_service.rs: the function of the playback thread in `play_all_in_queue`. What the other
-- threads and the decoder do while one song is played is a `Round`: the world gives one for each
-- time around the loop.
use rsplayer.Prelude.{
  ℕ, zero, suc, ◌+◌, Option, none, some, List, [], ◌∷◌, ◌++◌, Bool, true, false, not, ◌&&◌, ltb,
  ◌==◌, if◌then◌else◌,
}
use rsplayer.Song.{Song}
use rsplayer.Queue.State.{Env, QueueService, get_current_song}
use rsplayer.Queue.Navigate.{move_current_to_next_song}
use rsplayer.Player.{
  PlaybackResult, queue_finished, song_finished, playback_stopped, playback_failed, playing,
  stopped, error, Normalization, normalization_gain, PlayerEffect, set_playback_active,
  increase_play_count, current_song_event, playback_state_event, set_gain, play_file, retrying,
}

-- `Result<PlaybackResult>` of `play_file`.
pub data Outcome : Type 0 where
  ok : PlaybackResult → Outcome
  err : Outcome

pub record Round : Type 0 where
  pub skip_to_time : ℕ  -- u16, when the round begins
  pub outcome : Outcome
  pub stop_signal : Bool  -- when `play_file` has failed
  pub stop_in_pause : Bool  -- behind the pause of a retry

abbrev pub max_retries : ℕ
max_retries = 5

pub record LoopState (env : Env) (norm : Normalization) : Type 0 where
  pub queue : QueueService env
  pub retry_count : ℕ
  pub effects : List (PlayerEffect norm)

module _ {env : Env} {norm : Normalization} where
  abbrev pub emit : List (PlayerEffect norm) → LoopState env norm → LoopState env norm
  emit es s = record s { effects = s.effects ++ es }

  abbrev pub with_queue : QueueService env → LoopState env norm → LoopState env norm
  with_queue q s = record s { queue = q }

  -- What is sent and set before a song is played, and the call itself. The gain is set at
  -- the sound processor when there is one; that it also goes to the decoder is left out. A player whose browser plays the songs makes no
  -- call, and waits.
  unfoldable pub announce : Bool → Round → Song → LoopState env norm → LoopState env norm
  announce local_browser_playback round song s =
      emit
        ((if round.skip_to_time == 0 then increase_play_count song.file ∷ [] else [])
          ++ (current_song_event song
                ∷ playback_state_event playing
                ∷ (if norm.dsp_handle then set_gain (normalization_gain norm song) ∷ [] else [])
              ++ (if local_browser_playback then [] else play_file song.file ∷ [])))
        s

  -- `Err(err)`: `none` is `continue`, `some` a `break`.
  unfoldable pub on_failure :
      Round → Song → LoopState env norm → Option PlaybackResult × LoopState env norm
  on_failure round song s =
      if ltb s.retry_count max_retries && not round.stop_signal
      then (let s' =
            emit (retrying (s.retry_count + 1) ∷ [])
              (record s { retry_count = s.retry_count + 1 }) in
          if round.stop_in_pause
          then (some playback_stopped, emit (playback_state_event stopped ∷ []) s')
          else (none, s'))
      else (some playback_failed, emit (playback_state_event (error song.file) ∷ []) s)

  -- `some` leaves the loop, `none` goes on.
  abbrev pub break_or :
      (LoopState env norm → Option PlaybackResult × LoopState env norm)
      → Option PlaybackResult × LoopState env norm
      → Option PlaybackResult × LoopState env norm
  break_or rest (some r, s') = (some r, s')
  break_or rest (none, s') = rest s'

  -- Behind the `match`: the move to the next song.
  module _ (random_range : ℕ → ℕ) where
    abbrev pub after_move :
        Bool × QueueService env → LoopState env norm → Option PlaybackResult × LoopState env norm
    after_move (moved, q) s = (if moved then none else some queue_finished, with_queue q s)

    unfoldable pub go_on : LoopState env norm → Option PlaybackResult × LoopState env norm
    go_on s =
        after_move (move_current_to_next_song random_range s.queue) (record s { retry_count = 0 })

    unfoldable pub settle :
        Outcome → Round → Song → LoopState env norm → Option PlaybackResult × LoopState env norm
    settle err round song s = on_failure round song s
    settle (ok playback_stopped) round song s =
        (some playback_stopped, emit (playback_state_event stopped ∷ []) s)
    settle (ok queue_finished) round song s = go_on s
    settle (ok song_finished) round song s = go_on s
    settle (ok playback_failed) round song s = go_on s

    abbrev pub play_song :
        Bool → Round → Option Song → LoopState env norm → Option PlaybackResult × LoopState env norm
    play_song local round none s = (some queue_finished, emit (playback_state_event stopped ∷ []) s)
    play_song local round (some song) s =
        settle (if local then ok playback_stopped else round.outcome) round song
          (announce local round song s)

    -- One time around the loop.
    unfoldable pub play_round :
        Bool → Round → LoopState env norm → Option PlaybackResult × LoopState env norm
    play_round local round s =
        let (song, q) = get_current_song s.queue in play_song local round song (with_queue q s)

    -- The loop, on fuel: `none` when the fuel has run out.
    unfoldable pub play_loop :
        Bool → ℕ → (ℕ → Round) → LoopState env norm → Option PlaybackResult × LoopState env norm
    play_loop local zero world s = (none, s)
    play_loop local (suc fuel) world s =
        break_or (λ s'. play_loop local fuel (λ i. world (suc i)) s') (play_round local (world 0) s)

    unfoldable pub play_all_in_queue :
        Bool → ℕ → (ℕ → Round) → QueueService env → Option PlaybackResult × LoopState env norm
    unfolding play_loop
    play_all_in_queue local fuel world q =
        let (result, s) =
          play_loop local fuel world
            (record { queue = q; retry_count = 0; effects = set_playback_active true ∷ [] }) in
        (result, emit (set_playback_active false ∷ []) s)
