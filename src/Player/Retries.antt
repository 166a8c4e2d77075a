-- ===== src/Player/Retries.antt =====
-- A song that cannot be played, and the end of the queue.
use rsplayer.Prelude.{
  ℕ, zero, suc, ◌+◌, ◌≤◌, ◌<◌, ◌≡◌, refl, ◌∙◌, Option, none, some, List, [], ◌∷◌, ◌++◌, Bool, true,
  false, if◌then◌else◌, arith, ◌==◌, Bool-cases, inl, inr, lt→ltb, le→ltb,
}
use rsplayer.Song.{Bytes, Song}
use rsplayer.Queue.Mode.{sequential}
use rsplayer.Queue.State.{Env, QueueService, get_current_song, get_priority_queue}
use rsplayer.Queue.Navigate.{move_current_to_next_song}
use rsplayer.Queue.Navigate.Priority.{AllGone}
use rsplayer.Queue.Navigate.Ordered.{At, next-sequential}
use rsplayer.Player.{
  Normalization, normalization_gain, queue_finished, song_finished, playback_failed, PlayerState,
  error, PlayerEffect, set_playback_active, increase_play_count, current_song_event,
  playback_state_event, set_gain, play_file, retrying, playing,
}
use rsplayer.Player.Loop.{
  ok, err, Round, max_retries, LoopState, emit, announce, on_failure, go_on, settle, play_round,
  play_loop,
}

-- The calls of the decoder among what was done.
abbrev pub plays : {norm : Normalization} → List (PlayerEffect norm) → ℕ
plays [] = 0
plays (play_file f ∷ es) = suc (plays es)
plays (set_playback_active on ∷ es) = plays es
plays (increase_play_count f ∷ es) = plays es
plays (current_song_event s ∷ es) = plays es
plays (playback_state_event s ∷ es) = plays es
plays (set_gain g ∷ es) = plays es
plays (retrying n ∷ es) = plays es

-- The state that the clients were told last.
abbrev pub last_state :
    {norm : Normalization} → Option PlayerState → List (PlayerEffect norm) → Option PlayerState
last_state st [] = st
last_state st (playback_state_event s ∷ es) = last_state (some s) es
last_state st (play_file f ∷ es) = last_state st es
last_state st (set_playback_active on ∷ es) = last_state st es
last_state st (increase_play_count f ∷ es) = last_state st es
last_state st (current_song_event s ∷ es) = last_state st es
last_state st (set_gain g ∷ es) = last_state st es
last_state st (retrying n ∷ es) = last_state st es

plays-append :
    {norm : Normalization} (es fs : List (PlayerEffect norm))
    → plays (es ++ fs) ≡ plays es + plays fs
plays-append [] fs = omega arith
plays-append (play_file f ∷ es) fs = omega (arith, plays-append es fs)
plays-append (set_playback_active on ∷ es) fs = plays-append es fs
plays-append (increase_play_count f ∷ es) fs = plays-append es fs
plays-append (current_song_event s ∷ es) fs = plays-append es fs
plays-append (playback_state_event s ∷ es) fs = plays-append es fs
plays-append (set_gain g ∷ es) fs = plays-append es fs
plays-append (retrying n ∷ es) fs = plays-append es fs

last_state-append :
    {norm : Normalization} (st : Option PlayerState) (es fs : List (PlayerEffect norm))
    → last_state st (es ++ fs) ≡ last_state (last_state st es) fs
last_state-append st [] fs = refl
last_state-append st (playback_state_event s ∷ es) fs = last_state-append (some s) es fs
last_state-append st (play_file f ∷ es) fs = last_state-append st es fs
last_state-append st (set_playback_active on ∷ es) fs = last_state-append st es fs
last_state-append st (increase_play_count f ∷ es) fs = last_state-append st es fs
last_state-append st (current_song_event s ∷ es) fs = last_state-append st es fs
last_state-append st (set_gain g ∷ es) fs = last_state-append st es fs
last_state-append st (retrying n ∷ es) fs = last_state-append st es fs

-- The decoder fails, and nobody stops the player.
pub record Fails (round : Round) : Type 0 where
  pub fails : round.outcome ≡ err
  pub unstopped : round.stop_signal ≡ false
  pub unstopped_in_pause : round.stop_in_pause ≡ false

module _ {norm : Normalization} where
  -- The gain counts for nothing.
  plays-gain :
      (b : Bool) (g : Option norm.Gain) (es : List (PlayerEffect norm))
      → plays ((if b then set_gain g ∷ [] else []) ++ es) ≡ plays es
  plays-gain true g es = refl
  plays-gain false g es = refl

  last_state-gain :
      (b : Bool) (g : Option norm.Gain) (st : Option PlayerState) (es : List (PlayerEffect norm))
      → last_state st ((if b then set_gain g ∷ [] else []) ++ es) ≡ last_state st es
  last_state-gain true g st es = refl
  last_state-gain false g st es = refl

module _ {env : Env} {norm : Normalization} where
  -- One call of the decoder is announced.
  plays-announce :
      (round : Round) (song : Song) (s : LoopState env norm)
      → (plays (announce false round song s).effects ≡ suc (plays s.effects))
        × (last_state none (announce false round song s).effects ≡ some playing)
  unfolding announce
  plays-announce round song s =
      let gain = normalization_gain norm song in
      let played = plays-gain {norm = norm} norm.dsp_handle gain (play_file song.file ∷ []) in
      let last =
        last_state-gain {norm = norm} norm.dsp_handle gain (some playing)
          (play_file song.file ∷ []) in
      elim (Bool-cases (round.skip_to_time == 0)) [
        | inl e ↦
            rw (e, plays-append s.effects _, last_state-append none s.effects _, played, last)
              (omega arith, refl)
        | inr e ↦
            rw (e, plays-append s.effects _, last_state-append none s.effects _, played, last)
              (omega arith, refl)
      ]

  module _ (random_range : ℕ → ℕ) where
    failing_round :
        (round : Round) (song : Song) (s : LoopState env norm)
        → Fails round
        → get_current_song s.queue ≡ (some song, s.queue)
        → play_round random_range false round s
          ≡ on_failure round song (announce false round song s)
    unfolding play_round settle
    failing_round round song s h e = rw (e, h.fails) refl

    abbrev retried : Round → Song → LoopState env norm → LoopState env norm
    retried round song s = record (announce false round song s) {
      retry_count = s.retry_count + 1;
      effects = (announce false round song s).effects ++ retrying (s.retry_count + 1) ∷ [];
    }

    failing_retry :
        (round : Round) (song : Song) (s : LoopState env norm)
        → Fails round
        → s.retry_count < max_retries
        → on_failure round song (announce false round song s) ≡ (none, retried round song s)
    unfolding on_failure announce
    failing_retry round song s h room =
        rw (lt→ltb s.retry_count 5 room, h.unstopped, h.unstopped_in_pause) refl

    failing_last :
        (round : Round) (song : Song) (s : LoopState env norm)
        → max_retries ≤ s.retry_count
        → on_failure round song (announce false round song s) ≡ (
          some playback_failed,
          emit (playback_state_event (error song.file) ∷ []) (announce false round song s),
        )
    unfolding on_failure announce
    failing_last round song s full = rw (le→ltb s.retry_count 5 full) refl

    -- When `n` retries of the current song are left, the decoder fails whenever it is called, and
    -- nobody stops the player, then the loop calls the decoder `n + 1` times, ends with
    -- `PlaybackFailed`, has told the clients last of an error at that song, and has not moved the
    -- queue.
    pub play_loop-gives_up :
        (n : ℕ) (world : ℕ → Round) (song : Song) (s : LoopState env norm)
        → ((i : ℕ) → Fails (world i))
        → get_current_song s.queue ≡ (some song, s.queue)
        → s.retry_count + n ≡ max_retries
        → let (result, s') = play_loop random_range false (suc n) world s in
          (result ≡ some playback_failed)
          × (s'.queue ≡ s.queue)
          × (plays s'.effects ≡ plays s.effects + suc n)
          × (last_state none s'.effects ≡ some (error song.file))
    unfolding play_loop announce
    play_loop-gives_up zero world song s h e count =
        let (here, state) = plays-announce (world 0) song s in
        let last = announce false (world 0) song s in
        let over =
          failing_round (world 0) song s (h 0) e ∙ failing_last (world 0) song s (omega arith) in
        rw (play_loop, over)
          (
            refl,
            refl,
            omega (
              arith,
              here,
              plays-append last.effects (playback_state_event (error song.file) ∷ []),
            ),
            last_state-append none last.effects _,
          )
    play_loop-gives_up (suc n) world song s h e count =
        let (here, state) = plays-announce (world 0) song s in
        let s' = retried (world 0) song s in
        let again =
          failing_round (world 0) song s (h 0) e
          ∙ failing_retry (world 0) song s (h 0) (omega arith) in
        let (result, queue, count', last) =
          play_loop-gives_up n (λ i. world (suc i)) song s' (λ i. h (suc i)) e (omega arith) in
        let one =
          plays-append (announce false (world 0) song s).effects
            (retrying (s.retry_count + 1) ∷ []) in
        rw (play_loop, again) (result, queue, omega (arith, count', here, one), last)

    finished_round :
        (round : Round) (song : Song) (s : LoopState env norm)
        → round.outcome ≡ ok song_finished
        → get_current_song s.queue ≡ (some song, s.queue)
        → play_round random_range false round s ≡ go_on random_range (announce false round song s)
    unfolding play_round settle
    finished_round round song s h e = rw (e, h) refl

    go_on-last :
        (q : QueueService env) (s : LoopState env norm)
        → move_current_to_next_song random_range s.queue ≡ (false, q)
        → go_on random_range s ≡ (some queue_finished, record s { queue = q; retry_count = 0 })
    unfolding go_on
    go_on-last q s e = rw e refl

    -- When the last song of a sequential queue has been played, with no live song queued next, the
    -- loop ends with `QueueFinished`, and the clients have last been told that the player plays.
    pub play_round-silent_end :
        (pre : List (ℕ × Bytes)) (k : ℕ) (round : Round) (song : Song) (s : LoopState env norm)
        → round.outcome ≡ ok song_finished
        → s.queue.playback_mode ≡ sequential
        → AllGone env s.queue.queue_db (get_priority_queue s.queue)
        → At pre k [] s.queue
        → get_current_song s.queue ≡ (some song, s.queue)
        → let (result, s') = play_round random_range false round s in
          (result ≡ some queue_finished) × (last_state none s'.effects ≡ some playing)
    unfolding announce
    play_round-silent_end pre k round song s finished mode gone at e =
        let (here, state) = plays-announce round song s in
        let moved = next-sequential random_range pre k [] s.queue mode gone at in
        rw
          (finished_round round song s finished e, go_on-last _ (announce false round song s) moved)
          (refl, state)
