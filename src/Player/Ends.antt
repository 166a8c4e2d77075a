-- ===== src/Player/Ends.antt =====
-- The thread of a sequential queue comes to its end.
use rsplayer.Prelude.{
  ℕ, zero, suc, ◌+◌, ◌-◌, ◌*◌, ◌≤◌, ◌<◌, ◌≡◌, ◌⊎◌, inl, inr, refl, ◌∙◌, Option, none, some, Bool,
  true, arith, if◌then◌else◌, Option-cases, is_some,
}
use rsplayer.Song.{Song}
use rsplayer.Queue.Mode.{sequential}
use rsplayer.Queue.State.{Env, get_current_song}
use rsplayer.Player.{
  Normalization, PlaybackResult, queue_finished, song_finished, playback_stopped, playback_failed,
}
use rsplayer.Player.Loop.{
  Outcome, ok, err, Round, max_retries, LoopState, with_queue, announce, break_or, on_failure,
  go_on, settle, play_round, play_loop,
}
use rsplayer.Player.Remaining.{remaining, IsThere, next-remaining, song-IsThere, playback_mode-song}

module _ {env : Env} {norm : Normalization} where
  -- The rounds that are left: six for each song, less the tries that the current one has had.
  abbrev pub rounds_left : LoopState env norm → ℕ
  rounds_left s = remaining s.queue * 6 + (max_retries - s.retry_count)

  -- A round ends the loop, or leaves fewer rounds.
  abbrev Shrinks : ℕ → Option PlaybackResult × LoopState env norm → Type 0
  Shrinks bound (result, s') =
      (s'.queue.playback_mode ≡ sequential) × ((is_some result ≡ true) ⊎ (rounds_left s' < bound))

  module _ (random_range : ℕ → ℕ) where
    go_on-Shrinks :
        (s : LoopState env norm) (bound : ℕ)
        → s.queue.playback_mode ≡ sequential
        → IsThere s.queue
        → remaining s.queue * 6 ≤ bound
        → Shrinks bound (go_on random_range s)
    unfolding go_on
    go_on-Shrinks s bound mode here fits =
        let (mode', moves) = next-remaining random_range s.queue mode here in
        elim moves [
          | inl stays ↦ rw stays (mode', inl refl)
          | inr less ↦ (mode', inr (omega (arith, less)))
        ]

    on_failure-Shrinks :
        (round : Round) (song : Song) (s : LoopState env norm) (bound : ℕ)
        → s.queue.playback_mode ≡ sequential
        → remaining s.queue * 6 + (max_retries - s.retry_count) ≤ bound
        → Shrinks bound (on_failure round song s)
    unfolding on_failure
    on_failure-Shrinks round song s bound mode fits = ground arith

    settle-Shrinks :
        (outcome : Outcome) (round : Round) (song : Song) (s : LoopState env norm) (bound : ℕ)
        → s.queue.playback_mode ≡ sequential
        → IsThere s.queue
        → remaining s.queue * 6 + (max_retries - s.retry_count) ≤ bound
        → Shrinks bound (settle random_range outcome round song s)
    unfolding settle
    settle-Shrinks err round song s bound mode here fits =
        on_failure-Shrinks round song s bound mode fits
    settle-Shrinks (ok playback_stopped) round song s bound mode here fits = (mode, inl refl)
    settle-Shrinks (ok queue_finished) round song s bound mode here fits =
        go_on-Shrinks s bound mode here (omega arith)
    settle-Shrinks (ok song_finished) round song s bound mode here fits =
        go_on-Shrinks s bound mode here (omega arith)
    settle-Shrinks (ok playback_failed) round song s bound mode here fits =
        go_on-Shrinks s bound mode here (omega arith)

    play_round-Shrinks :
        (local : Bool) (round : Round) (s : LoopState env norm)
        → s.queue.playback_mode ≡ sequential
        → Shrinks (rounds_left s) (play_round random_range local round s)
    unfolding play_round announce
    play_round-Shrinks local round s mode = elim (Option-cases (get_current_song s.queue).0) [
      | inl e ↦ rw e (playback_mode-song s.queue ∙ mode, inl refl)
      | inr (song, e) ↦
          let (here, less, same) = song-IsThere s.queue song e in
          rw e (
            settle-Shrinks (if local then ok playback_stopped else round.outcome) round song
              (announce local round song (with_queue (get_current_song s.queue).1 s))
              (rounds_left s) (same ∙ mode) here (omega (arith, less)))
    ]

    break_or-ends :
        (rest : LoopState env norm → Option PlaybackResult × LoopState env norm)
        (r : Option PlaybackResult × LoopState env norm) (bound : ℕ)
        → Shrinks bound r
        → ((s' : LoopState env norm)
            → s'.queue.playback_mode ≡ sequential
            → rounds_left s' < bound
            → is_some (rest s').0 ≡ true)
        → is_some (break_or rest r).0 ≡ true
    break_or-ends rest (some r, s') bound h go = refl
    break_or-ends rest (none, s') bound h go = elim h.1 [
      | inl t ↦ absurd (ground (arith, t))
      | inr less ↦ go s' h.0 less
    ]

    -- The loop over a sequential queue ends, whatever happens in its rounds: at the latest after six
    -- rounds for each song that can still be played, the songs that are queued next included, and
    -- the one that is under way.
    pub play_loop-ends :
        (local : Bool) (fuel : ℕ) (world : ℕ → Round) (s : LoopState env norm)
        → s.queue.playback_mode ≡ sequential
        → rounds_left s < fuel
        → is_some (play_loop random_range local fuel world s).0 ≡ true
    unfolding play_loop
    play_loop-ends local zero world s mode room = absurd (omega arith)
    play_loop-ends local (suc fuel) world s mode room =
        break_or-ends _ (play_round random_range local (world 0) s) (rounds_left s)
          (play_round-Shrinks local (world 0) s mode)
          (λ s' mode' less.
            play_loop-ends local fuel (λ i. world (suc i)) s' mode' (omega (arith, less)))
