-- ===== src/Queue/Navigate/History.antt =====
-- The random mode: the way back through the history.
use rsplayer.Prelude.{
  ℕ, ◌+◌, ◌-◌, ◌≡◌, ◌≢◌, ◌≤◌, ◌<◌, refl, none, some, List, [], arith, true, false, ap, ◌∙◌, sym,
  length, lt→ltb, ◌==◌,
}
use rsplayer.Store.Ordered.{lookup-insert}
use rsplayer.Queue.Mode.{random}
use rsplayer.Queue.State.{
  Env, QueueService, get_priority_queue, save_priority_queue, set_current_song, u32,
}
use rsplayer.Queue.Navigate.{
  play_random, move_current_to_next_song, move_current_to_previous_song, move_back, random_back,
}
use rsplayer.Queue.Navigate.Priority.{AllGone}
use rsplayer.Queue.Navigate.Ordered.{previous-back}
use rsplayer.Queue.Navigate.Random.{InRange, all_keys_of, random-step}

module _ {env : Env} where
  open env use {queue, history}

  back-random :
      (r : QueueService env)
      → r.playback_mode ≡ random
      → 0 < r.random_history_index
      → move_current_to_previous_song r ≡ random_back r
  unfolding move_back
  back-random r mode pos =
      previous-back r ∙ ap (λ m. move_back m r) mode ∙ rw (lt→ltb 0 r.random_history_index pos)

  random_back-none :
      (r : QueueService env)
      → history.get r.random_history_db (r.random_history_index - 1) ≡ none
      → random_back r ≡ (false, r)
  unfolding random_back
  random_back-none r e = rw (e, random_back)

  random_back-some :
      (k : ℕ) (r : QueueService env)
      → history.get r.random_history_db (r.random_history_index - 1) ≡ some k
      → random_back r ≡ (
        true,
        set_current_song k (record r { random_history_index = r.random_history_index - 1 }),
      )
  unfolding random_back
  random_back-some k r e = rw (e, random_back)

  -- A random move leaves the earlier history as it was.
  get-play_random :
      (key : ℕ) (played : List ℕ) (q : QueueService env)
      → q.random_history_index + 1 < 4294967296
      → let r = (play_random (some key) played q).1 in
        (0 < r.random_history_index)
        × (history.get r.random_history_db (r.random_history_index - 1)
            ≡ history.get q.random_history_db q.random_history_index)
  unfolding play_random
  get-play_random key played q small =
      let i = q.random_history_index in
      let next : u32 (i + 1) ≡ i + 1 = omega arith in
      let last : i + 1 - 1 ≡ i = omega arith in
      let apart : (i + 1 == i) ≡ false = ground arith in
      (
        omega arith,
        rw
            (
              next,
              last,
              history.get_lem,
              history.iter-insert,
              lookup-insert (i + 1) i key (history.iter q.random_history_db),
              apart,
            )
            (sym (history.get_lem q.random_history_db i)),
      )

  mode-play_random :
      (key : ℕ) (played : List ℕ) (q : QueueService env)
      → q.playback_mode ≡ random
      → (play_random (some key) played (save_priority_queue [] q)).1.playback_mode ≡ random
  unfolding play_random
  mode-play_random key played q mode = mode

  current-play_random :
      (key k : ℕ) (played : List ℕ) (q : QueueService env)
      → key ≢ k
      → ((play_random (some key) played q).0 ≡ true)
        × ((play_random (some key) played q).1.status_db.current_song_key ≢ some k)
  unfolding play_random
  current-play_random key k played q h = (refl, λ e. h (cc))

  -- In random mode a move back undoes a move forward when the history holds the current song at its
  -- current index: the song that was current is current again.
  pub next-previous_random :
      (random_range : ℕ → ℕ) (k : ℕ) (q : QueueService env)
      → InRange random_range
      → q.playback_mode ≡ random
      → AllGone env q.queue_db (get_priority_queue q)
      → q.status_db.current_song_key ≡ some k
      → 2 ≤ length (all_keys_of q)
      → q.random_history_index + 1 < 4294967296
      → history.get q.random_history_db q.random_history_index ≡ some k
      → let (back, q') =
          move_current_to_previous_song (move_current_to_next_song random_range q).1 in
        (back ≡ true) × (q'.status_db.current_song_key ≡ some k)
  next-previous_random random_range k q range mode gone e two small recorded =
      let (key, played, fresh, step) = random-step random_range k q range mode gone e two in
      let r = (play_random (some key) played (save_priority_queue [] q)).1 in
      let (pos, same) = get-play_random key played (save_priority_queue [] q) small in
      let back =
        back-random r (mode-play_random key played q mode) pos
        ∙ random_back-some k r (same ∙ recorded) in
      (rw (step, back), rw (step, back))

  -- In random mode, with at least two songs and no live priority entry, a generator that answers in
  -- its range, and a history that is empty at its start, as after a reset: the move forward succeeds,
  -- the move back right after it is refused and changes nothing, and the song that was current
  -- before is not current again.
  pub first_random_move_is_final :
      (random_range : ℕ → ℕ) (k : ℕ) (q : QueueService env)
      → InRange random_range
      → q.playback_mode ≡ random
      → AllGone env q.queue_db (get_priority_queue q)
      → q.status_db.current_song_key ≡ some k
      → 2 ≤ length (all_keys_of q)
      → q.random_history_index ≡ 0
      → history.iter q.random_history_db ≡ []
      → let (moved, q') = move_current_to_next_song random_range q in
        let (back, q'') = move_current_to_previous_song q' in
        (moved ≡ true) × (back ≡ false) × (q'' ≡ q') × (q''.status_db.current_song_key ≢ some k)
  first_random_move_is_final random_range k q range mode gone e two start empty =
      let (key, played, fresh, step) = random-step random_range k q range mode gone e two in
      let r = (play_random (some key) played (save_priority_queue [] q)).1 in
      let (pos, same) = get-play_random key played (save_priority_queue [] q) (omega arith) in
      let nothing : history.get q.random_history_db q.random_history_index ≡ none =
        rw (history.get_lem, empty) in
      let back =
        back-random r (mode-play_random key played q mode) pos
        ∙ random_back-none r (same ∙ nothing) in
      let (moved, other) = current-play_random key k played (save_priority_queue [] q) fresh.1 in
      (rw step moved, rw (step, back), rw (step, back), rw (step, back) other)
