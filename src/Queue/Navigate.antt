-- ===== src/Queue/Navigate.antt =====
-- queue_service.rs: the moves of the current song.
pub mod Priority
pub mod Ordered
pub mod Random
pub mod History
use rsplayer.Prelude.{
  ℕ, zero, suc, ◌+◌, ◌-◌, ◌≡◌, Option, none, some, List, [], ◌∷◌, Bool, true, false, not,
  if◌then◌else◌, ◌==◌, ltb, get_elem?, length, filter, contains, head?, last?, is_some,
}
use rsplayer.Store.Ordered.{keys}
use rsplayer.Song.{Bytes, Text}
use rsplayer.Queue.Mode.{PlaybackMode, sequential, random, loop_single, loop_queue}
use rsplayer.Queue.State.{
  Env, QueueService, u32, set_current_song, get_current_or_first_song_key, get_priority_queue,
  save_priority_queue,
}

-- The song at the key becomes the current one, if there is one.
abbrev pub move_to_entry :
    {env : Env} → Option (ℕ × Bytes) → QueueService env → Bool × QueueService env
move_to_entry none q = (false, q)
move_to_entry (some (key, _)) q = (true, set_current_song key q)

-- `let Some(current_key) = ... else { return false }`, and the move to the entry found from it.
abbrev pub step_from :
    {env : Env} → Option ℕ → (ℕ → Option (ℕ × Bytes)) → QueueService env → Bool × QueueService env
step_from none find q = (false, q)
step_from (some key) find q = move_to_entry (find key) q

-- `Option::or_else`
abbrev pub or_else {ℓ} : {A : Type ℓ} → Option A → Option A → Option A
or_else none o = o
or_else (some a) _ = some a

-- `HashSet::insert`
abbrev pub mark_played : ℕ → List ℕ → List ℕ
mark_played k played = if contains k played then played else k ∷ played

abbrev pub mark_current : Option ℕ → List ℕ → List ℕ
mark_current none played = played
mark_current (some k) played = mark_played k played

abbrev pub is_current : Option ℕ → ℕ → Bool
is_current none k = false
is_current (some c) k = c == k

-- The `while` loop: the first key of the priority queue whose song is still there, with what is
-- left behind it.
unfoldable pub pop_priority : (env : Env) → env.queue.Store → List ℕ → Option ℕ × List ℕ
pop_priority env db [] = (none, [])
pop_priority env db (key ∷ pq) =
    let rest = pop_priority env db pq in
    if env.queue.contains_key db key then (some key, pq) else rest

-- `if unplayed.is_empty()`: the played keys start again from the current one, or are kept.
abbrev pub candidates_of : List ℕ → List ℕ → Option ℕ → List ℕ → List ℕ × List ℕ
candidates_of [] all_keys current played =
    (filter (λ k. not (is_current current k)) all_keys, mark_current current [])
candidates_of (k ∷ ks) all_keys current played = (k ∷ ks, played)

abbrev pub unplayed_of : List ℕ → List ℕ → List ℕ
unplayed_of all_keys played = filter (λ k. not (contains k played)) all_keys

-- The candidates of a random move and the played keys that it starts from.
unfoldable pub random_candidates : List ℕ → Option ℕ → List ℕ → List ℕ × List ℕ
random_candidates all_keys current played =
    candidates_of (unplayed_of all_keys played) all_keys current played

module _ {env : Env} where
  -- The picked key. A position past the candidates would panic.
  unfoldable pub play_random : Option ℕ → List ℕ → QueueService env → Bool × QueueService env
  play_random none played q = (false, record q { random_played_keys = played })
  play_random (some key) played q =
      let ridx = u32 (q.random_history_index + 1) in
      (
        true,
        record (set_current_song key q) {
          random_played_keys = mark_played key played;
          random_history_index = ridx;
          random_history_db = env.history.insert q.random_history_db ridx key;
        },
      )

  -- `random_range n` is the generator's answer to `rnd.random_range(0..n)`.
  module _ (random_range : ℕ → ℕ) where
    unfoldable pub move_random : QueueService env → Bool × QueueService env
    move_random q =
        let all_keys = keys (env.queue.iter q.queue_db) in
        if ltb (length all_keys) 2
        then (false, q)
        else let (current, q') = get_current_or_first_song_key q in
          let (candidates, played) =
            random_candidates all_keys current (mark_current current q'.random_played_keys) in
          play_random (get_elem? candidates (random_range (length candidates))) played q'

    -- The `match mode` of `move_current_to_next_song`.
    unfoldable pub advance : PlaybackMode → QueueService env → Bool × QueueService env
    advance loop_single q =
        let (current, q') = get_current_or_first_song_key q in (is_some current, q')
    advance random q = move_random q
    advance loop_queue q =
        let (current, q') = get_current_or_first_song_key q in
        step_from current
          (λ key.
            or_else (head? (env.queue.range_after q'.queue_db key))
              (env.queue.first_key_value q'.queue_db))
          q'
    advance sequential q =
        let (current, q') = get_current_or_first_song_key q in
        step_from current (λ key. head? (env.queue.range_after q'.queue_db key)) q'

    -- Behind the loop over the priority queue.
    unfoldable pub play_or_advance : Option ℕ → QueueService env → Bool × QueueService env
    play_or_advance (some key) q = (true, set_current_song key q)
    play_or_advance none q = advance q.playback_mode q

    unfoldable pub move_current_to_next_song : QueueService env → Bool × QueueService env
    unfolding play_or_advance
    move_current_to_next_song q =
        let (found, pq) = pop_priority env q.queue_db (get_priority_queue q) in
        play_or_advance found (save_priority_queue pq q)

  -- The part of `move_current_to_previous_song` behind the random branch.
  unfoldable pub step_back : Bool → QueueService env → Bool × QueueService env
  step_back wraps q =
      let (current, q') = get_current_or_first_song_key q in
      step_from current
        (λ key.
          or_else (last? (env.queue.range_before q'.queue_db key))
            (if wraps then env.queue.last_key_value q'.queue_db else none))
        q'

  -- The random branch, at a history index above 0.
  unfoldable pub random_back : QueueService env → Bool × QueueService env
  random_back q =
      let ridx = q.random_history_index - 1 in
      elim (env.history.get q.random_history_db ridx) [
        | none ↦ (false, q)
        | some key ↦ (true, set_current_song key (record q { random_history_index = ridx }))
      ]

  unfoldable pub move_back : PlaybackMode → QueueService env → Bool × QueueService env
  unfolding step_back random_back
  move_back random q = if ltb 0 q.random_history_index then random_back q else step_back false q
  move_back loop_queue q = step_back true q
  move_back loop_single q = step_back false q
  move_back sequential q = step_back false q

  unfoldable pub move_current_to_previous_song : QueueService env → Bool × QueueService env
  unfolding move_back
  move_current_to_previous_song q = move_back q.playback_mode q
