-- ===== src/Queue/Reachable/Kept.antt =====
-- The calls that change neither the entries nor the id counter.
use rsplayer.Prelude.{
  ℕ, refl, ◌∙◌, Option, none, some, List, Bool, true, false, arith, get_elem?, length, ltb, head?,
  last?, if◌then◌else◌,
}
use rsplayer.Store.Ordered.{keys}
use rsplayer.Song.{Bytes, Text}
use rsplayer.Queue.Mode.{PlaybackMode, sequential, random, loop_single, loop_queue}
use rsplayer.Queue.State.{
  Env, QueueService, get_current_or_first_song_key, get_current_song, cycle_playback_mode,
  save_priority_queue, get_priority_queue,
}
use rsplayer.Queue.State.Ids.{SameIds}
use rsplayer.Queue.Navigate.{
  or_else, mark_current, random_candidates, step_from, play_random, move_random, advance,
  play_or_advance, pop_priority, move_current_to_next_song, move_current_to_previous_song,
  step_back, random_back, move_back,
}
use rsplayer.Queue.Edit.{move_current_to, set_current_to_last}
use rsplayer.Queue.Pages.{
  CurrentQueueQuery, with_search_term, current_song_page, ignore_songs, query_current_queue,
  get_queue_page_starting_from_current_song,
}

module _ {env : Env} where
  pub SameIds-trans : (q r s : QueueService env) → SameIds q r → SameIds r s → SameIds q s
  SameIds-trans q r s a b = record {
    same_entries = b.same_entries ∙ a.same_entries;
    same_next = b.same_next ∙ a.same_next;
    same_reserved = b.same_reserved ∙ a.same_reserved;
  }

  pub SameIds-refl : (q : QueueService env) → SameIds q q
  SameIds-refl q = record { same_entries = refl; same_next = refl; same_reserved = refl }

  pub first-SameIds : (q : QueueService env) → SameIds q (get_current_or_first_song_key q).1
  unfolding get_current_or_first_song_key
  first-SameIds q = ground arith

  pub get_current_song-SameIds : (q : QueueService env) → SameIds q (get_current_song q).1
  unfolding get_current_song
  get_current_song-SameIds q = first-SameIds q

  pub cycle-SameIds : (q : QueueService env) → SameIds q (cycle_playback_mode q).1
  unfolding cycle_playback_mode
  cycle-SameIds q = record { same_entries = refl; same_next = refl; same_reserved = refl }

  pub last-SameIds : (q : QueueService env) → SameIds q (set_current_to_last q)
  unfolding set_current_to_last
  last-SameIds q = ground arith

  pub jump-SameIds :
      (song_id : Text) (q : QueueService env) → SameIds q (move_current_to song_id q).1
  unfolding move_current_to
  jump-SameIds song_id q = ground arith

  step_from-SameIds :
      (o : Option ℕ) (find : ℕ → Option (ℕ × Bytes)) (q : QueueService env)
      → SameIds q (step_from o find q).1
  step_from-SameIds none find q = SameIds-refl q
  step_from-SameIds (some k) find q = ground arith

  play_random-SameIds :
      (o : Option ℕ) (played : List ℕ) (q : QueueService env) → SameIds q (play_random o played q).1
  unfolding play_random
  play_random-SameIds none played q = record {
    same_entries = refl;
    same_next = refl;
    same_reserved = refl;
  }
  play_random-SameIds (some k) played q = record {
    same_entries = refl;
    same_next = refl;
    same_reserved = refl;
  }

  if-SameIds :
      (b : Bool) (q : QueueService env) (x y : Bool × QueueService env)
      → SameIds q x.1
      → SameIds q y.1
      → SameIds q (if b then x else y).1
  if-SameIds true q x y hx hy = hx
  if-SameIds false q x y hx hy = hy

  -- A move from the current or first key.
  from_first-SameIds :
      (q s : QueueService env) → SameIds (get_current_or_first_song_key q).1 s → SameIds q s
  from_first-SameIds q s h =
      SameIds-trans q (get_current_or_first_song_key q).1 s (first-SameIds q) h

  step_first-SameIds :
      (find : QueueService env → ℕ → Option (ℕ × Bytes)) (q : QueueService env)
      → let (current, q') = get_current_or_first_song_key q in
        SameIds q (step_from current (find q') q').1
  step_first-SameIds find q =
      let (current, q') = get_current_or_first_song_key q in
      from_first-SameIds q (step_from current (find q') q').1
        (step_from-SameIds current (find q') q')

  move_random-SameIds :
      (random_range : ℕ → ℕ) (q : QueueService env) → SameIds q (move_random random_range q).1
  unfolding move_random
  move_random-SameIds random_range q =
      let all_keys = keys (env.queue.iter q.queue_db) in
      let (current, q') = get_current_or_first_song_key q in
      let (candidates, played) =
        random_candidates all_keys current (mark_current current q'.random_played_keys) in
      let picked = get_elem? candidates (random_range (length candidates)) in
      if-SameIds (ltb (length all_keys) 2) q (false, q) (play_random picked played q')
        (SameIds-refl q)
        (from_first-SameIds q (play_random picked played q').1
          (play_random-SameIds picked played q'))

  advance-SameIds :
      (random_range : ℕ → ℕ) (mode : PlaybackMode) (q : QueueService env)
      → SameIds q (advance random_range mode q).1
  unfolding advance
  advance-SameIds random_range sequential q =
      step_first-SameIds (λ q' key. head? (env.queue.range_after q'.queue_db key)) q
  advance-SameIds random_range random q = move_random-SameIds random_range q
  advance-SameIds random_range loop_single q = first-SameIds q
  advance-SameIds random_range loop_queue q =
      step_first-SameIds
        (λ q' key.
          or_else (head? (env.queue.range_after q'.queue_db key))
            (env.queue.first_key_value q'.queue_db))
        q

  save-SameIds : (pq : List ℕ) (q : QueueService env) → SameIds q (save_priority_queue pq q)
  save-SameIds pq q = record { same_entries = refl; same_next = refl; same_reserved = refl }

  play_or_advance-SameIds :
      (random_range : ℕ → ℕ) (o : Option ℕ) (q : QueueService env)
      → SameIds q (play_or_advance random_range o q).1
  unfolding play_or_advance
  play_or_advance-SameIds random_range none q = advance-SameIds random_range q.playback_mode q
  play_or_advance-SameIds random_range (some k) q = record {
    same_entries = refl;
    same_next = refl;
    same_reserved = refl;
  }

  pub next-SameIds :
      (random_range : ℕ → ℕ) (q : QueueService env)
      → SameIds q (move_current_to_next_song random_range q).1
  unfolding move_current_to_next_song
  next-SameIds random_range q =
      let (found, pq) = pop_priority env q.queue_db (get_priority_queue q) in
      SameIds-trans q (save_priority_queue pq q)
        (play_or_advance random_range found (save_priority_queue pq q)).1 (save-SameIds pq q)
        (play_or_advance-SameIds random_range found (save_priority_queue pq q))

  step_back-SameIds : (wraps : Bool) (q : QueueService env) → SameIds q (step_back wraps q).1
  unfolding step_back
  step_back-SameIds wraps q =
      step_first-SameIds
        (λ q' key.
          or_else (last? (env.queue.range_before q'.queue_db key))
            (if wraps then env.queue.last_key_value q'.queue_db else none))
        q

  random_back-SameIds : (q : QueueService env) → SameIds q (random_back q).1
  unfolding random_back
  random_back-SameIds q = ground arith

  move_back-SameIds : (mode : PlaybackMode) (q : QueueService env) → SameIds q (move_back mode q).1
  unfolding move_back
  move_back-SameIds sequential q = step_back-SameIds false q
  move_back-SameIds random q =
      if-SameIds (ltb 0 q.random_history_index) q (random_back q) (step_back false q)
        (random_back-SameIds q) (step_back-SameIds false q)
  move_back-SameIds loop_single q = step_back-SameIds false q
  move_back-SameIds loop_queue q = step_back-SameIds true q

  pub previous-SameIds : (q : QueueService env) → SameIds q (move_current_to_previous_song q).1
  unfolding move_current_to_previous_song
  previous-SameIds q = move_back-SameIds q.playback_mode q

  pub query-SameIds :
      (c : CurrentQueueQuery) (q : QueueService env) → SameIds q (query_current_queue c q).1
  unfolding query_current_queue get_queue_page_starting_from_current_song
  query-SameIds (with_search_term term offset) q = SameIds-refl q
  query-SameIds current_song_page q = first-SameIds q
  query-SameIds ignore_songs q = SameIds-refl q
