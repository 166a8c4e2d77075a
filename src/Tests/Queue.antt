-- ===== src/Tests/Queue.antt =====
-- The theorems about the queue service at queues of at most a few songs.
use rsplayer.Prelude.{
  ℕ, ◌≡◌, ◌≢◌, refl, [], ◌∷◌, ◌++◌, none, some, true, false, inl, length, filter, take, drop, arith,
}
use rsplayer.Store.Ordered.{keys, values, lookup, Below}
use rsplayer.Queue.State.{QueueService}
use rsplayer.Queue.Mode.{PlaybackMode, sequential, random}
use rsplayer.Queue.State.{
  generate_id, restart, save_priority_queue, new, Status, reset_random_state,
}
use rsplayer.Queue.State.Ids.{IsValid}
use rsplayer.Queue.Navigate.{move_current_to_next_song, move_current_to_previous_song}
use rsplayer.Queue.Navigate.Ordered.{At, next-previous}
use rsplayer.Queue.Navigate.Random.{next-random, InRange, Recorded, Fresh, all_keys_of}
use rsplayer.Queue.Navigate.History.{first_random_move_is_final}
use rsplayer.Queue.Edit.{add_songs, remove_song, replace_all, add_songs_after_current}
use rsplayer.Queue.Edit.Search.{remove_first}
use rsplayer.Queue.Edit.Upcoming.{play_next, added_songs_play_next}
use rsplayer.Queue.Edit.Through.{play_from_current, replace_all_plays}
use rsplayer.Queue.Reorder.{move_item_by_index}
use rsplayer.Queue.Reorder.Queued.{next-move_item_by_index}
use rsplayer.Queue.Reorder.Follow.{move_item_by_index_lem}
use rsplayer.Queue.Pages.{get_all_songs, get_queue_page}
use rsplayer.Queue.Pages.Paging.{get_queue_page_lem}
use rsplayer.Queue.Reachable.{start, add}
use rsplayer.Queue.Reachable.Written.{Inv}
use rsplayer.Queue.Reachable.Invariant.{Step-Inv, Reachable-edits}
use rsplayer.Tests.{sample, song_a, song_b, bytes_of, two_songs}

pub two_songs-IsValid : (mode : PlaybackMode) → IsValid (two_songs mode)
two_songs-IsValid mode = record {
  keys_used = (omega arith, (omega arith, tt));
  id_reserved = omega arith;
  aligned = refl;
}

two_songs-At : (mode : PlaybackMode) → At [] 0 ((1, bytes_of song_b) ∷ []) (two_songs mode)
two_songs-At mode = record { current = refl; value = bytes_of song_a; entries = refl }

two_songs-Inv : (mode : PlaybackMode) → Inv (two_songs mode)
two_songs-Inv mode = record {
  valid = two_songs-IsValid mode;
  songs = ((song_a, refl), ((song_b, refl), tt));
}

abbrev first_of_range : ℕ → ℕ
first_of_range n = 0

first_of_range-InRange : InRange first_of_range
first_of_range-InRange n h = h

next-previous_example :
    let (moved, q) = move_current_to_next_song first_of_range (two_songs sequential) in
    let (back, q') = move_current_to_previous_song q in
    (moved ≡ true)
    × (q.status_db.current_song_key ≡ some 1)
    × (back ≡ true)
    × (q'.status_db.current_song_key ≡ some 0)
next-previous_example =
    next-previous first_of_range [] 0 1 (bytes_of song_b) [] (two_songs sequential) (inl refl) tt
      (two_songs-At sequential)

next-random_example :
    let q = two_songs random in
    let (moved, q') = move_current_to_next_song first_of_range q in
    (key : ℕ) × (moved ≡ true)
    × (q'.status_db.current_song_key ≡ some key)
    × Fresh (all_keys_of q) 0 [] key
    × Recorded q q' key
next-random_example =
    next-random first_of_range 0 (two_songs random) first_of_range-InRange refl tt refl
      (omega arith)

first_random_move_is_final_example :
    let (moved, q') = move_current_to_next_song first_of_range (two_songs random) in
    let (back, q'') = move_current_to_previous_song q' in
    (moved ≡ true) × (back ≡ false) × (q'' ≡ q') × (q''.status_db.current_song_key ≢ some 0)
first_random_move_is_final_example =
    first_random_move_is_final first_of_range 0 (two_songs random) first_of_range-InRange refl tt
      refl (omega arith) refl refl

move_item_by_index_lem_example :
    let r = move_item_by_index 0 1 (two_songs sequential) in
    (key : ℕ) × (keys (sample.queue.iter r.queue_db) ≡ 0 ∷ 1 ∷ [])
    × (values (sample.queue.iter r.queue_db) ≡ bytes_of song_b ∷ bytes_of song_a ∷ [])
    × (r.status_db.current_song_key ≡ some key)
    × (lookup key (sample.queue.iter r.queue_db) ≡ some (bytes_of song_a))
move_item_by_index_lem_example =
    move_item_by_index_lem 0 1 0 (bytes_of song_a) (two_songs sequential) (omega arith)
      (omega arith) refl refl

get_queue_page_lem_example : get_queue_page 1 5 (λ s. true) (two_songs sequential) ≡ (
  length (filter (λ s. true) (get_all_songs (two_songs sequential))),
  take 5 (drop 1 (filter (λ s. true) (get_all_songs (two_songs sequential)))),
)
get_queue_page_lem_example = get_queue_page_lem 1 5 (λ s. true) (two_songs sequential)

replace_all_plays_example :
    play_from_current first_of_range 1 (replace_all (song_a ∷ song_b ∷ []) (two_songs sequential))
    ≡ some song_a ∷ some song_b ∷ []
replace_all_plays_example =
    replace_all_plays first_of_range song_a (song_b ∷ []) (two_songs sequential) refl (omega arith)
      (two_songs-IsValid sequential)

added_songs_play_next_example :
    let (first, q) = add_songs_after_current (song_b ∷ song_a ∷ []) (two_songs random) in
    (first ≡ some 2) × (play_next first_of_range 2 q ≡ some song_b ∷ some song_a ∷ [])
added_songs_play_next_example =
    added_songs_play_next first_of_range song_b (song_a ∷ []) (two_songs random) (omega arith)
      (two_songs-IsValid random)

Step-Inv_example : Inv (add_songs (song_a ∷ []) (two_songs random))
Step-Inv_example =
    Step-Inv (add (song_a ∷ []) (two_songs random) (omega arith)) (two_songs-Inv random)

abbrev no_status : Status
no_status = record {
  current_song_key = none;
  next_queue_id = none;
  stored_mode = none;
  priority_queue = none;
}

Reachable-edits_example :
    let q = new sample ([], tt) no_status ([], tt) in
    (get_all_songs (add_songs (song_a ∷ []) q) ≡ get_all_songs q ++ song_a ∷ [])
    × (get_all_songs (remove_song song_b.file q) ≡ remove_first song_b.file (get_all_songs q))
    × Below (generate_id q).0 (sample.queue.iter q.queue_db)
    × Below (generate_id (restart q)).0 (sample.queue.iter (restart q).queue_db)
unfolding new reset_random_state
Reachable-edits_example =
    Reachable-edits (song_a ∷ []) song_b.file (new sample ([], tt) no_status ([], tt))
      (start ([], tt) ([], tt) refl) (omega arith)

-- The second song is queued to play next, and the first is moved behind it: the first plays.
abbrev second_queued : QueueService sample
second_queued = save_priority_queue (1 ∷ []) (two_songs sequential)

next-move_item_by_index_example :
    let (moved, r) =
      move_current_to_next_song first_of_range (move_item_by_index 0 1 second_queued) in
    (moved ≡ true)
    × (r.status_db.current_song_key ≡ some 1)
    × (lookup 1 (sample.queue.iter r.queue_db) ≡ some (bytes_of song_a))
next-move_item_by_index_example =
    next-move_item_by_index first_of_range 0 1 0 1 1 (bytes_of song_a) (bytes_of song_a) []
      second_queued (omega arith) (omega arith) refl refl refl refl refl
