-- ===== src/Queue/Reachable/Invariant.antt =====
-- The invariant of the queue service over all calls and restarts.
use rsplayer.Prelude.{◌≡◌, refl, none, List, [], ◌++◌, arith, length}
use rsplayer.Store.Ordered.{Below}
use rsplayer.Song.{Song, Text}
use rsplayer.Queue.State.{generate_id, Env, QueueService, restart, new, set_current_song}
use rsplayer.Queue.State.Ids.{HasRoom, generate_id-id, restart-IsValid}
use rsplayer.Queue.Edit.{add_song_by_id, add_song_after_current, add_songs, remove_song}
use rsplayer.Queue.Edit.Append.{get_all_songs-add_songs}
use rsplayer.Queue.Edit.Search.{AllSongs, remove_first, remove_song_lem}
use rsplayer.Queue.Pages.{get_all_songs}
use rsplayer.Queue.Reorder.{move_item, move_item_after_current, find_index_by_song_id}
use rsplayer.Queue.Reachable.{
  Step, Reachable, next, previous, jump, select, select_last, cycle, query_song, query, add,
  add_next, load, remove, clear_all, add_by_id, add_next_by_id, reorder, reorder_next, reboot,
  start, step,
}
use rsplayer.Queue.Reachable.Kept.{
  next-SameIds, previous-SameIds, jump-SameIds, last-SameIds, cycle-SameIds,
  get_current_song-SameIds, query-SameIds,
}
use rsplayer.Queue.Reachable.Written.{Inv}
use rsplayer.Queue.Reachable.Added.{
  kept-Inv, add_songs-Inv, add_next-Inv, clear-Inv, replace_all-Inv, remove_song-Inv, add_found-Inv,
}
use rsplayer.Queue.Reachable.Moved.{move_between-Inv, move_after-Inv, queue_found-Inv}

module _ {env : Env} where
  open env use {queue, codec}

  restart-songs :
      (q : QueueService env)
      → AllSongs env (queue.iter q.queue_db)
      → AllSongs env (queue.iter (restart q).queue_db)
  unfolding restart
  restart-songs q h = h

  start-Inv :
      (queue_db : queue.Store) (history_db : env.history.Store)
      → queue.iter queue_db ≡ []
      → Inv (
          new env queue_db
            (record {
              current_song_key = none;
              next_queue_id = none;
              stored_mode = none;
              priority_queue = none;
            })
            history_db)
  unfolding new
  start-Inv queue_db history_db empty = record {
    valid = record { keys_used = rw empty tt; id_reserved = omega arith; aligned = omega arith };
    songs = rw empty tt;
  }

  -- Every call keeps the invariant: the keys lie below the id counter, the counter lies below what a
  -- restart goes on from, and every value is a serialised song. A call that adds or loads songs is
  -- one for which the 64-bit counter has room for their ids before it wraps; all other calls are
  -- covered whatever their arguments.
  pub Step-Inv : {q r : QueueService env} → Step q r → Inv q → Inv r
  unfolding move_item move_item_after_current add_song_by_id add_song_after_current
  Step-Inv (next random_range q) h = kept-Inv q _ (next-SameIds random_range q) h
  Step-Inv (previous q) h = kept-Inv q _ (previous-SameIds q) h
  Step-Inv (jump song_id q) h = kept-Inv q _ (jump-SameIds song_id q) h
  Step-Inv (select key q) h =
      kept-Inv q (set_current_song key q)
        (record { same_entries = refl; same_next = refl; same_reserved = refl }) h
  Step-Inv (select_last q) h = kept-Inv q _ (last-SameIds q) h
  Step-Inv (cycle q) h = kept-Inv q _ (cycle-SameIds q) h
  Step-Inv (query_song q) h = kept-Inv q _ (get_current_song-SameIds q) h
  Step-Inv (query c q) h = kept-Inv q _ (query-SameIds c q) h
  Step-Inv (add songs q room) h = add_songs-Inv songs q room h
  Step-Inv (add_next songs q room) h = add_next-Inv songs q room h
  Step-Inv (add_by_id song_id q room) h =
      add_found-Inv (env.songs.find_by_id song_id) song_id q room h
  Step-Inv (add_next_by_id song_id q room) h =
      queue_found-Inv (env.songs.find_by_id song_id) q room h
  Step-Inv (load songs q room) h = replace_all-Inv songs q room h
  Step-Inv (remove song_id q) h = remove_song-Inv song_id q h
  Step-Inv (clear_all q) h = clear-Inv q h
  Step-Inv (reorder from_id to_id q) h =
      move_between-Inv (find_index_by_song_id from_id q) (find_index_by_song_id to_id q) q h
  Step-Inv (reorder_next song_id q) h = move_after-Inv (find_index_by_song_id song_id q) q h
  Step-Inv (reboot q) h = record {
    valid = restart-IsValid q h.valid;
    songs = restart-songs q h.songs;
  }

  -- In every state that calls and restarts lead to, the invariant holds.
  pub Reachable-Inv : {q : QueueService env} → Reachable q → Inv q
  Reachable-Inv (start queue_db history_db empty) = start-Inv queue_db history_db empty
  Reachable-Inv (step before call) = Step-Inv call (Reachable-Inv before)

  -- In every state that is reached with room for the ids, and has room for more songs: when these are
  -- added they stand behind all others, in their order; removing by file takes out the first song of
  -- that file; and the key that the next song gets, also after a restart, is above all keys in use.
  pub Reachable-edits :
      (songs : List Song) (song_id : Text) (q : QueueService env)
      → Reachable q
      → HasRoom (length songs) q
      → (get_all_songs (add_songs songs q) ≡ get_all_songs q ++ songs)
        × (get_all_songs (remove_song song_id q) ≡ remove_first song_id (get_all_songs q))
        × Below (generate_id q).0 (queue.iter q.queue_db)
        × Below (generate_id (restart q)).0 (queue.iter (restart q).queue_db)
  Reachable-edits songs song_id q reached room =
      let h = Reachable-Inv reached in
      let again = Reachable-Inv (step reached (reboot q)) in
      (
        get_all_songs-add_songs songs q room h.valid,
        remove_song_lem song_id q h.songs,
        rw (generate_id-id q) h.valid.keys_used,
        rw (generate_id-id (restart q)) again.valid.keys_used,
      )
