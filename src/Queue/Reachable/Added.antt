-- ===== src/Queue/Reachable/Added.antt =====
-- The invariant and the calls that add and remove songs.
use rsplayer.Prelude.{
  ℕ, refl, sym, Option, none, some, List, [], ◌∷◌, arith, Bool-cases, inl, inr, length, subst,
}
use rsplayer.Song.{Song, Bytes, Text, song_of_file, starts_with}
use rsplayer.Queue.State.{generate_id, Env, QueueService}
use rsplayer.Queue.State.Ids.{HasRoom, SameIds, SameIds-IsValid, generate_id-entries}
use rsplayer.Queue.Edit.{
  add_found, insert_song, add_song, add_songs, insert_songs, remove_entry, remove_song, promote_new,
  clear, replace_all, add_songs_after_current, find_entry_by_song_id,
}
use rsplayer.Queue.Edit.Append.{
  insert_song-IsValid, insert_song-next, clear-IsValid, next_id-clear, remove_song-IsValid,
}
use rsplayer.Queue.Edit.Search.{AllSongs}
use rsplayer.Queue.Reachable.Kept.{SameIds-refl}
use rsplayer.Queue.Reachable.Written.{Inv, AllSongs-insert, AllSongs-remove}

module _ {env : Env} where
  open env use {queue, codec}

  pub kept-Inv : (q r : QueueService env) → SameIds q r → Inv q → Inv r
  kept-Inv q r same h = record {
    valid = SameIds-IsValid q r same h.valid;
    songs = subst (λ db. AllSongs env (queue.iter db)) (sym same.same_entries) h.songs;
  }

  insert_song-AllSongs :
      (song : Song) (q : QueueService env)
      → AllSongs env (queue.iter q.queue_db)
      → AllSongs env (queue.iter (insert_song song q).1.queue_db)
  unfolding insert_song
  insert_song-AllSongs song q h =
      rw (queue.iter-insert, generate_id-entries)
        (AllSongs-insert env (generate_id q).0 (codec.to_json_string_bytes song)
          (queue.iter q.queue_db) (song, refl) h)

  pub insert_song-Inv :
      (song : Song) (q : QueueService env) → HasRoom 1 q → Inv q → Inv (insert_song song q).1
  insert_song-Inv song q room h = record {
    valid = insert_song-IsValid song q room h.valid;
    songs = insert_song-AllSongs song q h.songs;
  }

  pub add_songs-Inv :
      (songs : List Song) (q : QueueService env)
      → HasRoom (length songs) q
      → Inv q
      → Inv (add_songs songs q)
  unfolding add_songs add_song
  add_songs-Inv [] q room h = h
  add_songs-Inv (song ∷ songs) q room h =
      add_songs-Inv songs (insert_song song q).1
        (omega (arith, insert_song-next song q (omega arith)))
        (insert_song-Inv song q (omega arith) h)

  insert_songs-Inv :
      (songs : List Song) (q : QueueService env)
      → HasRoom (length songs) q
      → Inv q
      → Inv (insert_songs songs q).1
  unfolding insert_songs
  insert_songs-Inv [] q room h = h
  insert_songs-Inv (song ∷ songs) q room h =
      insert_songs-Inv songs (insert_song song q).1
        (omega (arith, insert_song-next song q (omega arith)))
        (insert_song-Inv song q (omega arith) h)

  promote_new-SameIds : (ks : List ℕ) (q : QueueService env) → SameIds q (promote_new ks q).1
  promote_new-SameIds [] q = SameIds-refl q
  promote_new-SameIds (k ∷ ks) q = record {
    same_entries = refl;
    same_next = refl;
    same_reserved = refl;
  }

  pub add_next-Inv :
      (songs : List Song) (q : QueueService env)
      → HasRoom (length songs) q
      → Inv q
      → Inv (add_songs_after_current songs q).1
  unfolding add_songs_after_current
  add_next-Inv songs q room h =
      let (ks, q') = insert_songs songs q in
      kept-Inv q' (promote_new ks q').1 (promote_new-SameIds ks q')
        (insert_songs-Inv songs q room h)

  pub clear-Inv : (q : QueueService env) → Inv q → Inv (clear q)
  unfolding clear
  clear-Inv q h = record { valid = clear-IsValid q h.valid; songs = rw queue.iter-clear tt }

  pub replace_all-Inv :
      (songs : List Song) (q : QueueService env)
      → HasRoom (length songs) q
      → Inv q
      → Inv (replace_all songs q)
  unfolding replace_all
  replace_all-Inv songs q room h =
      add_songs-Inv songs (clear q) (omega (arith, next_id-clear q)) (clear-Inv q h)

  remove_entry-AllSongs :
      (o : Option (ℕ × Bytes)) (q : QueueService env)
      → AllSongs env (queue.iter q.queue_db)
      → AllSongs env (queue.iter (remove_entry o q).queue_db)
  remove_entry-AllSongs none q h = h
  remove_entry-AllSongs (some (k, _)) q h =
      rw queue.iter-remove (AllSongs-remove env k (queue.iter q.queue_db) h)

  pub remove_song-Inv :
      (song_id : Text) (q : QueueService env) → Inv q → Inv (remove_song song_id q)
  unfolding remove_song
  remove_song-Inv song_id q h = record {
    valid = remove_song-IsValid song_id q h.valid;
    songs = remove_entry-AllSongs (find_entry_by_song_id song_id q) q h.songs;
  }

  pub add_song-Inv :
      (song : Song) (q : QueueService env) → HasRoom 1 q → Inv q → Inv (add_song song q)
  unfolding add_song
  add_song-Inv song q room h = insert_song-Inv song q room h

  pub add_found-Inv :
      (o : Option Song) (song_id : Text) (q : QueueService env)
      → HasRoom 1 q
      → Inv q
      → Inv (add_found o song_id q)
  add_found-Inv none song_id q room h =
      elim (Bool-cases (starts_with (b'h' ∷ b't' ∷ b't' ∷ b'p' ∷ []) song_id)) [
        | inl e ↦ rw e (add_song-Inv (song_of_file song_id) q room h)
        | inr e ↦ rw e h
      ]
  add_found-Inv (some song) song_id q room h = add_song-Inv song q room h
