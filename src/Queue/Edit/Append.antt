-- ===== src/Queue/Edit/Append.antt =====
-- What adding and replacing do to the songs of the queue.
use rsplayer.Prelude.{
  sym, ◌∙◌, ℕ, ◌+◌, ◌≡◌, ◌<◌, refl, Option, none, some, List, [], ◌∷◌, ◌++◌, arith, length,
  filter_map-append, append-nil, append_assoc,
}
use rsplayer.Store.Ordered.{insert-Below, insert-Below_append, remove-Below, values-append}
use rsplayer.Song.{Song, Bytes}
use rsplayer.Queue.State.{Env, QueueService, generate_id}
use rsplayer.Queue.State.Ids.{
  IsValid, HasRoom, SamePlayback, SamePlayback-refl, SamePlayback-trans, generate_id-SamePlayback,
  generate_id-id, generate_id-entries, generate_id-next, generate_id-IsValid,
}
use rsplayer.Queue.Edit.{
  find_entry_by_song_id, remove_entry, insert_song, add_song, add_songs, clear, replace_all,
  remove_song,
}
use rsplayer.Queue.Pages.{get_all_songs}

module _ {env : Env} where
  open env use {queue, codec}

  -- The entry of a new song goes behind all others, at the id that the counter had.
  pub iter-insert_song :
      (song : Song) (q : QueueService env)
      → IsValid q
      → queue.iter (insert_song song q).1.queue_db
        ≡ queue.iter q.queue_db ++ (q.next_id, codec.to_json_string_bytes song) ∷ []
  unfolding insert_song
  iter-insert_song song q h = rw (
    queue.iter-insert,
    generate_id-entries,
    generate_id-id,
    insert-Below_append q.next_id (codec.to_json_string_bytes song) (queue.iter q.queue_db)
        h.keys_used,
  )

  pub insert_song-id : (song : Song) (q : QueueService env) → (insert_song song q).0 ≡ q.next_id
  unfolding insert_song
  insert_song-id song q = generate_id-id q

  pub insert_song-next :
      (song : Song) (q : QueueService env)
      → HasRoom 1 q
      → (insert_song song q).1.next_id ≡ q.next_id + 1
  unfolding insert_song
  insert_song-next song q room = generate_id-next q room

  pub insert_song-IsValid :
      (song : Song) (q : QueueService env)
      → HasRoom 1 q
      → IsValid q
      → IsValid (insert_song song q).1
  unfolding insert_song
  insert_song-IsValid song q room h =
      let g = generate_id-IsValid q room h in
      let id_used : (generate_id q).0 < (generate_id q).1.next_id =
        omega (arith, generate_id-id q, generate_id-next q room) in
      record {
        keys_used = rw queue.iter-insert (
            insert-Below (generate_id q).1.next_id (generate_id q).0
              (codec.to_json_string_bytes song) (queue.iter (generate_id q).1.queue_db) id_used
              g.keys_used);
        id_reserved = g.id_reserved;
        aligned = g.aligned;
      }

  pub get_all_songs-add_song :
      (song : Song) (q : QueueService env)
      → IsValid q
      → get_all_songs (add_song song q) ≡ get_all_songs q ++ song ∷ []
  unfolding get_all_songs add_song
  get_all_songs-add_song song q h = rw (
    iter-insert_song song q h,
    values-append,
    filter_map-append,
    codec.bytes_to_song-to_json_string_bytes,
  )

  pub add_song-IsValid :
      (song : Song) (q : QueueService env) → HasRoom 1 q → IsValid q → IsValid (add_song song q)
  unfolding add_song
  add_song-IsValid song q room h = insert_song-IsValid song q room h

  pub add_song-next :
      (song : Song) (q : QueueService env) → HasRoom 1 q → (add_song song q).next_id ≡ q.next_id + 1
  unfolding add_song
  add_song-next song q room = insert_song-next song q room

  pub add_songs-IsValid :
      (songs : List Song) (q : QueueService env)
      → HasRoom (length songs) q
      → IsValid q
      → IsValid (add_songs songs q)
  unfolding add_songs
  add_songs-IsValid [] q room h = h
  add_songs-IsValid (song ∷ songs) q room h =
      add_songs-IsValid songs (add_song song q) (omega (arith, add_song-next song q (omega arith)))
        (add_song-IsValid song q (omega arith) h)

  -- Adding songs appends them, in their order, behind the songs that are there.
  pub get_all_songs-add_songs :
      (songs : List Song) (q : QueueService env)
      → HasRoom (length songs) q
      → IsValid q
      → get_all_songs (add_songs songs q) ≡ get_all_songs q ++ songs
  unfolding add_songs
  get_all_songs-add_songs [] q room h = sym (append-nil (get_all_songs q))
  get_all_songs-add_songs (song ∷ songs) q room h =
      get_all_songs-add_songs songs (add_song song q)
        (omega (arith, add_song-next song q (omega arith)))
        (add_song-IsValid song q (omega arith) h)
      ∙ rw (get_all_songs-add_song song q h) (append_assoc (get_all_songs q) (song ∷ []) songs)

  pub clear-IsValid : (q : QueueService env) → IsValid q → IsValid (clear q)
  unfolding clear
  clear-IsValid q h = record {
    keys_used = rw queue.iter-clear tt;
    id_reserved = h.id_reserved;
    aligned = h.aligned;
  }

  pub get_all_songs-clear : (q : QueueService env) → get_all_songs (clear q) ≡ []
  unfolding get_all_songs clear
  get_all_songs-clear q = rw queue.iter-clear

  pub next_id-clear : (q : QueueService env) → (clear q).next_id ≡ q.next_id
  unfolding clear
  next_id-clear q = refl

  pub add_songs-SamePlayback :
      (songs : List Song) (q : QueueService env) → SamePlayback q (add_songs songs q)
  unfolding add_songs add_song insert_song
  add_songs-SamePlayback [] q = SamePlayback-refl q
  add_songs-SamePlayback (song ∷ songs) q =
      let g = generate_id-SamePlayback q in
      SamePlayback-trans q (insert_song song q).1 (add_songs songs (insert_song song q).1)
        (record {
          same_current = g.same_current;
          same_priority = g.same_priority;
          same_mode = g.same_mode;
          same_played = g.same_played;
          same_index = g.same_index;
        })
        (add_songs-SamePlayback songs (insert_song song q).1)

  abbrev pub IsUnstarted : QueueService env → Type 0
  IsUnstarted q =
      (q.status_db.current_song_key ≡ none)
      × (q.status_db.priority_queue ≡ none)
      × (q.random_played_keys ≡ [])
      × (q.random_history_index ≡ 0)

  clear-IsUnstarted : (q : QueueService env) → IsUnstarted (clear q)
  unfolding clear
  clear-IsUnstarted q = (refl, refl, refl, refl)

  SamePlayback-IsUnstarted :
      (q r : QueueService env) → SamePlayback q r → IsUnstarted q → IsUnstarted r
  SamePlayback-IsUnstarted q r e h = ground arith

  -- After `replace_all` the queue holds exactly the given songs, in their order; there is no
  -- current song, the priority queue and the random state are empty, and the invariant holds.
  pub replace_all_lem :
      (songs : List Song) (q : QueueService env)
      → HasRoom (length songs) q
      → IsValid q
      → (get_all_songs (replace_all songs q) ≡ songs)
        × IsUnstarted (replace_all songs q)
        × IsValid (replace_all songs q)
  unfolding replace_all
  replace_all_lem songs q room h =
      let room' : HasRoom (length songs) (clear q) = omega (arith, next_id-clear q) in
      (
        rw (
          get_all_songs-add_songs songs (clear q) room' (clear-IsValid q h),
          get_all_songs-clear q,
        ),
        SamePlayback-IsUnstarted (clear q) (add_songs songs (clear q))
            (add_songs-SamePlayback songs (clear q)) (clear-IsUnstarted q),
        add_songs-IsValid songs (clear q) room' (clear-IsValid q h),
      )

  remove_entry-IsValid :
      (o : Option (ℕ × Bytes)) (q : QueueService env) → IsValid q → IsValid (remove_entry o q)
  remove_entry-IsValid none q h = h
  remove_entry-IsValid (some (key, _)) q h = record {
    keys_used =
        rw queue.iter-remove (remove-Below q.next_id key (queue.iter q.queue_db) h.keys_used);
    id_reserved = h.id_reserved;
    aligned = h.aligned;
  }

  pub remove_song-IsValid :
      (song_id : List ℕ) (q : QueueService env) → IsValid q → IsValid (remove_song song_id q)
  unfolding remove_song
  remove_song-IsValid song_id q h = remove_entry-IsValid (find_entry_by_song_id song_id q) q h
