-- ===== src/Queue/Edit/Through.antt =====
-- Playing through a queue that was loaded by `replace_all`.
use rsplayer.Prelude.{
  sym, ◌∙◌, ℕ, ◌+◌, ◌≡◌, refl, Option, none, some, List, [], ◌∷◌, ◌++◌, arith, length, ap,
  append-nil, append_assoc, map, subst, inl,
}
use rsplayer.Store.Ordered.{IsSorted, lookup, lookup-split}
use rsplayer.Song.{Song, Bytes}
use rsplayer.Queue.Mode.{sequential}
use rsplayer.Queue.State.{
  Env, QueueService, get_priority_queue, save_priority_queue, get_current_song, with_statistics,
  set_current_song, get_current_or_first_song_key,
}
use rsplayer.Queue.State.Ids.{IsValid, HasRoom, SamePlayback}
use rsplayer.Queue.Edit.{add_song, add_songs, clear, replace_all}
use rsplayer.Queue.Edit.Append.{
  iter-insert_song, add_song-next, add_song-IsValid, clear-IsValid, next_id-clear,
  add_songs-SamePlayback,
}
use rsplayer.Queue.Edit.Upcoming.{play_next, current-song}
use rsplayer.Queue.Navigate.Priority.{AllGone}
use rsplayer.Queue.Navigate.Ordered.{At, next-InOrder}

-- The entries of songs under consecutive keys.
abbrev coded : Env → ℕ → List Song → List (ℕ × Bytes)
coded env n [] = []
coded env n (song ∷ songs) = (n, env.codec.to_json_string_bytes song) ∷ coded env (n + 1) songs

-- What is heard from the current song on, over `n` moves forward.
unfoldable pub play_from_current : {env : Env} → (ℕ → ℕ) → ℕ → QueueService env → List (Option Song)
unfolding play_next
play_from_current random_range n q =
    let (song, q') = get_current_song q in song ∷ play_next random_range n q'

module _ {env : Env} where
  open env use {queue, codec}

  iter-add_song :
      (song : Song) (q : QueueService env)
      → IsValid q
      → queue.iter (add_song song q).queue_db
        ≡ queue.iter q.queue_db ++ (q.next_id, codec.to_json_string_bytes song) ∷ []
  unfolding add_song
  iter-add_song song q h = iter-insert_song song q h

  iter-add_songs :
      (songs : List Song) (q : QueueService env)
      → HasRoom (length songs) q
      → IsValid q
      → queue.iter (add_songs songs q).queue_db ≡ queue.iter q.queue_db ++ coded env q.next_id songs
  unfolding add_songs
  iter-add_songs [] q room h = sym (append-nil (queue.iter q.queue_db))
  iter-add_songs (song ∷ songs) q room h =
      iter-add_songs songs (add_song song q) (omega (arith, add_song-next song q (omega arith)))
        (add_song-IsValid song q (omega arith) h)
      ∙ rw (add_song-next song q (omega arith), iter-add_song song q h)
          (append_assoc (queue.iter q.queue_db) ((q.next_id, codec.to_json_string_bytes song) ∷ [])
            (coded env (q.next_id + 1) songs))

  -- From a song on, the songs behind it are heard in their order.
  play_next-At :
      (random_range : ℕ → ℕ) (songs : List Song) (pre : List (ℕ × Bytes)) (k n : ℕ)
      (q : QueueService env)
      → q.playback_mode ≡ sequential
      → AllGone env q.queue_db (get_priority_queue q)
      → At pre k (coded env n songs) q
      → play_next random_range (length songs) q ≡ map (λ s. some (with_statistics env s)) songs
  unfolding play_next
  play_next-At random_range [] pre k n q mode gone h = refl
  play_next-At random_range (song ∷ songs) pre k n q mode gone h =
      let q' = set_current_song n (save_priority_queue [] q) in
      let v = codec.to_json_string_bytes song in
      let split : queue.iter q.queue_db
          ≡ (pre ++ (k, h.value) ∷ []) ++ (n, v) ∷ coded env (n + 1) songs =
        h.entries ∙ sym (append_assoc pre ((k, h.value) ∷ []) ((n, v) ∷ coded env (n + 1) songs)) in
      let at : At (pre ++ (k, h.value) ∷ []) n (coded env (n + 1) songs) q' = record {
        current = refl;
        value = v;
        entries = split;
      } in
      let sorted = subst IsSorted split (queue.iter-IsSorted q.queue_db) in
      let found : lookup n (queue.iter q.queue_db) ≡ some v =
        rw split (lookup-split n v (pre ++ (k, h.value) ∷ []) (coded env (n + 1) songs) sorted) in
      rw
        (
          next-InOrder random_range pre k n v (coded env (n + 1) songs) q (inl mode) gone h,
          current-song n song q' refl found,
        )
        (ap (λ l. some (with_statistics env song) ∷ l)
          (play_next-At random_range songs (pre ++ (k, h.value) ∷ []) n (n + 1) q' mode tt at))

  iter-clear_queue : (q : QueueService env) → queue.iter (clear q).queue_db ≡ []
  unfolding clear
  iter-clear_queue q = queue.iter-clear q.queue_db

  mode-clear : (q : QueueService env) → (clear q).playback_mode ≡ q.playback_mode
  unfolding clear
  mode-clear q = refl

  clear-none :
      (q : QueueService env)
      → ((clear q).status_db.current_song_key ≡ none) × ((clear q).status_db.priority_queue ≡ none)
  unfolding clear
  clear-none q = (refl, refl)

  iter-replace_all :
      (songs : List Song) (q : QueueService env)
      → HasRoom (length songs) q
      → IsValid q
      → queue.iter (replace_all songs q).queue_db ≡ coded env q.next_id songs
  unfolding replace_all
  iter-replace_all songs q room h =
      iter-add_songs songs (clear q) (omega (arith, next_id-clear q)) (clear-IsValid q h)
      ∙ rw (iter-clear_queue q, next_id-clear q)

  replace_all-SamePlayback :
      (songs : List Song) (q : QueueService env) → SamePlayback (clear q) (replace_all songs q)
  unfolding replace_all
  replace_all-SamePlayback songs q = add_songs-SamePlayback songs (clear q)

  first-key :
      (n : ℕ) (v : Bytes) (post : List (ℕ × Bytes)) (q : QueueService env)
      → q.status_db.current_song_key ≡ none
      → queue.iter q.queue_db ≡ (n, v) ∷ post
      → get_current_or_first_song_key q ≡ (some n, set_current_song n q)
  unfolding get_current_or_first_song_key
  first-key n v post q e f = ground (arith, queue.first_lem q.queue_db)

  -- With no current song, the first entry becomes the current one.
  first-song :
      (song : Song) (n : ℕ) (post : List (ℕ × Bytes)) (q : QueueService env)
      → q.status_db.current_song_key ≡ none
      → queue.iter q.queue_db ≡ (n, codec.to_json_string_bytes song) ∷ post
      → get_current_song q ≡ (some (with_statistics env song), set_current_song n q)
  unfolding get_current_song
  first-song song n post q e f =
      let found : lookup n (queue.iter q.queue_db) ≡ some (codec.to_json_string_bytes song) =
        ground (arith, f) in
      rw (
        first-key n (codec.to_json_string_bytes song) post q e f,
        queue.get_lem,
        found,
        codec.bytes_to_song-to_json_string_bytes,
      )

  -- In sequential mode, a valid queue into which at least one song is loaded plays exactly the
  -- loaded songs: the first is the current one, and each move forward brings the next.
  pub replace_all_plays :
      (random_range : ℕ → ℕ) (song : Song) (songs : List Song) (q : QueueService env)
      → q.playback_mode ≡ sequential
      → HasRoom (length (song ∷ songs)) q
      → IsValid q
      → play_from_current random_range (length songs) (replace_all (song ∷ songs) q)
        ≡ map (λ s. some (with_statistics env s)) (song ∷ songs)
  unfolding play_from_current
  replace_all_plays random_range song songs q mode room h =
      let r = replace_all (song ∷ songs) q in
      let e = iter-replace_all (song ∷ songs) q room h in
      let same = replace_all-SamePlayback (song ∷ songs) q in
      let no_current = same.same_current ∙ (clear-none q).0 in
      let no_priority = same.same_priority ∙ (clear-none q).1 in
      let r' = set_current_song q.next_id r in
      let at : At [] q.next_id (coded env (q.next_id + 1) songs) r' = record {
        current = refl;
        value = codec.to_json_string_bytes song;
        entries = e;
      } in
      let gone : AllGone env r'.queue_db (get_priority_queue r') = rw no_priority tt in
      rw (first-song song q.next_id (coded env (q.next_id + 1) songs) r no_current e) (
        ap (λ l. some (with_statistics env song) ∷ l)
          (play_next-At random_range songs [] q.next_id (q.next_id + 1) r'
            (same.same_mode ∙ mode-clear q ∙ mode) gone at))
