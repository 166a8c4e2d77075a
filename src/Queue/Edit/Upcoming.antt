-- ===== src/Queue/Edit/Upcoming.antt =====
-- Playing the songs that were added after the current one.
use rsplayer.Prelude.{
  ◌∙◌, ℕ, zero, suc, ◌+◌, ◌≡◌, ◌<◌, refl, Option, none, some, List, [], ◌∷◌, ◌++◌, arith, length,
  ap, reverse, contains, false, true, position, remove_at, map, subst,
}
use mathlib.Core.List.{reverse-append}
use rsplayer.Store.Ordered.{lookup, lookup-append_some, lookup-Below_append}
use rsplayer.Song.{Song, Bytes}
use rsplayer.Queue.State.{
  Env, QueueService, promote, get_priority_queue, save_priority_queue, get_current_song,
  with_statistics, set_current_song,
}
use rsplayer.Queue.State.Ids.{IsValid, HasRoom}
use rsplayer.Queue.Edit.{insert_song, insert_songs, promote_all, add_songs_after_current}
use rsplayer.Queue.Edit.Append.{
  insert_song-id, iter-insert_song, insert_song-next, insert_song-IsValid,
}
use rsplayer.Queue.Navigate.Priority.{pop_priority-live}
use rsplayer.Queue.Navigate.{pop_priority, move_current_to_next_song}

-- `count` consecutive keys.
abbrev pub keys_from : ℕ → ℕ → List ℕ
keys_from n zero = []
keys_from n (suc count) = n ∷ keys_from (n + 1) count

abbrev drop_key : ℕ → List ℕ → List ℕ
drop_key k pq = elim (position k pq) [ none ↦ pq | some pos ↦ remove_at pos pq ]

drop_key-append :
    (k : ℕ) (ks pq : List ℕ) → contains k ks ≡ false → drop_key k (ks ++ pq) ≡ ks ++ drop_key k pq
drop_key-append k [] pq h = refl
drop_key-append k (j ∷ ks) pq h = ground (arith, drop_key-append k ks pq)

promote_all-append :
    (xs ys pq : List ℕ) → promote_all (xs ++ ys) pq ≡ promote_all ys (promote_all xs pq)
unfolding promote_all
promote_all-append [] ys pq = refl
promote_all-append (x ∷ xs) ys pq = promote_all-append xs ys (promote x pq)

keys_from-fresh : (k n count : ℕ) → k < n → contains k (keys_from n count) ≡ false
keys_from-fresh k n zero h = refl
keys_from-fresh k n (suc count) h = ground (arith, keys_from-fresh k (n + 1) count)

-- The new keys stand in front of the priority queue in the order of their songs.
pub promote_all-keys_from :
    (n count : ℕ) (pq : List ℕ)
    → (rest : List ℕ) × (promote_all (reverse (keys_from n count)) pq ≡ keys_from n count ++ rest)
unfolding promote_all
promote_all-keys_from n zero pq = (pq, refl)
promote_all-keys_from n (suc count) pq =
    let (rest, e) = promote_all-keys_from (n + 1) count pq in
    (
      drop_key n rest,
      ap (λ l. promote_all l pq) (reverse-append (n ∷ []) (keys_from (n + 1) count))
          ∙ promote_all-append (reverse (keys_from (n + 1) count)) (n ∷ []) pq
          ∙ ap (promote n) e
          ∙ ap (λ l. n ∷ l)
              (drop_key-append n (keys_from (n + 1) count) rest
                (keys_from-fresh n (n + 1) count (omega arith))),
    )

-- The entries from key `n` on are those of the songs.
abbrev pub Stored : Env → ℕ → List Song → List (ℕ × Bytes) → Type 0
Stored env n [] l = Unit
Stored env n (song ∷ songs) l =
    (lookup n l ≡ some (env.codec.to_json_string_bytes song)) × Stored env (n + 1) songs l

-- What is heard in `n` moves forward: the current song after each.
unfoldable pub play_next : {env : Env} → (ℕ → ℕ) → ℕ → QueueService env → List (Option Song)
play_next random_range zero q = []
play_next random_range (suc n) q =
    let (song, q') = get_current_song (move_current_to_next_song random_range q).1 in
    song ∷ play_next random_range n q'

module _ {env : Env} where
  open env use {queue, codec}

  lookup-insert_songs :
      (k : ℕ) (v : Bytes) (songs : List Song) (q : QueueService env)
      → HasRoom (length songs) q
      → IsValid q
      → lookup k (queue.iter q.queue_db) ≡ some v
      → lookup k (queue.iter (insert_songs songs q).1.queue_db) ≡ some v
  unfolding insert_songs
  lookup-insert_songs k v [] q room h e = e
  lookup-insert_songs k v (song ∷ songs) q room h e =
      lookup-insert_songs k v songs (insert_song song q).1
        (omega (arith, insert_song-next song q (omega arith)))
        (insert_song-IsValid song q (omega arith) h)
        (rw (iter-insert_song song q h) (
          lookup-append_some k v (queue.iter q.queue_db)
            ((q.next_id, codec.to_json_string_bytes song) ∷ []) e))

  pub insert_songs-keys :
      (songs : List Song) (q : QueueService env)
      → HasRoom (length songs) q
      → (insert_songs songs q).0 ≡ keys_from q.next_id (length songs)
  unfolding insert_songs
  insert_songs-keys [] q room = refl
  insert_songs-keys (song ∷ songs) q room = cc (
    insert_song-id song q,
    insert_song-next song q (omega arith),
    insert_songs-keys songs (insert_song song q).1
        (omega (arith, insert_song-next song q (omega arith))),
  )

  pub insert_songs-Stored :
      (songs : List Song) (q : QueueService env)
      → HasRoom (length songs) q
      → IsValid q
      → Stored env q.next_id songs (queue.iter (insert_songs songs q).1.queue_db)
  unfolding insert_songs
  insert_songs-Stored [] q room h = tt
  insert_songs-Stored (song ∷ songs) q room h =
      let room' : HasRoom (length songs) (insert_song song q).1 =
        omega (arith, insert_song-next song q (omega arith)) in
      let valid = insert_song-IsValid song q (omega arith) h in
      (
        lookup-insert_songs q.next_id (codec.to_json_string_bytes song) songs (insert_song song q).1
            room' valid
            (rw (iter-insert_song song q h) (
              lookup-Below_append q.next_id (codec.to_json_string_bytes song)
                (queue.iter q.queue_db) h.keys_used)),
        subst
            (λ n.
              Stored env n songs
                (queue.iter (insert_songs songs (insert_song song q).1).1.queue_db))
            (insert_song-next song q (omega arith))
            (insert_songs-Stored songs (insert_song song q).1 room' valid),
      )

  -- A priority entry whose song is in the queue is the next current song.
  pub next-priority :
      (random_range : ℕ → ℕ) (n : ℕ) (pq : List ℕ) (v : Bytes) (q : QueueService env)
      → get_priority_queue q ≡ n ∷ pq
      → lookup n (queue.iter q.queue_db) ≡ some v
      → move_current_to_next_song random_range q
        ≡ (true, set_current_song n (save_priority_queue pq q))
  unfolding move_current_to_next_song
  next-priority random_range n pq v q e f =
      let found : pop_priority env q.queue_db (get_priority_queue q) ≡ (some n, pq) =
        rw e (pop_priority-live env n pq v q.queue_db f) in
      rw found

  pub current-song :
      (n : ℕ) (song : Song) (q : QueueService env)
      → q.status_db.current_song_key ≡ some n
      → lookup n (queue.iter q.queue_db) ≡ some (codec.to_json_string_bytes song)
      → get_current_song q ≡ (some (with_statistics env song), q)
  unfolding get_current_song
  current-song n song q e f = rw (e, queue.get_lem, f, codec.bytes_to_song-to_json_string_bytes)

  pub play_next-Stored :
      (random_range : ℕ → ℕ) (songs : List Song) (n : ℕ) (rest : List ℕ) (q : QueueService env)
      → get_priority_queue q ≡ keys_from n (length songs) ++ rest
      → Stored env n songs (queue.iter q.queue_db)
      → play_next random_range (length songs) q ≡ map (λ s. some (with_statistics env s)) songs
  unfolding play_next
  play_next-Stored random_range [] n rest q e h = refl
  play_next-Stored random_range (song ∷ songs) n rest q e h =
      rw
        (
          next-priority random_range n (keys_from (n + 1) (length songs) ++ rest)
              (codec.to_json_string_bytes song) q e h.0,
          current-song n song
              (set_current_song n
                (save_priority_queue (keys_from (n + 1) (length songs) ++ rest) q))
              refl h.0,
        )
        (ap (λ l. some (with_statistics env song) ∷ l)
          (play_next-Stored random_range songs (n + 1) rest
            (set_current_song n (save_priority_queue (keys_from (n + 1) (length songs) ++ rest) q))
            refl h.1))

  -- From a valid queue with room for the ids: adding songs after the current one gives back the key
  -- of the first of them, and as many moves forward as there are songs play exactly these songs, in
  -- their order, whatever the mode, the random generator and the earlier priority queue.
  pub added_songs_play_next :
      (random_range : ℕ → ℕ) (song : Song) (songs : List Song) (q : QueueService env)
      → HasRoom (length (song ∷ songs)) q
      → IsValid q
      → let (first, q') = add_songs_after_current (song ∷ songs) q in
        (first ≡ some q.next_id)
        × (play_next random_range (length (song ∷ songs)) q'
            ≡ map (λ s. some (with_statistics env s)) (song ∷ songs))
  unfolding add_songs_after_current
  added_songs_play_next random_range song songs q room h =
      let r = (insert_songs (song ∷ songs) q).1 in
      let new_keys = keys_from q.next_id (length (song ∷ songs)) in
      let (rest, e) =
        promote_all-keys_from q.next_id (length (song ∷ songs)) (get_priority_queue r) in
      rw (insert_songs-keys (song ∷ songs) q room) (
        refl,
        play_next-Stored random_range (song ∷ songs) q.next_id rest
            (save_priority_queue (promote_all (reverse new_keys) (get_priority_queue r)) r) e
            (insert_songs-Stored (song ∷ songs) q room h),
      )
