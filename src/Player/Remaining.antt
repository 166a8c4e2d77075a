-- ===== src/Player/Remaining.antt =====
-- How many songs a sequential queue can still play.
use rsplayer.Prelude.{
  ℕ, ◌+◌, ◌*◌, ◌≤◌, ◌<◌, ◌≡◌, ◌⊎◌, inl, inr, refl, sym, ◌∙◌, Option, none, some, List, [], ◌∷◌,
  false, arith, ltb, leb, length, filter, head?, Option-cases, map_option, and_then,
}
use rsplayer.Store.Ordered.{lookup}
use rsplayer.Song.{Bytes, Song}
use rsplayer.Queue.Mode.{sequential}
use rsplayer.Queue.State.{
  Env, QueueService, get_priority_queue, save_priority_queue, get_current_or_first_song_key,
  get_current_song,
}
use rsplayer.Queue.Navigate.{pop_priority, advance, move_current_to_next_song}

abbrev count_from : ℕ → List (ℕ × Bytes) → ℕ
count_from k l = length (filter (λ e. leb k e.0) l)

count_from_le : (k : ℕ) (l : List (ℕ × Bytes)) → count_from k l ≤ length l
count_from_le k [] = omega arith
count_from_le k (e ∷ l) = ground (arith, count_from_le k l)

count_from_pos :
    (k : ℕ) (v : Bytes) (l : List (ℕ × Bytes)) → lookup k l ≡ some v → 1 ≤ count_from k l
count_from_pos k v [] h = absurd (ground arith)
count_from_pos k v ((j, w) ∷ l) h = ground (arith, count_from_pos k v l)

count_after :
    (k j : ℕ) (l : List (ℕ × Bytes)) → k < j → count_from j l ≤ length (filter (λ e. ltb k e.0) l)
count_after k j [] h = omega arith
count_after k j ((i, w) ∷ l) h = ground (arith, count_after k j l h)

count_step :
    (k : ℕ) (v : Bytes) (l : List (ℕ × Bytes))
    → lookup k l ≡ some v
    → length (filter (λ e. ltb k e.0) l) < count_from k l
count_step k v [] h = absurd (ground arith)
count_step k v ((i, w) ∷ l) h = ground (arith, count_step k v l, count_le k l)
  where
    count_le : (k : ℕ) (l : List (ℕ × Bytes)) → length (filter (λ e. ltb k e.0) l) ≤ count_from k l
    count_le k [] = omega arith
    count_le k ((i, w) ∷ l) = ground (arith, count_le k l)

head-after :
    (k j : ℕ) (w : Bytes) (l : List (ℕ × Bytes))
    → head? (filter (λ e. ltb k e.0) l) ≡ some (j, w)
    → k < j
head-after k j w [] h = absurd (ground arith)
head-after k j w ((i, u) ∷ l) h = ground (arith, head-after k j w l)

mul_room : (a b n : ℕ) → a < b → a * n + n ≤ b * n
mul_room a b n h = grind arith

-- With `p` queued-next songs of a queue of `n`.
fewer : (p' p n c' c : ℕ) → p' < p → c' ≤ n → 1 ≤ c → p' * n + c' < p * n + c
fewer p' p n c' c less fits here = omega (arith, mul_room p' p n less)

pop_priority-length :
    (env : Env) (db : env.queue.Store) (pq : List ℕ) (key : ℕ)
    → (pop_priority env db pq).0 ≡ some key
    → length (pop_priority env db pq).1 < length pq
unfolding pop_priority
pop_priority-length env db [] key h = absurd (ground arith)
pop_priority-length env db (j ∷ pq) key h = ground (arith, pop_priority-length env db pq key)

pop_priority-none :
    (env : Env) (db : env.queue.Store) (pq : List ℕ)
    → (pop_priority env db pq).0 ≡ none
    → (pop_priority env db pq).1 ≡ []
unfolding pop_priority
pop_priority-none env db [] h = refl
pop_priority-none env db (j ∷ pq) h = ground (arith, pop_priority-none env db pq)

abbrev songs_left : Option ℕ → List (ℕ × Bytes) → ℕ
songs_left none l = length l
songs_left (some k) l = count_from k l

found_through :
    (o : Option ℕ) (f : ℕ → Option Bytes) (g : Bytes → Option Song) (h : Song → Song) (song : Song)
    → map_option h (and_then (and_then o f) g) ≡ some song
    → (k : ℕ) × (v : Bytes) × (o ≡ some k) × (f k ≡ some v)
found_through none f g h song e = absurd (cc)
found_through (some k) f g h song e = elim (Option-cases (f k)) [
  | inl n ↦ absurd (ground (arith, n, e))
  | inr (v, p) ↦ (k, v, refl, p)
]

module _ {env : Env} where
  open env use {queue}

  -- How many songs can still be played: from the current one on, and, behind each song that was
  -- queued next, at most the whole queue.
  abbrev pub remaining : QueueService env → ℕ
  remaining q =
      length (get_priority_queue q) * length (queue.iter q.queue_db)
      + songs_left q.status_db.current_song_key (queue.iter q.queue_db)

  -- The current song is in the queue.
  abbrev pub IsThere : QueueService env → Type 0
  IsThere q =
      (k : ℕ) × (v : Bytes) × (q.status_db.current_song_key ≡ some k)
      × (lookup k (queue.iter q.queue_db) ≡ some v)

  -- Without a queued-next song, the sequential move.
  advance-remaining :
      (random_range : ℕ → ℕ) (q : QueueService env) (k : ℕ)
      → q.playback_mode ≡ sequential
      → q.status_db.current_song_key ≡ some k
      → get_priority_queue q ≡ []
      → let (moved, q') = advance random_range q.playback_mode q in
        (q'.playback_mode ≡ sequential)
        × ((moved ≡ false)
            ⊎ (remaining q' ≤ length (filter (λ e. ltb k e.0) (queue.iter q.queue_db))))
  unfolding advance get_current_or_first_song_key
  advance-remaining random_range q k mode current gone =
      elim (Option-cases (head? (filter (λ e. ltb k e.0) (queue.iter q.queue_db)))) [
        | inl e ↦ rw (mode, current, queue.range_after_lem, e) (refl, inl refl)
        | inr ((j, w), e) ↦
            let behind = count_after k j (queue.iter q.queue_db) (head-after k j w _ e) in
            rw (mode, current, queue.range_after_lem, e)
              (refl, inr (rw gone (omega (arith, behind))))
      ]

  -- A move to the next song leaves fewer songs.
  pub next-remaining :
      (random_range : ℕ → ℕ) (q : QueueService env)
      → q.playback_mode ≡ sequential
      → IsThere q
      → let (moved, q') = move_current_to_next_song random_range q in
        (q'.playback_mode ≡ sequential) × ((moved ≡ false) ⊎ (remaining q' < remaining q))
  unfolding move_current_to_next_song
  next-remaining random_range q mode (k, v, current, found) =
      let here : songs_left q.status_db.current_song_key (queue.iter q.queue_db)
          ≡ count_from k (queue.iter q.queue_db) =
        rw current refl in
      elim (Option-cases (pop_priority env q.queue_db (get_priority_queue q)).0) [
        | inl e ↦
            let (mode', moves) =
              advance-remaining random_range (save_priority_queue [] q) k mode current refl in
            rw (e, pop_priority-none env q.queue_db _ e)
              (
                mode',
                elim moves [
                  | inl stays ↦ inl stays
                  | inr less ↦
                      inr (omega (arith, less, here, count_step k v (queue.iter q.queue_db) found))
                ],
              )
        | inr (key, e) ↦ rw e (
          mode,
          inr (
              rw current (
                fewer _ _ _ _ _ (pop_priority-length env q.queue_db _ key e) (count_from_le key _)
                  (count_from_pos k v _ found))),
        )
      ]

  first-remaining :
      (q : QueueService env)
      → let (current, q') = get_current_or_first_song_key q in
        (q'.status_db.current_song_key ≡ current)
        × (remaining q' ≤ remaining q)
        × (q'.playback_mode ≡ q.playback_mode)
  unfolding get_current_or_first_song_key
  first-remaining q = elim (Option-cases q.status_db.current_song_key) [
    | inl e ↦ elim (Option-cases (queue.first_key_value q.queue_db)) [
      | inl f ↦ rw (get_current_or_first_song_key, e, f) (e, rw e (omega arith), refl)
      | inr ((k, v), f) ↦
          let fits = count_from_le k (queue.iter q.queue_db) in
          rw (get_current_or_first_song_key, e, f) (refl, omega (arith, fits), refl)
    ]
    | inr (k, e) ↦ rw (get_current_or_first_song_key, e) (e, rw e (omega arith), refl)
  ]

  -- A song that is found is in the queue, and looking for it changes nothing else.
  pub song-IsThere :
      (q : QueueService env) (song : Song)
      → (get_current_song q).0 ≡ some song
      → let q' = (get_current_song q).1 in
        IsThere q' × (remaining q' ≤ remaining q) × (q'.playback_mode ≡ q.playback_mode)
  unfolding get_current_song
  song-IsThere q song h =
      let (same, less, mode) = first-remaining q in
      let (k, v, is_current, found) = found_through _ _ _ _ song h in
      ((k, v, same ∙ is_current, sym (queue.get_lem _ k) ∙ found), less, mode)

  pub playback_mode-song :
      (q : QueueService env) → (get_current_song q).1.playback_mode ≡ q.playback_mode
  unfolding get_current_song
  playback_mode-song q = (first-remaining q).2
