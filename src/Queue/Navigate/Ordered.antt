-- ===== src/Queue/Navigate/Ordered.antt =====
-- Moves in the order of the queue: the sequential and the two loop modes.
use rsplayer.Prelude.{
  ℕ, ◌≡◌, refl, none, some, List, [], ◌∷◌, ◌++◌, true, false, ap, head?, last?, if◌then◌else◌,
  append_assoc, last?-append, ◌⊎◌, inl, inr, subst, ◌∙◌, sym, Bool,
}
use rsplayer.Store.Ordered.{IsSorted, filter_after-split, filter_before-split}
use rsplayer.Song.{Bytes}
use rsplayer.Queue.Mode.{sequential, loop_queue}
use rsplayer.Queue.State.{
  Env, QueueService, get_priority_queue, save_priority_queue, set_current_song,
  get_current_or_first_song_key,
}
use rsplayer.Queue.Navigate.{
  move_to_entry, or_else, move_current_to_next_song, move_current_to_previous_song, advance,
  step_back, move_back,
}
use rsplayer.Queue.Navigate.Priority.{AllGone, pop_priority-AllGone}

-- The current song is at a key of the queue, with these entries before and behind it.
pub record At {env : Env} (pre : List (ℕ × Bytes)) (k : ℕ) (post : List (ℕ × Bytes))
    (q : QueueService env) : Type 0 where
  pub current : q.status_db.current_song_key ≡ some k
  pub value : Bytes
  pub entries : env.queue.iter q.queue_db ≡ pre ++ (k, value) ∷ post

-- In queue-loop mode some entry is always found.
wrap-moves :
    {env : Env} (q : QueueService env) (pre : List (ℕ × Bytes)) (k : ℕ) (v : Bytes)
    (post : List (ℕ × Bytes))
    → (move_to_entry (or_else (head? post) (head? (pre ++ (k, v) ∷ post))) q).0 ≡ true
wrap-moves q [] k v [] = refl
wrap-moves q (e ∷ pre) k v [] = refl
wrap-moves q [] k v (e ∷ post) = refl
wrap-moves q (d ∷ pre) k v (e ∷ post) = refl

module _ {env : Env} where
  open env use {queue}

  pub current-At :
      (pre : List (ℕ × Bytes)) (k : ℕ) (post : List (ℕ × Bytes)) (q : QueueService env)
      → At pre k post q
      → get_current_or_first_song_key q ≡ (some k, q)
  unfolding get_current_or_first_song_key
  current-At pre k post q h = rw h.current

  range_after-At :
      (pre : List (ℕ × Bytes)) (k : ℕ) (post : List (ℕ × Bytes)) (q : QueueService env)
      → At pre k post q
      → queue.range_after q.queue_db k ≡ post
  range_after-At pre k post q h =
      rw (queue.range_after_lem, h.entries)
        (filter_after-split k h.value pre post
          (subst IsSorted h.entries (queue.iter-IsSorted q.queue_db)))

  range_before-At :
      (pre : List (ℕ × Bytes)) (k : ℕ) (post : List (ℕ × Bytes)) (q : QueueService env)
      → At pre k post q
      → queue.range_before q.queue_db k ≡ pre
  range_before-At pre k post q h =
      rw (queue.range_before_lem, h.entries)
        (filter_before-split k h.value pre post
          (subst IsSorted h.entries (queue.iter-IsSorted q.queue_db)))

  -- With no live priority entry the next move is the mode's.
  pub next-advance :
      (random_range : ℕ → ℕ) (q : QueueService env)
      → AllGone env q.queue_db (get_priority_queue q)
      → move_current_to_next_song random_range q
        ≡ advance random_range q.playback_mode (save_priority_queue [] q)
  unfolding move_current_to_next_song
  next-advance random_range q gone =
      rw ((pop_priority-AllGone env q.queue_db (get_priority_queue q)).0 gone)

  At-save :
      (pq : List ℕ) (pre : List (ℕ × Bytes)) (k : ℕ) (post : List (ℕ × Bytes))
      (q : QueueService env)
      → At pre k post q
      → At pre k post (save_priority_queue pq q)
  At-save pq pre k post q h = record { current = h.current; value = h.value; entries = h.entries }

  advance-sequential :
      (random_range : ℕ → ℕ) (pre : List (ℕ × Bytes)) (k : ℕ) (post : List (ℕ × Bytes))
      (q : QueueService env)
      → At pre k post q
      → advance random_range sequential q ≡ move_to_entry (head? post) q
  unfolding advance
  advance-sequential random_range pre k post q h =
      rw (current-At pre k post q h, range_after-At pre k post q h)

  advance-loop_queue :
      (random_range : ℕ → ℕ) (pre : List (ℕ × Bytes)) (k : ℕ) (post : List (ℕ × Bytes))
      (q : QueueService env)
      → At pre k post q
      → advance random_range loop_queue q
        ≡ move_to_entry (or_else (head? post) (head? (queue.iter q.queue_db))) q
  unfolding advance
  advance-loop_queue random_range pre k post q h =
      rw (current-At pre k post q h, range_after-At pre k post q h, queue.first_lem)

  step_back-At :
      (wraps : Bool) (pre : List (ℕ × Bytes)) (k : ℕ) (post : List (ℕ × Bytes))
      (q : QueueService env)
      → At pre k post q
      → step_back wraps q
        ≡ move_to_entry
            (or_else (last? pre) (if wraps then last? (queue.iter q.queue_db) else none))
            q
  unfolding step_back
  step_back-At wraps pre k post q h =
      rw (current-At pre k post q h, range_before-At pre k post q h, queue.last_lem)

  -- In sequential mode, with no live priority entry: the song behind the current one becomes
  -- current; at the last song the move is refused and the current song stays.
  pub next-sequential :
      (random_range : ℕ → ℕ) (pre : List (ℕ × Bytes)) (k : ℕ) (post : List (ℕ × Bytes))
      (q : QueueService env)
      → q.playback_mode ≡ sequential
      → AllGone env q.queue_db (get_priority_queue q)
      → At pre k post q
      → move_current_to_next_song random_range q
        ≡ move_to_entry (head? post) (save_priority_queue [] q)
  next-sequential random_range pre k post q mode gone h =
      next-advance random_range q gone
      ∙ ap (λ m. advance random_range m (save_priority_queue [] q)) mode
      ∙ advance-sequential random_range pre k post (save_priority_queue [] q)
          (At-save [] pre k post q h)

  -- In queue-loop mode, with no live priority entry: the same, and behind the last song comes the
  -- first, so the move is never refused.
  pub next-loop_queue :
      (random_range : ℕ → ℕ) (pre : List (ℕ × Bytes)) (k : ℕ) (post : List (ℕ × Bytes))
      (q : QueueService env)
      → q.playback_mode ≡ loop_queue
      → AllGone env q.queue_db (get_priority_queue q)
      → At pre k post q
      → (move_current_to_next_song random_range q
          ≡ move_to_entry
              (or_else (head? post) (head? (queue.iter q.queue_db)))
              (save_priority_queue [] q))
        × ((move_current_to_next_song random_range q).0 ≡ true)
  next-loop_queue random_range pre k post q mode gone h =
      let e =
        next-advance random_range q gone
        ∙ ap (λ m. advance random_range m (save_priority_queue [] q)) mode
        ∙ advance-loop_queue random_range pre k post (save_priority_queue [] q)
            (At-save [] pre k post q h) in
      (e, ap (λ r. r.0) e ∙ rw h.entries (wrap-moves (save_priority_queue [] q) pre k h.value post))

  abbrev pub InOrder : QueueService env → Type 0
  InOrder q = (q.playback_mode ≡ sequential) ⊎ (q.playback_mode ≡ loop_queue)

  pub next-InOrder :
      (random_range : ℕ → ℕ) (pre : List (ℕ × Bytes)) (k j : ℕ) (v : Bytes)
      (post : List (ℕ × Bytes)) (q : QueueService env)
      → InOrder q
      → AllGone env q.queue_db (get_priority_queue q)
      → At pre k ((j, v) ∷ post) q
      → move_current_to_next_song random_range q
        ≡ (true, set_current_song j (save_priority_queue [] q))
  next-InOrder random_range pre k j v post q (inl m) gone h =
      next-sequential random_range pre k ((j, v) ∷ post) q m gone h
  next-InOrder random_range pre k j v post q (inr m) gone h =
      (next-loop_queue random_range pre k ((j, v) ∷ post) q m gone h).0

  pub previous-back :
      (q : QueueService env) → move_current_to_previous_song q ≡ move_back q.playback_mode q
  unfolding move_current_to_previous_song
  previous-back q = refl

  previous-InOrder :
      (pre : List (ℕ × Bytes)) (k : ℕ) (w : Bytes) (j : ℕ) (post : List (ℕ × Bytes))
      (q : QueueService env)
      → InOrder q
      → At (pre ++ (k, w) ∷ []) j post q
      → move_current_to_previous_song q ≡ (true, set_current_song k q)
  unfolding move_back
  previous-InOrder pre k w j post q (inl m) h =
      previous-back q
      ∙ ap (λ m. move_back m q) m
      ∙ step_back-At false (pre ++ (k, w) ∷ []) j post q h
      ∙ rw last?-append
  previous-InOrder pre k w j post q (inr m) h =
      previous-back q
      ∙ ap (λ m. move_back m q) m
      ∙ step_back-At true (pre ++ (k, w) ∷ []) j post q h
      ∙ rw last?-append

  -- The move forward to the next song of the queue is undone by the move back, in the
  -- sequential and the queue-loop mode: from the key `k`, with the entry `(j, v)` right behind it and
  -- no live priority entry, a move forward and a move back make `k` current again.
  pub next-previous :
      (random_range : ℕ → ℕ) (pre : List (ℕ × Bytes)) (k j : ℕ) (v : Bytes)
      (post : List (ℕ × Bytes)) (q : QueueService env)
      → (q.playback_mode ≡ sequential) ⊎ (q.playback_mode ≡ loop_queue)
      → AllGone env q.queue_db (get_priority_queue q)
      → At pre k ((j, v) ∷ post) q
      → let (moved, q') = move_current_to_next_song random_range q in
        let (back, q'') = move_current_to_previous_song q' in
        (moved ≡ true)
        × (q'.status_db.current_song_key ≡ some j)
        × (back ≡ true)
        × (q''.status_db.current_song_key ≡ some k)
  next-previous random_range pre k j v post q mode gone h =
      let q' = set_current_song j (save_priority_queue [] q) in
      let at : At (pre ++ (k, h.value) ∷ []) j post q' = record {
        current = refl;
        value = v;
        entries = h.entries ∙ sym (append_assoc pre ((k, h.value) ∷ []) ((j, v) ∷ post));
      } in
      rw
        (
          next-InOrder random_range pre k j v post q mode gone h,
          previous-InOrder pre k h.value j post q' mode at,
        )
        (refl, refl, refl, refl)
