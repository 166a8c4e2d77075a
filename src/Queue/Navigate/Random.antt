-- ===== src/Queue/Navigate/Random.antt =====
-- The random mode: which song comes next.
use rsplayer.Prelude.{
  ℕ, ◌+◌, ◌≡◌, ◌≢◌, ◌≤◌, ◌<◌, refl, some, List, [], ◌∷◌, arith, true, false, ap, ◌∙◌, inl, inr, ◌⊎◌,
  length, get_elem?, filter, contains, get_elem?-filter, get_elem?-lt, not, le→ltb, ==_refl,
}
use rsplayer.Store.Ordered.{IsSorted, keys}
use rsplayer.Queue.Mode.{random}
use rsplayer.Queue.State.{
  Env, QueueService, get_priority_queue, save_priority_queue, get_current_or_first_song_key, u32,
}
use rsplayer.Queue.Navigate.{
  mark_played, is_current, candidates_of, unplayed_of, random_candidates, play_random, move_random,
  advance, move_current_to_next_song,
}
use rsplayer.Queue.Navigate.Priority.{AllGone}
use rsplayer.Queue.Navigate.Ordered.{next-advance}

-- The generator answers within its range.
abbrev pub InRange : (ℕ → ℕ) → Type 0
InRange random_range = (n : ℕ) → 0 < n → random_range n < n

contains-mark_played : (k : ℕ) (played : List ℕ) → contains k (mark_played k played) ≡ true
contains-mark_played k played = ground (arith, ==_refl k)

not-mark_played :
    (k x : ℕ) (played : List ℕ)
    → not (contains x (mark_played k played)) ≡ true
    → contains x played ≡ false
not-mark_played k x played h = ground arith

-- What a candidate is: a key of the queue other than the current one, and not played yet unless all
-- keys have been played.
abbrev pub Fresh : List ℕ → ℕ → List ℕ → ℕ → Type 0
Fresh all_keys k played x =
    (contains x all_keys ≡ true)
    × (x ≢ k)
    × ((contains x played ≡ false) ⊎ (unplayed_of all_keys (mark_played k played) ≡ []))

unplayed-Fresh :
    (all_keys : List ℕ) (k : ℕ) (played : List ℕ) (i x : ℕ)
    → get_elem? (unplayed_of all_keys (mark_played k played)) i ≡ some x
    → Fresh all_keys k played x
unplayed-Fresh all_keys k played i x h =
    let (free, there) =
      get_elem?-filter (λ j. not (contains j (mark_played k played))) all_keys i x h in
    (
      there,
      λ e. ground (arith, contains-mark_played k played, e),
      inl (not-mark_played k x played free),
    )

others-Fresh :
    (all_keys : List ℕ) (k : ℕ) (played : List ℕ) (i x : ℕ)
    → unplayed_of all_keys (mark_played k played) ≡ []
    → get_elem? (filter (λ j. not (is_current (some k) j)) all_keys) i ≡ some x
    → Fresh all_keys k played x
others-Fresh all_keys k played i x empty h =
    let (other, there) = get_elem?-filter (λ j. not (is_current (some k) j)) all_keys i x h in
    (there, λ e. ground arith, inr empty)

candidates-Fresh :
    (unplayed all_keys : List ℕ) (k : ℕ) (played : List ℕ) (i x : ℕ)
    → unplayed_of all_keys (mark_played k played) ≡ unplayed
    → get_elem? (candidates_of unplayed all_keys (some k) (mark_played k played)).0 i ≡ some x
    → Fresh all_keys k played x
candidates-Fresh [] all_keys k played i x e h = others-Fresh all_keys k played i x e h
candidates-Fresh (u ∷ us) all_keys k played i x e h = unplayed-Fresh all_keys k played i x (rw e h)

others-pos :
    {V : Type 0} (k : ℕ) (l : List (ℕ × V))
    → IsSorted l
    → 2 ≤ length (keys l)
    → 0 < length (filter (λ j. not (is_current (some k) j)) (keys l))
others-pos k [] s h = absurd (omega arith)
others-pos k ((a, v) ∷ []) s h = absurd (omega arith)
others-pos k ((a, v) ∷ (b, w) ∷ l) s h = ground arith

candidates-pos :
    {V : Type 0} (unplayed : List ℕ) (k : ℕ) (l : List (ℕ × V)) (played : List ℕ)
    → IsSorted l
    → 2 ≤ length (keys l)
    → 0 < length (candidates_of unplayed (keys l) (some k) played).0
candidates-pos [] k l played s h = others-pos k l s h
candidates-pos (u ∷ us) k l played s h = omega arith

-- The history holds `key` at the index of the last random move, and nothing else has changed in it.
abbrev pub Recorded : {env : Env} → QueueService env → QueueService env → ℕ → Type 0
Recorded {env} q q' key =
    (q'.random_history_index ≡ u32 (q.random_history_index + 1))
    × (q'.random_history_db
        ≡ env.history.insert q.random_history_db (u32 (q.random_history_index + 1)) key)

module _ {env : Env} where
  open env use {queue, history}

  abbrev pub all_keys_of : QueueService env → List ℕ
  all_keys_of q = keys (queue.iter q.queue_db)

  move_random-current :
      (random_range : ℕ → ℕ) (k : ℕ) (q : QueueService env)
      → q.status_db.current_song_key ≡ some k
      → 2 ≤ length (all_keys_of q)
      → let (candidates, played) =
          random_candidates (all_keys_of q) (some k) (mark_played k q.random_played_keys) in
        move_random random_range q
        ≡ play_random (get_elem? candidates (random_range (length candidates))) played q
  unfolding move_random
  move_random-current random_range k q e two =
      let current : get_current_or_first_song_key q ≡ (some k, q) =
        unfold get_current_or_first_song_key in rw e in
      rw (le→ltb (length (all_keys_of q)) 2 two, current)

  pub random-step :
      (random_range : ℕ → ℕ) (k : ℕ) (q : QueueService env)
      → InRange random_range
      → q.playback_mode ≡ random
      → AllGone env q.queue_db (get_priority_queue q)
      → q.status_db.current_song_key ≡ some k
      → 2 ≤ length (all_keys_of q)
      → (key : ℕ) × (played : List ℕ) × Fresh (all_keys_of q) k q.random_played_keys key
        × (move_current_to_next_song random_range q
            ≡ play_random (some key) played (save_priority_queue [] q))
  unfolding advance random_candidates
  random-step random_range k q range mode gone e two =
      let q₁ = save_priority_queue [] q in
      let unplayed = unplayed_of (all_keys_of q) (mark_played k q.random_played_keys) in
      let (candidates, played) =
        candidates_of unplayed (all_keys_of q) (some k) (mark_played k q.random_played_keys) in
      let i = random_range (length candidates) in
      let pos =
        candidates-pos unplayed k (queue.iter q.queue_db) (mark_played k q.random_played_keys)
          (queue.iter-IsSorted q.queue_db) two in
      let (key, picked) = get_elem?-lt candidates i (range (length candidates) pos) in
      (
        key,
        played,
        candidates-Fresh unplayed (all_keys_of q) k q.random_played_keys i key refl picked,
        next-advance random_range q gone
            ∙ ap (λ m. advance random_range m q₁) mode
            ∙ move_random-current random_range k q₁ e two
            ∙ ap (λ o. play_random o played q₁) picked,
      )

  -- In random mode, with at least two songs and no live priority entry, and a generator that
  -- answers in its range: the move succeeds, and the new current song is one of the queue, is not
  -- the one that was current, and has not been played unless all songs have been; it is recorded at
  -- the next index of the history.
  pub next-random :
      (random_range : ℕ → ℕ) (k : ℕ) (q : QueueService env)
      → InRange random_range
      → q.playback_mode ≡ random
      → AllGone env q.queue_db (get_priority_queue q)
      → q.status_db.current_song_key ≡ some k
      → 2 ≤ length (all_keys_of q)
      → let (moved, q') = move_current_to_next_song random_range q in
        (key : ℕ) × (moved ≡ true)
        × (q'.status_db.current_song_key ≡ some key)
        × Fresh (all_keys_of q) k q.random_played_keys key
        × Recorded q q' key
  unfolding play_random
  next-random random_range k q range mode gone e two =
      let (key, played, fresh, step) = random-step random_range k q range mode gone e two in
      (key, rw step, rw step, fresh, (rw step, rw step))
