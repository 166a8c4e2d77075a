-- ===== src/Queue/Reorder/Queued.antt =====
-- What a move within the queue does to a song that was queued to play next.
use rsplayer.Prelude.{
  ℕ, ◌≡◌, ◌<◌, refl, ap, ◌∙◌, some, List, ◌∷◌, arith, true, length, get_elem?, Option, none,
}
use rsplayer.Store.Ordered.{lookup, lookup-position, lookup-get_elem?}
use rsplayer.Song.{Bytes}
use rsplayer.Queue.State.{Env, QueueService, get_priority_queue}
use rsplayer.Queue.Navigate.{move_current_to_next_song}
use rsplayer.Queue.Edit.Upcoming.{next-priority}
use rsplayer.Queue.Reorder.{shift, follow_current, move_item_by_index}
use rsplayer.Queue.Reorder.Follow.{
  keys_of, values_of, written, move_item-current, move_item_by_index_lem,
}

module _ {env : Env} where
  open env use {queue}

  priority-follow_current :
      (ks : List ℕ) (o : Option ℕ) (from to : ℕ) (q : QueueService env)
      → get_priority_queue (follow_current ks o from to q) ≡ get_priority_queue q
  unfolding follow_current
  priority-follow_current ks none from to q = refl
  priority-follow_current ks (some i) from to q = ground arith

  -- A song of the queue is current, the key `n` at position `i` is first in the priority queue, and a
  -- song is moved between two positions of the queue: the next move forward makes `n` current, and
  -- what is under it then is the value at position `i` of the new order, whichever song was queued.
  pub next-move_item_by_index :
      (random_range : ℕ → ℕ) (from to k i n : ℕ) (v w : Bytes) (pq : List ℕ) (q : QueueService env)
      → from < length (keys_of q)
      → to < length (keys_of q)
      → q.status_db.current_song_key ≡ some k
      → lookup k (queue.iter q.queue_db) ≡ some v
      → get_priority_queue q ≡ n ∷ pq
      → get_elem? (keys_of q) i ≡ some n
      → get_elem? (shift from to (values_of q)) i ≡ some w
      → let (moved, r) = move_current_to_next_song random_range (move_item_by_index from to q) in
        (moved ≡ true)
        × (r.status_db.current_song_key ≡ some n)
        × (lookup n (queue.iter r.queue_db) ≡ some w)
  next-move_item_by_index random_range from to k i n v w pq q hf ht e f p at val =
      let r = move_item_by_index from to q in
      let (key, same, moved, current, found) = move_item_by_index_lem from to k v q hf ht e f in
      let (j, place, at_j, val_j) = lookup-position k v (queue.iter q.queue_db) f in
      let step = move_item-current from to k j q hf ht e place in
      let first : get_priority_queue r ≡ n ∷ pq =
        ap (λ s. get_priority_queue s) step
        ∙ priority-follow_current (keys_of q) (some j) from to (written from to q)
        ∙ p in
      let under : lookup n (queue.iter r.queue_db) ≡ some w =
        lookup-get_elem? i n w (queue.iter r.queue_db) (queue.iter-IsSorted r.queue_db)
          (ap (λ l. get_elem? l i) same ∙ at) (ap (λ l. get_elem? l i) moved ∙ val) in
      rw (next-priority random_range n pq w r first under) (refl, refl, under)
