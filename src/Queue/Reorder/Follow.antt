-- ===== src/Queue/Reorder/Follow.antt =====
-- The current song when a song is moved within the queue.
use rsplayer.Prelude.{
  ℕ, ◌+◌, ◌-◌, ◌≡◌, ◌<◌, some, List, arith, false, ap, ◌∙◌, ◌||◌, leb, length, get_elem?,
  get_elem?-lt, position,
}
use Prim.Native.Nat.{min, max}
use rsplayer.Prelude.Vectors.{get_elem?-length}
use rsplayer.Store.Ordered.{keys, values, lookup, lookup-position, lookup-get_elem?, length-values}
use rsplayer.Song.{Bytes}
use rsplayer.Queue.State.{Env, QueueService, get_current_or_first_song_key}
use rsplayer.Queue.Reorder.{
  shift, new_current_index, write_range, follow_current, move_item_by_index,
}
use rsplayer.Queue.Reorder.Values.{write_range-shift, shift-follows}

module _ {env : Env} where
  open env use {queue}

  abbrev pub keys_of : QueueService env → List ℕ
  keys_of q = keys (queue.iter q.queue_db)

  abbrev pub values_of : QueueService env → List Bytes
  values_of q = values (queue.iter q.queue_db)

  -- The entries behind the loop of writes.
  abbrev pub written : ℕ → ℕ → QueueService env → QueueService env
  written from to q = record q {
    queue_db =
        write_range env (keys_of q) (shift from to (values_of q)) (min from to)
          (max from to - min from to + 1) q.queue_db;
  }

  pub move_item-current :
      (from to k i : ℕ) (q : QueueService env)
      → from < length (keys_of q)
      → to < length (keys_of q)
      → q.status_db.current_song_key ≡ some k
      → position k (keys_of q) ≡ some i
      → move_item_by_index from to q
        ≡ follow_current (keys_of q) (some i) from to (written from to q)
  unfolding move_item_by_index
  move_item-current from to k i q hf ht e p =
      let current : get_current_or_first_song_key q ≡ (some k, q) =
        unfold get_current_or_first_song_key in rw e in
      let inside : (leb (length (keys_of q)) from || leb (length (keys_of q)) to) ≡ false =
        ground arith in
      rw (inside, current, p)

  -- The key that is current afterwards is the one at the new index.
  follow_current-key :
      (ks : List ℕ) (k i from to key : ℕ) (q : QueueService env)
      → q.status_db.current_song_key ≡ some k
      → get_elem? ks i ≡ some k
      → get_elem? ks (new_current_index from to i) ≡ some key
      → ((follow_current ks (some i) from to q).status_db.current_song_key ≡ some key)
        × ((follow_current ks (some i) from to q).queue_db ≡ q.queue_db)
  unfolding follow_current
  follow_current-key ks k i from to key q e f g = ground arith

  -- Moving the song at position `from` to position `to`, both in the queue, while a song of the
  -- queue is current: the keys stay as they are, the values are those of the list with one element
  -- moved, and the current key now stands at the value that was current.
  pub move_item_by_index_lem :
      (from to k : ℕ) (v : Bytes) (q : QueueService env)
      → from < length (keys_of q)
      → to < length (keys_of q)
      → q.status_db.current_song_key ≡ some k
      → lookup k (queue.iter q.queue_db) ≡ some v
      → let r = move_item_by_index from to q in
        (key : ℕ) × (keys_of r ≡ keys_of q)
        × (values_of r ≡ shift from to (values_of q))
        × (r.status_db.current_song_key ≡ some key)
        × (lookup key (queue.iter r.queue_db) ≡ some v)
  move_item_by_index_lem from to k v q hf ht e f =
      let (i, p, at, val) = lookup-position k v (queue.iter q.queue_db) f in
      let len = length-values (queue.iter q.queue_db) in
      let in_range : i < length (values_of q) = get_elem?-length (values_of q) i v val in
      let (follows, inside) =
        shift-follows from to i (values_of q) (omega arith) (omega arith) in_range in
      let (key, g) = get_elem?-lt (keys_of q) (new_current_index from to i) (omega arith) in
      let w = written from to q in
      let (same, moved) = write_range-shift env from to q.queue_db hf ht in
      let (current, db) = follow_current-key (keys_of q) k i from to key w e at g in
      let step = move_item-current from to k i q hf ht e p in
      let entries : queue.iter (move_item_by_index from to q).queue_db ≡ queue.iter w.queue_db =
        ap (λ r. queue.iter r.queue_db) step ∙ ap (λ d. queue.iter d) db in
      (
        key,
        ap keys entries ∙ same,
        ap values entries ∙ moved,
        ap (λ r. r.status_db.current_song_key) step ∙ current,
        ap (λ l. lookup key l) entries
            ∙ lookup-get_elem? (new_current_index from to i) key v (queue.iter w.queue_db)
                (queue.iter-IsSorted w.queue_db)
                (ap (λ l. get_elem? l (new_current_index from to i)) same ∙ g)
                (ap (λ l. get_elem? l (new_current_index from to i)) moved ∙ follows ∙ val),
      )
