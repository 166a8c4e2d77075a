-- ===== src/Queue/Reachable/Moved.antt =====
-- The invariant and the calls that reorder the queue.
use Prim.Native.Nat.{min, max}
use rsplayer.Prelude.{
  ℕ, ◌+◌, ◌-◌, ◌≡◌, ◌<◌, refl, sym, ◌∙◌, ap, Option, none, some, List, Bool, true, false, arith,
  get_elem?, length, leb, ◌==◌, ◌||◌, if◌then◌else◌, unwrap_or, ltb,
}
use rsplayer.Store.Ordered.{keys, values, Below-keys, length-values}
use rsplayer.Song.{Song}
use rsplayer.Queue.State.{Env, QueueService, get_current_or_first_song_key, add_to_priority_queue}
use rsplayer.Queue.State.Ids.{HasRoom, SameIds}
use rsplayer.Queue.Edit.{queue_found, insert_song}
use rsplayer.Queue.Reorder.{
  move_between, promote_at, move_after, shift, write_range, follow_current, position_of,
  move_item_by_index, move_item_after_current_by_index,
}
use rsplayer.Queue.Reorder.Values.{write_range-shift}
use rsplayer.Queue.Reachable.Kept.{SameIds-refl, first-SameIds}
use rsplayer.Queue.Reachable.Written.{Inv, AllSongs-at, AllSongs-of, shift-element}
use rsplayer.Queue.Reachable.Added.{kept-Inv, insert_song-Inv}

module _ {env : Env} where
  open env use {queue, codec}

  -- The queue with its values shifted by the loop of writes.
  written-Inv :
      (from to : ℕ) (q : QueueService env)
      → from < length (keys (queue.iter q.queue_db))
      → to < length (keys (queue.iter q.queue_db))
      → Inv q
      → let ks = keys (queue.iter q.queue_db) in
        let vs = values (queue.iter q.queue_db) in
        Inv (record q {
          queue_db =
              write_range env ks
                (shift from to vs)
                (min from to)
                (max from to - min from to + 1)
                q.queue_db;
        })
  written-Inv from to q hf ht h =
      let vs = values (queue.iter q.queue_db) in
      let len = length-values (queue.iter q.queue_db) in
      let db =
        write_range env (keys (queue.iter q.queue_db)) (shift from to vs) (min from to)
          (max from to - min from to + 1) q.queue_db in
      let (same, moved) = write_range-shift env from to q.queue_db hf ht in
      record {
        valid = record {
          keys_used =
              Below-keys q.next_id (queue.iter q.queue_db) (queue.iter db) same h.valid.keys_used;
          id_reserved = h.valid.id_reserved;
          aligned = h.valid.aligned;
        };
        songs = AllSongs-of env (queue.iter db) (λ i v e.
            let (j, f) =
              shift-element from to i v vs (omega arith) (omega arith)
                (ap (λ l. get_elem? l i) (sym moved) ∙ e) in
            AllSongs-at env j v (queue.iter q.queue_db) h.songs f);
      }

  follow_current-SameIds :
      (ks : List ℕ) (o : Option ℕ) (from to : ℕ) (q : QueueService env)
      → SameIds q (follow_current ks o from to q)
  unfolding follow_current
  follow_current-SameIds ks none from to q = SameIds-refl q
  follow_current-SameIds ks (some i) from to q = ground arith

  if-Inv :
      (b : Bool) (x y : QueueService env) → Inv x → (b ≡ false → Inv y) → Inv (if b then x else y)
  if-Inv true x y hx hy = hx
  if-Inv false x y hx hy = hy refl

  move_item_by_index-Inv :
      (from to : ℕ) (q : QueueService env) → Inv q → Inv (move_item_by_index from to q)
  unfolding move_item_by_index
  move_item_by_index-Inv from to q h =
      let ks = keys (queue.iter q.queue_db) in
      let vs = values (queue.iter q.queue_db) in
      let (current, q') = get_current_or_first_song_key q in
      let same = first-SameIds q in
      let loop =
        write_range env ks (shift from to vs) (min from to) (max from to - min from to + 1) in
      let w = record q' { queue_db = loop q'.queue_db } in
      let w₀ = record q { queue_db = loop q.queue_db } in
      if-Inv (leb (length ks) from || leb (length ks) to) q
        (follow_current ks (position_of current ks) from to w) h
        (λ inside.
          kept-Inv w (follow_current ks (position_of current ks) from to w)
            (follow_current-SameIds ks (position_of current ks) from to w)
            (kept-Inv w₀ w
              (record {
                same_entries = ap loop same.same_entries;
                same_next = same.same_next;
                same_reserved = same.same_reserved;
              })
              (written-Inv from to q (ground arith) (ground arith) h)))

  pub move_between-Inv :
      (from to : Option ℕ) (q : QueueService env) → Inv q → Inv (move_between from to q)
  move_between-Inv none to q h = h
  move_between-Inv (some from) none q h = h
  move_between-Inv (some from) (some to) q h = move_item_by_index-Inv from to q h

  promote_at-Inv : (key : Option ℕ) (q : QueueService env) → Inv q → Inv (promote_at key q)
  unfolding add_to_priority_queue
  promote_at-Inv none q h = h
  promote_at-Inv (some key) q h =
      kept-Inv q (add_to_priority_queue key q)
        (record { same_entries = refl; same_next = refl; same_reserved = refl }) h

  pub move_after-Inv : (from : Option ℕ) (q : QueueService env) → Inv q → Inv (move_after from q)
  unfolding move_item_after_current_by_index
  move_after-Inv none q h = h
  move_after-Inv (some from) q h =
      let ks = keys (queue.iter q.queue_db) in
      let (current, q') = get_current_or_first_song_key q in
      let at = unwrap_or (position_of current ks) 0 in
      let target = if ltb from at then at else at + 1 in
      let first = kept-Inv q q' (first-SameIds q) h in
      let moved = promote_at (get_elem? ks target) (move_item_by_index from target q') in
      if-Inv (leb (length ks) from) q (if from == at || from == at + 1 then q' else moved) h (λ _.
        if-Inv (from == at || from == at + 1) q' moved first (λ _.
          promote_at-Inv (get_elem? ks target) (move_item_by_index from target q')
            (move_item_by_index-Inv from target q' first)))

  pub queue_found-Inv :
      (o : Option Song) (q : QueueService env) → HasRoom 1 q → Inv q → Inv (queue_found o q)
  queue_found-Inv none q room h = h
  queue_found-Inv (some song) q room h =
      let (key, q') = insert_song song q in
      promote_at-Inv (some key) q' (insert_song-Inv song q room h)
