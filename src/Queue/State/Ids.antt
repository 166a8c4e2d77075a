-- ===== src/Queue/State/Ids.antt =====
-- The ids of queue entries (`generate_id`), also over a restart of the process.
use rsplayer.Prelude.{ℕ, ◌+◌, ◌%◌, ◌≡◌, ◌≤◌, refl, arith, unwrap_or}
use mathlib.Core.Path.{subst₂, sym}
use rsplayer.Store.Ordered.{Below, Below-weaken}
use rsplayer.Queue.State.{Env, QueueService, generate_id, restart}

module _ {env : Env} where
  abbrev pub reserved : QueueService env → ℕ
  reserved q = unwrap_or q.status_db.next_queue_id 0

  -- Every key of the queue was handed out, and a restart would go on above all of them.
  pub record IsValid (q : QueueService env) : Type 0 where
    pub keys_used : Below q.next_id (env.queue.iter q.queue_db)
    pub id_reserved : q.next_id ≤ reserved q
    pub aligned : reserved q % 64 ≡ 0

  -- The counter does not wrap while it hands out `n` more ids.
  abbrev pub HasRoom : ℕ → QueueService env → Type 0
  HasRoom n q = q.next_id + n + 64 ≤ 18446744073709551616

  pub generate_id-next :
      (q : QueueService env) → HasRoom 1 q → (generate_id q).1.next_id ≡ q.next_id + 1
  unfolding generate_id
  generate_id-next q room = ground arith

  pub generate_id-id : (q : QueueService env) → (generate_id q).0 ≡ q.next_id
  unfolding generate_id
  generate_id-id q = refl

  pub generate_id-entries : (q : QueueService env) → (generate_id q).1.queue_db ≡ q.queue_db
  unfolding generate_id
  generate_id-entries q = ground arith

  pub generate_id-IsValid :
      (q : QueueService env) → HasRoom 1 q → IsValid q → IsValid (generate_id q).1
  unfolding generate_id
  generate_id-IsValid q room h =
      ground (arith, Below-weaken q.next_id (q.next_id + 1) (env.queue.iter q.queue_db))

  pub restart-IsValid : (q : QueueService env) → IsValid q → IsValid (restart q)
  unfolding restart
  restart-IsValid q h = record {
    keys_used =
        Below-weaken q.next_id (reserved q) (env.queue.iter q.queue_db) h.id_reserved h.keys_used;
    id_reserved = omega arith;
    aligned = h.aligned;
  }

  -- What changes neither the entries nor the counter keeps the invariant.
  pub record SameIds (q r : QueueService env) : Type 0 where
    pub same_entries : r.queue_db ≡ q.queue_db
    pub same_next : r.next_id ≡ q.next_id
    pub same_reserved : r.status_db.next_queue_id ≡ q.status_db.next_queue_id

  pub SameIds-IsValid : (q r : QueueService env) → SameIds q r → IsValid q → IsValid r
  SameIds-IsValid q r e h = record {
    keys_used =
        subst₂ (λ n db. Below n (env.queue.iter db)) (sym e.same_next) (sym e.same_entries)
          h.keys_used;
    id_reserved = ground (arith, e.same_next, e.same_reserved);
    aligned = ground (arith, e.same_reserved);
  }

  -- The same current song, priority queue, mode and random state.
  pub record SamePlayback (q r : QueueService env) : Type 0 where
    pub same_current : r.status_db.current_song_key ≡ q.status_db.current_song_key
    pub same_priority : r.status_db.priority_queue ≡ q.status_db.priority_queue
    pub same_mode : r.playback_mode ≡ q.playback_mode
    pub same_played : r.random_played_keys ≡ q.random_played_keys
    pub same_index : r.random_history_index ≡ q.random_history_index

  pub SamePlayback-refl : (q : QueueService env) → SamePlayback q q
  SamePlayback-refl q = ground arith

  pub SamePlayback-trans :
      (q r s : QueueService env) → SamePlayback q r → SamePlayback r s → SamePlayback q s
  SamePlayback-trans q r s a b = ground arith

  pub generate_id-SamePlayback : (q : QueueService env) → SamePlayback q (generate_id q).1
  unfolding generate_id
  generate_id-SamePlayback q = ground arith
