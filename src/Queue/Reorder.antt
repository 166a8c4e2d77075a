-- ===== src/Queue/Reorder.antt =====
-- queue_service.rs: moving a song to another position. Keys stay; the values move between them.
pub mod Values
pub mod Follow
pub mod Places
pub mod Songs
pub mod Queued
use rsplayer.Prelude.{
  ℕ, zero, suc, ◌+◌, ◌-◌, ◌≡◌, Option, none, some, List, [], ◌∷◌, Bool, true, false, ◌&&◌, ◌||◌,
  if◌then◌else◌, ◌==◌, ltb, leb, get_elem?, length, position, and_then, unwrap_or, remove_at,
  insert_at,
}
use Prim.Native.Nat.{min, max}
use rsplayer.Store.Ordered.{keys, values}
use rsplayer.Song.{Bytes, Text}
use rsplayer.Queue.State.{
  Env, QueueService, set_current_song, get_current_or_first_song_key, add_to_priority_queue,
}
use rsplayer.Queue.Edit.{is_entry_of}

-- `values.remove(from); values.insert(to, val)`
abbrev pub shift {ℓ} : {A : Type ℓ} → ℕ → ℕ → List A → List A
shift from to vs = elim (get_elem? vs from) [
  | none ↦ vs
  | some val ↦ insert_at to val (remove_at from vs)
]

-- Where the current index goes when `from` moves to `to`.
unfoldable pub new_current_index : ℕ → ℕ → ℕ → ℕ
new_current_index from to current =
    if current == from
    then to
    else if ltb from current && leb current to
    then current - 1
    else if ltb current from && leb to current
    then current + 1
    else current

abbrev pub position_of : Option ℕ → List ℕ → Option ℕ
position_of current ks = and_then current (λ key. position key ks)

module _ (env : Env) where
  unfoldable pub find_index : Text → List (ℕ × Bytes) → Option ℕ
  find_index song_id [] = none
  find_index song_id ((key, value) ∷ l) =
      let rest = find_index song_id l in
      if is_entry_of env song_id value
      then some 0
      else elim rest [ none ↦ none | some i ↦ some (suc i) ]

  -- `queue_db.insert(&keys[i], &values[i])`
  unfoldable pub write_at : List ℕ → List Bytes → ℕ → env.queue.Store → env.queue.Store
  write_at ks vs i db = elim (get_elem? ks i) [
    | none ↦ db
    | some k ↦ elim (get_elem? vs i) [ none ↦ db | some v ↦ env.queue.insert db k v ]
  ]

  -- `for i in start..start + n`
  unfoldable pub write_range : List ℕ → List Bytes → ℕ → ℕ → env.queue.Store → env.queue.Store
  unfolding write_at
  write_range ks vs start zero db = db
  write_range ks vs start (suc n) db = write_range ks vs (start + 1) n (write_at ks vs start db)

-- Writes the current key when its index changes.
unfoldable pub follow_current :
    {env : Env} → List ℕ → Option ℕ → ℕ → ℕ → QueueService env → QueueService env
unfolding new_current_index
follow_current ks none from to q = q
follow_current ks (some index) from to q =
    let new_index = new_current_index from to index in
    if new_index == index
    then q
    else elim (get_elem? ks new_index) [ none ↦ q | some key ↦ set_current_song key q ]

module _ {env : Env} where
  unfoldable pub find_index_by_song_id : Text → QueueService env → Option ℕ
  unfolding find_index
  find_index_by_song_id song_id q = find_index env song_id (env.queue.iter q.queue_db)

  unfoldable pub move_item_by_index : ℕ → ℕ → QueueService env → QueueService env
  move_item_by_index from to q =
      let entries = env.queue.iter q.queue_db in
      let ks = keys entries in
      if leb (length ks) from || leb (length ks) to
      then q
      else let (current, q') = get_current_or_first_song_key q in
        let first = min from to in
        let last = max from to in
        let db =
          write_range env ks (shift from to (values entries)) first (last - first + 1)
            q'.queue_db in
        follow_current ks (position_of current ks) from to (record q' { queue_db = db })

  -- Behind the two searches; without a hit there is nothing to move.
  abbrev pub move_between : Option ℕ → Option ℕ → QueueService env → QueueService env
  move_between none to q = q
  move_between (some from) none q = q
  move_between (some from) (some to) q = move_item_by_index from to q

  unfoldable pub move_item : Text → Text → QueueService env → QueueService env
  move_item from_id to_id q =
      move_between (find_index_by_song_id from_id q) (find_index_by_song_id to_id q) q

  -- `add_to_priority_queue(keys[target_index])`
  abbrev pub promote_at : Option ℕ → QueueService env → QueueService env
  promote_at none q = q
  promote_at (some key) q = add_to_priority_queue key q

  unfoldable pub move_item_after_current_by_index : ℕ → QueueService env → QueueService env
  move_item_after_current_by_index from q =
      let ks = keys (env.queue.iter q.queue_db) in
      if leb (length ks) from
      then q
      else let (current, q') = get_current_or_first_song_key q in
        let current_index = unwrap_or (position_of current ks) 0 in
        if from == current_index || from == current_index + 1
        then q'
        else let target = if ltb from current_index then current_index else current_index + 1 in
          promote_at (get_elem? ks target) (move_item_by_index from target q')

  abbrev pub move_after : Option ℕ → QueueService env → QueueService env
  move_after none q = q
  move_after (some from) q = move_item_after_current_by_index from q

  unfoldable pub move_item_after_current : Text → QueueService env → QueueService env
  move_item_after_current song_id q = move_after (find_index_by_song_id song_id q) q
