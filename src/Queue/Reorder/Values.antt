-- ===== src/Queue/Reorder/Values.antt =====
-- What a move within the queue does to its values: one is taken out and put in elsewhere.
use Prim.Native.Nat.{min, max}
use rsplayer.Prelude.{
  ℕ, zero, suc, ◌+◌, ◌-◌, ◌≡◌, ◌≤◌, ◌<◌, refl, some, List, arith, ap, ◌∙◌, ◌&&◌, ◌==◌, ltb, leb,
  if◌then◌else◌, ◌⊎◌, inl, inr, length, get_elem?, get_elem?-lt, remove_at, length-insert_at,
  length-remove_at,
}
use rsplayer.Prelude.Vectors.{
  set, get_elem?-set, get_elem?-remove_at, get_elem?-insert_at, get_elem?-ext,
}
use rsplayer.Store.Ordered.{keys, values, insert-set, length-values}
use rsplayer.Song.{Bytes}
use rsplayer.Queue.State.{Env}
use rsplayer.Queue.Reorder.{shift, new_current_index, write_at, write_range}

-- The shifted list, position by position.
pub get_elem?-shift :
    {A : Type 0} (from to : ℕ) (vs : List A) (j : ℕ)
    → from < length vs
    → to < length vs
    → get_elem? (shift from to vs) j ≡ (
        if j == to
        then get_elem? vs from
        else if ltb j to
        then (if ltb j from then get_elem? vs j else get_elem? vs (j + 1))
        else (if ltb (j - 1) from then get_elem? vs (j - 1) else get_elem? vs j))
get_elem?-shift from to vs j hf ht =
    let (val, e) = get_elem?-lt vs from hf in
    ground (
      arith,
      length-remove_at from vs,
      get_elem?-insert_at (remove_at from vs) to val j,
      get_elem?-remove_at vs from j,
      get_elem?-remove_at vs from (j - 1),
    )

pub length-shift :
    {A : Type 0} (from to : ℕ) (vs : List A)
    → from < length vs
    → to < length vs
    → length (shift from to vs) ≡ length vs
length-shift from to vs hf ht =
    let (val, e) = get_elem?-lt vs from hf in
    ground (arith, length-insert_at to val (remove_at from vs), length-remove_at from vs hf)

-- Outside the range between the two positions nothing moves.
shift-outside :
    {A : Type 0} (from to : ℕ) (vs : List A) (j : ℕ)
    → from < length vs
    → to < length vs
    → (j < min from to) ⊎ (max from to < j)
    → get_elem? (shift from to vs) j ≡ get_elem? vs j
shift-outside from to vs j hf ht (inl h) = ground (arith, get_elem?-shift from to vs j hf ht)
shift-outside from to vs j hf ht (inr h) = ground (arith, get_elem?-shift from to vs j hf ht)

shift-within :
    {A : Type 0} (from to : ℕ) (vs : List A) (j : ℕ)
    → from < length vs
    → to < length vs
    → (if leb (min from to) j && ltb j (min from to + (max from to - min from to + 1))
        then get_elem? (shift from to vs) j
        else get_elem? vs j)
      ≡ get_elem? (shift from to vs) j
shift-within from to vs j hf ht = ground (arith, shift-outside from to vs j hf ht)

-- The element at `current` is found at its new index.
pub shift-follows :
    {A : Type 0} (from to current : ℕ) (vs : List A)
    → from < length vs
    → to < length vs
    → current < length vs
    → (get_elem? (shift from to vs) (new_current_index from to current) ≡ get_elem? vs current)
      × (new_current_index from to current < length vs)
unfolding new_current_index
shift-follows from to current vs hf ht hc =
    ground (arith, get_elem?-shift from to vs (new_current_index from to current) hf ht)

module _ (env : Env) where
  open env use {queue}

  write_at-set :
      (ks : List ℕ) (vs : List Bytes) (i : ℕ) (v : Bytes) (db : queue.Store)
      → keys (queue.iter db) ≡ ks
      → get_elem? vs i ≡ some v
      → i < length ks
      → (keys (queue.iter (write_at env ks vs i db)) ≡ ks)
        × (values (queue.iter (write_at env ks vs i db)) ≡ set (values (queue.iter db)) i v)
  unfolding write_at
  write_at-set ks vs i v db same e h =
      let (k, f) = get_elem?-lt ks i h in
      let (there, put) =
        insert-set i k v (queue.iter db) (queue.iter-IsSorted db)
          (ap (λ l. get_elem? l i) same ∙ f) in
      let written : write_at env ks vs i db ≡ queue.insert db k v = rw (f, e, write_at) in
      rw (written, queue.iter-insert) (there ∙ same, put)

  -- The loop of writes: the keys stay, and the values of its range are those that it writes.
  write_range-values :
      (ks : List ℕ) (vs : List Bytes) (start n : ℕ) (db : queue.Store)
      → keys (queue.iter db) ≡ ks
      → length vs ≡ length ks
      → start + n ≤ length ks
      → (keys (queue.iter (write_range env ks vs start n db)) ≡ ks)
        × ((j : ℕ)
            → get_elem? (values (queue.iter (write_range env ks vs start n db))) j ≡ (
                if leb start j && ltb j (start + n)
                then get_elem? vs j
                else get_elem? (values (queue.iter db)) j))
  unfolding write_range
  write_range-values ks vs start zero db same len h = (same, λ j. ground arith)
  write_range-values ks vs start (suc n) db same len h =
      let (v, e) = get_elem?-lt vs start (omega arith) in
      let (same', put) = write_at-set ks vs start v db same e (omega arith) in
      let (kept, at) =
        write_range-values ks vs (start + 1) n (write_at env ks vs start db) same' len
          (omega arith) in
      (
        kept,
        λ j. ground (
          arith,
          at j,
          put,
          length-values (queue.iter db),
          get_elem?-set (values (queue.iter db)) start v j,
        ),
      )

  -- The whole move: every key stays, and the values are the shifted ones.
  pub write_range-shift :
      (from to : ℕ) (db : queue.Store)
      → let ks = keys (queue.iter db) in
        let vs = values (queue.iter db) in
        let db' =
          write_range env ks (shift from to vs) (min from to) (max from to - min from to + 1) db in
        from < length ks
        → to < length ks
        → (keys (queue.iter db') ≡ ks) × (values (queue.iter db') ≡ shift from to vs)
  write_range-shift from to db hf ht =
      let ks = keys (queue.iter db) in
      let vs = values (queue.iter db) in
      let len = length-values (queue.iter db) in
      let hf' : from < length vs = omega arith in
      let ht' : to < length vs = omega arith in
      let n = max from to - min from to + 1 in
      let (kept, at) =
        write_range-values ks (shift from to vs) (min from to) n db refl
          (length-shift from to vs hf' ht' ∙ len) (omega arith) in
      (
        kept,
        get_elem?-ext
            (values (queue.iter (write_range env ks (shift from to vs) (min from to) n db)))
            (shift from to vs) (λ j. at j ∙ shift-within from to vs j hf' ht'),
      )
