-- ===== src/Queue/Reorder/Songs.antt =====
-- `move_item` and `move_item_after_current` seen at the list of songs.
use Prim.Native.Nat.{min, max}
use rsplayer.Prelude.{
  ℕ, ◌+◌, ◌-◌, ◌≡◌, refl, sym, ap, ◌∙◌, Option, none, some, List, [], ◌∷◌, map, length, get_elem?,
  filter_map, true, false, arith, inl, inr, if◌then◌else◌, unwrap_or, leb, ltb, ◌||◌, ◌==◌, ◌<◌,
  Bool-cases, Option-cases, bytes_eq, ltb→lt, subst,
}
use rsplayer.Store.Ordered.{values, keys}
use rsplayer.Song.{Song, Text, Bytes}
use rsplayer.Queue.State.{Env, QueueService, get_current_or_first_song_key, add_to_priority_queue}
use rsplayer.Queue.Edit.{is_entry_of}
use rsplayer.Queue.Edit.Search.{AllSongs, songs_of, is_entry_of-song}
use rsplayer.Queue.Pages.{get_all_songs}
use rsplayer.Queue.Reorder.{
  shift, write_range, follow_current, position_of, move_item_by_index, move_between, promote_at,
  move_item_after_current_by_index, move_after, find_index_by_song_id, move_item,
  move_item_after_current, find_index,
}
use rsplayer.Queue.Reorder.Places.{
  index_of, moved, moved_next, index_of-lt, key_of, at_front, position-Inside, shift_self,
  shift-map,
}
use rsplayer.Queue.Reachable.Kept.{first-SameIds}
use rsplayer.Queue.Reorder.Values.{write_range-shift}

module _ (env : Env) where
  open env use {codec}

  decode-map :
      (songs : List Song)
      → filter_map codec.bytes_to_song (map codec.to_json_string_bytes songs) ≡ songs
  decode-map [] = refl
  decode-map (song ∷ songs) = rw (codec.bytes_to_song-to_json_string_bytes, decode-map songs)

  values-songs :
      (l : List (ℕ × Bytes))
      → AllSongs env l
      → (songs : List Song) × (values l ≡ map codec.to_json_string_bytes songs)
  values-songs [] h = ([], refl)
  values-songs ((k, v) ∷ l) h =
      let (songs, e) = values-songs l h.1 in (h.0.0 ∷ songs, rw (h.0.1, e))

module _ (env : Env) where
  open env use {codec}

  index-find :
      (song_id : Text) (l : List (ℕ × Bytes))
      → AllSongs env l
      → find_index env song_id l ≡ index_of song_id (songs_of env l)
  unfolding find_index
  index-find song_id [] h = refl
  index-find song_id ((j, w) ∷ l) h =
      let song = h.0.0 in
      let decoded : codec.bytes_to_song w ≡ some song =
        rw h.0.1 (codec.bytes_to_song-to_json_string_bytes song) in
      let test : is_entry_of env song_id w ≡ bytes_eq song.file song_id =
        rw h.0.1 (is_entry_of-song env song_id song) in
      rw (decoded, test, index-find song_id l h.1) refl

  length-songs : (l : List (ℕ × Bytes)) → AllSongs env l → length (songs_of env l) ≡ length (keys l)
  length-songs [] h = refl
  length-songs ((j, w) ∷ l) h =
      let decoded : codec.bytes_to_song w ≡ some h.0.0 =
        rw h.0.1 (codec.bytes_to_song-to_json_string_bytes h.0.0) in
      rw (decoded, length-songs l h.1) refl

module _ {env : Env} where
  open env use {queue, codec}

  same-songs :
      (q r : QueueService env) → r.queue_db ≡ q.queue_db → get_all_songs r ≡ get_all_songs q
  unfolding get_all_songs
  same-songs q r e = rw e refl

  shifted-songs :
      (from to : ℕ) (q r : QueueService env)
      → AllSongs env (queue.iter q.queue_db)
      → values (queue.iter r.queue_db) ≡ shift from to (values (queue.iter q.queue_db))
      → get_all_songs r ≡ shift from to (get_all_songs q)
  unfolding get_all_songs
  shifted-songs from to q r h e =
      let (songs, s) = values-songs env (queue.iter q.queue_db) h in
      rw (
        e,
        s,
        shift-map codec.to_json_string_bytes from to songs,
        decode-map env songs,
        decode-map env (shift from to songs),
      )

  follow_current-entries :
      (ks : List ℕ) (o : Option ℕ) (from to : ℕ) (q : QueueService env)
      → (follow_current ks o from to q).queue_db ≡ q.queue_db
  unfolding follow_current
  follow_current-entries ks none from to q = refl
  follow_current-entries ks (some i) from to q = ground arith

  abbrev keys_of : QueueService env → List ℕ
  keys_of q = keys (queue.iter q.queue_db)

  move_item_by_index-songs :
      (from to : ℕ) (q : QueueService env)
      → AllSongs env (queue.iter q.queue_db)
      → from < length (keys_of q)
      → to < length (keys_of q)
      → get_all_songs (move_item_by_index from to q) ≡ shift from to (get_all_songs q)
  unfolding move_item_by_index
  move_item_by_index-songs from to q h hf ht =
      let ks = keys_of q in
      let vs = values (queue.iter q.queue_db) in
      let (current, q') = get_current_or_first_song_key q in
      let loop =
        write_range env ks (shift from to vs) (min from to) (max from to - min from to + 1) in
      let w = record q' { queue_db = loop q'.queue_db } in
      let w₀ = record q { queue_db = loop q.queue_db } in
      let inside : (leb (length ks) from || leb (length ks) to) ≡ false = ground arith in
      rw inside (
        same-songs w₀ (follow_current ks (position_of current ks) from to w) (
          follow_current-entries ks (position_of current ks) from to w
          ∙ ap loop (first-SameIds q).same_entries)
        ∙ shifted-songs from to q w₀ h (write_range-shift env from to q.queue_db hf ht).1)

  -- A position that is found is one of the queue.
  abbrev Inside : QueueService env → Option ℕ → Type 0
  Inside q none = Unit
  Inside q (some i) = i < length (keys_of q)

  found-Inside :
      (song_id : Text) (q : QueueService env)
      → AllSongs env (queue.iter q.queue_db)
      → Inside q (index_of song_id (get_all_songs q))
  unfolding get_all_songs
  found-Inside song_id q h = elim (Option-cases (index_of song_id (get_all_songs q))) [
    | inl n ↦ rw n tt
    | inr (i, n) ↦
        rw (n, ← length-songs env (queue.iter q.queue_db) h)
          (index_of-lt song_id (get_all_songs q) i n)
  ]

  move_between-songs :
      (from to : Option ℕ) (q : QueueService env)
      → AllSongs env (queue.iter q.queue_db)
      → Inside q from
      → Inside q to
      → get_all_songs (move_between from to q) ≡ moved from to (get_all_songs q)
  move_between-songs none to q h f t = refl
  move_between-songs (some from) none q h f t = refl
  move_between-songs (some from) (some to) q h f t = move_item_by_index-songs from to q h f t

  promote_at-entries :
      (key : Option ℕ) (q : QueueService env) → (promote_at key q).queue_db ≡ q.queue_db
  unfolding add_to_priority_queue
  promote_at-entries none q = refl
  promote_at-entries (some key) q = refl

  -- The position of the current song; the first one when no song of the queue is current.
  abbrev pub current_position : QueueService env → ℕ
  current_position q = unwrap_or (position_of q.status_db.current_song_key (keys_of q)) 0

  first_key :
      (q : QueueService env)
      → q.status_db.current_song_key ≡ none
      → (get_current_or_first_song_key q).0 ≡ key_of (queue.first_key_value q.queue_db)
  unfolding get_current_or_first_song_key
  first_key q e = ground (arith, e)

  current_key :
      (q : QueueService env) (k : ℕ)
      → q.status_db.current_song_key ≡ some k
      → (get_current_or_first_song_key q).0 ≡ some k
  unfolding get_current_or_first_song_key
  current_key q k e = ground (arith, e)

  first-position :
      (q : QueueService env)
      → unwrap_or (position_of (get_current_or_first_song_key q).0 (keys_of q)) 0
        ≡ current_position q
  first-position q =
      let at = λ (o : Option ℕ). unwrap_or (position_of o (keys_of q)) 0 in
      elim (Option-cases q.status_db.current_song_key) [
        | inr (k, e) ↦ ap at (current_key q k e ∙ sym e)
        | inl e ↦
            ap at (first_key q e)
            ∙ ap (λ o. at (key_of o)) (queue.first_lem q.queue_db)
            ∙ at_front (queue.iter q.queue_db)
            ∙ ap at (sym e)
      ]

  move_to-songs :
      (from to : ℕ) (o : Option ℕ) (q : QueueService env)
      → AllSongs env (queue.iter q.queue_db)
      → from < length (keys_of q)
      → to < length (keys_of q)
      → get_all_songs
          (promote_at o (move_item_by_index from to (get_current_or_first_song_key q).1))
        ≡ shift from to (get_all_songs q)
  move_to-songs from to o q h hf ht =
      let q' = (get_current_or_first_song_key q).1 in
      let first = (first-SameIds q).same_entries in
      let entries = ap (λ d. queue.iter d) first in
      same-songs (move_item_by_index from to q') (promote_at o (move_item_by_index from to q'))
        (promote_at-entries o (move_item_by_index from to q'))
      ∙ move_item_by_index-songs from to q' (subst (AllSongs env) (sym entries) h)
          (subst (λ l. from < length (keys l)) (sym entries) hf)
          (subst (λ l. to < length (keys l)) (sym entries) ht)
      ∙ ap (λ songs. shift from to songs) (same-songs q q' first)

  move_after-songs :
      (from : Option ℕ) (q : QueueService env)
      → AllSongs env (queue.iter q.queue_db)
      → Inside q from
      → get_all_songs (move_after from q) ≡ moved_next from (current_position q) (get_all_songs q)
  unfolding move_item_after_current_by_index
  move_after-songs none q h f = refl
  move_after-songs (some from) q h f =
      let ks = keys_of q in
      let (current, q') = get_current_or_first_song_key q in
      let cur = current_position q in
      let first = (first-SameIds q).same_entries in
      let same = same-songs q q' first in
      let inside : leb (length ks) from ≡ false = ground (arith, f) in
      let here = first-position q in
      elim (Bool-cases (from == cur)) [
        | inl e ↦ rw (inside, here, e) same
        | inr e ↦ elim (Bool-cases (from == cur + 1)) [
          | inl g ↦
              rw (inside, here, e, g)
                (same
                  ∙ sym (
                      ap (λ t. shift from t (get_all_songs q)) (after from cur g)
                      ∙ shift_self from (get_all_songs q)))
          | inr g ↦ elim (Bool-cases (ltb from cur)) [
            | inl b ↦
                rw (inside, here, e, g, b)
                  (move_to-songs from cur (get_elem? ks cur) q h f
                      (position-Inside q.status_db.current_song_key ks from (ltb→lt from cur b))
                    ∙ ap (λ t. shift from t (get_all_songs q)) (below from cur b))
            | inr b ↦
                rw (inside, here, e, g, b)
                  (move_to-songs from (cur + 1) (get_elem? ks (cur + 1)) q h f
                    (beyond from cur (length ks) f e g b))
          ]
        ]
      ]
    where
      after :
          (from cur : ℕ)
          → (from == cur + 1) ≡ true
          → (if ltb from cur then cur - 1 else cur) + 1 ≡ from
      after from cur g = ground (arith, g)

      below : (from cur : ℕ) → ltb from cur ≡ true → cur ≡ cur - 1 + 1
      below from cur b = ground (arith, b)

      beyond :
          (from cur n : ℕ)
          → from < n
          → (from == cur) ≡ false
          → (from == cur + 1) ≡ false
          → ltb from cur ≡ false
          → cur + 1 < n
      beyond from cur n f e g b = ground (arith, f, e, g, b)

  pub move_item-songs :
      (from_id to_id : Text) (q : QueueService env)
      → AllSongs env (queue.iter q.queue_db)
      → get_all_songs (move_item from_id to_id q)
        ≡ moved
            (index_of from_id (get_all_songs q))
            (index_of to_id (get_all_songs q))
            (get_all_songs q)
  unfolding move_item find_index_by_song_id get_all_songs
  move_item-songs from_id to_id q h =
      let f = index-find env from_id (queue.iter q.queue_db) h in
      let t = index-find env to_id (queue.iter q.queue_db) h in
      ap (λ a. get_all_songs (move_between a (find_index_by_song_id to_id q) q)) f
      ∙ ap (λ b. get_all_songs (move_between (index_of from_id (get_all_songs q)) b q)) t
      ∙ move_between-songs _ _ q h (found-Inside from_id q h) (found-Inside to_id q h)

  pub move_item_after_current-songs :
      (song_id : Text) (q : QueueService env)
      → AllSongs env (queue.iter q.queue_db)
      → get_all_songs (move_item_after_current song_id q)
        ≡ moved_next (index_of song_id (get_all_songs q)) (current_position q) (get_all_songs q)
  unfolding move_item_after_current find_index_by_song_id get_all_songs
  move_item_after_current-songs song_id q h =
      ap (λ a. get_all_songs (move_after a q)) (index-find env song_id (queue.iter q.queue_db) h)
      ∙ move_after-songs _ q h (found-Inside song_id q h)
