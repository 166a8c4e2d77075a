-- ===== src/Commands/Refine.antt =====
-- What each queue command does to the list of songs: the specification, a change of a list, and
-- the lemmas that link the operations of the queue to it.
use rsplayer.Prelude.{
  ℕ, ◌≡◌, refl, sym, ap, ◌∙◌, Option, none, some, List, [], ◌∷◌, ◌++◌, length, Bool-cases, inl, inr,
  if◌then◌else◌, append-nil,
}
use rsplayer.Song.{Song, Text, song_of_file, starts_with}
use rsplayer.Queue.State.{Env, QueueService, add_to_priority_queue}
use rsplayer.Queue.State.Ids.{IsValid, HasRoom}
use rsplayer.Queue.Edit.{
  add_song, add_songs, add_found, add_song_by_id, insert_songs, promote_new,
  add_songs_after_current, queue_found, insert_song,
}
use rsplayer.Queue.Edit.Append.{get_all_songs-add_song, get_all_songs-add_songs}
use rsplayer.Queue.Edit.Search.{remove_first}
use rsplayer.Queue.Reorder.Places.{index_of, moved, moved_next}
use rsplayer.Queue.Pages.{get_all_songs}
use rsplayer.Commands.Handle.{add_each_by_id}

-- The change of the song list: nothing, songs at its end, other songs, one song less, one song moved
-- to the place of another, one song moved behind the current one.
pub data Change : Type 0 where
  keep : Change
  append become : List Song → Change
  drop_first : Text → Change
  reorder : Text → Text → Change
  reorder_next : Text → Change

-- How the list after a change stands to the list before it, in which the current song has a position.
abbrev pub Outcome : Change → ℕ → List Song → List Song → Type 0
Outcome keep current before after = after ≡ before
Outcome (append songs) current before after = after ≡ before ++ songs
Outcome (become songs) current before after = after ≡ songs
Outcome (drop_first song_id) current before after = after ≡ remove_first song_id before
Outcome (reorder from_id to_id) current before after =
    after ≡ moved (index_of from_id before) (index_of to_id before) before
Outcome (reorder_next song_id) current before after =
    after ≡ moved_next (index_of song_id before) current before

-- The songs that a change gives an id.
abbrev pub songs_added : Change → List Song
songs_added keep = []
songs_added (reorder from_id to_id) = []
songs_added (reorder_next song_id) = []
songs_added (append songs) = songs
songs_added (become songs) = songs
songs_added (drop_first song_id) = []

-- The song that `add_song_by_id` adds for an id, and those for several ids.
abbrev pub song_found : Option Song → Text → List Song
song_found none song_id =
    if starts_with (b'h' ∷ b't' ∷ b't' ∷ b'p' ∷ []) song_id then song_of_file song_id ∷ [] else []
song_found (some song) song_id = song ∷ []

abbrev pub songs_by_id : Env → List Text → List Song
songs_by_id env [] = []
songs_by_id env (key ∷ keys) = song_found (env.songs.find_by_id key) key ++ songs_by_id env keys

abbrev pub just : Option Song → List Song
just none = []
just (some song) = song ∷ []

module _ {env : Env} where
  pub same-entries :
      (q r : QueueService env) → r.queue_db ≡ q.queue_db → get_all_songs r ≡ get_all_songs q
  unfolding get_all_songs
  same-entries q r e = rw e refl

  add_found-add_songs :
      (o : Option Song) (song_id : Text) (q : QueueService env)
      → add_found o song_id q ≡ add_songs (song_found o song_id) q
  unfolding add_songs
  add_found-add_songs none song_id q =
      elim (Bool-cases (starts_with (b'h' ∷ b't' ∷ b't' ∷ b'p' ∷ []) song_id)) [
        | inl e ↦ rw e refl
        | inr e ↦ rw e refl
      ]
  add_found-add_songs (some song) song_id q = refl

  pub add_song_by_id-add_songs :
      (song_id : Text) (q : QueueService env)
      → add_song_by_id song_id q ≡ add_songs (song_found (env.songs.find_by_id song_id) song_id) q
  unfolding add_song_by_id
  add_song_by_id-add_songs song_id q = add_found-add_songs (env.songs.find_by_id song_id) song_id q

  add_songs-append :
      (xs ys : List Song) (q : QueueService env)
      → add_songs (xs ++ ys) q ≡ add_songs ys (add_songs xs q)
  unfolding add_songs
  add_songs-append [] ys q = refl
  add_songs-append (x ∷ xs) ys q = add_songs-append xs ys (add_song x q)

  pub add_each_by_id-add_songs :
      (keys : List Text) (q : QueueService env)
      → add_each_by_id keys q ≡ add_songs (songs_by_id env keys) q
  unfolding add_each_by_id add_songs
  add_each_by_id-add_songs [] q = refl
  add_each_by_id-add_songs (key ∷ keys) q =
      let found = song_found (env.songs.find_by_id key) key in
      add_each_by_id-add_songs keys (add_song_by_id key q)
      ∙ ap (λ r. add_songs (songs_by_id env keys) r) (add_song_by_id-add_songs key q)
      ∙ sym (add_songs-append found (songs_by_id env keys) q)

  insert_songs-add_songs :
      (songs : List Song) (q : QueueService env) → (insert_songs songs q).1 ≡ add_songs songs q
  unfolding insert_songs add_songs add_song
  insert_songs-add_songs [] q = refl
  insert_songs-add_songs (song ∷ songs) q = insert_songs-add_songs songs (insert_song song q).1

  promote_new-entries :
      (ks : List ℕ) (q : QueueService env) → (promote_new ks q).1.queue_db ≡ q.queue_db
  promote_new-entries [] q = refl
  promote_new-entries (k ∷ ks) q = refl

  pub get_all_songs-add_songs_after_current :
      (songs : List Song) (q : QueueService env)
      → HasRoom (length songs) q
      → IsValid q
      → get_all_songs (add_songs_after_current songs q).1 ≡ get_all_songs q ++ songs
  unfolding add_songs_after_current
  get_all_songs-add_songs_after_current songs q room h =
      let (ks, r) = insert_songs songs q in
      same-entries r (promote_new ks r).1 (promote_new-entries ks r)
      ∙ ap (λ s. get_all_songs s) (insert_songs-add_songs songs q)
      ∙ get_all_songs-add_songs songs q room h

  pub get_all_songs-queue_found :
      (o : Option Song) (q : QueueService env)
      → IsValid q
      → get_all_songs (queue_found o q) ≡ get_all_songs q ++ just o
  unfolding add_to_priority_queue add_song
  get_all_songs-queue_found none q h = sym (append-nil (get_all_songs q))
  get_all_songs-queue_found (some song) q h =
      let (key, r) = insert_song song q in
      same-entries r (queue_found (some song) q) refl ∙ get_all_songs-add_song song q h
