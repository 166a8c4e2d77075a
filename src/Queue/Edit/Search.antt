-- ===== src/Queue/Edit/Search.antt =====
-- Finding and removing a song by its file, with the byte prefilter.
use rsplayer.Prelude.{
  ℕ, ◌≡◌, ◌<◌, refl, Option, none, some, List, [], ◌∷◌, arith, true, false, ap, ◌∙◌, Bool,
  Bool-cases, inl, inr, if◌then◌else◌, ◌&&◌, filter_map, bytes_eq, bytes_eq-eq, subst, ne→==,
  ==_refl,
}
use rsplayer.Store.Ordered.{IsSorted, Above, values, remove}
use rsplayer.Song.{Song, Bytes, Text, windows_any}
use rsplayer.Queue.State.{Env, QueueService}
use rsplayer.Queue.Edit.{is_entry_of, find_entry, find_entry_by_song_id, remove_entry, remove_song}
use rsplayer.Queue.Pages.{get_all_songs}

-- The list without its first song of that file.
abbrev pub remove_first : Text → List Song → List Song
remove_first song_id [] = []
remove_first song_id (song ∷ songs) =
    if bytes_eq song.file song_id then songs else song ∷ remove_first song_id songs

and_false : (b : Bool) → (b && false) ≡ false
and_false true = refl
and_false false = refl

abbrev key_or : Option (ℕ × Bytes) → ℕ → ℕ
key_or none j = j
key_or (some (k, _)) j = k

module _ (env : Env) where
  open env use {codec}

  -- Every value is the serialisation of a song.
  abbrev pub AllSongs : List (ℕ × Bytes) → Type 0
  AllSongs [] = Unit
  AllSongs ((k, v) ∷ l) = ((song : Song) × (v ≡ env.codec.to_json_string_bytes song)) × AllSongs l

  -- On the serialisation of a song, the prefilter changes nothing.
  pub is_entry_of-song :
      (song_id : Text) (song : Song)
      → is_entry_of env song_id (codec.to_json_string_bytes song) ≡ bytes_eq song.file song_id
  unfolding is_entry_of
  is_entry_of-song song_id song = elim (Bool-cases (bytes_eq song.file song_id)) [
    | inl same ↦
        let e = bytes_eq-eq song.file song_id same in
        let hit : windows_any (codec.to_json_string song_id) (codec.to_json_string_bytes song)
            ≡ true =
          subst (λ t. windows_any (codec.to_json_string t) (codec.to_json_string_bytes song) ≡ true)
            e (codec.file_in_bytes song) in
        rw (hit, codec.bytes_to_song-to_json_string_bytes)
    | inr other ↦
        rw (codec.bytes_to_song-to_json_string_bytes, other)
          (and_false (windows_any (codec.to_json_string song_id) (codec.to_json_string_bytes song)))
  ]

  find_entry-Above :
      (song_id : Text) (b k : ℕ) (v : Bytes) (l : List (ℕ × Bytes))
      → Above b l
      → find_entry env song_id l ≡ some (k, v)
      → b < k
  unfolding find_entry
  find_entry-Above song_id b k v [] h e = absurd (cc)
  find_entry-Above song_id b k v ((j, w) ∷ l) h e = elim (Bool-cases (is_entry_of env song_id w)) [
    | inl found ↦
        let e' : some (j, w) ≡ some (k, v) = rw found at e in
        let same : j ≡ k = ap (λ o. key_or o j) e' in omega (arith, h.0, same)
    | inr other ↦ find_entry-Above song_id b k v l h.1 (rw other at e)
  ]

  -- The entries without the found one.
  abbrev without : Option (ℕ × Bytes) → List (ℕ × Bytes) → List (ℕ × Bytes)
  without none l = l
  without (some (k, _)) l = remove k l

  abbrev pub songs_of : List (ℕ × Bytes) → List Song
  songs_of l = filter_map env.codec.bytes_to_song (values l)

  without-cons :
      (song_id : Text) (j : ℕ) (w : Bytes) (l : List (ℕ × Bytes)) (o : Option (ℕ × Bytes))
      → Above j l
      → find_entry env song_id l ≡ o
      → without o ((j, w) ∷ l) ≡ (j, w) ∷ without o l
  without-cons song_id j w l none h e = refl
  without-cons song_id j w l (some (k, v)) h e =
      let apart = find_entry-Above song_id j k v l h e in rw (ne→== j k (λ same. omega arith))

  without-found :
      (song_id : Text) (l : List (ℕ × Bytes))
      → IsSorted l
      → AllSongs l
      → songs_of (without (find_entry env song_id l) l) ≡ remove_first song_id (songs_of l)
  unfolding find_entry
  without-found song_id [] s h = refl
  without-found song_id ((j, w) ∷ l) s h =
      let song = h.0.0 in
      let decoded : codec.bytes_to_song w ≡ some song =
        rw h.0.1 (codec.bytes_to_song-to_json_string_bytes song) in
      let test : is_entry_of env song_id w ≡ bytes_eq song.file song_id =
        rw h.0.1 (is_entry_of-song song_id song) in
      elim (Bool-cases (bytes_eq song.file song_id)) [
        | inl same ↦
            let first : is_entry_of env song_id w ≡ true = test ∙ same in
            rw (first, ==_refl j, decoded, same)
        | inr other ↦
            let next : is_entry_of env song_id w ≡ false = test ∙ other in
            rw
              (next, without-cons song_id j w l (find_entry env song_id l) s.0 refl, decoded, other)
              (ap (λ r. song ∷ r) (without-found song_id l s.1 h.1))
      ]

module _ {env : Env} where
  iter-remove_entry :
      (o : Option (ℕ × Bytes)) (q : QueueService env)
      → env.queue.iter (remove_entry o q).queue_db ≡ without env o (env.queue.iter q.queue_db)
  iter-remove_entry none q = refl
  iter-remove_entry (some (k, _)) q = env.queue.iter-remove q.queue_db k

  -- Removing by file takes out exactly the first song of that file, whatever the byte prefilter
  -- does, from a queue whose values are serialised songs.
  pub remove_song_lem :
      (song_id : Text) (q : QueueService env)
      → AllSongs env (env.queue.iter q.queue_db)
      → get_all_songs (remove_song song_id q) ≡ remove_first song_id (get_all_songs q)
  unfolding remove_song find_entry_by_song_id get_all_songs
  remove_song_lem song_id q h =
      ap (songs_of env) (iter-remove_entry (find_entry env song_id (env.queue.iter q.queue_db)) q)
      ∙ without-found env song_id (env.queue.iter q.queue_db) (env.queue.iter-IsSorted q.queue_db) h
