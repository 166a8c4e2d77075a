-- ===== src/Queue/Pages.antt =====
-- queue_service.rs: what the queue shows: the songs, their pages and the current one.
pub mod Paging
use rsplayer.Prelude.{
  ℕ, zero, suc, ◌+◌, ◌≡◌, Option, none, some, List, [], ◌∷◌, ◌++◌, Bool, true, false, ◌&&◌, ◌||◌,
  if◌then◌else◌, ltb, leb, length, take, filter_map,
}
use rsplayer.Store.Ordered.{values}
use rsplayer.Song.{Bytes, Text, Song, all_text, windows_any}
use rsplayer.Queue.State.{Env, QueueService, get_current_or_first_song_key}

-- api_models/src/playlist.rs
pub record PlaylistPage : Type 0 where
  pub total : ℕ
  pub offset : ℕ
  pub limit : ℕ
  pub items : List Song

-- api_models/src/state.rs
pub data CurrentQueueQuery : Type 0 where
  with_search_term : Text → ℕ → CurrentQueueQuery
  current_song_page : CurrentQueueQuery
  ignore_songs : CurrentQueueQuery

-- The loop of `get_queue_page` over the parsed songs, with its two variables.
unfoldable pub page_loop : ℕ → ℕ → (Song → Bool) → List Song → ℕ → List Song → ℕ × List Song
page_loop offset limit song_filter [] total items = (total, items)
page_loop offset limit song_filter (song ∷ songs) total items =
    let keep = song_filter song in
    page_loop offset limit song_filter songs (if keep then total + 1 else total)
      (if keep && leb offset total && ltb (length items) limit then items ++ song ∷ [] else items)

-- `term.is_empty() || song.all_text().to_lowercase().contains(&term)`
abbrev pub matches_term : Env → Text → Song → Bool
matches_term env [] song = true
matches_term env (c ∷ term) song = windows_any (c ∷ term) (env.codec.lower_case (all_text song))

module _ {env : Env} where
  unfoldable pub get_all_songs : QueueService env → List Song
  get_all_songs q = filter_map env.codec.bytes_to_song (values (env.queue.iter q.queue_db))

  unfoldable pub get_queue_page : ℕ → ℕ → (Song → Bool) → QueueService env → ℕ × List Song
  unfolding page_loop
  get_queue_page offset limit song_filter q =
      page_loop offset limit song_filter
        (filter_map env.codec.bytes_to_song (values (env.queue.iter q.queue_db))) 0 []

  -- The songs from a key on, if there is one.
  abbrev pub songs_from : ℕ → Option ℕ → QueueService env → List Song
  songs_from limit none q = []
  songs_from limit (some key) q =
      take limit (filter_map env.codec.bytes_to_song (values (env.queue.range_from q.queue_db key)))

  unfoldable pub get_queue_page_starting_from_current_song :
      ℕ → QueueService env → List Song × QueueService env
  get_queue_page_starting_from_current_song limit q =
      let (current, q') = get_current_or_first_song_key q in (songs_from limit current q', q')

  unfoldable pub query_current_queue :
      CurrentQueueQuery → QueueService env → Option PlaylistPage × QueueService env
  query_current_queue (with_search_term term offset) q =
      let (total, songs) =
        get_queue_page offset 100 (matches_term env (env.codec.lower_case term)) q in
      (some (record { total = total; offset = offset + 100; limit = 100; items = songs }), q)
  query_current_queue current_song_page q =
      let (songs, q') = get_queue_page_starting_from_current_song 100 q in
      (some (record { total = 100; offset = 0; limit = 100; items = songs }), q')
  query_current_queue ignore_songs q = (none, q)
