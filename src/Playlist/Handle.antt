-- ===== src/Playlist/Handle.antt =====
-- crates/server/src/playlist_commands.rs: the handler of the playlist commands. It returns the
-- playlists and the events that it has sent. The repositories that it reads enter as functions.
use rsplayer.Prelude.{
  ℕ, ◌*◌, Option, none, some, List, [], ◌∷◌, ◌++◌, if◌then◌else◌, length, take, drop, map,
  filter_map, head?, bytes_eq,
}
use rsplayer.Song.{Text, Song, codes}
use rsplayer.Queue.State.{Env, QueueService}
use rsplayer.Queue.Pages.{get_all_songs}
use rsplayer.Commands.{Album, Library, albums_of_group}
use rsplayer.Playlist.{
  Playlist, PlaylistType, latest_release, recently_added, most_played, liked, genre_header,
  decade_header, PlaylistEnv, PlaylistService, save_new_playlist, get_playlist_page_by_name,
  get_playlists,
}

-- api_models/src/common.rs
pub data PlaylistCommand : Type 0 where
  save_queue_as_playlist : Text → PlaylistCommand
  query_playlist_items query_album_items : Text → ℕ → PlaylistCommand
  query_playlist : PlaylistCommand
  query_albums_by_genre query_albums_by_decade : Text → PlaylistCommand

pub data PlaylistEvent : Type 0 where
  playlist_saved : Text → PlaylistEvent  -- the notification
  playlist_items_event : List Song → ℕ → PlaylistEvent
  playlists_event : List PlaylistType → PlaylistEvent
  genre_albums_event decade_albums_event : Text → List Album → PlaylistEvent

-- What the handler asks of the metadata service and of the repositories of albums and songs.
pub record Catalogue : Type 0 where
  pub library : Library
  pub find_song_by_id : Text → Option Song
  pub get_most_played_songs : ℕ → List Song
  pub get_liked_songs : ℕ → List Song
  pub find_all_sort_by_added_desc : ℕ → List Album
  pub find_all_sort_by_released_desc : ℕ → List Album

-- `"most_played"` and `"liked"`
abbrev pub most_played_id : Text
most_played_id = codes "most_played"

abbrev pub liked_id : Text
liked_id = codes "liked"

-- `.skip(page_no * 20).take(20)`
abbrev pub page_of {ℓ} : {A : Type ℓ} → ℕ → List A → List A
page_of page_no xs = take 20 (drop (page_no * 20) xs)

-- The row of a dynamic playlist, shown when it has a song; `codes` is a literal of the source.
abbrev pub dynamic_row :
    (Playlist → PlaylistType) → Text → Text → Text → Option Song → List PlaylistType
dynamic_row kind id name description none = []
dynamic_row kind id name description (some first) =
    kind (record {
      name = name;
      id = id;
      description = some description;
      image = first.image_id;
      owner_name = none;
    })
    ∷ []

abbrev pub group_rows : (Text → ℕ → PlaylistType) → List (Text × List Album) → List PlaylistType
group_rows header groups = map (λ g. header g.0 (length g.1)) groups

abbrev pub album_items : (Text → Option Song) → ℕ → Option Album → List PlaylistEvent
album_items find_song_by_id page_no none = []
album_items find_song_by_id page_no (some alb) =
    playlist_items_event (filter_map find_song_by_id (page_of page_no alb.song_keys)) page_no ∷ []

module _ {penv : PlaylistEnv} (catalogue : Catalogue) where
  open catalogue use {
    library, find_song_by_id, get_most_played_songs, get_liked_songs, find_all_sort_by_added_desc,
    find_all_sort_by_released_desc,
  }

  -- The rows of the home page.
  unfoldable pub home_rows : PlaylistService penv → List PlaylistType
  home_rows service =
      get_playlists service
      ++ map recently_added (find_all_sort_by_added_desc 30)
      ++ map latest_release (find_all_sort_by_released_desc 30)
      ++ dynamic_row most_played most_played_id (codes "Most Played")
          (codes "Your most played tracks") (head? (get_most_played_songs 1))
      ++ dynamic_row liked liked_id (codes "Liked") (codes "Songs you liked")
          (head? (get_liked_songs 1))
      ++ group_rows genre_header (library.find_all_by_genre 20)
      ++ group_rows decade_header (library.find_all_by_decade 20)

  unfoldable pub playlist_items_page : Text → ℕ → PlaylistService penv → List Song
  playlist_items_page playlist_id page_no service =
      if bytes_eq playlist_id most_played_id
      then page_of page_no (get_most_played_songs 100)
      else if bytes_eq playlist_id liked_id
      then page_of page_no (get_liked_songs 100)
      else (get_playlist_page_by_name playlist_id (page_no * 20) 20 service).items

  unfoldable pub handle_playlist_command :
      {env : Env}
      → PlaylistCommand
      → QueueService env
      → PlaylistService penv
      → PlaylistService penv × List PlaylistEvent
  unfolding home_rows playlist_items_page
  handle_playlist_command (save_queue_as_playlist playlist_name) queue service = (
    save_new_playlist playlist_name (get_all_songs queue) service,
    playlist_saved playlist_name ∷ [],
  )
  handle_playlist_command (query_playlist_items playlist_id page_no) queue service =
      (service, playlist_items_event (playlist_items_page playlist_id page_no service) page_no ∷ [])
  handle_playlist_command (query_album_items album_title page_no) queue service =
      (service, album_items find_song_by_id page_no (library.find_by_id album_title))
  handle_playlist_command query_playlist queue service =
      (service, playlists_event (home_rows service) ∷ [])
  handle_playlist_command (query_albums_by_genre genre) queue service = (
    service,
    genre_albums_event genre (albums_of_group genre (library.find_all_by_genre 20)) ∷ [],
  )
  handle_playlist_command (query_albums_by_decade decade) queue service = (
    service,
    decade_albums_event decade (albums_of_group decade (library.find_all_by_decade 20)) ∷ [],
  )
