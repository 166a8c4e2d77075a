-- ===== src/Commands.antt =====
-- crates/server/src/queue_commands.rs: the handler of the queue commands. A handler is a function on
-- the queue and the list of what was done besides: calls of the player and events that were sent, in
-- order. The repositories of albums and playlists
-- (crates/metadata/src/ports, playlist_service.rs) enter as functions.
pub mod Handle
pub mod Refine
pub mod Outcomes
pub mod Kept
pub mod Playing
pub mod Twice
use Prim.Native.String.{String}
use rsplayer.Prelude.{
  ℕ, Option, none, some, List, [], ◌∷◌, ◌++◌, Bool, if◌then◌else◌, length, filter_map, unwrap_or,
  map_option, bytes_eq,
}
use rsplayer.Song.{Text, Song}
use rsplayer.Queue.State.{Env, QueueService}
use rsplayer.Queue.Pages.{PlaylistPage, CurrentQueueQuery}

-- api_models/src/playlist.rs
pub record Album : Type 0 where
  pub id : Text
  pub title : Text
  pub image_id : Option Text
  pub artist : Option Text
  pub genre : Option Text
  pub label : Option Text
  pub released : Option ℕ
  pub added : ℕ
  pub song_keys : List Text

pub record Library : Type 0 where
  pub find_by_id : Text → Option Album
  pub find_by_artist : Text → List Album
  pub find_all_by_genre : ℕ → List (Text × List Album)
  pub find_all_by_decade : ℕ → List (Text × List Album)
  pub playlist_items : Text → ℕ → ℕ → List Song

-- api_models/src/common.rs
pub data QueueCommand : Type 0 where
  load_playlist_in_queue load_album_in_queue load_artist_in_queue : Text → QueueCommand
  load_song_to_queue load_local_lib_directory add_song_to_queue : Text → QueueCommand
  add_artist_to_queue add_local_lib_directory add_playlist_to_queue : Text → QueueCommand
  add_album_to_queue : Text → QueueCommand
  clear_queue query_current_song : QueueCommand
  query_queue : CurrentQueueQuery → QueueCommand
  remove_item add_song_after add_song_and_play : Text → QueueCommand
  add_directory_after add_directory_and_play add_artist_after add_artist_and_play :
      Text → QueueCommand
  add_album_after add_album_and_play load_genre_in_queue add_genre_to_queue : Text → QueueCommand
  load_decade_in_queue add_decade_to_queue : Text → QueueCommand
  move_item_to : Text → Text → QueueCommand
  move_item_after : Text → QueueCommand

-- A notification: a fixed text, one with the number of songs in front, or one that names a thing.
pub data Message : Type 0 where
  text : String → Message
  counted : ℕ → String → Message
  counted_of : ℕ → String → Text → String → Message
  naming : String → Text → String → Message

pub data Effect : Type 0 where
  stop_current_song play_from_beginning : Effect
  send_notification : Message → Effect
  current_song_event : Song → Effect
  current_queue_event : Option PlaylistPage → Effect

pub record Context (env : Env) : Type 0 where
  pub queue : QueueService env
  pub effects : List Effect

abbrev pub Handler : Env → Type 0
Handler env = Context env → Context env

-- `a; b`
infixl 5 ◌>>◌
abbrev pub ◌>>◌ : {env : Env} → Handler env → Handler env → Handler env
◌>>◌ a b ctx = b (a ctx)

module _ {env : Env} where
  abbrev pub effect : Effect → Handler env
  effect e ctx = record ctx { effects = ctx.effects ++ e ∷ [] }

  abbrev pub on_queue : (QueueService env → QueueService env) → Handler env
  on_queue f ctx = record ctx { queue = f ctx.queue }

  abbrev pub notify : String → Handler env
  notify message = effect (send_notification (text message))

-- `.find(|(g, _)| g == genre).map(|(_, albums)| albums).unwrap_or_default()`
abbrev pub albums_of_group : Text → List (Text × List Album) → List Album
albums_of_group name [] = []
albums_of_group name ((group, albums) ∷ groups) =
    if bytes_eq group name then albums else albums_of_group name groups

abbrev pub reload : Library → List Album → List Album
reload library albums = filter_map (λ (alb : Album). library.find_by_id alb.id) albums

-- `flat_map(|alb| alb.song_keys.iter())`
abbrev pub keys_of_albums : List Album → List Text
keys_of_albums [] = []
keys_of_albums (alb ∷ albums) = alb.song_keys ++ keys_of_albums albums

module _ (env : Env) where
  abbrev pub songs_of_keys : List Text → List Song
  songs_of_keys keys = filter_map env.songs.find_by_id keys

  abbrev pub songs_of_album : Option Album → List Song
  songs_of_album none = []
  songs_of_album (some alb) = songs_of_keys alb.song_keys

  abbrev pub songs_of_albums : List Album → List Song
  songs_of_albums albums = songs_of_keys (keys_of_albums albums)

  unfoldable pub get_songs_from_album : Library → Text → List Song
  get_songs_from_album library album_id = songs_of_album (library.find_by_id album_id)

  unfoldable pub get_songs_from_artist : Library → Text → List Song
  get_songs_from_artist library artist = songs_of_albums (library.find_by_artist artist)

  unfoldable pub get_songs_from_genre : Library → Text → List Song
  get_songs_from_genre library genre =
      songs_of_albums (reload library (albums_of_group genre (library.find_all_by_genre 20)))

  unfoldable pub get_songs_from_decade : Library → Text → List Song
  get_songs_from_decade library decade =
      songs_of_albums (reload library (albums_of_group decade (library.find_all_by_decade 20)))
