-- ===== src/Playlist.antt =====
-- crates/metadata/src/playlist_service.rs: the saved playlists. `playlist` has the songs under
-- `{name}_{index}`, and `playlist_list` one entry for each name.
pub mod Entries
pub mod Saved
pub mod Clash
pub mod Handle
pub mod Restored
use rsplayer.Prelude.{
  ℕ, suc, ◌≡◌, Option, none, some, List, [], ◌∷◌, ◌++◌, length, take, drop, filter_map, map_option,
}
use rsplayer.Prelude.Decimal.{to_string}
use rsplayer.Store.{TextKeyspace}
use rsplayer.Store.Texts.{keys, values}
use rsplayer.Song.{Bytes, Text, Song, SongCodec}
use rsplayer.Queue.Pages.{PlaylistPage}
use rsplayer.Commands.{Album}

-- api_models/src/playlist.rs
pub record Playlist : Type 0 where
  pub name : Text
  pub id : Text
  pub description : Option Text
  pub image : Option Text
  pub owner_name : Option Text

pub data PlaylistType : Type 0 where
  saved featured : Playlist → PlaylistType
  latest_release recently_added : Album → PlaylistType
  most_played liked : Playlist → PlaylistType
  by_genre by_decade : Album → PlaylistType
  genre_header decade_header : Text → ℕ → PlaylistType

-- The two keyspaces, and `serde_json` at songs and playlists.
pub record PlaylistEnv : Type 1 where
  pub main : TextKeyspace Bytes
  pub pl_tree : TextKeyspace Bytes
  pub codec : SongCodec
  pub to_vec : Playlist → Bytes
  pub from_slice : Bytes → Option Playlist
  pub from_slice-to_vec : (pl : Playlist) → from_slice (to_vec pl) ≡ some pl

pub record PlaylistService (env : PlaylistEnv) : Type 0 where
  pub main_db : env.main.Store
  pub pl_tree_db : env.pl_tree.Store

-- `format!("{playlist_name}_{idx}")`
abbrev pub entry_key : Text → ℕ → Text
entry_key playlist_name idx = playlist_name ++ (b'_' ∷ to_string idx)

-- `Playlist { name, id: name, .. }`
abbrev pub playlist_named : Text → Playlist
playlist_named playlist_name = record {
  name = playlist_name;
  id = playlist_name;
  description = none;
  image = none;
  owner_name = none;
}

module _ (env : PlaylistEnv) where
  open env use {main, codec}

  unfoldable pub remove_keys : List Text → main.Store → main.Store
  remove_keys [] db = db
  remove_keys (key ∷ keys_to_remove) db = remove_keys keys_to_remove (main.remove db key)

  unfoldable pub insert_songs : Text → ℕ → List Song → main.Store → main.Store
  insert_songs playlist_name idx [] db = db
  insert_songs playlist_name idx (song ∷ songs) db =
      insert_songs playlist_name (suc idx) songs
        (main.insert db (entry_key playlist_name idx) (codec.to_json_string_bytes song))

module _ {env : PlaylistEnv} where
  open env use {main, pl_tree, codec}

  unfoldable pub save_new_playlist : Text → List Song → PlaylistService env → PlaylistService env
  save_new_playlist playlist_name [] service = service
  save_new_playlist playlist_name (song ∷ songs) service =
      let keys_to_remove = keys (main.prefix service.main_db playlist_name) in
      record {
        main_db =
            insert_songs env playlist_name 0 (song ∷ songs)
              (remove_keys env keys_to_remove service.main_db);
        pl_tree_db =
            pl_tree.insert service.pl_tree_db playlist_name
              (env.to_vec (playlist_named playlist_name));
      }

  unfoldable pub get_playlist_page_by_name : Text → ℕ → ℕ → PlaylistService env → PlaylistPage
  get_playlist_page_by_name playlist_name offset limit service =
      let entries = values (main.prefix service.main_db playlist_name) in
      record {
        total = length entries;
        offset = offset;
        limit = limit;
        items = filter_map codec.bytes_to_song (take limit (drop offset entries));
      }

  unfoldable pub get_playlists : PlaylistService env → List PlaylistType
  get_playlists service =
      filter_map (λ value. map_option saved (env.from_slice value))
        (values (pl_tree.iter service.pl_tree_db))
