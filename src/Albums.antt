-- ===== src/Albums.antt =====
-- crates/metadata/src/album_repository.rs: the albums, under `artist|album` in normal form. What is
-- known of dates (the `chrono` crate) and of characters is in the environment. A time is a number. The
-- result of an operation is left out, since the database works.
pub mod Queries
pub mod Shelves
pub mod Listed
pub mod Filled
pub mod Orphans
pub mod Undone
pub mod Maps
pub mod Sorted
pub mod Decades
use rsplayer.Prelude.{
  ℕ, zero, suc, ◌≡◌, Option, none, some, List, [], ◌∷◌, ◌++◌, Bool, true, false, not, ◌||◌, ltb,
  ◌==◌, if◌then◌else◌, length, filter, filter_map, is_some, unwrap_or, and_then, map_option,
  bytes_eq, take,
}
use rsplayer.Store.{TextKeyspace}
use rsplayer.Song.{Bytes, Text, Song, codes}
use rsplayer.Prelude.Utf8.{chars, utf8}
use rsplayer.Genre.{trim}
use rsplayer.Genre.Names.{Unicode, normalize_name}
use rsplayer.Store.Texts.{Distinct, lookup, keys}
use rsplayer.Commands.{Album}

pub record AlbumEnv : Type 1 where
  pub albums : TextKeyspace Bytes
  pub to_json_string_bytes : Album → Bytes
  pub from_bytes : Bytes → Option Album
  pub from_bytes-to_json_string_bytes :
      (alb : Album) → from_bytes (to_json_string_bytes alb) ≡ some alb
  pub unicode : Unicode
  pub parse_from_rfc3339 : Text → Option ℕ
  -- `format("%Y")`
  pub format_year : ℕ → Text
  -- The order of a `HashMap`: every key comes once, with its value.
  pub into_iter : {V : Type 0} → List (Text × V) → List (Text × V)
  pub into_iter-Distinct :
      {V : Type 0} → (m : List (Text × V)) → Distinct m → Distinct (into_iter m)
  pub lookup-into_iter :
      {V : Type 0}
      → (m : List (Text × V)) → (k : Text) → Distinct m
      → lookup k (into_iter m) ≡ lookup k m

-- `Album::default()`
abbrev pub default_album : Album
default_album = record {
  id = [];
  title = [];
  image_id = none;
  artist = none;
  genre = none;
  label = none;
  released = none;
  added = 0;
  song_keys = [];
}

abbrev pub is_empty {ℓ} : {A : Type ℓ} → List A → Bool
is_empty [] = true
is_empty (x ∷ xs) = false

abbrev pub contains_text : Text → List Text → Bool
contains_text t [] = false
contains_text t (k ∷ ks) = bytes_eq k t || contains_text t ks

abbrev pub or_text {ℓ} : {A : Type ℓ} → Option A → Option A → Option A
or_text none o = o
or_text (some t) o = some t

unfoldable pub trimmed : Text → Text
unfolding utf8 chars trim
trimmed t = utf8 (trim (chars t))

-- `.map(str::trim).filter(|s| !s.is_empty())`
abbrev pub nonblank : Option Text → Option Text
nonblank none = none
nonblank (some t) = if is_empty (trimmed t) then none else some (trimmed t)

-- `album.song_keys.push(song.file)`, if it is not there.
abbrev pub push_key : Text → Album → Album
push_key file album =
    if contains_text file album.song_keys
    then album
    else record album { song_keys = album.song_keys ++ file ∷ [] }

abbrev pub keep_keys : (Text → Bool) → Album → Album
keep_keys p album = record album { song_keys = filter p album.song_keys }

abbrev pub text_eq : Text → Text → Bool
text_eq a b = bytes_eq a b

abbrev pub tag : Text → List (Text × Text) → Option Text
tag name [] = none
tag name ((k, v) ∷ tags) = if bytes_eq k name then some v else tag name tags

abbrev pub or_title : Text → Album → Album
or_title title album = if is_empty album.title then record album { title = title } else album

module _ (env : AlbumEnv) where
  open env use {albums, from_bytes, to_json_string_bytes, unicode, parse_from_rfc3339}

  unfoldable pub normal_form : Text → Text
  unfolding utf8 chars normalize_name
  normal_form t = utf8 (normalize_name unicode (chars t))

  unfoldable pub album_db_key : Text → Text → Text
  album_db_key artist album =
      let na = normal_form artist in
      let nb = normal_form album in if is_empty na then nb else na ++ (b'|' ∷ nb)

  -- Where a song belongs: to an album with a title, to the single songs of an artist, or nowhere.
  pub data Place : Type 0 where
    nowhere : Place
    titled : Text → Place
    singles : Text → Place

  abbrev pub first_artist : Song → Option Text
  first_artist song = or_text song.album_artist song.artist

  abbrev pub place_of_artist : Option Text → Place
  place_of_artist none = nowhere
  place_of_artist (some artist) = singles artist

  -- `match song.album.as_ref()`
  abbrev pub place_of_album : Option Text → Song → Place
  place_of_album none song = place_of_artist (nonblank (first_artist song))
  place_of_album (some raw_album) song = titled raw_album

  abbrev pub place : Song → Place
  place song = place_of_album (nonblank song.album) song

  -- `normalize_name(&format!("__singletons__{artist}"))`, or the key of the album.
  abbrev pub place_key : Place → Song → Text
  place_key nowhere song = []
  place_key (singles artist) song = normal_form (codes "__singletons__" ++ artist)
  place_key (titled raw_album) song = album_db_key (unwrap_or (first_artist song) []) raw_album

  abbrev pub year_start : Text → Option ℕ
  year_start year = parse_from_rfc3339 (year ++ codes "-01-01T00:00:00Z")

  abbrev pub set_released : Option ℕ → Album → Album
  set_released none album = album
  set_released (some dt) album = record album { released = some dt }

  abbrev pub released_from : Option Text → Option Text → Album → Album
  released_from (some date) year album =
      set_released (parse_from_rfc3339 date)
        (if length date == 4 then set_released (year_start date) album else album)
  released_from none none album = album
  released_from none (some year) album = set_released (year_start year) album

  abbrev pub set_image : Option Text → Album → Album
  set_image none album = album
  set_image (some id) album = record album { image_id = some id }

  abbrev pub set_artist : Option Text → Album → Album
  set_artist none album = album
  set_artist (some artist) album = record album { artist = some artist }

  abbrev pub set_genre : Option Text → Album → Album
  set_genre none album = album
  set_genre (some genre) album = record album { genre = some genre }

  abbrev pub set_label : Option Text → Album → Album
  set_label none album = album
  set_label (some label) album = record album { label = some label }

  abbrev pub dated : Song → Album → Album
  dated song album = record album { added = song.file_date }

  -- What a song writes into its album.
  unfoldable pub updated : Place → Song → Album → Album
  updated nowhere song album = album
  updated (singles artist) song album = dated song (
      or_title (b'[' ∷ (artist ++ b']' ∷ []))
        (set_artist (some artist) (set_image song.image_id (push_key song.file album))))
  updated (titled raw_album) song album = dated song (
      or_title raw_album (
        set_label song.label (
          set_genre song.genre (
            released_from song.date (tag (codes "year") song.tags) (
              set_artist (or_text (nonblank song.album_artist) (nonblank song.artist))
                (set_image song.image_id (push_key song.file album)))))))

  abbrev pub stored_album : albums.Store → Text → Album
  stored_album db key = unwrap_or (and_then (albums.get db key) from_bytes) default_album

  unfoldable pub update_from_song : Song → albums.Store → albums.Store
  unfolding updated
  update_from_song song db =
      let key = place_key (place song) song in
      if is_empty key
      then db
      else albums.insert db key
          (to_json_string_bytes (updated (place song) song (stored_album db key)))

  -- An album goes when it has no song left.
  abbrev pub write_or_remove : Text → Album → albums.Store → albums.Store
  write_or_remove key album db =
      if is_empty album.song_keys
      then albums.remove db key
      else albums.insert db key (to_json_string_bytes album)

  abbrev pub remove_key : Text → Text → Option Bytes → albums.Store → albums.Store
  remove_key file key none db = db
  remove_key file key (some bytes) db =
      write_or_remove key
        (keep_keys (λ k. not (text_eq k file)) (unwrap_or (from_bytes bytes) default_album)) db

  unfoldable pub remove_from_song : Song → albums.Store → albums.Store
  remove_from_song song db =
      let key = place_key (place song) song in
      if is_empty key then db else remove_key song.file key (albums.get db key) db

  -- An album that loses songs, with the songs that it keeps.
  abbrev pub shrunk : (Text → Bool) → Text → Option Album → Option (Text × Album)
  shrunk valid key none = none
  shrunk valid key (some album) =
      let kept = keep_keys valid album in
      if ltb (length kept.song_keys) (length album.song_keys) then some (key, kept) else none

  abbrev pub write_each : List (Text × Album) → albums.Store → albums.Store
  write_each [] db = db
  write_each ((key, album) ∷ to_update) db = write_each to_update (write_or_remove key album db)

  unfoldable pub cleanup_orphaned_albums : (Text → Bool) → albums.Store → albums.Store
  cleanup_orphaned_albums valid db =
      write_each (filter_map (λ e. shrunk valid e.0 (from_bytes e.1)) (albums.iter db)) db

  abbrev pub delete_all : albums.Store → albums.Store
  delete_all db = albums.clear db
