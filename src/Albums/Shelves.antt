-- ===== src/Albums/Shelves.antt =====
-- The albums by decade and by genre, and the artists that have one. A `HashMap` is a list of its
-- entries.
use rsplayer.Prelude.{
  ℕ, Option, none, some, List, [], ◌∷◌, ◌++◌, ltb, leb, if◌then◌else◌, filter_map, and_then,
  map_option, unwrap_or, take, bytes_eq, length, map,
}
use rsplayer.Prelude.Decimal.{parse_uint}
use rsplayer.Prelude.Utf8.{chars, utf8}
use rsplayer.Genre.{resolve_id3v1_genre, is_junk_genre}
use rsplayer.Genre.Names.{title_case_genre, normalize_genre_key}
use rsplayer.Store.Texts.{text_lt}
use rsplayer.Song.{Text, codes}
use rsplayer.Commands.{Album}
use rsplayer.Albums.{AlbumEnv, is_empty, normal_form}
use rsplayer.Albums.Queries.{find_all, sort_desc, option_lt}

-- `entry(k).or_insert(v)`, and the change of what is there.
module _ {V : Type 0} (change : V → V) where
  abbrev pub entry : Text → V → List (Text × V) → List (Text × V)
  entry k v [] = (k, change v) ∷ []
  entry k v ((j, w) ∷ m) =
      let rest = entry k v m in if bytes_eq j k then (j, change w) ∷ m else (j, w) ∷ rest

abbrev pub push : Album → List Album → List Album
push album albums = albums ++ album ∷ []

-- The name to show, and the albums.
abbrev pub GenreEntry : Type 0
GenreEntry = Text × List Album

module _ (env : AlbumEnv) where
  open env use {format_year, into_iter, unicode}

  abbrev pub decade_from : Text → ℕ → Option Text
  decade_from year_str year = if leb 1950 year then some (take 3 year_str ++ codes "0s") else none

  abbrev pub decade_of : Album → Option Text
  decade_of album = and_then album.released (λ released.
      and_then (parse_uint 4294967295 (format_year released)) (decade_from (format_year released)))

  abbrev pub put_decade : Option Text → Album → List (Text × List Album) → List (Text × List Album)
  put_decade none album m = m
  put_decade (some decade) album m = entry (push album) decade [] m

  abbrev pub decade_map : List Album → List (Text × List Album) → List (Text × List Album)
  decade_map [] m = m
  decade_map (album ∷ albums) m = decade_map albums (put_decade (decade_of album) album m)

  abbrev pub shelf_by_released : ℕ → List Album → Option (List Album)
  shelf_by_released limit albums =
      if leb 2 (length albums)
      then some (take limit (sort_desc (λ (a b : Album). option_lt a.released b.released) albums))
      else none

  unfoldable pub find_all_by_decade : ℕ → env.albums.Store → List (Text × List Album)
  unfolding find_all parse_uint
  find_all_by_decade limit_per_decade db =
      sort_desc (λ x y. text_lt x.0 y.0)
        (filter_map
          (λ e. map_option (λ shelf. (e.0, shelf)) (shelf_by_released limit_per_decade e.1))
          (into_iter (decade_map (find_all env db) [])))

  -- `resolve_id3v1_genre(raw).map_or_else(|| raw.clone(), String::from)`
  abbrev pub genre_str : Text → Text
  genre_str raw = unwrap_or (map_option codes (resolve_id3v1_genre (chars raw))) raw

  -- The key of a genre, unless it is to be skipped.
  abbrev pub genre_key : Text → Option Text
  genre_key genre =
      let key = normalize_genre_key unicode (chars genre) in
      if is_empty genre then none else if is_junk_genre key then none else some (utf8 key)

  abbrev pub put_under :
      Option Text → Text → Album → List (Text × GenreEntry) → List (Text × GenreEntry)
  put_under none genre album m = m
  put_under (some key) genre album m =
      entry (λ e. (e.0, push album e.1)) key (utf8 (title_case_genre unicode (chars genre)), []) m

  abbrev pub put_genre : Option Text → Album → List (Text × GenreEntry) → List (Text × GenreEntry)
  put_genre none album m = m
  put_genre (some raw) album m = put_under (genre_key (genre_str raw)) (genre_str raw) album m

  abbrev pub genre_map : List Album → List (Text × GenreEntry) → List (Text × GenreEntry)
  genre_map [] m = m
  genre_map (album ∷ albums) m = genre_map albums (put_genre album.genre album m)

  abbrev pub shelf_by_added : ℕ → List Album → Option (List Album)
  shelf_by_added limit albums =
      if leb 2 (length albums)
      then some (take limit (sort_desc (λ (a b : Album). ltb a.added b.added) albums))
      else none

  abbrev pub lowercase : Text → Text
  lowercase t = utf8 (unicode.to_lowercase (chars t))

  unfoldable pub find_all_by_genre : ℕ → env.albums.Store → List (Text × List Album)
  unfolding find_all resolve_id3v1_genre is_junk_genre title_case_genre chars utf8
  find_all_by_genre limit_per_genre db =
      sort_desc (λ x y. text_lt (lowercase y.0) (lowercase x.0))
        (filter_map
          (λ e. map_option (λ shelf. (e.1.0, shelf)) (shelf_by_added limit_per_genre e.1.1))
          (into_iter (genre_map (find_all env db) [])))

  abbrev pub artist_pair : Option Text → Option (Text × Text)
  artist_pair none = none
  artist_pair (some display) =
      let key = normal_form env display in if is_empty key then none else some (key, display)

  -- `dedup_by`: what has the key of the one that stands before it goes.
  abbrev pub without : Text → List (Text × Text) → List (Text × Text)
  without key [] = []
  without key ((k, v) ∷ l) =
      let same = without key l in
      let other = without k l in if bytes_eq k key then same else (k, v) ∷ other

  abbrev pub dedup : List (Text × Text) → List (Text × Text)
  dedup [] = []
  dedup ((k, v) ∷ l) = (k, v) ∷ without k l

  unfoldable pub find_all_album_artists : env.albums.Store → List Text
  unfolding find_all normal_form
  find_all_album_artists db =
      map (λ e. e.1)
        (dedup (
          sort_desc (λ x y. text_lt y.0 x.0)
            (filter_map (λ (a : Album). artist_pair a.artist) (find_all env db))))
