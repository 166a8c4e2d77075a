-- ===== src/Albums/Queries.antt =====
-- The lookups of the albums.
use rsplayer.Prelude.{
  ℕ, Option, none, some, List, [], ◌∷◌, Bool, true, false, ltb, if◌then◌else◌, filter, filter_map,
  and_then, map_option, take,
}
use rsplayer.Song.{Text}
use rsplayer.Commands.{Album}
use rsplayer.Albums.{AlbumEnv, is_empty, or_text, text_eq, normal_form}

-- `sort_by_key(Reverse(..))`, which is stable, and `truncate`.
module _ {A : Type 0} (lt : A → A → Bool) where
  abbrev pub insert_desc : A → List A → List A
  insert_desc x [] = x ∷ []
  insert_desc x (y ∷ ys) = let rest = insert_desc x ys in if lt x y then y ∷ rest else x ∷ y ∷ ys

  abbrev pub sort_desc : List A → List A
  sort_desc [] = []
  sort_desc (x ∷ xs) = insert_desc x (sort_desc xs)

abbrev pub option_lt : Option ℕ → Option ℕ → Bool
option_lt none none = false
option_lt none (some b) = true
option_lt (some a) none = false
option_lt (some a) (some b) = ltb a b

module _ (env : AlbumEnv) where
  open env use {albums, from_bytes}

  abbrev pub with_id : Text → Album → Album
  with_id id album = record album { id = id }

  -- A key that is no text of UTF-8 does not occur.
  unfoldable pub find_all : albums.Store → List Album
  find_all db =
      filter_map
        (λ e. map_option (λ alb. record (with_id e.0 alb) { song_keys = [] }) (from_bytes e.1))
        (albums.iter db)

  unfoldable pub find_by_id : Text → albums.Store → Option Album
  find_by_id album_id db =
      let normalized_key = normal_form env album_id in
      if is_empty normalized_key
      then none
      else map_option (with_id album_id)
          (and_then (or_text (albums.get db normalized_key) (albums.get db album_id)) from_bytes)

  abbrev pub artist_is : Text → Option Text → Bool
  artist_is normalized_query none = false
  artist_is normalized_query (some artist) = text_eq (normal_form env artist) normalized_query

  unfoldable pub find_by_artist : Text → albums.Store → List Album
  find_by_artist artist db =
      filter (λ (alb : Album). artist_is (normal_form env artist) alb.artist)
        (filter_map (λ e. map_option (with_id e.0) (from_bytes e.1)) (albums.iter db))

  unfoldable pub find_all_sort_by_added_desc : ℕ → env.albums.Store → List Album
  unfolding find_all
  find_all_sort_by_added_desc limit db =
      take limit (sort_desc (λ (a b : Album). ltb a.added b.added) (find_all db))

  unfoldable pub find_all_sort_by_released_desc : ℕ → env.albums.Store → List Album
  unfolding find_all
  find_all_sort_by_released_desc limit db =
      take limit (sort_desc (λ (a b : Album). option_lt a.released b.released) (find_all db))
