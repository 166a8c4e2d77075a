-- ===== src/Albums/Decades.antt =====
-- What a decade's shelf holds.
use mathlib.Core.List.{Perm}
use rsplayer.Prelude.{
  ℕ, ◌≡◌, ◌≤◌, ◌<◌, leb, ◌&&◌, take, length, arith, refl, sym, ap, ◌∙◌, Option, none, some, List,
  [], ◌∷◌, ◌++◌, Bool, true, false, if◌then◌else◌, filter, and_then, unwrap_or, bytes_eq,
  bytes_eq-eq, Bool-cases, inl, inr, append-nil, append_assoc,
}
use rsplayer.Store.Texts.{text_lt, lookup, Distinct}
use rsplayer.Prelude.Decimal.{parse_uint}
use rsplayer.Song.{Text, codes}
use rsplayer.Commands.{Album}
use rsplayer.Albums.{AlbumEnv, text_eq}
use rsplayer.Albums.Queries.{find_all}
use rsplayer.Albums.Shelves.{
  push, decade_from, decade_of, put_decade, decade_map, shelf_by_released, find_all_by_decade,
}
use rsplayer.Albums.Sorted.{NewestFirst, sort_desc-NewestFirst, sort_desc-Perm}
use rsplayer.Albums.Maps.{
  lookup-sort_desc, lookup-kept, Distinct-kept, lookup-entry, entry-Distinct,
}

-- A shelf of some albums: at least two, sorted and cut off at the limit. Fewer make none.
abbrev pub IsShelf : ℕ → List Album → Option (List Album) → Type 0
IsShelf limit albums none = length albums < 2
IsShelf limit albums (some listed) =
    (2 ≤ length albums)
    × (sorted : List Album) × Perm sorted albums
    × NewestFirst sorted
    × (listed ≡ take limit sorted)

module _ (env : AlbumEnv) where
  abbrev is_of : Text → Option Text → Bool
  is_of decade none = false
  is_of decade (some d) = text_eq d decade

  -- The albums of a decade, in the order of the listing.
  abbrev albums_of : Text → List Album → List Album
  albums_of decade albums = filter (λ a. is_of decade (decade_of env a)) albums

  -- An album was released in 1950 or later, in a year whose first three digits and `0s` are the name
  -- of the decade. A year is read from its text, which is too long or no number for some dates.
  abbrev year_in : Text → Text → Option ℕ → Bool
  year_in decade year_str none = false
  year_in decade year_str (some year) =
      leb 1950 year && bytes_eq (take 3 year_str ++ codes "0s") decade

  abbrev date_in : Text → Option ℕ → Bool
  date_in decade none = false
  date_in decade (some released) =
      year_in decade (env.format_year released) (parse_uint 4294967295 (env.format_year released))

  abbrev pub released_in : Text → Album → Bool
  released_in decade album = date_in decade album.released

  is_of-decade_of :
      (decade : Text) (album : Album)
      → is_of decade (decade_of env album) ≡ released_in decade album
  is_of-decade_of decade album = by_date album.released
    where
      by_year :
          (year_str : Text) (o : Option ℕ)
          → is_of decade (and_then o (decade_from env year_str)) ≡ year_in decade year_str o
      by_year year_str none = refl
      by_year year_str (some year) = elim (Bool-cases (leb 1950 year)) [
        | inl e ↦ rw e refl
        | inr e ↦ rw e refl
      ]

      by_date :
          (o : Option ℕ)
          → is_of decade (
              and_then o (λ released.
                and_then
                  (parse_uint 4294967295 (env.format_year released))
                  (decade_from env (env.format_year released))))
            ≡ date_in decade o
      by_date none = refl
      by_date (some released) =
          by_year (env.format_year released) (parse_uint 4294967295 (env.format_year released))

  albums_of-released_in :
      (decade : Text) (albums : List Album)
      → albums_of decade albums ≡ filter (λ a. released_in decade a) albums
  albums_of-released_in decade [] = refl
  albums_of-released_in decade (album ∷ albums) =
      rw (is_of-decade_of decade album, albums_of-released_in decade albums) refl

  put_decade-Distinct :
      (o : Option Text) (album : Album) (m : List (Text × List Album))
      → Distinct m
      → Distinct (put_decade env o album m)
  put_decade-Distinct none album m d = d
  put_decade-Distinct (some decade) album m d = entry-Distinct (push album) decade [] m d

  decade_map-Distinct :
      (albums : List Album) (m : List (Text × List Album))
      → Distinct m
      → Distinct (decade_map env albums m)
  decade_map-Distinct [] m d = d
  decade_map-Distinct (album ∷ albums) m d =
      decade_map-Distinct albums _ (put_decade-Distinct (decade_of env album) album m d)

  abbrev shelf : Text → List (Text × List Album) → List Album
  shelf decade m = unwrap_or (lookup decade m) []

  shelf-put_decade :
      (o : Option Text) (album : Album) (m : List (Text × List Album)) (decade : Text)
      → shelf decade (put_decade env o album m)
        ≡ shelf decade m ++ (if is_of decade o then album ∷ [] else [])
  shelf-put_decade none album m decade = sym (append-nil _)
  shelf-put_decade (some d) album m decade = elim (Bool-cases (bytes_eq d decade)) [
    | inl e ↦
        rw (lookup-entry (push album) d [] decade m, e)
          (ap (λ t. shelf t m ++ album ∷ []) (bytes_eq-eq d decade e))
    | inr e ↦ rw (lookup-entry (push album) d [] decade m, e) (sym (append-nil _))
  ]

  shelf-decade_map :
      (albums : List Album) (m : List (Text × List Album)) (decade : Text)
      → shelf decade (decade_map env albums m) ≡ shelf decade m ++ albums_of decade albums
  shelf-decade_map [] m decade = sym (append-nil _)
  shelf-decade_map (album ∷ albums) m decade =
      shelf-decade_map albums (put_decade env (decade_of env album) album m) decade
      ∙ ap (λ s. s ++ albums_of decade albums)
          (shelf-put_decade (decade_of env album) album m decade)
      ∙ together (shelf decade m) (is_of decade (decade_of env album)) album
          (albums_of decade albums)
    where
      together :
          (s : List Album) (b : Bool) (album : Album) (l : List Album)
          → (s ++ (if b then album ∷ [] else [])) ++ l ≡ s ++ (if b then album ∷ l else l)
      together s true album l = append_assoc s (album ∷ []) l
      together s false album l = rw (append-nil s) refl

  lookup-find_all_by_decade :
      (limit : ℕ) (db : env.albums.Store) (decade : Text)
      → lookup decade (find_all_by_decade env limit db)
        ≡ shelf_by_released env limit (albums_of decade (find_all env db))
  unfolding find_all_by_decade
  lookup-find_all_by_decade limit db decade =
      let m = decade_map env (find_all env db) [] in
      let d = decade_map-Distinct (find_all env db) [] tt in
      lookup-sort_desc (λ x y. text_lt x.0 y.0) decade _
        (Distinct-kept (shelf_by_released env limit) (env.into_iter m) (env.into_iter-Distinct m d))
      ∙ lookup-kept (shelf_by_released env limit) decade (env.into_iter m)
          (env.into_iter-Distinct m d)
      ∙ ap (λ o. and_then o (shelf_by_released env limit)) (env.lookup-into_iter m decade d)
      ∙ on_shelf (lookup decade m)
      ∙ ap (shelf_by_released env limit) (shelf-decade_map (find_all env db) [] decade)
    where
      on_shelf :
          (o : Option (List Album))
          → and_then o (shelf_by_released env limit) ≡ shelf_by_released env limit (unwrap_or o [])
      on_shelf none = refl
      on_shelf (some l) = refl

  shelf_by_released-IsShelf :
      (limit : ℕ) (albums : List Album) → IsShelf limit albums (shelf_by_released env limit albums)
  shelf_by_released-IsShelf limit albums = elim (Bool-cases (leb 2 (length albums))) [
    | inl e ↦
        let two : 2 ≤ length albums = ground (arith, e) in
        rw e (two, _, sort_desc-Perm albums, sort_desc-NewestFirst albums, refl)
    | inr e ↦ let few : length albums < 2 = ground (arith, e) in rw e few
  ]

  -- What is listed under a decade: when at least two albums of the listing were released in it, in
  -- 1950 or later, the first ones, up to the limit, of these albums arranged from the newest to the
  -- oldest; otherwise nothing.
  pub find_all_by_decade_lem :
      (limit : ℕ) (db : env.albums.Store) (decade : Text)
      → IsShelf limit
          (filter (λ a. released_in decade a) (find_all env db))
          (lookup decade (find_all_by_decade env limit db))
  find_all_by_decade_lem limit db decade =
      rw (lookup-find_all_by_decade limit db decade, albums_of-released_in decade (find_all env db))
        (shelf_by_released-IsShelf limit (filter (λ a. released_in decade a) (find_all env db)))
