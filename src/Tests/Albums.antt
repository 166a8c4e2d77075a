-- ===== src/Tests/Albums.antt =====
-- Albums held in memory.
use rsplayer.Prelude.{
  ◌≡◌, refl, some, filter, [], ◌∷◌, Option, map_option, true, false, Bool, length, bytes_eq,
}
use rsplayer.Store.Table.{text_table}
use rsplayer.Store.Texts.{lookup}
use rsplayer.Song.{Bytes, Text, Song, codes}
use rsplayer.Song.Encoding.{Codec, text, text?, nat?, nat_codec, list_codec, via, ◌&◌}
use rsplayer.Genre.Names.{Unicode}
use rsplayer.Commands.{Album}
use rsplayer.Albums.{
  AlbumEnv, trimmed, album_db_key, normal_form, stored_album, update_from_song, remove_from_song,
  cleanup_orphaned_albums,
}
use rsplayer.Albums.Filled.{updates, removes, cleans, run_all, run_all-AllFilled, AllFilled}
use rsplayer.Albums.Orphans.{AllValid, cleanup-AllValid}
use rsplayer.Albums.Undone.{remove-update}
use rsplayer.Albums.Queries.{find_all}
use rsplayer.Albums.Shelves.{find_all_by_decade}
use rsplayer.Albums.Decades.{IsShelf, released_in, find_all_by_decade_lem}
use rsplayer.Tests.{song_a, song_b}

abbrev album_codec : Codec Album
album_codec =
    via (text & text & text? & text? & text? & text? & nat? & nat_codec & list_codec text)
      (λ alb. (
        alb.id,
        (
          alb.title,
          (
            alb.image_id,
            (alb.artist, (alb.genre, (alb.label, (alb.released, (alb.added, alb.song_keys))))),
          ),
        ),
      ))
      (λ (a, (b, (c, (d, (e, (f, (g, (h, i)))))))). record {
        id = a;
        title = b;
        image_id = c;
        artist = d;
        genre = e;
        label = f;
        released = g;
        added = h;
        song_keys = i;
      })
      (λ alb. refl)

abbrev album_of : Bytes → Option Album
album_of b = map_option (λ (alb, rest). alb) (album_codec.read b)

album_of-write : (alb : Album) → album_of (album_codec.write alb []) ≡ some alb
album_of-write alb = rw (album_codec.read-write alb [])

abbrev plain : Unicode
plain = record {
  nfd = λ s. s;
  nfc = λ s. s;
  is_combining_mark = λ c. false;
  to_lowercase = λ s. s;
  to_uppercase = λ c. c ∷ [];
}

-- Every time is in the year 1973, and every date is one.
abbrev shop : AlbumEnv
shop = record {
  albums = text_table Bytes;
  to_json_string_bytes = λ alb. album_codec.write alb [];
  from_bytes = album_of;
  from_bytes-to_json_string_bytes = album_of-write;
  unicode = plain;
  parse_from_rfc3339 = λ t. some (length t);
  format_year = λ n. codes "1973";
  into_iter = λ m. m;
  into_iter-Distinct = λ m d. d;
  lookup-into_iter = λ m k d. refl;
}

abbrev meddle : Song
meddle = record song_a {
  album = some (codes " Meddle");
  artist = some (codes "Pink Floyd");
  date = some (codes "1971");
}

abbrev echoes : Song
echoes = record song_b { album = some (codes "Meddle"); artist = some (codes "Pink Floyd") }

abbrev animals : Song
animals = record song_b {
  album = some (codes "Animals");
  artist = some (codes "Pink Floyd");
  date = some (codes "1977");
}

abbrev no_albums : shop.albums.Store
no_albums = ([], tt)

abbrev one_album : shop.albums.Store
one_album = update_from_song shop meddle no_albums

abbrev meddle_key : Text
meddle_key = codes "Pink Floyd|Meddle"

abbrev only_b : Text → Bool
only_b t = bytes_eq t song_b.file

abbrev two_in_one : shop.albums.Store
two_in_one = update_from_song shop echoes one_album

abbrev cleaned : shop.albums.Store
cleaned = cleanup_orphaned_albums shop only_b two_in_one

abbrev cleaned_album : Album
cleaned_album = stored_album shop cleaned meddle_key

run_all-AllFilled_example : AllFilled shop (
    run_all shop
      (updates meddle ∷ updates echoes ∷ removes meddle ∷ cleans (λ t. true) ∷ [])
      no_albums)
run_all-AllFilled_example =
    run_all-AllFilled shop
      (updates meddle ∷ updates echoes ∷ removes meddle ∷ cleans (λ t. true) ∷ []) no_albums refl

cleaned_keys : cleaned_album.song_keys ≡ song_b.file ∷ []
unfolding update_from_song cleanup_orphaned_albums trimmed album_db_key normal_form
cleaned_keys = refl

cleanup-AllValid_example : AllValid only_b cleaned_album.song_keys
unfolding update_from_song cleanup_orphaned_albums trimmed album_db_key normal_form
cleanup-AllValid_example =
    cleanup-AllValid shop only_b two_in_one meddle_key (shop.to_json_string_bytes cleaned_album)
      cleaned_album refl refl

remove-update_example :
    ((stored_album shop
        (remove_from_song shop echoes (update_from_song shop echoes one_album))
        meddle_key).song_keys
      ≡ (stored_album shop one_album meddle_key).song_keys)
    × (shop.albums.get
          (remove_from_song shop echoes (update_from_song shop echoes one_album))
          (codes "Animals")
        ≡ shop.albums.get one_album (codes "Animals"))
unfolding update_from_song trimmed album_db_key normal_form
remove-update_example =
    remove-update shop echoes one_album meddle_key (codes "Animals") refl refl refl refl

find_all_by_decade_lem_example :
    IsShelf 5
      (filter
        (λ a. released_in shop (codes "1970s") a)
        (find_all shop (update_from_song shop animals one_album)))
      (lookup (codes "1970s") (find_all_by_decade shop 5 (update_from_song shop animals one_album)))
find_all_by_decade_lem_example =
    find_all_by_decade_lem shop 5 (update_from_song shop animals one_album) (codes "1970s")

shelf_of_two :
    map_option length
      (lookup (codes "1970s") (find_all_by_decade shop 5 (update_from_song shop animals one_album)))
    ≡ some 2
unfolding find_all_by_decade update_from_song trimmed album_db_key normal_form
shelf_of_two = refl
