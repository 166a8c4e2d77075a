-- ===== src/Tests/Playlist.antt =====
-- Playlists held in memory.
use rsplayer.Prelude.{◌≡◌, refl, none, some, [], ◌∷◌, List, Option, map_option, arith}
use rsplayer.Store.Table.{text_table}
use rsplayer.Song.{Bytes, Text, Song}
use rsplayer.Song.Encoding.{length_prefixed, Codec, text, text?, via, ◌&◌}
use rsplayer.Queue.Mode.{sequential}
use rsplayer.Tests.Queue.{two_songs-IsValid}
use rsplayer.Queue.Pages.{get_all_songs}
use rsplayer.Commands.{load_playlist_in_queue}
use rsplayer.Commands.Handle.{handle_queue_command}
use rsplayer.Playlist.{
  Playlist, PlaylistEnv, PlaylistService, save_new_playlist, get_playlist_page_by_name,
}
use rsplayer.Playlist.Saved.{save_new_playlist-page}
use rsplayer.Playlist.Clash.{save_new_playlist-others, save_new_playlist-clash}
use rsplayer.Playlist.Handle.{Catalogue, handle_playlist_command, save_queue_as_playlist}
use rsplayer.Playlist.Restored.{with_playlists, save_all, load-save_queue}
use rsplayer.Tests.{song_a, song_b, two_songs}
use mathlib.Core.List.{Perm}

abbrev playlist_codec : Codec Playlist
playlist_codec =
    via (text & text & text? & text? & text?)
      (λ pl. (pl.name, (pl.id, (pl.description, (pl.image, pl.owner_name)))))
      (λ (a, (b, (c, (d, e)))). record {
        name = a;
        id = b;
        description = c;
        image = d;
        owner_name = e;
      })
      (λ pl. refl)

abbrev playlist_of : Bytes → Option Playlist
playlist_of b = map_option (λ (pl, rest). pl) (playlist_codec.read b)

playlist_of-write : (pl : Playlist) → playlist_of (playlist_codec.write pl []) ≡ some pl
playlist_of-write pl = rw (playlist_codec.read-write pl [])

abbrev home : PlaylistEnv
home = record {
  main = text_table Bytes;
  pl_tree = text_table Bytes;
  codec = length_prefixed;
  to_vec = λ pl. playlist_codec.write pl [];
  from_slice = playlist_of;
  from_slice-to_vec = playlist_of-write;
}

abbrev mix : List Song
mix = song_b ∷ song_a ∷ song_b ∷ []

abbrev pop : Text
pop = 112 ∷ []

abbrev pop2 : Text
pop2 = 112 ∷ 50 ∷ []

abbrev jazz : Text
jazz = 106 ∷ []

abbrev empty : PlaylistService home
empty = record { main_db = ([], tt); pl_tree_db = ([], tt) }

save_new_playlist-page_example :
    ((get_playlist_page_by_name pop 0 5 (save_new_playlist pop mix empty)).total ≡ 3)
    × Perm (get_playlist_page_by_name pop 0 5 (save_new_playlist pop mix empty)).items mix
save_new_playlist-page_example = save_new_playlist-page pop mix empty 5 (cc) (omega arith)

save_new_playlist-others_example :
    get_playlist_page_by_name jazz 0 9
      (save_new_playlist pop mix (save_new_playlist jazz mix empty))
    ≡ get_playlist_page_by_name jazz 0 9 (save_new_playlist jazz mix empty)
save_new_playlist-others_example =
    save_new_playlist-others pop jazz mix (save_new_playlist jazz mix empty) 0 9 (refl, refl)

save_new_playlist-clash_example :
    (get_playlist_page_by_name pop2 0 9
      (save_new_playlist pop mix (save_new_playlist pop2 mix empty))).total
    ≡ 0
save_new_playlist-clash_example =
    save_new_playlist-clash pop [] 50 mix (save_new_playlist pop2 mix empty) 9 refl (cc)

abbrev catalogue : Catalogue
catalogue = record {
  library = record {
    find_by_id = λ t. none;
    find_by_artist = λ t. [];
    find_all_by_genre = λ n. [];
    find_all_by_decade = λ n. [];
    playlist_items = λ t offset limit. [];
  };
  find_song_by_id = λ t. none;
  get_most_played_songs = λ n. [];
  get_liked_songs = λ n. [];
  find_all_sort_by_added_desc = λ n. [];
  find_all_sort_by_released_desc = λ n. [];
}

load-save_queue_example :
    get_all_songs
      (handle_queue_command
        (with_playlists
          (save_all
            ((jazz, mix) ∷ [])
            (handle_playlist_command catalogue
              (save_queue_as_playlist pop)
              (two_songs sequential)
              empty).0)
          catalogue.library)
        (load_playlist_in_queue pop)
        (record { queue = two_songs sequential; effects = [] })).queue
    ≡ song_a ∷ song_b ∷ []
unfolding get_all_songs
load-save_queue_example =
    load-save_queue catalogue catalogue.library pop (two_songs sequential) empty ((jazz, mix) ∷ [])
      (record { queue = two_songs sequential; effects = [] }) (cc) (omega arith) ((refl, refl), tt)
      (omega arith) (two_songs-IsValid sequential)
