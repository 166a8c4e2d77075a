-- ===== src/Tests/Commands.antt =====
-- The theorems about the queue commands at a library with one album.
use rsplayer.Prelude.{◌≡◌, refl, [], ◌∷◌, ◌++◌, none, some, arith}
use rsplayer.Queue.Mode.{random}
use rsplayer.Queue.Pages.{get_all_songs}
use rsplayer.Queue.Reachable.Written.{Inv}
use rsplayer.Commands.{
  Album, Library, Context, get_songs_from_album, add_album_and_play, add_song_and_play,
}
use rsplayer.Commands.Handle.{handle_queue_command}
use rsplayer.Commands.Outcomes.{change, handle_queue_command-Outcome}
use rsplayer.Commands.Playing.{Orderly, handle_queue_command-Orderly}
use rsplayer.Commands.Twice.{HeardTwice, album, handle_queue_command-HeardTwice}
use rsplayer.Prelude.{true, false, List}
use rsplayer.Transport.{
  TransportContext, TransportEffect, handle_player_command, is_transport, play,
}
use rsplayer.Transport.Guard.{any_touches, handle_player_command-Guarded}
use rsplayer.Tests.{sample, song_a, song_b, two_songs}

abbrev one_album : Album
one_album = record {
  id = 1 ∷ [];
  title = 65 ∷ [];
  image_id = none;
  artist = none;
  genre = none;
  label = none;
  released = none;
  added = 0;
  song_keys = song_b.file ∷ song_a.file ∷ [];
}

abbrev shelf : Library
shelf = record {
  find_by_id = λ id. some one_album;
  find_by_artist = λ name. one_album ∷ [];
  find_all_by_genre = λ n. [];
  find_all_by_decade = λ n. [];
  playlist_items = λ name offset limit. [];
}

abbrev before : Context sample
before = record { queue = two_songs random; effects = [] }

before-Inv : Inv before.queue
before-Inv = record {
  valid = record {
    keys_used = (omega arith, (omega arith, tt));
    id_reserved = omega arith;
    aligned = refl;
  };
  songs = ((song_a, refl), ((song_b, refl), tt));
}

handle_queue_command-Outcome_example :
    get_all_songs (handle_queue_command shelf (add_album_and_play (1 ∷ [])) before).queue
    ≡ get_all_songs before.queue ++ song_b ∷ song_a ∷ []
unfolding change get_songs_from_album
handle_queue_command-Outcome_example =
    handle_queue_command-Outcome shelf (add_album_and_play (1 ∷ [])) before before-Inv (omega arith)

handle_queue_command-Orderly_example :
    Orderly before (handle_queue_command shelf (add_song_and_play song_a.file) before)
handle_queue_command-Orderly_example =
    handle_queue_command-Orderly shelf (add_song_and_play song_a.file) before

handle_queue_command-HeardTwice_example :
    HeardTwice
      (λ n. 0)
      song_b
      (song_a ∷ [])
      (handle_queue_command shelf (add_album_and_play (1 ∷ [])) before).queue
unfolding get_songs_from_album
handle_queue_command-HeardTwice_example =
    handle_queue_command-HeardTwice (λ n. 0) shelf (album (1 ∷ [])) song_b (song_a ∷ []) before
      (omega arith) before-Inv.valid refl

abbrev follower : TransportContext sample
follower = record {
  multiroom_follower_active = true;
  vu_meter_setting = false;
  current_player_info = none;
  queue = two_songs random;
  effects = [];
}

handle_player_command-Guarded_example :
    let ctx = handle_player_command play follower in
    (done : List TransportEffect) × (ctx.effects ≡ done)
    × (any_touches done ≡ false)
    × (get_all_songs ctx.queue ≡ get_all_songs follower.queue)
unfolding is_transport
handle_player_command-Guarded_example = handle_player_command-Guarded play follower
