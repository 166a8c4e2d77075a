-- ===== src/Song/Encoding.antt =====
-- A concrete `SongCodec`, which shows that what `Song` asks of `serde_json` can hold. A codec writes
-- a value in front of a rest, and reads both back; numbers stand for themselves, and a list has its
-- length in front.
use rsplayer.Prelude.{
  ℕ, zero, suc, ◌≡◌, refl, ap, true, Option, none, some, List, [], ◌∷◌, ◌++◌, ==_refl, map_option,
  length,
}
use rsplayer.Song.{Bytes, Text, PlayItemStatistics, Song, starts_with, windows_any, SongCodec}

pub record Codec (A : Type 0) : Type 0 where
  pub write : A → Bytes → Bytes
  pub read : Bytes → Option (A × Bytes)
  pub read-write : (a : A) → (rest : Bytes) → read (write a rest) ≡ some (a, rest)

abbrev read_nat : Bytes → Option (ℕ × Bytes)
read_nat [] = none
read_nat (n ∷ s) = some (n, s)

abbrev pub nat_codec : Codec ℕ
nat_codec = record { write = λ n rest. n ∷ rest; read = read_nat; read-write = λ n rest. refl }

module _ {A : Type 0} (c : Codec A) where
  abbrev write_each : List A → Bytes → Bytes
  write_each [] rest = rest
  write_each (a ∷ xs) rest = c.write a (write_each xs rest)

  abbrev put : Option (A × Bytes) → (Bytes → Option (List A × Bytes)) → Option (List A × Bytes)
  put none next = none
  put (some (a, s)) next = map_option (λ (xs, s'). (a ∷ xs, s')) (next s)

  abbrev read_each : ℕ → Bytes → Option (List A × Bytes)
  read_each zero s = some ([], s)
  read_each (suc n) s = put (c.read s) (read_each n)

  pub read_each-write_each :
      (xs : List A) → (rest : Bytes) → read_each (length xs) (write_each xs rest) ≡ some (xs, rest)
  read_each-write_each [] rest = refl
  read_each-write_each (a ∷ xs) rest =
      rw (c.read-write a (write_each xs rest), read_each-write_each xs rest)

  abbrev read_list : Bytes → Option (List A × Bytes)
  read_list [] = none
  read_list (n ∷ s) = read_each n s

  abbrev pub list_codec : Codec (List A)
  list_codec = record {
    write = λ xs rest. length xs ∷ write_each xs rest;
    read = read_list;
    read-write = read_each-write_each;
  }

  abbrev to_list : Option A → List A
  to_list none = []
  to_list (some a) = a ∷ []

  abbrev of_list : List A → Option A
  of_list [] = none
  of_list (a ∷ xs) = some a

pub of_list-to_list : {A : Type 0} → (c : Codec A) → (o : Option A) → of_list c (to_list c o) ≡ o
of_list-to_list c none = refl
of_list-to_list c (some a) = refl

module _ {A B : Type 0} (c : Codec A) (d : Codec B) where
  abbrev read_second : Option (A × Bytes) → Option ((A × B) × Bytes)
  read_second none = none
  read_second (some (a, s)) = map_option (λ (b, s'). ((a, b), s')) (d.read s)

  infixr 5 ◌&◌
  abbrev pub ◌&◌ : Codec (A × B)
  ◌&◌ = record {
    write = λ (a, b) rest. c.write a (d.write b rest);
    read = λ s. read_second (c.read s);
    read-write = λ (a, b) rest. rw (c.read-write a (d.write b rest), d.read-write b rest);
  }

module _ {A B : Type 0} (c : Codec B) (to : A → B) (from : B → A)
    (law : (a : A) → from (to a) ≡ a) where
  abbrev map_read : Option (B × Bytes) → Option (A × Bytes)
  map_read none = none
  map_read (some (b, s)) = some (from b, s)

  abbrev pub via : Codec A
  via = record {
    write = λ a. c.write (to a);
    read = λ s. map_read (c.read s);
    read-write = λ a rest. rw (c.read-write (to a) rest, law a);
  }

abbrev option_codec : {A : Type 0} → Codec A → Codec (Option A)
option_codec c = via (list_codec c) (to_list c) (of_list c) (of_list-to_list c)

abbrev pub text : Codec Text
text = list_codec nat_codec

abbrev pub text? : Codec (Option Text)
text? = option_codec text

abbrev pub nat? : Codec (Option ℕ)
nat? = option_codec nat_codec

abbrev statistics_codec : Codec PlayItemStatistics
statistics_codec =
    via (text & nat_codec & nat? & nat_codec & nat_codec)
      (λ s. (s.play_item_id, (s.play_count, (s.last_played, (s.skipped_count, s.liked_count)))))
      (λ (a, (b, (c, (d, e)))). record {
        play_item_id = a;
        play_count = b;
        last_played = c;
        skipped_count = d;
        liked_count = e;
      })
      (λ s. refl)

abbrev song_codec : Codec Song
song_codec =
    via
      (text
        & (text? & text? & text? & text? & text? & text? & text? & text?)
        & (text? & nat? & text? & text? & text? & text? & text?)
        & (list_codec (text & text) & nat_codec & option_codec statistics_codec))
      (λ s. (
        s.file,
        (
          (
            s.title,
            (s.album, (s.artist, (s.genre, (s.date, (s.last_modified, (s.track, s.disc)))))),
          ),
          (
            (
              s.album_artist,
              (s.time, (s.performer, (s.label, (s.composer, (s.image_url, s.image_id))))),
            ),
            (s.tags, (s.file_date, s.statistics)),
          ),
        ),
      ))
      (λ (
        f,
        ((a, (b, (c, (d, (e, (g, (h, i))))))), ((j, (k, (l, (m, (n, (o, p)))))), (q, (r, t)))),
      ).
        record {
          title = a;
          album = b;
          artist = c;
          genre = d;
          date = e;
          last_modified = g;
          track = h;
          disc = i;
          album_artist = j;
          time = k;
          performer = l;
          label = m;
          composer = n;
          image_url = o;
          image_id = p;
          tags = q;
          file = f;
          file_date = r;
          statistics = t;
        })
      (λ s. refl)

starts_with-append : (xs ys : Text) → starts_with xs (xs ++ ys) ≡ true
starts_with-append [] ys = refl
starts_with-append (x ∷ xs) ys = rw (==_refl x, starts_with-append xs ys)

write_each-nat : (xs rest : Text) → write_each nat_codec xs rest ≡ xs ++ rest
write_each-nat [] rest = refl
write_each-nat (x ∷ xs) rest = ap (λ s. x ∷ s) (write_each-nat xs rest)

-- The bytes of a song begin with those of its file.
pub windows_any-write :
    (t : Text) → (rest : Bytes) → windows_any (length t ∷ t) (text.write t rest) ≡ true
windows_any-write t rest = rw (==_refl (length t), write_each-nat t rest, starts_with-append t rest)

pub map_option-fst :
    (s : Song) → map_option (λ (t, rest). t) (song_codec.read (song_codec.write s [])) ≡ some s
map_option-fst s = rw (song_codec.read-write s [])

abbrev pub length_prefixed : SongCodec
length_prefixed = record {
  to_json_string_bytes = λ s. song_codec.write s [];
  bytes_to_song = λ b. map_option (λ (t, rest). t) (song_codec.read b);
  to_json_string = λ t. length t ∷ t;
  lower_case = λ t. t;
  bytes_to_song-to_json_string_bytes = map_option-fst;
  file_in_bytes = λ s. windows_any-write s.file _;
}
