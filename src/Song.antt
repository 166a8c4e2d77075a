-- ===== src/Song.antt =====
-- crates/api_models/src/player.rs and stat.rs: a song, its play counters, and their serialisation.
-- A text is the list of its UTF-8 bytes. Times are counts of their smallest unit.
pub mod Encoding
use Prim.Native.Char.{code}
use Prim.Native.String
use Prim.Native.String.{String}
use rsplayer.Prelude.{
  ℕ, zero, suc, ◌≡◌, refl, Bool, true, false, ◌||◌, Option, none, some, List, [], ◌∷◌, ◌++◌, ◌==◌,
  ◌&&◌, if◌then◌else◌,
}

abbrev pub Bytes : Type 0
Bytes = List ℕ

abbrev pub Text : Type 0
Text = List ℕ

-- The bytes of a literal with ASCII characters only.
abbrev pub codes : String → Text
codes String.[] = []
codes (String.◌∷◌ c s) = code c ∷ codes s

pub record PlayItemStatistics : Type 0 where
  pub play_item_id : Text
  pub play_count : ℕ
  pub last_played : Option ℕ
  pub skipped_count : ℕ
  pub liked_count : ℕ

pub record Song : Type 0 where
  pub title : Option Text
  pub album : Option Text
  pub artist : Option Text
  pub genre : Option Text
  pub date : Option Text
  pub last_modified : Option Text
  pub track : Option Text
  pub disc : Option Text
  pub album_artist : Option Text
  pub time : Option ℕ
  pub performer : Option Text
  pub label : Option Text
  pub composer : Option Text
  pub image_url : Option Text
  pub image_id : Option Text
  pub tags : List (Text × Text)
  pub file : Text
  pub file_date : ℕ
  pub statistics : Option PlayItemStatistics

-- `Song { file, ..Default::default() }`
abbrev pub song_of_file : Text → Song
song_of_file f = record {
  title = none;
  album = none;
  artist = none;
  genre = none;
  date = none;
  last_modified = none;
  track = none;
  disc = none;
  album_artist = none;
  time = none;
  performer = none;
  label = none;
  composer = none;
  image_url = none;
  image_id = none;
  tags = [];
  file = f;
  file_date = 0;
  statistics = none;
}

abbrev pub starts_with : Text → Text → Bool
starts_with [] s = true
starts_with (p ∷ ps) [] = false
starts_with (p ∷ ps) (c ∷ s) = p == c && starts_with ps s

-- `value.windows(needle.len()).any(|window| window == needle)`
abbrev pub windows_any : Bytes → Bytes → Bool
windows_any needle [] = starts_with needle []
windows_any needle (c ∷ s) = starts_with needle (c ∷ s) || windows_any needle s

-- One `if let Some(t) = ... { push(' '); push_str(t) }`.
push_field : Text → Option Text → Text
push_field result none = result
push_field result (some t) = result ++ (b' ' ∷ t)

unfoldable pub all_text : Song → Text
unfolding push_field
all_text s =
    push_field
      (push_field
        (push_field
          (push_field
            (push_field (push_field (push_field (push_field [] s.title) s.artist) s.album)
              s.album_artist)
            s.genre)
          s.composer)
        s.performer)
      s.date

-- The `serde_json` crate: the bytes of a song, and of the JSON string of a text. A song is read
-- back from its bytes, and those contain the JSON string of its file.
pub record SongCodec : Type 0 where
  pub to_json_string_bytes : Song → Bytes
  pub bytes_to_song : Bytes → Option Song
  pub to_json_string : Text → Bytes
  pub lower_case : Text → Text
  pub bytes_to_song-to_json_string_bytes :
      (s : Song) → bytes_to_song (to_json_string_bytes s) ≡ some s
  pub file_in_bytes :
      (s : Song) → windows_any (to_json_string s.file) (to_json_string_bytes s) ≡ true
