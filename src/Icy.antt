-- ===== src/Icy.antt =====
-- crates/metadata/src/icy_reader.rs: the reader that takes the metadata blocks out of the byte
-- stream of a radio station. The inner reader is the list of the bytes to come; a single read of it
-- gives at least one byte when there are any and the buffer has room, and at most as many as the
-- buffer holds: `more` says how many more than one it is ready to give. Its errors other than the
-- end of the stream are not modelled. Events are the list of the songs that were sent.
pub mod Audio
pub mod Reads
use Prim.Native.Nat.{min}
use rsplayer.Prelude.{
  ℕ, zero, suc, ◌+◌, ◌-◌, ◌*◌, ◌≡◌, Option, none, some, List, [], ◌∷◌, ◌++◌, Bool, true, false, not,
  if◌then◌else◌, length, take, drop, leb, ltb, ◌==◌, ◌&&◌, ◌||◌, bytes_eq, unwrap_or,
}
use rsplayer.Song.{Bytes, Text, Song, song_of_file, starts_with}

-- radio_meta.rs
pub record RadioMeta : Type 0 where
  pub name : Option Text
  pub description : Option Text
  pub url : Text
  pub genre : Option Text
  pub image_url : Option Text
  pub samplerate : Option ℕ
  pub channels : Option ℕ
  pub bitrate : Option ℕ

pub record IcyMetadataReader : Type 0 where
  pub inner : Bytes
  pub metaint : ℕ
  pub remaining : ℕ
  pub changes_tx : List Song
  pub last_title : Text
  pub radio_meta : RadioMeta

unfoldable pub new : Bytes → ℕ → List Song → RadioMeta → IcyMetadataReader
new inner metaint changes_tx radio_meta = record {
  inner = inner;
  metaint = metaint;
  remaining = metaint;
  changes_tx = changes_tx;
  last_title = [];
  radio_meta = radio_meta;
}

-- `std::str::from_utf8`: the well-formed byte sequences.
abbrev pub continues : ℕ → Bool
continues b = leb 128 b && leb b 191

abbrev pub second_ok : ℕ → ℕ → Bool
second_ok a b =
    if a == 224
    then leb 160 b && leb b 191
    else if a == 237
    then leb 128 b && leb b 159
    else if a == 240
    then leb 144 b && leb b 191
    else if a == 244
    then leb 128 b && leb b 143
    else continues b

-- How many more bytes the first byte of a character asks for; none for a byte that cannot be first.
abbrev pub tail_length : ℕ → Option ℕ
tail_length a =
    if ltb a 128
    then some 0
    else if leb 194 a && leb a 223
    then some 1
    else if leb 224 a && leb a 239
    then some 2
    else if leb 240 a && leb a 244
    then some 3
    else none

pub data Awaiting : Type 0 where
  character : Awaiting
  second : ℕ → ℕ → Awaiting
  continuation : ℕ → Awaiting

abbrev pub awaiting : ℕ → Option ℕ → Option Awaiting
awaiting a none = none
awaiting a (some zero) = some character
awaiting a (some (suc n)) = some (second a n)

abbrev pub then_await : ℕ → Awaiting
then_await zero = character
then_await (suc n) = continuation n

abbrev pub step_utf8 : Awaiting → ℕ → Option Awaiting
step_utf8 character b = awaiting b (tail_length b)
step_utf8 (second a n) b = if second_ok a b then some (then_await n) else none
step_utf8 (continuation n) b = if continues b then some (then_await n) else none

abbrev pub run_utf8 : Option Awaiting → Bytes → Bool
run_utf8 none s = false
run_utf8 (some character) [] = true
run_utf8 (some (second a n)) [] = false
run_utf8 (some (continuation n)) [] = false
run_utf8 (some w) (b ∷ s) = run_utf8 (step_utf8 w b) s

unfoldable pub is_utf8 : Bytes → Bool
is_utf8 s = run_utf8 (some character) s

-- The text before and behind the first occurrence of a separator, which is not empty.
unfoldable pub split_once : Text → Text → Option (Text × Text)
split_once sep [] = none
split_once sep (c ∷ s) =
    let rest = split_once sep s in
    if starts_with sep (c ∷ s)
    then some ([], drop (length sep) (c ∷ s))
    else elim rest [ none ↦ none | some (before, behind) ↦ some (c ∷ before, behind) ]

abbrev pub before_sep : Text → Text → Text
before_sep sep s = elim (split_once sep s) [ none ↦ s | some (before, behind) ↦ before ]

-- "StreamTitle='", "';" and " - "
abbrev pub stream_title : Text
stream_title =
    b'S' ∷ b't' ∷ b'r' ∷ b'e' ∷ b'a' ∷ b'm' ∷ b'T' ∷ b'i' ∷ b't' ∷ b'l' ∷ b'e' ∷ b'=' ∷ 39 ∷ []

abbrev pub title_end : Text
title_end = 39 ∷ b';' ∷ []

abbrev pub artist_sep : Text
artist_sep = b' ' ∷ b'-' ∷ b' ' ∷ []

-- `split("StreamTitle='").nth(1)`, then `split("';").next()`
unfoldable pub title_of : Text → Option Text
title_of metadata = elim (split_once stream_title metadata) [
  | none ↦ none
  | some (before, behind) ↦ some (before_sep title_end (before_sep stream_title behind))
]

abbrev pub or_next : Text → Text → Text
or_next [] next = next
or_next (c ∷ s) next = c ∷ s

unfoldable pub album_of : RadioMeta → Text
album_of meta = or_next (or_next (unwrap_or meta.description []) (unwrap_or meta.name [])) meta.url

-- `splitn(2, " - ")`: the artist and the title of the song, or the whole as the title.
abbrev pub parts_of : Text → Option (Text × Text) → Option Text × Option Text
parts_of title none = (none, some title)
parts_of title (some (before, behind)) = (some before, some behind)

unfoldable pub song_of : RadioMeta → Text → Song
song_of meta title =
    let (artist, song_title) = parts_of title (split_once artist_sep title) in
    record (song_of_file meta.url) {
      title = song_title;
      artist = artist;
      album = some (album_of meta);
      genre = meta.genre;
      image_url = meta.image_url;
    }

abbrev pub announce : Option Text → IcyMetadataReader → IcyMetadataReader
announce none r = r
announce (some []) r = r
announce (some (c ∷ title)) r = if bytes_eq (c ∷ title) r.last_title then r else record r {
  last_title = c ∷ title;
  changes_tx = r.changes_tx ++ song_of r.radio_meta (c ∷ title) ∷ [];
}

-- `read_exact`; at the end of the stream nothing is left, and the result is an error.
abbrev pub read_exact : ℕ → Bytes → Option (Bytes × Bytes)
read_exact n s = if leb n (length s) then some (take n s, drop n s) else none

-- The block of metadata, if it is well-formed text with a title.
unfoldable pub note_metadata : Bytes → IcyMetadataReader → IcyMetadataReader
note_metadata block r = if is_utf8 block then announce (title_of block) r else r

abbrev pub take_block : Option (Bytes × Bytes) → IcyMetadataReader → Bool × IcyMetadataReader
take_block none r = (false, record r { inner = [] })
take_block (some (block, rest)) r =
    (true, record (note_metadata block r) { inner = rest; remaining = r.metaint })

abbrev pub parse_length : Bytes → IcyMetadataReader → Bool × IcyMetadataReader
parse_length [] r = (false, r)
parse_length (len_byte ∷ s) r =
    if len_byte == 0
    then (true, record r { inner = s; remaining = r.metaint })
    else take_block (read_exact (len_byte * 16) s) r

-- The Boolean is false for the error `UnexpectedEof`.
unfoldable pub parse_metadata : IcyMetadataReader → Bool × IcyMetadataReader
parse_metadata r = parse_length r.inner r

unfoldable pub read_audio : ℕ → ℕ → IcyMetadataReader → Bytes × IcyMetadataReader
read_audio more buf_len r =
    let read_len = min buf_len r.remaining in
    let bytes_read = take (min (suc more) read_len) r.inner in
    if length bytes_read == 0 then ([], r) else (
      bytes_read,
      record r {
        inner = drop (min (suc more) read_len) r.inner;
        remaining = r.remaining - length bytes_read;
      },
    )

abbrev pub read_after : ℕ → ℕ → Bool × IcyMetadataReader → Bytes × IcyMetadataReader
read_after more buf_len (false, r) = ([], r)
read_after more buf_len (true, r) = read_audio more buf_len r

-- `read` into a buffer of `buf_len` bytes: the bytes that it has filled in.
unfoldable pub read : ℕ → ℕ → IcyMetadataReader → Bytes × IcyMetadataReader
unfolding parse_metadata
read more buf_len r =
    if r.remaining == 0
    then read_after more buf_len (parse_metadata r)
    else read_audio more buf_len r
