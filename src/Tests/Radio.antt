-- ===== src/Tests/Radio.antt =====
-- The radio reader on a short stream: four bytes of audio, an empty block, and a byte of audio.
use rsplayer.Prelude.{◌≡◌, ◌≤◌, ◌-◌, [], ◌∷◌, ◌++◌, none, arith, length}
use rsplayer.Icy.{IcyMetadataReader, RadioMeta}
use rsplayer.Icy.Audio.{audio_of}
use rsplayer.Icy.Reads.{read_all, read_all-audio}

abbrev station : RadioMeta
station = record {
  name = none;
  description = none;
  url = [];
  genre = none;
  image_url = none;
  samplerate = none;
  channels = none;
  bitrate = none;
}

abbrev stream : IcyMetadataReader
stream = record {
  inner = 10 ∷ 11 ∷ 12 ∷ 13 ∷ 0 ∷ 14 ∷ [];
  metaint = 4;
  remaining = 4;
  changes_tx = [];
  last_title = [];
  radio_meta = station;
}

read_all-audio_example :
    let (outs, r) = read_all ((2, 7) ∷ (0, 0) ∷ (5, 3) ∷ (1, 1) ∷ []) stream in
    (outs ++ audio_of r ≡ 10 ∷ 11 ∷ 12 ∷ 13 ∷ 14 ∷ []) × (length (audio_of r) ≤ 5 - 4)
read_all-audio_example =
    read_all-audio ((2, 7) ∷ (0, 0) ∷ (5, 3) ∷ (1, 1) ∷ []) stream (omega arith)
