-- ===== src/Icy/Reads.antt =====
-- What reads of any sizes hand out.
use rsplayer.Prelude.{
  ℕ, suc, ◌+◌, ◌-◌, ◌≡◌, ◌<◌, ◌≤◌, refl, sym, ap, ◌∙◌, List, [], ◌∷◌, ◌++◌, Bool, true, false,
  length, ◌==◌, arith, Bool-cases, inl, inr, length-append, append_assoc,
}
use rsplayer.Song.{Bytes}
use rsplayer.Icy.{IcyMetadataReader, read, read_audio, parse_metadata, parse_length, read_after}
use rsplayer.Icy.Audio.{
  audio, audio_of, Parsed, read_audio-audio, read_audio-length, parse_length-Parsed,
}

-- The result of a read: what it has handed out and what is left are the audio there was, and it
-- has handed out nothing only when there was none.
abbrev pub Delivered : IcyMetadataReader → Bytes × IcyMetadataReader → Type 0
Delivered r (out, r') =
    (out ++ audio_of r' ≡ audio_of r)
    × ((length out == 0) ≡ (length (audio_of r) == 0))
    × (r'.metaint ≡ r.metaint)

read_audio-metaint :
    (more buf_len : ℕ) (r : IcyMetadataReader) → (read_audio more buf_len r).1.metaint ≡ r.metaint
unfolding read_audio
read_audio-metaint more buf_len r = ground arith

read_audio-Delivered :
    (more buf_len : ℕ) (r : IcyMetadataReader)
    → 0 < buf_len
    → 0 < r.remaining
    → Delivered r (read_audio more buf_len r)
read_audio-Delivered more buf_len r room left = (
  read_audio-audio more buf_len r,
  read_audio-length more buf_len r room left,
  read_audio-metaint more buf_len r,
)

read_after-Delivered :
    (more buf_len : ℕ) (r : IcyMetadataReader) (ok : Bool) (r' : IcyMetadataReader)
    → 0 < buf_len
    → 0 < r.metaint
    → Parsed r ok r'
    → Delivered r (read_after more buf_len (ok, r'))
read_after-Delivered more buf_len r false r' room positive parsed =
    let over : audio_of r ≡ [] =
      sym parsed.same_audio ∙ ap (λ l. audio r'.metaint r'.remaining 0 l) parsed.ended in
    (parsed.same_audio, sym (ap (λ l. length l == 0) over), parsed.same_metaint)
read_after-Delivered more buf_len r true r' room positive parsed =
    let (same, found, metaint) =
      read_audio-Delivered more buf_len r' room (omega (arith, parsed.ready)) in
    (
      same ∙ parsed.same_audio,
      found ∙ ap (λ l. length l == 0) parsed.same_audio,
      metaint ∙ parsed.same_metaint,
    )

read-Delivered :
    (more buf_len : ℕ) (r : IcyMetadataReader)
    → 0 < buf_len
    → 0 < r.metaint
    → Delivered r (read more buf_len r)
unfolding read parse_metadata
read-Delivered more buf_len r room positive = elim (Bool-cases (r.remaining == 0)) [
  | inl none' ↦
      let (ok, r') = parse_length r.inner r in
      rw none' (
        read_after-Delivered more buf_len r ok r' room positive
          (parse_length-Parsed r.inner r refl (ground arith)))
  | inr some' ↦ rw some' (read_audio-Delivered more buf_len r room (ground arith))
]

-- Several reads, each with the size of its buffer less one and with how much more than one byte the
-- inner reader is ready to give.
unfoldable pub read_all : List (ℕ × ℕ) → IcyMetadataReader → Bytes × IcyMetadataReader
unfolding read
read_all [] r = ([], r)
read_all ((more, size) ∷ requests) r =
    let (out, r') = read more (suc size) r in
    let (outs, r'') = read_all requests r' in (out ++ outs, r'')

-- With a positive `metaint`, and whatever the sizes of the reads are and however much the inner
-- reader gives at a time: what the reads have handed out, followed by the audio that is left, is
-- the audio of the raw stream; and reads into buffers that are not empty, as many as there are bytes
-- of audio, hand out all of it.
pub read_all-audio :
    (requests : List (ℕ × ℕ)) (r : IcyMetadataReader)
    → 0 < r.metaint
    → let (outs, r') = read_all requests r in
      (outs ++ audio_of r' ≡ audio_of r)
      × (length (audio_of r') ≤ length (audio_of r) - length requests)
unfolding read_all
read_all-audio [] r positive = (refl, omega arith)
read_all-audio ((more, size) ∷ requests) r positive =
    let (same, found, metaint) = read-Delivered more (suc size) r (omega arith) positive in
    let (out, r') = read more (suc size) r in
    let (rest, less) = read_all-audio requests r' (omega (arith, metaint)) in
    let (outs, r'') = read_all requests r' in
    let total : length out + length (audio_of r') ≡ length (audio_of r) =
      sym (length-append out (audio_of r')) ∙ ap (λ l. length l) same in
    (
      append_assoc out outs (audio_of r'') ∙ ap (λ l. out ++ l) rest ∙ same,
      ground (arith, total, found, less),
    )
