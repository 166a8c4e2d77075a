-- ===== src/Icy/Audio.antt =====
-- The audio in a raw stream, and what the parsing of one block and one read leave of it.
use Prim.Native.Nat.{min}
use rsplayer.Prelude.{
  ℕ, zero, suc, ◌-◌, ◌*◌, ◌≡◌, ◌<◌, ◌≤◌, refl, sym, ap, ◌∙◌, [], ◌∷◌, ◌++◌, Bool, if◌then◌else◌,
  length, take, drop, ◌==◌, arith, leb, Bool-cases, inl, inr, Option, none, some,
}
use rsplayer.Song.{Bytes, Text}
use rsplayer.Icy.{
  IcyMetadataReader, read_audio, parse_length, take_block, note_metadata, announce, read_exact,
  is_utf8, title_of,
}

-- The audio in a raw stream: after `remaining` bytes of audio comes a length byte and sixteen times
-- as many bytes of metadata, `skip` of which are still to come, and then `metaint` bytes of audio.
abbrev pub audio : ℕ → ℕ → ℕ → Bytes → Bytes
audio metaint remaining skip [] = []
audio metaint remaining (suc skip) (b ∷ s) = audio metaint remaining skip s
audio metaint zero zero (b ∷ s) = audio metaint metaint (b * 16) s
audio metaint (suc remaining) zero (b ∷ s) = b ∷ audio metaint remaining zero s

-- The audio that a reader still has to hand out.
abbrev pub audio_of : IcyMetadataReader → Bytes
audio_of r = audio r.metaint r.remaining 0 r.inner

audio-skip :
    (metaint remaining n : ℕ) (s : Bytes)
    → audio metaint remaining n s ≡ audio metaint remaining 0 (drop n s)
audio-skip metaint remaining zero s = refl
audio-skip metaint remaining (suc n) [] = refl
audio-skip metaint remaining (suc n) (b ∷ s) = audio-skip metaint remaining n s

audio-take :
    (metaint remaining n : ℕ) (s : Bytes)
    → n ≤ remaining
    → take n s ++ audio metaint (remaining - length (take n s)) 0 (drop n s)
      ≡ audio metaint remaining 0 s
audio-take metaint remaining zero s h = ap (λ r. audio metaint r 0 s) (the-same remaining)
  where
    the-same : (r : ℕ) → r - 0 ≡ r
    the-same r = omega arith
audio-take metaint remaining (suc n) [] h = refl
audio-take metaint zero (suc n) (b ∷ s) h = absurd (omega arith)
audio-take metaint (suc r) (suc n) (b ∷ s) h =
    ap (λ l. b ∷ l)
      (ap (λ k. take n s ++ audio metaint k 0 (drop n s)) (less r (length (take n s)))
        ∙ audio-take metaint r n s (omega arith))
  where
    less : (r l : ℕ) → suc r - suc l ≡ r - l
    less r l = omega arith

drop_all : (n : ℕ) (s : Bytes) → length s ≤ n → drop n s ≡ []
drop_all zero [] h = refl
drop_all zero (b ∷ s) h = absurd (omega arith)
drop_all (suc n) [] h = refl
drop_all (suc n) (b ∷ s) h = drop_all n s (omega arith)

announce-metaint :
    (title : Option Text) (r : IcyMetadataReader) → (announce title r).metaint ≡ r.metaint
announce-metaint none r = refl
announce-metaint (some []) r = refl
announce-metaint (some (c ∷ title)) r = ground arith

note_metadata-metaint :
    (block : Bytes) (r : IcyMetadataReader) → (note_metadata block r).metaint ≡ r.metaint
unfolding note_metadata
note_metadata-metaint block r = elim (Bool-cases (is_utf8 block)) [
  | inl e ↦ rw e (announce-metaint (title_of block) r)
  | inr e ↦ rw e refl
]

-- What the parsing of a block leaves: the same audio, and `metaint` bytes of it before the next
-- block, or a stream that has ended.
pub record Parsed (r : IcyMetadataReader) (ok : Bool) (r' : IcyMetadataReader) : Type 0 where
  pub same_audio : audio_of r' ≡ audio_of r
  pub same_metaint : r'.metaint ≡ r.metaint
  pub ready : (if ok then r'.remaining else r.metaint) ≡ r.metaint
  pub ended : (if ok then [] else r'.inner) ≡ []

audio_of-block :
    (b : ℕ) (s : Bytes) (r : IcyMetadataReader)
    → r.inner ≡ b ∷ s
    → r.remaining ≡ 0
    → audio_of r ≡ audio r.metaint r.metaint 0 (drop (b * 16) s)
audio_of-block b s r e z =
    ap (λ n. audio r.metaint n 0 r.inner) z
    ∙ ap (λ l. audio r.metaint 0 0 l) e
    ∙ audio-skip r.metaint r.metaint (b * 16) s

read_exact-Parsed :
    (b : ℕ) (s : Bytes) (r : IcyMetadataReader)
    → r.inner ≡ b ∷ s
    → r.remaining ≡ 0
    → let (ok, r') = take_block (read_exact (b * 16) s) r in Parsed r ok r'
read_exact-Parsed b s r e z = elim (Bool-cases (leb (b * 16) (length s))) [
  | inl enough ↦ rw enough (record {
    same_audio =
        ap (λ m. audio m r.metaint 0 (drop (b * 16) s)) (note_metadata-metaint (take (b * 16) s) r)
        ∙ sym (audio_of-block b s r e z);
    same_metaint = note_metadata-metaint (take (b * 16) s) r;
    ready = refl;
    ended = refl;
  })
  | inr short ↦ rw short (record {
    same_audio = sym (
        audio_of-block b s r e z
        ∙ ap (λ l. audio r.metaint r.metaint 0 l) (drop_all (b * 16) s (ground arith)));
    same_metaint = refl;
    ready = refl;
    ended = refl;
  })
]

pub parse_length-Parsed :
    (s : Bytes) (r : IcyMetadataReader)
    → r.inner ≡ s
    → r.remaining ≡ 0
    → let (ok, r') = parse_length s r in Parsed r ok r'
parse_length-Parsed [] r e z = record {
  same_audio = refl;
  same_metaint = refl;
  ready = refl;
  ended = e;
}
parse_length-Parsed (b ∷ s) r e z = elim (Bool-cases (b == 0)) [
  | inl none' ↦ rw none' (record {
    same_audio =
        ap (λ n. audio r.metaint r.metaint 0 (drop n s)) (zero_block b (ground arith))
        ∙ sym (audio_of-block b s r e z);
    same_metaint = refl;
    ready = refl;
    ended = refl;
  })
  | inr some' ↦ rw some' (read_exact-Parsed b s r e z)
]
  where
    zero_block : (n : ℕ) → n ≡ 0 → 0 ≡ n * 16
    zero_block n h = omega arith

pub read_audio-audio :
    (more buf_len : ℕ) (r : IcyMetadataReader)
    → let (out, r') = read_audio more buf_len r in out ++ audio_of r' ≡ audio_of r
unfolding read_audio
read_audio-audio more buf_len r =
    let n = min (suc more) (min buf_len r.remaining) in
    elim (Bool-cases (length (take n r.inner) == 0)) [
      | inl e ↦ rw e refl
      | inr e ↦ rw e (audio-take r.metaint r.remaining n r.inner (omega arith))
    ]

-- A read of at least one byte finds none only at the end of the stream.
take-length : (n : ℕ) (s : Bytes) → (length (take (suc n) s) == 0) ≡ (length s == 0)
take-length n [] = refl
take-length n (b ∷ s) = ground arith

audio-length :
    (metaint n : ℕ) (s : Bytes) → (length (audio metaint (suc n) 0 s) == 0) ≡ (length s == 0)
audio-length metaint n [] = refl
audio-length metaint n (b ∷ s) = ground arith

pub read_audio-length :
    (more buf_len : ℕ) (r : IcyMetadataReader)
    → 0 < buf_len
    → 0 < r.remaining
    → (length (read_audio more buf_len r).0 == 0) ≡ (length (audio_of r) == 0)
unfolding read_audio
read_audio-length more buf_len r room left =
    let n = min (suc more) (min buf_len r.remaining) in
    let count : n ≡ suc (n - 1) = omega arith in
    let left' : r.remaining ≡ suc (r.remaining - 1) = omega arith in
    let found : (length (take n r.inner) == 0) ≡ (length r.inner == 0) =
      ap (λ k. length (take k r.inner) == 0) count ∙ take-length (n - 1) r.inner in
    let rest : (length (audio_of r) == 0) ≡ (length r.inner == 0) =
      ap (λ k. length (audio r.metaint k 0 r.inner) == 0) left'
      ∙ audio-length r.metaint (r.remaining - 1) r.inner in
    elim (Bool-cases (length (take n r.inner) == 0)) [
      | inl e ↦ rw e (sym (rest ∙ sym found ∙ e))
      | inr e ↦ rw e (found ∙ sym rest)
    ]
