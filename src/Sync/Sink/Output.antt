-- ===== src/Sync/Sink/Output.antt =====
-- What the sink writes: blocks, silence, the fading in and the stretching.
use rsplayer.Prelude.{
  ℕ, zero, suc, ◌+◌, ◌-◌, ◌*◌, ◌/◌, Option, none, some, List, [], ◌∷◌, ◌++◌, ltb, ◌==◌,
  if◌then◌else◌, length, take, drop, map,
}
use Prim.Native.Nat.{min}
use rsplayer.Sync.Sink.{
  Floats, SinkWrite, audio, silence, panics, Pipeline, at_least_one_channel, chunk_frames,
  splice_fade_frames,
}

module _ (f : Floats) where
  abbrev pub amplify : Option f.F32 → List f.F32 → List f.F32
  amplify none samples = samples
  amplify (some g) samples = map (λ s. f.mul s g) samples

  -- `samples.chunks(..)`: no more blocks than there are samples. A block without a whole frame is
  -- passed over.
  abbrev pub write_blocks : ℕ → Pipeline f → List f.F32 → List (SinkWrite f)
  write_blocks zero p samples = []
  write_blocks (suc fuel) p [] = []
  write_blocks (suc fuel) p (s ∷ samples) =
      let block = take (chunk_frames * p.channels) (s ∷ samples) in
      let rest = write_blocks fuel p (drop (chunk_frames * p.channels) (s ∷ samples)) in
      if length block / p.channels == 0 then rest else audio (amplify p.gain block) ∷ rest

  unfoldable pub write_samples : (Pipeline f) → List f.F32 → List (SinkWrite f)
  write_samples p samples =
      if p.channels == 0 then panics ∷ [] else write_blocks (length samples) p samples

  abbrev pub silence_blocks : ℕ → ℕ → List (SinkWrite f)
  silence_blocks zero frames = []
  silence_blocks (suc fuel) frames =
      let n = min frames chunk_frames in
      let rest = silence_blocks fuel (frames - n) in if frames == 0 then [] else silence n ∷ rest

  unfoldable pub write_silence : ℕ → List (SinkWrite f)
  write_silence frames = silence_blocks frames frames

  abbrev pub fade_frame : ℕ → ℕ → List f.F32 → List f.F32
  fade_frame i frames samples = map (λ s. f.mul s (f.ratio i frames)) samples

  -- The frames from the `i`-th on, `n` of which are still to be faded.
  abbrev pub fade_from : ℕ → ℕ → ℕ → ℕ → List f.F32 → List f.F32
  fade_from zero i frames channels samples = samples
  fade_from (suc n) i frames channels samples =
      fade_frame i frames (take channels samples)
      ++ fade_from n (suc i) frames channels (drop channels samples)

  unfoldable pub fade_in : List f.F32 → ℕ → List f.F32
  fade_in samples channels =
      let ch = at_least_one_channel f channels in
      let frames = min (length samples / ch) splice_fade_frames in
      fade_from frames 0 frames ch samples

  abbrev pub sample_at : ℕ → List f.F32 → f.F32
  sample_at i [] = f.zero_f32
  sample_at zero (s ∷ samples) = s
  sample_at (suc i) (s ∷ samples) = sample_at i samples

  -- The channels of an output frame from the `c`-th on, and the frames from the `j`-th on.
  abbrev pub blend_frame : List f.F32 → ℕ → ℕ → f.F32 → ℕ → ℕ → List f.F32
  blend_frame input channels i0 frac c zero = []
  blend_frame input channels i0 frac c (suc n) =
      f.blend (sample_at (i0 * channels + c) input) (sample_at (suc i0 * channels + c) input) frac
      ∷ blend_frame input channels i0 frac (suc c) n

  abbrev pub stretch_frames : List f.F32 → ℕ → ℕ → ℕ → ℕ → ℕ → List f.F32
  stretch_frames input channels in_frames out_frames j zero = []
  stretch_frames input channels in_frames out_frames j (suc n) =
      let i0 = min (f.position in_frames out_frames j) (in_frames - 2) in
      blend_frame input channels i0 (f.fraction in_frames out_frames j i0) 0 channels
      ++ stretch_frames input channels in_frames out_frames (suc j) n

  unfoldable pub resample_into : List f.F32 → ℕ → ℕ → List f.F32
  resample_into input channels out_frames =
      let ch = at_least_one_channel f channels in
      let in_frames = length input / ch in
      if ltb in_frames 2
      then input
      else if ltb out_frames 2
      then input
      else stretch_frames input ch in_frames out_frames 0 out_frames
