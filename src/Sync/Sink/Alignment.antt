-- ===== src/Sync/Sink/Alignment.antt =====
-- The first chunk, which is corrected in full.
use rsplayer.Prelude.{
  ℕ, ◌-◌, ◌*◌, ◌≡◌, ◌<◌, refl, sym, ap, ◌∙◌, subst, Option, none, some, List, [], ◌++◌, Bool, true,
  false, not, ltb, leb, ◌&&◌, if◌then◌else◌, length, drop, map, replicate, arith, Bool-cases, inl,
  inr,
}
use rsplayer.Prelude.Int.{ℤ, pos, ltb_ℤ}
use rsplayer.Sync.Sink.{
  Floats, ScheduledChunk, Pipeline, frames_for_micros, magnitude, hard_correction_micros,
}
use rsplayer.Sync.Sink.Output.{amplify, write_samples, write_silence, fade_in}
use rsplayer.Sync.Sink.Chunk.{
  raw_err, measure, full_correction, update_slewing, report, note_correction, correct, finish,
  handle_chunk,
}
use rsplayer.Sync.Sink.Decision.{decided, started, error}
use rsplayer.Sync.Sink.Format.{format, format-counted}
use rsplayer.Sync.Sink.Blocks.{length-drop_lem, sub_mul, drop_all}
use rsplayer.Sync.Sink.Sounds.{
  sounds, sounds-append, sounds-write_samples, sounds-write_silence, played_none,
}
use rsplayer.Sync.Sink.Fade.{faded, fade_in_lem, length-faded}

module _ (f : Floats) where
  -- What should be heard of a chunk of `n` frames that is off by an error: without the frames that
  -- are late, or behind as many frames of silence as it is early; faded in, and with the gain.
  abbrev pub corrected : ℤ → ℕ → List f.F32 → Pipeline f → List (Option f.F32)
  corrected err n samples p =
      let k = frames_for_micros f p err in
      if ltb_ℤ (pos 0) err
      then map some (amplify f p.gain (faded f (n - k) p.channels (drop (k * p.channels) samples)))
      else replicate (k * p.channels) none
        ++ map some (amplify f p.gain (faded f n p.channels samples))

  sounds-faded :
      (n : ℕ) (samples : List f.F32) (p : Pipeline f)
      → 0 < p.channels
      → length samples ≡ n * p.channels
      → sounds f p.channels (write_samples f p (fade_in f samples p.channels))
        ≡ map some (amplify f p.gain (faded f n p.channels samples))
  sounds-faded n samples p c h =
      let same = fade_in_lem f n p.channels samples c h in
      rw same (
        sounds-write_samples f n p (faded f n p.channels samples) c
          (length-faded f n p.channels samples ∙ h))

  sounds-correct :
      (err : ℤ) (n : ℕ) (samples : List f.F32) (p : Pipeline f)
      → 0 < p.channels
      → length samples ≡ n * p.channels
      → sounds f p.channels (correct f err samples p) ≡ corrected err n samples p
  unfolding correct
  sounds-correct err n samples p c h =
      let lead = frames_for_micros f p err in
      let rest = drop (lead * p.channels) samples in
      elim (Bool-cases (ltb_ℤ (pos 0) err)) [
        | inl e ↦ elim (Bool-cases (leb (length samples) (lead * p.channels))) [
          | inl g ↦
              let gone : rest ≡ [] = drop_all (lead * p.channels) samples (ground (arith, g)) in
              rw (e, g, gone) (sym (played_none f p.gain))
          | inr g ↦
              rw (e, g)
                (sounds-faded (n - lead) rest p c (
                  length-drop_lem (lead * p.channels) samples
                  ∙ ap (λ x. x - lead * p.channels) h
                  ∙ sub_mul n lead p.channels))
        ]
        | inr e ↦
            rw
              (
                e,
                sounds-append f p.channels (write_silence f lead)
                    (write_samples f p (fade_in f samples p.channels)),
                sounds-write_silence f lead p.channels,
                sounds-faded n samples p c h,
              )
              refl
      ]

  error-first : (raw : ℤ) (p : Pipeline f) → p.aligned ≡ false → (measure f raw p).0 ≡ raw
  unfolding measure
  error-first raw p h = ground (arith, h)

  full_correction-first :
      (in_cooldown : Bool) (err : ℤ) (p : Pipeline f)
      → hard_correction_micros < magnitude f err
      → (full_correction f true in_cooldown err p).0 ≡ true
  unfolding full_correction
  full_correction-first in_cooldown err p h = ground (arith, h)

  sounds-finish_full :
      (was_initial in_cooldown : Bool) (now : ℕ) (err : ℤ) (n : ℕ) (samples : List f.F32)
      (p : Pipeline f)
      → 0 < p.channels
      → length samples ≡ n * p.channels
      → sounds f p.channels (finish f true was_initial in_cooldown now err samples p).0
        ≡ corrected err n samples p
  unfolding finish note_correction
  sounds-finish_full was_initial in_cooldown now err n samples p c h =
      sounds-correct err n samples (note_correction f was_initial now p) c h

  corrected_by :
      (err : ℤ) (n : ℕ) (samples : List f.F32) (p q : Pipeline f)
      → format f q ≡ format f p
      → corrected err n samples q ≡ corrected err n samples p
  corrected_by err n samples p q e = ap (λ v. corrected err n samples (with_format v)) e
    where
      with_format : ℕ × f.F64 × Option f.F32 → Pipeline f
      with_format (channels, micros_per_frame, gain) = record p {
        channels = channels;
        micros_per_frame = micros_per_frame;
        gain = gain;
      }

  -- When the first chunk of a sink with at least one channel, of `n` whole frames, is more than 20 ms
  -- late, what is heard of it is the chunk without as many of its first frames as the error is long,
  -- or nothing when it has no more; when it is more than 20 ms early, it is the whole chunk behind as
  -- many frames of silence. In both cases the first 256 of these frames, or all when there are fewer,
  -- are turned down by their place among them, and the gain is applied.
  pub handle_chunk-first_frames :
      (now lag n : ℕ) (chunk : ScheduledChunk f) (p : Pipeline f)
      → p.aligned ≡ false
      → hard_correction_micros < magnitude f (raw_err f now lag chunk p)
      → 0 < p.channels
      → length chunk.samples ≡ n * p.channels
      → sounds f p.channels (handle_chunk f now lag chunk p).0
        ≡ corrected (raw_err f now lag chunk p) n chunk.samples p
  unfolding handle_chunk
  handle_chunk-first_frames now lag n chunk p h far c l =
      let raw = raw_err f now lag chunk p in
      let err = error f now lag chunk p in
      let is_raw : err ≡ raw = error-first raw p h in
      let ic = not (not p.aligned) && ltb now (started f now lag chunk p).cooldown_until_micros in
      let r = report f now (update_slewing f err (decided f now lag chunk p).1) in
      let same : format f r ≡ format f p = format-counted f now lag chunk p err in
      let channels : r.channels ≡ p.channels = ap (λ v. v.0) same in
      let full : (decided f now lag chunk p).0 ≡ true =
        ap (λ b. (full_correction f (not b) ic err (started f now lag chunk p)).0) h
        ∙ full_correction-first ic err (started f now lag chunk p)
            (subst (λ z. hard_correction_micros < magnitude f z) (sym is_raw) far) in
      ap (λ k. sounds f k (handle_chunk f now lag chunk p).0) (sym channels)
      ∙ ap (λ b. sounds f r.channels (finish f b (not p.aligned) ic now err chunk.samples r).0) full
      ∙ sounds-finish_full (not p.aligned) ic now err n chunk.samples r
          (subst (λ k. 0 < k) (sym channels) c) (l ∙ ap (λ k. n * k) (sym channels))
      ∙ corrected_by err n chunk.samples p r same
      ∙ ap (λ z. corrected z n chunk.samples p) is_raw
