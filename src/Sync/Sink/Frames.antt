-- ===== src/Sync/Sink/Frames.antt =====
-- How many frames the sink writes for a chunk.
use rsplayer.Prelude.{
  ℕ, zero, suc, ◌+◌, ◌-◌, ◌*◌, ◌/◌, ◌≡◌, ◌<◌, ◌≤◌, refl, sym, ap, ◌∙◌, subst, List, Bool, true,
  false, not, ltb, ◌==◌, ◌&&◌, if◌then◌else◌, length, arith, Bool-cases, inl, inr, length-append,
}
use Prim.Native.Nat.{max}
use native.Mathlib.Nat.{add_comm, suc-mul, zero-mul}
use rsplayer.Prelude.Int.{ℤ, pos, ltb_ℤ}
use rsplayer.Sync.Sink.{Floats, hard_persistence_chunks, ScheduledChunk, Pipeline}
use rsplayer.Sync.Sink.Output.{blend_frame, stretch_frames, resample_into}
use rsplayer.Sync.Sink.Chunk.{update_slewing, report, adjustment, stretch, finish, handle_chunk}
use rsplayer.Sync.Sink.Decision.{
  view-started, started, decided, error, decided-aligned, full_correction-patient,
}
use rsplayer.Sync.Sink.Format.{format-counted}
use rsplayer.Sync.Sink.Blocks.{div_exact, frames_written, frames-write_samples}

module _ (f : Floats) where
  length-blend_frame :
      (input : List f.F32) (channels i0 : ℕ) (frac : f.F32) (c n : ℕ)
      → length (blend_frame f input channels i0 frac c n) ≡ n
  length-blend_frame input channels i0 frac c zero = refl
  length-blend_frame input channels i0 frac c (suc n) =
      ap suc (length-blend_frame input channels i0 frac (suc c) n)

  length-stretch_frames :
      (input : List f.F32) (channels in_frames out_frames j n : ℕ)
      → length (stretch_frames f input channels in_frames out_frames j n) ≡ n * channels
  length-stretch_frames input channels in_frames out_frames j zero = sym (zero-mul channels)
  length-stretch_frames input channels in_frames out_frames j (suc n) =
      length-append _ (stretch_frames f input channels in_frames out_frames (suc j) n)
      ∙ ap (λ x. x + length (stretch_frames f input channels in_frames out_frames (suc j) n))
          (length-blend_frame input channels _ _ 0 channels)
      ∙ ap (λ x. channels + x) (length-stretch_frames input channels in_frames out_frames (suc j) n)
      ∙ add_comm channels (n * channels)
      ∙ sym (suc-mul n channels)

  -- A stretch to fewer than two frames leaves the samples.
  abbrev stretched : ℕ → ℕ → ℕ
  stretched n target = if ltb n 2 then n else if ltb target 2 then n else target

  length-resample_into :
      (n c target : ℕ) (samples : List f.F32)
      → 0 < c
      → length samples ≡ n * c
      → length (resample_into f samples c target) ≡ stretched n target * c
  unfolding resample_into
  length-resample_into n c target samples pos_c h =
      let one : max c 1 ≡ c = omega arith in
      let frames : length samples / max c 1 ≡ n =
        ap (λ x. length samples / x) one ∙ ap (λ x. x / c) h ∙ div_exact n c pos_c in
      rw frames (elim (Bool-cases (ltb n 2)) [
        | inl e ↦ rw e h
        | inr e ↦ elim (Bool-cases (ltb target 2)) [
          | inl g ↦ rw (e, g) h
          | inr g ↦
              rw (e, g)
                (length-stretch_frames samples (max c 1) n target 0 target
                  ∙ ap (λ x. target * x) one)
        ]
      ])

  -- At most one frame, or eight of 1024, more or less than came.
  abbrev pub Within : ℕ → ℕ → Type 0
  Within n w = (n ≤ w + max (n * 8 / 1024) 1) × (w ≤ n + max (n * 8 / 1024) 1)

  Within-refl : (n : ℕ) → Within n n
  Within-refl n = (omega arith, omega arith)

  Within-stretched :
      (n adj : ℕ) (late : Bool)
      → adj ≤ max (n * 8 / 1024) 1
      → Within n (stretched n (if late then n - adj else n + adj))
  Within-stretched n adj late h = ground arith

  frames-stretch :
      (err : ℤ) (n : ℕ) (samples : List f.F32) (p : Pipeline f)
      → 0 < p.channels
      → length samples ≡ n * p.channels
      → Within n (frames_written f p.channels (stretch f err n samples p).0)
  unfolding stretch
  frames-stretch err n samples p c h =
      let adj = adjustment f err n p in
      let target = if ltb_ℤ (pos 0) err then n - adj else n + adj in
      let little : adj ≤ max (n * 8 / 1024) 1 = omega arith in
      elim (Bool-cases (adj == 0)) [
        | inl e ↦ rw (e, frames-write_samples f n p samples c h) (Within-refl n)
        | inr e ↦
            rw
              (
                e,
                frames-write_samples f (stretched n target) p
                    (resample_into f samples p.channels target) c
                    (length-resample_into n p.channels target samples c h),
              )
              (Within-stretched n adj (ltb_ℤ (pos 0) err) little)
      ]

  frames-finish :
      (was_initial in_cooldown : Bool) (now : ℕ) (err : ℤ) (n : ℕ) (samples : List f.F32)
      (p : Pipeline f)
      → 0 < p.channels
      → length samples ≡ n * p.channels
      → Within n
          (frames_written f p.channels (finish f false was_initial in_cooldown now err samples p).0)
  unfolding finish
  frames-finish was_initial in_cooldown now err n samples p c h =
      let one : max p.channels 1 ≡ p.channels = omega arith in
      let frames : length samples / max p.channels 1 ≡ n =
        ap (λ x. length samples / x) one ∙ ap (λ x. x / p.channels) h ∙ div_exact n p.channels c in
      elim (Bool-cases (not in_cooldown && p.slewing && ltb 1 n)) [
        | inl e ↦ rw (frames, e) (frames-stretch err n samples p c h)
        | inr e ↦ rw (frames, e, frames-write_samples f n p samples c h) (Within-refl n)
      ]

  -- While the streak of an aligned sink with at least one channel is below seven: a chunk of `n`
  -- whole frames is written with at most one frame, or eight of 1024, more or less than it has.
  pub handle_chunk-frames :
      (now lag n : ℕ) (chunk : ScheduledChunk f) (p : Pipeline f)
      → p.aligned ≡ true
      → p.hard_streak + 1 < hard_persistence_chunks
      → 0 < p.channels
      → length chunk.samples ≡ n * p.channels
      → Within n (frames_written f p.channels (handle_chunk f now lag chunk p).0)
  unfolding handle_chunk
  handle_chunk-frames now lag n chunk p h few c l =
      let counted = (decided f now lag chunk p).1 in
      let err = error f now lag chunk p in
      let ic = not (not p.aligned) && ltb now (started f now lag chunk p).cooldown_until_micros in
      let r = report f now (update_slewing f err counted) in
      let same : r.channels ≡ p.channels = ap (λ v. v.0) (format-counted f now lag chunk p err) in
      let whole : (decided f now lag chunk p).0 ≡ false =
        ap (λ d. d.0) (decided-aligned f now lag chunk p h)
        ∙ (full_correction-patient f (ltb now p.cooldown_until_micros) err
            (started f now lag chunk p)
            (subst (λ k. k + 1 < hard_persistence_chunks)
              (sym (ap (λ v. v.2) (view-started f now lag chunk p h))) few)).0 in
      subst (λ k. Within n (frames_written f k (handle_chunk f now lag chunk p).0)) same
        (subst
          (λ b.
            Within n (
              frames_written f r.channels
                (finish f b (not p.aligned) ic now err chunk.samples r).0))
          (sym whole)
          (frames-finish (not p.aligned) ic now err n chunk.samples r
            (subst (λ k. 0 < k) (sym same) c) (l ∙ ap (λ k. n * k) (sym same))))
