-- ===== src/Sync/Sink/Decision.antt =====
-- The decision on a correction in full, and what it depends on.
use rsplayer.Prelude.{
  ℕ, ◌+◌, ◌/◌, ◌≡◌, ◌<◌, ◌≤◌, refl, ap, ◌∙◌, List, Bool, true, false, not, ltb, ◌&&◌, if◌then◌else◌,
  length, arith, Bool-cases, inl, inr,
}
use Prim.Native.Nat.{max}
use rsplayer.Prelude.Int.{ℤ}
use rsplayer.Sync.Sink.{
  Floats, ScheduledChunk, Pipeline, hard_persistence_chunks, hard_cooldown_micros,
  warmup_cooldown_micros,
}
use rsplayer.Sync.Sink.Chunk.{
  raw_err, measure, align, full_correction, update_slewing, report, note_correction, stretch,
  finish, handle_chunk,
}

module _ (f : Floats) where
  -- What a full correction depends on.
  abbrev pub view : Pipeline f → ℕ × Bool × ℕ × ℕ
  view p = (p.hard_corrections, p.aligned, p.hard_streak, p.cooldown_until_micros)

  view-update_slewing : (err : ℤ) (p : Pipeline f) → view (update_slewing f err p) ≡ view p
  unfolding update_slewing
  view-update_slewing err p = ground arith

  view-report : (now : ℕ) (p : Pipeline f) → view (report f now p) ≡ view p
  unfolding report
  view-report now p = ground arith

  view-stretch :
      (err : ℤ) (frames : ℕ) (samples : List f.F32) (p : Pipeline f)
      → view (stretch f err frames samples p).1 ≡ view p
  unfolding stretch
  view-stretch err frames samples p = ground arith

  view-finish :
      (was_initial in_cooldown : Bool) (now : ℕ) (err : ℤ) (samples : List f.F32) (p : Pipeline f)
      → view (finish f false was_initial in_cooldown now err samples p).1 ≡ view p
  unfolding finish
  view-finish was_initial in_cooldown now err samples p =
      let frames = length samples / max p.channels 1 in
      elim (Bool-cases (not in_cooldown && p.slewing && ltb 1 frames)) [
        | inl e ↦ rw e (view-stretch err frames samples p)
        | inr e ↦ rw e refl
      ]

  pub view-measure : (raw : ℤ) (p : Pipeline f) → view (measure f raw p).1 ≡ view p
  unfolding measure
  view-measure raw p = ground arith

  view-align : (now : ℕ) (p : Pipeline f) → p.aligned ≡ true → view (align f now p) ≡ view p
  unfolding align
  view-align now p h = rw h refl

  -- The state in which an aligned sink decides on a correction.
  abbrev pub started : ℕ → ℕ → ScheduledChunk f → Pipeline f → Pipeline f
  started now lag chunk p = align f now (measure f (raw_err f now lag chunk p) p).1

  pub view-started :
      (now lag : ℕ) (chunk : ScheduledChunk f) (p : Pipeline f)
      → p.aligned ≡ true
      → view (started now lag chunk p) ≡ view p
  view-started now lag chunk p h =
      let m = view-measure (raw_err f now lag chunk p) p in
      view-align now (measure f (raw_err f now lag chunk p) p).1 (ap (λ v. v.1) m ∙ h) ∙ m

  abbrev pub decided : ℕ → ℕ → ScheduledChunk f → Pipeline f → Bool × Pipeline f
  decided now lag chunk p =
      full_correction f (not p.aligned)
        (not (not p.aligned) && ltb now (started now lag chunk p).cooldown_until_micros)
        (measure f (raw_err f now lag chunk p) p).0 (started now lag chunk p)

  -- A chunk that is not decided on leaves what the decision left.
  pub handle_chunk-undecided :
      (now lag : ℕ) (chunk : ScheduledChunk f) (p : Pipeline f)
      → (decided now lag chunk p).0 ≡ false
      → view (handle_chunk f now lag chunk p).1 ≡ view (decided now lag chunk p).1
  unfolding handle_chunk
  handle_chunk-undecided now lag chunk p e =
      let err = (measure f (raw_err f now lag chunk p) p).0 in
      let counted = (decided now lag chunk p).1 in
      rw e (
        view-finish (not p.aligned)
          (not (not p.aligned) && ltb now (started now lag chunk p).cooldown_until_micros) now err
          chunk.samples (report f now (update_slewing f err counted))
        ∙ view-report now (update_slewing f err counted)
        ∙ view-update_slewing err counted)

  pub full_correction-held :
      (err : ℤ) (p : Pipeline f)
      → let (full, q) = full_correction f false true err p in
        (full ≡ false)
        × (q.hard_corrections ≡ p.hard_corrections)
        × (q.aligned ≡ p.aligned)
        × (q.cooldown_until_micros ≡ p.cooldown_until_micros)
  unfolding full_correction
  full_correction-held err p = ground arith

  pub full_correction-patient :
      (in_cooldown : Bool) (err : ℤ) (p : Pipeline f)
      → p.hard_streak + 1 < hard_persistence_chunks
      → let (full, q) = full_correction f false in_cooldown err p in
        (full ≡ false)
        × (q.hard_corrections ≡ p.hard_corrections)
        × (q.aligned ≡ p.aligned)
        × (q.hard_streak ≤ p.hard_streak + 1)
  unfolding full_correction
  full_correction-patient in_cooldown err p h = ground arith

  abbrev pub error : ℕ → ℕ → ScheduledChunk f → Pipeline f → ℤ
  error now lag chunk p = (measure f (raw_err f now lag chunk p) p).0

  pub decided-aligned :
      (now lag : ℕ) (chunk : ScheduledChunk f) (p : Pipeline f)
      → p.aligned ≡ true
      → decided now lag chunk p
        ≡ full_correction f false
            (ltb now p.cooldown_until_micros)
            (error now lag chunk p)
            (started now lag chunk p)
  decided-aligned now lag chunk p h =
      let s = started now lag chunk p in
      let err = error now lag chunk p in
      ap (λ b. full_correction f (not b) (not (not b) && ltb now s.cooldown_until_micros) err s) h
      ∙ ap (λ v. full_correction f false (ltb now v.3) err s) (view-started now lag chunk p h)

  full_correction-keeps :
      (was_initial in_cooldown : Bool) (err : ℤ) (p : Pipeline f)
      → let q = (full_correction f was_initial in_cooldown err p).1 in
        (q.hard_corrections ≡ p.hard_corrections)
        × (q.aligned ≡ p.aligned)
        × (q.cooldown_until_micros ≡ p.cooldown_until_micros)
  unfolding full_correction
  full_correction-keeps was_initial in_cooldown err p = ground arith

  view-corrected :
      (was_initial in_cooldown : Bool) (now : ℕ) (err : ℤ) (samples : List f.F32) (p : Pipeline f)
      → let q = (finish f true was_initial in_cooldown now err samples p).1 in
        (q.aligned ≡ p.aligned)
        × (q.cooldown_until_micros
            ≡ (if was_initial then p.cooldown_until_micros else now + hard_cooldown_micros))
  unfolding finish note_correction
  view-corrected was_initial in_cooldown now err samples p = (refl, refl)

  pub align-first :
      (now : ℕ) (p : Pipeline f)
      → p.aligned ≡ false
      → ((align f now p).aligned ≡ true)
        × ((align f now p).cooldown_until_micros ≡ now + warmup_cooldown_micros)
  unfolding align
  align-first now p h = ground arith

  pub handle_chunk-decided :
      (now lag : ℕ) (chunk : ScheduledChunk f) (p : Pipeline f)
      → (decided now lag chunk p).0 ≡ true
      → let q = (handle_chunk f now lag chunk p).1 in
        (q.aligned ≡ (decided now lag chunk p).1.aligned)
        × (q.cooldown_until_micros ≡ (
            if not p.aligned
            then (decided now lag chunk p).1.cooldown_until_micros
            else now + hard_cooldown_micros))
  unfolding handle_chunk
  handle_chunk-decided now lag chunk p e =
      let err = error now lag chunk p in
      let ic = not (not p.aligned) && ltb now (started now lag chunk p).cooldown_until_micros in
      let r = report f now (update_slewing f err (decided now lag chunk p).1) in
      let same =
        view-report now (update_slewing f err (decided now lag chunk p).1)
        ∙ view-update_slewing err (decided now lag chunk p).1 in
      let at = ap (λ b. view (finish f b (not p.aligned) ic now err chunk.samples r).1) e in
      let (a, c) = view-corrected (not p.aligned) ic now err chunk.samples r in
      (
        ap (λ v. v.1) at ∙ a ∙ ap (λ v. v.1) same,
        ap (λ v. v.3) at
            ∙ c
            ∙ ap (λ v. if not p.aligned then v.3 else now + hard_cooldown_micros) same,
      )

  -- What the decision leaves of the state.
  pub decided-keeps :
      (now lag : ℕ) (chunk : ScheduledChunk f) (p : Pipeline f)
      → let q = (decided now lag chunk p).1 in
        (q.hard_corrections ≡ (started now lag chunk p).hard_corrections)
        × (q.aligned ≡ (started now lag chunk p).aligned)
        × (q.cooldown_until_micros ≡ (started now lag chunk p).cooldown_until_micros)
  decided-keeps now lag chunk p =
      full_correction-keeps (not p.aligned)
        (not (not p.aligned) && ltb now (started now lag chunk p).cooldown_until_micros)
        (error now lag chunk p) (started now lag chunk p)
