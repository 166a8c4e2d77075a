-- ===== src/Sync/Sink/Format.antt =====
-- What no step changes.
use rsplayer.Prelude.{ℕ, ◌≡◌, ◌∙◌, Bool, Option, arith}
use rsplayer.Prelude.Int.{ℤ}
use rsplayer.Sync.Sink.{Floats, ScheduledChunk, Pipeline}
use rsplayer.Sync.Sink.Chunk.{raw_err, measure, align, full_correction, update_slewing, report}
use rsplayer.Sync.Sink.Decision.{decided, started, error}

module _ (f : Floats) where
  -- What a correction, and the writing, read of the state.
  abbrev pub format : Pipeline f → ℕ × f.F64 × Option f.F32
  format p = (p.channels, p.micros_per_frame, p.gain)

  format-measure : (raw : ℤ) (p : Pipeline f) → format (measure f raw p).1 ≡ format p
  unfolding measure
  format-measure raw p = ground arith

  format-align : (now : ℕ) (p : Pipeline f) → format (align f now p) ≡ format p
  unfolding align
  format-align now p = ground arith

  format-full_correction :
      (a b : Bool) (err : ℤ) (p : Pipeline f) → format (full_correction f a b err p).1 ≡ format p
  unfolding full_correction
  format-full_correction a b err p = ground arith

  format-update_slewing : (err : ℤ) (p : Pipeline f) → format (update_slewing f err p) ≡ format p
  unfolding update_slewing
  format-update_slewing err p = ground arith

  format-report : (now : ℕ) (p : Pipeline f) → format (report f now p) ≡ format p
  unfolding report
  format-report now p = ground arith

  pub format-counted :
      (now lag : ℕ) (chunk : ScheduledChunk f) (p : Pipeline f) (err : ℤ)
      → format (report f now (update_slewing f err (decided f now lag chunk p).1)) ≡ format p
  format-counted now lag chunk p err =
      format-report now (update_slewing f err (decided f now lag chunk p).1)
      ∙ format-update_slewing err (decided f now lag chunk p).1
      ∙ format-full_correction _ _ (error f now lag chunk p) (started f now lag chunk p)
      ∙ format-align now (measure f (raw_err f now lag chunk p) p).1
      ∙ format-measure (raw_err f now lag chunk p) p
