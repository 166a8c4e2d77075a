-- ===== src/Sync/Sink/Chunk.antt =====
-- The handling of a chunk: `Pipeline::handle_chunk`, in its steps.
use rsplayer.Prelude.{
  ℕ, ◌+◌, ◌-◌, ◌*◌, ◌/◌, ◌%◌, none, some, List, [], ◌++◌, Bool, true, false, not, ltb, leb, ◌==◌,
  ◌&&◌, if◌then◌else◌, length, drop, map_option, unwrap_or,
}
use Prim.Native.Nat.{min, max}
use rsplayer.Prelude.Int.{ℤ, pos, negsuc, ◌-ℤ◌, ltb_ℤ}
use rsplayer.Queue.State.{u64}
use rsplayer.Sync.Clock.{wrap_i64, saturating_add_signed}
use rsplayer.Sync.Tee.{as_i64}
use rsplayer.Sync.Sink.{
  Floats, ScheduledChunk, SinkWrite, Pipeline, at_least_one_channel, magnitude, eq_ℤ,
  frames_for_micros, hard_correction_micros, slew_start_micros, slew_stop_micros,
  slew_per_1024_frames, hard_persistence_chunks, hard_cooldown_micros, warmup_cooldown_micros,
  report_interval_micros,
}
use rsplayer.Sync.Sink.Output.{write_samples, write_silence, fade_in, resample_into}

module _ (f : Floats) where
  -- `play_at` and `will_play_at`, and their difference as an i64.
  unfoldable pub raw_err : ℕ → ℕ → ScheduledChunk f → Pipeline f → ℤ
  unfolding wrap_i64
  raw_err now lag chunk p = wrap_i64 (
      as_i64 (u64 (now + lag))
      -ℤ as_i64 (saturating_add_signed chunk.local_play_at_micros p.offset_micros))

  -- The error that is acted on, and the filter behind it.
  unfoldable pub measure : ℤ → Pipeline f → ℤ × (Pipeline f)
  measure raw p =
      let low = f.filtered (unwrap_or p.err_ewma f.zero_f64) raw in
      if p.aligned then (f.round low, record p { err_ewma = some low }) else (raw, p)

  unfoldable pub align : ℕ → Pipeline f → Pipeline f
  align now p =
      if p.aligned
      then p
      else record p { aligned = true; cooldown_until_micros = now + warmup_cooldown_micros }

  abbrev pub count_streak : ℤ → Pipeline f → Pipeline f
  count_streak sign p =
      if eq_ℤ f sign p.hard_streak_sign
      then record p { hard_streak = (p.hard_streak + 1) % 4294967296 }
      else record p { hard_streak = 1; hard_streak_sign = sign }

  abbrev pub sign_of : ℤ → ℤ
  sign_of err = if ltb_ℤ (pos 0) err then pos 1 else negsuc 0

  -- Whether the error is to be corrected in full.
  unfoldable pub full_correction : Bool → Bool → ℤ → Pipeline f → Bool × (Pipeline f)
  full_correction was_initial in_cooldown err p =
      if leb (magnitude f err) hard_correction_micros
      then (false, record p { hard_streak = 0 })
      else if was_initial
      then (true, p)
      else if in_cooldown
      then (false, p)
      else (
        leb hard_persistence_chunks (count_streak (sign_of err) p).hard_streak,
        count_streak (sign_of err) p,
      )

  unfoldable pub update_slewing : ℤ → Pipeline f → Pipeline f
  update_slewing err p =
      if p.slewing
      then (if ltb (magnitude f err) slew_stop_micros then record p { slewing = false } else p)
      else (if ltb slew_start_micros (magnitude f err) then record p { slewing = true } else p)

  unfoldable pub report : ℕ → Pipeline f → Pipeline f
  report now p =
      if ltb report_interval_micros (now - p.last_report_at)
      then record p { last_report_at = now }
      else p

  unfoldable pub note_correction : Bool → ℕ → Pipeline f → Pipeline f
  note_correction was_initial now p = record p {
    hard_corrections = u64 (p.hard_corrections + 1);
    hard_streak = 0;
    err_ewma = none;
    slewing = false;
    cooldown_until_micros =
        if was_initial then p.cooldown_until_micros else now + hard_cooldown_micros;
  }

  unfoldable pub correct : ℤ → List f.F32 → Pipeline f → List (SinkWrite f)
  correct err samples p =
      if ltb_ℤ (pos 0) err
      then (let trim = frames_for_micros f p err * p.channels in
          if leb (length samples) trim
          then []
          else write_samples f p (fade_in f (drop trim samples) p.channels))
      else write_silence f (frames_for_micros f p err)
        ++ write_samples f p (fade_in f samples p.channels)

  -- How many frames a stretch adds or takes away.
  abbrev pub adjustment : ℤ → ℕ → Pipeline f → ℕ
  adjustment err frames p =
      min (min (frames_for_micros f p err) (max (frames * slew_per_1024_frames / 1024) 1))
        (frames / 2)

  abbrev pub fold_shift : ℤ → ℕ → Pipeline f → Pipeline f
  fold_shift err adj p = record p {
    err_ewma = map_option (λ e. f.shifted e adj p.micros_per_frame (ltb_ℤ (pos 0) err)) p.err_ewma;
  }

  unfoldable pub stretch : ℤ → ℕ → List f.F32 → Pipeline f → List (SinkWrite f) × (Pipeline f)
  stretch err frames samples p =
      let adj = adjustment err frames p in
      let target = if ltb_ℤ (pos 0) err then frames - adj else frames + adj in
      if adj == 0
      then (write_samples f p samples, p)
      else (write_samples f p (resample_into f samples p.channels target), fold_shift err adj p)

  unfoldable pub finish :
      Bool → Bool → Bool → ℕ → ℤ → List f.F32 → Pipeline f → List (SinkWrite f) × (Pipeline f)
  finish full was_initial in_cooldown now err samples p =
      let frames = length samples / at_least_one_channel f p.channels in
      if full
      then (
        correct err samples (note_correction was_initial now p),
        note_correction was_initial now p,
      )
      else if not in_cooldown && p.slewing && ltb 1 frames
      then stretch err frames samples p
      else (write_samples f p samples, p)

  unfoldable pub handle_chunk :
      ℕ → ℕ → ScheduledChunk f → Pipeline f → List (SinkWrite f) × (Pipeline f)
  handle_chunk now lag chunk p =
      let (err, measured) = measure (raw_err now lag chunk p) p in
      let was_initial = not p.aligned in
      let started = align now measured in
      let in_cooldown = not was_initial && ltb now started.cooldown_until_micros in
      let (full, counted) = full_correction was_initial in_cooldown err started in
      finish full was_initial in_cooldown now err chunk.samples
        (report now (update_slewing err counted))
