-- ===== src/Tests/Sink.antt =====
-- A sink whose floating-point numbers are integers, at one frame for each 20 microseconds.
use rsplayer.Prelude.{
  List, List, Bool, false, ℕ, ◌*◌, ◌/◌, ◌≡◌, refl, none, some, ◌++◌, true, if◌then◌else◌, [], ◌∷◌,
  arith, inl, replicate,
}
use rsplayer.Prelude.Int.{ℤ, pos, ◌+ℤ◌, ◌-ℤ◌}
use rsplayer.Sync.Clock.{wrap_i64}
use rsplayer.Sync.Tee.{div_i64}
use rsplayer.Sync.Sink.{SyncSinkConfig, Floats, ScheduledChunk, Pipeline, new_pipeline}
use rsplayer.Sync.Sink.Output.{write_samples, write_silence, fade_in, resample_into}
use rsplayer.Sync.Sink.Chunk.{
  handle_chunk, raw_err, measure, align, full_correction, update_slewing, report, finish,
  note_correction, correct, stretch,
}
use rsplayer.Sync.Sink.Patience.{handle_all, handle_all-spaced, handle_all-patient}
use rsplayer.Sync.Sink.Thread.{Received, received, timed_out, run_sink, run_sink-writes}
use rsplayer.Sync.Sink.Blocks.{frames_written}
use rsplayer.Sync.Sink.Sounds.{sounds}
use rsplayer.Sync.Sink.Frames.{Within, handle_chunk-frames}
use rsplayer.Sync.Sink.Alignment.{handle_chunk-first_frames}

abbrev whole : Floats
whole = record {
  F64 = ℤ;
  F32 = ℕ;
  micros_per_frame_of = λ rate. pos 20;
  frames_of = λ n m. n / 20;
  filtered = λ prev raw. prev +ℤ div_i64 (raw -ℤ prev) 8;
  zero_f64 = pos 0;
  round = λ z. z;
  shifted = λ e adj m late. if late then e -ℤ pos (adj * 20) else e +ℤ pos (adj * 20);
  gain_of = λ z. 1;
  mul = λ a b. a;
  ratio = λ i n. 1;
  position = λ n m j. j;
  fraction = λ n m j i. 0;
  blend = λ a b frac. a;
  zero_f32 = 0;
}

abbrev config : SyncSinkConfig
config = record {
  rate = 50000;
  cfg_channels = 1;
  gain_db_hundredths = none;
  latency_offset_ms = pos 0;
}

abbrev fresh : Pipeline whole
fresh = new_pipeline whole config

abbrev chunk_at : ℕ → ScheduledChunk whole
chunk_at t = record { local_play_at_micros = t; samples = 1 ∷ 2 ∷ 3 ∷ 4 ∷ [] }

abbrev running : Pipeline whole
running = record fresh { aligned = true }

-- The first chunk comes 21 milliseconds early.
handle_chunk-first_frames_example :
    sounds whole 1 (handle_chunk whole 1000000 0 (chunk_at 1021000) fresh).0
    ≡ replicate 1050 none ++ some 1 ∷ some 2 ∷ some 3 ∷ some 4 ∷ []
unfolding raw_err ◌-ℤ◌ wrap_i64
handle_chunk-first_frames_example =
    handle_chunk-first_frames whole 1000000 0 4 (chunk_at 1021000) fresh refl (omega arith)
      (omega arith) refl

handle_all-spaced_example :
    (handle_all whole
      ((3000000, 0, chunk_at 9) ∷ (7999999, 0, chunk_at 9) ∷ [])
      (handle_chunk whole 1000000 0 (chunk_at 2000000) fresh).1).1.hard_corrections
    ≡ (handle_chunk whole 1000000 0 (chunk_at 2000000) fresh).1.hard_corrections
handle_all-spaced_example =
    handle_all-spaced whole 1000000 0 (chunk_at 2000000)
      ((3000000, 0, chunk_at 9) ∷ (7999999, 0, chunk_at 9) ∷ []) fresh (inl refl)
      (omega arith, (omega arith, tt))

handle_all-patient_example :
    (handle_all whole (replicate 7 (9000000, 0, chunk_at 9)) running).1.hard_corrections ≡ 0
handle_all-patient_example =
    handle_all-patient whole (replicate 7 (9000000, 0, chunk_at 9)) running refl (omega arith)

handle_chunk-frames_example :
    Within whole 4 (frames_written whole 1 (handle_chunk whole 9000000 0 (chunk_at 9) running).0)
handle_chunk-frames_example =
    handle_chunk-frames whole 9000000 0 4 (chunk_at 9) running refl (omega arith) (omega arith) refl

-- The eighth chunk that is late is corrected.
eighth_chunk :
    (handle_all whole (replicate 8 (9000000, 0, chunk_at 9)) running).1.hard_corrections ≡ 1
unfolding raw_err ◌-ℤ◌ ◌+ℤ◌ wrap_i64 handle_chunk measure align full_correction update_slewing
    report finish note_correction correct stretch write_samples write_silence fade_in resample_into
eighth_chunk = refl

abbrev rounds : List (Bool × Received whole)
rounds =
    (false, timed_out)
    ∷ (false, received (1000000, 0, chunk_at 2000000))
    ∷ (false, received (1000080, 0, chunk_at 2000080))
    ∷ (true, timed_out)
    ∷ (false, received (1000160, 0, chunk_at 2000160))
    ∷ []

run_sink-writes_example :
    (run_sink whole true config rounds).0
    ≡ (handle_all whole
        ((1000000, 0, chunk_at 2000000) ∷ (1000080, 0, chunk_at 2000080) ∷ [])
        fresh).0
run_sink-writes_example = run_sink-writes whole config rounds
