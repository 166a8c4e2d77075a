-- ===== src/Sync/Sink.antt =====
-- crates/playback/src/rsp/sync_sink.rs: the scheduling of a follower's audio. The clock, and the lag
-- that the output reports, are arguments of a chunk. The writes to the output are recorded; they
-- work. `scratch` is cleared before each use and left out.
pub mod Output
pub mod Chunk
pub mod Decision
pub mod Patience
pub mod Blocks
pub mod Format
pub mod Frames
pub mod Sounds
pub mod Fade
pub mod Alignment
pub mod Thread
use rsplayer.Prelude.{
  ℕ, zero, suc, ◌+◌, ◌-◌, ◌*◌, ◌/◌, ◌%◌, Option, none, some, List, [], ◌∷◌, ◌++◌, Bool, true, false,
  not, ltb, leb, ◌==◌, ◌&&◌, if◌then◌else◌, length, take, drop, map, map_option, unwrap_or,
}
use Prim.Native.Nat.{min, max}
use rsplayer.Prelude.Int.{ℤ, pos, negsuc, ◌-ℤ◌, ltb_ℤ, pos_part, neg_part}
use rsplayer.Queue.State.{u64}
use rsplayer.Sync.Clock.{wrap_i64, saturating_add_signed}
use rsplayer.Sync.Tee.{as_i64}

abbrev pub chunk_frames : ℕ
chunk_frames = 4096

abbrev pub hard_correction_micros : ℕ
hard_correction_micros = 20000

abbrev pub slew_start_micros : ℕ
slew_start_micros = 5000

abbrev pub slew_stop_micros : ℕ
slew_stop_micros = 1500

abbrev pub slew_per_1024_frames : ℕ
slew_per_1024_frames = 8

abbrev pub splice_fade_frames : ℕ
splice_fade_frames = 256

abbrev pub hard_persistence_chunks : ℕ
hard_persistence_chunks = 8

abbrev pub hard_cooldown_micros : ℕ
hard_cooldown_micros = 2000000

abbrev pub warmup_cooldown_micros : ℕ
warmup_cooldown_micros = 7000000

abbrev pub report_interval_micros : ℕ
report_interval_micros = 10000000

-- What the sink computes with floating-point numbers. Nothing is asked of it.
pub record Floats : Type 1 where
  pub F64 : Type 0
  pub F32 : Type 0
  -- `1_000_000.0 / f64::from(rate.max(1))`
  pub micros_per_frame_of : ℕ → F64
  -- `((micros as f64) / micros_per_frame).round() as usize`
  pub frames_of : ℕ → F64 → ℕ
  -- `prev + (raw_err as f64 - prev) / 8.0`, `0.0` and `round() as i64`
  pub filtered : F64 → ℤ → F64
  pub zero_f64 : F64
  pub round : F64 → ℤ
  -- `e - adj as f64 * micros_per_frame * 1.0`, and with `-1.0` when `false`
  pub shifted : F64 → ℕ → F64 → Bool → F64
  -- `10f32.powf(h as f32 / 100.0 / 20.0)`
  pub gain_of : ℤ → F32
  pub mul : F32 → F32 → F32
  -- `f as f32 / frames as f32`
  pub ratio : ℕ → ℕ → F32
  -- For `pos = j as f64 * ((in_frames - 1) as f64 / (out_frames - 1) as f64)`: `pos as usize`, and
  -- `(pos - i0 as f64) as f32`.
  pub position : ℕ → ℕ → ℕ → ℕ
  pub fraction : ℕ → ℕ → ℕ → ℕ → F32
  -- `(b - a).mul_add(frac, a)`, and what stands for a sample out of range
  pub blend : F32 → F32 → F32 → F32
  pub zero_f32 : F32

pub record SyncSinkConfig : Type 0 where
  pub rate : ℕ
  pub cfg_channels : ℕ
  pub gain_db_hundredths : Option ℤ
  pub latency_offset_ms : ℤ

module _ (f : Floats) where
  pub record ScheduledChunk : Type 0 where
    pub local_play_at_micros : ℕ
    pub samples : List f.F32

  -- A block of samples that is written with its gain, a block of silence, or `chunks(0)`, which
  -- panics.
  pub data SinkWrite : Type 0 where
    audio : List f.F32 → SinkWrite
    silence : ℕ → SinkWrite
    panics : SinkWrite

  pub record Pipeline : Type 0 where
    pub channels : ℕ
    pub gain : Option f.F32
    pub offset_micros : ℤ
    pub micros_per_frame : f.F64
    pub hard_corrections : ℕ  -- u64
    pub last_report_at : ℕ
    pub aligned : Bool
    pub hard_streak : ℕ  -- u32
    pub hard_streak_sign : ℤ  -- i8
    pub cooldown_until_micros : ℕ
    pub err_ewma : Option f.F64
    pub slewing : Bool

  abbrev pub thousandfold : ℤ → ℤ
  thousandfold (pos n) = pos (n * 1000)
  thousandfold (negsuc n) = negsuc (suc n * 1000 - 1)

  abbrev pub new_pipeline : SyncSinkConfig → Pipeline
  new_pipeline cfg = record {
    channels = cfg.cfg_channels;
    gain = map_option f.gain_of cfg.gain_db_hundredths;
    offset_micros = thousandfold cfg.latency_offset_ms;
    micros_per_frame = f.micros_per_frame_of cfg.rate;
    hard_corrections = 0;
    last_report_at = 0;
    aligned = false;
    hard_streak = 0;
    hard_streak_sign = pos 0;
    cooldown_until_micros = 0;
    err_ewma = none;
    slewing = false;
  }

  abbrev pub at_least_one_channel : ℕ → ℕ
  at_least_one_channel channels = max channels 1

  abbrev pub magnitude : ℤ → ℕ
  magnitude z = pos_part z + neg_part z

  abbrev pub eq_ℤ : ℤ → ℤ → Bool
  eq_ℤ a b = not (ltb_ℤ a b) && not (ltb_ℤ b a)

  abbrev pub frames_for_micros : Pipeline → ℤ → ℕ
  frames_for_micros p micros = f.frames_of (magnitude micros) p.micros_per_frame
