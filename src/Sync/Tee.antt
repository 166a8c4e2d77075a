-- ===== src/Sync/Tee.antt =====
-- crates/playback/src/rsp/tee.rs: the copy of the decoded audio that the playback thread hands to the
-- synchronisation. A send into the channel works, or finds it full: the answer of `try_send` is an
-- argument, and an event that was sent is a result. A sample is a floating-point number, of which
-- only the conversion to the two bytes on the wire and back is asked.
use rsplayer.Prelude.{
  ℕ, zero, suc, ◌+◌, ◌-◌, ◌*◌, ◌/◌, Option, List, [], ◌∷◌, Bool, true, false, ltb, ◌==◌,
  if◌then◌else◌,
}
use rsplayer.Prelude.Int.{ℤ, pos, negsuc, ◌+ℤ◌, ◌-ℤ◌}
use rsplayer.Queue.State.{u64}

-- `f32` and the `encode_sample` and `decode_sample` of protocol.rs.
pub record Samples : Type 1 where
  pub F32 : Type 0
  pub encode_sample : F32 → ℕ × ℕ
  pub decode_sample : ℕ × ℕ → F32

pub record TeeSpec : Type 0 where
  pub rate : ℕ  -- u32
  pub channels : ℕ  -- u8

module _ (f : Samples) where
  -- A decoded packet: its frames, and its samples interleaved.
  pub record Decoded : Type 0 where
    pub frames : ℕ
    pub interleaved : List f.F32

  pub data TeeEvent : Type 0 where
    session_start : ℕ → TeeSpec → ℕ → Option ℤ → TeeEvent
    tee_chunk : ℕ → ℕ → List f.F32 → TeeEvent
    session_end : ℕ → TeeEvent
    tee_correction : ℕ → ℤ → TeeEvent

pub record SyncTee : Type 0 where
  pub active : Bool
  pub buffer_ms : ℕ
  pub next_session_id : ℕ  -- u64

pub record TeeSession : Type 0 where
  pub session_id : ℕ
  pub rate : ℕ
  pub epoch_micros : ℕ
  pub channels : ℕ
  pub frames_sent : ℕ  -- u64
  pub dropped_chunks : ℕ  -- u64
  pub last_correction_at : ℕ
  pub offset_sum : ℤ
  pub offset_samples : ℕ

abbrev pub new_tee : ℕ → SyncTee
new_tee buffer_ms = record { active = false; buffer_ms = buffer_ms; next_session_id = 1 }

abbrev pub sent {ℓ} : {A : Type ℓ} → Bool → A → List A
sent true e = e ∷ []
sent false e = []

-- `a as i64`
abbrev pub as_i64 : ℕ → ℤ
as_i64 n = if ltb n 9223372036854775808 then pos n else negsuc (18446744073709551615 - n)

-- Division of an i64 by a positive number rounds towards zero.
abbrev pub div_i64 : ℤ → ℕ → ℤ
div_i64 (pos n) d = pos (n / d)
div_i64 (negsuc n) d = pos 0 -ℤ pos (suc n / d)

abbrev pub at_least_one : ℕ → ℕ
at_least_one zero = 1
at_least_one (suc n) = suc n

module _ (f : Samples) where
  -- `now` is the clock of the process.
  unfoldable pub begin_session :
      ℕ → Bool → TeeSpec → ℕ → Option ℤ → SyncTee → List (TeeEvent f) × TeeSession × SyncTee
  begin_session now room spec epoch gain_db_hundredths tee =
      let id = tee.next_session_id in
      (
        sent room (session_start id spec epoch gain_db_hundredths),
        record {
          session_id = id;
          rate = spec.rate;
          epoch_micros = epoch;
          channels = spec.channels;
          frames_sent = 0;
          dropped_chunks = 0;
          last_correction_at = now;
          offset_sum = pos 0;
          offset_samples = 0;
        },
        record tee { next_session_id = u64 (id + 1) },
      )

  unfoldable pub send_chunk : Bool → Decoded f → TeeSession → List (TeeEvent f) × TeeSession
  send_chunk room decoded session = if decoded.frames == 0 then ([], session) else (
    sent room (tee_chunk session.session_id session.frames_sent decoded.interleaved),
    record session {
      frames_sent = u64 (session.frames_sent + decoded.frames);
      dropped_chunks = if room then session.dropped_chunks else u64 (session.dropped_chunks + 1);
    },
  )

  unfoldable pub maybe_send_correction : ℕ → Bool → ℕ → TeeSession → List (TeeEvent f) × TeeSession
  maybe_send_correction now room playback_lag_micros session =
      let nominal =
        u64 (
          session.epoch_micros + u64 (session.frames_sent * 1000000) / at_least_one session.rate) in
      let offset = as_i64 (u64 (now + playback_lag_micros)) -ℤ as_i64 nominal in
      let sum = session.offset_sum +ℤ offset in
      let samples = session.offset_samples + 1 in
      if ltb (now - session.last_correction_at) 2000000
      then ([], record session { offset_sum = sum; offset_samples = samples })
      else (
        sent room (tee_correction session.session_id (div_i64 sum (at_least_one samples))),
        record session { last_correction_at = now; offset_sum = pos 0; offset_samples = 0 },
      )

  -- `Drop for TeeSession`
  abbrev pub drop_session : Bool → TeeSession → List (TeeEvent f)
  drop_session room session = sent room (session_end session.session_id)
