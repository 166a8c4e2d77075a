-- ===== src/Tests/Sync.antt =====
-- The theorems about the synchronisation of rooms at small inputs.
use rsplayer.Prelude.{
  ◌≡◌, ◌≤◌, ◌+◌, ◌*◌, refl, [], ◌∷◌, ◌++◌, Option, none, some, false, inl, arith,
}
use rsplayer.Prelude.Int.{◌+ℤ◌, ◌-ℤ◌, ℤ, pos, pos_part, neg_part}
use rsplayer.Song.{Bytes}
use rsplayer.Sync.Clock.{
  ClockState, OffsetEstimator, Smoothing, add_sample, offset_micros, rtt_micros,
}
use rsplayer.Sync.Clock.Exchange.{exchange, exchange_lem}
use rsplayer.Sync.Clock.Estimate.{Steady, add_sample-Steady}
use rsplayer.Sync.Protocol.{
  ClockMsg, clock_ping, clock_pong, Postcard, ok, err, too_large, read_frame, write_frame,
}
use rsplayer.Sync.Protocol.Frames.{
  read_frame-write_frame, read_frames-write_frames, write_frames, read_frames,
}

exchange_lem_example :
    let sample = exchange 1000 50 0 7 3 9 in
    let z = offset_micros sample in
    (rtt_micros sample ≡ pos 16)
    × (2 * pos_part z + 9 ≤ 2 * neg_part z + 108)
    × (2 * neg_part z + 107 ≤ 2 * pos_part z + 10)
unfolding offset_micros ◌+ℤ◌ ◌-ℤ◌
exchange_lem_example = exchange_lem 1000 50 0 7 3 9 (omega arith) (omega arith)

-- Integers in the place of floating-point numbers.
abbrev integers : Smoothing
integers = record {
  F64 = ℤ;
  as_f64 = λ z. z;
  mul_add = λ median prev. prev;
  round = λ z. z;
  mul_add_same = λ z. refl;
  round-as_f64 = λ z h. refl;
}

abbrev fresh : OffsetEstimator integers
fresh = record { window = []; smoothed = none }

abbrev unsynced : ClockState
unsynced = record { offset = pos 0; rtt = 0; synced = false }

add_sample-Steady_example :
    let (est, state) = add_sample fresh (exchange 1000 50 0 7 3 7) unsynced in
    Steady (pos 50) est × (state.offset ≡ pos 0) × (state.synced ≡ false)
unfolding rtt_micros offset_micros ◌-ℤ◌ ◌+ℤ◌
add_sample-Steady_example =
    add_sample-Steady (pos 50) fresh (exchange 1000 50 0 7 3 7) unsynced
      (record { offsets = tt; bounded = omega arith; smooth_value = inl refl }) refl refl
      (omega arith)

abbrev clock_bytes : ClockMsg → Bytes
clock_bytes (clock_ping id t1) = 0 ∷ id ∷ t1 ∷ []
clock_bytes (clock_pong id t1 t2 t3) = 1 ∷ id ∷ t1 ∷ t2 ∷ t3 ∷ []

abbrev bytes_clock : Bytes → Option ClockMsg
bytes_clock (id ∷ t1 ∷ t2 ∷ []) = some (clock_ping t1 t2)
bytes_clock (id ∷ t1 ∷ t2 ∷ t3 ∷ t4 ∷ []) = some (clock_pong t1 t2 t3 t4)
bytes_clock other = none

bytes_clock-clock_bytes : (m : ClockMsg) → bytes_clock (clock_bytes m) ≡ some m
bytes_clock-clock_bytes (clock_ping id t1) = refl
bytes_clock-clock_bytes (clock_pong id t1 t2 t3) = refl

abbrev clock_card : Postcard ClockMsg
clock_card = record {
  to_stdvec = clock_bytes;
  from_bytes = bytes_clock;
  from_bytes-to_stdvec = bytes_clock-clock_bytes;
}

read_frame-write_frame_example :
    (sent : Bytes) × (write_frame clock_card (clock_ping 4 9) ≡ ok sent)
    × (read_frame clock_card 2 (sent ++ 5 ∷ []) ≡ err (too_large 3))
read_frame-write_frame_example =
    read_frame-write_frame clock_card 2 (clock_ping 4 9) (5 ∷ []) (omega arith)

read_frames-write_frames_example :
    (sent : Bytes) × (write_frames clock_card (clock_ping 4 9 ∷ clock_pong 4 9 10 11 ∷ [])
      ≡ ok sent)
    × (read_frames clock_card 100 2 (sent ++ 5 ∷ [])
        ≡ ok (clock_ping 4 9 ∷ clock_pong 4 9 10 11 ∷ [], 5 ∷ []))
read_frames-write_frames_example =
    read_frames-write_frames clock_card 100 (clock_ping 4 9 ∷ clock_pong 4 9 10 11 ∷ []) (5 ∷ [])
      (omega arith) (omega arith, (omega arith, tt))
