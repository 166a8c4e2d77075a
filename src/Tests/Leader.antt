-- ===== src/Tests/Leader.antt =====
-- A leader with one follower.
use rsplayer.Prelude.{ℕ, ◌≡◌, refl, ◌++◌, [], ◌∷◌, List, none, true, false, arith, is_some}
use rsplayer.Sync.Protocol.{AudioChunk}
use rsplayer.Sync.Tee.{Samples, TeeSpec, Decoded, new_tee, begin_session}
use rsplayer.Sync.Leader.{
  SessionInfo, AudioMsg, chunk_msg, session_end_msg, Ingestion, stream_spec, ingest_all, Answers,
  run_follower_audio_writer,
}
use rsplayer.Sync.Leader.Timeline.{TeeCall, packet, lag_at, heard, send_all, session-timeline}
use rsplayer.Sync.Leader.Streams.{closed, advance, run_follower_audio_writer-order}

abbrev bytes : Samples
bytes = record { F32 = ℕ × ℕ; encode_sample = λ s. s; decode_sample = λ s. s }

abbrev of_frames : ℕ → Decoded bytes
of_frames n = record { frames = n; interleaved = (1, 2) ∷ [] }

abbrev spec : TeeSpec
spec = record { rate = 44100; channels = 1 }

-- The second packet is dropped, and a correction is sent before the third.
abbrev calls : List (TeeCall bytes)
calls =
    packet (of_frames 441) true
    ∷ packet (of_frames 441) false
    ∷ lag_at 3000000 true 7
    ∷ packet (of_frames 441) true
    ∷ []

abbrev idle : Ingestion
idle = record {
  current_song = record { title = []; artist = []; album = [] };
  current = none;
  epoch_micros = 0;
  seq = 0;
}

abbrev info : ℕ → SessionInfo
info id = record {
  session_id = id;
  spec = stream_spec spec;
  gain_db_hundredths = none;
  song = record { title = []; artist = []; album = [] };
}

abbrev chunk_at : ℕ → ℕ → ℕ → AudioChunk
chunk_at id seq time = record {
  session_id = id;
  seq = seq;
  play_at_micros = time;
  frames = 1;
  payload = 1 ∷ 2 ∷ [];
}

session-timeline_example :
    (let (start, session, _) = begin_session bytes 0 true spec 5000 none (new_tee 500) in
      heard bytes (ingest_all bytes (start ++ send_all bytes calls session) idle).0)
    ≡ chunk_msg (info 1) (chunk_at 1 0 5000) ∷ chunk_msg (info 1) (chunk_at 1 1 25000) ∷ []
session-timeline_example =
    session-timeline bytes 0 5000 true spec none (new_tee 500) calls idle refl (omega arith)
      (omega arith)

abbrev works : Answers
works = record { control_sent = true; uni_opened = true; chunk_written = true }

abbrev script : List (Answers × AudioMsg)
script =
    (works, chunk_msg (info 1) (chunk_at 1 0 5000))
    ∷ (works, chunk_msg (info 2) (chunk_at 2 0 9000))
    ∷ (works, session_end_msg 1)
    ∷ (works, session_end_msg 2)
    ∷ []

run_follower_audio_writer-order_example :
    is_some (advance closed (run_follower_audio_writer script none)) ≡ true
run_follower_audio_writer-order_example = run_follower_audio_writer-order script
