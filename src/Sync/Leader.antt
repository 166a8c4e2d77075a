-- ===== src/Sync/Leader.antt =====
-- crates/sync/src/leader.rs: the two tasks of a leader that carry the audio. `ingest` is one turn of
-- the task that times the chunks of the tee, with the messages that it broadcasts; `write_audio` is
-- one turn of the task that writes to one follower, with what it does to the connection. The answers
-- of the connection are an argument.
pub mod Timeline
pub mod Streams
use rsplayer.Prelude.{
  ℕ, zero, suc, ◌+◌, ◌-◌, ◌*◌, ◌/◌, ◌%◌, Option, none, some, List, [], ◌∷◌, ◌++◌, Bool, true, false,
  ltb, ◌==◌, ◌&&◌, not, if◌then◌else◌, length, unwrap_or,
}
use rsplayer.Prelude.Int.{ℤ}
use rsplayer.Song.{Bytes, Text, Song}
use rsplayer.Queue.State.{u64}
use rsplayer.Sync.Protocol.{
  StreamSpec, SongMeta, AudioChunk, ControlToFollower, stream_start, stream_stop,
  timeline_correction,
}
use rsplayer.Sync.Tee.{
  Samples, TeeSpec, TeeEvent, session_start, tee_chunk, session_end, tee_correction,
}

pub record SessionInfo : Type 0 where
  pub session_id : ℕ
  pub spec : StreamSpec
  pub gain_db_hundredths : Option ℤ
  pub song : SongMeta

pub data AudioMsg : Type 0 where
  chunk_msg : SessionInfo → AudioChunk → AudioMsg
  session_end_msg : ℕ → AudioMsg
  correction_msg : ℕ → ℤ → AudioMsg

-- The variables of the loop of `spawn_tee_ingestion`.
pub record Ingestion : Type 0 where
  pub current_song : SongMeta
  pub current : Option SessionInfo
  pub epoch_micros : ℕ
  pub seq : ℕ

abbrev pub stream_spec : TeeSpec → StreamSpec
stream_spec spec = record { rate = spec.rate; channels = spec.channels }

-- `Option::filter` by the id of a session.
abbrev pub session_of : ℕ → Option SessionInfo → Option SessionInfo
session_of id none = none
session_of id (some s) = if s.session_id == id then some s else none

abbrev pub ends_session : ℕ → Option SessionInfo → Option SessionInfo
ends_session id none = none
ends_session id (some s) = if s.session_id == id then none else some s

-- `u32::try_from(frames).unwrap_or(u32::MAX)`
abbrev pub u32_or_max : ℕ → ℕ
u32_or_max n = if ltb n 4294967296 then n else 4294967295

module _ (f : Samples) where
  abbrev pub encode_all : List f.F32 → Bytes
  encode_all [] = []
  encode_all (s ∷ ss) = let (a, b) = f.encode_sample s in a ∷ b ∷ encode_all ss

  -- A chunk of the current session. A rate or a number of channels of 0 would panic.
  abbrev pub publish_chunk :
      Option SessionInfo → ℕ → List f.F32 → Ingestion → List AudioMsg × Ingestion
  publish_chunk none first_frame samples state = ([], state)
  publish_chunk (some session) first_frame samples state = (
    chunk_msg session (record {
      session_id = session.session_id;
      seq = state.seq;
      play_at_micros = u64 (state.epoch_micros + u64 (first_frame * 1000000) / session.spec.rate);
      frames = u32_or_max (length samples / session.spec.channels);
      payload = encode_all samples;
    })
        ∷ [],
    record state { seq = u64 (state.seq + 1) },
  )

  unfoldable pub ingest : TeeEvent f → Ingestion → List AudioMsg × Ingestion
  ingest (session_start id spec epoch gain) state = (
    [],
    record state {
      current = some (record {
        session_id = id;
        spec = stream_spec spec;
        gain_db_hundredths = gain;
        song = state.current_song;
      });
      epoch_micros = epoch;
      seq = 0;
    },
  )
  ingest (tee_chunk id first_frame samples) state =
      publish_chunk (session_of id state.current) first_frame samples state
  ingest (session_end id) state =
      (session_end_msg id ∷ [], record state { current = ends_session id state.current })
  ingest (tee_correction id offset_micros) state = (correction_msg id offset_micros ∷ [], state)

  unfoldable pub ingest_all : List (TeeEvent f) → Ingestion → List AudioMsg × Ingestion
  unfolding ingest
  ingest_all [] state = ([], state)
  ingest_all (event ∷ events) state =
      let (msgs, state') = ingest event state in
      let (more, final) = ingest_all events state' in (msgs ++ more, final)

-- `StateChangeEvent::CurrentSongEvent` in the same loop.
abbrev pub note_song : Song → Ingestion → Ingestion
note_song song state = record state {
  current_song = record {
    title = unwrap_or song.title [];
    artist = unwrap_or song.artist [];
    album = unwrap_or song.album [];
  };
}

-- What the writer does to the connection.
pub data WriterEffect : Type 0 where
  control : ControlToFollower → WriterEffect
  open_uni : ℕ → WriterEffect
  write_chunk : ℕ → AudioChunk → WriterEffect
  finish : ℕ → WriterEffect

-- Which of the calls work in a turn.
pub record Answers : Type 0 where
  pub control_sent : Bool
  pub uni_opened : Bool
  pub chunk_written : Bool

abbrev pub same_session : Option ℕ → ℕ → Bool
same_session none id = false
same_session (some current) id = current == id

-- `if let Some((old_id, mut stream)) = current.take()`
abbrev pub close_stream : Option ℕ → List WriterEffect
close_stream none = []
close_stream (some old_id) = finish old_id ∷ control (stream_stop old_id) ∷ []

abbrev pub start_of : SessionInfo → ControlToFollower
start_of session =
    stream_start session.session_id session.spec session.song session.gain_db_hundredths

-- A turn: what was done, and the open stream, if the loop goes on with one (`some none` and
-- `some (some id)`), or `none` when it breaks.
abbrev pub write_on :
    Answers → ℕ → AudioChunk → List WriterEffect → List WriterEffect × Option (Option ℕ)
write_on answers id chunk done =
    if answers.chunk_written
    then (done ++ write_chunk id chunk ∷ [], some (some id))
    else (done, none)

unfoldable pub write_audio : Answers → AudioMsg → Option ℕ → List WriterEffect × Option (Option ℕ)
write_audio answers (chunk_msg session chunk) current =
    let id = session.session_id in
    if same_session current id
    then write_on answers id chunk []
    else if not answers.control_sent
    then (close_stream current, none)
    else if not answers.uni_opened
    then (close_stream current ++ control (start_of session) ∷ [], none)
    else write_on answers id chunk
        (close_stream current ++ control (start_of session) ∷ open_uni id ∷ [])
write_audio answers (session_end_msg id) current =
    if same_session current id then (close_stream current, some none) else ([], some current)
write_audio answers (correction_msg id offset_micros) current =
    if same_session current id
    then (if answers.control_sent
        then (control (timeline_correction id offset_micros) ∷ [], some current)
        else ([], none))
    else ([], some current)

-- The loop over messages with the answers of their turns.
abbrev pub go_on_writing :
    (Option ℕ → List WriterEffect) → List WriterEffect × Option (Option ℕ) → List WriterEffect
go_on_writing rest (done, none) = done
go_on_writing rest (done, some current) = done ++ rest current

unfoldable pub run_follower_audio_writer : List (Answers × AudioMsg) → Option ℕ → List WriterEffect
unfolding write_audio
run_follower_audio_writer [] current = []
run_follower_audio_writer ((answers, msg) ∷ msgs) current =
    go_on_writing (λ c. run_follower_audio_writer msgs c) (write_audio answers msg current)
