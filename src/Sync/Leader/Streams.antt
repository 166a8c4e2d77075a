-- ===== src/Sync/Leader/Streams.antt =====
-- The order in which a follower gets its streams.
use rsplayer.Prelude.{
  ℕ, ◌≡◌, refl, Option, none, some, List, [], ◌∷◌, ◌++◌, Bool, true, false, ◌==◌, not,
  if◌then◌else◌, is_some, and_then, Option-cases, Bool-cases, inl, inr, ==_refl, ==_iff,
}
use rsplayer.Sync.Protocol.{
  AudioChunk, ControlToFollower, stream_start, stream_stop, timeline_correction,
}
use rsplayer.Sync.Leader.{
  SessionInfo, AudioMsg, chunk_msg, session_end_msg, correction_msg, WriterEffect, control,
  open_uni, write_chunk, finish, Answers, close_stream, start_of, write_on, write_audio,
  go_on_writing, run_follower_audio_writer,
}

-- Where a connection stands: nothing is open; the start of a session has been told; its stream is
-- open; the stream has been finished.
pub data Phase : Type 0 where
  closed : Phase
  started opened finished : ℕ → Phase

abbrev pub when : Bool → Phase → Option Phase
when true p = some p
when false p = none

-- What may be told in a phase, and the phase behind it.
abbrev pub told : ControlToFollower → Phase → Option Phase
told (stream_start id spec song gain) closed = some (started id)
told (stream_stop id) (finished current) = when (current == id) closed
told (timeline_correction id offset) (opened current) = when (current == id) (opened current)
told _ _ = none

abbrev pub step : WriterEffect → Phase → Option Phase
step (control msg) p = told msg p
step (open_uni id) (started current) = when (current == id) (opened current)
step (write_chunk id chunk) (opened current) = when (current == id) (opened current)
step (finish id) (opened current) = when (current == id) (finished current)
step _ _ = none

abbrev pub advance : Phase → List WriterEffect → Option Phase
advance p [] = some p
advance p (e ∷ es) = and_then (step e p) (λ q. advance q es)

advance-append :
    (p : Phase) (es fs : List WriterEffect)
    → advance p (es ++ fs) ≡ and_then (advance p es) (λ q. advance q fs)
advance-append p [] fs = refl
advance-append p (e ∷ es) fs = elim (Option-cases (step e p)) [
  | inl n ↦ rw n refl
  | inr (q, n) ↦ rw n (advance-append q es fs)
]

abbrev phase_of : Option ℕ → Phase
phase_of none = closed
phase_of (some id) = opened id

-- A turn that goes on reaches the phase of its open stream, and one that breaks has kept the order.
abbrev Turns : Option ℕ → List WriterEffect × Option (Option ℕ) → Type 0
Turns current (done, none) = is_some (advance (phase_of current) done) ≡ true
Turns current (done, some next) = advance (phase_of current) done ≡ some (phase_of next)

-- A chunk is written on the stream that is open.
write_on-Turns :
    (answers : Answers) (current : Option ℕ) (id : ℕ) (chunk : AudioChunk)
    (done : List WriterEffect)
    → advance (phase_of current) done ≡ some (opened id)
    → Turns current (write_on answers id chunk done)
write_on-Turns answers current id chunk done h = elim (Bool-cases answers.chunk_written) [
  | inl e ↦
      rw (e, advance-append (phase_of current) done (write_chunk id chunk ∷ []), h, ==_refl id) refl
  | inr e ↦ rw (e, h) refl
]

-- The start of a session behind what closes the last.
start-Turns :
    (answers : Answers) (session : SessionInfo) (chunk : AudioChunk) (current : Option ℕ)
    → advance (phase_of current) (close_stream current) ≡ some closed
    → Turns current (
        if not answers.control_sent
        then (close_stream current, none)
        else if not answers.uni_opened
        then (close_stream current ++ control (start_of session) ∷ [], none)
        else write_on answers session.session_id chunk
            (close_stream current ++ control (start_of session) ∷ open_uni session.session_id ∷ []))
start-Turns answers session chunk current h = elim (Bool-cases answers.control_sent) [
  | inr e ↦ rw (e, h) refl
  | inl e ↦ elim (Bool-cases answers.uni_opened) [
    | inr f ↦
        rw
          (
            e,
            f,
            advance-append (phase_of current) (close_stream current)
                (control (start_of session) ∷ []),
            h,
          )
          refl
    | inl f ↦
        rw (e, f)
          (write_on-Turns answers current session.session_id chunk _ (
            rw
              (
                advance-append (phase_of current) (close_stream current)
                    (control (start_of session) ∷ open_uni session.session_id ∷ []),
                h,
                ==_refl session.session_id,
              )
              refl))
  ]
]

closes : (id : ℕ) → advance (opened id) (finish id ∷ control (stream_stop id) ∷ []) ≡ some closed
closes id = rw (==_refl id) (rw (==_refl id) refl)

write_audio-Turns :
    (answers : Answers) (msg : AudioMsg) (current : Option ℕ)
    → Turns current (write_audio answers msg current)
unfolding write_audio
write_audio-Turns answers (chunk_msg session chunk) none =
    start-Turns answers session chunk none refl
write_audio-Turns answers (chunk_msg session chunk) (some id) =
    elim (Bool-cases (id == session.session_id)) [
      | inl e ↦ rw e (
          write_on-Turns answers (some id) session.session_id chunk []
            (rw ((==_iff id session.session_id).0 e) refl))
      | inr e ↦ rw e (start-Turns answers session chunk (some id) (closes id))
    ]
write_audio-Turns answers (session_end_msg end) none = refl
write_audio-Turns answers (session_end_msg end) (some id) = elim (Bool-cases (id == end)) [
  | inl e ↦ rw e (closes id)
  | inr e ↦ rw e refl
]
write_audio-Turns answers (correction_msg end offset) none = refl
write_audio-Turns answers (correction_msg end offset) (some id) = elim (Bool-cases (id == end)) [
  | inl e ↦ elim (Bool-cases answers.control_sent) [
    | inl f ↦ rw (e, f) (rw e refl)
    | inr f ↦ rw (e, f) refl
  ]
  | inr e ↦ rw e refl
]

go_on-Turns :
    (rest : Option ℕ → List WriterEffect) (current : Option ℕ)
    (r : List WriterEffect × Option (Option ℕ))
    → Turns current r
    → ((next : Option ℕ) → is_some (advance (phase_of next) (rest next)) ≡ true)
    → is_some (advance (phase_of current) (go_on_writing rest r)) ≡ true
go_on-Turns rest current (done, none) h k = h
go_on-Turns rest current (done, some next) h k =
    rw (advance-append (phase_of current) done (rest next), h) (k next)

order_from :
    (msgs : List (Answers × AudioMsg)) (current : Option ℕ)
    → is_some (advance (phase_of current) (run_follower_audio_writer msgs current)) ≡ true
unfolding run_follower_audio_writer
order_from [] current = refl
order_from ((answers, msg) ∷ msgs) current =
    go_on-Turns _ current (write_audio answers msg current) (write_audio-Turns answers msg current)
      (λ next. order_from msgs next)

-- Whatever messages come, and whichever calls of the connection fail, a follower gets the streams of
-- the sessions one after the other: the start of a session is told, its stream is opened, chunks and
-- corrections of that session are written, the stream is finished, and its stop is told; and nothing
-- else.
pub run_follower_audio_writer-order :
    (msgs : List (Answers × AudioMsg))
    → is_some (advance closed (run_follower_audio_writer msgs none)) ≡ true
run_follower_audio_writer-order msgs = order_from msgs none
