-- ===== src/Sync/Leader/Timeline.antt =====
-- When a decoded packet is played in the rooms.
use rsplayer.Prelude.{
  ℕ, ◌+◌, ◌*◌, ◌/◌, ◌<◌, ◌≤◌, ◌≡◌, refl, sym, ap, ◌∙◌, Option, none, some, List, [], ◌∷◌, ◌++◌,
  Bool, true, false, arith, ◌==◌, ltb, ◌-◌, if◌then◌else◌, length, Bool-cases, inl, inr, ==_refl,
}
use native.Mathlib.Nat.{div-le_self}
use rsplayer.Prelude.Int.{ℤ}
use rsplayer.Queue.State.{u64}
use rsplayer.Sync.Tee.{
  Samples, TeeSpec, Decoded, TeeEvent, SyncTee, TeeSession, tee_chunk, sent, begin_session,
  send_chunk, maybe_send_correction,
}
use rsplayer.Sync.Leader.{
  SessionInfo, AudioMsg, chunk_msg, session_end_msg, correction_msg, session_of, Ingestion,
  stream_spec, u32_or_max, encode_all, ingest, ingest_all,
}

module _ (f : Samples) where
  -- What a playback does with the tee of its session, in any order, each with whether there is room in
  -- the channel: a decoded packet, or a look at the clock with the lag of the playback.
  pub data TeeCall : Type 0 where
    packet : Decoded f → Bool → TeeCall
    lag_at : ℕ → Bool → ℕ → TeeCall

  abbrev pub send_call : TeeCall → TeeSession → List (TeeEvent f) × TeeSession
  send_call (packet decoded room) session = send_chunk f room decoded session
  send_call (lag_at now room lag) session = maybe_send_correction f now room lag session

  abbrev pub send_all : List TeeCall → TeeSession → List (TeeEvent f)
  send_all [] session = []
  send_all (call ∷ calls) session =
      let (events, session') = send_call call session in events ++ send_all calls session'

  abbrev pub frames_of : List TeeCall → ℕ
  frames_of [] = 0
  frames_of (packet decoded room ∷ calls) = decoded.frames + frames_of calls
  frames_of (lag_at now room lag ∷ calls) = frames_of calls

  -- The messages that are not corrections of the timeline.
  abbrev pub heard : List AudioMsg → List AudioMsg
  heard [] = []
  heard (chunk_msg session chunk ∷ msgs) = chunk_msg session chunk ∷ heard msgs
  heard (session_end_msg id ∷ msgs) = session_end_msg id ∷ heard msgs
  heard (correction_msg id offset_micros ∷ msgs) = heard msgs

  -- What the rooms should hear: every packet that found room, at the time of its frames since the
  -- start, and numbered without gaps.
  abbrev pub timeline : SessionInfo → ℕ → ℕ → ℕ → List TeeCall → List AudioMsg
  timeline session epoch before seq [] = []
  timeline session epoch before seq (lag_at now room lag ∷ calls) =
      timeline session epoch before seq calls
  timeline session epoch before seq (packet decoded room ∷ calls) =
      let now = chunk_msg session (record {
        session_id = session.session_id;
        seq = seq;
        play_at_micros = epoch + before * 1000000 / session.spec.rate;
        frames = u32_or_max (length decoded.interleaved / session.spec.channels);
        payload = encode_all f decoded.interleaved;
      }) in
      let gap = timeline session epoch (before + decoded.frames) seq calls in
      let played = now ∷ timeline session epoch (before + decoded.frames) (seq + 1) calls in
      if decoded.frames == 0 then gap else if room then played else gap

  -- The fields that the rest of the session depends on.
  frames_sent-send_chunk :
      (room : Bool) (decoded : Decoded f) (session : TeeSession)
      → session.frames_sent + decoded.frames < 18446744073709551616
      → let session' = (send_chunk f room decoded session).1 in
        (session'.frames_sent ≡ session.frames_sent + decoded.frames)
        × (session'.session_id ≡ session.session_id)
  unfolding send_chunk
  frames_sent-send_chunk room decoded session fits = ground arith

  events-send_chunk :
      (room : Bool) (decoded : Decoded f) (session : TeeSession)
      → (decoded.frames == 0) ≡ false
      → (send_chunk f room decoded session).0
        ≡ sent room (tee_chunk session.session_id session.frames_sent decoded.interleaved)
  unfolding send_chunk
  events-send_chunk room decoded session e = rw e refl

  events-empty :
      (room : Bool) (decoded : Decoded f) (session : TeeSession)
      → (decoded.frames == 0) ≡ true
      → (send_chunk f room decoded session).0 ≡ []
  unfolding send_chunk
  events-empty room decoded session e = rw e refl

  -- A chunk of the session that the ingestion is in.
  ingest-chunk :
      (id first_frame : ℕ) (samples : List f.F32) (info : SessionInfo) (state : Ingestion)
      → state.current ≡ some info
      → info.session_id ≡ id
      → state.epoch_micros + first_frame * 1000000 < 18446744073709551616
      → state.seq + 1 < 18446744073709551616
      → ingest f (tee_chunk id first_frame samples) state ≡ (
        chunk_msg info (record {
          session_id = info.session_id;
          seq = state.seq;
          play_at_micros = state.epoch_micros + first_frame * 1000000 / info.spec.rate;
          frames = u32_or_max (length samples / info.spec.channels);
          payload = encode_all f samples;
        })
            ∷ [],
        record state { seq = state.seq + 1 },
      )
  unfolding ingest
  ingest-chunk id first_frame samples info state c i fits next =
      let yes : (info.session_id == id) ≡ true = rw i (==_refl id) in
      let below : first_frame * 1000000 / info.spec.rate ≤ first_frame * 1000000 =
        div-le_self _ _ in
      let whole : u64 (first_frame * 1000000) ≡ first_frame * 1000000 = omega arith in
      let time : u64 (state.epoch_micros + first_frame * 1000000 / info.spec.rate)
          ≡ state.epoch_micros + first_frame * 1000000 / info.spec.rate =
        omega (arith, below) in
      let number : u64 (state.seq + 1) ≡ state.seq + 1 = omega arith in
      rw (c, yes, whole, time, number) refl

  -- A correction of the timeline changes neither the session's frames nor what the rooms hear.
  fields-lag_at :
      (now : ℕ) (room : Bool) (lag : ℕ) (session : TeeSession)
      → let session' = (maybe_send_correction f now room lag session).1 in
        (session'.frames_sent ≡ session.frames_sent) × (session'.session_id ≡ session.session_id)
  unfolding maybe_send_correction
  fields-lag_at now room lag session = ground arith

  heard-lag_at :
      (now : ℕ) (room : Bool) (lag : ℕ) (session : TeeSession) (rest : List (TeeEvent f))
      (state : Ingestion)
      → heard (ingest_all f ((maybe_send_correction f now room lag session).0 ++ rest) state).0
        ≡ heard (ingest_all f rest state).0
  unfolding maybe_send_correction ingest_all ingest
  heard-lag_at now true lag session rest state =
      elim (Bool-cases (ltb (now - session.last_correction_at) 2000000)) [
        | inl e ↦ rw e refl
        | inr e ↦ rw e refl
      ]
  heard-lag_at now false lag session rest state =
      elim (Bool-cases (ltb (now - session.last_correction_at) 2000000)) [
        | inl e ↦ rw e refl
        | inr e ↦ rw e refl
      ]

  -- A session that the ingestion is in, with room on the clock for the frames that come.
  send_all-timeline :
      (calls : List TeeCall) (session : TeeSession) (info : SessionInfo) (state : Ingestion)
      → state.current ≡ some info
      → info.session_id ≡ session.session_id
      → state.epoch_micros + (session.frames_sent + frames_of calls) * 1000000
        < 18446744073709551616
      → state.seq + length calls < 18446744073709551616
      → heard (ingest_all f (send_all calls session) state).0
        ≡ timeline info state.epoch_micros session.frames_sent state.seq calls
  unfolding ingest_all
  send_all-timeline [] session info state c i room seqs = refl
  send_all-timeline (lag_at now has_room lag ∷ calls) session info state c i room seqs =
      let (frames, same) = fields-lag_at now has_room lag session in
      let session' = (maybe_send_correction f now has_room lag session).1 in
      let rest =
        send_all-timeline calls session' info state c (i ∙ sym same) (omega (arith, frames))
          (omega arith) in
      heard-lag_at now has_room lag session (send_all calls session') state
      ∙ rest
      ∙ ap (λ n. timeline info state.epoch_micros n state.seq calls) frames
  send_all-timeline (packet decoded true ∷ calls) session info state c i room seqs =
      let (frames, same) = frames_sent-send_chunk true decoded session (omega arith) in
      let session' = (send_chunk f true decoded session).1 in
      let rest =
        send_all-timeline calls session' info state c (i ∙ sym same) (omega (arith, frames))
          (omega arith) in
      elim (Bool-cases (decoded.frames == 0)) [
        | inl e ↦ rw (e, events-empty true decoded session e, rest, frames) refl
        | inr e ↦
            let now =
              ingest-chunk session.session_id session.frames_sent decoded.interleaved info state c i
                (omega arith) (omega arith) in
            let later =
              send_all-timeline calls session' info (record state { seq = state.seq + 1 }) c
                (i ∙ sym same) (omega (arith, frames)) (omega arith) in
            rw (e, events-send_chunk true decoded session e, now, later, frames) refl
      ]
  send_all-timeline (packet decoded false ∷ calls) session info state c i room seqs =
      let (frames, same) = frames_sent-send_chunk false decoded session (omega arith) in
      let session' = (send_chunk f false decoded session).1 in
      let rest =
        send_all-timeline calls session' info state c (i ∙ sym same) (omega (arith, frames))
          (omega arith) in
      elim (Bool-cases (decoded.frames == 0)) [
        | inl e ↦ rw (e, events-empty false decoded session e, rest, frames) refl
        | inr e ↦ rw (e, events-send_chunk false decoded session e, rest, frames) refl
      ]

  -- A session that the ingestion knows nothing of.
  id-send_chunk :
      (room : Bool) (decoded : Decoded f) (session : TeeSession)
      → (send_chunk f room decoded session).1.session_id ≡ session.session_id
  unfolding send_chunk
  id-send_chunk room decoded session = ground arith

  heard-unknown_chunk :
      (room : Bool) (decoded : Decoded f) (session : TeeSession) (rest : List (TeeEvent f))
      (state : Ingestion)
      → session_of session.session_id state.current ≡ none
      → heard (ingest_all f ((send_chunk f room decoded session).0 ++ rest) state).0
        ≡ heard (ingest_all f rest state).0
  unfolding send_chunk ingest_all ingest
  heard-unknown_chunk true decoded session rest state u = elim (Bool-cases (decoded.frames == 0)) [
    | inl e ↦ rw e refl
    | inr e ↦ rw (e, u) refl
  ]
  heard-unknown_chunk false decoded session rest state u = elim (Bool-cases (decoded.frames == 0)) [
    | inl e ↦ rw e refl
    | inr e ↦ rw e refl
  ]

  send_all-unknown :
      (calls : List TeeCall) (session : TeeSession) (state : Ingestion)
      → session_of session.session_id state.current ≡ none
      → heard (ingest_all f (send_all calls session) state).0 ≡ []
  unfolding ingest_all
  send_all-unknown [] session state u = refl
  send_all-unknown (packet decoded room ∷ calls) session state u =
      heard-unknown_chunk room decoded session _ state u
      ∙ send_all-unknown calls (send_chunk f room decoded session).1 state
          (rw (id-send_chunk room decoded session) u)
  send_all-unknown (lag_at now room lag ∷ calls) session state u =
      heard-lag_at now room lag session _ state
      ∙ send_all-unknown calls (maybe_send_correction f now room lag session).1 state
          (rw (fields-lag_at now room lag session).1 u)

  -- However a tee drops the packets, the start and the corrections of a session that the ingestion
  -- does not know yet: when the start found room, the messages that a leader broadcasts from there on
  -- are, but for the corrections, the chunks of the packets that found room in the channel, each with
  -- the time of the frames before it, the dropped ones included, and numbered without gaps, when the
  -- times and the numbers stay below 2 ^ 64; and when the start was dropped, no chunk is broadcast.
  pub session-timeline :
      (now epoch : ℕ) (start_room : Bool) (spec : TeeSpec) (gain : Option ℤ) (tee : SyncTee)
      (calls : List TeeCall) (state : Ingestion)
      → session_of tee.next_session_id state.current ≡ none
      → epoch + frames_of calls * 1000000 < 18446744073709551616
      → length calls < 18446744073709551616
      → let (start, session, _) = begin_session f now start_room spec epoch gain tee in
        let info : SessionInfo = record {
          session_id = tee.next_session_id;
          spec = stream_spec spec;
          gain_db_hundredths = gain;
          song = state.current_song;
        } in
        heard (ingest_all f (start ++ send_all calls session) state).0
        ≡ (if start_room then timeline info epoch 0 0 calls else [])
  unfolding ingest_all ingest begin_session
  session-timeline now epoch true spec gain tee calls state unknown room count =
      send_all-timeline calls _ _ _ refl refl (omega arith) (omega arith)
  session-timeline now epoch false spec gain tee calls state unknown room count =
      send_all-unknown calls _ state unknown
