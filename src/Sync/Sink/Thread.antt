-- ===== src/Sync/Sink/Thread.antt =====
-- The thread of the sink: `run_sink`. A round is one turn of either of its loops: whether it is told
-- to stop, and what the channel gives it within its timeout. The poll for the latency of a device that
-- has been opened only waits.
use rsplayer.Prelude.{◌≡◌, refl, ap, List, [], ◌∷◌, ◌++◌, Bool, true, false}
use rsplayer.Sync.Sink.{Floats, SinkWrite, Pipeline, SyncSinkConfig, new_pipeline}
use rsplayer.Sync.Sink.Chunk.{handle_chunk}
use rsplayer.Sync.Sink.Patience.{Arrival, handle_all}

module _ (f : Floats) where
  pub data Received : Type 0 where
    received : Arrival f → Received
    timed_out : Received
    disconnected : Received

  -- How the thread ends; `running` when the rounds are over before it does, and `not_opened` with the
  -- notification of the error.
  pub data SinkEnd : Type 0 where
    unused : SinkEnd
    not_opened : SinkEnd
    flushed : SinkEnd
    drained : SinkEnd
    running : SinkEnd

  abbrev pub after_chunk :
      List (SinkWrite f) × Pipeline f
      → (Pipeline f → List (SinkWrite f) × SinkEnd)
      → List (SinkWrite f) × SinkEnd
  after_chunk (writes, p) next = (writes ++ (next p).0, (next p).1)

  abbrev pub play : List (Bool × Received) → Pipeline f → List (SinkWrite f) × SinkEnd
  play [] p = ([], running)
  play ((true, r) ∷ rounds) p = ([], flushed)
  play ((false, received (now, lag, chunk)) ∷ rounds) p =
      after_chunk (handle_chunk f now lag chunk p) (play rounds)
  play ((false, timed_out) ∷ rounds) p = play rounds p
  play ((false, disconnected) ∷ rounds) p = ([], drained)

  -- The wait for the first chunk, before the device is opened.
  abbrev pub run_sink :
      Bool → SyncSinkConfig → List (Bool × Received) → List (SinkWrite f) × SinkEnd
  run_sink opens cfg [] = ([], running)
  run_sink opens cfg ((true, r) ∷ rounds) = ([], unused)
  run_sink true cfg ((false, received (now, lag, chunk)) ∷ rounds) =
      after_chunk (handle_chunk f now lag chunk (new_pipeline f cfg)) (play rounds)
  run_sink false cfg ((false, received a) ∷ rounds) = ([], not_opened)
  run_sink opens cfg ((false, timed_out) ∷ rounds) = run_sink opens cfg rounds
  run_sink opens cfg ((false, disconnected) ∷ rounds) = ([], unused)

  -- The chunks that come before the thread is told to stop or the channel is closed.
  abbrev pub heard : List (Bool × Received) → List (Arrival f)
  heard [] = []
  heard ((true, r) ∷ rounds) = []
  heard ((false, received a) ∷ rounds) = a ∷ heard rounds
  heard ((false, timed_out) ∷ rounds) = heard rounds
  heard ((false, disconnected) ∷ rounds) = []

  play-writes :
      (rounds : List (Bool × Received)) (p : Pipeline f)
      → (play rounds p).0 ≡ (handle_all f (heard rounds) p).0
  play-writes [] p = refl
  play-writes ((true, r) ∷ rounds) p = refl
  play-writes ((false, received (now, lag, chunk)) ∷ rounds) p =
      ap (λ w. (handle_chunk f now lag chunk p).0 ++ w)
        (play-writes rounds (handle_chunk f now lag chunk p).1)
  play-writes ((false, timed_out) ∷ rounds) p = play-writes rounds p
  play-writes ((false, disconnected) ∷ rounds) p = refl

  -- On a device that opens, the thread writes what the handling of the chunks writes that come before
  -- it is told to stop or the channel is closed, one after the other from a new pipeline, and nothing
  -- else.
  pub run_sink-writes :
      (cfg : SyncSinkConfig) (rounds : List (Bool × Received))
      → (run_sink true cfg rounds).0 ≡ (handle_all f (heard rounds) (new_pipeline f cfg)).0
  run_sink-writes cfg [] = refl
  run_sink-writes cfg ((true, r) ∷ rounds) = refl
  run_sink-writes cfg ((false, received (now, lag, chunk)) ∷ rounds) =
      ap (λ w. (handle_chunk f now lag chunk (new_pipeline f cfg)).0 ++ w)
        (play-writes rounds (handle_chunk f now lag chunk (new_pipeline f cfg)).1)
  run_sink-writes cfg ((false, timed_out) ∷ rounds) = run_sink-writes cfg rounds
  run_sink-writes cfg ((false, disconnected) ∷ rounds) = refl
