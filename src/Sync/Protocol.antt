-- ===== src/Sync/Protocol.antt =====
-- crates/sync/src/protocol.rs: the messages between players, and their frames on a QUIC stream. A
-- stream is the list of the bytes that are still to be read; a sender's result is what it has sent.
-- The `postcard` crate enters as a pair of functions.
pub mod Frames
use rsplayer.Prelude.{
  ℕ, zero, suc, ◌+◌, ◌*◌, ◌/◌, ◌%◌, ◌≡◌, Option, none, some, List, [], ◌∷◌, ◌++◌, Bool, true, false,
  if◌then◌else◌, length, take, drop, leb, ltb,
}
use rsplayer.Prelude.Int.{ℤ}
use rsplayer.Song.{Bytes, Text}

-- api_models/src/state.rs
pub data MultiroomRole : Type 0 where
  off idle leader follower : MultiroomRole

pub record MultiroomPeer : Type 0 where
  pub endpoint_id : Text
  pub room_name : Text
  pub in_group : Bool
  pub online : Bool

pub record MultiroomGroupState : Type 0 where
  pub role : MultiroomRole
  pub leader_name : Option Text
  pub members : List MultiroomPeer

abbrev pub protocol_version : ℕ
protocol_version = 2

abbrev pub max_control_frame_bytes : ℕ
max_control_frame_bytes = 262144

abbrev pub max_audio_frame_bytes : ℕ
max_audio_frame_bytes = 4194304

pub record StreamSpec : Type 0 where
  pub rate : ℕ  -- u32
  pub channels : ℕ  -- u8

pub record SongMeta : Type 0 where
  pub title : Text
  pub artist : Text
  pub album : Text

pub data ControlToFollower : Type 0 where
  hello : ℕ → Text → ControlToFollower
  group_state : MultiroomGroupState → ControlToFollower
  stream_start : ℕ → StreamSpec → SongMeta → Option ℤ → ControlToFollower
  stream_stop : ℕ → ControlToFollower
  timeline_correction : ℕ → ℤ → ControlToFollower
  song_progress : ℕ → ℕ → ControlToFollower
  ping : ControlToFollower

pub data ControlToLeader : Type 0 where
  hello_ack : ℕ → Text → ControlToLeader
  leave_group : ControlToLeader
  buffer_report : ℕ → ℕ → ControlToLeader
  pong : ControlToLeader

pub record AudioChunk : Type 0 where
  pub session_id : ℕ
  pub seq : ℕ
  pub play_at_micros : ℕ
  pub frames : ℕ  -- u32
  pub payload : Bytes

-- A probe of the clock: the id and `t1`, and for the answer `t2` and `t3`.
pub data ClockMsg : Type 0 where
  clock_ping : ℕ → ℕ → ClockMsg
  clock_pong : ℕ → ℕ → ℕ → ℕ → ClockMsg

-- `postcard::to_stdvec` and `from_bytes` at a type: a message is read back from its bytes.
pub record Postcard (T : Type 0) : Type 0 where
  pub to_stdvec : T → Bytes
  pub from_bytes : Bytes → Option T
  pub from_bytes-to_stdvec : (t : T) → from_bytes (to_stdvec t) ≡ some t

pub data FrameError : Type 0 where
  length_not_u32 : FrameError
  end_of_stream : FrameError
  too_large : ℕ → FrameError
  malformed : FrameError

-- `anyhow::Result`
pub data Result (A : Type 0) : Type 0 where
  ok : A → Result A
  err : FrameError → Result A

infixl 20 ◌>>=◌
abbrev pub ◌>>=◌ : {A B : Type 0} → Result A → (A → Result B) → Result B
ok a >>= f = f a
err e >>= f = err e

-- `u32::to_le_bytes` for `w` bytes, and back.
unfoldable pub le_bytes : ℕ → ℕ → Bytes
le_bytes zero n = []
le_bytes (suc w) n = (n % 256) ∷ le_bytes w (n / 256)

unfoldable pub from_le_bytes : Bytes → ℕ
from_le_bytes [] = 0
from_le_bytes (b ∷ bs) = b + 256 * from_le_bytes bs

-- `read_exact` for a buffer of `n` bytes.
unfoldable pub read_exact : ℕ → Bytes → Result (Bytes × Bytes)
read_exact n stream =
    if leb n (length stream) then ok (take n stream, drop n stream) else err end_of_stream

module _ {T : Type 0} (card : Postcard T) where
  unfoldable pub write_frame : T → Result Bytes
  unfolding le_bytes
  write_frame msg =
      let bytes = card.to_stdvec msg in
      if ltb (length bytes) 4294967296
      then ok (le_bytes 4 (length bytes) ++ bytes)
      else err length_not_u32

  abbrev pub decoded : Bytes → Option T → Result (T × Bytes)
  decoded stream none = err malformed
  decoded stream (some t) = ok (t, stream)

  -- `ensure!(len <= max_len, ..)`, then the body.
  unfoldable pub read_body : ℕ → ℕ → Bytes → Result (T × Bytes)
  unfolding read_exact
  read_body max_len len stream =
      if leb len max_len
      then (do (buf, rest) ← read_exact len stream; decoded rest (card.from_bytes buf))
      else err (too_large len)

  unfoldable pub read_frame : ℕ → Bytes → Result (T × Bytes)
  unfolding read_body read_exact from_le_bytes
  read_frame max_len stream = do
    (len_buf, rest) ← read_exact 4 stream
    read_body max_len (from_le_bytes len_buf) rest
