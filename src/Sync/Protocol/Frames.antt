-- ===== src/Sync/Protocol/Frames.antt =====
-- What a receiver reads from the frames that a sender has written.
use native.Mathlib.Nat.{pow-suc, pow-zero}
use rsplayer.Prelude.{
  ℕ, zero, suc, ◌/◌, ◌^◌, ◌≡◌, ◌<◌, ◌≤◌, refl, subst, ap, ◌∙◌, List, [], ◌∷◌, ◌++◌, true,
  if◌then◌else◌, length, take, drop, leb, arith, lt→ltb, length-append, Bool-cases, inl, inr,
  append_assoc,
}
use rsplayer.Song.{Bytes}
use rsplayer.Sync.Protocol.{
  Postcard, Result, ok, err, too_large, le_bytes, from_le_bytes, read_exact, write_frame, read_body,
  read_frame, ◌>>=◌,
}

length-le_bytes : (w n : ℕ) → length (le_bytes w n) ≡ w
unfolding le_bytes
length-le_bytes zero n = refl
length-le_bytes (suc w) n = ap suc (length-le_bytes w (n / 256))

from-le_bytes : (w n : ℕ) → n < 256 ^ w → from_le_bytes (le_bytes w n) ≡ n
unfolding le_bytes from_le_bytes
from-le_bytes zero n h = omega (arith, pow-zero 256)
from-le_bytes (suc w) n h = omega (arith, from-le_bytes w (n / 256) (omega (arith, pow-suc 256 w)))

take-append : (xs ys : Bytes) → take (length xs) (xs ++ ys) ≡ xs
take-append [] ys = refl
take-append (x ∷ xs) ys = ap (λ l. x ∷ l) (take-append xs ys)

drop-append : (xs ys : Bytes) → drop (length xs) (xs ++ ys) ≡ ys
drop-append [] ys = refl
drop-append (x ∷ xs) ys = drop-append xs ys

leb_of_le : (a b : ℕ) → a ≤ b → leb a b ≡ true
leb_of_le a b h = ground arith

read_exact-append : (xs ys : Bytes) → read_exact (length xs) (xs ++ ys) ≡ ok (xs, ys)
unfolding read_exact
read_exact-append xs ys = rw (
  leb_of_le (length xs) (length (xs ++ ys)) (omega (arith, length-append xs ys)),
  take-append xs ys,
  drop-append xs ys,
)

module _ {T : Type 0} (card : Postcard T) where
  read_body-append :
      (max_len : ℕ) (msg : T) (rest : Bytes)
      → read_body card max_len (length (card.to_stdvec msg)) (card.to_stdvec msg ++ rest) ≡ (
          if leb (length (card.to_stdvec msg)) max_len
          then ok (msg, rest)
          else err (too_large (length (card.to_stdvec msg))))
  unfolding read_body
  read_body-append max_len msg rest =
      elim (Bool-cases (leb (length (card.to_stdvec msg)) max_len)) [
        | inl e ↦ rw (e, read_exact-append (card.to_stdvec msg) rest, card.from_bytes-to_stdvec msg)
        | inr e ↦ rw e refl
      ]

  read_frame-append :
      (max_len : ℕ) (body rest : Bytes)
      → length body < 4294967296
      → read_frame card max_len (le_bytes 4 (length body) ++ (body ++ rest))
        ≡ read_body card max_len (length body) (body ++ rest)
  unfolding read_frame
  read_frame-append max_len body rest small =
      let head = le_bytes 4 (length body) in
      let first : read_exact 4 (head ++ (body ++ rest)) ≡ ok (head, body ++ rest) =
        subst (λ n. read_exact n (head ++ (body ++ rest)) ≡ ok (head, body ++ rest))
          (length-le_bytes 4 (length body)) (read_exact-append head (body ++ rest)) in
      rw (first, from-le_bytes 4 (length body) small)

  -- A message of less than 2 ^ 32 bytes can be written; a receiver of this frame, whatever follows
  -- it, reads the message and leaves what follows, when the message is not over the receiver's
  -- bound, and reports its length as too large otherwise.
  pub read_frame-write_frame :
      (max_len : ℕ) (msg : T) (rest : Bytes)
      → length (card.to_stdvec msg) < 4294967296
      → (sent : Bytes) × (write_frame card msg ≡ ok sent)
        × (read_frame card max_len (sent ++ rest) ≡ (
            if leb (length (card.to_stdvec msg)) max_len
            then ok (msg, rest)
            else err (too_large (length (card.to_stdvec msg)))))
  unfolding write_frame
  read_frame-write_frame max_len msg rest small =
      let body = card.to_stdvec msg in
      let head = le_bytes 4 (length body) in
      (
        head ++ body,
        rw (lt→ltb (length body) 4294967296 small) refl,
        ap (λ l. read_frame card max_len l) (append_assoc head body rest)
            ∙ read_frame-append max_len body rest small
            ∙ read_body-append max_len msg rest,
      )

  -- The loops of a sender and a receiver over several messages.
  abbrev pub write_frames : List T → Result Bytes
  write_frames [] = ok []
  write_frames (msg ∷ msgs) = do
    sent ← write_frame card msg
    more ← write_frames msgs
    ok (sent ++ more)

  abbrev pub read_frames : ℕ → ℕ → Bytes → Result (List T × Bytes)
  read_frames max_len zero stream = ok ([], stream)
  read_frames max_len (suc n) stream = do
    (msg, rest) ← read_frame card max_len stream
    (msgs, rest') ← read_frames max_len n rest
    ok (msg ∷ msgs, rest')

  abbrev pub AllSmall : ℕ → List T → Type 0
  AllSmall max_len [] = Unit
  AllSmall max_len (msg ∷ msgs) = (length (card.to_stdvec msg) ≤ max_len) × AllSmall max_len msgs

  -- Messages that are not over a 32-bit bound: the frames that a sender writes one after the other
  -- are read as these messages, in their order, and what follows them is left.
  pub read_frames-write_frames :
      (max_len : ℕ) (msgs : List T) (rest : Bytes)
      → max_len < 4294967296
      → AllSmall max_len msgs
      → (sent : Bytes) × (write_frames msgs ≡ ok sent)
        × (read_frames max_len (length msgs) (sent ++ rest) ≡ ok (msgs, rest))
  read_frames-write_frames max_len [] rest bound small = ([], refl, refl)
  read_frames-write_frames max_len (msg ∷ msgs) rest bound small =
      let (more, w, r) = read_frames-write_frames max_len msgs rest bound small.1 in
      let (sent, w', r') =
        read_frame-write_frame max_len msg (more ++ rest) (omega (arith, small.0)) in
      let fits = leb_of_le (length (card.to_stdvec msg)) max_len small.0 in
      (sent ++ more, rw (w', w), rw (append_assoc sent more rest, r', fits, r))
