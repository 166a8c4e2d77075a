-- ===== src/Sync/Sink/Blocks.antt =====
-- The frames in the blocks that the sink writes.
use rsplayer.Prelude.{
  ℕ, zero, suc, ◌+◌, ◌-◌, ◌*◌, ◌/◌, ◌≡◌, ◌≢◌, ◌<◌, ◌≤◌, refl, sym, ap, ◌∙◌, Option, none, some,
  List, [], ◌∷◌, false, ltb, ◌==◌, length, take, drop, arith, Bool-cases, inl, inr, length-take,
  length-map,
}
use Prim.Native.Nat.{min}
use native.Mathlib.Nat.{
  mul-div_cancel, mul-le-mul_right, mul-sub, mul_comm, le-mul_of_pos_right, eq_of_mul-eq-mul_right,
  zero-mul,
}
use rsplayer.Sync.Sink.{Floats, SinkWrite, Pipeline, audio, silence, panics, chunk_frames}
use rsplayer.Sync.Sink.Output.{amplify, write_blocks, write_samples}

pub length-drop_lem : {A : Type 0} (n : ℕ) (xs : List A) → length (drop n xs) ≡ length xs - n
length-drop_lem zero xs = omega arith
length-drop_lem (suc n) [] = omega arith
length-drop_lem (suc n) (x ∷ xs) = ground (arith, length-drop_lem n xs)

pub drop_all : {A : Type 0} (n : ℕ) (xs : List A) → length xs ≤ n → drop n xs ≡ []
drop_all zero [] h = refl
drop_all zero (x ∷ xs) h = absurd (omega arith)
drop_all (suc n) [] h = refl
drop_all (suc n) (x ∷ xs) h = drop_all n xs (omega arith)

pub div_exact : (m c : ℕ) → 0 < c → m * c / c ≡ m
div_exact m c h = mul-div_cancel m h

pub sub_mul : (a b c : ℕ) → a * c - b * c ≡ (a - b) * c
sub_mul a b c =
    ap (λ x. x - b * c) (mul_comm a c)
    ∙ ap (λ x. c * a - x) (mul_comm b c)
    ∙ sym (mul-sub c a b)
    ∙ mul_comm c (a - b)

not_zero : (n : ℕ) → suc n ≢ 0
not_zero n e = absurd (omega arith)

zero_factor : (n c : ℕ) → 0 < c → 0 ≡ n * c → n ≡ 0
zero_factor n c h e = eq_of_mul-eq-mul_right c h n 0 (sym e ∙ sym (zero-mul c))

pub frames_below : (n c : ℕ) {k : ℕ} → 0 < c → k ≡ n * c → n ≤ k
frames_below n c h e = rw e (le-mul_of_pos_right n h)

min_mul : (a b c : ℕ) → min (a * c) (b * c) ≡ min a b * c
min_mul a b c = elim (Bool-cases (ltb a b)) [
  | inl e ↦
      let h : a ≤ b = ground arith in
      let k : a * c ≤ b * c = mul-le-mul_right c h in
      let m : min a b ≡ a = omega arith in
      let n : min (a * c) (b * c) ≡ a * c = omega (arith, k) in n ∙ ap (λ x. x * c) (sym m)
  | inr e ↦
      let h : b ≤ a = ground arith in
      let k : b * c ≤ a * c = mul-le-mul_right c h in
      let m : min a b ≡ b = omega arith in
      let n : min (a * c) (b * c) ≡ b * c = omega (arith, k) in n ∙ ap (λ x. x * c) (sym m)
]

module _ (f : Floats) where
  abbrev pub frames_of_write : ℕ → SinkWrite f → ℕ
  frames_of_write channels (audio block) = length block / channels
  frames_of_write channels (silence n) = n
  frames_of_write channels panics = 0

  abbrev pub frames_written : ℕ → List (SinkWrite f) → ℕ
  frames_written channels [] = 0
  frames_written channels (w ∷ ws) = frames_of_write channels w + frames_written channels ws

  length-amplify :
      (p : Pipeline f) (samples : List f.F32) → length (amplify f p.gain samples) ≡ length samples
  length-amplify p samples = by_gain p.gain
    where
      by_gain : (g : Option f.F32) → length (amplify f g samples) ≡ length samples
      by_gain none = refl
      by_gain (some g) = length-map _ samples

  -- A block of some samples in whole frames.
  pub whole_block :
      (n : ℕ) (p : Pipeline f) (xs : List f.F32)
      → 0 < p.channels
      → length xs ≡ n * p.channels
      → length (take (chunk_frames * p.channels) xs) / p.channels ≡ min chunk_frames n
  whole_block n p xs c h =
      ap (λ x. x / p.channels)
        (length-take (chunk_frames * p.channels) xs
          ∙ ap (min (chunk_frames * p.channels)) h
          ∙ min_mul chunk_frames n p.channels)
      ∙ div_exact (min chunk_frames n) p.channels c

  pub frames_left :
      (n : ℕ) (p : Pipeline f) (s : f.F32) (samples : List f.F32)
      → length (s ∷ samples) ≡ n * p.channels
      → 0 < n
  frames_left n p s samples h = elim (Bool-cases (ltb 0 n)) [
    | inl e ↦ ground arith
    | inr e ↦
        let none_left : n ≡ 0 = ground arith in
        absurd
          (not_zero (length samples) (h ∙ ap (λ x. x * p.channels) none_left ∙ zero-mul p.channels))
  ]

  frames-write_blocks :
      (fuel n : ℕ) (p : Pipeline f) (samples : List f.F32)
      → 0 < p.channels
      → length samples ≡ n * p.channels
      → n ≤ fuel
      → frames_written p.channels (write_blocks f fuel p samples) ≡ n
  frames-write_blocks zero n p samples c h b = omega arith
  frames-write_blocks (suc fuel) n p [] c h b = sym (zero_factor n p.channels c h)
  frames-write_blocks (suc fuel) n p (s ∷ samples) c h b =
      let m = min chunk_frames n in
      let xs = s ∷ samples in
      let block = take (chunk_frames * p.channels) xs in
      let whole = whole_block n p xs c h in
      let amplified : length (amplify f p.gain block) / p.channels ≡ m =
        ap (λ x. x / p.channels) (length-amplify p block) ∙ whole in
      let more =
        frames-write_blocks fuel (n - chunk_frames) p (drop (chunk_frames * p.channels) xs) c
          (length-drop_lem (chunk_frames * p.channels) xs
            ∙ ap (λ x. x - chunk_frames * p.channels) h
            ∙ sub_mul n chunk_frames p.channels)
          (omega arith) in
      let some_left = frames_left n p s samples h in
      let counted : (m == 0) ≡ false = ground (arith, some_left) in
      let goal = ap (λ x. x == 0) whole ∙ counted in rw (goal, amplified, more) (omega arith)

  pub frames-write_samples :
      (n : ℕ) (p : Pipeline f) (samples : List f.F32)
      → 0 < p.channels
      → length samples ≡ n * p.channels
      → frames_written p.channels (write_samples f p samples) ≡ n
  unfolding write_samples
  frames-write_samples n p samples c h =
      let some_channel : (p.channels == 0) ≡ false = ground (arith, c) in
      rw some_channel
        (frames-write_blocks (length samples) n p samples c h (frames_below n p.channels c h))
