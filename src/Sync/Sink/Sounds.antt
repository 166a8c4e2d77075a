-- ===== src/Sync/Sink/Sounds.antt =====
-- What is heard of the blocks that the sink writes.
use rsplayer.Prelude.{
  ℕ, zero, suc, ◌+◌, ◌-◌, ◌*◌, ◌≡◌, ◌<◌, ◌≤◌, refl, sym, ap, ◌∙◌, Option, none, some, List, [], ◌∷◌,
  ◌++◌, ◌==◌, length, take, drop, map, replicate, arith, Bool-cases, inl, inr, take-append-drop,
  append_assoc, false,
}
use Prim.Native.Nat.{min}
use native.Mathlib.Nat.{add-mul, zero-mul}
use rsplayer.Sync.Sink.{Floats, SinkWrite, Pipeline, audio, silence, panics, chunk_frames}
use rsplayer.Sync.Sink.Output.{amplify, write_blocks, write_samples, silence_blocks, write_silence}
use rsplayer.Sync.Sink.Blocks.{length-drop_lem, sub_mul, whole_block, frames_left, frames_below}

map-append_lem :
    {A B : Type 0} (g : A → B) (xs ys : List A) → map g (xs ++ ys) ≡ map g xs ++ map g ys
map-append_lem g [] ys = refl
map-append_lem g (x ∷ xs) ys = rw (map-append_lem g xs ys) refl

replicate-append :
    {A : Type 0} (m n : ℕ) (a : A) → replicate m a ++ replicate n a ≡ replicate (m + n) a
replicate-append zero n a = let same : n ≡ 0 + n = omega arith in ap (λ k. replicate k a) same
replicate-append (suc m) n a =
    let next : suc (m + n) ≡ suc m + n = omega arith in
    ap (λ l. a ∷ l) (replicate-append m n a) ∙ ap (λ k. replicate k a) next

module _ (f : Floats) where
  -- The samples of a write as the output plays them, interleaved: `none` is a silent one.
  abbrev pub sound_of : ℕ → SinkWrite f → List (Option f.F32)
  sound_of channels (audio block) = map some block
  sound_of channels (silence n) = replicate (n * channels) none
  sound_of channels panics = []

  abbrev pub sounds : ℕ → List (SinkWrite f) → List (Option f.F32)
  sounds channels [] = []
  sounds channels (w ∷ ws) = sound_of channels w ++ sounds channels ws

  pub sounds-append :
      (channels : ℕ) (ws vs : List (SinkWrite f))
      → sounds channels (ws ++ vs) ≡ sounds channels ws ++ sounds channels vs
  sounds-append channels [] vs = refl
  sounds-append channels (w ∷ ws) vs =
      rw (sounds-append channels ws vs) (sym (append_assoc (sound_of channels w) _ _))

  amplify-append :
      (g : Option f.F32) (xs ys : List f.F32)
      → amplify f g (xs ++ ys) ≡ amplify f g xs ++ amplify f g ys
  amplify-append none xs ys = refl
  amplify-append (some g) xs ys = map-append_lem _ xs ys

  played_in_two :
      (g : Option f.F32) (k : ℕ) (xs : List f.F32)
      → map some (amplify f g (take k xs)) ++ map some (amplify f g (drop k xs))
        ≡ map some (amplify f g xs)
  played_in_two g k xs =
      sym (map-append_lem some (amplify f g (take k xs)) (amplify f g (drop k xs)))
      ∙ ap (map some) (sym (amplify-append g (take k xs) (drop k xs)))
      ∙ ap (λ l. map some (amplify f g l)) (take-append-drop k xs)

  pub played_none : (g : Option f.F32) → map some (amplify f g []) ≡ []
  played_none none = refl
  played_none (some g) = refl

  -- Whole frames are written without a gap.
  sounds-write_blocks :
      (fuel n : ℕ) (p : Pipeline f) (samples : List f.F32)
      → 0 < p.channels
      → length samples ≡ n * p.channels
      → n ≤ fuel
      → sounds p.channels (write_blocks f fuel p samples) ≡ map some (amplify f p.gain samples)
  sounds-write_blocks zero n p [] c h b = sym (played_none p.gain)
  sounds-write_blocks (suc fuel) n p [] c h b = sym (played_none p.gain)
  sounds-write_blocks zero n p (s ∷ samples) c h b =
      absurd (omega (arith, frames_left f n p s samples h))
  sounds-write_blocks (suc fuel) n p (s ∷ samples) c h b =
      let xs = s ∷ samples in
      let some_left = frames_left f n p s samples h in
      let counted : (min chunk_frames n == 0) ≡ false = ground (arith, some_left) in
      let not_skipped = ap (λ x. x == 0) (whole_block f n p xs c h) ∙ counted in
      let more =
        sounds-write_blocks fuel (n - chunk_frames) p (drop (chunk_frames * p.channels) xs) c
          (length-drop_lem (chunk_frames * p.channels) xs
            ∙ ap (λ x. x - chunk_frames * p.channels) h
            ∙ sub_mul n chunk_frames p.channels)
          (omega arith) in
      rw (not_skipped, more) (played_in_two p.gain (chunk_frames * p.channels) xs)

  pub sounds-write_samples :
      (n : ℕ) (p : Pipeline f) (samples : List f.F32)
      → 0 < p.channels
      → length samples ≡ n * p.channels
      → sounds p.channels (write_samples f p samples) ≡ map some (amplify f p.gain samples)
  unfolding write_samples
  sounds-write_samples n p samples c h =
      let some_channel : (p.channels == 0) ≡ false = ground (arith, c) in
      rw some_channel
        (sounds-write_blocks (length samples) n p samples c h (frames_below n p.channels c h))

  sounds-silence_blocks :
      (fuel frames channels : ℕ)
      → frames ≤ fuel
      → sounds channels (silence_blocks f fuel frames) ≡ replicate (frames * channels) none
  sounds-silence_blocks zero frames channels h =
      let empty : frames ≡ 0 = omega arith in rw (empty, zero-mul channels) refl
  sounds-silence_blocks (suc fuel) frames channels h = elim (Bool-cases (frames == 0)) [
    | inl e ↦ let empty : frames ≡ 0 = ground (arith, e) in rw (empty, zero-mul channels) refl
    | inr e ↦
        let some_left : 0 < frames = ground (arith, e) in
        let n = min frames chunk_frames in
        let together : n + (frames - n) ≡ frames = omega arith in
        rw (e, sounds-silence_blocks fuel (frames - n) channels (omega arith))
          (replicate-append (n * channels) ((frames - n) * channels) none
            ∙ ap (λ k. replicate k none)
                (sym (add-mul n (frames - n) channels) ∙ ap (λ k. k * channels) together))
  ]

  pub sounds-write_silence :
      (frames channels : ℕ)
      → sounds channels (write_silence f frames) ≡ replicate (frames * channels) none
  unfolding write_silence
  sounds-write_silence frames channels = sounds-silence_blocks frames frames channels (omega arith)
