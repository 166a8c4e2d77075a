-- ===== src/Sync/Sink/Fade.antt =====
-- The fading in, sample by sample.
use rsplayer.Prelude.{
  ℕ, zero, suc, ◌+◌, ◌*◌, ◌/◌, ◌≡◌, ◌<◌, ◌≤◌, refl, sym, ap, ◌∙◌, List, [], ◌∷◌, ◌++◌, ltb, true,
  false, if◌then◌else◌, length, take, drop, arith, take-append-drop, length-take,
}
use Prim.Native.Nat.{min, max}
use native.Mathlib.Nat.{add-mul, le-div_iff_mul-le, div-lt_iff_lt-mul, mul-le-mul_right, zero-mul}
use rsplayer.Sync.Sink.{Floats, splice_fade_frames}
use rsplayer.Sync.Sink.Output.{fade_frame, fade_from, fade_in}
use rsplayer.Sync.Sink.Blocks.{length-drop_lem, div_exact}

next_mul : (i c : ℕ) → (i + 1) * c ≡ i * c + c
next_mul i c = omega (arith, add-mul i 1 c)

suc-mul_lem : (n c : ℕ) → suc n * c ≡ n * c + c
suc-mul_lem n c = let next : suc n ≡ n + 1 = omega arith in ap (λ k. k * c) next ∙ next_mul n c

module _ (f : Floats) where
  -- The `k`-th sample, of the frame `k / channels`, is turned down while that frame is one of the
  -- first ones.
  abbrev faded_from : ℕ → ℕ → ℕ → List f.F32 → List f.F32
  faded_from frames channels k [] = []
  faded_from frames channels k (s ∷ samples) =
      (if ltb (k / channels) frames then f.mul s (f.ratio (k / channels) frames) else s)
      ∷ faded_from frames channels (suc k) samples

  -- Samples of `n` frames, of which the first 256 are turned down.
  abbrev pub faded : ℕ → ℕ → List f.F32 → List f.F32
  faded n channels samples = faded_from (min n splice_fade_frames) channels 0 samples

  length-faded_from :
      (frames channels k : ℕ) (samples : List f.F32)
      → length (faded_from frames channels k samples) ≡ length samples
  length-faded_from frames channels k [] = refl
  length-faded_from frames channels k (s ∷ samples) =
      ap suc (length-faded_from frames channels (suc k) samples)

  pub length-faded :
      (n channels : ℕ) (samples : List f.F32) → length (faded n channels samples) ≡ length samples
  length-faded n channels samples = length-faded_from _ channels 0 samples

  faded_from-append :
      (frames channels k : ℕ) (xs ys : List f.F32)
      → faded_from frames channels k (xs ++ ys)
        ≡ faded_from frames channels k xs ++ faded_from frames channels (k + length xs) ys
  faded_from-append frames channels k [] ys = let here : k + 0 ≡ k = omega arith in rw here refl
  faded_from-append frames channels k (x ∷ xs) ys =
      let next : suc k + length xs ≡ k + suc (length xs) = omega arith in
      ap
        (λ l.
          (if ltb (k / channels) frames then f.mul x (f.ratio (k / channels) frames) else x) ∷ l)
        (faded_from-append frames channels (suc k) xs ys
          ∙ ap (λ j. faded_from frames channels (suc k) xs ++ faded_from frames channels j ys) next)

  -- The samples of one frame, and those behind the frames that are turned down.
  faded_from-frame :
      (frames channels i k : ℕ) (xs : List f.F32)
      → 0 < channels
      → i < frames
      → i * channels ≤ k
      → k + length xs ≤ (i + 1) * channels
      → faded_from frames channels k xs ≡ fade_frame f i frames xs
  faded_from-frame frames channels i k [] c b low high = refl
  faded_from-frame frames channels i k (x ∷ xs) c b low high =
      let above : i ≤ k / channels = (le-div_iff_mul-le c).1 low in
      let below : k / channels < i + 1 = (div-lt_iff_lt-mul c).1 (omega (arith, high)) in
      let here : k / channels ≡ i = omega (arith, above, below) in
      let inside : ltb i frames ≡ true = ground (arith, b) in
      rw (here, inside)
        (ap (λ l. f.mul x (f.ratio i frames) ∷ l)
          (faded_from-frame frames channels i (suc k) xs c b (omega arith) (omega (arith, high))))

  faded_from-behind :
      (frames channels k : ℕ) (xs : List f.F32)
      → 0 < channels
      → frames * channels ≤ k
      → faded_from frames channels k xs ≡ xs
  faded_from-behind frames channels k [] c b = refl
  faded_from-behind frames channels k (x ∷ xs) c b =
      let above : frames ≤ k / channels = (le-div_iff_mul-le c).1 b in
      let outside : ltb (k / channels) frames ≡ false = ground (arith, above) in
      rw outside (ap (λ l. x ∷ l) (faded_from-behind frames channels (suc k) xs c (omega arith)))

  fade_from_lem :
      (n i frames channels : ℕ) (samples : List f.F32)
      → 0 < channels
      → i + n ≡ frames
      → n * channels ≤ length samples
      → fade_from f n i frames channels samples ≡ faded_from frames channels (i * channels) samples
  fade_from_lem zero i frames channels samples c e l =
      let all : frames ≡ i = omega arith in
      let reached : frames * channels ≤ i * channels = rw all (omega arith) in
      sym (faded_from-behind frames channels (i * channels) samples c reached)
  fade_from_lem (suc n) i frames channels samples c e l =
      let more : suc n * channels ≡ n * channels + channels = suc-mul_lem n channels in
      let next : (i + 1) * channels ≡ i * channels + channels = next_mul i channels in
      let enough : channels ≤ length samples = omega (arith, more, l) in
      let block : length (take channels samples) ≡ channels =
        length-take channels samples ∙ omega (arith, enough) in
      let rest =
        fade_from_lem n (suc i) frames channels (drop channels samples) c (omega arith)
          (rw (length-drop_lem channels samples) (omega (arith, more, l))) in
      let there : suc i * channels ≡ i * channels + length (take channels samples) =
        suc-mul_lem i channels ∙ omega (arith, block) in
      ap (λ l. fade_frame f i frames (take channels samples) ++ l)
        (rest ∙ ap (λ k. faded_from frames channels k (drop channels samples)) there)
      ∙ ap
          (λ l.
            l
            ++ faded_from frames channels (i * channels + length (take channels samples))
                (drop channels samples))
          (sym (
            faded_from-frame frames channels i (i * channels) (take channels samples) c
              (omega arith) (omega arith) (omega (arith, block, next))))
      ∙ sym (faded_from-append frames channels (i * channels) (take channels samples) _)
      ∙ ap (faded_from frames channels (i * channels)) (take-append-drop channels samples)

  pub fade_in_lem :
      (n channels : ℕ) (samples : List f.F32)
      → 0 < channels
      → length samples ≡ n * channels
      → fade_in f samples channels ≡ faded n channels samples
  unfolding fade_in
  fade_in_lem n channels samples c h =
      let one : max channels 1 ≡ channels = omega (arith, c) in
      let whole : length samples / channels ≡ n =
        ap (λ x. x / channels) h ∙ div_exact n channels c in
      let frames = min n splice_fade_frames in
      let shorter : frames * channels ≤ n * channels = mul-le-mul_right channels (omega arith) in
      rw (one, whole)
        (fade_from_lem frames 0 frames channels samples c (omega arith) (rw h shorter)
          ∙ ap (λ k. faded_from frames channels k samples) (zero-mul channels))
