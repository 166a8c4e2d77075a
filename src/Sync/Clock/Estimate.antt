-- ===== src/Sync/Clock/Estimate.antt =====
-- The window of the estimator, and what it publishes.
use Prim.Native.Nat.{min}
use rsplayer.Prelude.{
  length-map, length-take, length-append, ℕ, zero, suc, ◌+◌, ◌/◌, ◌≡◌, ◌≤◌, ◌<◌, ◌-◌, refl, arith,
  ltb, if◌then◌else◌, Option, none, some, List, [], ◌∷◌, ◌++◌, Bool, true, false, length, take, map,
  get_elem?, Bool-cases, inl, inr, ◌⊎◌, remove_at, ◌==◌, ◌∙◌, ap,
}
use rsplayer.Prelude.Int.{ℤ, pos, ltb_ℤ, pos_part, neg_part}
use rsplayer.Sync.Clock.{
  ExchangeSample, OffsetEstimator, ClockState, Smoothing, add_sample, publish, best_offsets,
  push_sample, pair_lt, smooth, insert_sorted, sort_unstable, offset_micros, rtt_micros,
  window_size, best_of,
}

module _ {A : Type 0} (P : A → Type 0) where
  abbrev pub All : List A → Type 0
  All [] = Unit
  All (x ∷ xs) = P x × All xs

  take-All : (n : ℕ) (xs : List A) → All xs → All (take n xs)
  take-All zero xs h = tt
  take-All (suc n) [] h = tt
  take-All (suc n) (x ∷ xs) h = (h.0, take-All n xs h.1)

  append-All : (xs : List A) (x : A) → All xs → P x → All (xs ++ x ∷ [])
  append-All [] x h p = (p, tt)
  append-All (y ∷ ys) x h p = (h.0, append-All ys x h.1 p)

  remove-All : (xs : List A) → All xs → All (remove_at 0 xs)
  remove-All [] h = tt
  remove-All (x ∷ xs) h = h.1

  get_elem?-All :
      (xs : List A) (i : ℕ) → All xs → i < length xs → (x : A) × (get_elem? xs i ≡ some x) × P x
  get_elem?-All [] i h less = absurd (omega arith)
  get_elem?-All (x ∷ xs) zero h less = (x, refl, h.0)
  get_elem?-All (x ∷ xs) (suc i) h less = get_elem?-All xs i h.1 (omega arith)

module _ {A : Type 0} (lt : A → A → Bool) (P : A → Type 0) where
  insert_sorted-All : (x : A) (xs : List A) → P x → All P xs → All P (insert_sorted lt x xs)
  insert_sorted-All x [] p h = (p, tt)
  insert_sorted-All x (y ∷ ys) p h = elim (Bool-cases (lt y x)) [
    | inl e ↦ rw e (h.0, insert_sorted-All x ys p h.1)
    | inr e ↦ rw e (p, h)
  ]

  sort-All : (xs : List A) → All P xs → All P (sort_unstable lt xs)
  sort-All [] h = tt
  sort-All (x ∷ xs) h = insert_sorted-All x (sort_unstable lt xs) h.0 (sort-All xs h.1)

module _ {A : Type 0} (lt : A → A → Bool) where
  length-insert_sorted : (x : A) (xs : List A) → length (insert_sorted lt x xs) ≡ suc (length xs)
  length-insert_sorted x [] = refl
  length-insert_sorted x (y ∷ ys) = elim (Bool-cases (lt y x)) [
    | inl e ↦ rw e (ap suc (length-insert_sorted x ys))
    | inr e ↦ rw e refl
  ]

  length-sort : (xs : List A) → length (sort_unstable lt xs) ≡ length xs
  length-sort [] = refl
  length-sort (x ∷ xs) = length-insert_sorted x (sort_unstable lt xs) ∙ ap suc (length-sort xs)

abbrev pub AllOffset : ℤ → List (ℤ × ℤ) → Type 0
AllOffset o l = All (λ (s : ℤ × ℤ). s.1 ≡ o) l

offsets-map :
    (o : ℤ) (l : List (ℤ × ℤ)) → AllOffset o l → All (λ z. z ≡ o) (map (λ (s : ℤ × ℤ). s.1) l)
offsets-map o [] h = tt
offsets-map o (s ∷ l) h = (h.0, offsets-map o l h.1)

best_offsets-All : (o : ℤ) (l : List (ℤ × ℤ)) → AllOffset o l → All (λ z. z ≡ o) (best_offsets l)
unfolding best_offsets
best_offsets-All o l h =
    sort-All ltb_ℤ (λ z. z ≡ o) (map (λ (s : ℤ × ℤ). s.1) (take best_of (sort_unstable pair_lt l)))
      (offsets-map o (take best_of (sort_unstable pair_lt l)) (
        take-All (λ (s : ℤ × ℤ). s.1 ≡ o) best_of (sort_unstable pair_lt l)
          (sort-All pair_lt (λ (s : ℤ × ℤ). s.1 ≡ o) l h)))

length-best_offsets : (l : List (ℤ × ℤ)) → length (best_offsets l) ≡ min 5 (length l)
unfolding best_offsets
length-best_offsets l =
    length-sort ltb_ℤ (map (λ (s : ℤ × ℤ). s.1) (take best_of (sort_unstable pair_lt l)))
    ∙ length-map (λ (s : ℤ × ℤ). s.1) (take best_of (sort_unstable pair_lt l))
    ∙ length-take best_of (sort_unstable pair_lt l)
    ∙ ap (λ n. min 5 n) (length-sort pair_lt l)

-- The median is the common offset.
median-AllOffset :
    (o : ℤ) (l : List (ℤ × ℤ))
    → AllOffset o l
    → 5 ≤ length l
    → get_elem? (best_offsets l) (length (best_offsets l) / 2) ≡ some o
median-AllOffset o l h many =
    let (z, e, same) =
      get_elem?-All (λ z. z ≡ o) (best_offsets l) (length (best_offsets l) / 2)
        (best_offsets-All o l h) (omega (arith, length-best_offsets l)) in
    e ∙ ap some same

push_sample-AllOffset :
    (o : ℤ) (s : ℤ × ℤ) (l : List (ℤ × ℤ)) → AllOffset o l → s.1 ≡ o → AllOffset o (push_sample s l)
push_sample-AllOffset o s l h e = elim (Bool-cases (length l == window_size)) [
  | inl full ↦ rw full (
      append-All (λ (t : ℤ × ℤ). t.1 ≡ o) (remove_at 0 l) s
        (remove-All (λ (t : ℤ × ℤ). t.1 ≡ o) l h) e)
  | inr open' ↦ rw open' (append-All (λ (t : ℤ × ℤ). t.1 ≡ o) l s h e)
]

length-remove_first : (l : List (ℤ × ℤ)) → length (remove_at 0 l) ≡ length l - 1
length-remove_first [] = refl
length-remove_first (x ∷ xs) = omega arith

length-push_sample :
    (s : ℤ × ℤ) (l : List (ℤ × ℤ))
    → length l ≤ 30
    → length (push_sample s l) ≡ min 30 (length l + 1)
length-push_sample s l h = elim (Bool-cases (length l == window_size)) [
  | inl full ↦
      rw full (ground (arith, length-append (remove_at 0 l) (s ∷ []), length-remove_first l))
  | inr open' ↦ rw open' (ground (arith, length-append l (s ∷ [])))
]

smooth-Steady :
    (f : Smoothing) (o : ℤ) (before : Option f.F64)
    → (before ≡ none) ⊎ (before ≡ some (f.as_f64 o))
    → smooth f before (f.as_f64 o) ≡ f.as_f64 o
smooth-Steady f o before (inl e) = rw e refl
smooth-Steady f o before (inr e) = rw e (f.mul_add_same o)

module _ {f : Smoothing} where
  -- Every sample of the window has the offset `o`, and so has the smoothed value, if there is one.
  pub record Steady (o : ℤ) (est : OffsetEstimator f) : Type 0 where
    pub offsets : AllOffset o est.window
    pub bounded : length est.window ≤ 30
    pub smooth_value : (est.smoothed ≡ none) ⊎ (est.smoothed ≡ some (f.as_f64 o))

  -- An estimator whose samples so far all had the offset `o`, of at most 53 bits, and a sample with
  -- that offset and a round trip that is not negative: the estimator stays so, with at most 30
  -- samples in its window; from the fifth sample on it publishes the offset `o` and says that it is
  -- synced, and before that it leaves both as they were.
  pub add_sample-Steady :
      (o : ℤ) (est : OffsetEstimator f) (sample : ExchangeSample) (state : ClockState)
      → Steady o est
      → ltb_ℤ (rtt_micros sample) (pos 0) ≡ false
      → offset_micros sample ≡ o
      → pos_part o + neg_part o ≤ 9007199254740992
      → let (est', state') = add_sample est sample state in
        Steady o est'
        × (state'.offset ≡ (if ltb (length est.window) 4 then state.offset else o))
        × (state'.synced ≡ (if ltb (length est.window) 4 then state.synced else true))
  unfolding add_sample publish
  add_sample-Steady o est sample state h good e small =
      let s : ℤ × ℤ = (rtt_micros sample, offset_micros sample) in
      let window = push_sample s est.window in
      let offsets = push_sample-AllOffset o s est.window h.offsets e in
      let len = length-push_sample s est.window h.bounded in
      let bounded : length window ≤ 30 = omega (arith, len, h.bounded) in
      elim (Bool-cases (ltb (length est.window) 4)) [
        | inl few ↦
            let start : ltb (length window) 5 ≡ true = ground (arith, len, few) in
            rw (good, start, few)
              (
                record { offsets = offsets; bounded = bounded; smooth_value = h.smooth_value },
                refl,
                refl,
              )
        | inr many ↦
            let enough : ltb (length window) 5 ≡ false = ground (arith, len, many) in
            let median = median-AllOffset o window offsets (ground (arith, len, many)) in
            rw (good, enough, many, median, smooth-Steady f o est.smoothed h.smooth_value)
              (
                record { offsets = offsets; bounded = bounded; smooth_value = inr refl },
                f.round-as_f64 o small,
                refl,
              )
      ]
