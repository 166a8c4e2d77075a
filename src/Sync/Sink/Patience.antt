-- ===== src/Sync/Sink/Patience.antt =====
-- When the sink corrects an error in full.
use rsplayer.Prelude.{
  lt→ltb, ◌⊎◌, ◌≢◌, ℕ, ◌+◌, ◌≡◌, ◌<◌, ◌≤◌, refl, sym, ap, ◌∙◌, subst, List, [], ◌∷◌, ◌++◌, true,
  false, not, ltb, if◌then◌else◌, length, arith, Bool-cases, inl, inr,
}
use rsplayer.Sync.Sink.{
  Floats, ScheduledChunk, SinkWrite, Pipeline, hard_persistence_chunks, hard_cooldown_micros,
  warmup_cooldown_micros,
}
use rsplayer.Sync.Sink.Chunk.{raw_err, measure, full_correction, handle_chunk}
use rsplayer.Sync.Sink.Decision.{
  view, view-measure, started, view-started, decided, handle_chunk-undecided,
  full_correction-patient, full_correction-held, error, decided-aligned, align-first,
  handle_chunk-decided, decided-keeps,
}

le_through : {a b c d : ℕ} → a ≡ b → c ≡ d → b ≤ c + 1 → a ≤ d + 1
le_through e g h = omega arith

module _ (f : Floats) where
  -- A chunk with the clock and the lag of the output at its time.
  abbrev pub Arrival : Type 0
  Arrival = ℕ × ℕ × ScheduledChunk f

  abbrev pub handle_all : List Arrival → Pipeline f → List (SinkWrite f) × Pipeline f
  handle_all [] p = ([], p)
  handle_all ((now, lag, chunk) ∷ l) p =
      let (writes, p') = handle_chunk f now lag chunk p in
      let (more, p'') = handle_all l p' in (writes ++ more, p'')

  -- During a cooldown nothing is corrected in full, and the cooldown stays.
  handle_chunk-held :
      (now lag : ℕ) (chunk : ScheduledChunk f) (p : Pipeline f)
      → p.aligned ≡ true
      → now < p.cooldown_until_micros
      → let q = (handle_chunk f now lag chunk p).1 in
        (q.hard_corrections ≡ p.hard_corrections)
        × (q.aligned ≡ true)
        × (q.cooldown_until_micros ≡ p.cooldown_until_micros)
  handle_chunk-held now lag chunk p h c =
      let e : decided f now lag chunk p
          ≡ full_correction f false true (error f now lag chunk p) (started f now lag chunk p) =
        decided-aligned f now lag chunk p h
        ∙ ap (λ b. full_correction f false b (error f now lag chunk p) (started f now lag chunk p))
            (lt→ltb now p.cooldown_until_micros c) in
      let s = view-started f now lag chunk p h in
      let (full, a, b, d) =
        full_correction-held f (error f now lag chunk p) (started f now lag chunk p) in
      let v =
        handle_chunk-undecided f now lag chunk p (ap (λ r. r.0) e ∙ full)
        ∙ ap (λ r. view f r.1) e in
      (
        ap (λ v. v.0) v ∙ a ∙ ap (λ v. v.0) s,
        ap (λ v. v.1) v ∙ b ∙ ap (λ v. v.1) s ∙ h,
        ap (λ v. v.3) v ∙ d ∙ ap (λ v. v.3) s,
      )

  handle_chunk-patient :
      (now lag : ℕ) (chunk : ScheduledChunk f) (p : Pipeline f)
      → p.aligned ≡ true
      → p.hard_streak + 1 < hard_persistence_chunks
      → let q = (handle_chunk f now lag chunk p).1 in
        (q.hard_corrections ≡ p.hard_corrections)
        × (q.aligned ≡ true)
        × (q.hard_streak ≤ p.hard_streak + 1)
  handle_chunk-patient now lag chunk p h few =
      let e = decided-aligned f now lag chunk p h in
      let s = view-started f now lag chunk p h in
      let streak = ap (λ v. v.2) s in
      let (full, a, b, d) =
        full_correction-patient f (ltb now p.cooldown_until_micros) (error f now lag chunk p)
          (started f now lag chunk p) (rw streak few) in
      let v =
        handle_chunk-undecided f now lag chunk p (ap (λ r. r.0) e ∙ full)
        ∙ ap (λ r. view f r.1) e in
      (
        ap (λ v. v.0) v ∙ a ∙ ap (λ v. v.0) s,
        ap (λ v. v.1) v ∙ b ∙ ap (λ v. v.1) s ∙ h,
        le_through (ap (λ v. v.2) v) streak d,
      )

  abbrev pub AllBefore : ℕ → List Arrival → Type 0
  AllBefore t [] = Unit
  AllBefore t ((now, lag, chunk) ∷ l) = (now < t) × AllBefore t l

  handle_all-held :
      (l : List Arrival) (p : Pipeline f)
      → p.aligned ≡ true
      → AllBefore p.cooldown_until_micros l
      → (handle_all l p).1.hard_corrections ≡ p.hard_corrections
  handle_all-held [] p h b = refl
  handle_all-held ((now, lag, chunk) ∷ l) p h b =
      let (same, aligned, c) = handle_chunk-held now lag chunk p h b.0 in
      handle_all-held l (handle_chunk f now lag chunk p).1 aligned
        (subst (λ t. AllBefore t l) (sym c) b.1)
      ∙ same

  -- A chunk that is corrected in full begins a cooldown.
  handle_chunk-corrects :
      (now lag : ℕ) (chunk : ScheduledChunk f) (p : Pipeline f)
      → p.aligned ≡ true
      → (handle_chunk f now lag chunk p).1.hard_corrections ≢ p.hard_corrections
      → let q = (handle_chunk f now lag chunk p).1 in
        (q.aligned ≡ true) × (q.cooldown_until_micros ≡ now + hard_cooldown_micros)
  handle_chunk-corrects now lag chunk p h changed =
      let (hc, al, co) = decided-keeps f now lag chunk p in
      let s = view-started f now lag chunk p h in
      elim (Bool-cases (decided f now lag chunk p).0) [
        | inl e ↦
            let (a, c) = handle_chunk-decided f now lag chunk p e in
            (
              a ∙ al ∙ ap (λ v. v.1) s ∙ h,
              c
                  ∙ ap
                      (λ b.
                        if not b
                        then (decided f now lag chunk p).1.cooldown_until_micros
                        else now + hard_cooldown_micros)
                      h,
            )
        | inr e ↦ absurd (
            changed
              (ap (λ v. v.0) (handle_chunk-undecided f now lag chunk p e) ∙ hc ∙ ap (λ v. v.0) s))
      ]

  -- The first chunk begins one, too.
  handle_chunk-first :
      (now lag : ℕ) (chunk : ScheduledChunk f) (p : Pipeline f)
      → p.aligned ≡ false
      → let q = (handle_chunk f now lag chunk p).1 in
        (q.aligned ≡ true) × (q.cooldown_until_micros ≡ now + warmup_cooldown_micros)
  handle_chunk-first now lag chunk p h =
      let (hc, al, co) = decided-keeps f now lag chunk p in
      let m = view-measure f (raw_err f now lag chunk p) p in
      let (a, c) =
        align-first f now (measure f (raw_err f now lag chunk p) p).1 (ap (λ v. v.1) m ∙ h) in
      elim (Bool-cases (decided f now lag chunk p).0) [
        | inl e ↦
            let (a', c') = handle_chunk-decided f now lag chunk p e in
            (
              a' ∙ al ∙ a,
              c'
                  ∙ ap
                      (λ b.
                        if not b
                        then (decided f now lag chunk p).1.cooldown_until_micros
                        else now + hard_cooldown_micros)
                      h
                  ∙ co
                  ∙ c,
            )
        | inr e ↦
            let v = handle_chunk-undecided f now lag chunk p e in
            (ap (λ v. v.1) v ∙ al ∙ a, ap (λ v. v.3) v ∙ co ∙ c)
      ]

  -- Of the chunks that come within seven seconds of the first one none is corrected in full, and none
  -- of those that come within two seconds of a chunk that an aligned sink corrects in full.
  pub handle_all-spaced :
      (now lag : ℕ) (chunk : ScheduledChunk f) (l : List Arrival) (p : Pipeline f)
      → (p.aligned ≡ false)
        ⊎ ((p.aligned ≡ true)
            × ((handle_chunk f now lag chunk p).1.hard_corrections ≢ p.hard_corrections))
      → AllBefore (now + (if p.aligned then hard_cooldown_micros else warmup_cooldown_micros)) l
      → (handle_all l (handle_chunk f now lag chunk p).1).1.hard_corrections
        ≡ (handle_chunk f now lag chunk p).1.hard_corrections
  handle_all-spaced now lag chunk l p (inl h) b =
      let (a, c) = handle_chunk-first now lag chunk p h in
      let at = ap (λ b. now + (if b then hard_cooldown_micros else warmup_cooldown_micros)) h in
      handle_all-held l (handle_chunk f now lag chunk p).1 a
        (subst (λ t. AllBefore t l) (at ∙ sym c) b)
  handle_all-spaced now lag chunk l p (inr (h, changed)) b =
      let (a, c) = handle_chunk-corrects now lag chunk p h changed in
      let at = ap (λ b. now + (if b then hard_cooldown_micros else warmup_cooldown_micros)) h in
      handle_all-held l (handle_chunk f now lag chunk p).1 a
        (subst (λ t. AllBefore t l) (at ∙ sym c) b)

  -- An aligned sink whose streak and the chunks that come are fewer than eight together corrects
  -- nothing in full.
  pub handle_all-patient :
      (l : List Arrival) (p : Pipeline f)
      → p.aligned ≡ true
      → p.hard_streak + length l < hard_persistence_chunks
      → (handle_all l p).1.hard_corrections ≡ p.hard_corrections
  handle_all-patient [] p h few = refl
  handle_all-patient ((now, lag, chunk) ∷ l) p h few =
      let (same, aligned, more) = handle_chunk-patient now lag chunk p h (omega arith) in
      handle_all-patient l (handle_chunk f now lag chunk p).1 aligned (omega arith) ∙ same
