-- ===== src/Queue/Reachable/Written.antt =====
-- The invariant of the queue service, and its part about serialised songs.
use rsplayer.Prelude.{
  ℕ, zero, suc, ◌+◌, ◌-◌, ◌≡◌, ◌<◌, refl, sym, ◌∙◌, some, List, [], ◌∷◌, Bool-cases, inl, inr,
  get_elem?, length, ltb, ◌==◌,
}
use rsplayer.Store.Ordered.{values, insert, remove}
use rsplayer.Song.{Song, Bytes}
use rsplayer.Queue.State.{Env, QueueService}
use rsplayer.Queue.State.Ids.{IsValid}
use rsplayer.Queue.Edit.Search.{AllSongs}
use rsplayer.Queue.Reorder.{shift}
use rsplayer.Queue.Reorder.Values.{get_elem?-shift}

-- What every reachable queue satisfies.
pub record Inv {env : Env} (q : QueueService env) : Type 0 where
  pub valid : IsValid q
  pub songs : AllSongs env (env.queue.iter q.queue_db)

module _ (env : Env) where
  abbrev pub IsSong : Bytes → Type 0
  IsSong v = (song : Song) × (v ≡ env.codec.to_json_string_bytes song)

  pub AllSongs-insert :
      (k : ℕ) (v : Bytes) (l : List (ℕ × Bytes))
      → IsSong v
      → AllSongs env l
      → AllSongs env (insert k v l)
  AllSongs-insert k v [] p h = (p, tt)
  AllSongs-insert k v ((j, w) ∷ l) p h = elim (Bool-cases (j == k)) [
    | inl e ↦ rw e (p, h.1)
    | inr e ↦ elim (Bool-cases (ltb k j)) [
      | inl f ↦ rw (e, f) (p, h)
      | inr f ↦ rw (e, f) (h.0, AllSongs-insert k v l p h.1)
    ]
  ]

  pub AllSongs-remove : (k : ℕ) (l : List (ℕ × Bytes)) → AllSongs env l → AllSongs env (remove k l)
  AllSongs-remove k [] h = tt
  AllSongs-remove k ((j, w) ∷ l) h = elim (Bool-cases (j == k)) [
    | inl e ↦ rw e h.1
    | inr e ↦ rw e (h.0, AllSongs-remove k l h.1)
  ]

  pub AllSongs-at :
      (i : ℕ) (v : Bytes) (l : List (ℕ × Bytes))
      → AllSongs env l
      → get_elem? (values l) i ≡ some v
      → IsSong v
  AllSongs-at i v [] h e = absurd (cc)
  AllSongs-at zero v ((j, w) ∷ l) h e = let same : w ≡ v = cc in (h.0.0, sym same ∙ h.0.1)
  AllSongs-at (suc i) v ((j, w) ∷ l) h e = AllSongs-at i v l h.1 e

  pub AllSongs-of :
      (l : List (ℕ × Bytes))
      → ((i : ℕ) (v : Bytes) → get_elem? (values l) i ≡ some v → IsSong v)
      → AllSongs env l
  AllSongs-of [] h = tt
  AllSongs-of ((j, w) ∷ l) h = (h 0 w refl, AllSongs-of l (λ i v e. h (suc i) v e))

-- Each element of the shifted list is one of the list.
pub shift-element :
    (from to i : ℕ) (v : Bytes) (vs : List Bytes)
    → from < length vs
    → to < length vs
    → get_elem? (shift from to vs) i ≡ some v
    → (j : ℕ) × (get_elem? vs j ≡ some v)
shift-element from to i v vs hf ht e =
    let at = sym (get_elem?-shift from to vs i hf ht) ∙ e in
    elim (Bool-cases (i == to)) [
      | inl a ↦ (from, rw a at at)
      | inr a ↦ elim (Bool-cases (ltb i to)) [
        | inl b ↦ elim (Bool-cases (ltb i from)) [
          | inl c ↦ (i, rw (a, b, c) at at)
          | inr c ↦ (i + 1, rw (a, b, c) at at)
        ]
        | inr b ↦ elim (Bool-cases (ltb (i - 1) from)) [
          | inl c ↦ (i - 1, rw (a, b, c) at at)
          | inr c ↦ (i, rw (a, b, c) at at)
        ]
      ]
    ]
