-- ===== src/Queue/Navigate/Priority.antt =====
-- The loop that takes the next live key off the priority queue.
use rsplayer.Prelude.{ℕ, ◌≡◌, refl, none, some, List, [], ◌∷◌, arith, true, false}
use rsplayer.Store.Ordered.{lookup}
use rsplayer.Song.{Bytes}
use rsplayer.Queue.State.{Env}
use rsplayer.Queue.Navigate.{pop_priority}

module _ (env : Env) where
  pub pop_priority-live :
      (n : ℕ) (pq : List ℕ) (v : Bytes) (db : env.queue.Store)
      → lookup n (env.queue.iter db) ≡ some v
      → pop_priority env db (n ∷ pq) ≡ (some n, pq)
  unfolding pop_priority
  pop_priority-live n pq v db f = ground (arith, env.queue.contains_key_lem db n)

  -- Every key of the list is gone from the queue.
  abbrev pub AllGone : env.queue.Store → List ℕ → Type 0
  AllGone db [] = Unit
  AllGone db (k ∷ pq) = (env.queue.contains_key db k ≡ false) × AllGone db pq

  -- A key that is found is in the queue.
  pub pop_priority-some :
      (db : env.queue.Store) (pq : List ℕ) (k : ℕ)
      → (pop_priority env db pq).0 ≡ some k
      → env.queue.contains_key db k ≡ true
  unfolding pop_priority
  pop_priority-some db [] k h = absurd (ground arith)
  pop_priority-some db (j ∷ pq) k h = ground (arith, pop_priority-some db pq k)

  pub pop_priority-AllGone :
      (db : env.queue.Store) (pq : List ℕ)
      → (AllGone db pq → pop_priority env db pq ≡ (none, []))
        × ((pop_priority env db pq).0 ≡ none → AllGone db pq)
  unfolding pop_priority
  pop_priority-AllGone db [] = (λ _. refl, λ _. tt)
  pop_priority-AllGone db (j ∷ pq) =
      let (there, back) = pop_priority-AllGone db pq in
      (λ h. ground (arith, there h.1), λ h. ground (arith, back))
