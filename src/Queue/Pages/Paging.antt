-- ===== src/Queue/Pages/Paging.antt =====
-- What the pages of the queue contain.
use rsplayer.Prelude.{
  ℕ, zero, suc, ◌+◌, ◌-◌, ◌≡◌, ◌≤◌, ◌<◌, refl, List, [], ◌∷◌, ◌++◌, arith, ◌∙◌, Bool, Bool-cases,
  inl, inr, ltb, leb, length, take, drop, filter, filter_map, append_assoc, append-nil,
  length-append, subst,
}
use native.Mathlib.Nat.{add-zero, zero-add, sub-zero}
use mathlib.Core.Path.{ap₂}
use rsplayer.Store.Ordered.{values, IsSorted, filter_from-split}
use rsplayer.Song.{Song, Bytes}
use rsplayer.Queue.State.{Env, QueueService}
use rsplayer.Queue.Navigate.Ordered.{At, current-At}
use rsplayer.Queue.Pages.{
  page_loop, get_all_songs, get_queue_page, get_queue_page_starting_from_current_song,
}

take-drop_nil : {A : Type 0} (n m : ℕ) → take {A = A} n (drop m []) ≡ []
take-drop_nil zero m = refl
take-drop_nil (suc n) zero = refl
take-drop_nil (suc n) (suc m) = refl

-- The songs that are still taken, from any state of the loop.
abbrev rest_of : ℕ → ℕ → ℕ → List Song → List Song → List Song
rest_of offset limit total items songs =
    items ++ take (limit - length items) (drop (offset - total) songs)

module _ (offset limit total : ℕ) (items : List Song) (song : Song) (songs : List Song) where
  rest_of-take :
      offset ≤ total
      → length items < limit
      → rest_of offset limit (total + 1) (items ++ song ∷ []) songs
        ≡ rest_of offset limit total items (song ∷ songs)
  rest_of-take started room =
      let a : offset - total ≡ 0 = omega arith in
      let b : offset - (total + 1) ≡ 0 = omega arith in
      let c : limit - length items ≡ suc (limit - length (items ++ song ∷ [])) =
        omega (arith, length-append items (song ∷ [])) in
      rw (a, b, c)
        (append_assoc items (song ∷ []) (take (limit - length (items ++ song ∷ [])) songs))

  rest_of-full :
      limit ≤ length items
      → rest_of offset limit (total + 1) items songs
        ≡ rest_of offset limit total items (song ∷ songs)
  rest_of-full full = let a : limit - length items ≡ 0 = omega arith in rw a

  rest_of-skip :
      total < offset
      → rest_of offset limit (total + 1) items songs
        ≡ rest_of offset limit total items (song ∷ songs)
  rest_of-skip early = let a : offset - total ≡ suc (offset - (total + 1)) = omega arith in rw a

counted :
    (total n : ℕ) {r r' : List Song}
    → r ≡ r'
    → ◌≡◌ {A = ℕ × List Song} (total + 1 + n, r) (total + suc n, r')
counted total n {r} {r'} e =
    let a : total + 1 + n ≡ total + suc n = omega arith in
    ap₂ {C = ℕ × List Song} (λ a b. (a, b)) a e

-- The loop from any state of its two variables.
page_loop_lem :
    (offset limit : ℕ) (keep : Song → Bool) (songs : List Song) (total : ℕ) (items : List Song)
    → page_loop offset limit keep songs total items
      ≡ (total + length (filter keep songs), rest_of offset limit total items (filter keep songs))
unfolding page_loop
page_loop_lem offset limit keep [] total items =
    rw (add-zero, take-drop_nil (limit - length items) (offset - total), append-nil)
page_loop_lem offset limit keep (song ∷ songs) total items =
    let found = filter keep songs in
    let ih = page_loop_lem offset limit keep songs in
    elim (Bool-cases (keep song)) [
      | inr out ↦ rw out (ih total items)
      | inl kept ↦ elim (Bool-cases (leb offset total)) [
        | inr early ↦
            rw (kept, early)
              (ih (total + 1) items
                ∙ counted total (length found)
                    (rest_of-skip offset limit total items song found (ground arith)))
        | inl started ↦ elim (Bool-cases (ltb (length items) limit)) [
          | inr full ↦
              rw (kept, started, full)
                (ih (total + 1) items
                  ∙ counted total (length found)
                      (rest_of-full offset limit total items song found (ground arith)))
          | inl room ↦
              rw (kept, started, room)
                (ih (total + 1) (items ++ song ∷ [])
                  ∙ counted total (length found) (
                      rest_of-take offset limit total items song found (ground arith)
                        (ground arith)))
        ]
      ]
    ]

module _ {env : Env} where
  -- A page has the number of all songs that pass the filter, and of these the ones from the offset
  -- on, at most `limit` of them.
  pub get_queue_page_lem :
      (offset limit : ℕ) (keep : Song → Bool) (q : QueueService env)
      → let matching = filter keep (get_all_songs q) in
        get_queue_page offset limit keep q ≡ (length matching, take limit (drop offset matching))
  unfolding get_queue_page get_all_songs
  get_queue_page_lem offset limit keep q =
      page_loop_lem offset limit keep (get_all_songs q) 0 [] ∙ simp (zero-add, sub-zero)

  -- The page of the current song: with a current song of the queue, the songs from it on, at most
  -- `limit` of them.
  pub current_page_lem :
      (limit : ℕ) (pre : List (ℕ × Bytes)) (k : ℕ) (post : List (ℕ × Bytes)) (q : QueueService env)
      → (at : At pre k post q)
      → get_queue_page_starting_from_current_song limit q
        ≡ (take limit (filter_map env.codec.bytes_to_song (values ((k, at.value) ∷ post))), q)
  unfolding get_queue_page_starting_from_current_song
  current_page_lem limit pre k post q at = rw (
    current-At pre k post q at,
    env.queue.range_from_lem,
    at.entries,
    filter_from-split k at.value pre post
        (subst IsSorted at.entries (env.queue.iter-IsSorted q.queue_db)),
  )
