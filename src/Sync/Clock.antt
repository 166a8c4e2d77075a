-- ===== src/Sync/Clock.antt =====
-- crates/sync/src/clock.rs: the offset between the clocks of the leader and a follower. The atomics
-- of `ClockState` are the fields of a record that `add_sample` gives back. An i64 is an integer with
-- its wrap-around written out. The smoothing is in `f64`, of which the estimator takes the
-- operations as a record.
pub mod Exchange
pub mod Estimate
use rsplayer.Prelude.{
  ℕ, zero, suc, ◌+◌, ◌-◌, ◌*◌, ◌/◌, ◌%◌, ◌≡◌, ◌≤◌, Option, none, some, List, [], ◌∷◌, ◌++◌, Bool,
  true, false, not, if◌then◌else◌, length, take, drop, leb, ltb, ◌==◌, ◌||◌, ◌&&◌, map, get_elem?,
  head?, remove_at, unwrap_or,
}
use Prim.Native.Nat.{min}
use rsplayer.Prelude.Int.{ℤ, pos, negsuc, ◌+ℤ◌, ◌-ℤ◌, ltb_ℤ, pos_part, neg_part}

abbrev pub window_size : ℕ
window_size = 30

abbrev pub best_of : ℕ
best_of = 5

abbrev pub min_samples : ℕ
min_samples = 5

abbrev pub i64_max : ℕ
i64_max = 9223372036854775807

abbrev pub u64_max : ℕ
u64_max = 18446744073709551615

-- The result of an i64 operation of at most one overflow.
unfoldable pub wrap_i64 : ℤ → ℤ
wrap_i64 z =
    if ltb_ℤ (pos i64_max) z
    then z -ℤ pos (u64_max + 1)
    else if ltb_ℤ z (negsuc i64_max)
    then z +ℤ pos (u64_max + 1)
    else z

-- `i64::try_from(t).unwrap_or(i64::MAX)`
abbrev pub capped : ℕ → ℤ
capped t = if leb t i64_max then pos t else pos i64_max

-- `i64::midpoint` rounds towards zero.
abbrev pub halved : ℤ → ℤ
halved (pos n) = pos (n / 2)
halved (negsuc n) = pos 0 -ℤ pos (suc n / 2)

unfoldable pub midpoint : ℤ → ℤ → ℤ
midpoint a b = halved (a +ℤ b)

pub record ClockState : Type 0 where
  pub offset : ℤ
  pub rtt : ℕ  -- u32
  pub synced : Bool

-- `u64::saturating_add_signed`
abbrev pub saturating_add_signed : ℕ → ℤ → ℕ
saturating_add_signed n (pos k) = min (n + k) u64_max
saturating_add_signed n (negsuc k) = n - suc k

unfoldable pub leader_to_local_micros : ClockState → ℕ → ℕ
unfolding wrap_i64
leader_to_local_micros state leader_micros =
    saturating_add_signed leader_micros (wrap_i64 (pos 0 -ℤ state.offset))

pub record ExchangeSample : Type 0 where
  pub t1 : ℕ
  pub t2 : ℕ
  pub t3 : ℕ
  pub t4 : ℕ

unfoldable pub offset_micros : ExchangeSample → ℤ
unfolding midpoint
offset_micros s = midpoint (capped s.t2 -ℤ capped s.t1) (capped s.t3 -ℤ capped s.t4)

unfoldable pub rtt_micros : ExchangeSample → ℤ
unfolding wrap_i64
rtt_micros s = wrap_i64 ((capped s.t4 -ℤ capped s.t1) -ℤ (capped s.t3 -ℤ capped s.t2))

-- The operations of `f64` that the smoothing uses: `as f64`, `EWMA_ALPHA.mul_add(median - prev,
-- prev)`, and `round() as i64`. Smoothing the image of an integer with itself keeps it, since
-- the difference is zero, and an integer of at most 53 bits survives the conversions.
pub record Smoothing : Type 1 where
  pub F64 : Type 0
  pub as_f64 : ℤ → F64
  pub mul_add : F64 → F64 → F64
  pub round : F64 → ℤ
  pub mul_add_same : (z : ℤ) → mul_add (as_f64 z) (as_f64 z) ≡ as_f64 z
  pub round-as_f64 : (z : ℤ) → pos_part z + neg_part z ≤ 9007199254740992 → round (as_f64 z) ≡ z

pub record OffsetEstimator (f : Smoothing) : Type 0 where
  pub window : List (ℤ × ℤ)  -- (rtt, offset), insertion order
  pub smoothed : Option f.F64

-- The order of the sorts: of integers, and of pairs by the first component first.
abbrev pub pair_lt : ℤ × ℤ → ℤ × ℤ → Bool
pair_lt (a, b) (c, d) = ltb_ℤ a c || (not (ltb_ℤ c a) && ltb_ℤ b d)

module _ {A : Type 0} (lt : A → A → Bool) where
  abbrev pub insert_sorted : A → List A → List A
  insert_sorted x [] = x ∷ []
  insert_sorted x (y ∷ ys) =
      let rest = insert_sorted x ys in if lt y x then y ∷ rest else x ∷ y ∷ ys

  -- `sort_unstable`: equal elements cannot be told apart.
  abbrev pub sort_unstable : List A → List A
  sort_unstable [] = []
  sort_unstable (x ∷ xs) = insert_sorted x (sort_unstable xs)

unfoldable pub best_offsets : List (ℤ × ℤ) → List ℤ
best_offsets window =
    sort_unstable ltb_ℤ (map (λ (s : ℤ × ℤ). s.1) (take best_of (sort_unstable pair_lt window)))

abbrev pub push_sample : ℤ × ℤ → List (ℤ × ℤ) → List (ℤ × ℤ)
push_sample s window =
    (if length window == window_size then remove_at 0 window else window) ++ s ∷ []

-- `u32::try_from(best_rtt).unwrap_or(u32::MAX)`
abbrev pub capped_u32 : ℤ → ℕ
capped_u32 (pos n) = if ltb n 4294967296 then n else 4294967295
capped_u32 (negsuc n) = 4294967295

abbrev pub first_rtt : Option (ℤ × ℤ) → ℤ
first_rtt none = pos 0
first_rtt (some (rtt, offset)) = rtt

abbrev pub smooth : (f : Smoothing) → Option f.F64 → f.F64 → f.F64
smooth f none median = median
smooth f (some prev) median = f.mul_add median prev

module _ {f : Smoothing} where
  -- The publishing of an estimate; a median index out of range would panic.
  unfoldable pub publish :
      OffsetEstimator f → Option ℤ → ClockState → OffsetEstimator f × ClockState
  publish est none state = (est, state)
  publish est (some median) state =
      let smoothed = smooth f est.smoothed (f.as_f64 median) in
      (
        record est { smoothed = some smoothed },
        record {
          offset = f.round smoothed;
          rtt = capped_u32 (first_rtt (head? (sort_unstable pair_lt est.window)));
          synced = true;
        },
      )

  unfoldable pub add_sample :
      OffsetEstimator f → ExchangeSample → ClockState → OffsetEstimator f × ClockState
  unfolding rtt_micros offset_micros best_offsets publish
  add_sample est sample state =
      let rtt = rtt_micros sample in
      if ltb_ℤ rtt (pos 0)
      then (est, state)
      else let est' = record est { window = push_sample (rtt, offset_micros sample) est.window } in
        if ltb (length est'.window) min_samples
        then (est', state)
        else let offsets = best_offsets est'.window in
          publish est' (get_elem? offsets (length offsets / 2)) state
