-- ===== src/Queue/State/Key.antt =====
-- `id.to_be_bytes()` and `u64::from_be_bytes`: the keys of the queue as the database orders them.
use native.Mathlib.Nat.{
  pow-suc, div-add-mod, mod-lt, mul-le-mul_left, lt-mul-div-succ, le_of_lt, pow-zero,
}
use rsplayer.Prelude.{
  ℕ, zero, suc, ◌+◌, ◌*◌, ◌/◌, ◌%◌, ◌^◌, ◌≡◌, ◌≤◌, ◌<◌, List, [], ◌∷◌, Bool, true, false, arith,
  ltb, ◌==◌, if◌then◌else◌, Bool-cases, Option, some, none, length, inl, inr, sym, ap, ◌∙◌, lt→ltb,
  ltb→lt, le→ltb,
}

-- The `w` low bytes of a number, the highest first.
unfoldable pub be_bytes : ℕ → ℕ → List ℕ
be_bytes zero n = []
be_bytes (suc w) n = (n / 256 ^ w) ∷ be_bytes w (n % 256 ^ w)

unfoldable pub to_be_bytes : ℕ → List ℕ
unfolding be_bytes
to_be_bytes n = be_bytes 8 n

-- `u64::from_be_bytes`, and `try_into` of another length: nothing.
from_bytes : ℕ → List ℕ → ℕ
from_bytes acc [] = acc
from_bytes acc (b ∷ bs) = from_bytes (acc * 256 + b) bs

unfoldable pub from_be_bytes : List ℕ → Option ℕ
unfolding from_bytes
from_be_bytes bs = if length bs == 8 then some (from_bytes 0 bs) else none

-- The order of byte strings.
abbrev pub bytes_lt : List ℕ → List ℕ → Bool
bytes_lt [] [] = false
bytes_lt [] (b ∷ bs) = true
bytes_lt (a ∷ as') [] = false
bytes_lt (a ∷ as') (b ∷ bs) = if a == b then bytes_lt as' bs else ltb a b

pow-pos : (w : ℕ) → 0 < 256 ^ w
pow-pos zero = omega arith
pow-pos (suc w) = rw pow-suc (omega (arith, pow-pos w))

-- Numbers with the same high part are ordered by their low parts, others by their high parts.
low-order : (p a b : ℕ) → a / p ≡ b / p → ltb (a % p) (b % p) ≡ ltb a b
low-order p a b e = ground (arith, div-add-mod a p, div-add-mod b p, ap (λ (q : ℕ). p * q) e)

lt-of-high : (p a b : ℕ) → 0 < p → a / p < b / p → a < b
lt-of-high p a b pos h =
    let room : p * (a / p + 1) ≤ p * (b / p) = mul-le-mul_left p h' in
    omega (arith, div-add-mod b p, lt-mul-div-succ a pos)
  where
    h' : a / p + 1 ≤ b / p
    h' = omega arith

high-order : (p a b : ℕ) → 0 < p → (a / p == b / p) ≡ false → ltb (a / p) (b / p) ≡ ltb a b
high-order p a b pos h = elim (Bool-cases (ltb (a / p) (b / p))) [
  | inl less ↦ less ∙ sym (lt→ltb a b (lt-of-high p a b pos (ltb→lt (a / p) (b / p) less)))
  | inr more ↦ more ∙ sym (le→ltb a b (le_of_lt (lt-of-high p b a pos (ground arith))))
]

be_bytes-lt :
    (w a b : ℕ) → a < 256 ^ w → b < 256 ^ w → bytes_lt (be_bytes w a) (be_bytes w b) ≡ ltb a b
unfolding be_bytes
be_bytes-lt zero a b ha hb = ground (arith, pow-zero 256)
be_bytes-lt (suc w) a b ha hb = elim (Bool-cases (a / 256 ^ w == b / 256 ^ w)) [
  | inl e ↦ rw e (
      be_bytes-lt w (a % 256 ^ w) (b % 256 ^ w) (mod-lt a (pow-pos w)) (mod-lt b (pow-pos w))
      ∙ low-order (256 ^ w) a b (ground arith))
  | inr e ↦ rw e (high-order (256 ^ w) a b (pow-pos w) e)
]

from-be_bytes : (w acc n : ℕ) → n < 256 ^ w → from_bytes acc (be_bytes w n) ≡ acc * 256 ^ w + n
unfolding be_bytes from_bytes
from-be_bytes zero acc n h = omega arith
from-be_bytes (suc w) acc n h =
    from-be_bytes w (acc * 256 + n / 256 ^ w) (n % 256 ^ w) (mod-lt n (pow-pos w))
    ∙ rw pow-suc (omega (arith, div-add-mod n (256 ^ w)))

-- Two numbers below 2 ^ 64: the eight big-endian bytes of the first are read back as that number,
-- and the byte strings of the two are ordered as the numbers are.
pub key_bytes_lem :
    (a b : ℕ)
    → a < 18446744073709551616
    → b < 18446744073709551616
    → (from_be_bytes (to_be_bytes a) ≡ some a)
      × (bytes_lt (to_be_bytes a) (to_be_bytes b) ≡ ltb a b)
unfolding from_be_bytes to_be_bytes
key_bytes_lem a b ha hb = (ap some (from-be_bytes 8 0 a ha ∙ omega arith), be_bytes-lt 8 a b ha hb)
