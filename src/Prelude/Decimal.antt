-- ===== src/Prelude/Decimal.antt =====
-- Decimal numbers as the standard library prints and parses them: `to_string` and `parse`.
use rsplayer.Prelude.{
  ℕ, zero, suc, ◌+◌, ◌-◌, ◌*◌, ◌/◌, ◌%◌, ◌<◌, ◌≤◌, ◌≡◌, refl, Option, none, some, List, [], ◌∷◌,
  true, false, if◌then◌else◌, ltb, leb, ◌==◌, ◌&&◌, arith, Bool-cases, inl, inr, ◌∙◌,
}

-- The digits of a number in front of a text; each round writes the last one.
unfoldable pub digits : ℕ → ℕ → List ℕ → List ℕ
digits zero n out = out
digits (suc fuel) n out = elim (ltb n 10) [
  | true ↦ (48 + n % 10) ∷ out
  | false ↦ digits fuel (n / 10) ((48 + n % 10) ∷ out)
]

unfoldable pub to_string : ℕ → List ℕ
to_string n = digits (suc n) n []

abbrev pub digits_value : ℕ → ℕ → List ℕ → Option ℕ
digits_value max acc [] = some acc
digits_value max acc (c ∷ s) =
    let value = acc * 10 + (c - 48) in
    let rest = digits_value max value s in
    if leb 48 c && leb c 57 && leb value max then rest else none

-- `str::parse` to an unsigned integer up to `max`: digits, behind a `+` or not.
unfoldable pub parse_uint : ℕ → List ℕ → Option ℕ
parse_uint max [] = none
parse_uint max (c ∷ []) = digits_value max 0 (c ∷ [])
parse_uint max (c ∷ d ∷ s) =
    if c == 43 then digits_value max 0 (d ∷ s) else digits_value max 0 (c ∷ d ∷ s)

-- Reading the last digit behind the number that stands before it.
value_last :
    (max n : ℕ) (out : List ℕ)
    → n ≤ max
    → digits_value max (n / 10) ((48 + n % 10) ∷ out) ≡ digits_value max n out
value_last max n out h =
    let e : n / 10 * 10 + (48 + n % 10 - 48) ≡ n = omega arith in rw e (ground arith)

value_digits :
    (max fuel n : ℕ) (out : List ℕ)
    → n < fuel
    → n ≤ max
    → digits_value max 0 (digits fuel n out) ≡ digits_value max n out
unfolding digits
value_digits max zero n out f h = absurd (omega arith)
value_digits max (suc fuel) n out f h =
    ground (arith, value_last max n out, value_digits max fuel (n / 10) ((48 + n % 10) ∷ out))

digits-head :
    (fuel n : ℕ) (out : List ℕ)
    → n < fuel
    → (c : ℕ) × (s : List ℕ) × (digits fuel n out ≡ c ∷ s) × (48 ≤ c)
unfolding digits
digits-head zero n out f = absurd (omega arith)
digits-head (suc fuel) n out f = elim (Bool-cases (ltb n 10)) [
  | inl e ↦ rw (digits, e) (48 + n % 10, out, refl, omega arith)
  | inr e ↦ rw (digits, e) (digits-head fuel (n / 10) ((48 + n % 10) ∷ out) (ground arith))
]

parse_uint-digit :
    (max c : ℕ) (s : List ℕ) → 48 ≤ c → parse_uint max (c ∷ s) ≡ digits_value max 0 (c ∷ s)
unfolding parse_uint
parse_uint-digit max c [] h = refl
parse_uint-digit max c (d ∷ s) h = ground arith

parse_uint-head :
    (max c : ℕ) (t s : List ℕ) → t ≡ c ∷ s → 48 ≤ c → parse_uint max t ≡ digits_value max 0 t
parse_uint-head max c t s e h = rw e (parse_uint-digit max c s h)

-- A number is read back from its digits, when it is not above the bound.
pub parse_uint-to_string : (max n : ℕ) → n ≤ max → parse_uint max (to_string n) ≡ some n
unfolding to_string
parse_uint-to_string max n h =
    let (c, s, e, first) = digits-head (suc n) n [] (omega arith) in
    parse_uint-head max c (digits (suc n) n []) s e first
    ∙ value_digits max (suc n) n [] (omega arith) h
