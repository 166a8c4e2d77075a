-- ===== src/Genre/Numbers.antt =====
-- Genre numbers as taggers write them.
use rsplayer.Prelude.{
  ℕ, zero, suc, ◌+◌, ◌-◌, ◌*◌, ◌/◌, ◌%◌, ◌≡◌, ◌<◌, refl, ap, ◌∙◌, none, some, [], ◌∷◌, ◌++◌, true,
  false, if◌then◌else◌, leb, ltb, ◌==◌, arith, get_elem?, and_then, replicate, append_assoc,
  Bool-cases, inl, inr, ◌&&◌, ==_refl,
}
use rsplayer.Genre.Table.{id3v1_genres}
use rsplayer.Genre.{
  strip_prefix, strip_suffix, Str, trim, trim_start, trim_end, parse_usize, parse_digits,
  number_part, resolve_id3v1_genre, is_whitespace,
}

abbrev pub spaces : ℕ → Str
spaces n = replicate n 32

-- The decimal digits of a number below 1000: those before the last, and all of them.
abbrev pub leading : ℕ → Str
leading n =
    if ltb n 10
    then []
    else if ltb n 100
    then (48 + n / 10) ∷ []
    else (48 + n / 100) ∷ (48 + n / 10 % 10) ∷ []

abbrev pub digits : ℕ → Str
digits n = leading n ++ (48 + n % 10) ∷ []

trim_start-spaces : (n : ℕ) (s : Str) → trim_start (spaces n ++ s) ≡ trim_start s
trim_start-spaces zero s = refl
trim_start-spaces (suc n) s = trim_start-spaces n s

trim_end-spaces : (n : ℕ) → trim_end (spaces n) ≡ []
trim_end-spaces zero = refl
trim_end-spaces (suc n) = rw (trim_end-spaces n)

trim_end-append :
    (s : Str) (c n : ℕ) → is_whitespace c ≡ false → trim_end (s ++ c ∷ spaces n) ≡ s ++ c ∷ []
trim_end-append [] c n h = rw (trim_end-spaces n, h)
trim_end-append (d ∷ []) c n h = rw (trim_end-spaces n, h)
trim_end-append (d ∷ e ∷ s) c n h = rw (trim_end-append (e ∷ s) c n h)

parse_digits-digit :
    (acc d : ℕ) (s : Str)
    → d < 10
    → acc < 1000
    → parse_digits acc ((48 + d) ∷ s) ≡ parse_digits (acc * 10 + d) s
parse_digits-digit acc d s small low =
    let test : (leb 48 (48 + d)
          && leb (48 + d) 57
          && ltb (acc * 10 + (48 + d - 48)) 18446744073709551616)
        ≡ true =
      ground arith in
    let value : acc * 10 + (48 + d - 48) ≡ acc * 10 + d = omega arith in
    rw test (ap (λ v. parse_digits v s) value)

parse_usize-digit :
    (d : ℕ) (s : Str) → d < 10 → parse_usize ((48 + d) ∷ s) ≡ parse_digits 0 ((48 + d) ∷ s)
unfolding parse_usize
parse_usize-digit d [] h = refl
parse_usize-digit d (e ∷ s) h =
    let no_sign : (48 + d == 43) ≡ false = ground arith in rw no_sign refl

first-digit : (d : ℕ) (s : Str) → d < 10 → parse_usize ((48 + d) ∷ s) ≡ parse_digits (0 * 10 + d) s
first-digit d s h = parse_usize-digit d s h ∙ parse_digits-digit 0 d s h (omega arith)

parse_usize-two :
    (a b n : ℕ) → a < 10 → b < 10 → n ≡ a * 10 + b → parse_usize ((48 + a) ∷ (48 + b) ∷ []) ≡ some n
parse_usize-two a b n ha hb e =
    first-digit a ((48 + b) ∷ []) ha
    ∙ parse_digits-digit (0 * 10 + a) b [] hb (omega arith)
    ∙ ap (λ v. some v) (omega (arith, e))

parse_usize-three :
    (a b c n : ℕ)
    → a < 10
    → b < 10
    → c < 10
    → n ≡ a * 100 + b * 10 + c
    → parse_usize ((48 + a) ∷ (48 + b) ∷ (48 + c) ∷ []) ≡ some n
parse_usize-three a b c n ha hb hc e =
    first-digit a ((48 + b) ∷ (48 + c) ∷ []) ha
    ∙ parse_digits-digit (0 * 10 + a) b ((48 + c) ∷ []) hb (omega arith)
    ∙ parse_digits-digit ((0 * 10 + a) * 10 + b) c [] hc (omega arith)
    ∙ ap (λ v. some v) (omega (arith, e))

parse_usize-digits : (n : ℕ) → n < 1000 → parse_usize (digits n) ≡ some n
parse_usize-digits n h = elim (Bool-cases (ltb n 10)) [
  | inl one ↦ rw one (first-digit (n % 10) [] (ground arith) ∙ ap (λ v. some v) (ground arith))
  | inr more ↦ elim (Bool-cases (ltb n 100)) [
    | inl two ↦
        rw (more, two)
          (parse_usize-two (n / 10) (n % 10) n (ground arith) (ground arith) (ground arith))
    | inr three ↦
        rw (more, three)
          (parse_usize-three (n / 100) (n / 10 % 10) (n % 10) n (ground arith) (ground arith)
            (ground arith) (ground arith))
  ]
]

-- The first character of a string that ends with `c`.
abbrev first_of : Str → ℕ → ℕ
first_of [] c = c
first_of (x ∷ s) c = x

trim-padded :
    (a b : ℕ) (s : Str) (c : ℕ)
    → is_whitespace (first_of s c) ≡ false
    → is_whitespace c ≡ false
    → trim (spaces a ++ (s ++ c ∷ spaces b)) ≡ s ++ c ∷ []
unfolding trim
trim-padded a b [] c start end =
    rw (trim_start-spaces a (c ∷ spaces b), start) (trim_end-append [] c b end)
trim-padded a b (x ∷ s) c start end =
    rw (trim_start-spaces a (x ∷ s ++ c ∷ spaces b), start) (trim_end-append (x ∷ s) c b end)

digit-first : (n : ℕ) → n < 1000 → is_whitespace (first_of (leading n) (48 + n % 10)) ≡ false
digit-first n h = ground arith

strip_suffix-append : (p : ℕ) (s : Str) → strip_suffix p (s ++ p ∷ []) ≡ some s
strip_suffix-append p [] = rw (==_refl p)
strip_suffix-append p (c ∷ []) = rw (==_refl p)
strip_suffix-append p (c ∷ d ∷ s) = rw (strip_suffix-append p (d ∷ s))

no_paren : (n : ℕ) → n < 1000 → strip_prefix 40 (digits n) ≡ none
no_paren n h = ground arith

number_part-enclosed : (s : Str) → number_part (40 ∷ s ++ 41 ∷ []) ≡ s
number_part-enclosed s = rw (strip_suffix-append 41 s) refl

trim-plain : (a b n : ℕ) → n < 1000 → trim (spaces a ++ (digits n ++ spaces b)) ≡ digits n
trim-plain a b n h =
    ap (λ s. trim (spaces a ++ s)) (append_assoc (leading n) ((48 + n % 10) ∷ []) (spaces b))
    ∙ trim-padded a b (leading n) (48 + n % 10) (digit-first n h) (ground arith)

trim-enclosed :
    (a b : ℕ) (s : Str) → trim (spaces a ++ (40 ∷ s ++ 41 ∷ [] ++ spaces b)) ≡ 40 ∷ s ++ 41 ∷ []
trim-enclosed a b s =
    ap (λ t. trim (spaces a ++ t)) (append_assoc (40 ∷ s) (41 ∷ []) (spaces b))
    ∙ trim-padded a b (40 ∷ s) 41 refl refl

-- A number below 1000 in decimal digits, with or without parentheses around them and with any
-- spaces before and behind, is resolved to the entry of the table at that number, or to nothing
-- when the table has none.
pub resolve_id3v1_genre-digits :
    (a b n : ℕ)
    → n < 1000
    → (resolve_id3v1_genre (spaces a ++ (digits n ++ spaces b)) ≡ get_elem? id3v1_genres n)
      × (resolve_id3v1_genre (spaces a ++ (40 ∷ digits n ++ 41 ∷ [] ++ spaces b))
          ≡ get_elem? id3v1_genres n)
unfolding resolve_id3v1_genre
resolve_id3v1_genre-digits a b n h =
    let resolve = λ (s : Str). and_then (parse_usize s) (get_elem? id3v1_genres) in
    let number = ap (λ o. and_then o (get_elem? id3v1_genres)) (parse_usize-digits n h) in
    let plain : number_part (digits n) ≡ digits n = rw (no_paren n h) refl in
    (
      ap (λ s. resolve (number_part s)) (trim-plain a b n h) ∙ ap resolve plain ∙ number,
      ap (λ s. resolve (number_part s)) (trim-enclosed a b (digits n))
          ∙ ap resolve (number_part-enclosed (digits n))
          ∙ number,
    )
