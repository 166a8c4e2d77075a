-- ===== src/Prelude/Utf8.antt =====
-- The bytes of a text and its characters: UTF-8, as `char`, `String` and `str::chars` of the language
-- have it. Bytes that are no text do not occur.
use rsplayer.Prelude.{
  ℕ, zero, suc, ◌+◌, ◌-◌, ◌*◌, ◌/◌, ◌%◌, ◌≡◌, refl, List, [], ◌∷◌, ◌++◌, if◌then◌else◌, ltb,
}

abbrev char_bytes : ℕ → List ℕ
char_bytes c =
    if ltb c 128
    then c ∷ []
    else if ltb c 2048
    then (192 + c / 64) ∷ (128 + c % 64) ∷ []
    else if ltb c 65536
    then (224 + c / 4096) ∷ (128 + c / 64 % 64) ∷ (128 + c % 64) ∷ []
    else (240 + c / 262144) ∷ (128 + c / 4096 % 64) ∷ (128 + c / 64 % 64) ∷ (128 + c % 64) ∷ []

-- The bytes that a character has behind its first one, and what the first one holds of it.
abbrev more : ℕ → ℕ
more c = if ltb c 128 then 0 else if ltb c 224 then 1 else if ltb c 240 then 2 else 3

abbrev high_bits : ℕ → ℕ
high_bits c =
    if ltb c 128 then c else if ltb c 224 then c - 192 else if ltb c 240 then c - 224 else c - 240

abbrev emit : ℕ → ℕ → (ℕ → ℕ → List ℕ) → List ℕ
emit zero c next = c ∷ next 0 0
emit (suc n) c next = next (suc n) c

abbrev chars_from : ℕ → ℕ → List ℕ → List ℕ
chars_from pending c [] = []
chars_from zero c (b ∷ s) = emit (more b) (high_bits b) (λ n d. chars_from n d s)
chars_from (suc pending) c (b ∷ s) = emit pending (c * 64 + (b - 128)) (λ n d. chars_from n d s)

unfoldable pub chars : List ℕ → List ℕ
chars s = chars_from 0 0 s

unfoldable pub utf8 : List ℕ → List ℕ
utf8 [] = []
utf8 (c ∷ s) = char_bytes c ++ utf8 s

chars_runs : chars (utf8 (97 ∷ 233 ∷ 8211 ∷ 128512 ∷ 98 ∷ [])) ≡ 97 ∷ 233 ∷ 8211 ∷ 128512 ∷ 98 ∷ []
unfolding chars utf8
chars_runs = refl
