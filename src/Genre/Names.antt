-- ===== src/Genre/Names.antt =====
-- crates/metadata/src/genre_utils.rs: names in normal form. The tables of Unicode are functions of the
-- environment: the two decompositions and the marks are those of the `unicode_normalization` crate.
use rsplayer.Prelude.{
  ℕ, List, [], ◌∷◌, ◌++◌, Bool, true, false, not, filter, map, if◌then◌else◌, ◌==◌, ◌||◌,
}
use rsplayer.Genre.{Str, is_whitespace}

pub record Unicode : Type 0 where
  pub nfd : Str → Str
  pub nfc : Str → Str
  pub is_combining_mark : ℕ → Bool
  pub to_lowercase : Str → Str
  pub to_uppercase : ℕ → Str

-- `str::split_whitespace`: the words, from the last character on.
abbrev pub add_char : ℕ → List Str → List Str
add_char c [] = (c ∷ []) ∷ []
add_char c (word ∷ ws) = (c ∷ word) ∷ ws

abbrev pub words_from : Str → List Str
words_from [] = [] ∷ []
words_from (c ∷ s) =
    let rest = words_from s in if is_whitespace c then [] ∷ rest else add_char c rest

abbrev pub nonempty : Str → Bool
nonempty [] = false
nonempty (c ∷ s) = true

unfoldable pub split_whitespace : Str → List Str
split_whitespace s = filter nonempty (words_from s)

unfoldable pub join_spaces : List Str → Str
join_spaces [] = []
join_spaces (word ∷ []) = word
join_spaces (word ∷ next ∷ ws) = word ++ 32 ∷ join_spaces (next ∷ ws)

-- Typographic characters.
abbrev pub fold_char : ℕ → ℕ
fold_char c =
    if c == 8211 || c == 8212 || c == 8210 || c == 8213 || c == 65112 || c == 65123 || c == 65293
    then 45
    else if c == 8216 || c == 8217 || c == 700
    then 39
    else if c == 8220 || c == 8221
    then 34
    else if c == 65295
    then 47
    else c

module _ (unicode : Unicode) where
  open unicode use {nfd, nfc, is_combining_mark, to_lowercase, to_uppercase}

  unfoldable pub normalize_name : Str → Str
  unfolding split_whitespace join_spaces
  normalize_name s =
      let without_diacritics = nfc (filter (λ c. not (is_combining_mark c)) (nfd s)) in
      map fold_char (join_spaces (split_whitespace (to_lowercase without_diacritics)))

  abbrev pub normalize_genre_key : Str → Str
  normalize_genre_key genre = normalize_name genre

  abbrev pub title_case : Str → Str
  title_case [] = []
  title_case (first ∷ s) = to_uppercase first ++ s

  unfoldable pub title_case_genre : Str → Str
  unfolding split_whitespace join_spaces
  title_case_genre s = join_spaces (map title_case (split_whitespace s))
