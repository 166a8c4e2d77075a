-- ===== src/Genre.antt =====
-- crates/metadata/src/genre_utils.rs: numbers and junk in the genre tags. A string is the list of its
-- code points here.
pub mod Table
pub mod Numbers
pub mod Names
use Prim.Native.String.{String}
use rsplayer.Prelude.{
  ℕ, zero, suc, ◌+◌, ◌-◌, ◌*◌, ◌≡◌, Option, none, some, List, [], ◌∷◌, ◌++◌, Bool, true, false,
  if◌then◌else◌, leb, ltb, ◌==◌, ◌&&◌, ◌||◌, map_option, and_then, unwrap_or, get_elem?, bytes_eq,
}
use rsplayer.Genre.Table.{id3v1_genres}

abbrev pub Str : Type 0
Str = List ℕ

-- `char::is_whitespace`
abbrev pub is_whitespace : ℕ → Bool
is_whitespace c =
    (leb 9 c && leb c 13)
    || c == 32
    || c == 133
    || c == 160
    || c == 5760
    || (leb 8192 c && leb c 8202)
    || c == 8232
    || c == 8233
    || c == 8239
    || c == 8287
    || c == 12288

abbrev pub trim_start : Str → Str
trim_start [] = []
trim_start (c ∷ s) = let rest = trim_start s in if is_whitespace c then rest else c ∷ s

abbrev pub put_back : ℕ → Str → Str
put_back c [] = if is_whitespace c then [] else c ∷ []
put_back c (d ∷ s) = c ∷ d ∷ s

abbrev pub trim_end : Str → Str
trim_end [] = []
trim_end (c ∷ s) = put_back c (trim_end s)

unfoldable pub trim : Str → Str
trim s = trim_end (trim_start s)

abbrev pub strip_prefix : ℕ → Str → Option Str
strip_prefix p [] = none
strip_prefix p (c ∷ s) = if c == p then some s else none

abbrev pub strip_suffix : ℕ → Str → Option Str
strip_suffix p [] = none
strip_suffix p (c ∷ []) = if c == p then some [] else none
strip_suffix p (c ∷ d ∷ s) = map_option (λ rest. c ∷ rest) (strip_suffix p (d ∷ s))

-- `str::parse::<usize>`: digits, after a `+` or not, below 2 ^ 64.
abbrev pub parse_digits : ℕ → Str → Option ℕ
parse_digits acc [] = some acc
parse_digits acc (c ∷ s) =
    let value = acc * 10 + (c - 48) in
    let rest = parse_digits value s in
    if leb 48 c && leb c 57 && ltb value 18446744073709551616 then rest else none

unfoldable pub parse_usize : Str → Option ℕ
parse_usize [] = none
parse_usize (c ∷ []) = parse_digits 0 (c ∷ [])
parse_usize (c ∷ d ∷ s) = if c == 43 then parse_digits 0 (d ∷ s) else parse_digits 0 (c ∷ d ∷ s)

-- What stands between parentheses, or all of it.
abbrev pub number_part : Str → Str
number_part trimmed = unwrap_or (and_then (strip_prefix 40 trimmed) (strip_suffix 41)) trimmed

unfoldable pub resolve_id3v1_genre : Str → Option String
unfolding trim parse_usize
resolve_id3v1_genre raw = and_then (parse_usize (number_part (trim raw))) (get_elem? id3v1_genres)

abbrev pub junk_genres : List Str
junk_genres =
    (b'o' ∷ b't' ∷ b'h' ∷ b'e' ∷ b'r' ∷ [])
    ∷ (b'u' ∷ b'n' ∷ b'k' ∷ b'n' ∷ b'o' ∷ b'w' ∷ b'n' ∷ b' ' ∷ b'g' ∷ b'e' ∷ b'n' ∷ b'r' ∷ b'e'
        ∷ [])
    ∷ (b'u' ∷ b'n' ∷ b'k' ∷ b'n' ∷ b'o' ∷ b'w' ∷ b'n' ∷ [])
    ∷ (b'm' ∷ b'i' ∷ b's' ∷ b'c' ∷ [])
    ∷ (b'n' ∷ b'o' ∷ b'n' ∷ b'e' ∷ [])
    ∷ (b'u' ∷ b'n' ∷ b'c' ∷ b'l' ∷ b'a' ∷ b's' ∷ b's' ∷ b'i' ∷ b'f' ∷ b'i' ∷ b'e' ∷ b'd' ∷ [])
    ∷ []
    ∷ []

abbrev pub any_eq : Str → List Str → Bool
any_eq s [] = false
any_eq s (t ∷ ts) = bytes_eq s t || any_eq s ts

unfoldable pub is_junk_genre : Str → Bool
is_junk_genre normalized = any_eq normalized junk_genres
