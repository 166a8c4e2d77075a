-- ===== src/Mount.antt =====
-- crates/mount_helper/src/main.rs: the privileged helper that mounts network shares. The operating
-- system enters as the answers that its calls give; the helper's own behaviour is its success and
-- the calls that it has made, in order. Strings are lists of code points.
pub mod Safe
use rsplayer.Prelude.{
  ℕ, zero, suc, ◌+◌, ◌≡◌, Option, none, some, List, [], ◌∷◌, ◌++◌, Bool, true, false, not,
  if◌then◌else◌, leb, ltb, ◌==◌, ◌&&◌, ◌||◌, contains, bytes_eq, head?,
}
use rsplayer.Song.{starts_with}
use rsplayer.Genre.{Str, trim, any_eq}

abbrev pub mount_base : Str
mount_base =
    b'/' ∷ b'm' ∷ b'n' ∷ b't' ∷ b'/' ∷ b'r' ∷ b's' ∷ b'p' ∷ b'l' ∷ b'a' ∷ b'y' ∷ b'e' ∷ b'r' ∷ []

abbrev pub max_name_len : ℕ
max_name_len = 64

abbrev pub max_source_len : ℕ
max_source_len = 512

abbrev pub max_options_len : ℕ
max_options_len = 1024

abbrev pub allowed_option_keys : List Str
allowed_option_keys =
    (b'u' ∷ b's' ∷ b'e' ∷ b'r' ∷ b'n' ∷ b'a' ∷ b'm' ∷ b'e' ∷ [])
    ∷ (b'p' ∷ b'a' ∷ b's' ∷ b's' ∷ b'w' ∷ b'o' ∷ b'r' ∷ b'd' ∷ [])
    ∷ (b'd' ∷ b'o' ∷ b'm' ∷ b'a' ∷ b'i' ∷ b'n' ∷ [])
    ∷ (b'u' ∷ b'i' ∷ b'd' ∷ [])
    ∷ (b'g' ∷ b'i' ∷ b'd' ∷ [])
    ∷ (b'f' ∷ b'i' ∷ b'l' ∷ b'e' ∷ b'_' ∷ b'm' ∷ b'o' ∷ b'd' ∷ b'e' ∷ [])
    ∷ (b'd' ∷ b'i' ∷ b'r' ∷ b'_' ∷ b'm' ∷ b'o' ∷ b'd' ∷ b'e' ∷ [])
    ∷ (b's' ∷ b'o' ∷ b'f' ∷ b't' ∷ [])
    ∷ (b's' ∷ b'e' ∷ b'c' ∷ [])
    ∷ (b'u' ∷ b's' ∷ b'e' ∷ b'r' ∷ [])
    ∷ (b'p' ∷ b'a' ∷ b's' ∷ b's' ∷ [])
    ∷ (b'v' ∷ b'e' ∷ b'r' ∷ b's' ∷ [])
    ∷ (b'a' ∷ b'd' ∷ b'd' ∷ b'r' ∷ [])
    ∷ (b'n' ∷ b'o' ∷ b'l' ∷ b'o' ∷ b'c' ∷ b'k' ∷ [])
    ∷ (b't' ∷ b'i' ∷ b'm' ∷ b'e' ∷ b'o' ∷ [])
    ∷ (b'r' ∷ b'e' ∷ b't' ∷ b'r' ∷ b'a' ∷ b'n' ∷ b's' ∷ [])
    ∷ []

-- `str::len`: the bytes of UTF-8.
abbrev pub utf8_len : Str → ℕ
utf8_len [] = 0
utf8_len (c ∷ s) =
    (if ltb c 128 then 1 else if ltb c 2048 then 2 else if ltb c 65536 then 3 else 4) + utf8_len s

abbrev pub all : (ℕ → Bool) → Str → Bool
all test [] = true
all test (c ∷ s) = test c && all test s

-- `is_ascii_alphanumeric`, and the four characters beside.
abbrev pub name_char : ℕ → Bool
name_char c =
    (leb 48 c && leb c 57)
    || (leb 65 c && leb c 90)
    || (leb 97 c && leb c 122)
    || c == b'.'
    || c == b'_'
    || c == b'-'
    || c == b' '

abbrev pub name_ok : Str → Bool
name_ok [] = false
name_ok (c ∷ s) =
    leb (utf8_len (c ∷ s)) max_name_len
    && all name_char (c ∷ s)
    && not (c == b'.')
    && not (c == b'-')

unfoldable pub validated_mount_point : Str → Option Str
validated_mount_point name = if name_ok name then some (mount_base ++ b'/' ∷ name) else none

abbrev pub smb : Str
smb = b's' ∷ b'm' ∷ b'b' ∷ []

abbrev pub nfs : Str
nfs = b'n' ∷ b'f' ∷ b's' ∷ []

abbrev pub cifs : Str
cifs = b'c' ∷ b'i' ∷ b'f' ∷ b's' ∷ []

abbrev pub nfs4 : Str
nfs4 = b'n' ∷ b'f' ∷ b's' ∷ b'4' ∷ []

abbrev pub trim_start_matches : ℕ → Str → Str
trim_start_matches p [] = []
trim_start_matches p (c ∷ s) = let rest = trim_start_matches p s in if c == p then rest else c ∷ s

abbrev pub shape_ok : Str → Str → Bool
shape_ok fstype source =
    if bytes_eq fstype smb
    then starts_with (b'/' ∷ b'/' ∷ []) source && contains b'/' (trim_start_matches b'/' source)
    else if bytes_eq fstype nfs
    then contains b':' source
    else false

-- Neither `char::is_control` nor a comma.
abbrev pub source_char : ℕ → Bool
source_char c = not (leb c 31 || (leb 127 c && leb c 159) || c == b',')

unfoldable pub validate_source : Str → Str → Bool
validate_source fstype source =
    shape_ok fstype source && leb (utf8_len source) max_source_len && all source_char source

-- `split(sep)`: the part before the first separator, and the others.
abbrev pub split_step : ℕ → ℕ → Str × List Str → Str × List Str
split_step sep c (part, parts) = if c == sep then ([], part ∷ parts) else (c ∷ part, parts)

abbrev pub split : ℕ → Str → Str × List Str
split sep [] = ([], [])
split sep (c ∷ s) = split_step sep c (split sep s)

-- The key of an option, `part.split('=').next()`.
abbrev pub key_of : Str → Str
key_of part = (split b'=' part).0

abbrev pub all_allowed : List Str → Bool
all_allowed [] = true
all_allowed (part ∷ parts) = any_eq (key_of part) allowed_option_keys && all_allowed parts

abbrev pub parts_of : Str → List Str
parts_of options = let (part, parts) = split b',' options in part ∷ parts

unfoldable pub validate_options : Str → Bool
validate_options [] = false
validate_options (c ∷ s) = leb (utf8_len (c ∷ s)) max_options_len && all_allowed (parts_of (c ∷ s))

-- `lines().next().unwrap_or("").trim()`; the trimming takes a carriage return off as well.
abbrev pub first_line : Str → Str
first_line input = trim (split 10 input).0

-- What the operating system answers.
pub record Os : Type 0 where
  pub stdin : Option Str
  pub create_dir_all : Str → Bool
  pub mount : Str → Str → Str → Str → Bool
  pub umount2 : Str → Bool

pub data Call : Type 0 where
  create_dir : Str → Call
  mount_call : Str → Str → Str → Str → Call
  umount_call : Str → Call

-- The standard input is read and checked.
abbrev pub checked_options : Option Str → Option Str
checked_options none = none
checked_options (some input) =
    if validate_options (first_line input) then some (first_line input) else none

module _ (os : Os) where
  abbrev pub mount_syscall : Str → Str → Str → Str → Bool × List Call
  mount_syscall source target kernel_fstype options = (
    os.mount source target kernel_fstype options,
    mount_call source target kernel_fstype options ∷ [],
  )

  abbrev pub or_mount : Bool × List Call → Bool × List Call → Bool × List Call
  or_mount (true, calls) second = (true, calls)
  or_mount (false, calls) (result, more) = (result, calls ++ more)

  -- The `match` on the file system.
  abbrev pub mount_as : Str → Str → Str → Str → Bool × List Call
  mount_as fstype source mount_point options =
      if bytes_eq fstype smb
      then mount_syscall source mount_point cifs options
      else if bytes_eq fstype nfs
      then or_mount (mount_syscall source mount_point nfs4 options)
          (mount_syscall source mount_point nfs options)
      else (false, [])

  abbrev pub after_dir : Bool → Str → Bool × List Call → Bool × List Call
  after_dir false mount_point mounted = (false, create_dir mount_point ∷ [])
  after_dir true mount_point (result, calls) = (result, create_dir mount_point ∷ calls)

  abbrev pub mount_with : Str → Str → Str → Option Str → Bool × List Call
  mount_with fstype source mount_point none = (false, [])
  mount_with fstype source mount_point (some options) =
      after_dir (os.create_dir_all mount_point) mount_point
        (mount_as fstype source mount_point options)

  abbrev pub mount_at : Option Str → Str → Str → Bool × List Call
  mount_at none fstype source = (false, [])
  mount_at (some mount_point) fstype source =
      if validate_source fstype source
      then mount_with fstype source mount_point (checked_options os.stdin)
      else (false, [])

  unfoldable pub mount_share : Str → Str → Str → Bool × List Call
  mount_share name fstype source = mount_at (validated_mount_point name) fstype source

  abbrev pub unmount_at : Option Str → Bool × List Call
  unmount_at none = (false, [])
  unmount_at (some mount_point) = (os.umount2 mount_point, umount_call mount_point ∷ [])

  unfoldable pub unmount_share : Str → Bool × List Call
  unmount_share name = unmount_at (validated_mount_point name)

  -- `main` on the arguments.
  unfoldable pub main : List Str → Bool × List Call
  unfolding mount_share unmount_share
  main (command ∷ name ∷ []) =
      if bytes_eq command (b'u' ∷ b'm' ∷ b'o' ∷ b'u' ∷ b'n' ∷ b't' ∷ [])
      then unmount_share name
      else (false, [])
  main (command ∷ name ∷ fstype ∷ source ∷ []) =
      if bytes_eq command (b'm' ∷ b'o' ∷ b'u' ∷ b'n' ∷ b't' ∷ [])
      then mount_share name fstype source
      else (false, [])
  main other = (false, [])
