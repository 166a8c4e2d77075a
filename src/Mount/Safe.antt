-- ===== src/Mount/Safe.antt =====
-- Which calls of the operating system the helper may make.
use rsplayer.Prelude.{
  ℕ, ◌≡◌, ◌⊎◌, refl, inl, inr, Option, none, some, List, [], ◌∷◌, ◌++◌, Bool, true, false, not,
  if◌then◌else◌, leb, ◌==◌, ◌&&◌, arith, Bool-cases, bytes_eq,
}
use rsplayer.Genre.{Str}
use rsplayer.Mount.{
  utf8_len, max_name_len, Os, Call, create_dir, mount_call, umount_call, mount_base, name_ok,
  name_char, all, source_char, validated_mount_point, validate_source, validate_options,
  all_allowed, parts_of, checked_options, first_line, mount_syscall, or_mount, mount_as, after_dir,
  mount_with, mount_at, mount_share, unmount_at, unmount_share, main, smb, nfs, cifs, nfs4,
}

-- A directory right under the base: its name is not empty and has no slash, and no leading dot.
abbrev pub IsShare : Str → Type 0
IsShare target =
    (c : ℕ) × (s : Str) × (target ≡ mount_base ++ b'/' ∷ c ∷ s)
    × (all (λ d. not (d == b'/')) (c ∷ s) ≡ true)
    × ((c == b'.') ≡ false)

abbrev pub IsKernelType : Str → Type 0
IsKernelType fstype = (fstype ≡ cifs) ⊎ (fstype ≡ nfs4) ⊎ (fstype ≡ nfs)

-- What a call may be.
abbrev pub IsSafe : Call → Type 0
IsSafe (create_dir path) = IsShare path
IsSafe (mount_call source target fstype options) =
    IsShare target
    × IsKernelType fstype
    × (all source_char source ≡ true)
    × (all_allowed (parts_of options) ≡ true)
IsSafe (umount_call target) = IsShare target

abbrev pub AllSafe : List Call → Type 0
AllSafe [] = Unit
AllSafe (call ∷ calls) = IsSafe call × AllSafe calls

and-left : (a b : Bool) → (a && b) ≡ true → a ≡ true
and-left true b h = refl
and-left false b h = h

and-right : (a b : Bool) → (a && b) ≡ true → b ≡ true
and-right true b h = h
and-right false b h = absurd (cc)

no-slash : (s : Str) → all name_char s ≡ true → all (λ d. not (d == b'/')) s ≡ true
no-slash [] h = refl
no-slash (c ∷ s) h =
    let here : not (c == b'/') ≡ true =
      ground (arith, and-left (name_char c) (all name_char s) h) in
    rw (here, no-slash s (and-right (name_char c) (all name_char s) h))

and-middle : (a b c d : Bool) → (a && b && c && d) ≡ true → (b ≡ true) × (c ≡ true)
and-middle true true true true h = (refl, refl)
and-middle true true true false h = absurd (cc)
and-middle true true false d h = absurd (cc)
and-middle true false c d h = absurd (cc)
and-middle false b c d h = absurd (cc)

not-false : (b : Bool) → not b ≡ true → b ≡ false
not-false true h = absurd (cc)
not-false false h = refl

name_ok-IsShare : (name : Str) → name_ok name ≡ true → IsShare (mount_base ++ b'/' ∷ name)
name_ok-IsShare [] h = absurd (cc)
name_ok-IsShare (c ∷ s) h =
    let (chars, first) =
      and-middle (leb (utf8_len (c ∷ s)) max_name_len) (all name_char (c ∷ s)) (not (c == b'.'))
        (not (c == b'-')) h in
    (c, s, refl, no-slash (c ∷ s) chars, not-false (c == b'.') first)

-- A mount point that has passed the check.
abbrev IsPoint : Option Str → Type 0
IsPoint none = Unit
IsPoint (some target) = IsShare target

validated-IsPoint : (name : Str) → IsPoint (validated_mount_point name)
unfolding validated_mount_point
validated-IsPoint name = elim (Bool-cases (name_ok name)) [
  | inl e ↦ rw e (name_ok-IsShare name e)
  | inr e ↦ rw e tt
]

abbrev IsOptions : Option Str → Type 0
IsOptions none = Unit
IsOptions (some options) = all_allowed (parts_of options) ≡ true

validate_options-allowed :
    (options : Str) → validate_options options ≡ true → all_allowed (parts_of options) ≡ true
unfolding validate_options
validate_options-allowed [] h = absurd (cc)
validate_options-allowed (c ∷ s) h = and-right _ (all_allowed (parts_of (c ∷ s))) h

checked-IsOptions : (stdin : Option Str) → IsOptions (checked_options stdin)
checked-IsOptions none = tt
checked-IsOptions (some input) = elim (Bool-cases (validate_options (first_line input))) [
  | inl e ↦ rw e (validate_options-allowed (first_line input) e)
  | inr e ↦ rw e tt
]

module _ (os : Os) where
  or_mount-AllSafe :
      (r : Bool) (calls : List Call) (second : Bool × List Call)
      → AllSafe calls
      → AllSafe second.1
      → AllSafe (or_mount os (r, calls) second).1
  or_mount-AllSafe true calls second h h' = h
  or_mount-AllSafe false [] second h h' = h'
  or_mount-AllSafe false (call ∷ calls) second h h' =
      (h.0, or_mount-AllSafe false calls second h.1 h')

  after_dir-AllSafe :
      (made : Bool) (target : Str) (mounted : Bool × List Call)
      → IsShare target
      → AllSafe mounted.1
      → AllSafe (after_dir os made target mounted).1
  after_dir-AllSafe false target mounted share h = (share, tt)
  after_dir-AllSafe true target mounted share h = (share, h)

  mount_as-AllSafe :
      (fstype source target options : Str)
      → IsShare target
      → all source_char source ≡ true
      → all_allowed (parts_of options) ≡ true
      → AllSafe (mount_as os fstype source target options).1
  mount_as-AllSafe fstype source target options share clean allowed =
      elim (Bool-cases (bytes_eq fstype smb)) [
        | inl e ↦ rw e ((share, inl refl, clean, allowed), tt)
        | inr e ↦ elim (Bool-cases (bytes_eq fstype nfs)) [
          | inl f ↦
              rw (e, f)
                (or_mount-AllSafe (os.mount source target nfs4 options)
                  (mount_call source target nfs4 options ∷ [])
                  (mount_syscall os source target nfs options)
                  ((share, inr (inl refl), clean, allowed), tt)
                  ((share, inr (inr refl), clean, allowed), tt))
          | inr f ↦ rw (e, f) tt
        ]
      ]

  mount_with-AllSafe :
      (fstype source target : Str) (options : Option Str)
      → IsShare target
      → all source_char source ≡ true
      → IsOptions options
      → AllSafe (mount_with os fstype source target options).1
  mount_with-AllSafe fstype source target none share clean allowed = tt
  mount_with-AllSafe fstype source target (some options) share clean allowed =
      after_dir-AllSafe (os.create_dir_all target) target (mount_as os fstype source target options)
        share (mount_as-AllSafe fstype source target options share clean allowed)

  validate_source-clean :
      (fstype source : Str) → validate_source fstype source ≡ true → all source_char source ≡ true
  unfolding validate_source
  validate_source-clean fstype source h = and-right _ (all source_char source) h

  mount_at-AllSafe :
      (point : Option Str) (fstype source : Str)
      → IsPoint point
      → AllSafe (mount_at os point fstype source).1
  mount_at-AllSafe none fstype source share = tt
  mount_at-AllSafe (some target) fstype source share =
      elim (Bool-cases (validate_source fstype source)) [
        | inl e ↦ rw e (
            mount_with-AllSafe fstype source target (checked_options os.stdin) share
              (validate_source-clean fstype source e) (checked-IsOptions os.stdin))
        | inr e ↦ rw e tt
      ]

  unmount_at-AllSafe : (point : Option Str) → IsPoint point → AllSafe (unmount_at os point).1
  unmount_at-AllSafe none share = tt
  unmount_at-AllSafe (some target) share = (share, tt)

  if-AllSafe :
      (b : Bool) (run : Bool × List Call)
      → AllSafe run.1
      → AllSafe (if b then run else (false, [])).1
  if-AllSafe true run h = h
  if-AllSafe false run h = tt

  -- Whatever the arguments, the standard input and the answers of the operating system are: every
  -- directory that is made, every mount and every unmount is at a place right under the base, with
  -- a name without a slash and a leading dot; and what is mounted is cifs, nfs4 or nfs, from a
  -- source without control characters and commas, and with allowed options only.
  pub main-AllSafe : (args : List Str) → AllSafe (main os args).1
  unfolding main mount_share unmount_share
  main-AllSafe [] = tt
  main-AllSafe (command ∷ []) = tt
  main-AllSafe (command ∷ name ∷ []) =
      if-AllSafe (bytes_eq command _) (unmount_share os name)
        (unmount_at-AllSafe (validated_mount_point name) (validated-IsPoint name))
  main-AllSafe (command ∷ name ∷ fstype ∷ []) = tt
  main-AllSafe (command ∷ name ∷ fstype ∷ source ∷ []) =
      if-AllSafe (bytes_eq command _) (mount_share os name fstype source)
        (mount_at-AllSafe (validated_mount_point name) fstype source (validated-IsPoint name))
  main-AllSafe (command ∷ name ∷ fstype ∷ source ∷ more ∷ args) = tt
