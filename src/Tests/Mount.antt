-- ===== src/Tests/Mount.antt =====
-- The mount helper with one request.
use rsplayer.Prelude.{◌≡◌, refl, List, [], ◌∷◌, ◌++◌, some, true}
use rsplayer.Genre.{Str, trim}
use rsplayer.Mount.{
  Os, main, smb, mount_share, unmount_share, mount_base, cifs, create_dir, mount_call,
  validated_mount_point, validate_source, validate_options,
}
use rsplayer.Mount.Safe.{AllSafe, main-AllSafe}

abbrev obliging : Os
obliging = record {
  stdin = some (b'u' ∷ b'i' ∷ b'd' ∷ b'=' ∷ b'1' ∷ []);
  create_dir_all = λ path. true;
  mount = λ source target fstype options. true;
  umount2 = λ target. true;
}

abbrev request : List Str
request =
    (b'm' ∷ b'o' ∷ b'u' ∷ b'n' ∷ b't' ∷ [])
    ∷ (b'n' ∷ b'a' ∷ b's' ∷ [])
    ∷ smb
    ∷ (b'/' ∷ b'/' ∷ b'h' ∷ b'/' ∷ b'm' ∷ [])
    ∷ []

-- The request is carried out.
request_run : main obliging request ≡ (
  true,
  create_dir (mount_base ++ b'/' ∷ b'n' ∷ b'a' ∷ b's' ∷ [])
      ∷ mount_call
          (b'/' ∷ b'/' ∷ b'h' ∷ b'/' ∷ b'm' ∷ [])
          (mount_base ++ b'/' ∷ b'n' ∷ b'a' ∷ b's' ∷ [])
          cifs
          (b'u' ∷ b'i' ∷ b'd' ∷ b'=' ∷ b'1' ∷ [])
      ∷ [],
)
unfolding main mount_share unmount_share validated_mount_point validate_source validate_options trim
request_run = refl

main-AllSafe_example : AllSafe (main obliging request).1
main-AllSafe_example = main-AllSafe obliging request
