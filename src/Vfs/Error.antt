-- ===== src/Vfs/Error.antt =====
-- `FileError` of zenos-kernel/src/disk/mod.rs and the `Result` that file operations return.
use zenos.Common.{ℕ, List}

-- `other` carries the message.
pub data FileError : Type 0 where
  unsupported_operation read_error write_error seek_error invalid_file_descriptor : FileError
  not_found already_exists not_a_directory is_a_directory permission_denied : FileError
  read_only_filesystem : FileError
  other : List ℕ → FileError

pub data Result {ℓ} (A : Type ℓ) : Type ℓ where
  ok : A → Result A
  err : FileError → Result A
