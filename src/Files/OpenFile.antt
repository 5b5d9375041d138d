-- ===== src/Files/OpenFile.antt =====
-- `OpenFile` of zenos-kernel/src/disk/vfs.rs: `seek`, `read` and `write`. `current_time` and the
-- operations of the inode behind the handle are those of an interface.
pub mod Laws
use zenos.Common.{
  ℕ, suc, ◌+◌, ◌-◌, ◌%◌, Bool, List, if◌then◌else◌, ◌||◌, ◌&&◌, not, ℤ, pos, negsuc, saturating_add,
  u64_size, length, bit_or,
}
use zenos.Vfs.Error.{Result, ok, err, FileError, permission_denied}
use zenos.Vfs.Open.{contains, owner_read, owner_write}

-- `FileOpenOptions`.
abbrev pub read_only : ℕ
read_only = 0

abbrev pub write_only : ℕ
write_only = 1

abbrev pub read_write : ℕ
read_write = 2

abbrev pub close_on_exec : ℕ
close_on_exec = 0o2000000

-- `inode` names the shared inode; `cursor` is a `u64`.
pub record OpenFile : Type 0 where
  pub inode : ℕ
  pub cursor : ℕ
  pub options : ℕ

pub data SeekFrom : Type 0 where
  start : ℕ → SeekFrom
  end : ℤ → SeekFrom
  current : ℤ → SeekFrom

-- The two arms that add a signed offset; `saturating_sub` is the subtraction of ℕ.
offset_from : ℕ → ℤ → ℕ
offset_from base (pos n) = saturating_add base n
offset_from base (negsuc n) = base - suc n

new_pos : ℕ → ℕ → SeekFrom → ℕ
unfolding offset_from
new_pos file_size cursor (start p) = p
new_pos file_size cursor (end offset) = offset_from file_size offset
new_pos file_size cursor (current offset) = offset_from cursor offset

-- `seek`, for an inode of the given size.
unfoldable pub seek : ℕ → SeekFrom → OpenFile → OpenFile × ℕ
unfolding new_pos
seek file_size from f = let p = new_pos file_size f.cursor from in (record f { cursor = p }, p)

pub record Device : Type 1 where
  pub World : Type 0
  pub perms : ℕ → World → ℕ
  pub read_data : ℕ → ℕ → ℕ → World → Result (List ℕ) × World
  pub write_data : ℕ → ℕ → List ℕ → World → Result ℕ × World
  pub sync : ℕ → World → Result (Unit {0}) × World
  pub set_access_time : ℕ → World → World
  pub set_modified_time : ℕ → World → World

module _ (D : Device) where
  open D use {World, perms, read_data, write_data, sync, set_access_time, set_modified_time}

  -- The cursor after `n` bytes.
  advance : ℕ → OpenFile → OpenFile
  advance n f = record f { cursor = (f.cursor + n) % u64_size }

  -- `ino.data.sync()?` and the return of the value.
  synced : {A : Type 0} → A → OpenFile → Result (Unit {0}) × World → Result A × OpenFile × World
  synced a f (ok _, w) = (ok a, f, w)
  synced a f (err e, w) = (err e, f, w)

  read_done : OpenFile → Result (List ℕ) × World → Result (List ℕ) × OpenFile × World
  unfolding advance synced
  read_done f (err e, w) = (err e, f, w)
  read_done f (ok bytes, w) =
      synced bytes (advance (length bytes) f) (sync f.inode (set_access_time f.inode w))

  may_read : OpenFile → World → Bool
  may_read f w =
      contains f.options (bit_or read_only read_write) || contains (perms f.inode w) owner_read

  -- The result is the bytes read; `len` is the length of the buffer.
  unfoldable pub read : ℕ → OpenFile → World → Result (List ℕ) × OpenFile × World
  unfolding read_done may_read
  read len f w =
      if not (may_read f w)
      then (err permission_denied, f, w)
      else read_done f (read_data f.inode f.cursor len w)

  write_done : OpenFile → Result ℕ × World → Result ℕ × OpenFile × World
  unfolding advance synced
  write_done f (err e, w) = (err e, f, w)
  write_done f (ok n, w) = synced n (advance n f) (sync f.inode (set_modified_time f.inode w))

  may_write : OpenFile → World → Bool
  may_write f w =
      contains f.options (bit_or write_only read_write) || contains (perms f.inode w) owner_write

  unfoldable pub write : List ℕ → OpenFile → World → Result ℕ × OpenFile × World
  unfolding write_done may_write
  write bytes f w =
      if not (may_write f w)
      then (err permission_denied, f, w)
      else write_done f (write_data f.inode f.cursor bytes w)
