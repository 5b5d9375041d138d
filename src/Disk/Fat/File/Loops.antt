-- ===== src/Disk/Fat/File/Loops.antt =====
-- The loops of a read and a write end within the fuel that they are given.
use native.Mathlib.Nat.{mod-lt}
use zenos.Common.{
  ℕ, zero, suc, ◌+◌, ◌-◌, ◌<◌, ◌≡◌, refl, min, Bool, false, ◌||◌, not, List, Option, none, some,
  arith, ltb, length, ltb→lt,
}
use zenos.Disk.Device.{BlockDevice, pure}
use zenos.Disk.Fat.Bpb.{Volume, bytes_per_cluster}
use zenos.Disk.Fat.Table.{is_eoc}
use zenos.Disk.Fat.File.{
  ReadState, WriteState, copied, more_to_read, to_copy, slice, read_loop, read_chain, read_from,
  old_bytes, put_bytes, to_write, with_bytes, write_turn, write_loop, write_chain,
}
use zenos.Disk.Fat.File.Copy.{length-copy_into}
use zenos.Disk.Fat.File.Ending.{
  Any, Always, always, Always-bind, Always-if, Always-pure, Always-then, Always-choice, Always-done,
  read_entry-Always, read_cluster-Always, write_cluster-Always, next_or_new-Always, skip-Always,
  skip_or_extend-Always,
}

module _ {S : Type 0} (dev : BlockDevice S) (v : Volume) where
  -- Each turn of the loop of a read has a byte to copy.
  step_left :
      (cursor file_size : ℕ) (bytes : List ℕ) (r : ReadState)
      → r.offset_in_cluster < bytes_per_cluster v.bpb
      → (not (more_to_read cursor file_size r) || ltb r.cluster 2) ≡ false
      → (fuel : ℕ) → length r.buf - r.bytes_read < suc fuel
      → length (copied v cursor file_size bytes r).buf
          - (copied v cursor file_size bytes r).bytes_read
        < fuel
  step_left cursor file_size bytes r o m fuel h = omega (
    arith,
    (in_range (ltb r.cluster 2) m).0,
    (in_range (ltb r.cluster 2) m).1,
    length-copy_into r.buf r.bytes_read
        (slice bytes r.offset_in_cluster (to_copy v cursor file_size r)),
  )
    where
      in_range :
          (b : Bool)
          → (not (more_to_read cursor file_size r) || b) ≡ false
          → (r.bytes_read < length r.buf) × (cursor + r.bytes_read < file_size)
      in_range b m = ground arith

  read_loop-Always :
      (fuel cursor file_size : ℕ) (r : ReadState)
      → r.offset_in_cluster < bytes_per_cluster v.bpb
      → length r.buf - r.bytes_read < fuel
      → Always Any (read_loop dev v fuel cursor file_size r)
  unfolding read_loop
  read_loop-Always zero cursor file_size r o h = absurd (omega arith)
  read_loop-Always (suc fuel) cursor file_size r o h =
      Always-if Any (not (more_to_read cursor file_size r) || ltb r.cluster 2) (λ e. Always-done)
        (λ e. Always-then (read_cluster-Always dev v r.cluster r.cluster_buf) (λ bytes.
          Always-then (read_entry-Always dev v r.cluster) (λ next.
            Always-choice (is_eoc v.kind next) Always-done (
              read_loop-Always fuel cursor file_size
                (record (copied v cursor file_size bytes r) { cluster = next }) (omega arith)
                (step_left cursor file_size bytes r o e fuel h)))))

  -- A turn of a write moves on by what fits into the cluster, to the start of the next.
  abbrev Moved : List ℕ → WriteState → WriteState → Type 0
  Moved buf w w' =
      (w'.offset_there ≡ 0)
      × (w'.bytes_written
          ≡ w.bytes_written
            + min (bytes_per_cluster v.bpb - w.offset_there) (length buf - w.bytes_written))

  old_bytes-Always : (buf : List ℕ) (w : WriteState) → Always Any (old_bytes dev v buf w)
  unfolding old_bytes
  old_bytes-Always buf w = search (always, read_cluster-Always dev v)

  put_bytes-Always :
      (buf : List ℕ) (w : WriteState) (old : List ℕ)
      → Always (Moved buf w) (put_bytes dev v buf w old)
  unfolding put_bytes
  put_bytes-Always buf w old =
      Always-bind Any (Moved buf w)
        {f = λ u. pure (record w {
          bytes_written = w.bytes_written + to_write v buf w;
          offset_there = 0;
          cluster_data = with_bytes v buf w old;
        })}
        (write_cluster-Always dev v w.at_cluster (with_bytes v buf w old))
        (λ u q. Always-pure (Moved buf w) _ (refl, refl))

  write_turn-Always :
      (buf : List ℕ) (w : WriteState) → Always (Moved buf w) (write_turn dev v buf w)
  unfolding write_turn
  write_turn-Always buf w =
      Always-bind Any (Moved buf w) {m = old_bytes dev v buf w} {f = put_bytes dev v buf w}
        (old_bytes-Always buf w) (λ old p. put_bytes-Always buf w old)

  write_loop-Always :
      (fuel : ℕ) (buf : List ℕ) (w : WriteState)
      → w.offset_there < bytes_per_cluster v.bpb
      → length buf - w.bytes_written < fuel
      → Always Any (write_loop dev v fuel buf w)
  unfolding write_loop
  write_loop-Always zero buf w o h = absurd (omega arith)
  write_loop-Always (suc fuel) buf w o h =
      Always-bind (Moved buf w) Any (write_turn-Always buf w) (λ w' m.
        Always-if Any (ltb w'.bytes_written (length buf))
          (λ e. Always-then (next_or_new-Always dev v w'.at_cluster) (λ next.
            write_loop-Always fuel buf (record w' { at_cluster = next }) (omega (arith, m.0))
              (omega (arith, m.1, ltb→lt w'.bytes_written (length buf) e))))
          (λ e. Always-done))

  read_from-Always :
      (cursor file_size : ℕ) (buf : List ℕ) (o : Option ℕ)
      → 0 < bytes_per_cluster v.bpb
      → Always Any (read_from dev v cursor file_size buf o)
  unfolding read_from
  read_from-Always cursor file_size buf none h = Always-done
  read_from-Always cursor file_size buf (some c) h =
      Always-then
        (read_loop-Always (suc (length buf)) cursor file_size _ (mod-lt cursor h) (omega arith))
        (λ r. Always-done)

  pub read_chain-Always :
      (cursor file_size first : ℕ) (buf : List ℕ)
      → 0 < bytes_per_cluster v.bpb
      → Always Any (read_chain dev v cursor file_size first buf)
  unfolding read_chain
  read_chain-Always cursor file_size first buf h =
      Always-then {f = read_from dev v cursor file_size buf} (skip-Always dev v _ first)
        (λ o. read_from-Always cursor file_size buf o h)

  pub write_chain-Always :
      (cursor first : ℕ) (buf : List ℕ)
      → 0 < bytes_per_cluster v.bpb
      → Always Any (write_chain dev v cursor first buf)
  unfolding write_chain
  write_chain-Always cursor first buf h =
      Always-then (skip_or_extend-Always dev v _ first)
        (λ c. write_loop-Always (suc (length buf)) buf _ (mod-lt cursor h) (omega arith))
