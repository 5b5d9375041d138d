-- ===== src/Disk/Fat/File/Calls.antt =====
-- The calls on a file's handle end.
use zenos.Common.{ℕ, ◌<◌, ◌≢◌, List, ltb}
use zenos.Disk.Device.{BlockDevice, Outcome, done, failed, out_of_fuel, M}
use zenos.Disk.Fat.{first_cluster, set_first_cluster}
use zenos.Disk.Fat.Bpb.{Volume, bytes_per_cluster}
use zenos.Disk.Fat.File.{
  FatFile, Held, keeping, on_device, update, held_file, read, write, truncate, first_or_new,
}
use zenos.Disk.Fat.File.Ending.{
  Ended, Any, Always, always, Always-then, Always-choice, Always-done, sync_entry-Always,
  allocate_cluster-Always,
}
use zenos.Disk.Fat.File.Loops.{read_chain-Always, write_chain-Always}

module _ {S : Type 0} where
  keeping-Ended :
      {A : Type 0} (f : FatFile) (x : S × Outcome A)
      → Ended {A = A} Any x
      → Ended {A = A} Any (keeping f x)
  keeping-Ended f (s, done a) h = tt
  keeping-Ended f (s, failed e) h = tt
  keeping-Ended f (s, out_of_fuel) h = h

  on_device-Always :
      {A : Type 0} {m : M S A} → Always {A = A} Any m → Always {A = A} Any (on_device m)
  on_device-Always {m} h = record {
    ends = λ x. keeping-Ended x.file (m x.device) (h.ends x.device);
  }

  update-Always : (f : FatFile → FatFile) → Always {A = Unit {0}} Any (update {S = S} f)
  update-Always f = record { ends = λ h. tt }

  held_file-Always : Always {A = FatFile} Any (held_file {S = S})
  held_file-Always = record { ends = λ h. tt }

  ruleset handle = (on_device-Always, update-Always, held_file-Always)

module _ {S : Type 0} (dev : BlockDevice S) (v : Volume)
    (some_bytes : 0 < bytes_per_cluster v.bpb) where
  read-Always : (offset : ℕ) (buf : List ℕ) → Always Any (read dev v offset buf)
  unfolding read
  read-Always offset buf = search (always, handle, read_chain-Always dev v) depth 14

  first_or_new-Always : Always Any (first_or_new dev v)
  unfolding first_or_new
  first_or_new-Always = Always-then held_file-Always (λ f.
      Always-choice (ltb (first_cluster f.entry) 2)
        (Always-then {f = λ c. update (λ g. record g { entry = set_first_cluster c g.entry })}
          (on_device-Always (allocate_cluster-Always dev v)) (λ c. update-Always _))
        Always-done)

  write-Always : (offset : ℕ) (buf : List ℕ) → Always Any (write dev v offset buf)
  unfolding write
  write-Always offset buf =
      search
        (always, handle, first_or_new-Always, write_chain-Always dev v, sync_entry-Always dev v)
        depth 20

  truncate-Always : (size : ℕ) → Always Any (truncate dev v size)
  unfolding truncate
  truncate-Always size =
      search (always, handle, read-Always, write-Always, sync_entry-Always dev v) depth 16

  abbrev Returned : {A : Type 0} → Held S × Outcome A → Type 0
  Returned x = x.1 ≢ out_of_fuel

  Ended-Returned : {A : Type 0} (x : Held S × Outcome A) → Ended {A = A} Any x → Returned x
  Ended-Returned (h, done a) e = λ q. cc
  Ended-Returned (h, failed a) e = λ q. cc
  Ended-Returned (h, out_of_fuel) e = absurd e

  -- On any device and any disk, where a cluster is not empty: a read, a write and a truncation of a
  -- file return, with a result or with an error, also where the chain of clusters runs in a circle.
  pub calls_return :
      (h : Held S) (offset size : ℕ) (buf : List ℕ)
      → ((read dev v offset buf h).1 ≢ out_of_fuel)
        × ((write dev v offset buf h).1 ≢ out_of_fuel)
        × ((truncate dev v size h).1 ≢ out_of_fuel)
  calls_return h offset size buf = (
    Ended-Returned (read dev v offset buf h) ((read-Always offset buf).ends h),
    Ended-Returned (write dev v offset buf h) ((write-Always offset buf).ends h),
    Ended-Returned (truncate dev v size h) ((truncate-Always size).ends h),
  )
