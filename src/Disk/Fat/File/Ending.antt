-- ===== src/Disk/Fat/File/Ending.antt =====
-- Reads and writes of a file end, whatever the device does and however the chain of clusters lies.
use zenos.Common.{
  ℕ, zero, suc, ◌+◌, ◌*◌, ◌≡◌, Bool, true, false, List, Option, none, some, ltb, ◌==◌,
  if◌then◌else◌, if_cases,
}
use zenos.Vfs.Error.{FileError}
use zenos.Disk.Device.{
  BlockDevice, Outcome, done, failed, out_of_fuel, M, pure, fail, ◌>>=◌, then_run, or_fail,
  filled_or, read_at, write_at, w32,
}
use zenos.Disk.Fat.Bpb.{FatType, fat12, fat16, fat32, Volume, fat_size}
use zenos.Disk.Fat.Table.{
  byte_offset, fat_free, is_eoc, total_clusters, decode, read_12, read_entry, write_mirrors,
  write_entry, allocate_from, allocate_cluster, read_cluster, write_cluster,
}
use zenos.Disk.Fat.File.{FatFile, skip, next_or_new, skip_or_extend, navigate, sync_entry}

-- A run has ended, and what it returned, if anything, satisfies this.
abbrev pub Ended : {S A : Type 0} → (A → Type 0) → S × Outcome A → Type 0
Ended P (s, done a) = P a
Ended P (s, failed e) = Unit {0}
Ended P (s, out_of_fuel) = ⊥

abbrev pub Any : {A : Type 0} → A → Type 0
Any a = Unit {0}

module _ {S : Type 0} where
  then_run-Ended :
      {A B : Type 0} (P : A → Type 0) (Q : B → Type 0) (f : A → M S B) (x : S × Outcome A)
      → Ended P x
      → ((a : A) (s : S) → P a → Ended Q (f a s))
      → Ended Q (then_run f x)
  then_run-Ended P Q f (s, done a) p k = k a s p
  then_run-Ended P Q f (s, failed e) p k = tt
  then_run-Ended P Q f (s, out_of_fuel) p k = p

  or_fail-Ended : (e : FileError) (x : S × Bool) → Ended {A = Unit {0}} Any (or_fail e x)
  or_fail-Ended e (s, true) = tt
  or_fail-Ended e (s, false) = tt

  filled_or-Ended :
      {A : Type 0} (e : FileError) (x : S × Option A) → Ended {A = A} Any (filled_or e x)
  filled_or-Ended e (s, some a) = tt
  filled_or-Ended e (s, none) = tt

  -- A program that ends from every state.
  pub record Always {A : Type 0} (P : A → Type 0) (m : M S A) : Type 0 where
    pub ends : (s : S) → Ended P (m s)

  pub Always-bind :
      {A B : Type 0} (P : A → Type 0) (Q : B → Type 0) {m : M S A} {f : A → M S B}
      → Always P m
      → ((a : A) → P a → Always Q (f a))
      → Always Q (m >>= f)
  Always-bind P Q {m} {f} h k = record {
    ends = λ s. then_run-Ended P Q f (m s) (h.ends s) (λ a s' p. (k a p).ends s');
  }

  pub Always-pure : {A : Type 0} (P : A → Type 0) (a : A) → P a → Always P (pure a)
  Always-pure P a p = record { ends = λ s. p }

  pub Always-if :
      {A : Type 0} (P : A → Type 0) (b : Bool) {m n : M S A}
      → (b ≡ true → Always P m)
      → (b ≡ false → Always P n)
      → Always P (if b then m else n)
  Always-if P b h k = if_cases (Always P) b h k

  pub Always-then :
      {A B : Type 0} {m : M S A} {f : A → M S B}
      → Always {A = A} Any m
      → ((a : A) → Always {A = B} Any (f a))
      → Always {A = B} Any (m >>= f)
  Always-then h k = Always-bind Any Any h (λ a p. k a)

  pub Always-choice :
      {A : Type 0} (b : Bool) {m n : M S A}
      → Always {A = A} Any m
      → Always {A = A} Any n
      → Always {A = A} Any (if b then m else n)
  Always-choice b h k = Always-if Any b (λ e. h) (λ e. k)

  pub Always-done : {A : Type 0} {a : A} → Always {A = A} Any (pure a)
  Always-done = Always-pure Any _ tt

  pub Always-fail : {A : Type 0} {e : FileError} → Always {A = A} Any (fail e)
  Always-fail = record { ends = λ s. tt }

  pub ruleset always = (Always-then, Always-choice, Always-done, Always-fail)

module _ {S : Type 0} (dev : BlockDevice S) where
  seek-Always : (e : FileError) (o : ℕ) → Always {A = Unit {0}} Any (λ s. or_fail e (dev.seek o s))
  seek-Always e o = record { ends = λ s. or_fail-Ended e (dev.seek o s) }

  device_read-Always :
      (e : FileError) (buf : List ℕ) → Always {A = List ℕ} Any (λ s. filled_or e (dev.read buf s))
  device_read-Always e buf = record { ends = λ s. filled_or-Ended e (dev.read buf s) }

  device_write-Always :
      (e : FileError) (buf : List ℕ) → Always {A = Unit {0}} Any (λ s. or_fail e (dev.write buf s))
  device_write-Always e buf = record { ends = λ s. or_fail-Ended e (dev.write buf s) }

  read_at-Always : (o : ℕ) (buf : List ℕ) → Always Any (read_at dev o buf)
  unfolding read_at
  read_at-Always o buf = search (always, seek-Always, device_read-Always)

  write_at-Always : (o : ℕ) (buf : List ℕ) → Always Any (write_at dev o buf)
  unfolding write_at
  write_at-Always o buf = search (always, seek-Always, device_write-Always)

module _ {S : Type 0} (dev : BlockDevice S) (v : Volume) where
  read_12-Always : (c : ℕ) (buf : List ℕ) → Always Any (read_12 dev v c buf)
  unfolding read_12
  read_12-Always c buf = search (always, read_at-Always dev)

  decode-Always : (k : FatType) (c : ℕ) (buf : List ℕ) → Always Any (decode dev v k c buf)
  unfolding decode
  decode-Always fat12 c buf = search (always, read_12-Always)
  decode-Always fat16 c buf = search always
  decode-Always fat32 c buf = search always

  pub read_entry-Always : (c : ℕ) → Always Any (read_entry dev v c)
  unfolding read_entry
  read_entry-Always c = search (always, read_at-Always dev, decode-Always)

  write_mirrors-Always :
      (left i sector : ℕ) (buf : List ℕ) → Always Any (write_mirrors dev v left i sector buf)
  unfolding write_mirrors
  write_mirrors-Always zero i sector buf = search always
  write_mirrors-Always (suc left) i sector buf =
      Always-then
        (write_at-Always dev (byte_offset v (w32 (sector + w32 (i * fat_size v.bpb)))) buf)
        (λ u. write_mirrors-Always left (i + 1) sector buf)

  write_entry-Always : (c value : ℕ) → Always Any (write_entry dev v c value)
  unfolding write_entry
  write_entry-Always c value =
      search (always, read_at-Always dev, write_at-Always dev, write_mirrors-Always)

  allocate_from-Always : (left c : ℕ) → Always Any (allocate_from dev v left c)
  unfolding allocate_from
  allocate_from-Always zero c = Always-fail
  allocate_from-Always (suc left) c = Always-then (read_entry-Always c) (λ entry.
      Always-choice (entry == fat_free) (search (always, write_entry-Always))
        (allocate_from-Always left (c + 1)))

  pub allocate_cluster-Always : Always Any (allocate_cluster dev v)
  unfolding allocate_cluster
  allocate_cluster-Always = allocate_from-Always (total_clusters v) 2

  pub read_cluster-Always : (c : ℕ) (buf : List ℕ) → Always Any (read_cluster dev v c buf)
  unfolding read_cluster
  read_cluster-Always c buf = read_at-Always dev _ buf

  pub write_cluster-Always : (c : ℕ) (buf : List ℕ) → Always Any (write_cluster dev v c buf)
  unfolding write_cluster
  write_cluster-Always c buf = write_at-Always dev _ buf

  pub skip-Always : (n c : ℕ) → Always Any (skip dev v n c)
  unfolding skip
  skip-Always zero c = Always-done
  skip-Always (suc n) c = Always-choice (ltb c 2) Always-done (
      Always-then (read_entry-Always c)
        (λ next. Always-choice (is_eoc v.kind next) Always-done (skip-Always n next)))

  pub next_or_new-Always : (c : ℕ) → Always Any (next_or_new dev v c)
  unfolding next_or_new
  next_or_new-Always c =
      search (always, read_entry-Always, allocate_cluster-Always, write_entry-Always)

  pub skip_or_extend-Always : (n c : ℕ) → Always Any (skip_or_extend dev v n c)
  unfolding skip_or_extend
  skip_or_extend-Always zero c = Always-done
  skip_or_extend-Always (suc n) c =
      Always-then (next_or_new-Always c) (λ next. skip_or_extend-Always n next)

  navigate-Always : (n c : ℕ) → Always Any (navigate dev v n c)
  unfolding navigate
  navigate-Always zero c = Always-done
  navigate-Always (suc n) c = Always-then (read_entry-Always c) (λ next. navigate-Always n next)

  pub sync_entry-Always : (f : FatFile) → Always Any (sync_entry dev v f)
  unfolding sync_entry
  sync_entry-Always f =
      search
        (always, write_at-Always dev, navigate-Always, read_cluster-Always, write_cluster-Always)
